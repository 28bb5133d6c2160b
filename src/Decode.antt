-- ===== src/Decode.antt =====
-- DecodeFrame of daemon/grpcwire/wire-decode.go, as far as the frame is cut into packets. Reading a packet
-- is the parameter `parse`; module Decode/Packet has what DecodePkt makes of gopacket's layers.
pub mod Cuts
pub mod Packet
pub mod Empty
mod Examples
use meshnet_cni.Prelude.{ℕ, zero, suc, ◌+◌, ◌≤◌, List, [], ◌∷◌, leb, ltb, length, if◌then◌else◌}

-- The count of packets at the end, the panic of a slice out of range, or no fuel left.
pub data Decoded : Type 0 where
  packets : ℕ → Decoded
  panics out_of_fuel : Decoded

-- What is read of the packet at the start of a frame: no Ethernet layer, a length, or a panic;
-- `too_deep` is that there was no fuel left.
pub data Parsed : Type 0 where
  no_ethernet crashes too_deep : Parsed
  reads : (length : ℕ) → Parsed

-- frame[n:]
abbrev pub drop {ℓ} : {A : Type ℓ} → ℕ → List A → List A
drop zero l = l
drop (suc n) [] = []
drop (suc n) (x ∷ l) = drop n l

unfoldable pub decode_loop : (List ℕ → Parsed) → ℕ → ℕ → List ℕ → ℕ → ℕ → Decoded
decode_loop parse total zero frame decoded num = out_of_fuel
decode_loop parse total (suc fuel) frame decoded num = elim (parse frame) [
  | no_ethernet ↦ packets num
  | crashes ↦ panics
  | too_deep ↦ out_of_fuel
  | reads len ↦
      let decoded' = decoded + (14 + len) in
      let rest = decode_loop parse total fuel (drop decoded' frame) decoded' (num + 1) in
      if leb (decoded' + 14) total
      then (if ltb (length frame) decoded' then panics else rest)
      else packets num
]

-- Every round but the last decodes a header at least, so a round for each byte is enough.
unfoldable pub decode_frame : (List ℕ → Parsed) → List ℕ → Decoded
unfolding decode_loop
decode_frame parse frame = decode_loop parse (length frame) (suc (length frame)) frame 0 1
