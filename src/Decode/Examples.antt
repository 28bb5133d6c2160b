-- ===== src/Decode/Examples.antt =====
-- DecodeFrame at concrete frames.
use meshnet_cni.Prelude.{
  ℕ, zero, suc, ◌<◌, ◌≡◌, ◌≢◌, refl, ap, ◌∙◌, Option, none, some, List, [], ◌∷◌, length, arith,
}
use mathlib.Core.Option.{some-injective}
use meshnet_cni.Decode.{Parsed, reads, packets, out_of_fuel, decode_frame}
use meshnet_cni.Decode.Packet.{dot1q, arp, Vlan, Layers, Ethernet, Gopacket, parse_frame}
use meshnet_cni.Decode.Empty.{decoding_ends}

abbrev zeros : ℕ → List ℕ
zeros zero = []
zeros (suc n) = 0 ∷ zeros n

-- Every packet is an ARP packet: 28 bytes after the header.
abbrev arps : List ℕ → Parsed
arps frame = reads 28

two_packets : decode_frame arps (zeros 84) ≡ packets 2
unfolding decode_frame
two_packets = refl

-- The payload of a VLAN layer is what follows the first byte, and is an ARP packet.
abbrev tagged : List ℕ → Layers
tagged [] = record { ipv4_length = none; ipv6_length = none; llc_layer = none; vlan = none }
tagged (x ∷ rest) = record {
  ipv4_length = none;
  ipv6_length = none;
  llc_layer = none;
  vlan = some (record { next = arp; type = 2054; payload = rest });
}

tagged_shorter : (b : List ℕ) (v : Vlan) → (tagged b).vlan ≡ some v → length v.payload < length b
tagged_shorter [] v e = cc
tagged_shorter (x ∷ rest) v e = ground arith

ethernet_shorter :
    (f : List ℕ) (e : Ethernet) (v : Vlan)
    → ◌≡◌ {A = Option Ethernet}
        (some (record { next = dot1q; length = 0; layers = tagged f }))
        (some e)
    → e.layers.vlan ≡ some v
    → length v.payload < length f
ethernet_shorter f e v found h =
    tagged_shorter f v (ap (λ (x : Ethernet). x.layers.vlan) (some-injective _ _ found) ∙ h)

abbrev tags : Gopacket
tags = record {
  ethernet = λ f. some (record { next = dot1q; length = 0; layers = tagged f });
  dissect = λ t b. tagged b;
  ethernet_payload = λ f e v found. ethernet_shorter f e v found;
  dissect_payload = λ t b. tagged_shorter b;
}

decoding_ends_example : decode_frame (parse_frame tags) (zeros 126) ≢ out_of_fuel
decoding_ends_example = decoding_ends tags (zeros 126)
