-- ===== src/Forward/Crash/Examples.antt =====
-- Frames that bring the thread of a wire down.
use meshnet_cni.Prelude.{
  length, none, ℕ, zero, suc, ◌≡◌, refl, ap, ◌∙◌, ◌<◌, true, Option, some, [], ◌∷◌, ◌++◌, nat_eq,
  string_eq, pair_eq, arith,
}
use mathlib.Core.Option.{some-injective}
use meshnet_cni.Decode.{Parsed, reads}
use meshnet_cni.Decode.Packet.{llc, Vlan, Layers, Ethernet, Gopacket, parse_frame}
use meshnet_cni.Forward.{Frame, stop, captured, panicked, forward}
use meshnet_cni.Forward.Crossing.{captures, written_to}
use meshnet_cni.Forward.Crash.{merged_packets_crash, empty_llc_crashes}
use meshnet_cni.Forward.Examples.{mine, pings, network, leads}

-- Packets of 742 bytes, of which a third is cut short.
abbrev long_packets : Frame → Parsed
long_packets frame = reads 728

abbrev zeros : ℕ → Frame
zeros zero = []
zeros (suc n) = 0 ∷ zeros n

merged_packets_crash_example :
    forward long_packets mine
      (captures network pings ++ captured (zeros 1600) network true ∷ stop ∷ [])
    ≡ (written_to 5 pings, panicked)
merged_packets_crash_example =
    merged_packets_crash long_packets mine network network 5 pings (zeros 1600) true (stop ∷ []) 728
      728 leads (omega arith) (omega arith) refl refl (omega arith) (omega arith)

-- Every frame has an LLC header of IS-IS without a payload.
abbrev empty_llc : Layers
empty_llc = record {
  ipv4_length = none;
  ipv6_length = none;
  llc_layer = some (record { dsap = 254; ssap = 254; control = 3; payload = [] });
  vlan = none;
}

abbrev isis : Ethernet
isis = record { next = llc; length = 3; layers = empty_llc }

no_vlan :
    (f : Frame) (e : Ethernet) (v : Vlan)
    → ◌≡◌ {A = Option Ethernet} (some isis) (some e)
    → e.layers.vlan ≡ some v
    → length v.payload < length f
no_vlan f e v found h =
    let tag : ◌≡◌ {A = Option Vlan} none (some v) =
      ap (λ (x : Ethernet). x.layers.vlan) (some-injective _ _ found) ∙ h in
    cc

abbrev reader : Gopacket
reader = record {
  ethernet = λ f. some isis;
  dissect = λ t b. empty_llc;
  ethernet_payload = λ f e v found. no_vlan f e v found;
  dissect_payload = λ t b v e. no_vlan b isis v refl e;
}

empty_llc_crashes_example :
    forward
      (parse_frame reader)
      mine
      (captures network pings ++ captured (zeros 1519) network true ∷ stop ∷ [])
    ≡ (written_to 5 pings, panicked)
empty_llc_crashes_example =
    empty_llc_crashes reader mine network network 5 pings (zeros 1519) true (stop ∷ []) isis 254 254
      3 leads (omega arith) (omega arith) refl refl refl refl
