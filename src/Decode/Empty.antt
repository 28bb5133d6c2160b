-- ===== src/Decode/Empty.antt =====
-- Decoding a frame ends, however VLAN layers are nested, and panics on an LLC header without a payload.
use meshnet_cni.Prelude.{
  ℕ, zero, suc, ◌<◌, ◌≡◌, ◌≢◌, refl, sym, subst, inl, inr, Bool, true, false, Option, none, some,
  List, [], nat_eq, length, Option-cases, arith,
}
use meshnet_cni.Decode.{
  Parsed, no_ethernet, crashes, too_deep, reads, panics, out_of_fuel, decode_loop, decode_frame,
}
use meshnet_cni.Decode.Cuts.{decode_frame_ends}
use meshnet_cni.Decode.Packet.{
  LayerType, ipv4, ipv6, llc, arp, dot1q, zero_layer, other_layer, Llc, Vlan, Layers, Ethernet,
  Gopacket, is_iso, decode_llc, starts_iso, with_vlan, decode_vlan, decode_pkt, parse_frame,
}

with_vlan_ends : (p : Parsed) → p ≢ too_deep → with_vlan p ≢ too_deep
with_vlan_ends (reads n) h = λ e. cc
with_vlan_ends no_ethernet h = λ e. cc
with_vlan_ends crashes h = λ e. cc
with_vlan_ends too_deep h = absurd (h refl)

vlan_ends :
    (inner : LayerType → ℕ → Parsed) (next : LayerType) (type : ℕ) (iso : Option Bool)
    → ((t : LayerType) (n : ℕ) → inner t n ≢ too_deep)
    → decode_vlan inner next type iso ≢ too_deep
unfolding decode_vlan
vlan_ends inner zero_layer type none h = λ e. cc
vlan_ends inner zero_layer type (some true) h = with_vlan_ends (inner llc type) (h llc type)
vlan_ends inner zero_layer type (some false) h = λ e. cc
vlan_ends inner ipv4 type iso h = with_vlan_ends (inner ipv4 0) (h ipv4 0)
vlan_ends inner ipv6 type iso h = with_vlan_ends (inner ipv6 0) (h ipv6 0)
vlan_ends inner llc type iso h = with_vlan_ends (inner llc 0) (h llc 0)
vlan_ends inner arp type iso h = with_vlan_ends (inner arp 0) (h arp 0)
vlan_ends inner dot1q type iso h = with_vlan_ends (inner dot1q 0) (h dot1q 0)
vlan_ends inner other_layer type iso h = with_vlan_ends (inner other_layer 0) (h other_layer 0)

llc_ends : (o : Option Llc) (n : ℕ) → decode_llc o n ≢ too_deep
unfolding decode_llc
llc_ends none n = λ e. cc
llc_ends (some l) n = ground arith

pkt_ends :
    (g : Gopacket) (fuel : ℕ) (p : Layers) (t : LayerType) (n : ℕ)
    → ((v : Vlan) → p.vlan ≡ some v → length v.payload < fuel)
    → decode_pkt g (suc fuel) p t n ≢ too_deep
unfolding decode_pkt
pkt_ends g fuel p ipv4 n h = λ e. cc
pkt_ends g fuel p ipv6 n h = λ e. cc
pkt_ends g fuel p llc n h = llc_ends p.llc_layer n
pkt_ends g fuel p arp n h = λ e. cc
pkt_ends g fuel p zero_layer n h = λ e. cc
pkt_ends g fuel p other_layer n h = λ e. cc
pkt_ends g zero p dot1q n h = elim (Option-cases p.vlan) [
  | inl untagged ↦ rw (untagged, decode_pkt) (λ e. cc)
  | inr (v, tagged) ↦ absurd (omega (arith, h v tagged))
]
pkt_ends g (suc fuel) p dot1q n h = elim (Option-cases p.vlan) [
  | inl untagged ↦ rw (untagged, decode_pkt) (λ e. cc)
  | inr (v, tagged) ↦
      rw (tagged, decode_pkt)
        (vlan_ends (λ t m. decode_pkt g (suc fuel) (g.dissect t v.payload) t m) v.next v.type
          (starts_iso v.payload)
          (λ t m.
            pkt_ends g fuel (g.dissect t v.payload) t m
              (λ v' e. omega (arith, h v tagged, g.dissect_payload t v.payload v' e))))
]

parse_ends : (g : Gopacket) (f : List ℕ) → parse_frame g f ≢ too_deep
unfolding parse_frame
parse_ends g f = elim (Option-cases (g.ethernet f)) [
  | inl other ↦ rw (other, parse_frame) (λ e. cc)
  | inr (e, found) ↦
      rw (found, parse_frame)
        (pkt_ends g (length f) e.layers e.next e.length
          (λ v tagged. g.ethernet_payload f e v found tagged))
]

-- DecodeFrame ends on every frame, however many packets it holds and however deep VLAN layers are
-- nested in them, if gopacket gives the payload of a VLAN layer as a proper part of what it has read.
pub decoding_ends : (g : Gopacket) (f : List ℕ) → decode_frame (parse_frame g) f ≢ out_of_fuel
decoding_ends g f = decode_frame_ends (parse_frame g) f (parse_ends g)

empty_crashes :
    (g : Gopacket) (fuel : ℕ) (p : Layers) (t : LayerType) (n : ℕ) (d s c : ℕ)
    → t ≡ llc
    → p.llc_layer ≡ some (record { dsap = d; ssap = s; control = c; payload = [] })
    → is_iso d s c ≡ true
    → decode_pkt g (suc fuel) p t n ≡ crashes
unfolding decode_pkt decode_llc
empty_crashes g fuel p t n d s c et ep iso =
    subst (λ x. decode_pkt g (suc fuel) p x n ≡ crashes) (sym et)
      (rw (ep, decode_llc) (rw iso refl))

-- An LLC header of IS-IS that has no payload makes DecodeFrame panic, which reads the first byte of
-- the payload.
pub empty_llc_panics :
    (g : Gopacket) (f : List ℕ) (e : Ethernet) (d s c : ℕ)
    → g.ethernet f ≡ some e
    → e.next ≡ llc
    → e.layers.llc_layer ≡ some (record { dsap = d; ssap = s; control = c; payload = [] })
    → is_iso d s c ≡ true
    → decode_frame (parse_frame g) f ≡ panics
unfolding decode_frame decode_loop parse_frame
empty_llc_panics g f e d s c found next header iso =
    let down : parse_frame g f ≡ crashes =
      rw (found, parse_frame)
        (empty_crashes g (length f) e.layers e.next e.length d s c next header iso) in
    rw (down, decode_loop) refl
