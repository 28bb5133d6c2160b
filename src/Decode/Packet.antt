-- ===== src/Decode/Packet.antt =====
-- DecodePkt, decodeIPv4Pkt and decodeIPv6Pkt of daemon/grpcwire/wire-decode.go: the length that is
-- read of a packet, of which the texts for the log are left out. What gopacket finds is an argument.
use meshnet_cni.Prelude.{
  ℕ, zero, suc, ◌+◌, ◌<◌, ◌≡◌, Bool, true, false, ◌&&◌, Option, none, some, List, [], ◌∷◌, ◌==◌,
  nat_eq, length, if◌then◌else◌,
}
use meshnet_cni.Decode.{Parsed, no_ethernet, crashes, too_deep, reads}

-- gopacket.LayerType, of the types that are told apart here; `zero_layer` is LayerTypeZero.
pub data LayerType : Type 0 where
  ipv4 ipv6 llc arp dot1q zero_layer other_layer : LayerType

pub record Llc : Type 0 where
  pub dsap : ℕ
  pub ssap : ℕ
  pub control : ℕ
  pub payload : List ℕ

pub record Vlan : Type 0 where
  pub next : LayerType
  pub type : ℕ
  pub payload : List ℕ

-- The layers of a packet: of the IP layers, the length in their header.
pub record Layers : Type 0 where
  pub ipv4_length : Option ℕ
  pub ipv6_length : Option ℕ
  pub llc_layer : Option Llc
  pub vlan : Option Vlan

pub record Ethernet : Type 0 where
  pub next : LayerType
  pub length : ℕ
  pub layers : Layers

-- gopacket.NewPacket, of a frame and of the bytes of another layer. The payload of a VLAN layer is a
-- part of what was read.
pub record Gopacket : Type 0 where
  pub ethernet : List ℕ → Option Ethernet
  pub dissect : LayerType → List ℕ → Layers
  pub ethernet_payload :
      (f : List ℕ) (e : Ethernet) (v : Vlan)
      → ethernet f ≡ some e
      → e.layers.vlan ≡ some v
      → length v.payload < length f
  pub dissect_payload :
      (t : LayerType) (b : List ℕ) (v : Vlan)
      → (dissect t b).vlan ≡ some v
      → length v.payload < length b

abbrev pub or_zero : Option ℕ → ℕ
or_zero none = 0
or_zero (some n) = n

-- decodeIPv4Pkt and decodeIPv6Pkt
unfoldable pub decode_ipv4_pkt : Layers → ℕ
decode_ipv4_pkt p = or_zero p.ipv4_length

unfoldable pub decode_ipv6_pkt : Layers → ℕ
decode_ipv6_pkt p = or_zero p.ipv6_length

-- 0xFE, 0xFE, 0x3
abbrev pub is_iso : ℕ → ℕ → ℕ → Bool
is_iso a b c = (a == 254) && (b == 254) && (c == 3)

-- A read of payload[0] that is out of range panics.
unfoldable pub decode_llc : Option Llc → ℕ → Parsed
decode_llc none n = reads n
decode_llc (some l) n =
    if is_iso l.dsap l.ssap l.control
    then elim l.payload [ [] ↦ crashes | x ∷ rest ↦ reads n ]
    else reads n

-- The first bytes of a payload are those of the LLC header: reads stop at the first that differs.
unfoldable pub starts_iso : List ℕ → Option Bool
starts_iso [] = none
starts_iso (a ∷ []) = if a == 254 then none else some false
starts_iso (a ∷ b ∷ []) = if a == 254 then (if b == 254 then none else some false) else some false
starts_iso (a ∷ b ∷ c ∷ rest) = some (is_iso a b c)

-- The length of a VLAN header is added.
abbrev pub with_vlan : Parsed → Parsed
with_vlan (reads n) = reads (n + 4)
with_vlan no_ethernet = no_ethernet
with_vlan crashes = crashes
with_vlan too_deep = too_deep

-- The part of DecodePkt for a VLAN layer, over what it makes of the payload as another layer.
unfoldable pub decode_vlan :
    (LayerType → ℕ → Parsed) → (next : LayerType) → (type : ℕ) → (iso : Option Bool) → Parsed
decode_vlan inner zero_layer type none = crashes
decode_vlan inner zero_layer type (some true) = with_vlan (inner llc type)
decode_vlan inner zero_layer type (some false) = reads 0
decode_vlan inner next type iso = with_vlan (inner next 0)

-- DecodePkt; every call of itself is for the payload of a VLAN layer.
unfoldable pub decode_pkt : Gopacket → ℕ → Layers → LayerType → ℕ → Parsed
unfolding decode_ipv4_pkt decode_ipv6_pkt decode_llc starts_iso decode_vlan
decode_pkt g zero p t n = too_deep
decode_pkt g (suc fuel) p ipv4 n = reads (decode_ipv4_pkt p)
decode_pkt g (suc fuel) p ipv6 n = reads (decode_ipv6_pkt p)
decode_pkt g (suc fuel) p llc n = decode_llc p.llc_layer n
decode_pkt g (suc fuel) p arp n = reads 28
decode_pkt g (suc fuel) p zero_layer n = reads 0
decode_pkt g (suc fuel) p other_layer n = reads 0
decode_pkt g (suc fuel) p dot1q n = elim p.vlan [
  | none ↦ reads 0
  | some v ↦
      decode_vlan (λ t m. decode_pkt g fuel (g.dissect t v.payload) t m) v.next v.type
        (starts_iso v.payload)
]

-- The packet at the start of a frame.
unfoldable pub parse_frame : Gopacket → List ℕ → Parsed
unfolding decode_pkt
parse_frame g f = elim (g.ethernet f) [
  | none ↦ no_ethernet
  | some e ↦ decode_pkt g (suc (length f)) e.layers e.next e.length
]
