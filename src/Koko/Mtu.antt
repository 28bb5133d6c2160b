-- ===== src/Koko/Mtu.antt =====
-- The MTU that AddVxLanInterface of internal/koko/koko.go gives a VXLAN interface.
use meshnet_cni.Prelude.{
  ℕ, ◌+◌, ◌-◌, ◌≤◌, ◌<◌, ◌≡◌, ◌||◌, ltb, ◌==◌, nat_eq, nat_beq_iff, if◌then◌else◌, arith,
}
use meshnet_cni.Koko.{vxlan_ipv4_overhead, vxlan_mtu}

-- Over a parent whose MTU is above the VXLAN overhead, the interface has an MTU that fits with the
-- overhead: the one asked for if one is and it fits, and otherwise the greatest that does.
pub vxlan_mtu_fits :
    (mtu parent_mtu : ℕ)
    → vxlan_ipv4_overhead < parent_mtu
    → (0 < vxlan_mtu mtu parent_mtu)
      × (vxlan_mtu mtu parent_mtu + vxlan_ipv4_overhead ≤ parent_mtu)
      × (vxlan_mtu mtu parent_mtu ≡ (
          if mtu == 0 || ltb parent_mtu (mtu + vxlan_ipv4_overhead)
          then parent_mtu - vxlan_ipv4_overhead
          else mtu))
unfolding vxlan_mtu
vxlan_mtu_fits mtu parent h = (
  ground (arith, nat_beq_iff mtu 0),
  ground (arith, nat_beq_iff mtu 0),
  ground (arith, nat_beq_iff mtu 0),
)
