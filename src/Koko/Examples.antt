-- ===== src/Koko/Examples.antt =====
-- A pair of interfaces whose second end cannot be put into its namespace, and the names that the
-- prefix of the datapath interfaces takes in.
use meshnet_cni.Prelude.{
  ◌+◌, ◌≤◌, ◌<◌, ◌≡◌, refl, true, false, String, some, [], ◌∷◌, nat_eq, arith,
}
use meshnet_cni.Protocol.Names.{codes}
use meshnet_cni.Koko.{
  VEth, SetAnswers, is_datapath_iface, temp_name, make_veth_pair, vxlan_mtu, vxlan_ipv4_overhead,
}
use meshnet_cni.Koko.Cleanup.{Outcome, make_veth_pair-Outcome}
use meshnet_cni.Koko.Mtu.{vxlan_mtu_fits}

eno1_is_taken_in : is_datapath_iface (codes "eno1") (codes "eno") ≡ true
unfolding is_datapath_iface
eno1_is_taken_in = refl

enob1_is_not : is_datapath_iface (codes "enob1") (codes "eno") ≡ false
unfolding is_datapath_iface
enob1_is_not = refl

eno_is_not : is_datapath_iface (codes "eno") (codes "eno") ≡ false
unfolding is_datapath_iface
eno_is_not = refl

abbrev all_set : SetAnswers
all_set = record {
  ns_opened = true;
  fd_fits = true;
  moved = true;
  looked_up = true;
  renamed = true;
  ipv6_enabled = λ a. true;
  addr_added = λ a. true;
  state_set = true;
}

abbrev end_of : String → VEth
end_of ns = record {
  ns_name = ns;
  link_name = "eno1";
  ip_addr = record { text = "12.12.12.1/24"; is_v4 = true } ∷ [];
  mtu = 0;
}

make_veth_pair-Outcome_example :
    Outcome
      (some (codes "eno"))
      (end_of "a")
      (end_of "b")
      (temp_name (end_of "a") "koko1")
      (temp_name (end_of "b") "koko2")
      true
      true
      (make_veth_pair
        (some (codes "eno"))
        (end_of "a")
        (end_of "b")
        "koko1"
        "koko2"
        true
        true
        all_set
        (record all_set { renamed = false }))
make_veth_pair-Outcome_example =
    make_veth_pair-Outcome (some (codes "eno")) (end_of "a") (end_of "b") "koko1" "koko2" true true
      all_set (record all_set { renamed = false })

vxlan_mtu_fits_example :
    (0 < vxlan_mtu 9000 1500)
    × (vxlan_mtu 9000 1500 + vxlan_ipv4_overhead ≤ 1500)
    × (vxlan_mtu 9000 1500 ≡ 1450)
vxlan_mtu_fits_example = vxlan_mtu_fits 9000 1500 (omega arith)
