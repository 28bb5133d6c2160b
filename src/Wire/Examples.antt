-- ===== src/Wire/Examples.antt =====
-- The wire theorems at concrete daemons.
use meshnet_cni.Prelude.{
  ◌≡◌, ◌≢◌, refl, All, true, none, some, List, [], ◌∷◌, arith, nat_eq, string_eq, pair_eq,
}
use meshnet_cni.Wire.{
  Daemon, GrpcWire, WireDef, gone, removed, start, create_gwire, delete_pod_wires, key_of,
}
use meshnet_cni.Wire.Steps.{Op, adds_local, adds_remote, downs, removes, run}
use meshnet_cni.Wire.IfName.{Name, gen_node_iface_name, seed_index_from_host}
use meshnet_cni.Wire.IfName.Fresh.{fresh_name}
use meshnet_cni.Wire.Channels.Invariant.{Inv, Safe}
use meshnet_cni.Wire.Channels.Removal.{Drained, delete_pod_wires-Drained}
use meshnet_cni.Wire.Channels.Safety.{start-run-Safe}

abbrev link_one : WireDef
link_one = record {
  link_uid = 1;
  local_pod_ip = "12.12.12.1/24";
  intf_name_in_pod = "eth1";
  local_pod_name = "r1";
  local_pod_net_ns = "/var/run/netns/a";
  wire_if_id_on_peer_node = 41;
  peer_node_ip = "10.0.0.2";
  wire_if_name_on_local_node = "r1eth1-0001";
  topo_ns = "lab";
}

abbrev history : List Op
history =
    adds_local (some 17) (some 3) link_one
    ∷ adds_remote none link_one
    ∷ downs link_one
    ∷ downs link_one
    ∷ removes (λ i. removed) link_one
    ∷ []

start-run-Safe_example : Safe (run start history)
start-run-Safe_example = start-run-Safe history

abbrev held : GrpcWire
held = record (create_gwire 17 "r1eth1-0001" 0 link_one) { is_ready = true }

abbrev holding : Daemon
holding = record start { wires = (key_of held, held) ∷ []; next_chan = 1 }

holding-Inv : Inv holding
unfolding create_gwire
holding-Inv = record {
  live = (record { keyed = refl; made = omega arith; is_open = λ r. refl }, tt);
  apart = (tt, tt);
  made = tt;
}

delete_pod_wires-Drained_example :
    Drained "lab" "r1" (delete_pod_wires (λ i. gone) "lab" "r1" holding)
delete_pod_wires-Drained_example =
    delete_pod_wires-Drained (λ i. gone) "lab" "r1" holding holding-Inv

-- The characters of "r1", of "eth1", of "r1eth1-0041" and of "eth0".
abbrev node_interfaces : List Name
node_interfaces =
    (114 ∷ 49 ∷ 101 ∷ 116 ∷ 104 ∷ 49 ∷ 45 ∷ 48 ∷ 48 ∷ 52 ∷ 49 ∷ [])
    ∷ (101 ∷ 116 ∷ 104 ∷ 48 ∷ [])
    ∷ []

seeded_at_41 : seed_index_from_host (some node_interfaces) 0 ≡ 41
unfolding seed_index_from_host
seeded_at_41 = refl

fresh_name_example :
    All
      (λ name.
        name
        ≢ (gen_node_iface_name
            (114 ∷ 49 ∷ [])
            (101 ∷ 116 ∷ 104 ∷ 49 ∷ [])
            (seed_index_from_host (some node_interfaces) 0)).0)
      node_interfaces
fresh_name_example =
    fresh_name node_interfaces 0 (114 ∷ 49 ∷ []) (101 ∷ 116 ∷ 104 ∷ 49 ∷ [])
      (omega (arith, seeded_at_41))

-- After 9999 the next name is one that may be there.
seeded_at_9999 :
    (gen_node_iface_name (114 ∷ 49 ∷ []) (101 ∷ 116 ∷ 104 ∷ 49 ∷ []) 9999).0
    ≡ 114 ∷ 49 ∷ 101 ∷ 116 ∷ 104 ∷ 49 ∷ 45 ∷ 48 ∷ 48 ∷ 48 ∷ 48 ∷ []
unfolding gen_node_iface_name
seeded_at_9999 = refl
