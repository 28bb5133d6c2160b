-- ===== src/Recon/Examples.antt =====
-- A node with one wire that can be taken up, one whose interface is gone, and items and objects that
-- cannot be read.
use meshnet_cni.Prelude.{
  ◌++◌, refl, ℕ, ◌≡◌, false, String, Option, none, some, List, [], ◌∷◌, ◌==◌, string_eq,
  if◌then◌else◌, All,
}
use meshnet_cni.Wire.{GrpcWire, host_created_wire, start, get_wire}
use meshnet_cni.DataStore.{
  GWireStatus, Item, not_map, bad_map, status, create_wire_status, is_same, upsert_grpc_wire_items,
}
use meshnet_cni.Recon.{Kernel, recon_gwires}
use meshnet_cni.Recon.Restore.{ObjectRestored, recon_restores}
use meshnet_cni.Recon.Survival.{after_restart, wire_survives_restart}

abbrev recorded : ℕ → String → GWireStatus
recorded link name = record {
  local_node_name = "node1";
  link_id = link;
  topo_namespace = "lab";
  local_pod_net_ns = "/var/run/netns/a";
  local_pod_name = "r1";
  local_pod_ip = "";
  local_pod_iface_name = "eth1";
  wire_iface_name_on_local_node = name;
  wire_iface_id_on_peer_node = 41;
  gwire_peer_node_ip = "10.0.0.2";
}

abbrev one_interface : Kernel
one_interface = record {
  index_of = λ name. if name == "r1eth1-0001" then some 17 else none;
  opens = λ name. if name == "r1eth1-0001" then some 3 else none;
}

abbrev objects : List (Option (List Item))
objects =
    none
    ∷ some (
        not_map 1
        ∷ status (recorded 1 "r1eth1-0009")
        ∷ bad_map 2
        ∷ status (recorded 2 "r1eth1-0001")
        ∷ [])
    ∷ []

recon_restores_example :
    let (failed, s) = recon_gwires one_interface (some objects) start in
    (failed ≡ false) × All (ObjectRestored one_interface s) objects
recon_restores_example = recon_restores one_interface objects start

-- A wire of the node, as it was when its status was stored again.
abbrev wire : GrpcWire
wire = record {
  uid = 2;
  topo_namespace = "lab";
  local_node_iface_id = 17;
  local_node_iface_name = "r1eth1-0001";
  local_pod_ip = "";
  local_pod_name = "r1";
  local_pod_iface_name = "eth1";
  local_pod_net_ns = "/var/run/netns/a";
  wire_iface_id_on_peer_node = 41;
  peer_node_ip = "10.0.0.2";
  is_ready = false;
  originator = host_created_wire;
  originator_ip = "unknown";
  stop_c = 4;
}

abbrev items_before : List Item
items_before =
    not_map 1
    ∷ status (recorded 1 "r1eth1-0009")
    ∷ status (recorded 2 "r1eth1-0003")
    ∷ bad_map 2
    ∷ []

abbrev others : List (Option (List Item))
others = none ∷ some (status (recorded 3 "r1eth1-0001") ∷ []) ∷ []

wire_survives_restart_example :
    let stored = upsert_grpc_wire_items items_before (create_wire_status wire "node1") in
    let (failed, s) = recon_gwires one_interface (some (others ++ some stored ∷ [])) start in
    (failed ≡ false) × ((c : ℕ) × (get_wire "/var/run/netns/a" 2 s ≡ some (after_restart c wire)))
unfolding create_wire_status is_same
wire_survives_restart_example =
    wire_survives_restart one_interface wire "node1" 3 items_before others [] refl refl
      (tt, ((λ own. own), ((λ own. own), (tt, tt)))) (tt, ((refl, tt), tt)) tt
