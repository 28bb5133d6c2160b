-- ===== src/Stale/Examples.antt =====
-- The theorems on leftover interfaces at concrete daemons.
use meshnet_cni.Prelude.{◌≡◌, ◌↔◌, ◌&&◌, not, Option, true, false, none, some, [], ◌∷◌, refl}
use meshnet_cni.DataStore.{GWireStatus, upsert_grpc_wire_items}
use meshnet_cni.Wire.{WireDef, start, get_wire}
use meshnet_cni.Stale.{LinkInfo, ensure, recorded_in}
use meshnet_cni.Stale.Safety.{is_taken, removes_iff, stored_never_removed}

abbrev leftover : LinkInfo
leftover = record { present = true; is_veth = true }

abbrev link_one : WireDef
link_one = record {
  link_uid = 1;
  local_pod_ip = "";
  intf_name_in_pod = "eth1";
  local_pod_name = "r1";
  local_pod_net_ns = "/var/run/netns/a";
  wire_if_id_on_peer_node = 41;
  peer_node_ip = "10.0.0.2";
  wire_if_name_on_local_node = "";
  topo_ns = "lab";
}

removes_iff_example :
    let v = ensure (some leftover) link_one start (some []) true in
    ((v.removes ≡ true) ↔ (
      (◌≡◌ {A = Option LinkInfo} (some leftover) (some (record { present = true; is_veth = true })))
      × (get_wire "/var/run/netns/a" 1 start ≡ none)
      × (recorded_in link_one (some []) ≡ some false)))
    × (v.refuses ≡ (is_taken (some leftover) && not (v.removes && true)))
removes_iff_example = removes_iff (some leftover) link_one start (some []) true

abbrev recorded : GWireStatus
recorded = record {
  local_node_name = "node-1";
  link_id = 1;
  topo_namespace = "lab";
  local_pod_net_ns = "/var/run/netns/a";
  local_pod_name = "r1";
  local_pod_ip = "";
  local_pod_iface_name = "eth1";
  wire_iface_name_on_local_node = "r1eth1-0001";
  wire_iface_id_on_peer_node = 41;
  gwire_peer_node_ip = "10.0.0.2";
}

stored_never_removed_example :
    let objects = none ∷ some (upsert_grpc_wire_items [] recorded) ∷ [] in
    ((ensure (some leftover) link_one start (some objects) true).removes ≡ false)
    × ((ensure (some leftover) link_one start none true).removes ≡ false)
    × ((ensure (some leftover) link_one start (some objects) true).refuses ≡ true)
stored_never_removed_example =
    stored_never_removed (some leftover) link_one start (none ∷ []) [] [] recorded true refl refl
