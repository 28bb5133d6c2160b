-- ===== src/Recon.antt =====
-- ReconGWires and reCreateGWire of daemon/grpcwire/gwire_recon.go: a daemon that starts takes up the
-- wires that the data store has for its node.
pub mod Restore
pub mod Survival
mod Examples
use meshnet_cni.Prelude.{
  ℕ, Bool, true, false, String, Option, none, some, List, [], ◌∷◌, if◌then◌else◌,
}
use meshnet_cni.Wire.{Daemon, WireDef}
use meshnet_cni.Wire.Steps.{re_create_gwire}
use meshnet_cni.DataStore.{GWireStatus, Item, not_map, bad_map, status}

-- net.InterfaceByName and pcap.OpenLive on the node.
pub record Kernel : Type 0 where
  pub index_of : String → Option ℕ
  pub opens : String → Option ℕ

-- The definition that reCreateGWire makes of a status.
unfoldable pub wire_def_of : GWireStatus → WireDef
wire_def_of ws = record {
  link_uid = ws.link_id;
  local_pod_ip = ws.local_pod_ip;
  intf_name_in_pod = ws.local_pod_iface_name;
  local_pod_name = ws.local_pod_name;
  local_pod_net_ns = ws.local_pod_net_ns;
  wire_if_id_on_peer_node = ws.wire_iface_id_on_peer_node;
  peer_node_ip = ws.gwire_peer_node_ip;
  wire_if_name_on_local_node = ws.wire_iface_name_on_local_node;
  topo_ns = ws.topo_namespace;
}

-- The loop over the items of one object: an item that does not convert is passed over, and so is the
-- error of reCreateGWire.
unfoldable pub recon_items : Kernel → List Item → Daemon → Daemon
unfolding wire_def_of
recon_items k [] s = s
recon_items k (not_map n ∷ l) s = recon_items k l s
recon_items k (bad_map n ∷ l) s = recon_items k l s
recon_items k (status ws ∷ l) s =
    let name = ws.wire_iface_name_on_local_node in
    recon_items k l (re_create_gwire (k.index_of name) (k.opens name) (wire_def_of ws) s).1

-- The loop over the objects of the node; `none` is an object whose items cannot be read.
unfoldable pub recon_objects : Kernel → List (Option (List Item)) → Daemon → Daemon
unfolding recon_items
recon_objects k [] s = s
recon_objects k (none ∷ l) s = recon_objects k l s
recon_objects k (some items ∷ l) s = recon_objects k l (recon_items k items s)

-- ReconGWires, from the objects of the node, `none` if the node has no name or they cannot be listed.
-- The Boolean says that there is an error. Listing has no conflict, so there is one attempt.
unfoldable pub recon_gwires : Kernel → Option (List (Option (List Item))) → Daemon → Bool × Daemon
unfolding recon_objects
recon_gwires k none s = (true, s)
recon_gwires k (some objects) s = (false, recon_objects k objects s)
