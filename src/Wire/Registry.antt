-- ===== src/Wire/Registry.antt =====
-- What the registry of wires answers after the operations of daemon/grpcwire/gwire_rpc_handlers.go.
use meshnet_cni.Prelude.{
  ℕ, ◌≡◌, refl, true, String, Option, some, ◌==◌, nat_eq, string_eq, pair_eq, if◌then◌else◌,
}
use meshnet_cni.Prelude.Assoc.{lookup, lookup-insert, lookup-insert_self}
use meshnet_cni.Wire.{
  Daemon, GrpcWire, WireDef, LinkKey, create_gwire, add_wire, get_wire, get_handle,
  update_wire_by_uid,
}
use meshnet_cni.Wire.Steps.{
  create_grpc_wire_local, add_grpc_wire_remote, create_update_remote, store_or_create,
  grpc_wire_exists,
}

exists_of :
    (d : WireDef) (s : Daemon) {w : GrpcWire}
    → lookup (d.local_pod_net_ns, d.link_uid) s.wires ≡ some w
    → grpc_wire_exists d s ≡ (true, w.wire_iface_id_on_peer_node)
unfolding grpc_wire_exists get_wire
exists_of d s e = rw (e, grpc_wire_exists)

-- After the local end of a wire has been added, the daemon says that the wire exists, with the
-- peer's interface id, and a packet for the wire's own interface finds the handle that was opened.
pub local_then_exists :
    (index handle : ℕ) (d : WireDef) (s : Daemon)
    → let (done, s') = create_grpc_wire_local (some index) (some handle) d s in
      (done ≡ true)
      × (grpc_wire_exists d s' ≡ (true, d.wire_if_id_on_peer_node))
      × (get_handle index s' ≡ some handle)
unfolding create_grpc_wire_local create_gwire add_wire get_handle
local_then_exists index handle d s = (
  refl,
  exists_of d _ (lookup-insert_self _ _ s.wires),
  lookup-insert_self index handle s.handles,
)

-- A trigger from the peer for a wire that exists makes no new interface: it answers with the
-- interface of the wire, only sets the peer's interface id, the stop channel and the ready flag,
-- leaves every other wire and all packet handles as they were, and does so whatever creating an
-- interface would have given.
pub remote_updates_existing :
    (made : Option (ℕ × String × ℕ)) (d : WireDef) (s : Daemon) (w : GrpcWire) (k : LinkKey)
    → get_wire d.local_pod_net_ns d.link_uid s ≡ some w
    → let (answer, s') = add_grpc_wire_remote made d s in
      (answer ≡ (true, w.local_node_iface_id))
      × (lookup k s'.wires ≡ (
          if (d.local_pod_net_ns, d.link_uid) == k
          then some (record w {
            stop_c = s.next_chan;
            wire_iface_id_on_peer_node = d.wire_if_id_on_peer_node;
            is_ready = true;
          })
          else lookup k s.wires))
      × (s'.handles ≡ s.handles)
unfolding add_grpc_wire_remote create_update_remote store_or_create update_wire_by_uid get_wire
remote_updates_existing made d s w k e = (
  rw (e, update_wire_by_uid, store_or_create),
  rw (e, update_wire_by_uid, store_or_create)
      (lookup-insert (d.local_pod_net_ns, d.link_uid) k _ s.wires),
  rw (e, update_wire_by_uid, store_or_create),
)
