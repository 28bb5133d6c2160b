-- ===== src/Wire/Steps.antt =====
-- The wire operations that a daemon serves: daemon/grpcwire/gwire_rpc_handlers.go, reCreateGWire of
-- gwire_recon.go, and the handlers of daemon/meshnet/handler.go that call them. What the kernel and
-- libpcap answer is an argument; the start of a packet thread has no effect on this state.
use meshnet_cni.Prelude.{
  ℕ, Bool, true, false, String, Option, none, some, List, [], ◌∷◌, ◌++◌, if◌then◌else◌, nat_eq,
  string_eq, pair_eq,
}
use meshnet_cni.Wire.{
  Daemon, GrpcWire, WireDef, Veth, host_created_wire, store_wire, prune, make_chan, create_gwire,
  add_wire, add_in_mem, get_wire, update_wire_by_uid, wire_down_by_uid, delete_pod_wires,
}

-- CreateGRPCWireLocal: `iface` is the index of the interface that is named on the local node, and
-- `handle` the capture handle. Turning off checksums can only log.
unfoldable pub create_grpc_wire_local : Option ℕ → Option ℕ → WireDef → Daemon → Bool × Daemon
create_grpc_wire_local none handle d s = (false, s)
create_grpc_wire_local (some index) none d s = (false, s)
create_grpc_wire_local (some index) (some handle) d s =
    let (stop_c, s') = make_chan s in
    let w = create_gwire index d.wire_if_name_on_local_node stop_c d in
    let w' = record w {
      is_ready = false;
      originator = host_created_wire;
      originator_ip = "unknown";
    } in
    (true, add_wire w' handle s')

-- What follows the attempt to update in CreateUpdateGRPCWireRemoteTriggered: the updated wire is
-- stored again, and a missing wire is created. `made` is the index and the name of the new host
-- interface and its capture handle, `none` if any step of the creation failed.
unfoldable pub store_or_create :
    Option (ℕ × String × ℕ) → WireDef → ℕ → Option GrpcWire × Daemon → Option GrpcWire × Daemon
store_or_create made d stop_c (some w, s) =
    (some w, record s { requests = s.requests ++ store_wire w ∷ [] })
store_or_create none d stop_c (none, s) = (none, s)
store_or_create (some (index, name, handle)) d stop_c (none, s) =
    let w = create_gwire index name stop_c d in (some w, add_wire w handle s)

-- CreateUpdateGRPCWireRemoteTriggered
unfoldable pub create_update_remote :
    Option (ℕ × String × ℕ) → WireDef → ℕ → Daemon → Option GrpcWire × Daemon
unfolding store_or_create
create_update_remote made d stop_c s =
    store_or_create made d stop_c
      (update_wire_by_uid d.local_pod_net_ns d.link_uid d.wire_if_id_on_peer_node stop_c s)

abbrev pub respond : WireDef → Option GrpcWire → Bool × ℕ
respond d (some w) = (true, w.local_node_iface_id)
respond d none = (false, d.wire_if_id_on_peer_node)

-- AddGRPCWireRemote of the daemon: the response and the interface id that it reports.
unfoldable pub add_grpc_wire_remote :
    Option (ℕ × String × ℕ) → WireDef → Daemon → (Bool × ℕ) × Daemon
unfolding create_update_remote
add_grpc_wire_remote made d s =
    let (stop_c, s1) = make_chan s in
    let (w, s2) = create_update_remote made d stop_c s1 in (respond d w, s2)

-- GRPCWireExists of the daemon.
unfoldable pub grpc_wire_exists : WireDef → Daemon → Bool × ℕ
grpc_wire_exists d s = elim (get_wire d.local_pod_net_ns d.link_uid s) [
  | none ↦ (false, d.wire_if_id_on_peer_node)
  | some w ↦ (true, w.wire_iface_id_on_peer_node)
]

unfoldable pub is_live : Option GrpcWire → Bool
is_live none = false
is_live (some w) = w.is_ready

-- reconLocalGRPCWire
unfoldable pub recon_local_grpc_wire : Option ℕ → Option ℕ → WireDef → Daemon → Option Daemon
recon_local_grpc_wire none handle d s = none
recon_local_grpc_wire (some index) none d s = none
recon_local_grpc_wire (some index) (some h) d s =
    let (stop_c, s') = make_chan s in
    some (add_in_mem (create_gwire index d.wire_if_name_on_local_node stop_c d) h s')

-- A wire that cannot be adopted is pruned from the data store.
unfoldable pub adopted_or_pruned : WireDef → Daemon → Option Daemon → Bool × Daemon
adopted_or_pruned d s none = (false, record s { requests = s.requests ++ prune d ∷ [] })
adopted_or_pruned d s (some s') = (true, s')

-- reCreateGWire, from the definition that the saved status gives.
unfoldable pub re_create_gwire : Option ℕ → Option ℕ → WireDef → Daemon → Bool × Daemon
unfolding is_live adopted_or_pruned recon_local_grpc_wire
re_create_gwire iface handle d s =
    if is_live (get_wire d.local_pod_net_ns d.link_uid s)
    then (true, s)
    else adopted_or_pruned d s (recon_local_grpc_wire iface handle d s)

pub data Op : Type 0 where
  adds_local : Option ℕ → Option ℕ → WireDef → Op
  adds_remote : Option (ℕ × String × ℕ) → WireDef → Op
  downs : WireDef → Op
  removes : (ℕ → Veth) → WireDef → Op
  reconciles : Option ℕ → Option ℕ → WireDef → Op

-- The state after an operation, `none` if the daemon panicked.
unfoldable pub step : Daemon → Op → Option Daemon
step s (adds_local iface handle d) = some (create_grpc_wire_local iface handle d s).1
step s (adds_remote made d) = some (add_grpc_wire_remote made d s).1
step s (downs d) = wire_down_by_uid d.local_pod_net_ns d.link_uid s
step s (removes veth d) = elim (delete_pod_wires veth d.topo_ns d.local_pod_name s) [
  | none ↦ none
  | some (failed, s') ↦ some s'
]
step s (reconciles iface handle d) = some (re_create_gwire iface handle d s).1

unfoldable pub run : Daemon → List Op → Option Daemon
unfolding step
run s [] = some s
run s (o ∷ os) = elim (step s o) [ none ↦ none | some s' ↦ run s' os ]
