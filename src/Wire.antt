-- ===== src/Wire.antt =====
-- The grpc wires that a daemon keeps: daemon/grpcwire/grpcwire.go and gwire_map.go. A stop channel
-- is a number, `closed` lists the channels that were closed, and `none` is the panic of closing a
-- channel twice. Requests to the data store are listed in order; module DataStore says what they do.
pub mod Registry
pub mod Steps
pub mod Channels
pub mod IfName
mod Examples
use meshnet_cni.Prelude.{
  ℕ, suc, ◌+◌, ◌≡◌, Bool, true, false, ◌&&◌, ◌||◌, zero, String, Option, none, some, List, [], ◌∷◌,
  ◌++◌, ◌==◌, if◌then◌else◌, nat_eq, string_eq, pair_eq, any, length,
}
use meshnet_cni.Prelude.Assoc.{Assoc, lookup, insert, delete}

pub data Originator : Type 0 where
  host_created_wire peer_created_wire : Originator

pub record WireDef : Type 0 where
  pub link_uid : ℕ
  pub local_pod_ip : String
  pub intf_name_in_pod : String
  pub local_pod_name : String
  pub local_pod_net_ns : String
  pub wire_if_id_on_peer_node : ℕ
  pub peer_node_ip : String
  pub wire_if_name_on_local_node : String
  pub topo_ns : String

pub record GrpcWire : Type 0 where
  pub uid : ℕ
  pub topo_namespace : String
  pub local_node_iface_id : ℕ
  pub local_node_iface_name : String
  pub local_pod_ip : String
  pub local_pod_name : String
  pub local_pod_iface_name : String
  pub local_pod_net_ns : String
  pub wire_iface_id_on_peer_node : ℕ
  pub peer_node_ip : String
  pub is_ready : Bool
  pub originator : Originator
  pub originator_ip : String
  pub stop_c : ℕ

-- linkKey
abbrev pub LinkKey : Type 0
LinkKey = String × ℕ

abbrev pub key_of : GrpcWire → LinkKey
key_of w = (w.local_pod_net_ns, w.uid)

pub data StoreRequest : Type 0 where
  store_wire del_wire : GrpcWire → StoreRequest
  del_pod : String → String → StoreRequest
  prune : WireDef → StoreRequest

pub record Daemon : Type 0 where
  pub wires : Assoc LinkKey GrpcWire
  pub handles : Assoc ℕ ℕ
  pub closed : List ℕ
  pub next_chan : ℕ
  pub requests : List StoreRequest

abbrev pub start : Daemon
start = record { wires = []; handles = []; closed = []; next_chan = 0; requests = [] }

-- make(chan struct{})
abbrev pub make_chan : Daemon → ℕ × Daemon
make_chan s = (s.next_chan, record s { next_chan = s.next_chan + 1 })

abbrev pub is_closed : ℕ → List ℕ → Bool
is_closed c l = any (λ x. x == c) l

-- close(c)
unfoldable pub close_chan : ℕ → Daemon → Option Daemon
close_chan c s = if is_closed c s.closed then none else some (record s { closed = c ∷ s.closed })

unfoldable pub create_gwire : ℕ → String → ℕ → WireDef → GrpcWire
create_gwire loc_if_index loc_if_nm stop_c d = record {
  uid = d.link_uid;
  topo_namespace = d.topo_ns;
  local_node_iface_id = loc_if_index;
  local_node_iface_name = loc_if_nm;
  local_pod_ip = d.local_pod_ip;
  local_pod_name = d.local_pod_name;
  local_pod_iface_name = d.intf_name_in_pod;
  local_pod_net_ns = d.local_pod_net_ns;
  wire_iface_id_on_peer_node = d.wire_if_id_on_peer_node;
  peer_node_ip = d.peer_node_ip;
  is_ready = true;
  originator = peer_created_wire;
  originator_ip = d.peer_node_ip;
  stop_c = stop_c;
}

unfoldable pub get_wire : String → ℕ → Daemon → Option GrpcWire
get_wire ns uid s = lookup (ns, uid) s.wires

-- GetHandle, GetHostIntfHndl
unfoldable pub get_handle : ℕ → Daemon → Option ℕ
get_handle id s = lookup id s.handles

unfoldable pub add_in_mem : GrpcWire → ℕ → Daemon → Daemon
add_in_mem w handle s = record s {
  wires = insert (key_of w) w s.wires;
  handles = insert w.local_node_iface_id handle s.handles;
}

-- AddWireInMemNDataStore with AddInMemNDataStore: an error of the data store is only logged.
unfoldable pub add_wire : GrpcWire → ℕ → Daemon → Daemon
unfolding add_in_mem
add_wire w handle s =
    let w' = record w { is_ready = true } in
    let s' = add_in_mem w' handle s in record s' { requests = s'.requests ++ store_wire w' ∷ [] }

-- AtomicDelete, Delete and DeleteWoLock, DeleteWire
unfoldable pub atomic_delete : GrpcWire → Daemon → Daemon
atomic_delete w s = record s {
  wires = delete (key_of w) s.wires;
  handles = delete w.local_node_iface_id s.handles;
}

unfoldable pub update_wire_by_uid : String → ℕ → ℕ → ℕ → Daemon → Option GrpcWire × Daemon
update_wire_by_uid ns uid peer_intf_id stop_c s = elim (lookup (ns, uid) s.wires) [
  | none ↦ (none, s)
  | some w ↦
      let w' = record w {
        stop_c = stop_c;
        wire_iface_id_on_peer_node = peer_intf_id;
        is_ready = true;
      } in
      (some w', record s { wires = insert (ns, uid) w' s.wires })
]

-- Stopping the packet thread of a wire, as WireDownByUID and RemoveWireAcrosAll do it.
unfoldable pub stop_if_ready : GrpcWire → Daemon → Option Daemon
unfolding close_chan
stop_if_ready w s = if w.is_ready then close_chan w.stop_c s else some s

unfoldable pub wire_down_by_uid : String → ℕ → Daemon → Option Daemon
wire_down_by_uid ns uid s = elim (lookup (ns, uid) s.wires) [
  | none ↦ some s
  | some w ↦ elim (stop_if_ready w s) [
    | none ↦ none
    | some s' ↦
        some (record s' { wires = insert (ns, uid) (record w { is_ready = false }) s'.wires })
  ]
]

abbrev pub of_pod : String → String → GrpcWire → Bool
of_pod ns pod w = w.local_pod_name == pod && w.topo_namespace == ns

unfoldable pub first_of_pod : String → String → Assoc LinkKey GrpcWire → Option GrpcWire
first_of_pod ns pod [] = none
first_of_pod ns pod ((k, w) ∷ m) = if of_pod ns pod w then some w else first_of_pod ns pod m

unfoldable pub extract_one_wire_by_pod : String → String → Daemon → Option GrpcWire × Daemon
unfolding first_of_pod atomic_delete
extract_one_wire_by_pod ns pod s = elim (first_of_pod ns pod s.wires) [
  | none ↦ (none, s)
  | some w ↦ (some w, atomic_delete w s)
]

-- GetWiresByPod
unfoldable pub get_wires_by_pod : String → String → Assoc LinkKey GrpcWire → List GrpcWire
get_wires_by_pod ns pod [] = []
get_wires_by_pod ns pod ((k, w) ∷ m) =
    let rest = get_wires_by_pod ns pod m in if of_pod ns pod w then w ∷ rest else rest

unfoldable pub wire_by_if_index : ℕ → Assoc LinkKey GrpcWire → Option GrpcWire
wire_by_if_index i [] = none
wire_by_if_index i ((k, w) ∷ m) =
    if w.local_node_iface_id == i then some w else wire_by_if_index i m

-- snapshotWires
unfoldable pub snapshot_wires : Assoc LinkKey GrpcWire → List GrpcWire
snapshot_wires [] = []
snapshot_wires ((k, w) ∷ m) = w ∷ snapshot_wires m

-- What the kernel does with the host end of the pair, which is named by its interface index.
pub data Veth : Type 0 where
  gone removed stuck : Veth

-- RemoveWireAcrosAll; the Boolean says that it failed. A wire that is in memory is no longer ready there
-- when the removal of its interface fails.
unfoldable pub remove_wire_across_all :
    (ℕ → Veth) → GrpcWire → Bool → Daemon → Option (Bool × Daemon)
remove_wire_across_all veth w in_mem s = elim (stop_if_ready w s) [
  | none ↦ none
  | some s' ↦
      let w' = record w { is_ready = false } in
      let s'' = if in_mem then atomic_delete w' s' else s' in
      let done = some (false, record s'' { requests = s''.requests ++ del_wire w' ∷ [] }) in
      let down = if in_mem then record s' { wires = insert (key_of w) w' s'.wires } else s' in
      elim (veth w.local_node_iface_id) [ gone ↦ done | removed ↦ done | stuck ↦ some (true, down) ]
]

-- The loop of DeletePodWires, which takes wires out until none is left; `failed` says that an
-- earlier round failed. The fuel is a round for each wire, and one to see that none is left.
unfoldable pub drain : (ℕ → Veth) → String → String → ℕ → Bool → Daemon → Option (Bool × Daemon)
drain veth ns pod zero failed s = none
drain veth ns pod (suc fuel) failed s = elim (extract_one_wire_by_pod ns pod s).0 [
  | none ↦ some (failed, s)
  | some w ↦ elim (remove_wire_across_all veth w false (extract_one_wire_by_pod ns pod s).1) [
    | none ↦ none
    | some (bad, s') ↦ drain veth ns pod fuel (failed || bad) s'
  ]
]

unfoldable pub delete_pod_wires : (ℕ → Veth) → String → String → Daemon → Option (Bool × Daemon)
unfolding drain
delete_pod_wires veth ns pod s = elim (drain veth ns pod (suc (length s.wires)) false s) [
  | none ↦ none
  | some (true, s') ↦ some (true, s')
  | some (false, s') ↦ some (false, record s' { requests = s'.requests ++ del_pod ns pod ∷ [] })
]
