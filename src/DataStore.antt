-- ===== src/DataStore.antt =====
-- The wire statuses of a node in the Kubernetes data store: daemon/grpcwire/gwire_recon.go. An item
-- of `status.grpcWireItems` is a status, or something that does not convert to one. The API server
-- is not modelled: each attempt takes what its calls answered, and says which object it sent.
pub mod Upsert
pub mod Prune
pub mod Attempts
pub mod Examples
use meshnet_cni.Prelude.{
  ℕ, Bool, true, false, ◌&&◌, ◌||◌, not, suc, String, Option, none, some, List, [], ◌∷◌, ◌++◌, ◌==◌,
  if◌then◌else◌, nat_eq, string_eq, filter, any,
}
use meshnet_cni.Wire.{GrpcWire}

-- api/types/v1beta1/gwire_types.go
pub record GWireStatus : Type 0 where
  pub local_node_name : String
  pub link_id : ℕ
  pub topo_namespace : String
  pub local_pod_net_ns : String
  pub local_pod_name : String
  pub local_pod_ip : String
  pub local_pod_iface_name : String
  pub wire_iface_name_on_local_node : String
  pub wire_iface_id_on_peer_node : ℕ
  pub gwire_peer_node_ip : String

-- An item is not a map, is a map that does not convert, or is a status. A number tells one foreign
-- item from another.
pub data Item : Type 0 where
  not_map bad_map : ℕ → Item
  status : GWireStatus → Item

unfoldable pub create_wire_status : GrpcWire → String → GWireStatus
create_wire_status w node = record {
  local_node_name = node;
  link_id = w.uid;
  topo_namespace = w.topo_namespace;
  local_pod_net_ns = w.local_pod_net_ns;
  local_pod_name = w.local_pod_name;
  local_pod_ip = w.local_pod_ip;
  local_pod_iface_name = w.local_pod_iface_name;
  wire_iface_name_on_local_node = w.local_node_iface_name;
  wire_iface_id_on_peer_node = w.wire_iface_id_on_peer_node;
  gwire_peer_node_ip = w.peer_node_ip;
}

-- The same link of the same pod, in another network namespace.
unfoldable pub is_stale : GWireStatus → GWireStatus → Bool
is_stale ws x =
    x.link_id == ws.link_id
    && x.local_pod_name == ws.local_pod_name
    && not (x.local_pod_net_ns == ws.local_pod_net_ns)

-- The identity of a status.
unfoldable pub is_same : GWireStatus → GWireStatus → Bool
is_same ws x =
    x.link_id == ws.link_id
    && x.topo_namespace == ws.topo_namespace
    && x.local_node_name == ws.local_node_name
    && x.local_pod_net_ns == ws.local_pod_net_ns

-- The loop of `upsertGRPCWireItems`, and the append after it.
unfoldable pub upsert_loop : GWireStatus → Bool → List Item → List Item
upsert_loop ws true [] = []
upsert_loop ws false [] = status ws ∷ []
upsert_loop ws replaced (not_map n ∷ l) = not_map n ∷ upsert_loop ws replaced l
upsert_loop ws replaced (bad_map n ∷ l) = bad_map n ∷ upsert_loop ws replaced l
upsert_loop ws replaced (status x ∷ l) =
    let rest = upsert_loop ws (if is_stale ws x then replaced else is_same ws x || replaced) l in
    if is_stale ws x
    then rest
    else if is_same ws x
    then (if replaced then rest else status ws ∷ rest)
    else status x ∷ rest

unfoldable pub upsert_grpc_wire_items : List Item → GWireStatus → List Item
unfolding upsert_loop is_stale is_same
upsert_grpc_wire_items items ws = upsert_loop ws false items

-- The list that `deleteGRPCWireStatus` writes back: what does not convert is dropped.
unfoldable pub without_link : ℕ → List Item → List Item
without_link link [] = []
without_link link (not_map n ∷ l) = without_link link l
without_link link (bad_map n ∷ l) = without_link link l
without_link link (status x ∷ l) =
    let rest = without_link link l in if x.link_id == link then rest else status x ∷ rest

-- The list and the count of `deleteGRPCWireStatusByPod`: what does not convert is kept.
unfoldable pub without_pod : String → List Item → List Item
without_pod pod [] = []
without_pod pod (not_map n ∷ l) = not_map n ∷ without_pod pod l
without_pod pod (bad_map n ∷ l) = bad_map n ∷ without_pod pod l
without_pod pod (status x ∷ l) =
    let rest = without_pod pod l in if x.local_pod_name == pod then rest else status x ∷ rest

unfoldable pub removed_of_pod : String → List Item → ℕ
removed_of_pod pod [] = 0
removed_of_pod pod (status x ∷ l) =
    let rest = removed_of_pod pod l in if x.local_pod_name == pod then suc rest else rest
removed_of_pod pod (_ ∷ l) = removed_of_pod pod l

-- The loop of `IsWireRecordedInDataStore` over one object, and over the objects of the node; an
-- object without items is skipped.
unfoldable pub records_wire : String → ℕ → List Item → Bool
records_wire ns link [] = false
records_wire ns link (status x ∷ l) =
    (x.link_id == link && x.local_pod_net_ns == ns) || records_wire ns link l
records_wire ns link (_ ∷ l) = records_wire ns link l

unfoldable pub is_wire_recorded : String → ℕ → List (Option (List Item)) → Bool
unfolding records_wire
is_wire_recorded ns link [] = false
is_wire_recorded ns link (none ∷ l) = is_wire_recorded ns link l
is_wire_recorded ns link (some items ∷ l) = records_wire ns link items || is_wire_recorded ns link l

pub data ApiError : Type 0 where
  not_found conflict other : ApiError

-- What `Get` and `NestedSlice` gave for the node's object.
pub data Fetched : Type 0 where
  get_failed : ApiError → Fetched
  wrong_type absent null : Fetched
  items : List Item → Fetched

-- The request that an attempt sent, if any, with what the server answered to it (`none` for
-- success), and the error that the attempt returned.
pub data Sent : Type 0 where
  nothing : Sent
  created updated : List Item → Sent

abbrev pub Answer : Type 0
Answer = Option ApiError

-- The body that `updateGRPCWireStatus` hands to RetryOnConflict. Conversions of a status and
-- setting a field of the object are taken to succeed.
unfoldable pub update_attempt : GWireStatus → Fetched → Answer → Sent × Answer
update_attempt ws (get_failed not_found) answer = (created (status ws ∷ []), answer)
update_attempt ws (get_failed e) answer = (nothing, some e)
update_attempt ws wrong_type answer = (nothing, some other)
update_attempt ws absent answer = (nothing, none)
update_attempt ws null answer = (nothing, none)
update_attempt ws (items l) answer = (updated (upsert_grpc_wire_items l ws), answer)

-- The body of `deleteGRPCWireStatus`.
unfoldable pub delete_attempt : GWireStatus → Fetched → Answer → Sent × Answer
delete_attempt ws (get_failed e) answer = (nothing, some e)
delete_attempt ws wrong_type answer = (nothing, some other)
delete_attempt ws absent answer = (nothing, none)
delete_attempt ws null answer = (nothing, none)
delete_attempt ws (items l) answer = (updated (without_link ws.link_id l), answer)

-- The body of `deleteGRPCWireStatusByPod`.
unfoldable pub delete_pod_attempt : String → Fetched → Answer → Sent × Answer
delete_pod_attempt pod (get_failed not_found) answer = (nothing, none)
delete_pod_attempt pod (get_failed e) answer = (nothing, some e)
delete_pod_attempt pod wrong_type answer = (nothing, some other)
delete_pod_attempt pod absent answer = (nothing, none)
delete_pod_attempt pod null answer = (nothing, none)
delete_pod_attempt pod (items l) answer =
    if removed_of_pod pod l == 0 then (nothing, none) else (updated (without_pod pod l), answer)
