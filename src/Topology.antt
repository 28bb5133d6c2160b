-- ===== src/Topology.antt =====
-- The topology handlers of the daemon: Get, SetAlive, Skip, SkipReverse and IsSkipped of
-- daemon/meshnet/handler.go. An attempt takes the object that the API server gave, and says which
-- object it sends back.
pub mod Skips
pub mod Alive
pub mod Updates
mod Examples
use meshnet_cni.Prelude.{
  ℕ, ◌%◌, ◌^◌, Bool, true, false, ◌&&◌, ◌||◌, not, String, Option, none, some, List, [], ◌∷◌, ◌++◌,
  ltb, ◌==◌, if◌then◌else◌, nat_eq, string_eq,
}

-- api/types/v1beta1/topology.go
pub record Skipped : Type 0 where
  pub pod_name : String
  pub link_id : ℕ

-- An element of `status.skipped`: a record, or one that does not convert.
pub data SkipItem : Type 0 where
  not_map bad_map : ℕ → SkipItem
  skipped : Skipped → SkipItem

-- An element of `spec.links`, its fields read with NestedString and NestedInt64, which give the
-- zero value for a field that is missing; `mtu` says whether it was found.
pub record RawLink : Type 0 where
  pub peer_pod : String
  pub peer_intf : String
  pub local_intf : String
  pub local_ip : String
  pub peer_ip : String
  pub uid : ℕ
  pub mtu : Option ℕ

pub data LinkItem : Type 0 where
  no_map : LinkItem
  link_map : RawLink → LinkItem

pub record Topology : Type 0 where
  pub links : Option (List LinkItem)
  pub src_ip : String
  pub net_ns : String
  pub container_id : String
  pub skips : List SkipItem

pub record Link : Type 0 where
  pub peer_pod : String
  pub peer_intf : String
  pub local_intf : String
  pub local_ip : String
  pub peer_ip : String
  pub uid : ℕ
  pub mtu : ℕ

pub record Pod : Type 0 where
  pub name : String
  pub src_ip : String
  pub net_ns : String
  pub kube_ns : String
  pub links : List Link
  pub node_ip : String
  pub node_intf : String
  pub container_id : String

-- What reading a topology gave.
pub data Read : Type 0 where
  no_topology failed : Read
  read : Topology → Read

-- The answers of Get: the two status codes, no pod and no error, or the pod.
pub data GetReply : Type 0 where
  not_found unavailable nil_pod : GetReply
  got : Pod → GetReply

-- int32(mtu) of a positive int64; zero if the field is missing or not positive.
unfoldable pub link_mtu : Option ℕ → ℕ
link_mtu none = 0
link_mtu (some m) = if ltb 0 m && ltb m (2 ^ 63) then m % 2 ^ 32 else 0

unfoldable pub to_link : RawLink → Link
unfolding link_mtu
to_link r = record {
  peer_pod = r.peer_pod;
  peer_intf = r.peer_intf;
  local_intf = r.local_intf;
  local_ip = r.local_ip;
  peer_ip = r.peer_ip;
  uid = r.uid;
  mtu = link_mtu r.mtu;
}

unfoldable pub to_links : List LinkItem → Option (List Link)
unfolding to_link
to_links [] = some []
to_links (no_map ∷ l) = none
to_links (link_map r ∷ l) = elim (to_links l) [ none ↦ none | some ls ↦ some (to_link r ∷ ls) ]

-- The source address that is shown to the plugin: ValidatePeerNodeIP is `valid`.
unfoldable pub surfaced_ip : (String → Bool) → String → String
surfaced_ip valid ip = if ip == "" then ip else if valid ip then ip else ""

unfoldable pub get_with :
    (String → Bool) → String → String → String → String → Topology → Option (List Link) → GetReply
unfolding surfaced_ip
get_with valid host_ip host_intf name ns t none = nil_pod
get_with valid host_ip host_intf name ns t (some ls) = got (record {
  name = name;
  src_ip = surfaced_ip valid t.src_ip;
  net_ns = t.net_ns;
  kube_ns = ns;
  links = ls;
  node_ip = host_ip;
  node_intf = host_intf;
  container_id = t.container_id;
})

abbrev links_of : Option (List LinkItem) → Option (List Link)
links_of none = none
links_of (some l) = to_links l

-- Get, with the daemon's HOST_IP and HOST_INTF.
unfoldable pub get : (String → Bool) → String → String → String → String → Read → GetReply
unfolding get_with to_links
get valid host_ip host_intf name ns no_topology = not_found
get valid host_ip host_intf name ns failed = unavailable
get valid host_ip host_intf name ns (read t) =
    get_with valid host_ip host_intf name ns t (links_of t.links)

-- The object that an attempt of SetAlive sends.
unfoldable pub set_alive : Pod → Topology → Topology
set_alive p t = record t { src_ip = p.src_ip; net_ns = p.net_ns; container_id = p.container_id }

-- The object that an attempt of Skip sends for the pod that skips `peer`.
unfoldable pub skip : String → ℕ → Topology → Topology
skip peer link t = record t {
  skips = t.skips ++ skipped (record { pod_name = peer; link_id = link }) ∷ [];
}

-- The search that SkipReverse and IsSkipped make.
unfoldable pub names : String → ℕ → List SkipItem → Bool
names pod link [] = false
names pod link (skipped x ∷ l) = (pod == x.pod_name && link == x.link_id) || names pod link l
names pod link (_ ∷ l) = names pod link l

-- IsSkipped, on the peer's topology.
unfoldable pub is_skipped : String → ℕ → Topology → Bool
unfolding names
is_skipped pod link t = names pod link t.skips

-- The object that the first half of SkipReverse sends for the peer, `none` if the peer is not alive.
unfoldable pub skip_reverse_peer : String → ℕ → Topology → Option Topology
unfolding names
skip_reverse_peer pod link t =
    if t.src_ip == "" || t.net_ns == ""
    then none
    else some (
        if names pod link t.skips then t else record t {
          skips = t.skips ++ skipped (record { pod_name = pod; link_id = link }) ∷ [];
        })

-- The loop of the second half.
unfoldable pub kept_skips : String → ℕ → List SkipItem → List SkipItem
kept_skips peer link [] = []
kept_skips peer link (skipped x ∷ l) =
    let rest = kept_skips peer link l in
    if not (x.pod_name == peer) && not (x.link_id == link) then skipped x ∷ rest else rest
kept_skips peer link (_ ∷ l) = kept_skips peer link l

-- The object that the second half of SkipReverse sends for the pod itself.
unfoldable pub skip_reverse_own : String → ℕ → Topology → Topology
unfolding kept_skips
skip_reverse_own peer link t = record t { skips = kept_skips peer link t.skips }
