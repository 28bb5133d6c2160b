-- ===== src/Plugin/Add.antt =====
-- cmdAdd of plugin/meshnet.go: the links of a pod that comes up.
pub mod Outcome
pub mod SameHost
use meshnet_cni.Prelude.{
  ℕ, ◌+◌, ◌%◌, ◌^◌, Bool, true, false, ◌&&◌, ◌||◌, not, String, Option, none, some, List, [], ◌∷◌,
  ◌++◌, ◌==◌, string_eq, if◌then◌else◌,
}
use meshnet_cni.Topology.{Link, Pod}
use meshnet_cni.LinkState.{RemotePod, VxlanLinkDef, vni_of_uid}
use meshnet_cni.Protocol.{initiates}
use meshnet_cni.Protocol.Names.{higher_prio}
use meshnet_cni.Plugin.{
  Rpc, answered, refused, bool_response_err, LinkType, grpc, vxlan, Config, link_mtu_of, VEth,
  make_veth, is_alive_pod, End, fine, failed, panicked,
}

-- What is asked of the kernel and of the daemons.
pub data Act : Type 0 where
  makes_macvlan : VEth → String → Act
  removes : VEth → Act
  makes_veth : VEth → VEth → Act
  makes_wire : Link → Pod → Act  -- CreatGRPCChan
  makes_vxlan : VEth → String → ℕ → Act  -- over the interface of the source address
  registers : VxlanLinkDef → Act
  updates : String → RemotePod → Act
  skips : String → ℕ → Act

-- The answers for one link: Get and IsSkipped of the daemon, whether the two interfaces exist, and
-- whether each request succeeds.
pub record Answers : Type 0 where
  pub peer : Rpc Pod
  pub macvlan_made : Bool
  pub own_exists : Bool
  pub peer_exists : Bool
  pub own_removed : Bool
  pub peer_removed : Bool
  pub is_skipped : Rpc Bool
  pub veth_made : Bool
  pub wire_made : Bool
  pub vxlan_made : Bool
  pub registered : Rpc Bool
  pub dialed : Bool
  pub updated : Rpc Bool
  pub skipped : Rpc Bool

abbrev pub Run : Type 0
Run = List Act × End

-- An act, and what follows if it succeeds.
abbrev pub act_then : Act → Bool → Run → Run
act_then a false rest = (a ∷ [], failed)
act_then a true rest = (a ∷ rest.0, rest.1)

abbrev pub ended : Run
ended = ([], fine)

abbrev pub error : Run
error = ([], failed)

-- The RPC returned no error, whatever its response.
abbrev pub returned : Rpc Bool → Bool
returned (answered b) = true
returned (refused c) = false

-- Neither interface exists: `higher` is the comparison of the names.
unfoldable pub add_new : Bool → VEth → VEth → Rpc Bool → Bool → Run
unfolding initiates
add_new higher mine theirs (refused c) made = error
add_new higher mine theirs (answered skipped) made =
    if initiates skipped higher then act_then (makes_veth mine theirs) made ended else ended

-- The peer is alive, on the same host. What follows only logs.
unfoldable pub add_same_host :
    Bool → VEth → Option VEth → (own_exists peer_exists : Bool) → Answers → Run
unfolding add_new
add_same_host higher mine none own_exists peer_exists a = error
add_same_host higher mine (some theirs) own_exists peer_exists a =
    let make = act_then (makes_veth mine theirs) a.veth_made ended in
    if own_exists && peer_exists
    then ended
    else if not own_exists && peer_exists
    then act_then (removes theirs) a.peer_removed make
    else if own_exists && not peer_exists
    then act_then (removes mine) a.own_removed make
    else add_new higher mine theirs a.is_skipped a.veth_made

-- What the peer's daemon is told of a VXLAN link. The request also carries the address, the node's
-- interface and the MTU.
abbrev pub remote_end : Config → Pod → Pod → Link → RemotePod
remote_end cfg local peer link = record {
  net_ns = peer.net_ns;
  intf_name = link.peer_intf;
  peer_vtep = local.src_ip;
  vni = vni_of_uid link.uid;
  kube_ns = cfg.kube_ns;
}

-- The dial of the peer's daemon, and the update.
unfoldable pub update_remote : String → RemotePod → Bool → Rpc Bool → Run
unfolding bool_response_err
update_remote ip remote false updated = error
update_remote ip remote true updated =
    act_then (updates ip remote) (not (bool_response_err updated)) ended

-- The registration of the own end of a VXLAN link.
abbrev pub own_end : Config → Pod → Link → VEth → VxlanLinkDef
own_end cfg peer link mine = record {
  link_uid = link.uid;
  net_ns = mine.ns_name;
  intf_name = mine.link_name;
  peer_node_ip = peer.src_ip;
  kube_ns = cfg.kube_ns;
}

-- A VXLAN tunnel to the peer's node.
unfoldable pub add_tunnel : Config → Pod → Pod → Link → VEth → Answers → Run
unfolding update_remote
add_tunnel cfg local peer link mine a =
    act_then (makes_vxlan mine peer.src_ip ((5000 + link.uid) % 2 ^ 64)) a.vxlan_made (
      act_then (registers (own_end cfg peer link mine)) (returned a.registered)
        (update_remote peer.src_ip (remote_end cfg local peer link) a.dialed a.updated))

-- The peer is alive, on another host.
unfoldable pub add_other_host : LinkType → Config → Pod → Pod → Link → VEth → Bool → Answers → Run
unfolding add_tunnel
add_other_host grpc cfg local peer link mine own_exists a =
    act_then (makes_wire link peer) a.wire_made ended
add_other_host vxlan cfg local peer link mine own_exists a =
    if own_exists
    then act_then (removes mine) a.own_removed (add_tunnel cfg local peer link mine a)
    else add_tunnel cfg local peer link mine a

-- makeVeth of the own end.
abbrev pub own_veth : Config → Link → Option VEth
own_veth cfg link =
    make_veth cfg.parses cfg.net_ns link.local_intf link.local_ip
      (link_mtu_of cfg.default_link_mtu link.mtu)

-- makeVeth of the peer's end.
abbrev pub peer_veth : Config → Pod → Link → Option VEth
peer_veth cfg peer link =
    make_veth cfg.parses peer.net_ns link.peer_intf link.peer_ip
      (link_mtu_of cfg.default_link_mtu link.mtu)

-- The peer's metadata is there.
unfoldable pub add_with_peer : Config → Pod → Pod → Link → VEth → Answers → Run
unfolding add_same_host add_other_host
add_with_peer cfg local peer link mine a =
    if is_alive_pod peer
    then (if peer.src_ip == local.src_ip
        then add_same_host (higher_prio local.name peer.name) mine (peer_veth cfg peer link)
            a.own_exists a.peer_exists a
        else add_other_host cfg.inter_node_link_type cfg local peer link mine a.own_exists a)
    else act_then (skips peer.name link.uid) (not (bool_response_err a.skipped)) ended

-- A link whose peer is a pod, with what Get has returned for it.
unfoldable pub add_known : Config → Pod → Link → VEth → Answers → Rpc Pod → Run
unfolding add_with_peer
add_known cfg local link mine a (refused c) = error
add_known cfg local link mine a (answered peer) = add_with_peer cfg local peer link mine a

-- The own end of the link could be built, or not.
unfoldable pub add_ready : Config → Pod → Link → Answers → Option VEth → Run
unfolding add_known
add_ready cfg local link a none = error
add_ready cfg local link a (some mine) =
    if link.peer_pod == "localhost"
    then act_then (makes_macvlan mine link.peer_intf) a.macvlan_made ended
    else add_known cfg local link mine a a.peer

-- The body of the loop over the links.
unfoldable pub add_link : Config → Pod → Link → Answers → Run
unfolding add_ready
add_link cfg local link a = add_ready cfg local link a (own_veth cfg link)

-- An error ends the loop.
abbrev pub and_then : Run → Run → Run
and_then (acts, fine) (more, end) = (acts ++ more, end)
and_then (acts, failed) rest = (acts, failed)
and_then (acts, panicked) rest = (acts, panicked)

-- The loop, over the links with their answers.
unfoldable pub add_links : Config → Pod → List (Link × Answers) → Run
unfolding add_link
add_links cfg local [] = ended
add_links cfg local ((link, a) ∷ rest) =
    and_then (add_link cfg local link a) (add_links cfg local rest)
