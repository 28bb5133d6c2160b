-- ===== src/Plugin/Del.antt =====
-- cmdDel of plugin/meshnet.go, and MakeGRPCChanDown of plugin/grpcwires-plugin.go.
pub mod Cleanup
mod Examples
use meshnet_cni.Prelude.{
  ℕ, Bool, true, false, ◌&&◌, ◌||◌, not, String, Option, none, some, List, [], ◌∷◌, ◌++◌, ◌==◌,
  string_eq, if◌then◌else◌, map,
}
use meshnet_cni.Topology.{Link, Pod}
use meshnet_cni.Plugin.{
  Rpc, answered, refused, LinkType, grpc, vxlan, Config, link_mtu_of, VEth, make_veth, End, fine,
  failed, panicked,
}

pub data Act : Type 0 where
  removes_wires : Act  -- RemGRPCWire
  sets_dead : Act  -- SetAlive with empty fields
  downs_remote : Pod → ℕ → Act  -- MakeGRPCChanDown
  unregisters : ℕ → Act
  removes : VEth → Act
  skips_reverse : String → ℕ → Act

-- The answers for one link. What MakeGRPCChanDown, UnregisterVxlanLink and RemoveVethLink return is
-- only logged.
pub record Answers : Type 0 where
  pub peer : Rpc Pod
  pub reversed : Rpc Bool

abbrev pub Run : Type 0
Run = List Act × End

-- The end that the answer to SkipReverse makes: `return err` without an error if the daemon refused.
pub data Go : Type 0 where
  on : Go
  returns : End → Go

unfoldable pub after_reverse : Rpc Bool → Go
after_reverse (answered true) = on
after_reverse (answered false) = returns fine
after_reverse (refused c) = returns failed

-- What is done about the other end, for a peer on another host.
unfoldable pub tear_down : LinkType → Pod → Link → List Act
tear_down grpc peer link = downs_remote peer link.uid ∷ []
tear_down vxlan peer link = unregisters link.uid ∷ []

-- The link with its peer's metadata and its own end.
unfoldable pub del_known : Config → String → Link → Rpc Bool → Pod → Option VEth → List Act × Go
unfolding after_reverse tear_down
del_known cfg src_ip link reversed peer veth =
    let down = if peer.src_ip == src_ip then [] else tear_down cfg.inter_node_link_type peer link in
    elim veth [
      | none ↦ (down, returns failed)
      | some mine ↦ (
        down ++ (removes mine ∷ skips_reverse link.peer_pod link.uid ∷ []),
        after_reverse reversed,
      )
    ]

-- The own end of a link.
abbrev pub own_end : Config → Link → Option VEth
own_end cfg link =
    make_veth cfg.parses cfg.net_ns link.local_intf link.local_ip
      (link_mtu_of cfg.default_link_mtu link.mtu)

-- The body of the loop over the links. The error of Get is dropped, and with an error there is no
-- pod: the comparison of the addresses goes through a nil pointer.
unfoldable pub del_link : Config → String → Link → Rpc Bool → Rpc Pod → List Act × Go
unfolding del_known
del_link cfg src_ip link reversed (refused c) = ([], returns panicked)
del_link cfg src_ip link reversed (answered peer) =
    del_known cfg src_ip link reversed peer (own_end cfg link)

abbrev pub and_then : List Act × Go → Run → Run
and_then (acts, on) (more, end) = (acts ++ more, end)
and_then (acts, returns end) rest = (acts, end)

unfoldable pub del_links : Config → String → List (Link × Answers) → Run
unfolding del_link
del_links cfg src_ip [] = ([], fine)
del_links cfg src_ip ((link, a) ∷ rest) =
    and_then (del_link cfg src_ip link a.reversed a.peer) (del_links cfg src_ip rest)

pub record DelCall : Type 0 where
  pub args_loaded : Bool
  pub conf_loaded : Bool
  pub dialed : Bool
  pub local_pod : Rpc Pod
  pub container_id : String
  pub wires_removed : Rpc Bool
  pub dead_set : Rpc Bool
  pub answers : Link → Answers

-- The wires are removed and the pod is set dead before the links are looked at.
unfoldable pub del_found : Config → DelCall → Pod → (wires_removed dead_set : Rpc Bool) → Run
unfolding del_links
del_found cfg c p (refused e) dead_set = (removes_wires ∷ [], failed)
del_found cfg c p (answered false) dead_set = (removes_wires ∷ [], failed)
del_found cfg c p (answered true) (refused e) = (removes_wires ∷ sets_dead ∷ [], failed)
del_found cfg c p (answered true) (answered response) =
    let (acts, end) = del_links cfg p.src_ip (map (λ l. (l, c.answers l)) p.links) in
    (removes_wires ∷ sets_dead ∷ acts, end)

unfoldable pub del_local : Config → DelCall → Rpc Pod → Run
unfolding del_found
del_local cfg c (refused e) = ([], fine)
del_local cfg c (answered p) =
    if p.container_id == c.container_id
    then del_found cfg c p c.wires_removed c.dead_set
    else ([], fine)

-- cmdDel
unfoldable pub cmd_del : Config → DelCall → Run
unfolding del_local
cmd_del cfg c =
    if c.args_loaded && c.conf_loaded && c.dialed then del_local cfg c c.local_pod else ([], failed)
