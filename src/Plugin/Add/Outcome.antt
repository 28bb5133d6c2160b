-- ===== src/Plugin/Add/Outcome.antt =====
-- What cmdAdd of plugin/meshnet.go that succeeds has done for one link.
use meshnet_cni.Prelude.{
  ◌+◌, ◌%◌, ◌^◌, ◌++◌, if◌then◌else◌, ◌≡◌, refl, ap, ◌∙◌, inl, inr, Bool, true, false, not, String,
  Option, none, some, List, [], ◌∷◌, ◌==◌, string_eq, Bool-cases,
}
use meshnet_cni.Topology.{Link, Pod}
use meshnet_cni.LinkState.{RemotePod}
use meshnet_cni.Protocol.Names.{higher_prio}
use meshnet_cni.Plugin.{
  Rpc, answered, refused, bool_response_err, Config, LinkType, grpc, vxlan, VEth, is_alive_pod,
  fine,
}
use meshnet_cni.Plugin.Add.{
  Act, makes_macvlan, makes_vxlan, registers, own_end, removes, makes_wire, updates, skips, Answers,
  Run, act_then, ended, returned, add_same_host, update_remote, remote_end, own_veth, peer_veth,
  add_tunnel, add_other_host, add_known, add_ready, add_with_peer, add_link,
}
use meshnet_cni.Plugin.Add.SameHost.{Joined, same_host_joins}

-- What an act that succeeded, and what followed it, say.
act_then_fine :
    (a : Act) (ok : Bool) (rest : Run)
    → (act_then a ok rest).1 ≡ fine
    → (ok ≡ true) × ((act_then a ok rest).0 ≡ a ∷ rest.0) × (rest.1 ≡ fine)
act_then_fine a true rest e = (refl, refl, e)
act_then_fine a false rest e = cc

accepted : (r : Rpc Bool) → not (bool_response_err r) ≡ true → r ≡ answered true
unfolding bool_response_err
accepted (answered true) e = refl
accepted (answered false) e = cc
accepted (refused c) e = cc

-- The peer of a link is a pod that is alive, and on this host or not.
abbrev pub PeerAt : Bool → Pod → Link → Answers → Pod → Type 0
PeerAt here local link a peer =
    ((link.peer_pod == "localhost") ≡ false)
    × (a.peer ≡ answered peer)
    × (is_alive_pod peer ≡ true)
    × ((peer.src_ip == local.src_ip) ≡ here)

-- A VXLAN tunnel, from the own end `mine`: an interface that is in the way is removed, and the tunnel is
-- made, registered with the own daemon, and asked for of the peer's, and each of these succeeds.
abbrev pub tunnel_acts : Config → Pod → Pod → Link → VEth → Bool → List Act
tunnel_acts cfg local peer link mine own_exists =
    (if own_exists then removes mine ∷ [] else [])
    ++ (makes_vxlan mine peer.src_ip ((5000 + link.uid) % 2 ^ 64)
        ∷ registers (own_end cfg peer link mine)
        ∷ updates peer.src_ip (remote_end cfg local peer link)
        ∷ [])

-- The state of a link after an ADD that succeeded, by where its peer is.
pub data Settled (cfg : Config) (local : Pod) (link : Link) (a : Answers) (acts : List Act)
    : Type 0 where
  on_host :
      (mine : VEth)
      → (link.peer_pod == "localhost") ≡ true
      → own_veth cfg link ≡ some mine
      → acts ≡ makes_macvlan mine link.peer_intf ∷ []
      → a.macvlan_made ≡ true
      → Settled cfg local link a acts
  left_word :
      (peer : Pod)
      → (link.peer_pod == "localhost") ≡ false
      → a.peer ≡ answered peer
      → is_alive_pod peer ≡ false
      → acts ≡ skips peer.name link.uid ∷ []
      → a.skipped ≡ answered true
      → Settled cfg local link a acts
  beside :
      (peer : Pod) (mine theirs : VEth)
      → PeerAt true local link a peer
      → own_veth cfg link ≡ some mine
      → peer_veth cfg peer link ≡ some theirs
      → Joined (higher_prio local.name peer.name) mine theirs a.own_exists a.peer_exists a acts
      → Settled cfg local link a acts
  wired :
      (peer : Pod)
      → PeerAt false local link a peer
      → cfg.inter_node_link_type ≡ grpc
      → acts ≡ makes_wire link peer ∷ []
      → a.wire_made ≡ true
      → Settled cfg local link a acts
  tunnelled :
      (peer : Pod) (mine : VEth)
      → PeerAt false local link a peer
      → cfg.inter_node_link_type ≡ vxlan
      → own_veth cfg link ≡ some mine
      → acts ≡ tunnel_acts cfg local peer link mine a.own_exists
      → (a.own_exists ≡ true → a.own_removed ≡ true)
      → a.vxlan_made ≡ true
      → returned a.registered ≡ true
      → a.dialed ≡ true
      → a.updated ≡ answered true
      → Settled cfg local link a acts

remote_updates :
    (ip : String) (remote : RemotePod) (dialed : Bool) (updated : Rpc Bool)
    → (update_remote ip remote dialed updated).1 ≡ fine
    → ((update_remote ip remote dialed updated).0 ≡ updates ip remote ∷ [])
      × (dialed ≡ true)
      × (updated ≡ answered true)
unfolding update_remote
remote_updates ip remote false updated e = cc
remote_updates ip remote true updated e =
    let (ok, acts, end) =
      act_then_fine (updates ip remote) (not (bool_response_err updated)) ended e in
    (acts, refl, accepted updated ok)

tunnel_updates :
    (cfg : Config) (local peer : Pod) (link : Link) (mine : VEth) (a : Answers)
    → (add_tunnel cfg local peer link mine a).1 ≡ fine
    → ((add_tunnel cfg local peer link mine a).0 ≡ tunnel_acts cfg local peer link mine false)
      × (a.vxlan_made ≡ true)
      × (returned a.registered ≡ true)
      × (a.dialed ≡ true)
      × (a.updated ≡ answered true)
unfolding add_tunnel
tunnel_updates cfg local peer link mine a e =
    let (made, acts, end) = act_then_fine _ a.vxlan_made _ e in
    let (told, acts', end') = act_then_fine _ (returned a.registered) _ end in
    let (last, dialed, ok) =
      remote_updates peer.src_ip (remote_end cfg local peer link) a.dialed a.updated end' in
    (
      acts
          ∙ ap (◌∷◌ (makes_vxlan mine peer.src_ip ((5000 + link.uid) % 2 ^ 64)))
              (acts' ∙ ap (◌∷◌ (registers (own_end cfg peer link mine))) last),
      made,
      told,
      dialed,
      ok,
    )

other_host_settles :
    (t : LinkType) (cfg : Config) (local peer : Pod) (link : Link) (mine : VEth) (own_exists : Bool)
    (a : Answers)
    → PeerAt false local link a peer
    → own_veth cfg link ≡ some mine
    → cfg.inter_node_link_type ≡ t
    → a.own_exists ≡ own_exists
    → (add_other_host t cfg local peer link mine own_exists a).1 ≡ fine
    → Settled cfg local link a (add_other_host t cfg local peer link mine own_exists a).0
unfolding add_other_host
other_host_settles grpc cfg local peer link mine own_exists a p own t o e =
    let (ok, acts, end) = act_then_fine (makes_wire link peer) a.wire_made ended e in
    wired peer p t acts ok
other_host_settles vxlan cfg local peer link mine false a p own t o e =
    let (acts, made, told, dialed, ok) = tunnel_updates cfg local peer link mine a e in
    tunnelled peer mine p t own (rw o acts) (λ x. cc (o, x)) made told dialed ok
other_host_settles vxlan cfg local peer link mine true a p own t o e =
    let (removed, first, end) = act_then_fine (removes mine) a.own_removed _ e in
    let (acts, made, told, dialed, ok) = tunnel_updates cfg local peer link mine a end in
    tunnelled peer mine p t own (rw o (first ∙ ap (◌∷◌ (removes mine)) acts)) (λ x. removed) made
      told dialed ok

beside_settles :
    (cfg : Config) (local peer : Pod) (link : Link) (mine : VEth) (a : Answers)
    (theirs : Option VEth)
    → PeerAt true local link a peer
    → own_veth cfg link ≡ some mine
    → peer_veth cfg peer link ≡ theirs
    → (add_same_host (higher_prio local.name peer.name) mine theirs a.own_exists a.peer_exists a).1
      ≡ fine
    → Settled cfg local link a
        (add_same_host
          (higher_prio local.name peer.name)
          mine
          theirs
          a.own_exists
          a.peer_exists
          a).0
unfolding add_same_host
beside_settles cfg local peer link mine a none p own his e = cc
beside_settles cfg local peer link mine a (some theirs) p own his e =
    beside peer mine theirs p own his (
      same_host_joins (higher_prio local.name peer.name) mine theirs a.own_exists a.peer_exists a e)

peer_settles :
    (cfg : Config) (local peer : Pod) (link : Link) (mine : VEth) (a : Answers)
    → (link.peer_pod == "localhost") ≡ false
    → a.peer ≡ answered peer
    → own_veth cfg link ≡ some mine
    → (add_with_peer cfg local peer link mine a).1 ≡ fine
    → Settled cfg local link a (add_with_peer cfg local peer link mine a).0
unfolding add_with_peer
peer_settles cfg local peer link mine a pod p own e = elim (Bool-cases (is_alive_pod peer)) [
  | inl alive ↦ elim (Bool-cases (peer.src_ip == local.src_ip)) [
    | inl same ↦
        rw (alive, same, add_with_peer)
          (beside_settles cfg local peer link mine a (peer_veth cfg peer link) (pod, p, alive, same)
            own refl (rw (alive, same, add_with_peer) at e))
    | inr other ↦
        rw (alive, other, add_with_peer)
          (other_host_settles cfg.inter_node_link_type cfg local peer link mine a.own_exists a
            (pod, p, alive, other) own refl refl (rw (alive, other, add_with_peer) at e))
  ]
  | inr dead ↦
      let (ok, acts, end) =
        act_then_fine (skips peer.name link.uid) (not (bool_response_err a.skipped)) ended
          (rw (dead, add_with_peer) at e) in
      rw (dead, add_with_peer) (left_word peer pod p dead acts (accepted a.skipped ok))
]

known_settles :
    (cfg : Config) (local : Pod) (link : Link) (mine : VEth) (a : Answers) (reply : Rpc Pod)
    → (link.peer_pod == "localhost") ≡ false
    → a.peer ≡ reply
    → own_veth cfg link ≡ some mine
    → (add_known cfg local link mine a reply).1 ≡ fine
    → Settled cfg local link a (add_known cfg local link mine a reply).0
unfolding add_known
known_settles cfg local link mine a (refused c) pod p own e = cc
known_settles cfg local link mine a (answered peer) pod p own e =
    peer_settles cfg local peer link mine a pod p own e

ready_settles :
    (cfg : Config) (local : Pod) (link : Link) (a : Answers) (veth : Option VEth)
    → own_veth cfg link ≡ veth
    → (add_ready cfg local link a veth).1 ≡ fine
    → Settled cfg local link a (add_ready cfg local link a veth).0
unfolding add_ready
ready_settles cfg local link a none own e = cc
ready_settles cfg local link a (some mine) own e =
    elim (Bool-cases (link.peer_pod == "localhost")) [
      | inl host ↦
          let (ok, acts, end) =
            act_then_fine (makes_macvlan mine link.peer_intf) a.macvlan_made ended
              (rw (host, add_ready) at e) in
          rw (host, add_ready) (on_host mine host own acts ok)
      | inr pod ↦
          rw (pod, add_ready)
            (known_settles cfg local link mine a a.peer pod refl own (rw (pod, add_ready) at e))
    ]

pub link_settles :
    (cfg : Config) (local : Pod) (link : Link) (a : Answers)
    → (add_link cfg local link a).1 ≡ fine
    → Settled cfg local link a (add_link cfg local link a).0
unfolding add_link
link_settles cfg local link a e = ready_settles cfg local link a (own_veth cfg link) refl e
