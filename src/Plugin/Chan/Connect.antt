-- ===== src/Plugin/Chan/Connect.antt =====
-- The two ends of the wire that CreatGRPCChan of plugin/grpcwires-plugin.go has made.
use meshnet_cni.Prelude.{
  ℕ, ◌≡◌, ◌≢◌, refl, sym, ap, ◌∙◌, inl, inr, Bool, true, false, ◌&&◌, not, String, Option, none,
  some, nat_eq, string_eq, pair_eq, if◌then◌else◌, Bool-cases,
}
use meshnet_cni.Topology.{Link, Pod}
use meshnet_cni.Wire.{GrpcWire, WireDef, get_wire}
use meshnet_cni.Wire.Steps.{create_grpc_wire_local, add_grpc_wire_remote, grpc_wire_exists}
use meshnet_cni.Plugin.{Config, VEth}
use meshnet_cni.Plugin.Chan.{
  Answers, Nodes, Result, connected, left_to_peer, error, remote_def, local_def, add_local,
  after_remote, connect, plug, query, make_unless_there, after_wait, peer_made_it, peer_skipped_us,
  gave_up, failed, waits, creat_grpc_chan, Waited,
}
use meshnet_cni.Plugin.Chan.Ends.{ip_after, local_end, their_end}

-- The two ends point at each other's interfaces.
abbrev pub Connected : Link → (local peer : Pod) → (before after : Nodes) → Type 0
Connected link local peer before after =
    (mine theirs : GrpcWire) × (get_wire local.net_ns link.uid after.here ≡ some mine)
    × (get_wire peer.net_ns link.uid after.there ≡ some theirs)
    × (mine.is_ready ≡ true)
    × (theirs.is_ready ≡ true)
    × (mine.wire_iface_id_on_peer_node ≡ theirs.local_node_iface_id)
    × (theirs.wire_iface_id_on_peer_node ≡ mine.local_node_iface_id)
    × (mine.peer_node_ip ≡ peer.src_ip)
    × (theirs.peer_node_ip ≡ ip_after local.src_ip (get_wire peer.net_ns link.uid before.there))

added :
    (i : ℕ) (a : Answers) (d : WireDef) (n n' : Nodes)
    → add_local (some i) a d n ≡ (connected, n')
    → ((create_grpc_wire_local (some i) a.local_handle d n.here).0 ≡ true)
      × (n'.here ≡ (create_grpc_wire_local (some i) a.local_handle d n.here).1)
      × (n'.there ≡ n.there)
unfolding add_local
added i a d n n' e = elim (Bool-cases a.local_reached) [
  | inl reached ↦ elim (Bool-cases (create_grpc_wire_local (some i) a.local_handle d n.here).0) [
    | inl done ↦
        let e' = rw (reached, done, add_local) at e in
        (done, sym (ap (λ r. r.1.here) e'), sym (ap (λ r. r.1.there) e'))
    | inr not_done ↦ let e' = rw (reached, not_done, add_local) at e in cc
  ]
  | inr lost ↦ let e' = rw (lost, add_local) at e in cc
]

answer_yes :
    (link : Link) (local peer : Pod) (node_intf : String) (i : ℕ) (a : Answers) (answer : Bool × ℕ)
    (n n' : Nodes)
    → after_remote link local peer node_intf i a answer n ≡ (connected, n')
    → (id : ℕ) × (answer ≡ (true, id))
      × (add_local (some i) a (local_def link local peer node_intf id) n ≡ (connected, n'))
unfolding after_remote
answer_yes link local peer node_intf i a (false, id) n n' e = cc
answer_yes link local peer node_intf i a (true, id) n n' e = (id, refl, e)

both_ends :
    (link : Link) (local peer : Pod) (node_intf : String) (i : ℕ) (a : Answers) (n n' : Nodes)
    → let (answer, there) =
        add_grpc_wire_remote a.remote_made (remote_def link local peer i) n.there in
      after_remote link local peer node_intf i a answer (record n { there = there })
        ≡ (connected, n')
      → Connected link local peer n n'
unfolding remote_def local_def
both_ends link local peer node_intf i a n n' e =
    let d = remote_def link local peer i in
    let (answer, there) = add_grpc_wire_remote a.remote_made d n.there in
    let (id, said, made) =
      answer_yes link local peer node_intf i a answer (record n { there = there }) n' e in
    let (done, here', there') =
      added i a (local_def link local peer node_intf id) (record n { there = there }) n' made in
    let (wl, (at_l, ready_l, to_l), id_l, ip_l) =
      local_end i a.local_handle (local_def link local peer node_intf id) n.here done in
    let (wr, (at_r, ready_r, to_r), id_r, ip_r) = their_end a.remote_made d n.there id said in
    (
      wl,
      wr,
      rw here' at_l,
      rw there' at_r,
      ready_l,
      ready_r,
      to_l ∙ sym id_r,
      to_r ∙ sym id_l,
      ip_l,
      ip_r,
    )

connect_ends :
    (link : Link) (local peer : Pod) (node_intf : String) (index : Option ℕ) (a : Answers)
    (n n' : Nodes)
    → connect link local peer node_intf index a n ≡ (connected, n')
    → Connected link local peer n n'
unfolding connect
connect_ends link local peer node_intf none a n n' e = cc
connect_ends link local peer node_intf (some i) a n n' e = elim (Bool-cases a.remote_reached) [
  | inl reached ↦ both_ends link local peer node_intf i a n n' (rw (reached, connect) at e)
  | inr lost ↦ let e' = rw (lost, connect) at e in cc
]

plug_ends :
    (link : Link) (local peer : Pod) (veth : Option VEth) (name : Option String) (a : Answers)
    (n n' : Nodes)
    → plug link local peer veth name a n ≡ (connected, n')
    → Connected link local peer n n'
unfolding plug
plug_ends link local peer none name a n n' e = cc
plug_ends link local peer (some veth) none a n n' e = cc
plug_ends link local peer (some veth) (some node_intf) a n n' e =
    elim (Bool-cases (a.veth_made && a.dialed)) [
      | inl plugged ↦
          connect_ends link local peer node_intf (a.index_of node_intf) a n n'
            (rw (plugged, plug) at e)
      | inr not_plugged ↦ let e' = rw (not_plugged, plug) at e in cc
    ]

-- An early return that is not a connection was not taken.
not_returned :
    (b : Bool) (early : Result) (n n' : Nodes) (rest : Result × Nodes)
    → early ≢ connected
    → (if b then (early, n) else rest) ≡ (connected, n')
    → rest ≡ (connected, n')
not_returned true early n n' rest ne e = absurd (ne (ap (λ x. x.0) e))
not_returned false early n n' rest ne e = e

error_differs : error ≢ connected
error_differs e = cc

left_differs : left_to_peer ≢ connected
left_differs e = cc

made_ends :
    (cfg : Config) (link : Link) (local peer : Pod) (a : Answers) (n n' : Nodes)
    → make_unless_there cfg link local peer a n ≡ (connected, n')
    → Connected link local peer n n'
unfolding make_unless_there
made_ends cfg link local peer a n n' e =
    let reached = not_returned (not a.exists_reached) error n n' _ error_differs e in
    let none_there =
      not_returned (grpc_wire_exists (query link local) n.here).0 left_to_peer n n' _ left_differs
        reached in
    plug_ends link local peer _ a.node_intf_name a n n'
      (not_returned (not a.node_ns) error n n' _ error_differs none_there)

wait_ends :
    (w : Waited) (rest : Result × Nodes) (n n' : Nodes)
    → after_wait w rest n ≡ (connected, n')
    → rest ≡ (connected, n')
wait_ends peer_made_it rest n n' e = cc
wait_ends gave_up rest n n' e = cc
wait_ends failed rest n n' e = cc
wait_ends waits rest n n' e = cc
wait_ends peer_skipped_us rest n n' e = e

-- If CreatGRPCChan has made a wire, the daemons of both nodes have their end of it, ready, each end
-- sends to the interface of the other, and the own end knows the peer's node; the peer's end knows the
-- own node if the peer's daemon had no wire for the link before, and keeps the address of the wire that
-- it had otherwise.
pub wire_connects :
    (cfg : Config) (link : Link) (local peer : Pod) (a : Answers) (n n' : Nodes)
    → creat_grpc_chan cfg link local peer a n ≡ (connected, n')
    → Connected link local peer n n'
unfolding creat_grpc_chan
wire_connects cfg link local peer a n n' e =
    made_ends cfg link local peer a n n' (wait_ends _ _ n n' e)
