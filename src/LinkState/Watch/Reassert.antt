-- ===== src/LinkState/Watch/Reassert.antt =====
-- What ReassertLocalLinkStates reaches on the other nodes.
use meshnet_cni.Prelude.{
  ℕ, ◌≡◌, ap, sym, not, ◌⊎◌, inl, inr, Bool, true, false, some, List, [], ◌∷◌, ◌==◌, nat_eq,
  string_eq, pair_eq, Bool-cases, Option-cases,
}
use meshnet_cni.Prelude.Assoc.{Assoc, lookup}
use mathlib.Core.Option.{some-injective}
use meshnet_cni.Carrier.Reading.{Netlink}
use meshnet_cni.Wire.{Daemon, GrpcWire, LinkKey, wire_by_if_index, snapshot_wires}
use meshnet_cni.LinkState.{
  Links, WireLinkState, Kernel, Mirrored, host_end, notify_peer_link_state, set_peer_link_state,
}
use meshnet_cni.LinkState.Mirror.{handler_sets}
use meshnet_cni.LinkState.Watch.{Notice, wire_datapath_oper_up, reassert_each_wire, reassert_wires}

-- The element occurs in the list.
abbrev pub Occurs : {A : Type 0} → A → List A → Type 0
Occurs x [] = ⊥
Occurs x (y ∷ l) = (x ≡ y) ⊎ Occurs x l

snapshot_wires-Occurs :
    (k : LinkKey) (m : Assoc LinkKey GrpcWire) (w : GrpcWire)
    → lookup k m ≡ some w
    → Occurs w (snapshot_wires m)
unfolding snapshot_wires lookup
snapshot_wires-Occurs k [] w e = cc
snapshot_wires-Occurs k ((j, v) ∷ m) w e = elim (Bool-cases (◌==◌ {A = LinkKey} j k)) [
  | inl same ↦ inl (sym (some-injective _ _ (rw (same, lookup) at e)))
  | inr other ↦ inr (snapshot_wires-Occurs k m w (rw (other, lookup) at e))
]

reassert_step :
    (nl : Netlink) (x w : GrpcWire) (ws : List GrpcWire) (up : Bool)
    → wire_datapath_oper_up nl w ≡ some up
    → (x ≡ w) ⊎ Occurs (notify_peer_link_state x up) (reassert_each_wire nl ws)
    → Occurs (notify_peer_link_state x up) (reassert_each_wire nl (w ∷ ws))
unfolding reassert_each_wire
reassert_step nl x w ws up e (inl same) =
    rw (e, reassert_each_wire) (inl (ap (λ y. notify_peer_link_state y up) same))
reassert_step nl x w ws up e (inr later) = rw (e, reassert_each_wire) (inr later)

-- A notice of the rest is one of the whole, whatever is read of the first wire.
reassert_later :
    (nl : Netlink) (w : GrpcWire) (ws : List GrpcWire) (p : Notice)
    → Occurs p (reassert_each_wire nl ws)
    → Occurs p (reassert_each_wire nl (w ∷ ws))
unfolding reassert_each_wire
reassert_later nl w ws p h = elim (Option-cases (wire_datapath_oper_up nl w)) [
  | inl unread ↦ rw (unread, reassert_each_wire) h
  | inr (up, read) ↦ rw (read, reassert_each_wire) (inr h)
]

reassert_each_wire-Occurs :
    (nl : Netlink) (ws : List GrpcWire) (w : GrpcWire) (up : Bool)
    → Occurs w ws
    → wire_datapath_oper_up nl w ≡ some up
    → Occurs (notify_peer_link_state w up) (reassert_each_wire nl ws)
reassert_each_wire-Occurs nl [] w up h e = elim h [ ]
reassert_each_wire-Occurs nl (x ∷ ws) w up (inl same) e =
    reassert_step nl w x ws up (rw same at e) (inl same)
reassert_each_wire-Occurs nl (x ∷ ws) w up (inr h) e =
    reassert_later nl x ws (notify_peer_link_state w up) (reassert_each_wire-Occurs nl ws w up h e)

-- When carrier propagation is on, a reassertion tells the peer of every wire that the daemon keeps
-- and whose carrier it can read what it has read; and a peer that has carrier propagation on, keeps a
-- wire under the interface id that this wire has for it, and whose kernel finds that interface, sets
-- the interface to this state, and fails only if setting it fails.
pub reassert_crosses :
    (k : LinkKey) (nl : Netlink) (up : Bool) (here there : Daemon) (w v : GrpcWire)
    (kernel : Kernel) (m : Links) (t : Assoc ℕ Bool)
    → lookup k here.wires ≡ some w
    → wire_datapath_oper_up nl w ≡ some up
    → (w.wire_iface_id_on_peer_node == 0) ≡ false
    → wire_by_if_index w.wire_iface_id_on_peer_node there.wires ≡ some v
    → kernel.found ≡ true
    → (n : WireLinkState) × Occurs (w.peer_node_ip, n) (reassert_wires true nl here)
      × ((set_peer_link_state true kernel n there m t).target
          ≡ some (host_end w.wire_iface_id_on_peer_node up))
      × ((set_peer_link_state true kernel n there m t).failed ≡ not kernel.sets)
unfolding reassert_wires notify_peer_link_state
reassert_crosses k nl up here there w v kernel m t kept read nz hv found =
    let n = (notify_peer_link_state w up).1 in
    let sets = handler_sets kernel n there m t v nz hv found in
    (
      n,
      reassert_each_wire-Occurs nl (snapshot_wires here.wires) w up
          (snapshot_wires-Occurs k here.wires w kept) read,
      ap (λ (r : Mirrored). r.target) sets,
      ap (λ (r : Mirrored). r.failed) sets,
    )
