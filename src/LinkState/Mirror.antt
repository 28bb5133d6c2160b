-- ===== src/LinkState/Mirror.antt =====
-- SetPeerLinkState and the notices that it answers.
use meshnet_cni.Prelude.{
  ℕ, ◌≡◌, not, refl, sym, ap, subst, ◌∙◌, ◌⊎◌, inl, inr, Bool, true, false, Option, none, some, [],
  ◌∷◌, ◌==◌, nat_eq, bool_eq, Bool-cases, Option-cases, nat_beq_iff, ==_refl,
}
use mathlib.Core.Option.{some-injective}
use meshnet_cni.Prelude.Assoc.{Assoc, lookup, lookup-insert}
use meshnet_cni.Carrier.{suppress_echo}
use meshnet_cni.Wire.{Daemon, GrpcWire, wire_by_if_index}
use meshnet_cni.LinkState.{
  Link, Links, WireLinkState, get_link_by_uid, notify_peer_link_state, propagate_wire_edge, Kernel,
  Target, host_end, pod_end, Mirrored, set_local_veth_state, set_local_link_state,
  set_peer_link_state,
}

pub get_link_by_uid-uid :
    (uid : ℕ) (m : Links) (l : Link) → get_link_by_uid uid m ≡ some l → l.uid ≡ uid
unfolding get_link_by_uid
get_link_by_uid-uid uid [] l e = cc
get_link_by_uid-uid uid ((k, x) ∷ m) l e = elim (Bool-cases (x.uid == uid)) [
  | inl same ↦
      subst (λ y. y.uid ≡ uid) (some-injective _ _ (rw (same, get_link_by_uid) at e))
        ((nat_beq_iff x.uid uid).0 same)
  | inr other ↦ get_link_by_uid-uid uid m l (rw (other, get_link_by_uid) at e)
]

-- The key under which the watch of the target's overlay samples it, and the state that it was set to.
abbrev pub key_of_target : Target → ℕ
key_of_target (host_end id up) = id
key_of_target (pod_end l up) = l.uid

abbrev pub state_of_target : Target → Bool
state_of_target (host_end id up) = up
state_of_target (pod_end l up) = up

-- The table expects the state of the target under its key, and is unchanged at every other key.
abbrev pub Expects : Target → Bool → Assoc ℕ Bool → Assoc ℕ Bool → Type 0
Expects x up t t' =
    (state_of_target x ≡ up)
    × (lookup (key_of_target x) t' ≡ some up)
    × ((j : ℕ) → (key_of_target x == j) ≡ false → lookup j t' ≡ lookup j t)

suppress_edge :
    (x : Target) (k : ℕ) (up : Bool) (t : Assoc ℕ Bool)
    → key_of_target x ≡ k
    → state_of_target x ≡ up
    → Expects x up t (suppress_echo k up t)
unfolding suppress_echo
suppress_edge x k up t ek eu = (
  eu,
  lookup-insert k (key_of_target x) up t ∙ rw (sym ek, ==_refl (key_of_target x)) refl,
  λ j ne. lookup-insert k j up t ∙ rw (sym ek, ne) refl,
)

-- What a handler that has set a target leaves in the table.
abbrev Leaves : Bool → Assoc ℕ Bool → Mirrored → Type 0
Leaves up t r = (x : Target) → r.target ≡ some x → Expects x up t r.echo

veth_outcome :
    (kernel : Kernel) (id : ℕ) (up : Bool) (s : Daemon) (t : Assoc ℕ Bool) (found : Bool)
    (o : Option GrpcWire)
    → kernel.found ≡ found
    → wire_by_if_index id s.wires ≡ o
    → Leaves up t (set_local_veth_state kernel id up s t)
unfolding set_local_veth_state
veth_outcome kernel id up s t found none f o = rw (o, set_local_veth_state) (λ x e. cc)
veth_outcome kernel id up s t false (some w) f o = rw (o, f, set_local_veth_state) (λ x e. cc)
veth_outcome kernel id up s t true (some w) f o =
    rw (o, f, set_local_veth_state)
      (λ x e.
        suppress_edge x id up t (ap key_of_target (sym (some-injective _ _ e)))
          (ap state_of_target (sym (some-injective _ _ e))))

link_outcome :
    (kernel : Kernel) (uid : ℕ) (up : Bool) (m : Links) (t : Assoc ℕ Bool) (found : Bool)
    (o : Option Link)
    → kernel.found ≡ found
    → get_link_by_uid uid m ≡ o
    → Leaves up t (set_local_link_state kernel uid up m t)
unfolding set_local_link_state
link_outcome kernel uid up m t found none f o = rw (o, set_local_link_state) (λ x e. cc)
link_outcome kernel uid up m t false (some l) f o = rw (o, f, set_local_link_state) (λ x e. cc)
link_outcome kernel uid up m t true (some l) f o =
    rw (o, f, set_local_link_state)
      (λ x e.
        suppress_edge x uid up t
          (ap key_of_target (sym (some-injective _ _ e)) ∙ get_link_by_uid-uid uid m l o)
          (ap state_of_target (sym (some-injective _ _ e))))

-- The cases of SetPeerLinkState: nothing, the host end of a wire, or the pod end of a VXLAN link.
handler_cases :
    (on : Bool) (kernel : Kernel) (n : WireLinkState) (s : Daemon) (m : Links) (t : Assoc ℕ Bool)
    → (set_peer_link_state on kernel n s m t ≡ record { target = none; failed = false; echo = t })
      ⊎ (set_peer_link_state on kernel n s m t
          ≡ set_local_veth_state kernel n.peer_iface_id n.up s t)
      ⊎ (set_peer_link_state on kernel n s m t ≡ set_local_link_state kernel n.link_uid n.up m t)
unfolding set_peer_link_state
handler_cases false kernel n s m t = inl refl
handler_cases true kernel n s m t = elim (Bool-cases (n.peer_iface_id == 0)) [
  | inl zero_id ↦ inr (inr (rw (zero_id, set_peer_link_state) refl))
  | inr some_id ↦ elim (Option-cases (wire_by_if_index n.peer_iface_id s.wires)) [
    | inl no_wire ↦ inr (inr (rw (some_id, no_wire, set_peer_link_state) refl))
    | inr (w, wire) ↦ inr (inl (rw (some_id, wire, set_peer_link_state) refl))
  ]
]

-- Whenever SetPeerLinkState sets an interface, it is to the state that the peer told, and the echo
-- table then expects that state under the key by which the interface is watched, so that the edge is
-- not sent back to the peer; what the table expects of other keys stays.
pub mirrored_is_expected :
    (on : Bool) (kernel : Kernel) (n : WireLinkState) (s : Daemon) (m : Links) (t : Assoc ℕ Bool)
    (x : Target)
    → (set_peer_link_state on kernel n s m t).target ≡ some x
    → Expects x n.up t (set_peer_link_state on kernel n s m t).echo
mirrored_is_expected on kernel n s m t = elim (handler_cases on kernel n s m t) [
  | inl ignored ↦ rw ignored (λ x e. cc)
  | inr (inl veth) ↦ rw veth (
      veth_outcome kernel n.peer_iface_id n.up s t kernel.found
        (wire_by_if_index n.peer_iface_id s.wires) refl refl)
  | inr (inr link) ↦ rw link (
      link_outcome kernel n.link_uid n.up m t kernel.found (get_link_by_uid n.link_uid m) refl refl)
]

-- What the handler does with a notice for a wire that it keeps, on an interface that is there.
pub handler_sets :
    (kernel : Kernel) (n : WireLinkState) (s : Daemon) (m : Links) (t : Assoc ℕ Bool) (v : GrpcWire)
    → (n.peer_iface_id == 0) ≡ false
    → wire_by_if_index n.peer_iface_id s.wires ≡ some v
    → kernel.found ≡ true
    → set_peer_link_state true kernel n s m t ≡ record {
      target = some (host_end n.peer_iface_id n.up);
      failed = not kernel.sets;
      echo = suppress_echo n.peer_iface_id n.up t;
    }
unfolding set_peer_link_state set_local_veth_state
handler_sets kernel n s m t v nz hv found =
    rw (nz, hv, set_peer_link_state) (rw (hv, set_local_veth_state) (rw found refl))

-- An edge of a wire crosses to the peer: if the watched interface belongs to a wire, exactly the
-- wire's peer is told, and a peer that has carrier propagation on, keeps a wire under the interface id
-- that the wire has for it, and whose kernel finds that interface, sets this interface to the state
-- of the edge, and fails only if setting it fails.
pub edge_crosses :
    (id : ℕ) (up : Bool) (here there : Daemon) (w v : GrpcWire) (kernel : Kernel) (m : Links)
    (t : Assoc ℕ Bool)
    → wire_by_if_index id here.wires ≡ some w
    → (w.wire_iface_id_on_peer_node == 0) ≡ false
    → wire_by_if_index w.wire_iface_id_on_peer_node there.wires ≡ some v
    → kernel.found ≡ true
    → (n : WireLinkState) × (propagate_wire_edge id up here ≡ some (w.peer_node_ip, n))
      × ((set_peer_link_state true kernel n there m t).target
          ≡ some (host_end w.wire_iface_id_on_peer_node up))
      × ((set_peer_link_state true kernel n there m t).failed ≡ not kernel.sets)
unfolding propagate_wire_edge notify_peer_link_state
edge_crosses id up here there w v kernel m t hw nz hv found =
    let n = (notify_peer_link_state w up).1 in
    let sets = handler_sets kernel n there m t v nz hv found in
    (
      n,
      rw (hw, propagate_wire_edge) refl,
      ap (λ (r : Mirrored). r.target) sets,
      ap (λ (r : Mirrored). r.failed) sets,
    )
