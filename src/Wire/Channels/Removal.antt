-- ===== src/Wire/Channels/Removal.antt =====
-- DeletePodWires keeps the channels apart, ends, and never closes a channel twice.
use meshnet_cni.Prelude.{
  ℕ, zero, suc, ◌<◌, ◌≡◌, refl, Bool, true, false, ◌||◌, String, Option, none, some, List, [], ◌∷◌,
  ◌++◌, arith, ◌==◌, nat_eq, string_eq, pair_eq, length, Bool-cases, Option-cases, inl, inr, ==_iff,
  ◌∙◌, ap,
}
use meshnet_cni.Prelude.Assoc.{Assoc, delete, AllPairs, length-delete}
use meshnet_cni.Wire.{
  Daemon, GrpcWire, Veth, LinkKey, gone, removed, stuck, key_of, del_wire, del_pod, stop_if_ready,
  atomic_delete, first_of_pod, extract_one_wire_by_pod, remove_wire_across_all, drain,
  delete_pod_wires,
}
use meshnet_cni.Wire.Channels.Separate.{Live, In, In-first, In-Live, stopped, stop_if_ready-eq}
use meshnet_cni.Wire.Channels.Invariant.{Inv, InvOf, stop-delete-Inv}

extract-eq :
    (ns pod : String) (s : Daemon) (w : GrpcWire)
    → first_of_pod ns pod s.wires ≡ some w
    → extract_one_wire_by_pod ns pod s ≡ (some w, atomic_delete w s)
unfolding extract_one_wire_by_pod
extract-eq ns pod s w e = rw (e, extract_one_wire_by_pod)

extract_nothing :
    (ns pod : String) (s : Daemon)
    → first_of_pod ns pod s.wires ≡ none
    → extract_one_wire_by_pod ns pod s ≡ (none, s)
unfolding extract_one_wire_by_pod
extract_nothing ns pod s e = rw (e, extract_one_wire_by_pod)

-- The state that one removal leaves, and whether it failed.
pub removal : Veth → GrpcWire → Daemon → Bool × Daemon
removal stuck w s = (true, stopped w s)
removal v w s = (
  false,
  record (stopped w s) { requests = s.requests ++ del_wire (record w { is_ready = false }) ∷ [] },
)

remove-eq :
    (veth : ℕ → Veth) (w : GrpcWire) (s : Daemon)
    → stop_if_ready w s ≡ some (stopped w s)
    → remove_wire_across_all veth w false s ≡ some (removal (veth w.local_node_iface_id) w s)
unfolding remove_wire_across_all removal
remove-eq veth w s e = ground (arith, e)

deleted-open :
    (s : Daemon) (w : GrpcWire)
    → In w s.wires
    → Inv s
    → stop_if_ready w (atomic_delete w s) ≡ some (stopped w (atomic_delete w s))
unfolding atomic_delete
deleted-open s w h v =
    stop_if_ready-eq w (atomic_delete w s) (In-Live s.closed s.next_chan s.wires h v.live).is_open

removal-Inv :
    (v : Veth) (w : GrpcWire) (s : Daemon)
    → In w s.wires
    → Inv s
    → InvOf
        (removal v w (atomic_delete w s)).1.wires
        (removal v w (atomic_delete w s)).1.closed
        (removal v w (atomic_delete w s)).1.next_chan
unfolding removal atomic_delete
removal-Inv gone w s h i = stop-delete-Inv s w h i
removal-Inv removed w s h i = stop-delete-Inv s w h i
removal-Inv stuck w s h i = stop-delete-Inv s w h i

removal-wires :
    (v : Veth) (w : GrpcWire) (s : Daemon)
    → (removal v w (atomic_delete w s)).1.wires ≡ delete (key_of w) s.wires
unfolding removal atomic_delete
removal-wires gone w s = refl
removal-wires removed w s = refl
removal-wires stuck w s = refl

length-delete-In :
    (closed : List ℕ) (n : ℕ) (w : GrpcWire) (m : Assoc LinkKey GrpcWire)
    → In w m
    → AllPairs (Live closed n) m
    → length (delete (key_of w) m) < length m
unfolding delete
length-delete-In closed n w [] h l = elim h [ ]
length-delete-In closed n w ((k, v) ∷ m) (inl e) l =
    rw ((==_iff k (key_of w)).1 (l.0.keyed ∙ ap key_of e))
      (omega (arith, length-delete (key_of w) m))
length-delete-In closed n w ((k, v) ∷ m) (inr h) l =
    let rest = length-delete-In closed n w m h l.1 in
    elim (Bool-cases (k == key_of w)) [
      | inl same ↦ rw same (omega (arith, rest))
      | inr other ↦ rw other (omega (arith, rest))
    ]

drain_done :
    (veth : ℕ → Veth) (ns pod : String) (fuel : ℕ) (failed : Bool) (s : Daemon)
    → extract_one_wire_by_pod ns pod s ≡ (none, s)
    → drain veth ns pod (suc fuel) failed s ≡ some (failed, s)
unfolding drain
drain_done veth ns pod fuel failed s e = rw (e, drain)

drain_round :
    (veth : ℕ → Veth) (ns pod : String) (fuel : ℕ) (failed : Bool) (s s1 : Daemon) (w : GrpcWire)
    (r : Bool × Daemon)
    → extract_one_wire_by_pod ns pod s ≡ (some w, s1)
    → remove_wire_across_all veth w false s1 ≡ some r
    → drain veth ns pod (suc fuel) failed s ≡ drain veth ns pod fuel (failed || r.0) r.1
unfolding drain
drain_round veth ns pod fuel failed s s1 w r e h =
    rw (ap (λ p. p.0) e, drain) (rw (ap (λ p. p.1) e) (rw h))

-- The postcondition of the loop: it ends without a panic, keeps the invariant, and leaves no wire
-- of the pod.
abbrev pub Drained : String → String → Option (Bool × Daemon) → Type 0
Drained ns pod o =
    (r : Bool × Daemon) × (o ≡ some r) × Inv r.1 × (first_of_pod ns pod r.1.wires ≡ none)

drain-Drained :
    (veth : ℕ → Veth) (ns pod : String) (fuel : ℕ) (failed : Bool) (s : Daemon)
    → length s.wires < fuel
    → Inv s
    → Drained ns pod (drain veth ns pod fuel failed s)
drain-Drained veth ns pod zero failed s h v = elim h [ ]
drain-Drained veth ns pod (suc fuel) failed s h v =
    elim (Option-cases (first_of_pod ns pod s.wires)) [
      | inl e ↦
          ((failed, s), drain_done veth ns pod fuel failed s (extract_nothing ns pod s e), v, e)
      | inr (w, e) ↦
          let i = In-first ns pod s.wires e in
          let r = removal (veth w.local_node_iface_id) w (atomic_delete w s) in
          let shorter : length r.1.wires < fuel =
            rw removal-wires
              (omega (arith, length-delete-In s.closed s.next_chan w s.wires i v.live)) in
          let (out, eq, inv, empty) =
            drain-Drained veth ns pod fuel (failed || r.0) r.1 shorter
              (removal-Inv (veth w.local_node_iface_id) w s i v) in
          (
            out,
            drain_round veth ns pod fuel failed s (atomic_delete w s) w r (extract-eq ns pod s w e)
                  (remove-eq veth w (atomic_delete w s) (deleted-open s w i v))
                ∙ eq,
            inv,
            empty,
          )
    ]

-- A pod's wires can be removed from any reachable state: the loop ends within a round for each
-- wire, nothing panics, and no wire of the pod is left, whatever the kernel answers.
pub delete_pod_wires-Drained :
    (veth : ℕ → Veth) (ns pod : String) (s : Daemon)
    → Inv s
    → Drained ns pod (delete_pod_wires veth ns pod s)
unfolding delete_pod_wires
delete_pod_wires-Drained veth ns pod s v =
    let (r, e, inv, empty) =
      drain-Drained veth ns pod (suc (length s.wires)) false s (omega arith) v in
    finish r e inv empty
  where
    finish :
        (r : Bool × Daemon)
        → drain veth ns pod (suc (length s.wires)) false s ≡ some r
        → Inv r.1
        → first_of_pod ns pod r.1.wires ≡ none
        → Drained ns pod (delete_pod_wires veth ns pod s)
    finish (true, s') e inv empty = ((true, s'), rw (e, delete_pod_wires), inv, empty)
    finish (false, s') e inv empty = (
      (false, record s' { requests = s'.requests ++ del_pod ns pod ∷ [] }),
      rw (e, delete_pod_wires),
      inv,
      empty,
    )
