-- ===== src/Topology/Updates/Examples.antt =====
-- Two handlers that write the same object at the same time, over a server that is a list of objects.
use meshnet_cni.Prelude.{
  ℕ, ◌+◌, ◌<◌, ◌≡◌, refl, ◌⊎◌, inl, inr, Bool, true, false, Option, none, some, List, [], ◌∷◌, ltb,
  ◌==◌, nat_eq, string_eq, pair_eq, nat_beq_iff, Bool-cases, if◌then◌else◌, count, arith,
}
use meshnet_cni.Prelude.Assoc.{Assoc, lookup, insert, delete, lookup-insert, lookup-insert_self}
use meshnet_cni.Topology.{Topology, Pod, is_skipped}
use meshnet_cni.Topology.Updates.{Call, alive, skips, Turn, System, begin, run, written}
use meshnet_cni.Topology.Updates.Replay.{replay, logged}
use meshnet_cni.Topology.Updates.Exactly.{no_update_lost}
use meshnet_cni.Topology.Updates.Seen.{skip_is_seen}
use meshnet_cni.Topology.Updates.Server.{Key, Answer, stored, conflict, failed, lost, Declined, Api}

abbrev Stored : Type 0
Stored = Assoc Key (Topology × ℕ)

put_if : Key → Topology → ℕ → Stored → Option (Topology × ℕ) → Answer × Stored
put_if k t v s none = (failed, s)
put_if k t v s (some (old, w)) = if w == v then (stored, insert k (t, v + 1) s) else (conflict, s)

put_if_law :
    (k : Key) (t : Topology) (v : ℕ) (s : Stored) (r : Option (Topology × ℕ))
    → lookup k s ≡ r
    → Declined (put_if k t v s r).0 s (put_if k t v s r).1
      ⊎ ((((put_if k t v s r).0 ≡ stored) ⊎ ((put_if k t v s r).0 ≡ lost))
          × ((old : Topology) × (lookup k s ≡ some (old, v)))
          × ((v' : ℕ) × ((v < v') ⊎ ((v ≡ v') × (lookup k s ≡ some (t, v))))
              × (lookup k (put_if k t v s r).1 ≡ some (t, v')))
          × ((j : Key) → (k == j) ≡ false → lookup j (put_if k t v s r).1 ≡ lookup j s))
unfolding put_if
put_if_law k t v s none e = inl (inr refl, refl)
put_if_law k t v s (some (old, w)) e = elim (Bool-cases (w == v)) [
  | inl same ↦ rw same (
      inr (
        inl refl,
        (old, rw ((nat_beq_iff w v).0 same) at e),
        (v + 1, inl (omega arith), lookup-insert_self k (t, v + 1) s),
        λ j ne. rw (lookup-insert k j (t, v + 1) s, ne) refl,
      ))
  | inr other ↦ rw other (inl (inl refl, refl))
]

abbrev server : Api
server = record {
  Objects = Stored;
  get = λ k s. lookup k s;
  put = λ k t v s. put_if k t v s (lookup k s);
  put_law = λ k t v s. put_if_law k t v s (lookup k s) refl;
}

abbrev dead : Topology
dead = record { links = some []; src_ip = ""; net_ns = ""; container_id = ""; skips = [] }

abbrev r1 : Pod
r1 = record {
  name = "r1";
  src_ip = "10.0.0.1";
  net_ns = "/var/run/netns/a";
  kube_ns = "lab";
  links = [];
  node_ip = "";
  node_intf = "";
  container_id = "c1";
}

-- The pod r1 comes up while its word for r2 is written.
abbrev calls : ℕ → Call
calls k = if k == 0 then skips "lab" "r1" "r2" 1 else alive r1

abbrev turn : ℕ → Turn
turn k = record { call = k; answered = true }

-- Both have read before either writes: the second to write meets a conflict, and reads again.
abbrev turns : List Turn
turns = turn 0 ∷ turn 1 ∷ turn 1 ∷ turn 0 ∷ turn 0 ∷ turn 0 ∷ []

abbrev again : ℕ → Bool
again i = ltb i 4

abbrev at_first : Stored
at_first = (("lab", "r1"), (dead, 7)) ∷ []

abbrev after : System server again calls
after = run server again calls turns (begin server again calls at_first)

both_made : (after.log ≡ 0 ∷ 1 ∷ []) × (after.phase 0 ≡ written)
unfolding run begin put_if lookup insert delete
both_made = (refl, refl)

no_update_lost_example :
    ((v : ℕ) × (lookup ("lab", "r1") after.objects
        ≡ some (replay calls ("lab", "r1") after.log dead, v)))
    × (count (λ x. x == 0) after.log ≡ logged (after.phase 0))
unfolding lookup
no_update_lost_example =
    no_update_lost server again calls ("lab", "r1") dead 7 at_first turns 0 refl

skip_is_seen_example :
    (t : Topology) × (v : ℕ) × (lookup ("lab", "r1") after.objects ≡ some (t, v))
    × (is_skipped "r2" 1 t ≡ true)
unfolding run begin put_if lookup insert delete
skip_is_seen_example =
    skip_is_seen server again calls dead 7 at_first turns 0 "lab" "r1" "r2" 1 refl refl refl refl
