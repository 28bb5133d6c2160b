-- ===== src/Taint/Removal.antt =====
-- The removal of the readiness taint, over the attempts of daemon/meshnet/taint.go.
use meshnet_cni.Prelude.{
  ℕ, zero, suc, ◌+◌, ◌≤◌, ◌<◌, ◌≡◌, refl, sym, ◌∙◌, Option-cases, subst, inl, inr, Bool, true,
  false, not, String, Option, none, some, List, [], ◌∷◌, arith, ◌==◌, string_eq, filter, any,
}
use native.Mathlib.Decide.{ℕ_discrete}
use meshnet_cni.DataStore.{Answer}
use meshnet_cni.DataStore.Attempts.{RetryOnConflict}
use meshnet_cni.Taint.{
  Taint, filter_taint, NodeRead, get_failed, node, remove_attempt, remove_node_taint, cleared,
  taint_removal_retries, removal_loop, remove_readiness_taint,
}

abbrev pub has_key : String → Taint → Bool
has_key key t = t.key == key

-- Filtering drops exactly the taints of the key, in order, and says whether there was one.
filter_taint_lem :
    (l : List Taint) (key : String)
    → ((filter_taint l key).0 ≡ filter (λ t. not (has_key key t)) l)
      × ((filter_taint l key).1 ≡ any (has_key key) l)
unfolding filter_taint
filter_taint_lem [] key = (refl, refl)
filter_taint_lem (t ∷ l) key =
    let (kept, removed) = filter_taint_lem l key in (ground (arith, kept), ground (arith, removed))

-- What a removal that reports no error has done to the node that it read last.
abbrev pub Settled : String → NodeRead → Option (List Taint) → Type 0
Settled key (get_failed e) sent = ⊥
Settled key (node l) none = any (has_key key) l ≡ false
Settled key (node l) (some out) =
    (any (has_key key) l ≡ true) × (out ≡ filter (λ t. not (has_key key t)) l)

node_settles :
    (key : String) (l : List Taint) (answer : Answer) (b : Bool)
    → (filter_taint l key).1 ≡ b
    → (remove_attempt key (node l) answer).1 ≡ none
    → Settled key (node l) (remove_attempt key (node l) answer).0
unfolding remove_attempt
node_settles key l answer true e h =
    let sends : remove_attempt key (node l) answer ≡ (some (filter_taint l key).0, answer) =
      rw (e, remove_attempt) refl in
    subst (λ p. Settled key (node l) p.0) (sym sends)
      (sym (filter_taint_lem l key).1 ∙ e, (filter_taint_lem l key).0)
node_settles key l answer false e h =
    let idle : remove_attempt key (node l) answer ≡ (none, none) = rw (e, remove_attempt) refl in
    subst (λ p. Settled key (node l) p.0) (sym idle) (sym (filter_taint_lem l key).1 ∙ e)

attempt_settles :
    (key : String) (read : NodeRead) (answer : Answer)
    → (remove_attempt key read answer).1 ≡ none
    → Settled key read (remove_attempt key read answer).0
unfolding remove_attempt
attempt_settles key (get_failed e) answer h = cc
attempt_settles key (node l) answer h = node_settles key l answer (filter_taint l key).1 refl h

-- If the removal reports no error, the node was read, and either it had no taint of the key and
-- nothing was sent, or the taints sent last are the node's others, all of them and in order.
pub removal_success :
    (r : RetryOnConflict) (key : String) (reads : ℕ → NodeRead) (answers : ℕ → Answer)
    → (remove_node_taint r key reads answers).1 ≡ none
    → (i : ℕ) × (i < 5) × Settled key (reads i) (remove_node_taint r key reads answers).0
unfolding remove_node_taint
removal_success r key reads answers h =
    let attempt = λ (i : ℕ). (remove_attempt key (reads i) (answers i)).1 in
    let i = r.last attempt in (i, r.bounded attempt, attempt_settles key (reads i) (answers i) h)

loop_clears :
    (answers : ℕ → Answer) (done : ℕ → Bool) (left i n : ℕ)
    → i ≤ n
    → n < i + left
    → answers n ≡ none
    → ((j : ℕ) → j < n → done j ≡ false)
    → (k : ℕ) × (i ≤ k)
      × (k ≤ n)
      × (removal_loop answers done left i ≡ cleared k)
      × (answers k ≡ none)
unfolding removal_loop
loop_clears answers done zero i n lo hi ok going = absurd (omega arith)
loop_clears answers done (suc left) i n lo hi ok going = elim (Option-cases (answers i)) [
  | inl here ↦ (i, omega arith, lo, rw (here, removal_loop) refl, here)
  | inr (err, failed) ↦ elim (ℕ_discrete i n) [
    | yes same ↦ cc
    | no later ↦
        let (k, le, rest, eq, hit) =
          loop_clears answers done left (suc i) n (omega arith) (omega arith) ok going in
        (k, omega arith, rest, rw (failed, going i (omega arith), removal_loop) eq, hit)
  ]
]

-- If the node has a name, one of the twelve attempts succeeds, and the context does not end before
-- it, then the taint is cleared, no later than at that attempt and at one that succeeded.
pub removal_clears :
    (node_name : String) (answers : ℕ → Answer) (done : ℕ → Bool) (n : ℕ)
    → (node_name == "") ≡ false
    → 1 ≤ n
    → n ≤ taint_removal_retries
    → answers n ≡ none
    → ((j : ℕ) → j < n → done j ≡ false)
    → (k : ℕ) × (k ≤ n)
      × (remove_readiness_taint node_name answers done ≡ cleared k)
      × (answers k ≡ none)
unfolding remove_readiness_taint
removal_clears node_name answers done n named lo hi ok going =
    let (k, le, rest, eq, hit) =
      loop_clears answers done taint_removal_retries 1 n lo (omega arith) ok going in
    (k, rest, rw named eq, hit)
