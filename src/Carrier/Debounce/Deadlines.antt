-- ===== src/Carrier/Debounce/Deadlines.antt =====
-- What `Due` does to the table of deadlines.
use meshnet_cni.Prelude.{
  Bool-cases, ℕ, ◌≤◌, ◌≡◌, false, none, some, [], ◌∷◌, arith, ◌==◌, nat_eq, nat_beq_iff, inl, inr,
}
use meshnet_cni.Prelude.Assoc.{
  Assoc, lookup, delete, lookup-delete, AllPairs, AllPairs-delete, AllPairs-map,
}
use meshnet_cni.Carrier.{Debouncer, due_entry, due_loop, due}

due_entry-All :
    (P : ℕ → ℕ → Type 0) (now : ℕ) (d : Debouncer) (k dl : ℕ)
    → AllPairs P d.deadline
    → AllPairs P (due_entry now d k dl).0.deadline
unfolding due_entry
due_entry-All P now d k dl a =
    let kept =
      AllPairs-map (λ j t. ((j == k) ≡ false) × P j t) P (delete k d.deadline) (λ j t h. h.1)
        (AllPairs-delete P k d.deadline a) in
    ground (arith, kept)

-- Every deadline that is left was there before.
due_loop-All :
    (P : ℕ → ℕ → Type 0) (now : ℕ) (d : Debouncer) (l : Assoc ℕ ℕ)
    → AllPairs P d.deadline
    → AllPairs P (due_loop now d l).0.deadline
unfolding due_loop
due_loop-All P now d [] a = a
due_loop-All P now d ((k, dl) ∷ l) a =
    due_loop-All P now (due_entry now d k dl).0 l (due_entry-All P now d k dl a)

pub due-All :
    (P : ℕ → ℕ → Type 0) (d : Debouncer) (now : ℕ)
    → AllPairs P d.deadline
    → AllPairs P (due d now).0.deadline
unfolding due
due-All P d now a = due_loop-All P now d d.deadline a

due_entry-keeps_none :
    (now : ℕ) (d : Debouncer) (j dl k : ℕ)
    → lookup k d.deadline ≡ none
    → lookup k (due_entry now d j dl).0.deadline ≡ none
unfolding due_entry
due_entry-keeps_none now d j dl k e = ground (arith, lookup-delete j k d.deadline, nat_beq_iff j k)

due_loop-keeps_none :
    (now : ℕ) (d : Debouncer) (l : Assoc ℕ ℕ) (k : ℕ)
    → lookup k d.deadline ≡ none
    → lookup k (due_loop now d l).0.deadline ≡ none
unfolding due_loop
due_loop-keeps_none now d [] k e = e
due_loop-keeps_none now d ((j, dl) ∷ l) k e =
    due_loop-keeps_none now (due_entry now d j dl).0 l k (due_entry-keeps_none now d j dl k e)

due_entry_clears :
    (now : ℕ) (d : Debouncer) (k dl : ℕ)
    → dl ≤ now
    → lookup k (due_entry now d k dl).0.deadline ≡ none
unfolding due_entry
due_entry_clears now d k dl h = ground (arith, lookup-delete k k d.deadline, nat_beq_iff k k)

due_loop_clears :
    (now : ℕ) (d : Debouncer) (l : Assoc ℕ ℕ) (k : ℕ) {dl : ℕ}
    → lookup k l ≡ some dl
    → dl ≤ now
    → lookup k (due_loop now d l).0.deadline ≡ none
unfolding due_loop lookup
due_loop_clears now d [] k e h = cc
due_loop_clears now d ((j, t) ∷ l) k {dl} e h = elim (Bool-cases (j == k)) [
  | inl same ↦
      due_loop-keeps_none now (due_entry now d j t).0 l k
        (rw ((nat_beq_iff j k).0 same) (due_entry_clears now d k t (ground arith)))
  | inr other ↦ due_loop_clears now (due_entry now d j t).0 l k (rw other at e) h
]

-- An expired deadline is gone after the round.
pub due_clears :
    (d : Debouncer) (now k : ℕ) {dl : ℕ}
    → lookup k d.deadline ≡ some dl
    → dl ≤ now
    → lookup k (due d now).0.deadline ≡ none
unfolding due
due_clears d now k e h = due_loop_clears now d d.deadline k e h

pub due-keeps_none :
    (d : Debouncer) (now k : ℕ)
    → lookup k d.deadline ≡ none
    → lookup k (due d now).0.deadline ≡ none
unfolding due
due-keeps_none d now k e = due_loop-keeps_none now d d.deadline k e
