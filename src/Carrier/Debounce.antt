-- ===== src/Carrier/Debounce.antt =====
-- What the debouncer of internal/carrierprop/carrierprop.go reports, after any history of calls.
mod Loop
mod Deadlines
use meshnet_cni.Prelude.{
  ℕ, ◌+◌, ◌≤◌, ◌≡◌, ◌≢◌, refl, sym, ap, subst, ◌∙◌, Bool, false, Option, none, some, List, [], ◌∷◌,
  ◌++◌, arith, ltb, ◌==◌, nat_eq, if◌then◌else◌, All, All-map, bool_beq_iff, nat_beq_iff, inl, inr,
  Bool-cases, Option-cases,
}
use meshnet_cni.Prelude.Assoc.{
  Assoc, lookup, insert, delete, lookup-insert, lookup-delete, AllPairs, AllPairs-delete,
  AllPairs-map, AllPairs-lookup,
}
use meshnet_cni.Carrier.{Debouncer, Edge, observe, due, holds, new_debouncer}
use meshnet_cni.Carrier.History.{
  Call, observes, dues, step, run, last_sample, stable_since, reports, reported,
}
use Loop.{
  pending-due, debounce-due, Agrees, due-Agrees, IsQuiet, due-IsQuiet, due-edges, Sampled,
  FromEntry,
}
use Deadlines.{due-All, due_clears, due-keeps_none}
pub use Loop.{head?, Alternates}

debounce-run : (b : ℕ) (h : List Call) → (run b h).debounce ≡ b
unfolding run new_debouncer observe
debounce-run b [] = refl
debounce-run b (observes k up now ∷ h) = ground (arith, debounce-run b h)
debounce-run b (dues now ∷ h) = debounce-due (run b h) now ∙ debounce-run b h

-- The table `pending` holds the newest sample of each key.
pub pending-run : (b k : ℕ) (h : List Call) → lookup k (run b h).pending ≡ last_sample k h
unfolding run new_debouncer observe last_sample lookup
pending-run b k [] = refl
pending-run b k (observes j up now ∷ h) = ground (
  arith,
  pending-run b k h,
  pending-run b j h,
  lookup-insert j k up (run b h).pending,
  nat_beq_iff j k,
  Loop.holds→eq (lookup j (run b h).pending) up,
)
pending-run b k (dues now ∷ h) = ap (lookup k) (pending-due (run b h) now) ∙ pending-run b k h

-- A deadline is the start of the key's run of equal samples, and the debounce time.
abbrev Armed : ℕ → List Call → ℕ → ℕ → Type 0
Armed b h k dl = (t : ℕ) × (stable_since k h ≡ some t) × (dl ≡ t + b)

Armed-observe :
    (b j now : ℕ) (up : Bool) (h : List Call) (k dl : ℕ)
    → ((k == j) ≡ false) × Armed b h k dl
    → Armed b (observes j up now ∷ h) k dl
unfolding stable_since
Armed-observe b j now up h k dl (other, (t, s, e)) =
    (t, ground (arith, nat_beq_iff j k, nat_beq_iff k j), e)

Armed-same :
    (b j now : ℕ) (up : Bool) (h : List Call) (k dl : ℕ)
    → last_sample j h ≡ some up
    → Armed b h k dl
    → Armed b (observes j up now ∷ h) k dl
unfolding stable_since
Armed-same b j now up h k dl same (t, s, e) =
    (t, ground (arith, nat_beq_iff j k, bool_beq_iff up up), e)

observe-Armed :
    (b j now : ℕ) (up : Bool) (h : List Call) (d : Debouncer)
    → d.debounce ≡ b
    → lookup j d.pending ≡ last_sample j h
    → AllPairs (Armed b h) d.deadline
    → AllPairs (Armed b (observes j up now ∷ h)) (observe d j up now).deadline
unfolding observe insert stable_since
observe-Armed b j now up h d bounce sample a = elim (Bool-cases (holds (lookup j d.pending) up)) [
  | inl same ↦ rw same (
      AllPairs-map (Armed b h) (Armed b (observes j up now ∷ h)) d.deadline
        (λ k dl. Armed-same b j now up h k dl (sym sample ∙ Loop.holds→eq _ up same)) a)
  | inr fresh ↦ rw fresh (
    (now, ground (arith, nat_beq_iff j j), ground arith),
    AllPairs-map (λ k dl. ((k == j) ≡ false) × Armed b h k dl) (Armed b (observes j up now ∷ h))
        (delete j d.deadline) (Armed-observe b j now up h)
        (AllPairs-delete (Armed b h) j d.deadline a),
  )
]

Armed-due : (b now : ℕ) (h : List Call) (k dl : ℕ) → Armed b h k dl → Armed b (dues now ∷ h) k dl
unfolding stable_since
Armed-due b now h k dl a = a

Armed-run : (b : ℕ) (h : List Call) → AllPairs (Armed b h) (run b h).deadline
unfolding run new_debouncer
Armed-run b [] = tt
Armed-run b (observes j up now ∷ h) =
    observe-Armed b j now up h (run b h) (debounce-run b h) (pending-run b j h) (Armed-run b h)
Armed-run b (dues now ∷ h) =
    AllPairs-map (Armed b h) (Armed b (dues now ∷ h)) _ (Armed-due b now h)
      (due-All (Armed b h) (run b h) now (Armed-run b h))

stable_since-none : (k : ℕ) (h : List Call) → last_sample k h ≡ none → stable_since k h ≡ none
unfolding stable_since
stable_since-none k [] e = refl
stable_since-none k (observes j up now ∷ h) e = ground (arith, stable_since-none k h)
stable_since-none k (dues now ∷ h) e = stable_since-none k h e

-- A run of equal samples belongs to a sample.
stable_since-sampled :
    (k : ℕ) (h : List Call) {t : ℕ}
    → stable_since k h ≡ some t
    → (up : Bool) × (last_sample k h ≡ some up)
stable_since-sampled k h e = elim (Option-cases (last_sample k h)) [
  | inl missing ↦ cc (stable_since-none k h missing)
  | inr known ↦ known
]

Sampled-run : (b : ℕ) (h : List Call) → AllPairs (Sampled (run b h).pending) (run b h).deadline
Sampled-run b h =
    AllPairs-map (Armed b h) (Sampled (run b h).pending) (run b h).deadline
      (λ k dl a. let (up, s) = stable_since-sampled k h a.1 in (up, pending-run b k h ∙ s))
      (Armed-run b h)

Agrees-run : (b k : ℕ) (h : List Call) → Agrees (run b h) k (reported b k h)
unfolding run new_debouncer observe reported lookup
Agrees-run b k [] = record { newest = refl; alternate = tt }
Agrees-run b k (observes j up now ∷ h) =
    let a = Agrees-run b k h in
    record { newest = ground (arith, a.newest); alternate = a.alternate }
Agrees-run b k (dues now ∷ h) = due-Agrees (run b h) now k (reported b k h) (Agrees-run b k h)

IsQuiet-run : (b k : ℕ) (h : List Call) → IsQuiet (run b h) k
unfolding run new_debouncer observe lookup
IsQuiet-run b k [] e = refl
IsQuiet-run b k (observes j up now ∷ h) e = ground (
  arith,
  IsQuiet-run b k h,
  lookup-insert j k up (run b h).pending,
  lookup-insert j k (now + (run b h).debounce) (run b h).deadline,
)
IsQuiet-run b k (dues now ∷ h) e =
    due-IsQuiet (run b h) now k (Sampled-run b h) (IsQuiet-run b k h) e

cleared :
    (b k now : ℕ) (h : List Call) (t : ℕ)
    → stable_since k h ≡ some t
    → t + b ≤ now
    → lookup k (run b (dues now ∷ h)).deadline ≡ none
unfolding run
cleared b k now h t since settled = elim (Option-cases (lookup k (run b h).deadline)) [
  | inl e ↦ due-keeps_none (run b h) now k e
  | inr (dl, e) ↦
      due_clears (run b h) now k e
        (due_le (AllPairs-lookup (Armed b h) k (run b h).deadline (Armed-run b h) e))
]
  where
    due_le : {dl : ℕ} → Armed b h k dl → dl ≤ now
    due_le (t', s, q) = ground arith

-- The edges reported for one key alternate between up and down, after any history.
pub reported-Alternates : (b k : ℕ) (h : List Call) → Alternates (reported b k h)
reported-Alternates b k h = (Agrees-run b k h).alternate

-- Every edge that `due` reports after a history is the newest sample of its key, and the key's
-- samples have been equal to it for at least the debounce time.
pub due_is_stable :
    (b now : ℕ) (h : List Call)
    → All
        (λ e.
          (last_sample e.key h ≡ some e.up)
          × ((t : ℕ) × (stable_since e.key h ≡ some t) × (t + b ≤ now)))
        (due (run b h) now).1
due_is_stable b now h =
    All-map (FromEntry (run b h).pending (Armed b h) now) _ (due (run b h) now).1
      (λ e f.
        let (dl, (t, s, q), le) = f.1 in (sym (pending-run b e.key h) ∙ f.0, (t, s, omega arith)))
      (due-edges (Armed b h) (run b h) now (Sampled-run b h) (Armed-run b h))

-- Once the samples of a key have been equal for the debounce time, the next call of `due` leaves
-- that sample as the last report of the key: no settled transition is lost.
pub due_reports_settled :
    (b k now : ℕ) (h : List Call) (up : Bool) (t : ℕ)
    → last_sample k h ≡ some up
    → stable_since k h ≡ some t
    → t + b ≤ now
    → head? (reported b k (dues now ∷ h)) ≡ some up
due_reports_settled b k now h up t sample since settled =
    sym (Agrees-run b k (dues now ∷ h)).newest
    ∙ IsQuiet-run b k (dues now ∷ h) (cleared b k now h t since settled)
    ∙ pending-run b k (dues now ∷ h)
    ∙ unfold last_sample in sample
