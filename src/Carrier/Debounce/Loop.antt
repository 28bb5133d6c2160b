-- ===== src/Carrier/Debounce/Loop.antt =====
-- The loop of `Due`, for one key and for every entry of the table of deadlines.
use meshnet_cni.Prelude.{
  All, All-append, Bool-cases, subst, ℕ, ◌≤◌, ◌≡◌, refl, sym, ap, Bool, true, Option, none, some,
  List, [], ◌∷◌, ◌++◌, arith, ltb, nat_eq, nat_beq_iff, bool_beq_iff, inl, inr, ◌≢◌,
}
use meshnet_cni.Prelude.Assoc.{Assoc, lookup, lookup-insert, lookup-delete, AllPairs}
use meshnet_cni.Carrier.{Debouncer, Edge, due_entry, due_loop, due, holds, or_false}
use meshnet_cni.Carrier.History.{reports}

abbrev pub head? : List Bool → Option Bool
head? [] = none
head? (b ∷ l) = some b

-- No two neighbours are equal.
abbrev pub Alternates : List Bool → Type 0
Alternates [] = Unit {0}
Alternates (b ∷ l) = (head? l ≢ some b) × Alternates l

pending-due_loop :
    (now : ℕ) (d : Debouncer) (l : Assoc ℕ ℕ) → (due_loop now d l).0.pending ≡ d.pending
unfolding due_loop due_entry
pending-due_loop now d [] = refl
pending-due_loop now d ((k, dl) ∷ l) =
    ground (arith, pending-due_loop now (due_entry now d k dl).0 l)

pub pending-due : (d : Debouncer) (now : ℕ) → (due d now).0.pending ≡ d.pending
unfolding due
pending-due d now = pending-due_loop now d d.deadline

debounce-due_loop :
    (now : ℕ) (d : Debouncer) (l : Assoc ℕ ℕ) → (due_loop now d l).0.debounce ≡ d.debounce
unfolding due_loop due_entry
debounce-due_loop now d [] = refl
debounce-due_loop now d ((k, dl) ∷ l) =
    ground (arith, debounce-due_loop now (due_entry now d k dl).0 l)

pub debounce-due : (d : Debouncer) (now : ℕ) → (due d now).0.debounce ≡ d.debounce
unfolding due
debounce-due d now = debounce-due_loop now d d.deadline

reports-append :
    (es es' : List Edge) (k : ℕ) (older : List Bool)
    → reports (es ++ es') k older ≡ reports es' k (reports es k older)
unfolding reports
reports-append [] es' k older = refl
reports-append (e ∷ es) es' k older = reports-append es es' k _

-- The table `emitted` holds the last report, and the reports alternate.
pub record Agrees (d : Debouncer) (k : ℕ) (older : List Bool) : Type 0 where
  pub newest : lookup k d.emitted ≡ head? older
  pub alternate : Alternates older

due_entry-Agrees :
    (now : ℕ) (d : Debouncer) (j dl k : ℕ) (older : List Bool)
    → Agrees d k older
    → Agrees (due_entry now d j dl).0 k (reports (due_entry now d j dl).1 k older)
unfolding due_entry reports
due_entry-Agrees now d j dl k older a =
    ground (arith, lookup-insert j k (or_false (lookup j d.pending)) d.emitted, nat_beq_iff j k)

due_loop-Agrees :
    (now : ℕ) (d : Debouncer) (l : Assoc ℕ ℕ) (k : ℕ) (older : List Bool)
    → Agrees d k older
    → Agrees (due_loop now d l).0 k (reports (due_loop now d l).1 k older)
unfolding due_loop reports
due_loop-Agrees now d [] k older a = a
due_loop-Agrees now d ((j, dl) ∷ l) k older a =
    rw (reports-append (due_entry now d j dl).1)
      (due_loop-Agrees now (due_entry now d j dl).0 l k _ (due_entry-Agrees now d j dl k older a))

pub due-Agrees :
    (d : Debouncer) (now k : ℕ) (older : List Bool)
    → Agrees d k older
    → Agrees (due d now).0 k (reports (due d now).1 k older)
unfolding due
due-Agrees d now = due_loop-Agrees now d d.deadline

-- A key with no deadline has been reported as it was last sampled.
abbrev pub IsQuiet : Debouncer → ℕ → Type 0
IsQuiet d k = lookup k d.deadline ≡ none → lookup k d.emitted ≡ lookup k d.pending

-- The key of every entry has been sampled.
abbrev pub Sampled : Assoc ℕ Bool → ℕ → ℕ → Type 0
Sampled pending k dl = (up : Bool) × (lookup k pending ≡ some up)

pub holds→eq : (o : Option Bool) (b : Bool) → holds o b ≡ true → o ≡ some b
holds→eq none b h = cc
holds→eq (some a) b h = ap some ((bool_beq_iff a b).0 h)

pending-due_entry :
    (now : ℕ) (d : Debouncer) (k dl : ℕ) → (due_entry now d k dl).0.pending ≡ d.pending
unfolding due_entry
pending-due_entry now d k dl = ground arith

due_entry-IsQuiet :
    (now : ℕ) (d : Debouncer) (j dl k : ℕ)
    → Sampled d.pending j dl
    → IsQuiet d k
    → IsQuiet (due_entry now d j dl).0 k
unfolding due_entry
due_entry-IsQuiet now d j dl k (up, s) q e = ground (
  arith,
  q,
  lookup-insert j k (or_false (lookup j d.pending)) d.emitted,
  lookup-delete j k d.deadline,
  nat_beq_iff j k,
  holds→eq (lookup j d.emitted) (or_false (lookup j d.pending)),
)

due_loop-IsQuiet :
    (now : ℕ) (d : Debouncer) (l : Assoc ℕ ℕ) (k : ℕ)
    → AllPairs (Sampled d.pending) l
    → IsQuiet d k
    → IsQuiet (due_loop now d l).0 k
unfolding due_loop
due_loop-IsQuiet now d [] k s q = q
due_loop-IsQuiet now d ((j, dl) ∷ l) k s q =
    due_loop-IsQuiet now (due_entry now d j dl).0 l k
      (subst (λ p. AllPairs (Sampled p) l) (sym (pending-due_entry now d j dl)) s.1)
      (due_entry-IsQuiet now d j dl k s.0 q)

pub due-IsQuiet :
    (d : Debouncer) (now k : ℕ)
    → AllPairs (Sampled d.pending) d.deadline
    → IsQuiet d k
    → IsQuiet (due d now).0 k
unfolding due
due-IsQuiet d now k s q = due_loop-IsQuiet now d d.deadline k s q

-- What is known of an edge: its sample, and the deadline that has expired.
abbrev pub FromEntry : Assoc ℕ Bool → (ℕ → ℕ → Type 0) → ℕ → Edge → Type 0
FromEntry pending P now e =
    (lookup e.key pending ≡ some e.up) × ((dl : ℕ) × P e.key dl × (dl ≤ now))

due_entry-edges :
    (P : ℕ → ℕ → Type 0) (now : ℕ) (d : Debouncer) (k dl : ℕ)
    → Sampled d.pending k dl
    → P k dl
    → All (FromEntry d.pending P now) (due_entry now d k dl).1
unfolding due_entry
due_entry-edges P now d k dl (up, s) p = elim (Bool-cases (ltb now dl)) [
  | inl early ↦ rw early tt
  | inr late ↦ elim (Bool-cases (holds (lookup k d.emitted) (or_false (lookup k d.pending)))) [
    | inl same ↦ rw (late, same) tt
    | inr fresh ↦ rw (late, fresh) ((rw s, (dl, p, ground arith)), tt)
  ]
]

due_loop-edges :
    (P : ℕ → ℕ → Type 0) (now : ℕ) (d : Debouncer) (l : Assoc ℕ ℕ)
    → AllPairs (Sampled d.pending) l
    → AllPairs P l
    → All (FromEntry d.pending P now) (due_loop now d l).1
unfolding due_loop
due_loop-edges P now d [] s a = tt
due_loop-edges P now d ((k, dl) ∷ l) s a =
    All-append (FromEntry d.pending P now) (due_entry now d k dl).1 _ head (
      subst (λ p. All (FromEntry p P now) (due_loop now (due_entry now d k dl).0 l).1)
        (pending-due_entry now d k dl)
        (due_loop-edges P now (due_entry now d k dl).0 l
          (subst (λ p. AllPairs (Sampled p) l) (sym (pending-due_entry now d k dl)) s.1) a.1))
  where
    head : All (FromEntry d.pending P now) (due_entry now d k dl).1
    head = due_entry-edges P now d k dl s.0 a.0

pub due-edges :
    (P : ℕ → ℕ → Type 0) (d : Debouncer) (now : ℕ)
    → AllPairs (Sampled d.pending) d.deadline
    → AllPairs P d.deadline
    → All (FromEntry d.pending P now) (due d now).1
unfolding due
due-edges P d now s a = due_loop-edges P now d d.deadline s a
