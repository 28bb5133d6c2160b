-- ===== src/Wire/Channels/Separate.antt =====
-- Wires with live stop channels, no two of which are the same.
use meshnet_cni.Prelude.{
  ℕ, ◌+◌, ◌<◌, ◌≡◌, refl, ap, subst, ◌∙◌, Bool, true, false, ◌&&◌, String, some, List, [], ◌∷◌,
  arith, ◌==◌, if◌then◌else◌, nat_eq, string_eq, pair_eq, ◌⊎◌, All, Bool-cases, inl, inr,
  nat_beq_iff, ==_iff,
}
use meshnet_cni.Prelude.Assoc.{Assoc, lookup, delete, AllPairs, AllPairs-map, AllPairs-remove}
use meshnet_cni.Wire.{
  Daemon, GrpcWire, LinkKey, key_of, is_closed, stop_if_ready, first_of_pod, of_pod,
}

-- An entry stands under the wire's own key, and the stop channel of a ready wire is open.
pub record Live (closed : List ℕ) (next : ℕ) (k : LinkKey) (w : GrpcWire) : Type 0 where
  pub keyed : k ≡ key_of w
  pub made : w.stop_c < next
  pub is_open : w.is_ready ≡ true → is_closed w.stop_c closed ≡ false

abbrev pub clash : GrpcWire → GrpcWire → Bool
clash w v = w.is_ready && v.is_ready && w.stop_c == v.stop_c

abbrev pub Clear : GrpcWire → LinkKey → GrpcWire → Type 0
Clear w k v = clash w v ≡ false

abbrev pub Apart : Assoc LinkKey GrpcWire → Type 0
Apart [] = Unit {0}
Apart ((k, w) ∷ m) = AllPairs (Clear w) m × Apart m

abbrev pub In : GrpcWire → Assoc LinkKey GrpcWire → Type 0
In w [] = ⊥
In w ((k, v) ∷ m) = (v ≡ w) ⊎ In w m

pub In-lookup :
    (k : LinkKey) (m : Assoc LinkKey GrpcWire) {w : GrpcWire} → lookup k m ≡ some w → In w m
unfolding lookup
In-lookup k [] e = cc
In-lookup k ((j, v) ∷ m) e = elim (Bool-cases (j == k)) [
  | inl same ↦ inl (ground (arith, (rw same at e)))
  | inr other ↦ inr (In-lookup k m (rw other at e))
]

pub In-first :
    (ns pod : String) (m : Assoc LinkKey GrpcWire) {w : GrpcWire}
    → first_of_pod ns pod m ≡ some w
    → In w m
unfolding first_of_pod
In-first ns pod [] e = cc
In-first ns pod ((j, v) ∷ m) e = elim (Bool-cases (of_pod ns pod v)) [
  | inl same ↦ inl (ground (arith, (rw same at e)))
  | inr other ↦ inr (In-first ns pod m (rw other at e))
]

AllPairs-In :
    (P : GrpcWire → Type 0) (m : Assoc LinkKey GrpcWire) {w : GrpcWire}
    → AllPairs (λ k v. P v) m
    → In w m
    → P w
AllPairs-In P [] a h = elim h [ ]
AllPairs-In P ((k, v) ∷ m) a (inl e) = subst P e a.0
AllPairs-In P ((k, v) ∷ m) a (inr h) = AllPairs-In P m a.1 h

pub Apart-delete : (k : LinkKey) (m : Assoc LinkKey GrpcWire) → Apart m → Apart (delete k m)
unfolding delete
Apart-delete k [] a = tt
Apart-delete k ((j, w) ∷ m) a = elim (Bool-cases (j == k)) [
  | inl same ↦ rw same (Apart-delete k m a.1)
  | inr other ↦ rw other (AllPairs-remove (Clear w) k m a.0, Apart-delete k m a.1)
]

clash_comm : (w v : GrpcWire) → clash v w ≡ clash w v
clash_comm w v = ground (arith, nat_beq_iff w.stop_c v.stop_c, nat_beq_iff v.stop_c w.stop_c)

-- A wire of the map shares its channel with no other entry.
pub In-Apart :
    (closed : List ℕ) (n : ℕ) (w : GrpcWire) (m : Assoc LinkKey GrpcWire)
    → In w m
    → AllPairs (Live closed n) m
    → Apart m
    → AllPairs (Clear w) (delete (key_of w) m)
unfolding delete
In-Apart closed n w [] h l a = elim h [ ]
In-Apart closed n w ((k, v) ∷ m) (inl e) l a =
    rw ((==_iff k (key_of w)).1 (l.0.keyed ∙ ap key_of e))
      (AllPairs-remove (Clear w) (key_of w) m (subst (λ x. AllPairs (Clear x) m) e a.0))
In-Apart closed n w ((k, v) ∷ m) (inr h) l a =
    let rest = In-Apart closed n w m h l.1 a.1 in
    elim (Bool-cases (k == key_of w)) [
      | inl same ↦ rw same rest
      | inr other ↦ rw other (clash_comm v w ∙ AllPairs-In (λ x. clash v x ≡ false) m a.0 h, rest)
    ]

pub In-Live :
    (closed : List ℕ) (n : ℕ) (m : Assoc LinkKey GrpcWire) {w : GrpcWire}
    → In w m
    → AllPairs (Live closed n) m
    → Live closed n (key_of w) w
In-Live closed n m h l =
    AllPairs-In (λ v. Live closed n (key_of v) v) m
      (AllPairs-map (Live closed n) (λ k v. Live closed n (key_of v) v) m
        (λ k v x. record { keyed = refl; made = x.made; is_open = x.is_open }) l)
      h

-- The state in which the packet thread of `w` has been told to stop.
abbrev pub stopped : GrpcWire → Daemon → Daemon
stopped w s = record s { closed = if w.is_ready then w.stop_c ∷ s.closed else s.closed }

pub stop_if_ready-eq :
    (w : GrpcWire) (s : Daemon)
    → (w.is_ready ≡ true → is_closed w.stop_c s.closed ≡ false)
    → stop_if_ready w s ≡ some (stopped w s)
unfolding stop_if_ready
stop_if_ready-eq w s h = ground arith

pub stopped-Live :
    (w : GrpcWire) (s : Daemon) (m : Assoc LinkKey GrpcWire)
    → AllPairs (Clear w) m
    → AllPairs (Live s.closed s.next_chan) m
    → AllPairs (Live (stopped w s).closed s.next_chan) m
stopped-Live w s [] c l = tt
stopped-Live w s ((k, v) ∷ m) c l = (
  record {
    keyed = l.0.keyed;
    made = l.0.made;
    is_open = λ r. ground (arith, c.0, l.0.is_open r, nat_beq_iff w.stop_c v.stop_c);
  },
  stopped-Live w s m c.1 l.1,
)

-- A channel that is yet to be made is not closed, and no wire has it.
pub fresh-open : (n : ℕ) (closed : List ℕ) → All (λ c. c < n) closed → is_closed n closed ≡ false
fresh-open n [] h = refl
fresh-open n (c ∷ l) h = ground (arith, h.0, fresh-open n l h.1)

pub fresh-apart :
    (closed : List ℕ) (w : GrpcWire) (m : Assoc LinkKey GrpcWire)
    → AllPairs (Live closed w.stop_c) m
    → AllPairs (Clear w) m
fresh-apart closed w [] l = tt
fresh-apart closed w ((k, v) ∷ m) l = (ground (arith, l.0.made), fresh-apart closed w m l.1)

pub Live-suc :
    (closed : List ℕ) (n : ℕ) (m : Assoc LinkKey GrpcWire)
    → AllPairs (Live closed n) m
    → AllPairs (Live closed (n + 1)) m
Live-suc closed n m =
    AllPairs-map (Live closed n) (Live closed (n + 1)) m
      (λ k v x. record { keyed = x.keyed; made = omega (arith, x.made); is_open = x.is_open })
