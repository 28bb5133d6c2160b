-- ===== src/Taint/Gate.antt =====
-- The readiness gate of daemon/meshnet/taint.go ends, and opens only when the node is ready.
use meshnet_cni.Prelude.{
  TicksBy, now_lower, ℕ, zero, suc, ◌+◌, ◌≤◌, ◌<◌, ◌≡◌, refl, sym, ◌⊎◌, inl, inr, Bool, true, false,
  subst, Bool-cases, Option-cases, String, Option, none, some, arith, ltb, if◌then◌else◌,
}
use mathlib.Core.Option.{some-injective}
use native.Mathlib.Decide.{ℕ_discrete}
use meshnet_cni.DataStore.{Answer}
use meshnet_cni.Taint.{
  readiness_poll_interval, readiness_poll_timeout, Round, is_ready, conflist_present, wait_loop,
  wait_fuel, wait_for_cni_ready, Outcome, remove_readiness_taint, remove_when_ready,
}

-- A clock that does not stand still while the gate sleeps.
abbrev pub Ticks : ℕ → (ℕ → Round) → Type 0
Ticks t0 env = TicksBy readiness_poll_interval t0 (λ i. (env i).now)

abbrev Decided : Option Bool → Type 0
Decided o = (b : Bool) × (o ≡ some b)

round_decides :
    (a b c : Bool) (rest : Option Bool)
    → (b ≡ true) ⊎ Decided rest
    → Decided (if a then some true else if b then some false else if c then some false else rest)
round_decides true b c rest h = (true, refl)
round_decides false true c rest h = (false, refl)
round_decides false false true rest h = (false, refl)
round_decides false false false rest (inl h) = cc
round_decides false false false rest (inr h) = h

-- From round `i` with `fuel` rounds left the loop decides, if the clock has passed the deadline in
-- the last of them.
loop_decides :
    (env : ℕ → Round) (deadline fuel i : ℕ)
    → deadline < (env (i + fuel)).now
    → Decided (wait_loop env deadline (suc fuel) i)
unfolding wait_loop
loop_decides env deadline zero i late =
    let at_i : i + 0 ≡ i = omega arith in
    round_decides (is_ready (env i)) (ltb deadline (env i).now) (env i).cancelled none
      (inl (let late' : deadline < (env i).now = rw at_i at late in ground arith))
loop_decides env deadline (suc fuel) i late =
    let next : i + suc fuel ≡ suc i + fuel = omega arith in
    round_decides (is_ready (env i)) (ltb deadline (env i).now) (env i).cancelled
      (wait_loop env deadline (suc fuel) (suc i))
      (inr (loop_decides env deadline fuel (suc i) (rw next at late)))

-- If the clock starts no earlier than the call and moves on by the poll interval between rounds, the
-- gate decides, whatever it sees, within the rounds that it is given here.
pub gate_decides :
    (env : ℕ → Round) (t0 : ℕ) → Ticks t0 env → (b : Bool) × (wait_for_cni_ready env t0 ≡ some b)
unfolding wait_for_cni_ready
gate_decides env t0 h =
    loop_decides env (t0 + readiness_poll_timeout) 151 0
      (omega (arith, now_lower readiness_poll_interval t0 (λ i. (env i).now) h 151))

-- A round in which the configuration was a regular file that is not empty and the daemon served,
-- after rounds none of which was past the deadline or cancelled.
abbrev pub Opened : (ℕ → Round) → ℕ → ℕ → ℕ → Type 0
Opened env deadline i k =
    (i ≤ k)
    × (conflist_present (env k).file ≡ true)
    × ((env k).dial ≡ true)
    × ((j : ℕ) → i ≤ j → j < k → ((env j).now ≤ deadline) × ((env j).cancelled ≡ false))

round_passes :
    (a b c : Bool) (rest : Option Bool)
    → (if a then some true else if b then some false else if c then some false else rest)
      ≡ some true
    → a ≡ false
    → (b ≡ false) × (c ≡ false) × (rest ≡ some true)
round_passes a b c rest e h = ground arith

within : (a b : ℕ) → ltb a b ≡ false → b ≤ a
within a b h = ground arith

loop_opens :
    (env : ℕ → Round) (deadline fuel i : ℕ)
    → wait_loop env deadline fuel i ≡ some true
    → (k : ℕ) × Opened env deadline i k
unfolding wait_loop
loop_opens env deadline zero i e = cc
loop_opens env deadline (suc fuel) i e = elim (Bool-cases (is_ready (env i))) [
  | inl ready ↦ (i, (omega arith, ground arith, ground arith, λ j le lt. absurd (omega arith)))
  | inr unready ↦
      let (early, going, rest) =
        round_passes (is_ready (env i)) (ltb deadline (env i).now) (env i).cancelled
          (wait_loop env deadline fuel (suc i)) e unready in
      let (k, (le, present, serving, before)) = loop_opens env deadline fuel (suc i) rest in
      (
        k,
        (
          omega (arith, le),
          present,
          serving,
          λ j from lt. elim (ℕ_discrete i j) [
            | yes same ↦
                subst (λ n. ((env n).now ≤ deadline) × ((env n).cancelled ≡ false)) same
                  (within deadline (env i).now early, going)
            | no other ↦ before j (omega arith) lt
          ],
        ),
      )
]

gate_opens :
    (env : ℕ → Round) (t0 : ℕ)
    → wait_for_cni_ready env t0 ≡ some true
    → (k : ℕ) × Opened env (t0 + readiness_poll_timeout) 0 k
unfolding wait_for_cni_ready
gate_opens env t0 e = loop_opens env (t0 + readiness_poll_timeout) wait_fuel 0 e

-- An attempt to remove the taint is made only if, in some round, the configuration file was a
-- regular file that is not empty and the daemon served on its port, and no earlier round was past the
-- timeout or cancelled; otherwise the taint is left in place.
pub removal_needs_ready :
    (env : ℕ → Round) (t0 : ℕ) (node_name : String) (answers : ℕ → Answer) (done : ℕ → Bool)
    (outcome : Outcome)
    → remove_when_ready env t0 node_name answers done ≡ some (some outcome)
    → (outcome ≡ remove_readiness_taint node_name answers done)
      × ((k : ℕ) × Opened env (t0 + readiness_poll_timeout) 0 k)
unfolding remove_when_ready
removal_needs_ready env t0 node_name answers done outcome e =
    elim (Option-cases (wait_for_cni_ready env t0)) [
      | inl stuck ↦ cc
      | inr (true, opened) ↦
          (let e' = rw (opened, remove_when_ready) at e in
            (sym (some-injective _ _ (some-injective _ _ e')), gate_opens env t0 opened))
      | inr (false, shut) ↦ (let e' = rw (shut, remove_when_ready) at e in cc)
    ]
