-- ===== src/Prelude/Clock.antt =====
-- A clock that is read once in each round of a loop.
use Prim.Native.Nat.{ℕ, zero, suc, ◌+◌, ◌*◌, ◌≤◌}
use native.Mathlib.Omega.{arith}

-- The clock starts no earlier than `t0` and moves on by the step between rounds.
abbrev pub TicksBy : (step t0 : ℕ) → (ℕ → ℕ) → Type 0
TicksBy step t0 now = (t0 ≤ now 0) × ((i : ℕ) → now i + step ≤ now (suc i))

pub now_lower : (step t0 : ℕ) (now : ℕ → ℕ) → TicksBy step t0 now → (i : ℕ) → t0 + i * step ≤ now i
now_lower step t0 now h zero = omega (arith, h.0)
now_lower step t0 now h (suc i) = omega (arith, now_lower step t0 now h i, h.1 i)
