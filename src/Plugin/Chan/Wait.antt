-- ===== src/Plugin/Chan/Wait.antt =====
-- The wait of CreatGRPCChan of plugin/grpcwires-plugin.go for the peer, which has the higher name.
use meshnet_cni.Prelude.{
  ℕ, zero, suc, ◌+◌, ◌<◌, ◌≡◌, refl, ◌⊎◌, inl, inr, Bool, true, false, ltb, nat_eq, nat_beq,
  nat_beq_iff, arith,
}
use meshnet_cni.Plugin.{Rpc, answered, refused, Code}
use meshnet_cni.Plugin.Chan.{
  Tick, Waited, peer_made_it, peer_skipped_us, gave_up, failed, waits, not_skipped, after_tick,
  wait_loop, wait_for_turn,
}

-- A tick that finds neither a wire nor a skip.
abbrev pub IsIdle : Tick → Type 0
IsIdle t = (t.exists ≡ answered false) × (t.is_skipped ≡ answered false)

-- How a tick that is not idle ends the wait: the existence of a wire is looked at first.
pub data Ended (t : Tick) : Waited → Type 0 where
  made : t.exists ≡ answered true → Ended t peer_made_it
  skipped : t.exists ≡ answered false → t.is_skipped ≡ answered true → Ended t peer_skipped_us
  no_wire_reply : (c : Code) → t.exists ≡ refused c → Ended t failed
  no_skip_reply : (c : Code) → t.exists ≡ answered false → t.is_skipped ≡ refused c → Ended t failed

-- A wait from iteration `i`, after which `n` iterations are left: idle ticks, and then the tick that
-- ends it, or the last one.
pub data Outcome (ticks : ℕ → Tick) : (n i : ℕ) → Waited → Type 0 where
  all_idle : (i : ℕ) → IsIdle (ticks i) → Outcome ticks 0 i gave_up
  ends : (n i : ℕ) (w : Waited) → Ended (ticks i) w → Outcome ticks n i w
  idle :
      (n i : ℕ) (w : Waited)
      → IsIdle (ticks i)
      → Outcome ticks n (suc i) w
      → Outcome ticks (suc n) i w

goes_on : (i : ℕ) (rest : Waited) → i < 20 → not_skipped i rest ≡ rest
unfolding not_skipped
goes_on i rest h = ground (arith, nat_beq_iff i 20)

-- The answers of a tick end the wait, or are idle.
tick_decides :
    (t : Tick) (i : ℕ) (rest : Waited) (exists skip : Rpc Bool)
    → t.exists ≡ exists
    → t.is_skipped ≡ skip
    → Ended t (after_tick exists skip i rest)
      ⊎ (IsIdle t × (after_tick exists skip i rest ≡ not_skipped i rest))
unfolding after_tick
tick_decides t i rest (refused c) skip he hs = inl (no_wire_reply c he)
tick_decides t i rest (answered true) skip he hs = inl (made he)
tick_decides t i rest (answered false) (refused c) he hs = inl (no_skip_reply c he hs)
tick_decides t i rest (answered false) (answered true) he hs = inl (skipped he hs)
tick_decides t i rest (answered false) (answered false) he hs = inr ((he, hs), refl)

loop_outcome :
    (ticks : ℕ → Tick) (n i : ℕ) → i + n ≡ 20 → Outcome ticks n i (wait_loop ticks (suc n) i)
unfolding wait_loop not_skipped
loop_outcome ticks zero i h =
    let last : i ≡ 20 = omega (arith, h) in
    elim (tick_decides (ticks i) i waits (ticks i).exists (ticks i).is_skipped refl refl) [
      | inl e ↦ ends 0 i _ e
      | inr (idles, e) ↦ rw (e, last, not_skipped, ltb, nat_beq) (all_idle 20 (rw last at idles))
    ]
loop_outcome ticks (suc n) i h =
    let rest = wait_loop ticks (suc n) (suc i) in
    elim (tick_decides (ticks i) i rest (ticks i).exists (ticks i).is_skipped refl refl) [
      | inl e ↦ ends (suc n) i _ e
      | inr (idles, e) ↦
          rw (wait_loop, e, goes_on i rest (omega (arith, h)))
            (idle n i rest idles (loop_outcome ticks n (suc i) (omega (arith, h))))
    ]

-- The wait of a pod that was not skipped and has the lower name ends within twenty ticks, at the first
-- tick that is not idle: with the peer's wire if there is one, else with the peer's skip, or with the
-- error of either call; and after twenty idle ticks it leaves the wire to the peer. It never runs out
-- of the fuel of twenty ticks.
pub wait_outcome :
    (ticks : ℕ → Tick) → Outcome ticks 19 1 (wait_for_turn (answered false) false ticks)
unfolding wait_for_turn
wait_outcome ticks = loop_outcome ticks 19 1 refl
