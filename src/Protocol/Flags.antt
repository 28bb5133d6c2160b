-- ===== src/Protocol/Flags.antt =====
-- The protocol with its data forgotten: of a topology, whether it looks alive and whether it names the
-- peer on the link.
use meshnet_cni.Prelude.{ℕ, suc, ◌<◌, ◌≡◌, ◌⊎◌, Bool, true, false, not}
use meshnet_cni.Protocol.{
  Stage, starting, alive, saw_dead, asking, waiting, checking, making, linking, skipped_peer,
  made_it, found_it, left_it, initiates,
}

pub record Flags : Type 0 where
  pub is_up : Bool
  pub skips : Bool
  pub stage : Stage

-- The steps of `Move`, on the flags.
pub data FlagMove (higher : Bool) (me peer : Flags) (made : ℕ) (me' : Flags) (made' : ℕ)
    : Type 0 where
  sets_alive :
      me.stage ≡ starting
      → me' ≡ record me { is_up = true; stage = alive }
      → made' ≡ made
      → FlagMove higher me peer made me' made'
  sees_dead :
      me.stage ≡ alive
      → peer.is_up ≡ false
      → me' ≡ record me { stage = saw_dead }
      → made' ≡ made
      → FlagMove higher me peer made me' made'
  skips_peer :
      me.stage ≡ saw_dead
      → me' ≡ record me { skips = true; stage = skipped_peer }
      → made' ≡ made
      → FlagMove higher me peer made me' made'
  sees_alive :
      me.stage ≡ alive
      → peer.is_up ≡ true
      → me' ≡ record me { stage = asking }
      → made' ≡ made
      → FlagMove higher me peer made me' made'
  takes_on :
      me.stage ≡ asking
      → initiates peer.skips higher ≡ true
      → me' ≡ record me { stage = checking }
      → made' ≡ made
      → FlagMove higher me peer made me' made'
  holds_back :
      me.stage ≡ asking
      → initiates peer.skips higher ≡ false
      → me' ≡ record me { stage = waiting }
      → made' ≡ made
      → FlagMove higher me peer made me' made'
  wakes :
      me.stage ≡ waiting
      → peer.skips ≡ true
      → me' ≡ record me { stage = checking }
      → made' ≡ made
      → FlagMove higher me peer made me' made'
  finds :
      (me.stage ≡ waiting) ⊎ (me.stage ≡ checking)
      → 0 < made
      → me' ≡ record me { stage = found_it }
      → made' ≡ made
      → FlagMove higher me peer made me' made'
  gives_up :
      me.stage ≡ waiting
      → me' ≡ record me { stage = left_it }
      → made' ≡ made
      → FlagMove higher me peer made me' made'
  goes_on :
      me.stage ≡ checking
      → made ≡ 0
      → me' ≡ record me { stage = making }
      → made' ≡ made
      → FlagMove higher me peer made me' made'
  makes :
      me.stage ≡ making
      → me' ≡ record me { stage = linking }
      → made' ≡ suc made
      → FlagMove higher me peer made me' made'
  completes :
      me.stage ≡ linking
      → me' ≡ record me { stage = made_it }
      → made' ≡ made
      → FlagMove higher me peer made me' made'

pub record FlagPair : Type 0 where
  pub left : Flags
  pub right : Flags
  pub made : ℕ

-- `higher` says that the left pod has the higher name.
pub data FlagStep (higher : Bool) (s t : FlagPair) : Type 0 where
  moves_left :
      FlagMove higher s.left s.right s.made t.left t.made → t.right ≡ s.right → FlagStep higher s t
  moves_right :
      FlagMove (not higher) s.right s.left s.made t.right t.made
      → t.left ≡ s.left
      → FlagStep higher s t

pub data FlagReach (higher : Bool) (s : FlagPair) : FlagPair → Type 0 where
  here : FlagReach higher s s
  next : {t u : FlagPair} → FlagReach higher s t → FlagStep higher t u → FlagReach higher s u

abbrev pub at_start : Flags
at_start = record { is_up = false; skips = false; stage = starting }

abbrev pub both_start : FlagPair
both_start = record { left = at_start; right = at_start; made = 0 }
