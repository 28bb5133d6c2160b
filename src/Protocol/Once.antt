-- ===== src/Protocol/Once.antt =====
-- The invariant of the protocol of flags, and what it says once both pods have ended.
use meshnet_cni.Prelude.{
  Bool-cases, ◌∙◌, if◌then◌else◌, ℕ, ◌+◌, ◌≤◌, ◌<◌, ◌≡◌, refl, sym, ◌⊎◌, inl, inr, Bool, true,
  false, not, ◌&&◌, ◌||◌, arith,
}
use meshnet_cni.Protocol.{
  Stage, starting, alive, saw_dead, waiting, checking, making, linking, skipped_peer, made_it,
  found_it, left_it, initiates,
}
use meshnet_cni.Protocol.Flags.{
  Flags, FlagMove, FlagPair, FlagStep, FlagReach, sets_alive, sees_dead, skips_peer, sees_alive,
  takes_on, holds_back, wakes, finds, gives_up, goes_on, makes, completes, moves_left, moves_right,
  here, next, both_start,
}

abbrev pub has_started : Stage → Bool
has_started starting = false
has_started _ = true

abbrev pub has_skipped : Stage → Bool
has_skipped skipped_peer = true
has_skipped _ = false

-- It has found that the peer was not alive.
abbrev pub is_first : Stage → Bool
is_first saw_dead = true
is_first skipped_peer = true
is_first _ = false

-- It has found that the peer was alive.
abbrev pub is_second : Stage → Bool
is_second starting = false
is_second alive = false
is_second saw_dead = false
is_second skipped_peer = false
is_second _ = true

-- It has taken the link on.
abbrev pub is_maker : Stage → Bool
is_maker checking = true
is_maker making = true
is_maker linking = true
is_maker made_it = true
is_maker _ = false

abbrev pub has_held_back : Stage → Bool
has_held_back waiting = true
has_held_back left_it = true
has_held_back _ = false

abbrev pub has_found : Stage → Bool
has_found found_it = true
has_found _ = false

abbrev pub makings : Stage → ℕ
makings linking = 1
makings made_it = 1
makings _ = 0

-- What holds of one pod and its peer.
pub record Half (higher : Bool) (me peer : Flags) (made : ℕ) : Type 0 where
  pub up : me.is_up ≡ has_started me.stage
  pub skipping : me.skips ≡ has_skipped me.stage
  pub alone : is_first me.stage && is_first peer.stage ≡ false
  pub after : is_second me.stage ≡ true → has_started peer.stage ≡ true
  pub entitled : is_maker me.stage ≡ true → higher || has_skipped peer.stage ≡ true
  pub humble : has_held_back me.stage ≡ true → higher ≡ false
  pub found : has_found me.stage ≡ true → 0 < made

pub record Inv (higher : Bool) (s : FlagPair) : Type 0 where
  pub of_left : Half higher s.left s.right s.made
  pub of_right : Half (not higher) s.right s.left s.made
  pub counted : s.made ≡ makings s.left.stage + makings s.right.stage

Inv-start : (higher : Bool) → Inv higher both_start
Inv-start higher = ground arith

move_keeps :
    (higher : Bool) (me peer : Flags) (made : ℕ) (me' : Flags) (made' : ℕ)
    → FlagMove higher me peer made me' made'
    → Half higher me peer made
    → Half (not higher) peer me made
    → made ≡ makings me.stage + makings peer.stage
    → Half higher me' peer made'
      × Half (not higher) peer me' made'
      × (made' ≡ makings me'.stage + makings peer.stage)
unfolding initiates
move_keeps higher me peer made me' made' (sets_alive e u m) a b c = ground arith
move_keeps higher me peer made me' made' (sees_dead e f u m) a b c = ground arith
move_keeps higher me peer made me' made' (skips_peer e u m) a b c = ground arith
move_keeps higher me peer made me' made' (sees_alive e f u m) a b c = ground arith
move_keeps higher me peer made me' made' (takes_on e f u m) a b c = ground arith
move_keeps higher me peer made me' made' (holds_back e f u m) a b c = ground arith
move_keeps higher me peer made me' made' (wakes e f u m) a b c = ground arith
move_keeps higher me peer made me' made' (finds e f u m) a b c = ground arith
move_keeps higher me peer made me' made' (gives_up e u m) a b c = ground arith
move_keeps higher me peer made me' made' (goes_on e f u m) a b c = ground arith
move_keeps higher me peer made me' made' (makes e u m) a b c = ground arith
move_keeps higher me peer made me' made' (completes e u m) a b c = ground arith

not_involutive : (b : Bool) → not (not b) ≡ b
not_involutive b = ground arith

FlagStep-Inv : {higher : Bool} {s t : FlagPair} → FlagStep higher s t → Inv higher s → Inv higher t
FlagStep-Inv {higher} {s} {t} (moves_left m same) i =
    let (mine, other, count) =
      move_keeps higher s.left s.right s.made t.left t.made m i.of_left i.of_right i.counted in
    record { of_left = rw same mine; of_right = rw same other; counted = rw same count }
FlagStep-Inv {higher} {s} {t} (moves_right m same) i =
    let (mine, other, count) =
      move_keeps (not higher) s.right s.left s.made t.right t.made m i.of_right
        (rw (not_involutive higher) i.of_left) (omega (arith, i.counted)) in
    record {
      of_left = rw (same, sym (not_involutive higher)) other;
      of_right = rw same mine;
      counted = rw same (omega (arith, count));
    }

FlagReach-Inv : {higher : Bool} {s : FlagPair} → FlagReach higher both_start s → Inv higher s
FlagReach-Inv {higher} here = Inv-start higher
FlagReach-Inv (next r st) = FlagStep-Inv st (FlagReach-Inv r)

abbrev pub is_end : Stage → Bool
is_end skipped_peer = true
is_end made_it = true
is_end found_it = true
is_end left_it = true
is_end _ = false

-- One pod gave up, the other has only left word.
abbrev pub has_raced : Stage → Stage → Bool
has_raced skipped_peer left_it = true
has_raced left_it skipped_peer = true
has_raced _ _ = false

makings_cases :
    (x : Stage)
    → (makings x ≡ 0) ⊎ ((makings x ≡ 1) × (is_maker x ≡ true) × (has_skipped x ≡ false))
makings_cases linking = inr (refl, refl, refl)
makings_cases made_it = inr (refl, refl, refl)
makings_cases starting = inl refl
makings_cases _ = inl refl

Inv-once : (higher : Bool) (s : FlagPair) → Inv higher s → s.made ≤ 1
Inv-once higher s i = ground (
  arith,
  makings_cases s.left.stage,
  makings_cases s.right.stage,
  i.of_left.entitled,
  i.of_right.entitled,
  i.counted,
)

-- What the two ends say, if the link was not made.
ends :
    (higher : Bool) (x y : Stage) (made : ℕ)
    → is_end x ≡ true
    → is_end y ≡ true
    → made ≡ makings x + makings y
    → (has_found x ≡ true → 0 < made)
    → (has_found y ≡ true → 0 < made)
    → (is_first x && is_first y) ≡ false
    → (has_held_back x ≡ true → higher ≡ false)
    → (has_held_back y ≡ true → not higher ≡ false)
    → has_raced x y ≡ false
    → 0 < made
ends higher starting y made ex ey c fx fy al hx hy r = cc
ends higher made_it y made ex ey c fx fy al hx hy r = omega arith
ends higher found_it y made ex ey c fx fy al hx hy r = fx refl
ends higher skipped_peer made_it made ex ey c fx fy al hx hy r = omega arith
ends higher skipped_peer found_it made ex ey c fx fy al hx hy r = fy refl
ends higher skipped_peer y made ex ey c fx fy al hx hy r = cc
ends higher left_it made_it made ex ey c fx fy al hx hy r = omega arith
ends higher left_it found_it made ex ey c fx fy al hx hy r = fy refl
ends higher left_it left_it made ex ey c fx fy al hx hy r = ground (arith, hx refl, hy refl)
ends higher left_it y made ex ey c fx fy al hx hy r = cc
ends higher x y made ex ey c fx fy al hx hy r = cc

-- In a reachable state the link was made once at most.
pub flags_once : {higher : Bool} {s : FlagPair} → FlagReach higher both_start s → s.made ≤ 1
flags_once {higher} {s} r = Inv-once higher s (FlagReach-Inv r)

raced_none : (x y : Stage) → has_raced x y ≡ true → makings x + makings y ≡ 0
raced_none skipped_peer left_it e = refl
raced_none left_it skipped_peer e = refl
raced_none skipped_peer y e = ground arith
raced_none left_it y e = ground arith
raced_none x y e = cc

-- Once both pods have ended it was made, but where one gave up and the other had only left word.
pub flags_made :
    {higher : Bool} {s : FlagPair}
    → FlagReach higher both_start s
    → is_end s.left.stage ≡ true
    → is_end s.right.stage ≡ true
    → s.made ≡ (if has_raced s.left.stage s.right.stage then 0 else 1)
flags_made {higher} {s} r l e =
    let i = FlagReach-Inv r in
    elim (Bool-cases (has_raced s.left.stage s.right.stage)) [
      | inl raced ↦ rw raced (i.counted ∙ raced_none s.left.stage s.right.stage raced)
      | inr held ↦
          let some_made =
            ends higher s.left.stage s.right.stage s.made l e i.counted i.of_left.found
              i.of_right.found i.of_left.alone i.of_left.humble i.of_right.humble held in
          rw held (omega (arith, flags_once r, some_made))
    ]
