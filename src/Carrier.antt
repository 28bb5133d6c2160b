-- ===== src/Carrier.antt =====
-- internal/carrierprop/carrierprop.go: the debouncer of carrier transitions and the echo table.
-- Keys are int64 (their 64-bit patterns), times are nanoseconds since the daemon's start.
pub mod History
pub mod Debounce
pub mod Watch
pub mod Reading
pub mod Echo
mod Examples
use meshnet_cni.Prelude.{
  ℕ, ◌+◌, ◌*◌, ◌≡◌, Bool, true, false, ◌&&◌, Option, none, some, List, [], ◌∷◌, ◌++◌, ltb, ◌==◌,
  if◌then◌else◌, nat_eq, bool_eq,
}
use meshnet_cni.Prelude.Assoc.{Assoc, lookup, insert, delete}

-- const Debounce = 300 * time.Millisecond
abbrev pub debounce_ns : ℕ
debounce_ns = 300 * 1000000

pub record Edge : Type 0 where
  pub key : ℕ
  pub up : Bool

pub record Debouncer : Type 0 where
  pub debounce : ℕ
  pub pending : Assoc ℕ Bool
  pub deadline : Assoc ℕ ℕ
  pub emitted : Assoc ℕ Bool

unfoldable pub new_debouncer : ℕ → Debouncer
new_debouncer d = record { debounce = d; pending = []; deadline = []; emitted = [] }

-- prev, ok := m[k]; ok && prev == b
abbrev pub holds : Option Bool → Bool → Bool
holds none b = false
holds (some prev) b = prev == b

-- The zero value of a missing entry.
abbrev pub or_false : Option Bool → Bool
or_false none = false
or_false (some b) = b

unfoldable pub observe : Debouncer → ℕ → Bool → ℕ → Debouncer
observe d key up now = if holds (lookup key d.pending) up then d else record d {
  pending = insert key up d.pending;
  deadline = insert key (now + d.debounce) d.deadline;
}

-- The body of the loop of `Due`, for one entry of `d.deadline`.
unfoldable pub due_entry : ℕ → Debouncer → ℕ → ℕ → Debouncer × List Edge
due_entry now d k dl =
    let d' = record d { deadline = delete k d.deadline } in
    let up = or_false (lookup k d.pending) in
    if ltb now dl
    then (d, [])
    else if holds (lookup k d.emitted) up
    then (d', [])
    else (record d' { emitted = insert k up d.emitted }, record { key = k; up = up } ∷ [])

unfoldable pub due_loop : ℕ → Debouncer → Assoc ℕ ℕ → Debouncer × List Edge
due_loop now d [] = (d, [])
due_loop now d ((k, dl) ∷ rest) =
    let (d1, es) = due_entry now d k dl in let (d2, es') = due_loop now d1 rest in (d2, es ++ es')

unfoldable pub due : Debouncer → ℕ → Debouncer × List Edge
due d now = due_loop now d d.deadline

-- The table `echoExpect`.
unfoldable pub suppress_echo : ℕ → Bool → Assoc ℕ Bool → Assoc ℕ Bool
suppress_echo key up t = insert key up t

unfoldable pub consume_echo : ℕ → Bool → Assoc ℕ Bool → Bool × Assoc ℕ Bool
consume_echo key up t = if holds (lookup key t) up then (true, delete key t) else (false, t)
