-- ===== src/Carrier/History.antt =====
-- The debouncer against the history of its calls, newest first.
use meshnet_cni.Prelude.{ℕ, Bool, Option, none, some, List, [], ◌∷◌, ◌==◌, if◌then◌else◌, nat_eq}
use meshnet_cni.Carrier.{Debouncer, Edge, new_debouncer, observe, due, holds}

pub data Call : Type 0 where
  observes : ℕ → Bool → ℕ → Call
  dues : ℕ → Call

unfoldable pub step : Debouncer → Call → Debouncer
step d (observes key up now) = observe d key up now
step d (dues now) = (due d now).0

unfoldable pub run : ℕ → List Call → Debouncer
unfolding step
run debounce [] = new_debouncer debounce
run debounce (c ∷ h) = step (run debounce h) c

-- What the newest sample of `k` said.
unfoldable pub last_sample : ℕ → List Call → Option Bool
last_sample k [] = none
last_sample k (observes j up now ∷ h) = if j == k then some up else last_sample k h
last_sample k (dues now ∷ h) = last_sample k h

-- When the newest unbroken run of equal samples of `k` began.
unfoldable pub stable_since : ℕ → List Call → Option ℕ
unfolding last_sample
stable_since k [] = none
stable_since k (observes j up now ∷ h) =
    let before = stable_since k h in
    if j == k then (if holds (last_sample k h) up then before else some now) else before
stable_since k (dues now ∷ h) = stable_since k h

-- The edges that were reported for `k`, newest first.
unfoldable pub reports : List Edge → ℕ → List Bool → List Bool
reports [] k older = older
reports (e ∷ es) k older = reports es k (if e.key == k then e.up ∷ older else older)

unfoldable pub reported : ℕ → ℕ → List Call → List Bool
unfolding reports
reported debounce k [] = []
reported debounce k (observes j up now ∷ h) = reported debounce k h
reported debounce k (dues now ∷ h) = reports (due (run debounce h) now).1 k (reported debounce k h)
