-- ===== src/Carrier/Examples.antt =====
-- The carrier theorems at concrete histories.
use meshnet_cni.Prelude.{
  ℕ, ◌+◌, ◌≤◌, ◌≡◌, refl, true, false, some, List, [], ◌∷◌, arith, All, nat_eq,
}
use meshnet_cni.Prelude.Assoc.{lookup, insert}
use meshnet_cni.Carrier.{due, due_loop, due_entry, observe, new_debouncer}
use meshnet_cni.Carrier.History.{Call, observes, dues, run, last_sample, stable_since, reported}
use meshnet_cni.Carrier.Debounce.{
  head?, Alternates, reported-Alternates, due_is_stable, due_reports_settled,
}

-- Interface 7 goes up at time 0, flaps at 100 and 200, and is sampled again at 300.
abbrev flaps : List Call
flaps = observes 7 true 300 ∷ observes 7 true 200 ∷ observes 7 false 100 ∷ observes 7 true 0 ∷ []

abbrev steady : List Call
steady = dues 550 ∷ observes 7 false 500 ∷ dues 500 ∷ flaps

flap_reports_once : reported 300 7 (dues 600 ∷ steady) ≡ true ∷ []
unfolding reported due due_loop run observe lookup new_debouncer insert due_entry
flap_reports_once = refl

due_is_stable_example :
    All
      (λ e.
        (last_sample e.key flaps ≡ some e.up)
        × ((t : ℕ) × (stable_since e.key flaps ≡ some t) × (t + 300 ≤ 500)))
      (due (run 300 flaps) 500).1
due_is_stable_example = due_is_stable 300 500 flaps

due_reports_settled_example : head? (reported 300 7 (dues 500 ∷ flaps)) ≡ some true
unfolding last_sample stable_since
due_reports_settled_example = due_reports_settled 300 7 500 flaps true 200 refl refl (omega arith)

reported-Alternates_example : Alternates (reported 300 7 (dues 600 ∷ steady))
reported-Alternates_example = reported-Alternates 300 7 (dues 600 ∷ steady)
