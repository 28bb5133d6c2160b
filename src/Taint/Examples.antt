-- ===== src/Taint/Examples.antt =====
-- The readiness gate at concrete rounds, and the removal of a taint from concrete nodes.
use meshnet_cni.Prelude.{
  ℕ, zero, suc, ◌+◌, ◌*◌, ◌≡◌, refl, true, false, none, some, List, [], ◌∷◌, string_eq,
}
use meshnet_cni.DataStore.{Answer, other}
use meshnet_cni.Taint.{
  second, readiness_poll_timeout, readiness_poll_interval, Round, conflist_present,
  wait_for_cni_ready, Taint, filter_taint, cleared, remove_readiness_taint, remove_when_ready,
  readiness_taint_key, local_node_name,
}
use meshnet_cni.Taint.Gate.{Opened, removal_needs_ready}

-- No configuration yet, then one that is empty, then one with the daemon not serving, then both.
abbrev rounds : ℕ → Round
rounds zero = record { file = none; dial = false; now = 1; cancelled = false }
rounds (suc zero) = record {
  file = some (record { is_dir = false; size = 0 });
  dial = true;
  now = 3 * second;
  cancelled = false;
}
rounds (suc (suc zero)) = record {
  file = some (record { is_dir = false; size = 412 });
  dial = false;
  now = 6 * second;
  cancelled = false;
}
rounds (suc (suc (suc n))) = record {
  file = some (record { is_dir = false; size = 412 });
  dial = true;
  now = (9 + 3 * n) * second;
  cancelled = false;
}

-- A node on which nothing ever happens.
abbrev silent : ℕ → Round
silent i = record {
  file = none;
  dial = false;
  now = i * readiness_poll_interval;
  cancelled = false;
}

never_opens : wait_for_cni_ready silent 0 ≡ some false
unfolding wait_for_cni_ready conflist_present
never_opens = refl

-- The second attempt succeeds.
abbrev second_try : ℕ → Answer
second_try (suc (suc zero)) = none
second_try _ = some other

removal_needs_ready_example :
    (cleared 2 ≡ remove_readiness_taint "node-1" second_try (λ i. false))
    × ((k : ℕ) × Opened rounds (0 + readiness_poll_timeout) 0 k)
unfolding remove_when_ready conflist_present
removal_needs_ready_example =
    removal_needs_ready rounds 0 "node-1" second_try (λ i. false) (cleared 2) refl

abbrev taints : List Taint
taints =
    record { key = "gpu"; value = "a100"; effect = "NoSchedule" }
    ∷ record { key = "not-ready"; value = ""; effect = "NoSchedule" }
    ∷ record { key = "not-ready"; value = ""; effect = "NoExecute" }
    ∷ []

filters :
    filter_taint taints "not-ready"
    ≡ (record { key = "gpu"; value = "a100"; effect = "NoSchedule" } ∷ [], true)
unfolding filter_taint
filters = refl

names_default :
    (readiness_taint_key "" ≡ "meshnet.networkop.co.uk/agent-not-ready")
    × (local_node_name "" "host-7" ≡ "host-7")
unfolding readiness_taint_key local_node_name
names_default = (refl, refl)
