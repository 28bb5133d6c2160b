-- ===== src/Taint.antt =====
-- daemon/meshnet/taint.go: the gate that holds the readiness taint of a node until the CNI
-- configuration is in place and the daemon serves, and the removal of the taint. What a round of
-- the gate sees, and what the API server answers, are arguments.
pub mod Gate
pub mod Removal
mod Examples
use meshnet_cni.Prelude.{
  ℕ, zero, suc, ◌+◌, ◌*◌, Bool, true, false, ◌&&◌, not, String, Option, none, some, List, [], ◌∷◌,
  ltb, ◌==◌, string_eq, if◌then◌else◌,
}
use meshnet_cni.DataStore.{ApiError, Answer}
use meshnet_cni.DataStore.Attempts.{RetryOnConflict}

abbrev pub second : ℕ
second = 1000000000

abbrev pub default_readiness_taint_key : String
default_readiness_taint_key = "meshnet.networkop.co.uk/agent-not-ready"

abbrev pub taint_removal_retries : ℕ
taint_removal_retries = 12

abbrev pub readiness_poll_interval : ℕ
readiness_poll_interval = 2 * second

abbrev pub readiness_poll_timeout : ℕ
readiness_poll_timeout = 5 * 60 * second

-- os.FileInfo
pub record FileInfo : Type 0 where
  pub is_dir : Bool
  pub size : ℕ

unfoldable pub conflist_present : Option FileInfo → Bool
conflist_present none = false
conflist_present (some info) = not info.is_dir && ltb 0 info.size

unfoldable pub readiness_taint_key : String → String
readiness_taint_key env = if env == "" then default_readiness_taint_key else env

-- os.Hostname gives an empty name with its error.
unfoldable pub local_node_name : String → String → String
local_node_name env host = if env == "" then host else env

-- What one round of the gate sees: the file, whether a dial succeeds, the time of the test of the
-- deadline, and whether the context ends before the next round.
pub record Round : Type 0 where
  pub file : Option FileInfo
  pub dial : Bool
  pub now : ℕ
  pub cancelled : Bool

abbrev pub is_ready : Round → Bool
is_ready r = conflist_present r.file && r.dial

-- The loop of waitForCNIReady from round `i`; `none` if the fuel ends.
unfoldable pub wait_loop : (ℕ → Round) → ℕ → ℕ → ℕ → Option Bool
wait_loop env deadline zero i = none
wait_loop env deadline (suc fuel) i =
    let rest = wait_loop env deadline fuel (suc i) in
    if is_ready (env i)
    then some true
    else if ltb deadline (env i).now
    then some false
    else if (env i).cancelled
    then some false
    else rest

-- The rounds that fit into the timeout, the one that finds it elapsed, and the first.
abbrev pub wait_fuel : ℕ
wait_fuel = 152

unfoldable pub wait_for_cni_ready : (ℕ → Round) → ℕ → Option Bool
unfolding wait_loop
wait_for_cni_ready env t0 = wait_loop env (t0 + readiness_poll_timeout) wait_fuel 0

-- k8s.io/api/core/v1.Taint, as far as it is told apart here.
pub record Taint : Type 0 where
  pub key : String
  pub value : String
  pub effect : String

unfoldable pub filter_taint : List Taint → String → List Taint × Bool
filter_taint [] key = ([], false)
filter_taint (t ∷ l) key =
    let (out, removed) = filter_taint l key in
    if t.key == key then (out, true) else (t ∷ out, removed)

-- What reading the node gave.
pub data NodeRead : Type 0 where
  get_failed : ApiError → NodeRead
  node : List Taint → NodeRead

-- The body that removeNodeTaint hands to RetryOnConflict: the taints that it has sent, if any.
unfoldable pub remove_attempt : String → NodeRead → Answer → Option (List Taint) × Answer
remove_attempt key (get_failed e) answer = (none, some e)
remove_attempt key (node taints) answer = elim (filter_taint taints key).1 [
  | false ↦ (none, none)
  | true ↦ (some (filter_taint taints key).0, answer)
]

unfoldable pub remove_node_taint :
    RetryOnConflict → String → (ℕ → NodeRead) → (ℕ → Answer) → Option (List Taint) × Answer
unfolding remove_attempt
remove_node_taint r key reads answers =
    let i = r.last (λ i. (remove_attempt key (reads i) (answers i)).1) in
    remove_attempt key (reads i) (answers i)

-- How RemoveReadinessTaint ends, and at which attempt.
pub data Outcome : Type 0 where
  no_node_name : Outcome
  cleared cancelled_after : ℕ → Outcome
  gave_up : Outcome

-- The loop from attempt `i`, with what removeNodeTaint returns at an attempt, and whether the
-- context ends after it.
unfoldable pub removal_loop : (ℕ → Answer) → (ℕ → Bool) → ℕ → ℕ → Outcome
removal_loop answers done zero i = gave_up
removal_loop answers done (suc left) i = elim (answers i) [
  | none ↦ cleared i
  | some e ↦ elim (done i) [
    | true ↦ cancelled_after i
    | false ↦ removal_loop answers done left (suc i)
  ]
]

unfoldable pub remove_readiness_taint : String → (ℕ → Answer) → (ℕ → Bool) → Outcome
unfolding removal_loop
remove_readiness_taint node_name answers done =
    if node_name == "" then no_node_name else removal_loop answers done taint_removal_retries 1

-- RemoveReadinessTaintWhenReady; `some none` if the taint is left in place.
unfoldable pub remove_when_ready :
    (ℕ → Round) → ℕ → String → (ℕ → Answer) → (ℕ → Bool) → Option (Option Outcome)
unfolding wait_for_cni_ready remove_readiness_taint
remove_when_ready env t0 node_name answers done = elim (wait_for_cni_ready env t0) [
  | none ↦ none
  | some false ↦ some none
  | some true ↦ some (some (remove_readiness_taint node_name answers done))
]
