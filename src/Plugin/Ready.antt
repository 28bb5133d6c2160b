-- ===== src/Plugin/Ready.antt =====
-- What cmdAdd of plugin/meshnet.go does before it looks at the links: getLocalPodWithRetry and
-- getVxlanSource.
use meshnet_cni.Prelude.{
  TicksBy, now_lower, ℕ, zero, suc, ◌+◌, ◌*◌, ◌<◌, ◌≡◌, refl, ◌⊎◌, inl, inr, Bool, true, false,
  ◌&&◌, not, String, Option, none, some, List, [], ◌∷◌, ltb, ◌==◌, string_eq, if◌then◌else◌, arith,
}
use meshnet_cni.Topology.{Pod}
use meshnet_cni.Plugin.{Rpc, answered, refused, not_found, other}

abbrev pub local_daemon_ready_timeout : ℕ
local_daemon_ready_timeout = 60 * 1000000000

abbrev pub local_daemon_retry_interval : ℕ
local_daemon_retry_interval = 2 * 1000000000

-- One attempt: what Get returns, the time of the test of the deadline, and whether the context ends
-- before the next attempt.
pub record Attempt : Type 0 where
  pub reply : Rpc Pod
  pub now : ℕ
  pub cancelled : Bool

pub data LocalPod : Type 0 where
  found : Pod → LocalPod
  no_topology : LocalPod
  not_ready : LocalPod
  interrupted : LocalPod

-- What follows an attempt: `late` says that the deadline has passed.
abbrev pub after_attempt : Rpc Pod → (late cancelled : Bool) → Option LocalPod → Option LocalPod
after_attempt (answered pod) late cancelled rest = some (found pod)
after_attempt (refused not_found) late cancelled rest = some no_topology
after_attempt (refused other) late cancelled rest =
    if late then some not_ready else if cancelled then some interrupted else rest

-- The loop from attempt `i`; `none` if the fuel ends.
unfoldable pub retry_loop : (ℕ → Attempt) → ℕ → ℕ → ℕ → Option LocalPod
retry_loop env deadline zero i = none
retry_loop env deadline (suc fuel) i =
    let rest = retry_loop env deadline fuel (suc i) in
    after_attempt (env i).reply (ltb deadline (env i).now) (env i).cancelled rest

-- The attempts that fit into the timeout, the one that finds it elapsed, and the first.
unfoldable pub get_local_pod_with_retry : (ℕ → Attempt) → ℕ → Option LocalPod
unfolding retry_loop
get_local_pod_with_retry env t0 = retry_loop env (t0 + local_daemon_ready_timeout) 32 0

abbrev Decided : Option LocalPod → Type 0
Decided o = (r : LocalPod) × (o ≡ some r)

attempt_decides :
    (reply : Rpc Pod) (late cancelled : Bool) (rest : Option LocalPod)
    → (late ≡ true) ⊎ Decided rest
    → Decided (after_attempt reply late cancelled rest)
attempt_decides (answered pod) late cancelled rest h = (found pod, refl)
attempt_decides (refused not_found) late cancelled rest h = (no_topology, refl)
attempt_decides (refused other) true cancelled rest h = (not_ready, refl)
attempt_decides (refused other) false true rest h = (interrupted, refl)
attempt_decides (refused other) false false rest (inl h) = cc
attempt_decides (refused other) false false rest (inr h) = h

-- A clock that moves on by the retry interval between attempts.
abbrev pub Ticks : ℕ → (ℕ → Attempt) → Type 0
Ticks t0 env = TicksBy local_daemon_retry_interval t0 (λ i. (env i).now)

loop_decides :
    (env : ℕ → Attempt) (deadline fuel i : ℕ)
    → deadline < (env (i + fuel)).now
    → Decided (retry_loop env deadline (suc fuel) i)
unfolding retry_loop
loop_decides env deadline zero i late =
    let at_i : i + 0 ≡ i = omega arith in
    let late' : deadline < (env i).now = rw at_i at late in
    attempt_decides (env i).reply (ltb deadline (env i).now) (env i).cancelled none
      (inl (ground arith))
loop_decides env deadline (suc fuel) i late =
    let later : i + suc fuel ≡ suc i + fuel = omega arith in
    attempt_decides (env i).reply (ltb deadline (env i).now) (env i).cancelled _
      (inr (loop_decides env deadline fuel (suc i) (rw later at late)))

-- The plugin gets an answer about its pod, or gives up, within 32 attempts, whatever the daemon does.
pub retry_ends :
    (env : ℕ → Attempt) (t0 : ℕ)
    → Ticks t0 env
    → (r : LocalPod) × (get_local_pod_with_retry env t0 ≡ some r)
unfolding get_local_pod_with_retry
retry_ends env t0 h =
    loop_decides env (t0 + local_daemon_ready_timeout) 31 0
      (omega (arith, now_lower local_daemon_retry_interval t0 (λ i. (env i).now) h 31))

-- An interface of the node with its addresses, an address as its canonical text.
abbrev pub Interface : Type 0
Interface = String × List String

-- The loop over the addresses of one interface.
unfoldable pub source_of :
    String → Option String → String → String → List String → Option (String × String)
source_of node_ip n_ip node_intf name [] = none
source_of node_ip n_ip node_intf name (a ∷ l) =
    let rest = source_of node_ip n_ip node_intf name l in
    if not (node_intf == "") && name == node_intf
    then some (a, node_intf)
    else elim n_ip [ none ↦ rest | some ip ↦ if ip == a then some (node_ip, name) else rest ]

-- The loop over the interfaces.
unfoldable pub source_among :
    String → Option String → String → List Interface → Option (String × String)
unfolding source_of
source_among node_ip n_ip node_intf [] = none
source_among node_ip n_ip node_intf ((name, addrs) ∷ l) =
    elim (source_of node_ip n_ip node_intf name addrs) [
      | none ↦ source_among node_ip n_ip node_intf l
      | some s ↦ some s
    ]

abbrev pub is_none : Option String → Bool
is_none none = true
is_none (some s) = false

-- getVxlanSource; `parse_ip` is net.ParseIP.
unfoldable pub get_vxlan_source :
    (String → Option String) → List Interface → String → String → Option (String × String)
unfolding source_among
get_vxlan_source parse_ip ifaces node_ip node_intf =
    if node_intf == "" && node_ip == ""
    then none
    else if is_none (parse_ip node_ip) && node_intf == ""
    then none
    else source_among node_ip (parse_ip node_ip) node_intf ifaces
