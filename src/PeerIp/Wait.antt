-- ===== src/PeerIp/Wait.antt =====
-- waitForValidPeerNodeIP of daemon/grpcwire/peerip.go. The cache is shared with the other threads: it
-- is the one that a history of calls leaves, and their calls come in between. The list of rounds is
-- as long as the wait has gone on.
use meshnet_cni.Prelude.{
  ℕ, ◌≤◌, ◌≡◌, ◌≢◌, refl, ◌⊎◌, inl, inr, Bool, true, String, Option, List, [], ◌∷◌, ◌++◌, ◌==◌,
  string_eq, any, if◌then◌else◌, All, Bool-cases,
}
use meshnet_cni.PeerIp.{
  Address, Call, Verdict, accepted, refresh_failed, unknown, validate_peer_node_ip, after,
}
use meshnet_cni.PeerIp.Freshness.{StoredIn, accepted_is_recent}

-- A round: the times and the nodes that the call of validatePeerNodeIP meets, the calls of other
-- threads during the pause, the newest first, and whether the wire was stopped by its end.
pub record Retry : Type 0 where
  pub now : ℕ
  pub nodes : Option (List (List Address))
  pub stored_at : ℕ
  pub others : List Call
  pub stopped : Bool

pub data PeerWait : Type 0 where
  valid stopped waiting : PeerWait

unfoldable pub call_of : String → Retry → Call
call_of ip r = record { ip = ip; now = r.now; nodes = r.nodes; stored_at = r.stored_at }

unfoldable pub wait_for_valid_peer_node_ip : String → List Retry → List Call → PeerWait × List Call
unfolding call_of
wait_for_valid_peer_node_ip ip [] cs = (waiting, cs)
wait_for_valid_peer_node_ip ip (r ∷ rs) cs =
    let c = call_of ip r in
    let cs' = c ∷ cs in
    let rest = wait_for_valid_peer_node_ip ip rs (r.others ++ cs') in
    elim (validate_peer_node_ip c (after cs)).0 [
      | accepted ↦ (valid, cs')
      | refresh_failed ↦ if r.stopped then (stopped, cs') else rest
      | unknown ↦ if r.stopped then (stopped, cs') else rest
    ]

-- The last call of the history is one for this address, and what it was told is no older than the
-- lifetime of the cache: the address is in a list of nodes that a call of the history has stored.
abbrev pub Recent : String → List Call → Type 0
Recent ip [] = ⊥
Recent ip (c ∷ cs) =
    (c.ip ≡ ip)
    × ((l : List String) × (e : ℕ) × StoredIn (c ∷ cs) l e
        × (c.now ≤ e)
        × (any (λ x. x == ip) l ≡ true))

-- What a round does, by what the address is told.
abbrev of_round :
    Verdict → Retry → PeerWait × List Call → PeerWait × List Call → PeerWait × List Call
of_round accepted r here rest = here
of_round refresh_failed r here rest = if r.stopped then (stopped, here.1) else rest
of_round unknown r here rest = if r.stopped then (stopped, here.1) else rest

round :
    (ip : String) (r : Retry) (rs : List Retry) (cs : List Call) (v : Verdict)
    → (validate_peer_node_ip (call_of ip r) (after cs)).0 ≡ v
    → wait_for_valid_peer_node_ip ip (r ∷ rs) cs
      ≡ of_round v r
          (valid, call_of ip r ∷ cs)
          (wait_for_valid_peer_node_ip ip rs (r.others ++ call_of ip r ∷ cs))
unfolding wait_for_valid_peer_node_ip
round ip r rs cs accepted e = rw (e, wait_for_valid_peer_node_ip) refl
round ip r rs cs refresh_failed e = rw (e, wait_for_valid_peer_node_ip) refl
round ip r rs cs unknown e = rw (e, wait_for_valid_peer_node_ip) refl

-- The wait ended validly only with an address that is recent, and stopped only if a round was.
abbrev Told : String → PeerWait × List Call → Type 0
Told ip (valid, cs) = Recent ip cs
Told ip (stopped, cs) = Unit
Told ip (waiting, cs) = Unit

of_round-Told :
    (ip : String) (v : Verdict) (r : Retry) (cs : List Call) (rest : PeerWait × List Call)
    → (v ≡ accepted → Recent ip cs)
    → Told ip rest
    → Told ip (of_round v r (valid, cs) rest)
of_round-Told ip accepted r cs rest h k = h refl
of_round-Told ip refresh_failed r cs rest h k = elim (Bool-cases r.stopped) [
  | inl stop ↦ rw stop tt
  | inr on ↦ rw on k
]
of_round-Told ip unknown r cs rest h k = elim (Bool-cases r.stopped) [
  | inl stop ↦ rw stop tt
  | inr on ↦ rw on k
]

wait-Told :
    (ip : String) (rs : List Retry) (cs : List Call)
    → All (λ (r : Retry). r.now ≤ r.stored_at) rs
    → Told ip (wait_for_valid_peer_node_ip ip rs cs)
unfolding wait_for_valid_peer_node_ip call_of
wait-Told ip [] cs h = tt
wait-Told ip (r ∷ rs) cs h = rw (round ip r rs cs _ refl) (
    of_round-Told ip (validate_peer_node_ip (call_of ip r) (after cs)).0 r (call_of ip r ∷ cs)
      (wait_for_valid_peer_node_ip ip rs (r.others ++ call_of ip r ∷ cs))
      (λ ok. (refl, accepted_is_recent cs (call_of ip r) h.0 ok))
      (wait-Told ip rs (r.others ++ call_of ip r ∷ cs) h.1))

-- Told, of an outcome by its parts.
pub wait-Recent :
    (ip : String) (rs : List Retry) (cs : List Call)
    → All (λ (r : Retry). r.now ≤ r.stored_at) rs
    → (wait_for_valid_peer_node_ip ip rs cs).0 ≡ valid
    → Recent ip (wait_for_valid_peer_node_ip ip rs cs).1
wait-Recent ip rs cs h e = of_told (wait_for_valid_peer_node_ip ip rs cs) (wait-Told ip rs cs h) e
  where
    of_told : (r : PeerWait × List Call) → Told ip r → r.0 ≡ valid → Recent ip r.1
    of_told (valid, cs') t e' = t
    of_told (stopped, cs') t e' = cc
    of_told (waiting, cs') t e' = cc

stop_ends :
    (v : Verdict) (r : Retry) (cs : List Call) (rest : PeerWait × List Call)
    → (r.stopped ≡ true) ⊎ (rest.0 ≢ waiting)
    → (of_round v r (valid, cs) rest).0 ≢ waiting
stop_ends accepted r cs rest h = λ e. cc
stop_ends refresh_failed r cs rest (inl stop) = rw stop (λ e. cc)
stop_ends refresh_failed r cs rest (inr later) = elim (Bool-cases r.stopped) [
  | inl stop ↦ rw stop (λ e. cc)
  | inr on ↦ rw on later
]
stop_ends unknown r cs rest (inl stop) = rw stop (λ e. cc)
stop_ends unknown r cs rest (inr later) = elim (Bool-cases r.stopped) [
  | inl stop ↦ rw stop (λ e. cc)
  | inr on ↦ rw on later
]

-- The wait is over by the end of a round in which the wire was stopped.
pub stopped_wait_ends :
    (ip : String) (rs : List Retry) (cs : List Call)
    → any (λ (r : Retry). r.stopped) rs ≡ true
    → (wait_for_valid_peer_node_ip ip rs cs).0 ≢ waiting
unfolding wait_for_valid_peer_node_ip
stopped_wait_ends ip [] cs h = cc
stopped_wait_ends ip (r ∷ rs) cs h = rw (round ip r rs cs _ refl) (
    stop_ends (validate_peer_node_ip (call_of ip r) (after cs)).0 r (call_of ip r ∷ cs)
      (wait_for_valid_peer_node_ip ip rs (r.others ++ call_of ip r ∷ cs))
      (elim (Bool-cases r.stopped) [
        | inl stop ↦ inl stop
        | inr on ↦ inr (stopped_wait_ends ip rs (r.others ++ call_of ip r ∷ cs) (rw on at h))
      ]))
