-- ===== src/Topology/Updates.antt =====
-- The handlers of daemon/meshnet/handler.go that write, of any number of daemons and pods at once:
-- SetAlive, Skip, and the two halves of SkipReverse, each under RetryOnConflict. The API server, of
-- which this is an interface, keeps an object with its resource version, and takes an update only of
-- the version that it has. A schedule says whose turn it is to ask the server.
pub mod Server
pub mod Replay
mod Known
pub mod Exactly
pub mod Seen
mod Examples
use meshnet_cni.Prelude.{
  ℕ, suc, ◌+◌, Bool, true, false, String, Option, none, some, List, [], ◌∷◌, ◌==◌, nat_eq,
  if◌then◌else◌,
}
use meshnet_cni.Topology.{Topology, Pod, set_alive, skip, skip_reverse_peer, skip_reverse_own}
use meshnet_cni.Topology.Updates.Server.{Key, Api, stored, conflict, failed, lost}

-- A call under RetryOnConflict, with the arguments of its handler. SkipReverse makes two, one after
-- the other.
pub data Call : Type 0 where
  alive : Pod → Call
  skips reverses_peer reverses_own : (ns pod peer : String) (link : ℕ) → Call

-- The object that the call reads and writes.
unfoldable pub target_of : Call → Key
target_of (alive p) = (p.kube_ns, p.name)
target_of (skips ns pod peer link) = (ns, pod)
target_of (reverses_peer ns pod peer link) = (ns, peer)
target_of (reverses_own ns pod peer link) = (ns, pod)

-- What an attempt sends for what it has read; none if it returns without an update.
unfoldable pub change : Call → Topology → Option Topology
unfolding set_alive skip skip_reverse_peer skip_reverse_own
change (alive p) t = some (set_alive p t)
change (skips ns pod peer link) t = some (skip peer link t)
change (reverses_peer ns pod peer link) t = skip_reverse_peer pod link t
change (reverses_own ns pod peer link) t = some (skip_reverse_own peer link t)

-- Where a call is: before the reading or the update of an attempt, or at its end. It has written,
-- had nothing to write, got an error, or got an error for an update that was made.
pub data Phase : Type 0 where
  reads : (attempt : ℕ) → Phase
  writes : (attempt : ℕ) (object : Topology) (version : ℕ) → Phase
  written unneeded refused unsure : Phase

-- Whose turn it is, and whether a reading is answered.
pub record Turn : Type 0 where
  pub call : ℕ
  pub answered : Bool

module _ (api : Api) (again : ℕ → Bool) (calls : ℕ → Call) where
  open api use {Objects, get, put}

  -- The objects, the calls, and the calls whose updates were made, the last one first.
  pub record System : Type 0 where
    pub objects : Objects
    pub phase : ℕ → Phase
    pub log : List ℕ

  -- No call has begun.
  unfoldable pub begin : Objects → System
  begin s = record { objects = s; phase = λ k. reads 0; log = [] }

  -- The phase of a call is set.
  unfoldable pub enter : ℕ → Phase → System → System
  enter k p s = record s { phase = λ j. if k == j then p else s.phase j }

  -- What is sent for an object and its version.
  unfoldable pub prepare : ℕ → ℕ → Option (Topology × ℕ) → Phase
  unfolding change
  prepare k i none = refused
  prepare k i (some (t, v)) = elim (change (calls k) t) [ none ↦ unneeded | some u ↦ writes i u v ]

  -- After an update: `again` says whether RetryOnConflict makes another attempt after a conflict.
  unfoldable pub conclude : ℕ → ℕ → Server.Answer × Objects → System → System
  unfolding enter
  conclude k i (stored, o) s = enter k written (record s { objects = o; log = k ∷ s.log })
  conclude k i (lost, o) s = enter k unsure (record s { objects = o; log = k ∷ s.log })
  conclude k i (failed, o) s = enter k refused (record s { objects = o })
  conclude k i (conflict, o) s =
      enter k (if again i then reads (suc i) else refused) (record s { objects = o })

  -- The next step of a call in a phase.
  unfoldable pub advance : ℕ → Bool → Phase → System → System
  unfolding enter prepare conclude target_of
  advance k true (reads i) s = enter k (prepare k i (get (target_of (calls k)) s.objects)) s
  advance k false (reads i) s = enter k refused s
  advance k b (writes i t v) s = conclude k i (put (target_of (calls k)) t v s.objects) s
  advance k b written s = s
  advance k b unneeded s = s
  advance k b refused s = s
  advance k b unsure s = s

  unfoldable pub run : List Turn → System → System
  unfolding advance
  run [] s = s
  run (e ∷ es) s = run es (advance e.call e.answered (s.phase e.call) s)

-- What RetryOnConflict gives to the handler: no error.
abbrev pub is_ok : Phase → Bool
is_ok (reads i) = false
is_ok (writes i t v) = false
is_ok written = true
is_ok unneeded = true
is_ok refused = false
is_ok unsure = false
