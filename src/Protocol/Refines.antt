-- ===== src/Protocol/Refines.antt =====
-- The protocol over topology objects refines the protocol of flags.
use meshnet_cni.Prelude.{
  ℕ, ◌≡◌, ◌≢◌, refl, sym, ap, ◌∙◌, Bool, true, false, String, arith, ◌==◌, string_eq, ==_refl,
  nat_eq,
}
use mathlib.Core.Path.{ap₂}
use meshnet_cni.Topology.{Topology, Pod, surfaced_ip, set_alive, skip, is_skipped}
use meshnet_cni.Topology.Skips.{is_skipped-skip}
use meshnet_cni.Protocol.{Stage, starting, Side, Move, Pair, Step, Reach, looks_alive}
use meshnet_cni.Protocol
use meshnet_cni.Protocol.Names.{higher_prio, higher_prio_total}
use meshnet_cni.Protocol.Flags.{Flags, FlagMove, FlagPair, FlagStep}

-- What is left of a pod, for a peer of the name `peer`.
abbrev pub flags_of : (String → Bool) → ℕ → String → Side → Flags
flags_of valid uid peer s = record {
  is_up = looks_alive valid s.topology;
  skips = is_skipped peer uid s.topology;
  stage = s.stage;
}

abbrev pub flags_of_pair : (String → Bool) → ℕ → Pair → FlagPair
flags_of_pair valid uid s = record {
  left = flags_of valid uid s.right.name s.left;
  right = flags_of valid uid s.left.name s.right;
  made = s.made;
}

-- The daemon takes the pod's address for that of a node, and the pod has a network namespace.
abbrev pub IsRunning : (String → Bool) → Pod → Type 0
IsRunning valid p =
    (valid p.src_ip ≡ true) × ((p.src_ip == "") ≡ false) × ((p.net_ns == "") ≡ false)

looks_alive-set_alive :
    (valid : String → Bool) (p : Pod) (t : Topology)
    → IsRunning valid p
    → looks_alive valid (set_alive p t) ≡ true
unfolding looks_alive surfaced_ip set_alive
looks_alive-set_alive valid p t (v, ip, ns) = ground arith

set_alive-skips :
    (p : Pod) (t : Topology) (n : String) (uid : ℕ)
    → is_skipped n uid (set_alive p t) ≡ is_skipped n uid t
unfolding is_skipped set_alive
set_alive-skips p t n uid = refl

skip-looks_alive :
    (valid : String → Bool) (n : String) (uid : ℕ) (t : Topology)
    → looks_alive valid (skip n uid t) ≡ looks_alive valid t
unfolding looks_alive skip
skip-looks_alive valid n uid t = refl

skipped_after_skip : (n : String) (uid : ℕ) (t : Topology) → is_skipped n uid (skip n uid t) ≡ true
skipped_after_skip n uid t = rw (is_skipped-skip n n uid uid t, ==_refl n, ==_refl uid) refl

flags_set_alive :
    (valid : String → Bool) (uid : ℕ) (n : String) (me : Side)
    → IsRunning valid me.pod
    → flags_of valid uid n
        (record me { topology = set_alive me.pod me.topology; stage = Protocol.alive })
      ≡ record (flags_of valid uid n me) { is_up = true; stage = Protocol.alive }
flags_set_alive valid uid n me up =
    rw (looks_alive-set_alive valid me.pod me.topology up, set_alive-skips me.pod me.topology n uid)
      refl

flags_skip :
    (valid : String → Bool) (uid : ℕ) (n : String) (me : Side)
    → flags_of valid uid n
        (record me { topology = skip n uid me.topology; stage = Protocol.skipped_peer })
      ≡ record (flags_of valid uid n me) { skips = true; stage = Protocol.skipped_peer }
flags_skip valid uid n me =
    rw (skip-looks_alive valid n uid me.topology, skipped_after_skip n uid me.topology) refl

-- Each step of a pod is a step of its flags.
Move-refines :
    (valid : String → Bool) (uid : ℕ) (higher : Bool) (me peer : Side) (made : ℕ) (me' : Side)
    (made' : ℕ)
    → IsRunning valid me.pod
    → Move valid uid higher me peer made me' made'
    → FlagMove higher
        (flags_of valid uid peer.name me)
        (flags_of valid uid me.name peer)
        made
        (flags_of valid uid peer.name me')
        made'
Move-refines valid uid higher me peer made me' made' up (Protocol.sets_alive e u m) =
    FlagMove.sets_alive e
      (ap (flags_of valid uid peer.name) u ∙ flags_set_alive valid uid peer.name me up) m
Move-refines valid uid higher me peer made me' made' up (Protocol.skips_peer e u m) =
    FlagMove.skips_peer e (ap (flags_of valid uid peer.name) u ∙ flags_skip valid uid peer.name me)
      m
Move-refines valid uid higher me peer made me' made' up (Protocol.sees_dead e f u m) =
    FlagMove.sees_dead e f (ap (flags_of valid uid peer.name) u) m
Move-refines valid uid higher me peer made me' made' up (Protocol.sees_alive e f u m) =
    FlagMove.sees_alive e f (ap (flags_of valid uid peer.name) u) m
Move-refines valid uid higher me peer made me' made' up (Protocol.takes_on e f u m) =
    FlagMove.takes_on e f (ap (flags_of valid uid peer.name) u) m
Move-refines valid uid higher me peer made me' made' up (Protocol.holds_back e f u m) =
    FlagMove.holds_back e f (ap (flags_of valid uid peer.name) u) m
Move-refines valid uid higher me peer made me' made' up (Protocol.wakes e f u m) =
    FlagMove.wakes e f (ap (flags_of valid uid peer.name) u) m
Move-refines valid uid higher me peer made me' made' up (Protocol.finds e f u m) =
    FlagMove.finds e f (ap (flags_of valid uid peer.name) u) m
Move-refines valid uid higher me peer made me' made' up (Protocol.gives_up e u m) =
    FlagMove.gives_up e (ap (flags_of valid uid peer.name) u) m
Move-refines valid uid higher me peer made me' made' up (Protocol.goes_on e f u m) =
    FlagMove.goes_on e f (ap (flags_of valid uid peer.name) u) m
Move-refines valid uid higher me peer made me' made' up (Protocol.makes e u m) =
    FlagMove.makes e (ap (flags_of valid uid peer.name) u) m
Move-refines valid uid higher me peer made me' made' up (Protocol.completes e u m) =
    FlagMove.completes e (ap (flags_of valid uid peer.name) u) m

-- No step renames a pod or changes what it is to be set alive with.
Move-keeps_pod :
    (valid : String → Bool) (uid : ℕ) (higher : Bool) (me peer : Side) (made : ℕ) (me' : Side)
    (made' : ℕ)
    → Move valid uid higher me peer made me' made'
    → (me'.name ≡ me.name) × (me'.pod ≡ me.pod)
Move-keeps_pod valid uid higher me peer made me' made' (Protocol.sets_alive e u m) =
    (ap Side.name u, ap Side.pod u)
Move-keeps_pod valid uid higher me peer made me' made' (Protocol.sees_dead e f u m) =
    (ap Side.name u, ap Side.pod u)
Move-keeps_pod valid uid higher me peer made me' made' (Protocol.skips_peer e u m) =
    (ap Side.name u, ap Side.pod u)
Move-keeps_pod valid uid higher me peer made me' made' (Protocol.sees_alive e f u m) =
    (ap Side.name u, ap Side.pod u)
Move-keeps_pod valid uid higher me peer made me' made' (Protocol.takes_on e f u m) =
    (ap Side.name u, ap Side.pod u)
Move-keeps_pod valid uid higher me peer made me' made' (Protocol.holds_back e f u m) =
    (ap Side.name u, ap Side.pod u)
Move-keeps_pod valid uid higher me peer made me' made' (Protocol.wakes e f u m) =
    (ap Side.name u, ap Side.pod u)
Move-keeps_pod valid uid higher me peer made me' made' (Protocol.finds e f u m) =
    (ap Side.name u, ap Side.pod u)
Move-keeps_pod valid uid higher me peer made me' made' (Protocol.gives_up e u m) =
    (ap Side.name u, ap Side.pod u)
Move-keeps_pod valid uid higher me peer made me' made' (Protocol.goes_on e f u m) =
    (ap Side.name u, ap Side.pod u)
Move-keeps_pod valid uid higher me peer made me' made' (Protocol.makes e u m) =
    (ap Side.name u, ap Side.pod u)
Move-keeps_pod valid uid higher me peer made me' made' (Protocol.completes e u m) =
    (ap Side.name u, ap Side.pod u)

-- The names and pods of two states are the same.
pub record SamePods (s t : Pair) : Type 0 where
  pub left_name : t.left.name ≡ s.left.name
  pub right_name : t.right.name ≡ s.right.name
  pub left_pod : t.left.pod ≡ s.left.pod
  pub right_pod : t.right.pod ≡ s.right.pod

pub pods_stay : (valid : String → Bool) (uid : ℕ) (s t : Pair) → Step valid uid s t → SamePods s t
pods_stay valid uid s t (Protocol.moves_left m same) =
    let (name, pod) = Move-keeps_pod valid uid _ s.left s.right s.made t.left t.made m in
    record {
      left_name = name;
      right_name = ap Side.name same;
      left_pod = pod;
      right_pod = ap Side.pod same;
    }
pods_stay valid uid s t (Protocol.moves_right m same) =
    let (name, pod) = Move-keeps_pod valid uid _ s.right s.left s.made t.right t.made m in
    record {
      left_name = ap Side.name same;
      right_name = name;
      left_pod = ap Side.pod same;
      right_pod = pod;
    }

-- A step of the topology objects is a step of the flags.
pub one_move_refines :
    (valid : String → Bool) (uid : ℕ) (s t : Pair)
    → IsRunning valid s.left.pod
    → IsRunning valid s.right.pod
    → s.left.name ≢ s.right.name
    → Step valid uid s t
    → FlagStep
        (higher_prio s.left.name s.right.name)
        (flags_of_pair valid uid s)
        (flags_of_pair valid uid t)
one_move_refines valid uid s t l r ne (Protocol.moves_left m same) =
    let name : t.left.name ≡ s.left.name =
      (Move-keeps_pod valid uid _ s.left s.right s.made t.left t.made m).0 in
    FlagStep.moves_left
      (rw (ap Side.name same) (Move-refines valid uid _ s.left s.right s.made t.left t.made l m))
      (ap₂ (flags_of valid uid) name same)
one_move_refines valid uid s t l r ne (Protocol.moves_right m same) =
    let name : t.right.name ≡ s.right.name =
      (Move-keeps_pod valid uid _ s.right s.left s.made t.right t.made m).0 in
    FlagStep.moves_right
      (rw (ap Side.name same, sym (higher_prio_total s.left.name s.right.name ne))
        (Move-refines valid uid _ s.right s.left s.made t.right t.made r m))
      (ap₂ (flags_of valid uid) name same)
