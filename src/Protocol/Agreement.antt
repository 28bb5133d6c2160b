-- ===== src/Protocol/Agreement.antt =====
-- Two pods of two nodes that come up in any order, with CreatGRPCChan of plugin/grpcwires-plugin.go.
use meshnet_cni.Prelude.{
  if◌then◌else◌, ℕ, ◌≤◌, ◌≡◌, ◌≢◌, refl, sym, ◌∙◌, subst, Bool, true, false, String,
}
use mathlib.Core.Path.{ap₂}
use meshnet_cni.Topology.{is_skipped}
use meshnet_cni.Protocol.{starting, Side, Pair, Step, Reach, looks_alive}
use meshnet_cni.Protocol
use meshnet_cni.Protocol.Names.{higher_prio}
use meshnet_cni.Protocol.Flags.{FlagStep, FlagReach, at_start, both_start}
use meshnet_cni.Protocol.Once.{is_end, has_raced, flags_once, flags_made}
use meshnet_cni.Protocol.Refines.{
  IsRunning, flags_of, flags_of_pair, SamePods, pods_stay, one_move_refines,
}

-- A pod that is not alive in its topology, whose list does not name the peer on the link.
pub record IsFresh (valid : String → Bool) (uid : ℕ) (peer : String) (s : Side) : Type 0 where
  pub running : IsRunning valid s.pod
  pub stage : s.stage ≡ starting
  pub down : looks_alive valid s.topology ≡ false
  pub clean : is_skipped peer uid s.topology ≡ false

pub record AreFresh (valid : String → Bool) (uid : ℕ) (s : Pair) : Type 0 where
  pub left : IsFresh valid uid s.right.name s.left
  pub right : IsFresh valid uid s.left.name s.right
  pub names : s.left.name ≢ s.right.name
  pub none_made : s.made ≡ 0

flags_fresh :
    (valid : String → Bool) (uid : ℕ) (peer : String) (s : Side)
    → IsFresh valid uid peer s
    → flags_of valid uid peer s ≡ at_start
flags_fresh valid uid peer s f = simp (f.down, f.clean, f.stage)

pair_fresh :
    (valid : String → Bool) (uid : ℕ) (s : Pair)
    → AreFresh valid uid s
    → flags_of_pair valid uid s ≡ both_start
pair_fresh valid uid s f = simp (
  flags_fresh valid uid s.right.name s.left f.left,
  flags_fresh valid uid s.left.name s.right f.right,
  f.none_made,
)

reach_keeps : (valid : String → Bool) (uid : ℕ) {s t : Pair} → Reach valid uid s t → SamePods s t
reach_keeps valid uid Protocol.here = record {
  left_name = refl;
  right_name = refl;
  left_pod = refl;
  right_pod = refl;
}
reach_keeps valid uid (Protocol.next r st) =
    let before = reach_keeps valid uid r in
    let now = pods_stay valid uid _ _ st in
    record {
      left_name = now.left_name ∙ before.left_name;
      right_name = now.right_name ∙ before.right_name;
      left_pod = now.left_pod ∙ before.left_pod;
      right_pod = now.right_pod ∙ before.right_pod;
    }

next_refines :
    (valid : String → Bool) (uid : ℕ) (s t u : Pair)
    → AreFresh valid uid s
    → SamePods s t
    → Step valid uid t u
    → FlagStep
        (higher_prio s.left.name s.right.name)
        (flags_of_pair valid uid t)
        (flags_of_pair valid uid u)
next_refines valid uid s t u f same st =
    subst (λ h. FlagStep h (flags_of_pair valid uid t) (flags_of_pair valid uid u))
      (ap₂ higher_prio same.left_name same.right_name)
      (one_move_refines valid uid t u (rw same.left_pod f.left.running)
        (rw same.right_pod f.right.running) (rw (same.left_name, same.right_name) f.names) st)

-- What two fresh pods do to their topology objects is what the protocol of flags allows.
pub reach_refines :
    (valid : String → Bool) (uid : ℕ) {s t : Pair}
    → AreFresh valid uid s
    → Reach valid uid s t
    → FlagReach (higher_prio s.left.name s.right.name) both_start (flags_of_pair valid uid t)
reach_refines valid uid f Protocol.here =
    subst (FlagReach _ both_start) (sym (pair_fresh valid uid _ f)) FlagReach.here
reach_refines valid uid f (Protocol.next r st) =
    FlagReach.next (reach_refines valid uid f r)
      (next_refines valid uid _ _ _ f (reach_keeps valid uid r) st)

-- Once the ADDs of two fresh pods have ended, in whatever order their requests came, the link was made
-- exactly once; but where one pod had given up its wait and the other had only skipped it, it was never
-- made. Pods of two nodes, with gRPC links, requests that succeed, and no pod that goes down.
pub link_is_made :
    (valid : String → Bool) (uid : ℕ) (s t : Pair)
    → AreFresh valid uid s
    → Reach valid uid s t
    → is_end t.left.stage ≡ true
    → is_end t.right.stage ≡ true
    → t.made ≡ (if has_raced t.left.stage t.right.stage then 0 else 1)
link_is_made valid uid s t f r l e = flags_made (reach_refines valid uid f r) l e

-- In no state that two fresh pods reach, ended or not, was the remote end of the link asked for twice.
-- Pods of two nodes, with gRPC links, requests that succeed, and no pod that goes down.
pub made_at_most_once :
    (valid : String → Bool) (uid : ℕ) (s t : Pair)
    → AreFresh valid uid s
    → Reach valid uid s t
    → t.made ≤ 1
made_at_most_once valid uid s t f r = flags_once (reach_refines valid uid f r)
