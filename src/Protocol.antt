-- ===== src/Protocol.antt =====
-- How two pods on two nodes agree on who makes the gRPC wire between them: cmdAdd of plugin/meshnet.go
-- up to CreatGRPCChan, and CreatGRPCChan of plugin/grpcwires-plugin.go, against the topology objects
-- that the daemons keep (daemon/meshnet/handler.go). One link, two pods that come up at any time, every
-- interleaving of their requests; every request succeeds, no pod goes down meanwhile, and no end of the
-- link is left over from before. Pods of one host read two interfaces in two calls and may remove what
-- they find; they are not part of this.
pub mod Names
pub mod Flags
pub mod Once
pub mod Refines
pub mod Agreement
mod Examples
use meshnet_cni.Prelude.{
  ℕ, suc, ◌<◌, ◌≡◌, ◌⊎◌, Bool, true, false, ◌&&◌, ◌||◌, not, String, ◌==◌, string_eq, if◌then◌else◌,
}
use meshnet_cni.Protocol.Names.{higher_prio}
use meshnet_cni.Topology.{Topology, Pod, surfaced_ip, set_alive, skip, is_skipped}

-- Where a pod's ADD stands with the link.
pub data Stage : Type 0 where
  starting : Stage  -- before SetAlive
  alive : Stage  -- before Get of the peer
  saw_dead : Stage  -- before Skip
  asking : Stage  -- before IsSkipped
  waiting : Stage  -- in the loop of CreatGRPCChan
  checking : Stage  -- before the GRPCWireExists that follows the loop
  making : Stage  -- before AddGRPCWireRemote
  linking : Stage  -- before AddGRPCWireLocal
  skipped_peer : Stage  -- the ends
  made_it : Stage
  found_it : Stage
  left_it : Stage

-- `isSkipped.Response || higherPrio`
unfoldable pub initiates : Bool → Bool → Bool
initiates skipped higher = skipped || higher

-- `peerPod.SrcIp != "" && peerPod.NetNs != ""`, on what Get shows of the peer's object.
unfoldable pub looks_alive : (String → Bool) → Topology → Bool
unfolding surfaced_ip
looks_alive valid t = not (surfaced_ip valid t.src_ip == "") && not (t.net_ns == "")

pub record Side : Type 0 where
  pub name : String
  pub pod : Pod
  pub topology : Topology
  pub stage : Stage

-- One step of the ADD of the pod `me`, which gives `me'`; `made` counts the calls of AddGRPCWireRemote,
-- each of which gives the peer's daemon the wire. `higher` is the comparison of the names. A pod that
-- waits may give up at any time, where the code does so after twenty ticks.
pub data Move (valid : String → Bool) (uid : ℕ) (higher : Bool) (me peer : Side) (made : ℕ)
    (me' : Side) (made' : ℕ) : Type 0 where
  sets_alive :
      me.stage ≡ starting
      → me' ≡ record me { topology = set_alive me.pod me.topology; stage = alive }
      → made' ≡ made
      → Move valid uid higher me peer made me' made'
  sees_dead :
      me.stage ≡ alive
      → looks_alive valid peer.topology ≡ false
      → me' ≡ record me { stage = saw_dead }
      → made' ≡ made
      → Move valid uid higher me peer made me' made'
  skips_peer :
      me.stage ≡ saw_dead
      → me' ≡ record me { topology = skip peer.name uid me.topology; stage = skipped_peer }
      → made' ≡ made
      → Move valid uid higher me peer made me' made'
  sees_alive :
      me.stage ≡ alive
      → looks_alive valid peer.topology ≡ true
      → me' ≡ record me { stage = asking }
      → made' ≡ made
      → Move valid uid higher me peer made me' made'
  takes_on :
      me.stage ≡ asking
      → initiates (is_skipped me.name uid peer.topology) higher ≡ true
      → me' ≡ record me { stage = checking }
      → made' ≡ made
      → Move valid uid higher me peer made me' made'
  holds_back :
      me.stage ≡ asking
      → initiates (is_skipped me.name uid peer.topology) higher ≡ false
      → me' ≡ record me { stage = waiting }
      → made' ≡ made
      → Move valid uid higher me peer made me' made'
  wakes :
      me.stage ≡ waiting
      → is_skipped me.name uid peer.topology ≡ true
      → me' ≡ record me { stage = checking }
      → made' ≡ made
      → Move valid uid higher me peer made me' made'
  finds :
      (me.stage ≡ waiting) ⊎ (me.stage ≡ checking)
      → 0 < made
      → me' ≡ record me { stage = found_it }
      → made' ≡ made
      → Move valid uid higher me peer made me' made'
  gives_up :
      me.stage ≡ waiting
      → me' ≡ record me { stage = left_it }
      → made' ≡ made
      → Move valid uid higher me peer made me' made'
  goes_on :
      me.stage ≡ checking
      → made ≡ 0
      → me' ≡ record me { stage = making }
      → made' ≡ made
      → Move valid uid higher me peer made me' made'
  makes :
      me.stage ≡ making
      → me' ≡ record me { stage = linking }
      → made' ≡ suc made
      → Move valid uid higher me peer made me' made'
  completes :
      me.stage ≡ linking
      → me' ≡ record me { stage = made_it }
      → made' ≡ made
      → Move valid uid higher me peer made me' made'

-- The two pods, and how often the link's remote end was asked for.
pub record Pair : Type 0 where
  pub left : Side
  pub right : Side
  pub made : ℕ

pub data Step (valid : String → Bool) (uid : ℕ) (s t : Pair) : Type 0 where
  moves_left :
      Move valid uid (higher_prio s.left.name s.right.name) s.left s.right s.made t.left t.made
      → t.right ≡ s.right
      → Step valid uid s t
  moves_right :
      Move valid uid (higher_prio s.right.name s.left.name) s.right s.left s.made t.right t.made
      → t.left ≡ s.left
      → Step valid uid s t

pub data Reach (valid : String → Bool) (uid : ℕ) (s : Pair) : Pair → Type 0 where
  here : Reach valid uid s s
  next : {t u : Pair} → Reach valid uid s t → Step valid uid t u → Reach valid uid s u
