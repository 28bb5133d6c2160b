-- ===== src/Forward.antt =====
-- How a frame gets from a pod to its peer: RecvFrmLocalPodThread of daemon/grpcwire/grpcwire.go, which
-- captures the frames of a wire, and SendToOnce of daemon/meshnet/handler.go, which writes them at the
-- other node. What pcap, the network and the peer do is an argument, frame by frame.
pub mod Crossing
pub mod Crash
mod Examples
use meshnet_cni.Prelude.{
  ℕ, Bool, true, false, ◌&&◌, not, String, Option, none, some, List, [], ◌∷◌, ltb, length,
  if◌then◌else◌,
}
use meshnet_cni.Wire.{Daemon, GrpcWire, get_handle}
use meshnet_cni.Decode.{Parsed, Decoded, packets, panics, out_of_fuel, decode_frame}
use meshnet_cni.PeerIp.{Call}
use meshnet_cni.PeerIp.Wait.{Retry, PeerWait, valid, stopped, waiting, wait_for_valid_peer_node_ip}

abbrev pub Frame : Type 0
Frame = List ℕ

pub record Packet : Type 0 where
  pub remot_intf_id : ℕ
  pub frame : Frame

-- SendToOnce: the handle that the frame is written to, if there is one, and the response.
unfoldable pub send_to_once : Bool → Packet → Daemon → Option (ℕ × Frame) × Bool
unfolding get_handle
send_to_once writes pkt s = elim (get_handle pkt.remot_intf_id s) [
  | none ↦ (none, false)
  | some h ↦ (some (h, pkt.frame), writes)
]

-- The daemons of the network by the address of their node; none if a call does not reach one.
abbrev pub Network : Type 0
Network = String → Option Daemon

-- What the select of the loop takes up: the stop channel, a frame, or the end of the packet source,
-- whose channel gives nil then. With a frame go the network at that time, and whether the daemon that is
-- reached can write.
pub data Event : Type 0 where
  stop : Event
  captured : (frame : Frame) (network : Network) (writes : Bool) → Event
  source_ended : Event

pub data LoopEnd : Type 0 where
  refused eof panicked running : LoopEnd

-- The frame is decoded for the log if it is large.
unfoldable pub decodes : (List ℕ → Parsed) → Frame → Bool
unfolding decode_frame
decodes parse frame =
    if ltb 1518 (length frame)
    then elim (decode_frame parse frame) [ packets n ↦ true | panics ↦ false | out_of_fuel ↦ false ]
    else true

-- A write before the others, if there is one.
abbrev pub with_write : Option (ℕ × Frame) → List (ℕ × Frame) × LoopEnd → List (ℕ × Frame) × LoopEnd
with_write none (ws, end) = (ws, end)
with_write (some w) (ws, end) = (w ∷ ws, end)

-- The call of SendToOnce for a frame, which goes to the node that was dialed. Its error and its response
-- are only logged.
unfoldable pub delivered : GrpcWire → Frame → Network → (writes : Bool) → Option (ℕ × Frame)
unfolding send_to_once
delivered w frame network writes = elim (network w.peer_node_ip) [
  | none ↦ none
  | some peer ↦
      (send_to_once writes (record { remot_intf_id = w.wire_iface_id_on_peer_node; frame = frame })
        peer).0
]

-- The loop of RecvFrmLocalPodThread: what is written at the peer, and how the loop ends. The wire is as
-- it is when the loop starts.
unfoldable pub forward : (List ℕ → Parsed) → GrpcWire → List Event → List (ℕ × Frame) × LoopEnd
unfolding decodes delivered
forward parse w [] = ([], running)
forward parse w (stop ∷ es) = ([], eof)
forward parse w (source_ended ∷ es) = ([], panicked)
forward parse w (captured frame network writes ∷ es) =
    let rest = forward parse w es in
    if decodes parse frame
    then with_write (delivered w frame network writes) rest
    else ([], panicked)

-- What the thread meets before its loop: the rounds of the wait for the peer's address, and whether
-- the interface is there, it is opened, the direction is set, and the peer is dialed.
pub record Opening : Type 0 where
  pub rounds : List Retry
  pub interface_found : Bool
  pub opened : Bool
  pub direction_set : Bool
  pub dialed : Bool

-- What follows the wait: the loop is entered once the peer is dialed.
unfoldable pub after_validation :
    Opening → List (ℕ × Frame) × LoopEnd → PeerWait → List (ℕ × Frame) × LoopEnd
after_validation o loop valid =
    if o.interface_found && o.opened && o.direction_set && o.dialed then loop else ([], refused)
after_validation o loop stopped = ([], refused)
after_validation o loop waiting = ([], running)

unfoldable pub recv_frm_local_pod_thread :
    (List ℕ → Parsed) → GrpcWire → Opening → List Call → List Event → List (ℕ × Frame) × LoopEnd
unfolding after_validation forward
recv_frm_local_pod_thread parse w o cs es =
    after_validation o (forward parse w es)
      (wait_for_valid_peer_node_ip w.peer_node_ip o.rounds cs).0
