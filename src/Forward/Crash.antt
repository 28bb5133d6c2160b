-- ===== src/Forward/Crash.antt =====
-- A frame that brings the thread down, and with it the daemon.
mod Examples
use meshnet_cni.Prelude.{
  ℕ, ◌+◌, ◌≤◌, ◌<◌, ◌≡◌, refl, Bool, true, false, some, List, [], ◌∷◌, ◌++◌, ltb, length,
  append-nil, arith,
}
use meshnet_cni.Wire.{Daemon, GrpcWire, get_handle}
use meshnet_cni.Decode.{Parsed, reads, panics, drop, decode_frame}
use meshnet_cni.Decode.Cuts.{third_packet_panics}
use meshnet_cni.Decode.Packet.{llc, Ethernet, Gopacket, is_iso, parse_frame}
use meshnet_cni.Decode.Empty.{empty_llc_panics}
use meshnet_cni.Forward.{Network, Frame, Event, captured, panicked, decodes, forward}
use meshnet_cni.Forward.Crossing.{Leads, captures, written_to, Fits, forward-captures}

large_panics :
    (parse : List ℕ → Parsed) (f : Frame)
    → 1518 < length f
    → decode_frame parse f ≡ panics
    → decodes parse f ≡ false
unfolding decodes
large_panics parse f large e =
    let test : ltb 1518 (length f) ≡ true = ground arith in rw (test, e) refl

-- A frame that does not decode ends the thread.
crash_after :
    (parse : List ℕ → Parsed) (w : GrpcWire) (network later : Network) (h : ℕ) (fs : List Frame)
    (f : Frame) (writes : Bool) (es : List Event)
    → Leads network w h
    → Fits fs
    → decodes parse f ≡ false
    → forward parse w (captures network fs ++ captured f later writes ∷ es)
      ≡ (written_to h fs, panicked)
unfolding forward
crash_after parse w network later h fs f writes es e fit bad =
    rw
      (
        forward-captures parse w network h fs (captured f later writes ∷ es) [] panicked e fit
            (rw (bad, forward) refl),
        append-nil,
      )
      refl

-- A frame of more than 1518 bytes, as receive offload makes them, whose first two packets leave room
-- for a header, and which is shorter than the first packet counted twice and the second once, is not
-- delivered: decoding it for the log panics. The frames before it were delivered, if they have at
-- most 1518 bytes and a daemon with a handle for the wire is reached; nothing after it is.
pub merged_packets_crash :
    (parse : List ℕ → Parsed) (w : GrpcWire) (network later : Network) (h : ℕ) (fs : List Frame)
    (f : Frame) (writes : Bool) (es : List Event) (a b : ℕ)
    → Leads network w h
    → Fits fs
    → 1518 < length f
    → parse f ≡ reads a
    → parse (drop (14 + a) f) ≡ reads b
    → (14 + a) + (14 + b) + 14 ≤ length f
    → length f < (14 + a) + (14 + a) + (14 + b)
    → forward parse w (captures network fs ++ captured f later writes ∷ es)
      ≡ (written_to h fs, panicked)
merged_packets_crash parse w network later h fs f writes es a b e fit large first second room
      short =
    crash_after parse w network later h fs f writes es e fit
      (large_panics parse f large (third_packet_panics parse f a b first second room short))

-- So is a frame of more than 1518 bytes with an LLC header of IS-IS that has no payload, such as one
-- whose Ethernet header gives a length of three.
pub empty_llc_crashes :
    (g : Gopacket) (w : GrpcWire) (network later : Network) (h : ℕ) (fs : List Frame) (f : Frame)
    (writes : Bool) (es : List Event) (e : Ethernet) (d s c : ℕ)
    → Leads network w h
    → Fits fs
    → 1518 < length f
    → g.ethernet f ≡ some e
    → e.next ≡ llc
    → e.layers.llc_layer ≡ some (record { dsap = d; ssap = s; control = c; payload = [] })
    → is_iso d s c ≡ true
    → forward (parse_frame g) w (captures network fs ++ captured f later writes ∷ es)
      ≡ (written_to h fs, panicked)
empty_llc_crashes g w network later h fs f writes es e d s c eh fit large found next header iso =
    crash_after (parse_frame g) w network later h fs f writes es eh fit
      (large_panics (parse_frame g) f large (empty_llc_panics g f e d s c found next header iso))
