-- ===== src/Forward/Crossing.antt =====
-- The frames of a wire arrive at the other end, unchanged and in order.
use meshnet_cni.Prelude.{
  ℕ, ◌≤◌, ◌≡◌, ◌≢◌, refl, sym, ap, ◌∙◌, Bool, true, false, some, List, [], ◌∷◌, ◌++◌, ltb, length,
  map, append-nil, All, arith,
}
use mathlib.Core.Option.{some-injective}
use meshnet_cni.Topology.{Link, Pod}
use meshnet_cni.Wire.{Daemon, GrpcWire, get_wire, get_handle}
use meshnet_cni.PeerIp.{Call}
use meshnet_cni.PeerIp.Wait.{
  Retry, PeerWait, valid, stopped, waiting, wait_for_valid_peer_node_ip, Recent, wait-Recent,
}
use meshnet_cni.Plugin.{Config}
use meshnet_cni.Plugin.Chan.{Answers, Nodes, connected, creat_grpc_chan}
use meshnet_cni.Plugin.Chan.Connect.{wire_connects}
use meshnet_cni.Plugin.Chan.Ends.{ip_after}
use meshnet_cni.Decode.{Parsed}
use meshnet_cni.Forward.{
  Network, Frame, send_to_once, Event, stop, captured, LoopEnd, eof, decodes, delivered, forward,
  Opening, after_validation, recv_frm_local_pod_thread,
}

-- Frames that are captured one after the other while the network is as it is.
abbrev pub captures : Network → List Frame → List Event
captures network [] = []
captures network (f ∷ fs) = captured f network true ∷ captures network fs

-- The thread of a wire reaches a daemon, which has the handle `h` for the other end.
abbrev pub Leads : Network → GrpcWire → ℕ → Type 0
Leads network w h =
    (there : Daemon) × (network w.peer_node_ip ≡ some there)
    × (get_handle w.wire_iface_id_on_peer_node there ≡ some h)

abbrev pub written_to : ℕ → List Frame → List (ℕ × Frame)
written_to h fs = map (λ f. (h, f)) fs

-- Frames that are not larger than an Ethernet frame.
abbrev pub Fits : List Frame → Type 0
Fits fs = All (λ (f : Frame). length f ≤ 1518) fs

small_decodes : (parse : List ℕ → Parsed) (f : Frame) → length f ≤ 1518 → decodes parse f ≡ true
unfolding decodes
small_decodes parse f h = let small : ltb 1518 (length f) ≡ false = ground arith in rw small refl

delivers :
    (w : GrpcWire) (network : Network) (h : ℕ) (f : Frame) (writes : Bool)
    → Leads network w h
    → delivered w f network writes ≡ some (h, f)
unfolding delivered send_to_once
delivers w network h f writes (there, reached, e) =
    rw (reached, delivered) (rw (e, send_to_once) refl)

-- Frames are written in order before whatever comes after them.
pub forward-captures :
    (parse : List ℕ → Parsed) (w : GrpcWire) (network : Network) (h : ℕ) (fs : List Frame)
    (es : List Event) (ws : List (ℕ × Frame)) (end : LoopEnd)
    → Leads network w h
    → Fits fs
    → forward parse w es ≡ (ws, end)
    → forward parse w (captures network fs ++ es) ≡ (written_to h fs ++ ws, end)
unfolding forward
forward-captures parse w network h [] es ws end e fit rest = rest
forward-captures parse w network h (f ∷ fs) es ws end e fit rest =
    rw (small_decodes parse f fit.0, forward)
      (rw
        (
          delivers w network h f true e,
          forward-captures parse w network h fs es ws end e fit.1 rest,
        )
        refl)

stopped_after :
    (parse : List ℕ → Parsed) (w : GrpcWire) (network : Network) (h : ℕ) (fs : List Frame)
    (es : List Event)
    → Leads network w h
    → Fits fs
    → forward parse w (captures network fs ++ stop ∷ es) ≡ (written_to h fs, eof)
unfolding forward
stopped_after parse w network h fs es e fit =
    rw (forward-captures parse w network h fs (stop ∷ es) [] eof e fit refl, append-nil) refl

-- Once CreatGRPCChan has made a wire, the frames that its two threads capture cross it, both ways: if
-- the nodes of the two pods are reached at the addresses of the pods' sources, the daemons keep the two
-- ends as they are, with handles for their interfaces, and the peer's daemon had no wire of the link from
-- a node of another address, then every frame that is captured at one end is written to the handle of the
-- other end's own interface, unchanged and in the order of capture, and nothing else is written, until
-- the wire is stopped, which ends the loop; for frames of at most 1518 bytes.
pub frames_cross :
    (cfg : Config) (link : Link) (local peer : Pod) (a : Answers) (n n' : Nodes)
    (mine theirs : GrpcWire) (h h' : ℕ) (parse : List ℕ → Parsed) (fs gs : List Frame)
    (es : List Event) (network : Network)
    → creat_grpc_chan cfg link local peer a n ≡ (connected, n')
    → ip_after local.src_ip (get_wire peer.net_ns link.uid n.there) ≡ local.src_ip
    → network local.src_ip ≡ some n'.here
    → network peer.src_ip ≡ some n'.there
    → get_wire local.net_ns link.uid n'.here ≡ some mine
    → get_wire peer.net_ns link.uid n'.there ≡ some theirs
    → get_handle mine.local_node_iface_id n'.here ≡ some h
    → get_handle theirs.local_node_iface_id n'.there ≡ some h'
    → Fits fs
    → Fits gs
    → (forward parse mine (captures network fs ++ stop ∷ es) ≡ (written_to h' fs, eof))
      × (forward parse theirs (captures network gs ++ stop ∷ es) ≡ (written_to h gs, eof))
frames_cross cfg link local peer a n n' mine theirs h h' parse fs gs es network e from here_ there_
      em et eh eh' ffs fgs =
    let (m, t, am, at_, rm, rt, tom, tot, ip, ip') = wire_connects cfg link local peer a n n' e in
    let same_m : mine ≡ m = some-injective _ _ (sym em ∙ am) in
    let same_t : theirs ≡ t = some-injective _ _ (sym et ∙ at_) in
    let to_t : mine.wire_iface_id_on_peer_node ≡ theirs.local_node_iface_id =
      ap (λ (x : GrpcWire). x.wire_iface_id_on_peer_node) same_m
      ∙ tom
      ∙ sym (ap (λ (x : GrpcWire). x.local_node_iface_id) same_t) in
    let to_m : theirs.wire_iface_id_on_peer_node ≡ mine.local_node_iface_id =
      ap (λ (x : GrpcWire). x.wire_iface_id_on_peer_node) same_t
      ∙ tot
      ∙ sym (ap (λ (x : GrpcWire). x.local_node_iface_id) same_m) in
    let ip_m : mine.peer_node_ip ≡ peer.src_ip =
      ap (λ (x : GrpcWire). x.peer_node_ip) same_m ∙ ip in
    let ip_t : theirs.peer_node_ip ≡ local.src_ip =
      ap (λ (x : GrpcWire). x.peer_node_ip) same_t ∙ ip' ∙ from in
    (
      stopped_after parse mine network h' fs es
          (n'.there, ap network ip_m ∙ there_, ap (λ i. get_handle i n'.there) to_t ∙ eh') ffs,
      stopped_after parse theirs network h gs es
          (n'.here, ap network ip_t ∙ here_, ap (λ i. get_handle i n'.here) to_m ∙ eh) fgs,
    )

loop_entered :
    (o : Opening) (loop : List (ℕ × Frame) × LoopEnd) (v : PeerWait)
    → (after_validation o loop v).0 ≢ []
    → v ≡ valid
unfolding after_validation
loop_entered o loop valid h = refl
loop_entered o loop stopped h = absurd (h refl)
loop_entered o loop waiting h = absurd (h refl)

-- The thread sends frames only to a peer whose address was given for a node of the cluster by a list
-- of nodes that was no older than the lifetime of the cache when the thread last asked, if the clock
-- does not run back between a call's test and its storing of the list.
pub sends_to_known :
    (parse : List ℕ → Parsed) (w : GrpcWire) (o : Opening) (cs : List Call) (es : List Event)
    → All (λ (r : Retry). r.now ≤ r.stored_at) o.rounds
    → (recv_frm_local_pod_thread parse w o cs es).0 ≢ []
    → Recent w.peer_node_ip (wait_for_valid_peer_node_ip w.peer_node_ip o.rounds cs).1
unfolding recv_frm_local_pod_thread
sends_to_known parse w o cs es clock sent =
    wait-Recent w.peer_node_ip o.rounds cs clock (loop_entered o (forward parse w es) _ sent)
