-- ===== src/LinkState/Watch.antt =====
-- What the carrier watches read and send: wireDatapathOperUp, StartCarrierWatch and
-- ReassertLocalLinkStates of daemon/grpcwire/carrier.go and of daemon/vxlan/carrier.go. A notice is
-- sent to an address of a peer; an error of the peer is only logged.
pub mod Sources
pub mod Reassert
mod Examples
use meshnet_cni.Prelude.{
  ℕ, Bool, true, false, ◌||◌, String, Option, none, some, List, [], ◌∷◌, ◌==◌, nat_eq, string_eq,
  if◌then◌else◌,
}
use meshnet_cni.Prelude.Assoc.{Assoc}
use meshnet_cni.Carrier.{Debouncer, Edge}
use meshnet_cni.Carrier.Watch.{tick}
use meshnet_cni.Carrier.Reading.{
  Netlink, oper_up_on_host, oper_up_on_host_by_name, oper_up_in_pod_net_ns,
}
use meshnet_cni.Wire.{Daemon, GrpcWire, snapshot_wires}
use meshnet_cni.LinkState.{
  Link, Links, WireLinkState, notify_peer_link_state, propagate_wire_edge, propagate_link_edge,
}

-- A notice, and the address that it goes to.
abbrev pub Notice : Type 0
Notice = String × WireLinkState

unfoldable pub carrier_watch_iface : GrpcWire → String
carrier_watch_iface w =
    if w.local_node_iface_name == "" then w.local_pod_iface_name else w.local_node_iface_name

-- A reading, or else another one.
abbrev pub or_else : Option Bool → Option Bool → Option Bool
or_else none other = other
or_else (some up) other = some up

-- The last two readings of wireDatapathOperUp, in the namespace of the pod.
unfoldable pub in_pod_oper_up : Netlink → GrpcWire → Option Bool
unfolding carrier_watch_iface
in_pod_oper_up nl w =
    let name = carrier_watch_iface w in
    let first = oper_up_in_pod_net_ns nl w.local_pod_net_ns name in
    or_else first (
      if (name == w.local_pod_iface_name) || (w.local_pod_iface_name == "")
      then first
      else oper_up_in_pod_net_ns nl w.local_pod_net_ns w.local_pod_iface_name)

unfoldable pub wire_datapath_oper_up : Netlink → GrpcWire → Option Bool
unfolding in_pod_oper_up
wire_datapath_oper_up nl w =
    let by_name =
      if w.local_node_iface_name == ""
      then in_pod_oper_up nl w
      else or_else (oper_up_on_host_by_name nl w.local_node_iface_name) (in_pod_oper_up nl w) in
    if w.local_node_iface_id == 0
    then by_name
    else or_else (oper_up_on_host nl w.local_node_iface_id) by_name

unfoldable pub link_oper_up : Netlink → Link → Option Bool
link_oper_up nl l = oper_up_in_pod_net_ns nl l.local_net_ns l.local_intf_name

-- snapshotLinks
unfoldable pub snapshot_links : Links → List Link
snapshot_links [] = []
snapshot_links ((k, l) ∷ m) = l ∷ snapshot_links m

-- The readings of a tick, under the keys that the debouncer has for them.
unfoldable pub wire_readings : Netlink → List GrpcWire → List (ℕ × Option Bool)
unfolding wire_datapath_oper_up
wire_readings nl [] = []
wire_readings nl (w ∷ ws) =
    (w.local_node_iface_id, wire_datapath_oper_up nl w) ∷ wire_readings nl ws

unfoldable pub link_readings : Netlink → List Link → List (ℕ × Option Bool)
unfolding link_oper_up
link_readings nl [] = []
link_readings nl (l ∷ ls) = (l.uid, link_oper_up nl l) ∷ link_readings nl ls

-- A notice before the others, if there is one.
abbrev pub with_notice : Option Notice → List Notice → List Notice
with_notice none ns = ns
with_notice (some n) ns = n ∷ ns

-- propagateEdge for each edge.
unfoldable pub propagate_edges : (ℕ → Bool → Option Notice) → List Edge → List Notice
propagate_edges tell [] = []
propagate_edges tell (e ∷ es) = with_notice (tell e.key e.up) (propagate_edges tell es)

-- One tick of StartCarrierWatch of daemon/grpcwire/carrier.go.
unfoldable pub wire_tick :
    Netlink → Daemon → Debouncer → Assoc ℕ Bool → ℕ → Debouncer × Assoc ℕ Bool × List Notice
unfolding wire_readings propagate_edges propagate_wire_edge
wire_tick nl s d t now =
    let (d', sent, t') = tick d t (wire_readings nl (snapshot_wires s.wires)) now in
    (d', t', propagate_edges (λ id up. propagate_wire_edge id up s) sent)

-- One tick of StartCarrierWatch of daemon/vxlan/carrier.go.
unfoldable pub link_tick :
    Netlink → Links → Debouncer → Assoc ℕ Bool → ℕ → Debouncer × Assoc ℕ Bool × List Notice
unfolding link_readings propagate_edges propagate_link_edge
link_tick nl m d t now =
    let (d', sent, t') = tick d t (link_readings nl (snapshot_links m)) now in
    (d', t', propagate_edges (λ uid up. propagate_link_edge uid up m) sent)

-- The loop of ReassertLocalLinkStates over the wires.
unfoldable pub reassert_each_wire : Netlink → List GrpcWire → List Notice
unfolding wire_datapath_oper_up notify_peer_link_state
reassert_each_wire nl [] = []
reassert_each_wire nl (w ∷ ws) = elim (wire_datapath_oper_up nl w) [
  | none ↦ reassert_each_wire nl ws
  | some up ↦ notify_peer_link_state w up ∷ reassert_each_wire nl ws
]

-- ReassertLocalLinkStates of daemon/grpcwire/carrier.go; whether carrier propagation is on.
unfoldable pub reassert_wires : Bool → Netlink → Daemon → List Notice
unfolding reassert_each_wire snapshot_wires
reassert_wires false nl s = []
reassert_wires true nl s = reassert_each_wire nl (snapshot_wires s.wires)

-- What ReassertLocalLinkStates tells of a VXLAN link.
abbrev pub link_notice : Link → Bool → Notice
link_notice l up =
    (l.peer_node_ip, record { link_uid = l.uid; local_pod_net_ns = ""; up = up; peer_iface_id = 0 })

unfoldable pub reassert_each_link : Netlink → List Link → List Notice
unfolding link_oper_up
reassert_each_link nl [] = []
reassert_each_link nl (l ∷ ls) = elim (link_oper_up nl l) [
  | none ↦ reassert_each_link nl ls
  | some up ↦ link_notice l up ∷ reassert_each_link nl ls
]

-- ReassertLocalLinkStates of daemon/vxlan/carrier.go.
unfoldable pub reassert_links : Bool → Netlink → Links → List Notice
unfolding reassert_each_link snapshot_links
reassert_links false nl m = []
reassert_links true nl m = reassert_each_link nl (snapshot_links m)
