-- ===== src/Forward/Examples.antt =====
-- The wire of two nodes, and frames on it.
use meshnet_cni.Prelude.{
  none, if◌then◌else◌, ◌==◌, ◌≡◌, refl, true, false, some, List, [], ◌∷◌, ◌++◌, nat_eq, string_eq,
  pair_eq, arith,
}
use meshnet_cni.Prelude.Assoc.{lookup, insert}
use meshnet_cni.PeerIp.{internal_ip, validate_peer_node_ip, after as history}
use meshnet_cni.PeerIp.Wait.{Retry, Recent, wait_for_valid_peer_node_ip}
use meshnet_cni.Wire.{
  GrpcWire, add_wire, create_gwire, host_created_wire, peer_created_wire, get_wire, get_handle,
  update_wire_by_uid,
}
use meshnet_cni.Wire.Steps.{add_grpc_wire_remote, create_grpc_wire_local}
use meshnet_cni.Protocol.Names.{higher_prio}
use meshnet_cni.Plugin.{make_veth}
use meshnet_cni.Plugin.Chan.{creat_grpc_chan}
use meshnet_cni.Plugin.Examples.{host_config, link_to, remote, own}
use meshnet_cni.Plugin.Chan.Examples.{chan_answers, between, after, connects}
use meshnet_cni.Decode.{Parsed, reads}
use meshnet_cni.Forward.{
  Network, Frame, stop, eof, running, forward, Opening, recv_frm_local_pod_thread,
}
use meshnet_cni.Forward.Crossing.{
  Leads, captures, written_to, forward-captures, frames_cross, sends_to_known,
}

abbrev pub mine : GrpcWire
mine = record {
  uid = 2;
  topo_namespace = "lab";
  local_node_iface_id = 17;
  local_node_iface_name = "r3eth2-0001";
  local_pod_ip = "";
  local_pod_name = "r3";
  local_pod_iface_name = "eth2";
  local_pod_net_ns = "/var/run/netns/c";
  wire_iface_id_on_peer_node = 41;
  peer_node_ip = "10.0.0.2";
  is_ready = true;
  originator = host_created_wire;
  originator_ip = "unknown";
  stop_c = 0;
}

abbrev pub theirs : GrpcWire
theirs = record {
  uid = 2;
  topo_namespace = "lab";
  local_node_iface_id = 41;
  local_node_iface_name = "r2eth1-0007";
  local_pod_ip = "";
  local_pod_name = "r2";
  local_pod_iface_name = "eth1";
  local_pod_net_ns = "/var/run/netns/b";
  wire_iface_id_on_peer_node = 17;
  peer_node_ip = "10.0.0.3";
  is_ready = true;
  originator = peer_created_wire;
  originator_ip = "10.0.0.3";
  stop_c = 0;
}

-- What the daemons keep of the wire.
pub kept :
    (get_wire remote.net_ns 2 after.here ≡ some mine)
    × (get_wire own.net_ns 2 after.there ≡ some theirs)
    × (get_handle 17 after.here ≡ some 3)
    × (get_handle 41 after.there ≡ some 5)
unfolding creat_grpc_chan higher_prio make_veth get_wire get_handle lookup add_grpc_wire_remote
    update_wire_by_uid create_grpc_wire_local add_wire insert create_gwire
kept = (refl, refl, refl, refl)

-- The two nodes.
abbrev pub network : Network
network ip =
    if ip == "10.0.0.2"
    then some after.there
    else if ip == "10.0.0.3"
    then some after.here
    else none

pub leads : Leads network mine 5
unfolding creat_grpc_chan higher_prio make_veth get_wire get_handle lookup add_grpc_wire_remote
    update_wire_by_uid create_grpc_wire_local add_wire insert create_gwire
leads = (after.there, refl, refl)

-- Every packet is an ARP packet: 28 bytes after the header.
abbrev arp : Frame → Parsed
arp frame = reads 28

abbrev pub pings : List Frame
pings = (1 ∷ 2 ∷ []) ∷ (3 ∷ []) ∷ []

frames_cross_example :
    (forward arp mine (captures network pings ++ stop ∷ []) ≡ (written_to 5 pings, eof))
    × (forward arp theirs (captures network pings ++ stop ∷ []) ≡ (written_to 3 pings, eof))
unfolding get_wire lookup
frames_cross_example =
    frames_cross host_config (link_to "r2" 2) remote own chan_answers between after mine theirs 3 5
      arp pings pings [] network connects refl refl refl kept.0 kept.1 kept.2 kept.3 (omega arith)
      (omega arith)

abbrev node_known : Retry
node_known = record {
  now = 0;
  nodes = some ((record { type = internal_ip; address = "10.0.0.2" } ∷ []) ∷ []);
  stored_at = 1;
  others = [];
  stopped = false;
}

abbrev opening : Opening
opening = record {
  rounds = node_known ∷ [];
  interface_found = true;
  opened = true;
  direction_set = true;
  dialed = true;
}

sent :
    recv_frm_local_pod_thread arp mine opening [] (captures network pings)
    ≡ (written_to 5 pings, running)
unfolding recv_frm_local_pod_thread wait_for_valid_peer_node_ip validate_peer_node_ip history
sent = rw (forward-captures arp mine network 5 pings [] [] running leads (omega arith) refl) refl

sends_to_known_example :
    Recent "10.0.0.2" (wait_for_valid_peer_node_ip "10.0.0.2" (node_known ∷ []) []).1
sends_to_known_example =
    sends_to_known arp mine opening [] (captures network pings) (omega arith) (λ e. cc (sent, e))
