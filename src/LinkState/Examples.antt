-- ===== src/LinkState/Examples.antt =====
-- Two nodes with a wire between them, and a VXLAN link.
use meshnet_cni.Prelude.{ℕ, ◌≡◌, refl, true, false, String, some, [], nat_eq, string_eq, pair_eq}
use meshnet_cni.Prelude.Assoc.{insert}
use meshnet_cni.Wire.{Daemon, GrpcWire, start, host_created_wire, add_in_mem, wire_by_if_index}
use meshnet_cni.LinkState.{
  WireLinkState, Kernel, host_end, propagate_wire_edge, set_peer_link_state,
}
use meshnet_cni.LinkState.Mirror.{edge_crosses}

abbrev pub wire_of : ℕ → ℕ → String → GrpcWire
wire_of mine peer ip = record {
  uid = 1;
  topo_namespace = "lab";
  local_node_iface_id = mine;
  local_node_iface_name = "r1eth1-0001";
  local_pod_ip = "12.12.12.1/24";
  local_pod_name = "r1";
  local_pod_iface_name = "eth1";
  local_pod_net_ns = "/run/netns/r1";
  wire_iface_id_on_peer_node = peer;
  peer_node_ip = ip;
  is_ready = true;
  originator = host_created_wire;
  originator_ip = ip;
  stop_c = 0;
}

abbrev pub here : Daemon
here = add_in_mem (wire_of 41 52 "10.0.0.2") 7 start

abbrev pub there : Daemon
there = add_in_mem (wire_of 52 41 "10.0.0.1") 7 start

abbrev pub works : Kernel
works = record { found = true; sets = true }

edge_crosses_example :
    (n : WireLinkState) × (propagate_wire_edge 41 false here ≡ some ("10.0.0.2", n))
    × ((set_peer_link_state true works n there [] []).target ≡ some (host_end 52 false))
    × ((set_peer_link_state true works n there [] []).failed ≡ false)
unfolding add_in_mem wire_by_if_index insert
edge_crosses_example =
    edge_crosses 41 false here there (wire_of 41 52 "10.0.0.2") (wire_of 52 41 "10.0.0.1") works []
      [] refl refl refl refl
