-- ===== src/Plugin/Examples.antt =====
-- The theorems on the plugin at a concrete pod with three links.
use meshnet_cni.Prelude.{
  ℕ, ◌≡◌, refl, true, false, String, some, List, [], ◌∷◌, ◌==◌, nat_eq, string_eq, if◌then◌else◌,
}
use meshnet_cni.Topology.{Link, Pod}
use meshnet_cni.Protocol.Names.{higher_prio}
use meshnet_cni.Plugin.{Rpc, answered, grpc, Config, make_veth, link_mtu_of, is_alive_pod, fine}
use meshnet_cni.Plugin.Ready
use meshnet_cni.Plugin.Add
use meshnet_cni.Plugin.Command.{AddCall, cmd_add}
use meshnet_cni.Plugin.Success.{Success, cmd_add-Success}

abbrev pub host_config : Config
host_config = record {
  parses = λ s. true;
  default_link_mtu = some 1450;
  inter_node_link_type = grpc;
  net_ns = "/var/run/netns/b";
  kube_ns = "lab";
}

abbrev pub link_to : String → ℕ → Link
link_to peer uid = record {
  peer_pod = peer;
  peer_intf = "eth1";
  local_intf = "eth2";
  local_ip = "";
  peer_ip = "";
  uid = uid;
  mtu = 0;
}

abbrev pod_named : String → String → String → List Link → Pod
pod_named name ip ns links = record {
  name = name;
  src_ip = ip;
  net_ns = ns;
  kube_ns = "lab";
  links = links;
  node_ip = "10.0.0.2";
  node_intf = "";
  container_id = "c2";
}

abbrev pub beside : Pod
beside = pod_named "r1" "10.0.0.2" "/var/run/netns/a" []

abbrev pub remote : Pod
remote = pod_named "r3" "10.0.0.3" "/var/run/netns/c" []

abbrev pub dead : Pod
dead = pod_named "r4" "" "" []

abbrev pub own : Pod
own =
    pod_named "r2" "10.0.0.2" "/var/run/netns/b"
      (link_to "r1" 1 ∷ link_to "r3" 2 ∷ link_to "r4" 3 ∷ [])

abbrev pub peer_of : ℕ → Pod
peer_of uid = if uid == 1 then beside else if uid == 2 then remote else dead

abbrev all_yes : Rpc Pod → Add.Answers
all_yes peer = record {
  peer = peer;
  macvlan_made = true;
  own_exists = false;
  peer_exists = false;
  own_removed = true;
  peer_removed = true;
  is_skipped = answered false;
  veth_made = true;
  wire_made = true;
  vxlan_made = true;
  registered = answered true;
  dialed = true;
  updated = answered true;
  skipped = answered true;
}

abbrev add_call : AddCall
add_call = record {
  conf_loaded = true;
  args_loaded = true;
  dialed = true;
  local_pod = Ready.found own;
  source = some ("10.0.0.2", "ens3");
  alive_set = answered true;
  container_id = "c2";
  answers = λ l. all_yes (answered (peer_of l.uid));
}

add_call_fine : (cmd_add host_config add_call).end ≡ fine
unfolding cmd_add make_veth higher_prio link_mtu_of Add.add_links is_alive_pod
add_call_fine = refl

cmd_add-Success_example : Success host_config add_call (cmd_add host_config add_call)
cmd_add-Success_example = cmd_add-Success host_config add_call add_call_fine
