-- ===== src/RemoteEnd/Examples.antt =====
-- The remote end of a wire on a node where a leftover is in the way.
use meshnet_cni.Prelude.{
  ℕ, ◌≡◌, refl, true, false, none, some, [], ◌==◌, nat_eq, string_eq, if◌then◌else◌,
}
use meshnet_cni.Prelude.Assoc.{lookup}
use meshnet_cni.DataStore.{is_wire_recorded}
use meshnet_cni.Wire.{update_wire_by_uid, WireDef, start, get_wire, get_handle, create_gwire}
use meshnet_cni.Koko.{SetAnswers}
use meshnet_cni.RemoteEnd.{World, add_remote_end}
use meshnet_cni.RemoteEnd.Created.{EndsMade, host_name, remote_end_made}

abbrev set_up : SetAnswers
set_up = record {
  ns_opened = true;
  fd_fits = true;
  moved = true;
  looked_up = true;
  renamed = true;
  ipv6_enabled = λ a. true;
  addr_added = λ a. true;
  state_set = true;
}

abbrev host : World
host = record {
  text = λ n. "r1eth1-0001";
  current_ns = some "/proc/1/ns/net";
  parse_cidr = λ c. some (record { text = c; is_v4 = true });
  info = some (record { present = true; is_veth = true });
  objects = some [];
  leftover_removed = true;
  prefix = none;
  random_in = "koko1";
  random_out = "koko2";
  added = true;
  found = true;
  set_in = set_up;
  set_out = set_up;
  index_of = λ n. if n == "r1eth1-0001" then some 41 else none;
  handle = some 7;
}

abbrev link_one : WireDef
link_one = record {
  link_uid = 1;
  local_pod_ip = "12.12.12.1/24";
  intf_name_in_pod = "eth1";
  local_pod_name = "r1";
  local_pod_net_ns = "/var/run/netns/a";
  wire_if_id_on_peer_node = 52;
  peer_node_ip = "10.0.0.2";
  wire_if_name_on_local_node = "";
  topo_ns = "lab";
}

answers_yes : (add_remote_end host link_one 1400 0 start).response.0 ≡ true
unfolding add_remote_end get_wire lookup update_wire_by_uid is_wire_recorded
answers_yes = refl

remote_end_made_example :
    let added = add_remote_end host link_one 1400 0 start in
    (i : ℕ) × (h : ℕ) × (host.index_of (host_name host link_one 0) ≡ some i)
    × (host.handle ≡ some h)
    × (added.response ≡ (true, i))
    × (get_wire "/var/run/netns/a" 1 added.daemon
        ≡ some (create_gwire i (host_name host link_one 0) 0 link_one))
    × (get_handle i added.daemon ≡ some h)
    × EndsMade host link_one 1400 (host_name host link_one 0) start added.acts
unfolding get_wire lookup
remote_end_made_example = remote_end_made host link_one 1400 0 start refl answers_yes

-- The leftover cannot be removed.
abbrev stuck : World
stuck = record host { leftover_removed = false }

answers_no : (add_remote_end stuck link_one 1400 0 start).response.0 ≡ false
unfolding add_remote_end get_wire lookup update_wire_by_uid is_wire_recorded
answers_no = refl
