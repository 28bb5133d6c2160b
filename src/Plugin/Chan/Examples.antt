-- ===== src/Plugin/Chan/Examples.antt =====
-- A wire that the peer's turn has come to make.
use meshnet_cni.Prelude.{
  ℕ, ◌≡◌, refl, true, false, none, some, ◌==◌, nat_eq, string_eq, if◌then◌else◌,
}
use meshnet_cni.Prelude.Assoc.{lookup}
use meshnet_cni.Wire.{start, get_wire, update_wire_by_uid}
use meshnet_cni.Wire.Steps.{add_grpc_wire_remote, create_grpc_wire_local}
use meshnet_cni.Protocol.Names.{higher_prio}
use meshnet_cni.Plugin.{answered, make_veth}
use meshnet_cni.Plugin.Chan
use meshnet_cni.Plugin.Chan.Wait.{Outcome, wait_outcome}
use meshnet_cni.Plugin.Chan.Connect.{Connected, wire_connects}
use meshnet_cni.Plugin.Examples.{host_config, link_to, remote, own}

-- The peer's wire is there at the third tick.
abbrev third_tick : ℕ → Chan.Tick
third_tick i = record { exists = answered (i == 3); is_skipped = answered false }

wait_outcome_example : Outcome third_tick 19 1 Chan.peer_made_it
unfolding Chan.wait_for_turn
wait_outcome_example = wait_outcome third_tick

abbrev pub chan_answers : Chan.Answers
chan_answers = record {
  is_skipped = answered false;
  ticks = third_tick;
  exists_reached = true;
  node_ns = true;
  node_intf_name = some "r3eth2-0001";
  veth_made = true;
  dialed = true;
  index_of = λ name. if name == "r3eth2-0001" then some 17 else none;
  remote_reached = true;
  remote_made = some (41, "r2eth1-0007", 5);
  local_reached = true;
  local_handle = some 3;
}

-- The pod `r3` has the higher name.
abbrev pub between : Chan.Nodes
between = record { here = start; there = start }

abbrev pub after : Chan.Nodes
after = (Chan.creat_grpc_chan host_config (link_to "r2" 2) remote own chan_answers between).1

pub connects :
    Chan.creat_grpc_chan host_config (link_to "r2" 2) remote own chan_answers between
    ≡ (Chan.connected, after)
unfolding Chan.creat_grpc_chan higher_prio make_veth get_wire lookup add_grpc_wire_remote
    update_wire_by_uid create_grpc_wire_local
connects = refl

wire_connects_example : Connected (link_to "r2" 2) remote own between after
wire_connects_example =
    wire_connects host_config (link_to "r2" 2) remote own chan_answers between after connects
