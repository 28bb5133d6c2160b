-- ===== src/Plugin/Chan.antt =====
-- CreatGRPCChan and MakeGRPCChanDown of plugin/grpcwires-plugin.go: the two ends of a wire between
-- two nodes. The daemons of the two nodes are those of module Wire.
pub mod Wait
pub mod Connect
pub mod Ends
pub mod Examples
use meshnet_cni.Prelude.{
  ℕ, zero, suc, ◌*◌, Bool, true, false, ◌&&◌, not, String, Option, none, some, ltb, ◌==◌, nat_eq,
  if◌then◌else◌,
}
use meshnet_cni.Topology.{Link, Pod}
use meshnet_cni.Wire.{Daemon, WireDef, wire_down_by_uid}
use meshnet_cni.Wire.Steps.{create_grpc_wire_local, add_grpc_wire_remote, grpc_wire_exists}
use meshnet_cni.Protocol.Names.{higher_prio}
use meshnet_cni.Plugin.{Rpc, answered, refused, Config, VEth, make_veth, link_mtu_of}

abbrev pub skip_status_retry_warn_count : ℕ
skip_status_retry_warn_count = 5

abbrev pub skip_status_retry_count : ℕ
skip_status_retry_count = skip_status_retry_warn_count * 4

-- What the local daemon answers at a tick: to GRPCWireExists, and to IsSkipped.
pub record Tick : Type 0 where
  pub exists : Rpc Bool
  pub is_skipped : Rpc Bool

-- How the wait ends; `waits` if the fuel ends before.
pub data Waited : Type 0 where
  peer_made_it peer_skipped_us gave_up failed waits : Waited

-- A tick that finds neither a wire nor a skip: the iteration is counted, or it is the last.
unfoldable pub not_skipped : ℕ → Waited → Waited
not_skipped iteration rest =
    if ltb skip_status_retry_warn_count iteration && (iteration == skip_status_retry_count)
    then gave_up
    else rest

-- One tick, and what follows it.
unfoldable pub after_tick : Rpc Bool → Rpc Bool → ℕ → Waited → Waited
unfolding not_skipped
after_tick (refused c) skipped iteration rest = failed
after_tick (answered true) skipped iteration rest = peer_made_it
after_tick (answered false) (refused c) iteration rest = failed
after_tick (answered false) (answered true) iteration rest = peer_skipped_us
after_tick (answered false) (answered false) iteration rest = not_skipped iteration rest

-- The loop over the ticks.
unfoldable pub wait_loop : (ℕ → Tick) → (fuel iteration : ℕ) → Waited
unfolding after_tick
wait_loop ticks zero iteration = waits
wait_loop ticks (suc fuel) iteration =
    let rest = wait_loop ticks fuel (suc iteration) in
    after_tick (ticks iteration).exists (ticks iteration).is_skipped iteration rest

-- The wait before the wire is made: none for a pod that was skipped or has the higher name.
unfoldable pub wait_for_turn : Rpc Bool → Bool → (ℕ → Tick) → Waited
unfolding wait_loop
wait_for_turn (refused c) higher ticks = failed
wait_for_turn (answered true) higher ticks = peer_skipped_us
wait_for_turn (answered false) true ticks = peer_skipped_us
wait_for_turn (answered false) false ticks = wait_loop ticks skip_status_retry_count 1

-- What the kernel of the own node, the transport and the two daemons answer. `index_of` is
-- net.InterfaceByName on the own node; `remote_made` and `local_handle` are what the two daemons get
-- from their kernels, as in module Wire.Steps.
pub record Answers : Type 0 where
  pub is_skipped : Rpc Bool
  pub ticks : ℕ → Tick
  pub exists_reached : Bool
  pub node_ns : Bool
  pub node_intf_name : Option String
  pub veth_made : Bool
  pub dialed : Bool
  pub index_of : String → Option ℕ
  pub remote_reached : Bool
  pub remote_made : Option (ℕ × String × ℕ)
  pub local_reached : Bool
  pub local_handle : Option ℕ

-- The daemons of the own node and of the peer's node.
pub record Nodes : Type 0 where
  pub here : Daemon
  pub there : Daemon

-- No error, with a wire made or with none; or an error.
pub data Result : Type 0 where
  connected left_to_peer error : Result

-- The question whether the wire exists, wireDef.
abbrev pub query : Link → Pod → WireDef
query link local = record {
  link_uid = link.uid;
  local_pod_ip = "";
  intf_name_in_pod = "";
  local_pod_name = "";
  local_pod_net_ns = local.net_ns;
  wire_if_id_on_peer_node = 0;
  peer_node_ip = "";
  wire_if_name_on_local_node = "";
  topo_ns = local.kube_ns;
}

-- wireDefRemot
unfoldable pub remote_def : Link → (local peer : Pod) → ℕ → WireDef
remote_def link local peer index = record {
  link_uid = link.uid;
  local_pod_ip = link.peer_ip;
  intf_name_in_pod = link.peer_intf;
  local_pod_name = peer.name;
  local_pod_net_ns = peer.net_ns;
  wire_if_id_on_peer_node = index;
  peer_node_ip = local.src_ip;
  wire_if_name_on_local_node = "";
  topo_ns = peer.kube_ns;
}

-- wireDefLocal
unfoldable pub local_def : Link → (local peer : Pod) → String → ℕ → WireDef
local_def link local peer node_intf peer_intf_id = record {
  link_uid = link.uid;
  local_pod_ip = link.local_ip;
  intf_name_in_pod = link.local_intf;
  local_pod_name = local.name;
  local_pod_net_ns = local.net_ns;
  wire_if_id_on_peer_node = peer_intf_id;
  peer_node_ip = peer.src_ip;
  wire_if_name_on_local_node = node_intf;
  topo_ns = local.kube_ns;
}

-- The response of AddGRPCWireLocal of the own daemon.
unfoldable pub add_local : Option ℕ → Answers → WireDef → Nodes → Result × Nodes
add_local index a d n =
    let (done, here) = create_grpc_wire_local index a.local_handle d n.here in
    if a.local_reached
    then (if done then connected else error, record n { here = here })
    else (error, n)

-- The response of the peer's daemon, and the own end.
unfoldable pub after_remote :
    Link → (local peer : Pod) → String → ℕ → Answers → Bool × ℕ → Nodes → Result × Nodes
unfolding add_local local_def
after_remote link local peer node_intf index a (false, peer_intf_id) n = (error, n)
after_remote link local peer node_intf index a (true, peer_intf_id) n =
    add_local (some index) a (local_def link local peer node_intf peer_intf_id) n

-- The peer's end, then the own end; `index` is the interface of the own node.
unfoldable pub connect :
    Link → (local peer : Pod) → String → Option ℕ → Answers → Nodes → Result × Nodes
unfolding after_remote remote_def
connect link local peer node_intf none a n = (error, n)
connect link local peer node_intf (some index) a n =
    let (answer, there) =
      add_grpc_wire_remote a.remote_made (remote_def link local peer index) n.there in
    if a.remote_reached
    then after_remote link local peer node_intf index a answer (record n { there = there })
    else (error, n)

-- The pair of interfaces that connects the pod with its node, and then the two ends.
unfoldable pub plug :
    Link → (local peer : Pod) → Option VEth → Option String → Answers → Nodes → Result × Nodes
unfolding connect
plug link local peer none name a n = (error, n)
plug link local peer (some veth) none a n = (error, n)
plug link local peer (some veth) (some node_intf) a n =
    if a.veth_made && a.dialed
    then connect link local peer node_intf (a.index_of node_intf) a n
    else (error, n)

-- The last look for a wire of the peer, and the making of the wire.
unfoldable pub make_unless_there :
    Config → Link → (local peer : Pod) → Answers → Nodes → Result × Nodes
unfolding plug grpc_wire_exists
make_unless_there cfg link local peer a n =
    if not a.exists_reached
    then (error, n)
    else if (grpc_wire_exists (query link local) n.here).0
    then (left_to_peer, n)
    else if not a.node_ns
    then (error, n)
    else plug link local peer
        (make_veth cfg.parses local.net_ns link.local_intf link.local_ip
          (link_mtu_of cfg.default_link_mtu link.mtu))
        a.node_intf_name a n

abbrev pub after_wait : Waited → Result × Nodes → Nodes → Result × Nodes
after_wait peer_made_it rest n = (left_to_peer, n)
after_wait gave_up rest n = (left_to_peer, n)
after_wait failed rest n = (error, n)
after_wait waits rest n = (error, n)
after_wait peer_skipped_us rest n = rest

-- CreatGRPCChan, from the states of the daemons after the wait.
unfoldable pub creat_grpc_chan :
    Config → Link → (local peer : Pod) → Answers → Nodes → Result × Nodes
unfolding make_unless_there wait_for_turn
creat_grpc_chan cfg link local peer a n =
    after_wait (wait_for_turn a.is_skipped (higher_prio local.name peer.name) a.ticks)
      (make_unless_there cfg link local peer a n) n

-- The wire that is taken down at the peer's node.
unfoldable pub down_def : Link → (local peer : Pod) → WireDef
down_def link local peer = record {
  link_uid = link.uid;
  local_pod_ip = link.peer_ip;
  intf_name_in_pod = link.peer_intf;
  local_pod_name = peer.name;
  local_pod_net_ns = peer.net_ns;
  wire_if_id_on_peer_node = 0;
  peer_node_ip = local.src_ip;
  wire_if_name_on_local_node = "";
  topo_ns = peer.kube_ns;
}

-- MakeGRPCChanDown: whether there is an error, and the daemon of the peer's node, `none` if it panicked.
-- The daemon answers yes whether it has the wire or not.
unfoldable pub make_grpc_chan_down :
    Link → (local peer : Pod) → (dialed reached : Bool) → Daemon → Bool × Option Daemon
unfolding down_def
make_grpc_chan_down link local peer dialed reached there =
    let d = down_def link local peer in
    if dialed && reached
    then elim (wire_down_by_uid d.local_pod_net_ns d.link_uid there) [
      | none ↦ (true, none)
      | some s ↦ (false, some s)
    ]
    else (true, some there)
