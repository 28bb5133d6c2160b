-- ===== src/LinkState/Watch/Examples.antt =====
-- A node whose host interface is up but not found by its index, and a pod that was moved.
use meshnet_cni.Prelude.{
  ◌≡◌, refl, true, false, none, some, [], ◌==◌, string_eq, nat_eq, pair_eq, if◌then◌else◌,
}
use meshnet_cni.Prelude.Assoc.{lookup, insert}
use meshnet_cni.Carrier.Reading.{Netlink, oper_up_on_host, oper_up_on_host_by_name}
use meshnet_cni.Wire.{add_in_mem, wire_by_if_index}
use meshnet_cni.LinkState.{WireLinkState, host_end, set_peer_link_state}
use meshnet_cni.LinkState.Examples.{wire_of, here, there, works}
use meshnet_cni.LinkState.Watch.{wire_datapath_oper_up, reassert_wires}
use meshnet_cni.LinkState.Watch.Sources.{sources, first_answer, wire_datapath_oper_up-first_answer}
use meshnet_cni.LinkState.Watch.Reassert.{Occurs, reassert_crosses}

-- Interface 41 is not found; its name is, with its carrier lost.
abbrev nl : Netlink
nl = record {
  by_index = λ i. none;
  by_name = λ n.
      if n == "r1eth1-0001"
      then some (some (record { raw_flags = 1; flags = 1; oper_is_up = false }))
      else none;
  net_ns = λ p. none;
}

wire_datapath_oper_up-first_answer_example :
    wire_datapath_oper_up nl (wire_of 41 52 "10.0.0.2")
    ≡ first_answer nl (sources (wire_of 41 52 "10.0.0.2"))
wire_datapath_oper_up-first_answer_example =
    wire_datapath_oper_up-first_answer nl (wire_of 41 52 "10.0.0.2")

reads_lost_carrier : wire_datapath_oper_up nl (wire_of 41 52 "10.0.0.2") ≡ some false
unfolding wire_datapath_oper_up oper_up_on_host oper_up_on_host_by_name
reads_lost_carrier = refl

reassert_crosses_example :
    (n : WireLinkState) × Occurs ("10.0.0.2", n) (reassert_wires true nl here)
    × ((set_peer_link_state true works n there [] []).target ≡ some (host_end 52 false))
    × ((set_peer_link_state true works n there [] []).failed ≡ false)
unfolding add_in_mem wire_by_if_index insert lookup
reassert_crosses_example =
    reassert_crosses ("/run/netns/r1", 1) nl false here there (wire_of 41 52 "10.0.0.2")
      (wire_of 52 41 "10.0.0.1") works [] [] refl reads_lost_carrier refl refl refl
