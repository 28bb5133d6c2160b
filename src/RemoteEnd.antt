-- ===== src/RemoteEnd.antt =====
-- How the remote end of a wire is made: CreateUpdateGRPCWireRemoteTriggered of
-- daemon/grpcwire/gwire_rpc_handlers.go from the name of the host interface to the packet handle, over
-- the check for leftovers of module Stale and the pair of interfaces of module Koko.
pub mod Created
mod Examples
use meshnet_cni.Prelude.{
  ℕ, Bool, true, false, ◌||◌, not, String, Option, none, some, List, [], ◌∷◌, ◌++◌, ◌==◌, string_eq,
  if◌then◌else◌,
}
use meshnet_cni.Wire.{Daemon, GrpcWire, WireDef, get_wire, make_chan}
use meshnet_cni.Wire.Steps.{add_grpc_wire_remote}
use meshnet_cni.Wire.IfName.{Name, gen_node_iface_name}
use meshnet_cni.DataStore.{Item}
use meshnet_cni.Protocol.Names.{codes}
use meshnet_cni.Stale.{LinkInfo, Verdict, ensure}
use meshnet_cni.Koko.{Addr, VEth, Act, Run, SetAnswers, deletes, make_veth_pair}

-- What the daemon meets: `text` is a name as a string, `current_ns` the path of its own namespace,
-- `parse_cidr` net.ParseCIDR; then what the check for leftovers sees, koko's calls, the index of an
-- interface by its name, and the handle that is opened.
pub record World : Type 0 where
  pub text : Name → String
  pub current_ns : Option String
  pub parse_cidr : String → Option Addr
  pub info : Option LinkInfo
  pub objects : Option (List (Option (List Item)))
  pub leftover_removed : Bool
  pub prefix : Option (List ℕ)
  pub random_in : String
  pub random_out : String
  pub added : Bool
  pub found : Bool
  pub set_in : SetAnswers
  pub set_out : SetAnswers
  pub index_of : String → Option ℕ
  pub handle : Option ℕ

-- What was asked of the kernel, and the index, the name and the handle of the host's end.
pub record Making : Type 0 where
  pub acts : List Act
  pub ended : Option (ℕ × String × ℕ)

abbrev pub fails_after : List Act → Making
fails_after acts = record { acts = acts; ended = none }

-- The address is optional.
unfoldable pub addrs_in : World → WireDef → Option (List Addr)
addrs_in x d =
    if d.local_pod_ip == ""
    then some []
    else elim (x.parse_cidr d.local_pod_ip) [ none ↦ none | some a ↦ some (a ∷ []) ]

-- The lookup of the host's end, and pcap.
unfoldable pub open_end : String → List Act → Option ℕ → Option ℕ → Making
open_end name acts none handle = fails_after acts
open_end name acts (some i) none = fails_after acts
open_end name acts (some i) (some h) = record { acts = acts; ended = some (i, name, h) }

-- After koko.MakeVeth, whose first end is the one in the pod.
unfoldable pub after_veth : World → String → List Act → Run → Making
unfolding open_end
after_veth x name before (acts, false) = fails_after (before ++ acts)
after_veth x name before (acts, true) = open_end name (before ++ acts) (x.index_of name) x.handle

-- From the check for leftovers on.
unfoldable pub make_pair : World → WireDef → VEth → VEth → Verdict → Making
unfolding after_veth make_veth_pair
make_pair x d inside outside v =
    let before = if v.removes then deletes inside.link_name ∷ [] else [] in
    if v.refuses
    then fails_after before
    else after_veth x outside.link_name before (
        make_veth_pair x.prefix inside outside x.random_in x.random_out x.added x.found x.set_in
          x.set_out)

-- The creation of the remote end; `mtu` is the field of the request.
unfoldable pub make_remote_end : World → WireDef → (mtu : ℕ) → Name → Daemon → Making
unfolding make_pair addrs_in ensure
make_remote_end x d mtu name s = elim x.current_ns [
  | none ↦ fails_after []
  | some ns ↦ elim (addrs_in x d) [
    | none ↦ fails_after []
    | some addrs ↦
        make_pair x d
          (record {
            ns_name = d.local_pod_net_ns;
            link_name = d.intf_name_in_pod;
            ip_addr = addrs;
            mtu = mtu;
          })
          (record { ns_name = ns; link_name = x.text name; ip_addr = []; mtu = 0 })
          (ensure x.info d s x.objects x.leftover_removed)
  ]
]

-- What AddGRPCWireRemote does: what was asked of the kernel, the response, the daemon, and the
-- counter of names, which only the creation of a wire reads.
pub record Added : Type 0 where
  pub acts : List Act
  pub response : Bool × ℕ
  pub daemon : Daemon
  pub counter : ℕ

-- AddGRPCWireRemote of daemon/meshnet/handler.go, over the daemon's counter of names.
unfoldable pub add_remote_end : World → WireDef → (mtu counter : ℕ) → Daemon → Added
unfolding make_remote_end add_grpc_wire_remote gen_node_iface_name
add_remote_end x d mtu counter s =
    let (name, counter') =
      gen_node_iface_name (codes d.local_pod_name) (codes d.intf_name_in_pod) counter in
    let making = make_remote_end x d mtu name s in
    let (response, s') = add_grpc_wire_remote making.ended d s in
    elim (get_wire d.local_pod_net_ns d.link_uid s) [
      | none ↦ record { acts = making.acts; response = response; daemon = s'; counter = counter' }
      | some w ↦ record { acts = []; response = response; daemon = s'; counter = counter }
    ]
