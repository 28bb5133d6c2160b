-- ===== src/LinkState.antt =====
-- The carrier of a link, passed on between two daemons: the registry of VXLAN links of
-- daemon/vxlan/link_map.go and carrier.go, the notices of daemon/grpcwire/carrier.go, and the
-- handlers of daemon/meshnet/handler.go that take them. An int or int64 is its 64-bit pattern. A
-- request that is registered is not nil.
pub mod Registration
pub mod Mirror
pub mod Watch
mod Examples
use meshnet_cni.Prelude.{
  ℕ, ◌+◌, ◌-◌, ◌%◌, ◌^◌, Bool, true, false, not, String, Option, none, some, List, [], ◌∷◌, ◌==◌,
  if◌then◌else◌, nat_eq, string_eq, pair_eq,
}
use meshnet_cni.Prelude.Assoc.{Assoc, lookup, insert, delete}
use meshnet_cni.Carrier.{suppress_echo}
use meshnet_cni.Wire.{Daemon, GrpcWire, wire_by_if_index}

abbrev pub base_vni : ℕ
base_vni = 5000

pub record Link : Type 0 where
  pub uid : ℕ
  pub kube_ns : String
  pub local_net_ns : String
  pub local_intf_name : String
  pub peer_node_ip : String

abbrev pub Links : Type 0
Links = Assoc (String × ℕ) Link

-- The fields of the requests that the daemon reads here.
pub record RemotePod : Type 0 where
  pub net_ns : String
  pub intf_name : String
  pub peer_vtep : String
  pub vni : ℕ
  pub kube_ns : String

pub record VxlanLinkDef : Type 0 where
  pub link_uid : ℕ
  pub net_ns : String
  pub intf_name : String
  pub peer_node_ip : String
  pub kube_ns : String

pub record WireLinkState : Type 0 where
  pub link_uid : ℕ
  pub local_pod_net_ns : String
  pub up : Bool
  pub peer_iface_id : ℕ

unfoldable pub register_link : Link → Links → Links
register_link l m = insert (l.kube_ns, l.uid) l m

unfoldable pub unregister_link : String → ℕ → Links → Links
unregister_link ns uid m = delete (ns, uid) m

unfoldable pub get_link : String → ℕ → Links → Option Link
get_link ns uid m = lookup (ns, uid) m

unfoldable pub get_link_by_uid : ℕ → Links → Option Link
get_link_by_uid uid [] = none
get_link_by_uid uid ((k, l) ∷ m) = if l.uid == uid then some l else get_link_by_uid uid m

-- int(v.Vni) - BaseVNI, which wraps around.
unfoldable pub uid_of_vni : ℕ → ℕ
uid_of_vni vni = (vni + (2 ^ 64 - base_vni)) % 2 ^ 64

-- link.Uid + vxlanBase, which the plugin sends: plugin/meshnet.go.
unfoldable pub vni_of_uid : ℕ → ℕ
vni_of_uid uid = (uid + 5000) % 2 ^ 64

unfoldable pub register_from_remote_pod : RemotePod → Links → Links
unfolding register_link uid_of_vni
register_from_remote_pod v m =
    register_link
      (record {
        uid = uid_of_vni v.vni;
        kube_ns = v.kube_ns;
        local_net_ns = v.net_ns;
        local_intf_name = v.intf_name;
        peer_node_ip = v.peer_vtep;
      })
      m

unfoldable pub register_from_def : VxlanLinkDef → Links → Links
unfolding register_link
register_from_def d m =
    register_link
      (record {
        uid = d.link_uid;
        kube_ns = d.kube_ns;
        local_net_ns = d.net_ns;
        local_intf_name = d.intf_name;
        peer_node_ip = d.peer_node_ip;
      })
      m

-- Update, with the outcome of CreateOrUpdate: whether it succeeded, and the links.
unfoldable pub update : Bool → RemotePod → Links → Bool × Links
unfolding register_from_remote_pod
update false pod m = (false, m)
update true pod m = (true, register_from_remote_pod pod m)

-- UnregisterVxlanLink
unfoldable pub unregister_vxlan_link : Option VxlanLinkDef → Links → Links
unfolding unregister_link
unregister_vxlan_link none m = m
unregister_vxlan_link (some d) m = unregister_link d.kube_ns d.link_uid m

-- propagateEdge of daemon/vxlan/carrier.go: whom it notifies, and of what.
unfoldable pub propagate_link_edge : ℕ → Bool → Links → Option (String × WireLinkState)
unfolding get_link_by_uid
propagate_link_edge uid up m = elim (get_link_by_uid uid m) [
  | none ↦ none
  | some l ↦ some (
    l.peer_node_ip,
    record { link_uid = l.uid; local_pod_net_ns = ""; up = up; peer_iface_id = 0 },
  )
]

-- propagateEdge and notifyPeerLinkState of daemon/grpcwire/carrier.go.
unfoldable pub notify_peer_link_state : GrpcWire → Bool → String × WireLinkState
notify_peer_link_state w up = (
  w.peer_node_ip,
  record {
    link_uid = w.uid;
    local_pod_net_ns = w.local_pod_net_ns;
    up = up;
    peer_iface_id = w.wire_iface_id_on_peer_node;
  },
)

unfoldable pub propagate_wire_edge : ℕ → Bool → Daemon → Option (String × WireLinkState)
unfolding notify_peer_link_state
propagate_wire_edge id up s = elim (wire_by_if_index id s.wires) [
  | none ↦ none
  | some w ↦ some (notify_peer_link_state w up)
]

-- What the kernel does: whether the interface is found, and whether setting it succeeds.
pub record Kernel : Type 0 where
  pub found : Bool
  pub sets : Bool

-- The interface that is set, if any.
pub data Target : Type 0 where
  host_end : ℕ → Bool → Target
  pod_end : Link → Bool → Target

pub record Mirrored : Type 0 where
  pub target : Option Target
  pub failed : Bool
  pub echo : Assoc ℕ Bool

unfoldable pub set_local_veth_state : Kernel → ℕ → Bool → Daemon → Assoc ℕ Bool → Mirrored
set_local_veth_state kernel id up s t = elim (wire_by_if_index id s.wires) [
  | none ↦ record { target = none; failed = false; echo = t }
  | some w ↦
      if kernel.found
      then record {
        target = some (host_end id up);
        failed = not kernel.sets;
        echo = suppress_echo id up t;
      }
      else record { target = none; failed = true; echo = t }
]

unfoldable pub set_local_link_state : Kernel → ℕ → Bool → Links → Assoc ℕ Bool → Mirrored
set_local_link_state kernel uid up m t = elim (get_link_by_uid uid m) [
  | none ↦ record { target = none; failed = false; echo = t }
  | some l ↦ record {
    target = if kernel.found then some (pod_end l up) else none;
    failed = not (if kernel.found then kernel.sets else false);
    echo = suppress_echo uid up t;
  }
]

-- SetPeerLinkState
unfoldable pub set_peer_link_state :
    Bool → Kernel → WireLinkState → Daemon → Links → Assoc ℕ Bool → Mirrored
unfolding set_local_veth_state set_local_link_state
set_peer_link_state false kernel n s m t = record { target = none; failed = false; echo = t }
set_peer_link_state true kernel n s m t =
    let by_uid = set_local_link_state kernel n.link_uid n.up m t in
    if n.peer_iface_id == 0 then by_uid else elim (wire_by_if_index n.peer_iface_id s.wires) [
      | none ↦ by_uid
      | some w ↦ set_local_veth_state kernel n.peer_iface_id n.up s t
    ]
