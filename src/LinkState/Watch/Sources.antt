-- ===== src/LinkState/Watch/Sources.antt =====
-- The order in which the sources of a wire's carrier are asked.
use meshnet_cni.Prelude.{
  ℕ, ◌≡◌, refl, Bool, ◌||◌, String, Option, none, some, List, [], ◌∷◌, ◌++◌, ◌==◌, if◌then◌else◌,
  nat_eq, string_eq, arith,
}
use meshnet_cni.Carrier.Reading.{
  Netlink, oper_up_on_host, oper_up_on_host_by_name, oper_up_in_pod_net_ns,
}
use meshnet_cni.Wire.{GrpcWire}
use meshnet_cni.LinkState.Watch.{
  carrier_watch_iface, or_else, in_pod_oper_up, wire_datapath_oper_up,
}

-- Where the carrier of a wire can be read: by the interface's index or name on the host, or by a
-- name in a namespace.
pub data Source : Type 0 where
  host_index : ℕ → Source
  host_name : String → Source
  pod_name : (path name : String) → Source

abbrev pub read : Netlink → Source → Option Bool
read nl (host_index i) = oper_up_on_host nl i
read nl (host_name n) = oper_up_on_host_by_name nl n
read nl (pod_name p n) = oper_up_in_pod_net_ns nl p n

-- The sources of a wire: its host interface by a nonzero index and by its name, where it has one;
-- then in the namespace of the pod the host interface's name, or the pod interface's if that has
-- none; and the pod interface's name, if it has one and that was not asked for yet.
abbrev pub sources : GrpcWire → List Source
sources w =
    (if w.local_node_iface_id == 0 then [] else host_index w.local_node_iface_id ∷ [])
    ++ (if w.local_node_iface_name == ""
        then pod_name w.local_pod_net_ns w.local_pod_iface_name ∷ []
        else host_name w.local_node_iface_name
          ∷ pod_name w.local_pod_net_ns w.local_node_iface_name
          ∷ (if (w.local_node_iface_name == w.local_pod_iface_name)
                || (w.local_pod_iface_name == "")
              then []
              else pod_name w.local_pod_net_ns w.local_pod_iface_name ∷ []))

-- The answer of the first source that has one.
abbrev pub first_answer : Netlink → List Source → Option Bool
first_answer nl [] = none
first_answer nl (x ∷ xs) = or_else (read nl x) (first_answer nl xs)

or_else_self : (o : Option Bool) → or_else o o ≡ o
or_else_self none = refl
or_else_self (some b) = refl

or_else-none : (o : Option Bool) → or_else o none ≡ o
or_else-none none = refl
or_else-none (some b) = refl

-- wireDatapathOperUp answers what the first of the wire's sources answers that can be read, and an
-- error exactly if none of them can be.
pub wire_datapath_oper_up-first_answer :
    (nl : Netlink) (w : GrpcWire) → wire_datapath_oper_up nl w ≡ first_answer nl (sources w)
unfolding wire_datapath_oper_up in_pod_oper_up carrier_watch_iface
wire_datapath_oper_up-first_answer nl w =
    let pod = oper_up_in_pod_net_ns nl w.local_pod_net_ns in
    ground (
      arith,
      or_else_self (pod w.local_node_iface_name),
      or_else_self (pod w.local_pod_iface_name),
      or_else-none (pod w.local_node_iface_name),
      or_else-none (pod w.local_pod_iface_name),
    )
