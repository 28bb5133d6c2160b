-- ===== src/Carrier/Reading.antt =====
-- Reading the operational state of an interface: OperUp of internal/carrierprop/carrierprop.go and
-- internal/carrierprop/netns.go. What netlink and the network namespaces answer is an argument.
use meshnet_cni.Prelude.{
  ℕ, ◌/◌, ◌%◌, Bool, true, false, String, Option, none, some, ◌==◌, nat_eq, if◌then◌else◌,
}

-- The attributes of a link; `oper_is_up` says that OperState is netlink.OperUp.
pub record Attrs : Type 0 where
  pub raw_flags : ℕ
  pub flags : ℕ
  pub oper_is_up : Bool

-- A link, without attributes if Attrs answers nil.
abbrev pub NetLink : Type 0
NetLink = Option Attrs

-- A lookup that fails answers none. A namespace that opens has a handle, if one can be made.
pub record Netlink : Type 0 where
  pub by_index : ℕ → Option NetLink
  pub by_name : String → Option NetLink
  pub net_ns : String → Option (Option (String → Option NetLink))

-- flags & 0x40 != 0
abbrev pub is_running : ℕ → Bool
is_running flags = (flags / 64) % 2 == 1

-- OperUp
unfoldable pub oper_up : NetLink → Bool
oper_up none = false
oper_up (some a) =
    if is_running a.raw_flags then true else if is_running a.flags then true else a.oper_is_up

-- The state of a link that is found, or an error.
abbrev pub of_found : Option NetLink → Option Bool
of_found none = none
of_found (some l) = some (oper_up l)

unfoldable pub oper_up_on_host : Netlink → ℕ → Option Bool
unfolding oper_up
oper_up_on_host nl ifindex = of_found (nl.by_index ifindex)

unfoldable pub oper_up_on_host_by_name : Netlink → String → Option Bool
unfolding oper_up
oper_up_on_host_by_name nl name = of_found (nl.by_name name)

-- The lookup through the handle of a namespace.
unfoldable pub in_handle : String → Option (Option (String → Option NetLink)) → Option Bool
unfolding oper_up
in_handle name none = none
in_handle name (some none) = none
in_handle name (some (some by_name)) = of_found (by_name name)

unfoldable pub oper_up_in_pod_net_ns : Netlink → String → String → Option Bool
unfolding in_handle
oper_up_in_pod_net_ns nl path iface = in_handle iface (nl.net_ns path)
