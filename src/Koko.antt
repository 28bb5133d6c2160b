-- ===== src/Koko.antt =====
-- internal/koko/koko.go: what is asked of the kernel to make a pair of interfaces, a VXLAN or a
-- macvlan interface, and to put it into a pod. Whether each call of netlink succeeds is an argument;
-- the calls are listed in order.
pub mod Mtu
pub mod Cleanup
mod Examples
use meshnet_cni.Prelude.{
  ℕ, ◌-◌, Bool, true, false, ◌&&◌, ◌||◌, not, String, Option, none, some, List, [], ◌∷◌, ◌++◌, ltb,
  leb, ◌==◌, nat_eq, string_eq, if◌then◌else◌,
}
use meshnet_cni.Protocol.Names.{codes}

-- An address: its text, and whether To4 is not nil.
pub record Addr : Type 0 where
  pub text : String
  pub is_v4 : Bool

pub record VEth : Type 0 where
  pub ns_name : String
  pub link_name : String
  pub ip_addr : List Addr
  pub mtu : ℕ

pub record VxLan : Type 0 where
  pub parent_if : String
  pub id : ℕ
  pub ip_addr : String
  pub mtu : ℕ
  pub udp_port : ℕ

pub data Act : Type 0 where
  adds_veth : (name peer : String) (mtu : ℕ) → Act
  adds_vxlan : (name : String) (vxlan : VxLan) (mtu : ℕ) (port : ℕ) → Act
  adds_macvlan : (name parent : String) → Act
  moves : (name ns : String) → Act
  renames : (name to : String) → Act
  enables_ipv6 : String → Act
  adds_addr : (name addr : String) → Act
  sets_down sets_up : String → Act
  deletes : String → Act

-- The acts, and whether there is no error.
abbrev pub Run : Type 0
Run = List Act × Bool

-- An act, and what follows if it succeeds.
abbrev pub ask : Act → Bool → Run → Run
ask a false rest = (a ∷ [], false)
ask a true rest = (a ∷ rest.0, rest.1)

abbrev pub done : Run
done = ([], true)

abbrev pub error : Run
error = ([], false)

-- What is left of a text after a prefix.
unfoldable pub after_prefix : (prefix text : List ℕ) → Option (List ℕ)
after_prefix [] l = some l
after_prefix (p ∷ prefix) [] = none
after_prefix (p ∷ prefix) (c ∷ l) =
    let rest = after_prefix prefix l in if p == c then rest else none

unfoldable pub all_digits : List ℕ → Bool
all_digits [] = true
all_digits (c ∷ l) = leb 48 c && leb c 57 && all_digits l

unfoldable pub is_suffix : Option (List ℕ) → Bool
unfolding all_digits
is_suffix none = false
is_suffix (some []) = false
is_suffix (some (c ∷ l)) = all_digits (c ∷ l)

-- isDatapathIface
unfoldable pub is_datapath_iface : (name prefix : List ℕ) → Bool
unfolding after_prefix is_suffix
is_datapath_iface name [] = false
is_datapath_iface name (p ∷ prefix) = is_suffix (after_prefix (p ∷ prefix) name)

-- shouldLeaveAdminDown; the prefix of the host file, if it is configured.
unfoldable pub should_leave_admin_down : Option (List ℕ) → String → Bool
unfolding is_datapath_iface
should_leave_admin_down none name = false
should_leave_admin_down (some []) name = true
should_leave_admin_down (some (p ∷ prefix)) name = is_datapath_iface (codes name) (p ∷ prefix)

-- The answers to the calls of SetVethLink; `addr_added` and `ipv6_enabled` are for each address.
pub record SetAnswers : Type 0 where
  pub ns_opened : Bool
  pub fd_fits : Bool
  pub moved : Bool
  pub looked_up : Bool
  pub renamed : Bool
  pub ipv6_enabled : Addr → Bool
  pub addr_added : Addr → Bool
  pub state_set : Bool

-- The last step: the interface is set down or up.
unfoldable pub set_state : Option (List ℕ) → String → Bool → Run
unfolding should_leave_admin_down
set_state prefix name ok =
    if should_leave_admin_down prefix name
    then ask (sets_down name) ok done
    else ask (sets_up name) ok done

-- The loop over the addresses.
unfoldable pub add_addrs : String → SetAnswers → List Addr → Run → Run
add_addrs name a [] rest = rest
add_addrs name a (addr ∷ l) rest =
    let add = ask (adds_addr name addr.text) (a.addr_added addr) (add_addrs name a l rest) in
    if addr.is_v4 then add else ask (enables_ipv6 name) (a.ipv6_enabled addr) add

-- VEth.SetVethLink, of the link that is named `link`.
unfoldable pub set_veth_link : Option (List ℕ) → VEth → String → SetAnswers → Run
unfolding set_state add_addrs
set_veth_link prefix veth link a =
    let finish =
      add_addrs veth.link_name a veth.ip_addr (set_state prefix veth.link_name a.state_set) in
    if not a.ns_opened || not a.fd_fits
    then error
    else ask (moves link veth.ns_name) a.moved (
        if not a.looked_up
        then error
        else if veth.link_name == link
        then finish
        else ask (renames link veth.link_name) a.renamed finish)

-- The link is deleted if an end could not be set; the error stays.
abbrev pub or_delete : String → Run → Run → Run
or_delete link (acts, false) rest = (acts ++ deletes link ∷ [], false)
or_delete link (acts, true) rest = (acts ++ rest.0, rest.1)

-- The name that an interface has until it is in its namespace.
unfoldable pub temp_name : VEth → String → String
temp_name veth random = if veth.ns_name == "" then veth.link_name else random

abbrev pub default_mtu : ℕ
default_mtu = 1500

-- The MTU of linkMTU, which is not negative.
unfoldable pub pair_mtu : ℕ → ℕ
pair_mtu mtu = if mtu == 0 then default_mtu else mtu

-- MakeVeth with GetVethPair; `added` is LinkAdd and `found` the lookup of the second link.
unfoldable pub make_veth_pair :
    Option (List ℕ)
    → (one two : VEth) → (random_one random_two : String) → (added found : Bool)
    → (a_one a_two : SetAnswers) → Run
unfolding temp_name pair_mtu set_veth_link
make_veth_pair prefix one two random_one random_two added found a_one a_two =
    let first = temp_name one random_one in
    let second = temp_name two random_two in
    ask (adds_veth first second (pair_mtu one.mtu)) added (
      if not found
      then error
      else or_delete first (set_veth_link prefix one first a_one)
          (or_delete second (set_veth_link prefix two second a_two) done))

abbrev pub vxlan_ipv4_overhead : ℕ
vxlan_ipv4_overhead = 50

-- The MTU of a VXLAN interface over a parent, of an MTU from linkMTU; 0 leaves it to the kernel. The
-- MTU of a parent below the overhead is not used, so that the subtraction may stop at 0.
unfoldable pub vxlan_mtu : (mtu parent_mtu : ℕ) → ℕ
vxlan_mtu mtu parent_mtu =
    let max_mtu = parent_mtu - vxlan_ipv4_overhead in
    let chosen = if mtu == 0 && ltb 0 max_mtu then max_mtu else mtu in
    if ltb 0 max_mtu && ltb max_mtu chosen then max_mtu else chosen

unfoldable pub udp_port_of : VxLan → ℕ
udp_port_of v = if v.udp_port == 0 then 4789 else v.udp_port

-- AddVxLanInterface, over the MTU of the parent if it is there.
unfoldable pub add_vx_lan_interface : VxLan → String → Option ℕ → Bool → Run
unfolding vxlan_mtu udp_port_of
add_vx_lan_interface v name none added = error
add_vx_lan_interface v name (some parent_mtu) added =
    ask (adds_vxlan name v (vxlan_mtu v.mtu parent_mtu) (udp_port_of v)) added done

-- A run, and what follows it if it has no error.
abbrev pub and_then : Run → Run → Run
and_then (acts, false) rest = (acts, false)
and_then (acts, true) rest = (acts ++ rest.0, rest.1)

-- MakeVxLan
unfoldable pub make_vx_lan :
    Option (List ℕ) → VEth → VxLan → String → Option ℕ → (added found : Bool) → SetAnswers → Run
unfolding add_vx_lan_interface set_veth_link
make_vx_lan prefix veth v random parent added found a =
    and_then (add_vx_lan_interface v random parent added)
      (if not found then error else or_delete random (set_veth_link prefix veth random a) done)

-- MakeMacVLan with AddMacVLanInterface.
unfoldable pub make_mac_vlan :
    Option (List ℕ) → VEth → String → (parent_found added found : Bool) → SetAnswers → Run
unfolding set_veth_link
make_mac_vlan prefix veth parent parent_found added found a =
    if not parent_found
    then error
    else ask (adds_macvlan veth.link_name parent) added
        (if not found then error else set_veth_link prefix veth veth.link_name a)

-- VEth.RemoveVethLink
unfoldable pub remove_veth_link : VEth → (ns_opened found deleted : Bool) → Run
remove_veth_link veth ns_opened found deleted =
    if ns_opened && found then ask (deletes veth.link_name) deleted done else error
