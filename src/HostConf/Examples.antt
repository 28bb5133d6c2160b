-- ===== src/HostConf/Examples.antt =====
-- A daemon with all variables set, and one without the prefix on a fresh host.
use meshnet_cni.Prelude.{
  ℕ, Option, if◌then◌else◌, ◌*◌, ◌==◌, nat_eq, arith, ◌≡◌, refl, true, none, some, List, [], ◌∷◌,
  ◌++◌,
}
use meshnet_cni.Protocol.Names.{codes}
use meshnet_cni.HostConf.{
  Text, Host, Env, Disk, init, is_space, lookup_datapath_iface_prefix, lookup_inter_node_link_type,
  read_default_link_mtu, resolve_inter_node_link_type, trim_space, positive, without_plus,
}
use meshnet_cni.HostConf.Propagation.{stored, seen_mtu, init_propagates}
use meshnet_cni.HostConf.Load.{ConfList, ConfFile, ConfRound, load_conf_list}
use meshnet_cni.HostConf.Load.First.{Ticks}

abbrev fresh : Host
fresh = record { link_type = none; iface_prefix = none; link_mtu = none; conflist = none }

abbrev writable : Disk
writable = record { link_type = true; iface_prefix = true; link_mtu = true; conflist = true }

abbrev all_variables : Env
all_variables = record {
  inter_node_link_type = codes " VXLAN";
  iface_prefix = some (codes "eno ");
  link_mtu = some (codes "9300");
}

abbrev base : List Text
base = codes "azure-vnet" ∷ []

init_succeeds : (init writable all_variables (some base) fresh).0 ≡ true
unfolding init
init_succeeds = refl

mtu_is_seen : seen_mtu (some (codes "9300")) ≡ some 9300
unfolding trim_space is_space positive without_plus
mtu_is_seen = refl

init_propagates_example :
    let h' = (init writable all_variables (some base) fresh).1 in
    (lookup_inter_node_link_type h' ≡ resolve_inter_node_link_type (codes " VXLAN"))
    × (lookup_datapath_iface_prefix h' ≡ stored (some (codes "eno ")))
    × (read_default_link_mtu h' ≡ seen_mtu (some (codes "9300")))
    × (h'.conflist ≡ some (base ++ codes "meshnet" ∷ []))
init_propagates_example = init_propagates writable all_variables base fresh init_succeeds

-- The daemon's own list, a network without a type, and the base list, in the order of their names.
abbrev file_named : Text → Option ConfList → Option Text → ConfFile
file_named name l t = record { name = name; as_list = l; network_type = t; from_network = none }

abbrev base_list : ConfList
base_list = record { plugins = base; unmarshals = true }

abbrev directory : List ConfFile
directory =
    file_named (codes "/etc/cni/net.d/00-meshnet.conflist") (some base_list) none
    ∷ file_named (codes "/etc/cni/net.d/05-old.conf") none (some [])
    ∷ file_named (codes "/etc/cni/net.d/10-azure.conflist") (some base_list) none
    ∷ []

loads_base : load_conf_list (λ l. l) (some directory) ≡ some base
unfolding load_conf_list
loads_base = refl

-- The directory has its files in the third round.
abbrev third_round : ℕ → ConfRound
third_round i = record { files = if i == 2 then some directory else none; now = i * 2000000000 }

third_round-Ticks : Ticks 0 third_round
third_round-Ticks = (omega arith, λ i. omega arith)
