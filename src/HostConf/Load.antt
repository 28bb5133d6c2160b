-- ===== src/HostConf/Load.antt =====
-- loadConfList, WaitForNetConfig and Cleanup of daemon/cni/cni.go: the base configuration that meshnet
-- chains onto. What libcni reads in a file is an argument, and so is the order of sort.Strings.
pub mod First
use meshnet_cni.Prelude.{
  ℕ, zero, suc, ◌+◌, ◌*◌, Bool, true, false, ◌&&◌, ◌||◌, not, Option, none, some, List, [], ◌∷◌,
  ltb, ◌==◌, nat_eq, if◌then◌else◌, filter,
}
use meshnet_cni.Protocol.Names.{codes}
use meshnet_cni.HostConf.{Text, equals, Host, Disk, remove_file}

-- A list of plugins, and whether its bytes unmarshal.
pub record ConfList : Type 0 where
  pub plugins : List Text
  pub unmarshals : Bool

-- What libcni makes of a file: a list, or one network with its type, which then is made a list.
pub record ConfFile : Type 0 where
  pub name : Text
  pub as_list : Option ConfList
  pub network_type : Option Text
  pub from_network : Option ConfList

unfoldable pub starts_with : (prefix text : Text) → Bool
starts_with [] l = true
starts_with (p ∷ prefix) [] = false
starts_with (p ∷ prefix) (c ∷ l) = p == c && starts_with prefix l

-- strings.Contains
unfoldable pub contains : (sub text : Text) → Bool
unfolding starts_with
contains sub [] = starts_with sub []
contains sub (c ∷ l) = starts_with sub (c ∷ l) || contains sub l

-- strings.HasSuffix
unfoldable pub has_suffix : (suffix text : Text) → Bool
unfolding equals
has_suffix suffix [] = equals [] suffix
has_suffix suffix (c ∷ l) = equals (c ∷ l) suffix || has_suffix suffix l

unfoldable pub is_meshnet : ConfFile → Bool
unfolding contains
is_meshnet f = contains (codes "meshnet") f.name

-- A network without a type is not taken.
abbrev pub network_list : Option Text → Option ConfList → Option ConfList
network_list none l = none
network_list (some []) l = none
network_list (some (c ∷ t)) l = l

-- A list without plugins is not taken.
abbrev pub unless_empty : List Text → ConfList → Option ConfList
unless_empty [] l = none
unless_empty (p ∷ rest) l = some l

abbrev pub with_plugins : Option ConfList → Option ConfList
with_plugins none = none
with_plugins (some l) = unless_empty l.plugins l

-- What the loop finds in a file, `none` if it goes on.
unfoldable pub read_file : ConfFile → Option ConfList
unfolding has_suffix
read_file f = with_plugins (
    if has_suffix (codes ".conflist") f.name
    then f.as_list
    else network_list f.network_type f.from_network)

-- The loop over the files.
unfoldable pub first_valid : List ConfFile → Option ConfList
unfolding read_file
first_valid [] = none
first_valid (f ∷ l) = elim (read_file f) [ none ↦ first_valid l | some c ↦ some c ]

-- The list that was found, if it unmarshals.
abbrev pub unmarshalled : Option ConfList → Option (List Text)
unmarshalled none = none
unmarshalled (some c) = if c.unmarshals then some c.plugins else none

-- loadConfList, over the files of the directory, `none` if they cannot be listed.
unfoldable pub load_conf_list :
    (List ConfFile → List ConfFile) → Option (List ConfFile) → Option (List Text)
unfolding first_valid is_meshnet
load_conf_list sort none = none
load_conf_list sort (some files) =
    unmarshalled (first_valid (sort (filter (λ f. not (is_meshnet f)) files)))

-- What a round of WaitForNetConfig finds: the files, and the time of its test of the deadline.
pub record ConfRound : Type 0 where
  pub files : Option (List ConfFile)
  pub now : ℕ

abbrev pub after_load : Option (List Text) → Bool → Option Bool → Option Bool
after_load (some plugins) late rest = some true
after_load none true rest = some false
after_load none false rest = rest

-- The loop of WaitForNetConfig: whether a configuration was found; `none` if the fuel ends.
unfoldable pub wait_for_conf :
    (List ConfFile → List ConfFile) → (ℕ → ConfRound) → ℕ → ℕ → ℕ → Option Bool
unfolding load_conf_list
wait_for_conf sort env deadline zero i = none
wait_for_conf sort env deadline (suc fuel) i =
    let rest = wait_for_conf sort env deadline fuel (suc i) in
    after_load (load_conf_list sort (env i).files) (ltb deadline (env i).now) rest

abbrev pub default_wait_timeout : ℕ
default_wait_timeout = 180 * 1000000000

abbrev pub default_wait_interval : ℕ
default_wait_interval = 2 * 1000000000

-- WaitForNetConfig with the daemon's timeout: the rounds that fit into it, the first, and the one that
-- finds it elapsed.
unfoldable pub wait_for_net_config :
    (List ConfFile → List ConfFile) → (ℕ → ConfRound) → ℕ → Option Bool
unfolding wait_for_conf
wait_for_net_config sort env t0 = wait_for_conf sort env (t0 + default_wait_timeout) 92 0

-- Cleanup: every file is removed; an error is only logged.
unfoldable pub cleanup : Disk → Host → Host
cleanup disk h = record {
  link_type = (remove_file disk.link_type h.link_type).1;
  iface_prefix = (remove_file disk.iface_prefix h.iface_prefix).1;
  link_mtu = (remove_file disk.link_mtu h.link_mtu).1;
  conflist = if disk.conflist then none else h.conflist;
}
