-- ===== src/HostConf.antt =====
-- The files on the host through which the daemon sets up the plugin: daemon/cni/cni.go,
-- internal/cniconf/cniconf.go and ResolveInterNodeLinkType of utils/wireutil/wire-util.go. A text is the
-- list of its character codes. What libcni makes of a configuration file, and whether a file can be
-- written, are arguments.
pub mod Trim
pub mod Propagation
pub mod Load
mod Examples
use meshnet_cni.Prelude.{
  ℕ, ◌+◌, ◌*◌, ◌-◌, ◌^◌, Bool, true, false, ◌&&◌, ◌||◌, not, Option, none, some, List, [], ◌∷◌,
  ◌++◌, ltb, leb, ◌==◌, nat_eq, if◌then◌else◌, filter, map,
}
use meshnet_cni.Protocol.Names.{codes}
use meshnet_cni.Plugin.{LinkType, grpc, vxlan}

abbrev pub Text : Type 0
Text = List ℕ

-- The spaces of strings.TrimSpace.
unfoldable pub is_space : ℕ → Bool
is_space c =
    (leb 9 c && leb c 13)
    || c == 32
    || c == 133
    || c == 160
    || c == 5760
    || (leb 8192 c && leb c 8202)
    || c == 8232
    || c == 8233
    || c == 8239
    || c == 8287
    || c == 12288

unfoldable pub trim_left : Text → Text
trim_left [] = []
trim_left (c ∷ l) = let rest = trim_left l in if is_space c then rest else c ∷ l

-- A space is cut if nothing is left behind it.
abbrev pub keep_or_cut : Bool → ℕ → Text → Text
keep_or_cut true c [] = []
keep_or_cut false c [] = c ∷ []
keep_or_cut space c (d ∷ l) = c ∷ d ∷ l

unfoldable pub trim_right : Text → Text
trim_right [] = []
trim_right (c ∷ l) = keep_or_cut (is_space c) c (trim_right l)

-- strings.TrimSpace
unfoldable pub trim_space : Text → Text
unfolding trim_left trim_right
trim_space l = trim_right (trim_left l)

unfoldable pub equals : Text → Text → Bool
equals [] [] = true
equals [] (d ∷ m) = false
equals (c ∷ l) [] = false
equals (c ∷ l) (d ∷ m) = c == d && equals l m

abbrev pub link_vxlan : Text
link_vxlan = codes "VXLAN"

abbrev pub link_grpc : Text
link_grpc = codes "GRPC"

-- ResolveInterNodeLinkType
unfoldable pub resolve_inter_node_link_type : Text → Text
unfolding trim_space equals
resolve_inter_node_link_type value =
    if equals (trim_space value) link_vxlan then link_vxlan else link_grpc

-- The files that are written for the plugin, and the plugins of the configuration list.
pub record Host : Type 0 where
  pub link_type : Option Text
  pub iface_prefix : Option Text
  pub link_mtu : Option Text
  pub conflist : Option (List Text)

-- The environment of the daemon; os.Getenv gives the empty text for a variable that is not set.
pub record Env : Type 0 where
  pub inter_node_link_type : Text
  pub iface_prefix : Option Text
  pub link_mtu : Option Text

-- Which of the files can be written, and removed if they are there.
pub record Disk : Type 0 where
  pub link_type : Bool
  pub iface_prefix : Bool
  pub link_mtu : Bool
  pub conflist : Bool

-- os.WriteFile; the content that was there stays if it fails.
abbrev pub write_file : Bool → Text → Option Text → Bool × Option Text
write_file true text old = (true, some text)
write_file false text old = (false, old)

-- os.Remove, which fails for a file that is not there.
abbrev pub remove_file : Bool → Option Text → Bool × Option Text
remove_file ok none = (false, none)
remove_file false (some old) = (false, some old)
remove_file true (some old) = (true, none)

-- saveInterNodeLinkConf
unfoldable pub save_inter_node_link_conf : Disk → Env → Host → Bool × Host
unfolding resolve_inter_node_link_type
save_inter_node_link_conf disk env h =
    let (ok, file) =
      write_file disk.link_type (resolve_inter_node_link_type env.inter_node_link_type)
        h.link_type in
    (ok, record h { link_type = file })

-- The value of a variable is written, and without the variable the file is removed.
unfoldable pub save_or_remove : Bool → Option Text → Option Text → Bool × Option Text
unfolding trim_space
save_or_remove ok none old = remove_file ok old
save_or_remove ok (some value) old = write_file ok (trim_space value) old

-- saveDatapathIfacePrefixConf
unfoldable pub save_datapath_iface_prefix_conf : Disk → Env → Host → Bool × Host
unfolding save_or_remove
save_datapath_iface_prefix_conf disk env h =
    let (ok, file) = save_or_remove disk.iface_prefix env.iface_prefix h.iface_prefix in
    (ok, record h { iface_prefix = file })

-- saveDefaultLinkMTUConf
unfoldable pub save_default_link_mtu_conf : Disk → Env → Host → Bool × Host
unfolding save_or_remove
save_default_link_mtu_conf disk env h =
    let (ok, file) = save_or_remove disk.link_mtu env.link_mtu h.link_mtu in
    (ok, record h { link_mtu = file })

-- saveConfList, of the plugins; the rest of the list is written as it was read.
unfoldable pub save_conf_list : Disk → List Text → Host → Bool × Host
save_conf_list disk plugins h =
    if disk.conflist then (true, record h { conflist = some plugins }) else (false, h)

-- A step that is taken if the one before it has not failed.
abbrev pub then_save : Bool × Host → (Host → Bool × Host) → Bool × Host
then_save (false, h) next = (false, h)
then_save (true, h) next = next h

-- Init, from the plugins of the list that loadConfList has found.
unfoldable pub init : Disk → Env → Option (List Text) → Host → Bool × Host
unfolding save_inter_node_link_conf save_datapath_iface_prefix_conf save_default_link_mtu_conf
    save_conf_list
init disk env none h = (false, h)
init disk env (some plugins) h =
    then_save
      (then_save
        (then_save (save_inter_node_link_conf disk env h)
          (save_datapath_iface_prefix_conf disk env))
        (save_default_link_mtu_conf disk env))
      (save_conf_list disk (plugins ++ codes "meshnet" ∷ []))

-- LookupDatapathIfacePrefix
unfoldable pub lookup_datapath_iface_prefix : Host → Option Text
lookup_datapath_iface_prefix h = elim h.iface_prefix [ none ↦ none | some b ↦ some (trim_space b) ]

-- The digits of strconv.Atoi.
unfoldable pub atoi : ℕ → Text → Option ℕ
atoi n [] = some n
atoi n (c ∷ l) =
    let rest = atoi (n * 10 + (c - 48)) l in if leb 48 c && leb c 57 then rest else none

-- A plus sign is skipped; after a minus sign no number is positive.
unfoldable pub without_plus : Text → Text
without_plus [] = []
without_plus (c ∷ l) = if c == 43 then l else c ∷ l

-- An int above 0 that strconv.Atoi reads.
unfoldable pub positive : Text → Option ℕ
unfolding atoi
positive [] = none
positive (c ∷ l) = elim (atoi 0 (c ∷ l)) [
  | none ↦ none
  | some v ↦ if ltb 0 v && ltb v (2 ^ 63) then some v else none
]

-- ReadDefaultLinkMTU
unfoldable pub read_default_link_mtu : Host → Option ℕ
unfolding positive without_plus
read_default_link_mtu h = elim h.link_mtu [
  | none ↦ none
  | some b ↦ positive (without_plus (trim_space b))
]

-- LookupInterNodeLinkType
unfoldable pub lookup_inter_node_link_type : Host → Text
lookup_inter_node_link_type h = elim h.link_type [
  | none ↦ link_grpc
  | some b ↦ resolve_inter_node_link_type b
]
