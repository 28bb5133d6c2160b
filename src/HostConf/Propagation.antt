-- ===== src/HostConf/Propagation.antt =====
-- What Init of daemon/cni/cni.go tells the plugin through the files of internal/cniconf.
use meshnet_cni.Prelude.{
  ℕ, ◌≡◌, refl, ap, ◌∙◌, inl, inr, Bool, true, false, Option, none, some, List, [], ◌∷◌, ◌++◌,
  Bool-cases,
}
use meshnet_cni.Protocol.Names.{codes}
use meshnet_cni.HostConf.{
  Text, Host, Env, Disk, write_file, save_or_remove, save_inter_node_link_conf,
  save_datapath_iface_prefix_conf, save_default_link_mtu_conf, save_conf_list, then_save, init,
  lookup_datapath_iface_prefix, lookup_inter_node_link_type, read_default_link_mtu,
  resolve_inter_node_link_type, trim_space, positive, without_plus,
}
use meshnet_cni.HostConf.Trim.{trim_space_idem, resolve_idem}

-- A variable as the file that is kept for it.
abbrev pub stored : Option Text → Option Text
stored none = none
stored (some value) = some (trim_space value)

saved_is_stored :
    (ok : Bool) (value old : Option Text)
    → (save_or_remove ok value old).0 ≡ true
    → (save_or_remove ok value old).1 ≡ stored value
unfolding save_or_remove
saved_is_stored ok none none e = cc
saved_is_stored true none (some old) e = refl
saved_is_stored false none (some old) e = cc
saved_is_stored true (some value) old e = refl
saved_is_stored false (some value) old e = cc

written :
    (ok : Bool) (text : Text) (old : Option Text)
    → (write_file ok text old).0 ≡ true
    → (write_file ok text old).1 ≡ some text
written true text old e = refl
written false text old e = cc

both_saved :
    (first : Bool × Host) (next : Host → Bool × Host)
    → (then_save first next).0 ≡ true
    → (first.0 ≡ true) × ((next first.1).0 ≡ true) × ((then_save first next).1 ≡ (next first.1).1)
both_saved (true, h) next e = (refl, e, refl)
both_saved (false, h) next e = cc

list_saved :
    (disk : Disk) (plugins : List Text) (h : Host)
    → (save_conf_list disk plugins h).0 ≡ true
    → (save_conf_list disk plugins h).1 ≡ record h { conflist = some plugins }
unfolding save_conf_list
list_saved disk plugins h e = elim (Bool-cases disk.conflist) [
  | inl ok ↦ rw (ok, save_conf_list) refl
  | inr bad ↦ let e' = rw (bad, save_conf_list) at e in cc
]

abbrev with_link_type : Option Text → Host → Host
with_link_type f h = record h { link_type = f }

abbrev with_iface_prefix : Option Text → Host → Host
with_iface_prefix f h = record h { iface_prefix = f }

abbrev with_link_mtu : Option Text → Host → Host
with_link_mtu f h = record h { link_mtu = f }

abbrev with_conflist : List Text → Host → Host
with_conflist l h = record h { conflist = some l }

-- An Init without an error leaves the four files as the environment says.
init_writes :
    (disk : Disk) (env : Env) (plugins : List Text) (h : Host)
    → (init disk env (some plugins) h).0 ≡ true
    → (init disk env (some plugins) h).1 ≡ record {
      link_type = some (resolve_inter_node_link_type env.inter_node_link_type);
      iface_prefix = stored env.iface_prefix;
      link_mtu = stored env.link_mtu;
      conflist = some (plugins ++ codes "meshnet" ∷ []);
    }
unfolding init save_inter_node_link_conf save_datapath_iface_prefix_conf save_default_link_mtu_conf
init_writes disk env plugins h e =
    let saved = save_inter_node_link_conf disk env h in
    let two = then_save saved (save_datapath_iface_prefix_conf disk env) in
    let three = then_save two (save_default_link_mtu_conf disk env) in
    let list = plugins ++ codes "meshnet" ∷ [] in
    let (e3, e4, r4) = both_saved three (save_conf_list disk list) e in
    let (e2, mtu, r3) = both_saved two (save_default_link_mtu_conf disk env) e3 in
    let (link, prefix, r2) = both_saved saved (save_datapath_iface_prefix_conf disk env) e2 in
    let with_link =
      ap (λ f. with_link_type f h)
        (written disk.link_type (resolve_inter_node_link_type env.inter_node_link_type) h.link_type
          link) in
    let with_prefix =
      r2
      ∙ ap (λ f. with_iface_prefix f saved.1)
          (saved_is_stored disk.iface_prefix env.iface_prefix saved.1.iface_prefix prefix)
      ∙ ap (with_iface_prefix (stored env.iface_prefix)) with_link in
    let with_mtu =
      r3
      ∙ ap (λ f. with_link_mtu f two.1)
          (saved_is_stored disk.link_mtu env.link_mtu two.1.link_mtu mtu)
      ∙ ap (with_link_mtu (stored env.link_mtu)) with_prefix in
    r4 ∙ list_saved disk list three.1 e4 ∙ ap (with_conflist list) with_mtu

-- The value that the plugin sees of a variable with a number.
abbrev pub seen_mtu : Option Text → Option ℕ
seen_mtu none = none
seen_mtu (some value) = positive (without_plus (trim_space value))

stored_prefix :
    (value : Option Text) (h : Host)
    → h.iface_prefix ≡ stored value
    → lookup_datapath_iface_prefix h ≡ stored value
unfolding lookup_datapath_iface_prefix
stored_prefix none h e = rw (lookup_datapath_iface_prefix, e) refl
stored_prefix (some value) h e =
    rw (lookup_datapath_iface_prefix, e) (ap some (trim_space_idem value))

stored_mtu :
    (value : Option Text) (h : Host)
    → h.link_mtu ≡ stored value
    → read_default_link_mtu h ≡ seen_mtu value
unfolding read_default_link_mtu
stored_mtu none h e = rw (read_default_link_mtu, e) refl
stored_mtu (some value) h e =
    rw (read_default_link_mtu, e) (ap (λ t. positive (without_plus t)) (trim_space_idem value))

stored_type :
    (value : Text) (h : Host)
    → h.link_type ≡ some (resolve_inter_node_link_type value)
    → lookup_inter_node_link_type h ≡ resolve_inter_node_link_type value
unfolding lookup_inter_node_link_type
stored_type value h e = rw (lookup_inter_node_link_type, e) (resolve_idem value)

-- After an Init without an error the plugin reads from the files what the daemon has in its
-- environment: the type of the links, the trimmed prefix or none, and the MTU as far as it is a
-- positive number; and the configuration list has the plugin after those that were found.
pub init_propagates :
    (disk : Disk) (env : Env) (plugins : List Text) (h : Host)
    → (init disk env (some plugins) h).0 ≡ true
    → let h' = (init disk env (some plugins) h).1 in
      (lookup_inter_node_link_type h' ≡ resolve_inter_node_link_type env.inter_node_link_type)
      × (lookup_datapath_iface_prefix h' ≡ stored env.iface_prefix)
      × (read_default_link_mtu h' ≡ seen_mtu env.link_mtu)
      × (h'.conflist ≡ some (plugins ++ codes "meshnet" ∷ []))
init_propagates disk env plugins h e =
    let files = init_writes disk env plugins h e in
    (
      stored_type env.inter_node_link_type _ (ap (λ x. x.link_type) files),
      stored_prefix env.iface_prefix _ (ap (λ x. x.iface_prefix) files),
      stored_mtu env.link_mtu _ (ap (λ x. x.link_mtu) files),
      ap (λ x. x.conflist) files,
    )

nothing_to_remove :
    (ok : Bool) (value old : Option Text)
    → value ≡ none
    → old ≡ none
    → (save_or_remove ok value old).0 ≡ false
unfolding save_or_remove
nothing_to_remove ok value old hv ho = rw (hv, ho, save_or_remove) refl

fails_first :
    (first : Bool × Host) (next : Host → Bool × Host)
    → first.0 ≡ false
    → (then_save first next).0 ≡ false
fails_first (false, h) next e = refl
fails_first (true, h) next e = cc

fails_next :
    (first : Bool × Host) (next : Host → Bool × Host)
    → (next first.1).0 ≡ false
    → (then_save first next).0 ≡ false
fails_next (false, h) next e = refl
fails_next (true, h) next e = e

-- Without the variable for the prefix Init fails on a host that has no file for the prefix, as there
-- is nothing to remove, whatever can be read and written.
pub init_fails_unset :
    (disk : Disk) (env : Env) (conf : Option (List Text)) (h : Host)
    → env.iface_prefix ≡ none
    → h.iface_prefix ≡ none
    → (init disk env conf h).0 ≡ false
unfolding init save_datapath_iface_prefix_conf save_inter_node_link_conf
init_fails_unset disk env none h he hh = refl
init_fails_unset disk env (some plugins) h he hh =
    let saved = save_inter_node_link_conf disk env h in
    fails_first _ (save_conf_list disk (plugins ++ codes "meshnet" ∷ [])) (
      fails_first _ (save_default_link_mtu_conf disk env) (
        fails_next saved (save_datapath_iface_prefix_conf disk env)
          (nothing_to_remove disk.iface_prefix env.iface_prefix saved.1.iface_prefix he hh)))
