-- ===== src/LinkState/Registration.antt =====
-- The registry of VXLAN links.
use meshnet_cni.Prelude.{
  ℕ, ◌<◌, ◌≡◌, ap, ◌∙◌, true, ◌&&◌, String, none, some, arith, ◌==◌, if◌then◌else◌, nat_eq,
  string_eq, pair_eq, ◌^◌,
}
use meshnet_cni.Prelude.Assoc.{insert, lookup-insert, lookup-insert_self, lookup-delete}
use meshnet_cni.LinkState.{
  Link, Links, RemotePod, VxlanLinkDef, register_link, unregister_link, get_link, uid_of_vni,
  vni_of_uid, register_from_remote_pod, update, unregister_vxlan_link,
}

uid-vni : (uid : ℕ) → uid < 2 ^ 64 → uid_of_vni (vni_of_uid uid) ≡ uid
unfolding uid_of_vni vni_of_uid
uid-vni uid h = omega arith

-- The link that the peer's daemon keeps for a pod that was updated.
abbrev pub link_of : RemotePod → ℕ → Link
link_of pod uid = record {
  uid = uid;
  kube_ns = pod.kube_ns;
  local_net_ns = pod.net_ns;
  local_intf_name = pod.intf_name;
  peer_node_ip = pod.peer_vtep;
}

registered :
    (l : Link) (m : Links) (ns : String) (j : ℕ)
    → get_link ns j (register_link l m)
      ≡ (if l.kube_ns == ns && l.uid == j then some l else get_link ns j m)
unfolding get_link register_link
registered l m ns j = lookup-insert (l.kube_ns, l.uid) (ns, j) l m

unregistered :
    (l : Link) (m : Links) (ns : String) (j : ℕ)
    → get_link ns j (unregister_link l.kube_ns l.uid (register_link l m))
      ≡ (if l.kube_ns == ns && l.uid == j then none else get_link ns j m)
unfolding get_link unregister_link register_link
unregistered l m ns j = ground (
  arith,
  lookup-delete (l.kube_ns, l.uid) (ns, j) (insert (l.kube_ns, l.uid) l m),
  lookup-insert (l.kube_ns, l.uid) (ns, j) l m,
)

registers_link_of :
    (pod : RemotePod) (uid : ℕ) (m : Links)
    → uid < 2 ^ 64
    → pod.vni ≡ vni_of_uid uid
    → register_from_remote_pod pod m ≡ register_link (link_of pod uid) m
unfolding register_from_remote_pod
registers_link_of pod uid m h e =
    ap (λ x. register_link (link_of pod x) m) (ap uid_of_vni e ∙ uid-vni uid h)

-- After an update that succeeded for a link whose VNI the plugin has made of its id, the daemon finds
-- the link under the namespace and that id, whatever 64-bit number the id is, and finds every other
-- link as before; unregistering it makes it, and no other link, unknown again.
pub updated_then_unregistered :
    (pod : RemotePod) (uid : ℕ) (m : Links) (ns : String) (j : ℕ) (d : VxlanLinkDef)
    → uid < 2 ^ 64
    → pod.vni ≡ vni_of_uid uid
    → d.kube_ns ≡ pod.kube_ns
    → d.link_uid ≡ uid
    → (get_link ns j (update true pod m).1
        ≡ (if pod.kube_ns == ns && uid == j then some (link_of pod uid) else get_link ns j m))
      × (get_link ns j (unregister_vxlan_link (some d) (update true pod m).1)
          ≡ (if pod.kube_ns == ns && uid == j then none else get_link ns j m))
unfolding update unregister_vxlan_link
updated_then_unregistered pod uid m ns j d h e en eu =
    let same = registers_link_of pod uid m h e in
    (
      rw same (registered (link_of pod uid) m ns j),
      rw (en, eu, same) (unregistered (link_of pod uid) m ns j),
    )

-- After an update that succeeded the daemon finds the link under its namespace and id.
pub update-registers :
    (pod : RemotePod) (uid : ℕ) (m : Links)
    → uid < 2 ^ 64
    → pod.vni ≡ vni_of_uid uid
    → get_link pod.kube_ns uid (update true pod m).1 ≡ some (link_of pod uid)
unfolding update get_link register_link
update-registers pod uid m h e =
    rw (registers_link_of pod uid m h e) (lookup-insert_self (pod.kube_ns, uid) (link_of pod uid) m)
