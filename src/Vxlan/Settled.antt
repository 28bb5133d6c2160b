-- ===== src/Vxlan/Settled.antt =====
-- What Update leaves in the pod and in the registry of VXLAN links.
use meshnet_cni.Prelude.{
  ℕ, ◌<◌, ◌^◌, ◌≡◌, refl, sym, subst, ◌∙◌, ◌⊎◌, inl, inr, Bool, true, false, Option, none, some,
  List, [], nat_eq, string_eq, ==_refl, ==_iff, String, Bool-cases, arith,
}
use meshnet_cni.Koko.{Addr, VEth, VxLan, Run, make_vx_lan, remove_veth_link}
use meshnet_cni.LinkState.{Links, get_link, vni_of_uid, update}
use meshnet_cni.LinkState.Registration.{link_of, update-registers}
use meshnet_cni.Vxlan.{
  Request, PodLink, no_link, other_link, vxlan_link, Parsers, Routes, Answers, Ending, success,
  failure, panic, Updated, Lookup, got, fails, panics, resolve_local_parent_if, addrs_of, veth_of,
  vxlan_of, is_wanted, get_link_from_ns, after_make, make_link, removed, replace_link,
  create_or_update, succeeded, update_pod,
}

-- The interface that a request asks for.
abbrev pub wanted : Parsers → Request → PodLink
wanted p v = vxlan_link v.pod.vni (p.parse_ip v.pod.peer_vtep)

is_wanted-eq : (x : VxLan) (l : PodLink) → is_wanted x l ≡ true → l ≡ vxlan_link x.id x.ip_addr
unfolding is_wanted
is_wanted-eq x no_link e = cc
is_wanted-eq x other_link e = cc
is_wanted-eq x (vxlan_link id group) e = ground (arith, ==_iff id x.id, ==_iff group x.ip_addr)

-- The step leaves the interface that is asked for, if it succeeds.
abbrev Leaves : VxLan → Updated → Type 0
Leaves x o = o.result ≡ success → o.link ≡ vxlan_link x.id x.ip_addr

make-Leaves :
    (a : Answers) (veth : VEth) (x : VxLan) → a.file_exists ≡ false → Leaves x (make_link a veth x)
unfolding make_link after_make
make-Leaves a veth x e =
    of_run (make_vx_lan a.prefix veth x a.random a.parent_mtu a.added a.found a.set)
  where
    of_run : (r : Run) → Leaves x (after_make x a r)
    of_run (acts, true) h = refl
    of_run (acts, false) h = ground arith

removed-Leaves :
    (x : VxLan) (old : PodLink) (r : Run) (o : Updated) → Leaves x o → Leaves x (removed old r o)
unfolding removed
removed-Leaves x old (acts, true) o h = h
removed-Leaves x old (acts, false) o h = λ e. cc

replace-Leaves :
    (a : Answers) (veth : VEth) (x : VxLan) (seen old : PodLink)
    → a.file_exists ≡ false
    → (seen ≡ no_link) ⊎ (seen ≡ old)
    → Leaves x (replace_link a veth x seen old)
unfolding replace_link
replace-Leaves a veth x no_link old e s = make-Leaves a veth x e
replace-Leaves a veth x other_link old e s =
    removed-Leaves x old (remove_veth_link veth a.ns_opened a.link_found a.deleted) _
      (make-Leaves a veth x e)
replace-Leaves a veth x (vxlan_link id group) old e s =
    elim (Bool-cases (is_wanted x (vxlan_link id group))) [
      | inl same ↦ rw (same, replace_link) (λ h. of_seen s (is_wanted-eq x _ same))
      | inr other ↦
          rw (other, replace_link)
            (removed-Leaves x old (remove_veth_link veth a.ns_opened a.link_found a.deleted) _
              (make-Leaves a veth x e))
    ]
  where
    of_seen :
        (vxlan_link id group ≡ no_link) ⊎ (vxlan_link id group ≡ old)
        → vxlan_link id group ≡ vxlan_link x.id x.ip_addr
        → old ≡ vxlan_link x.id x.ip_addr
    of_seen (inl absent) k = cc
    of_seen (inr found) k = sym found ∙ k

seen_cases :
    (b : Bool) (l : PodLink) → (get_link_from_ns b l ≡ no_link) ⊎ (get_link_from_ns b l ≡ l)
unfolding get_link_from_ns
seen_cases true l = inr refl
seen_cases false l = inl refl

-- What is left to do once the parent and the address were read.
abbrev pub rest :
    Parsers → Option ℕ → Answers → Request → PodLink → Lookup String → Option (List Addr) → Updated
rest p default a v old fails addrs = record { acts = []; link = old; result = failure }
rest p default a v old panics addrs = record { acts = []; link = old; result = panic }
rest p default a v old (got parent) none = record { acts = []; link = old; result = failure }
rest p default a v old (got parent) (some addrs) =
    replace_link a (veth_of v addrs) (vxlan_of p v parent default) (get_link_from_ns a.seen old) old

pub create_or_update-rest :
    (p : Parsers) (r : Routes) (default : Option ℕ) (a : Answers) (v : Request) (old : PodLink)
    (s : Lookup String) (o : Option (List Addr))
    → resolve_local_parent_if r v.node_intf ≡ s
    → addrs_of p v.intf_ip ≡ o
    → create_or_update p r default a v old ≡ rest p default a v old s o
unfolding create_or_update
create_or_update-rest p r default a v old fails o e f = rw (e, create_or_update) refl
create_or_update-rest p r default a v old panics o e f = rw (e, create_or_update) refl
create_or_update-rest p r default a v old (got n) none e f = rw (e, f, create_or_update) refl
create_or_update-rest p r default a v old (got n) (some l) e f = rw (e, f, create_or_update) refl

rest-Leaves :
    (p : Parsers) (default : Option ℕ) (a : Answers) (v : Request) (old : PodLink)
    (s : Lookup String) (o : Option (List Addr))
    → a.file_exists ≡ false
    → (rest p default a v old s o).result ≡ success
    → (rest p default a v old s o).link ≡ wanted p v
unfolding vxlan_of
rest-Leaves p default a v old fails o e h = cc
rest-Leaves p default a v old panics o e h = cc
rest-Leaves p default a v old (got parent) none e h = cc
rest-Leaves p default a v old (got parent) (some addrs) e h =
    replace-Leaves a (veth_of v addrs) (vxlan_of p v parent default) (get_link_from_ns a.seen old)
      old e (seen_cases a.seen old) h

-- The response of Update, if it is positive, says that CreateOrUpdate succeeded.
responds :
    (o : Ending) (v : Request) (m : Links) → (update (succeeded o) v.pod m).0 ≡ true → o ≡ success
unfolding update
responds success v m e = refl
responds failure v m e = cc
responds panic v m e = cc

-- CreateOrUpdate as what is left to do.
whole :
    (p : Parsers) (r : Routes) (default : Option ℕ) (a : Answers) (v : Request) (old : PodLink)
    → create_or_update p r default a v old
      ≡ rest p default a v old (resolve_local_parent_if r v.node_intf) (addrs_of p v.intf_ip)
whole p r default a v old = create_or_update-rest p r default a v old _ _ refl refl

create_or_update-leaves :
    (p : Parsers) (r : Routes) (default : Option ℕ) (a : Answers) (v : Request) (old : PodLink)
    → a.file_exists ≡ false
    → (create_or_update p r default a v old).result ≡ success
    → (create_or_update p r default a v old).link ≡ wanted p v
create_or_update-leaves p r default a v old e =
    subst (λ o. o.result ≡ success → o.link ≡ wanted p v) (sym (whole p r default a v old))
      (rest-Leaves p default a v old (resolve_local_parent_if r v.node_intf) (addrs_of p v.intf_ip)
        e)

-- If Update answers yes, and koko has not met an error because a file exists, then the pod has the
-- interface as the VXLAN interface that the request asks for, with its VNI and with the address of
-- the peer as its group, whatever the pod had before; and the link, if the plugin has made the VNI of
-- its id, is found in the registry with the namespace, the interface and the peer of the request.
pub update_pod-leaves :
    (p : Parsers) (r : Routes) (default : Option ℕ) (a : Answers) (v : Request) (old : PodLink)
    (m : Links) (uid : ℕ)
    → uid < 2 ^ 64
    → v.pod.vni ≡ vni_of_uid uid
    → a.file_exists ≡ false
    → (update_pod p r default a v old m).1 ≡ true
    → ((update_pod p r default a v old m).0.link ≡ wanted p v)
      × (get_link v.pod.kube_ns uid (update_pod p r default a v old m).2 ≡ some (link_of v.pod uid))
unfolding update_pod
update_pod-leaves p r default a v old m uid h en e answered =
    let done = responds (create_or_update p r default a v old).result v m answered in
    (
      create_or_update-leaves p r default a v old e done,
      rw done (update-registers v.pod uid m h en),
    )

same_is : (x : VxLan) → is_wanted x (vxlan_link x.id x.ip_addr) ≡ true
unfolding is_wanted
same_is x = rw (==_refl x.id, ==_refl x.ip_addr) refl

rest_repeat :
    (p : Parsers) (default default' : Option ℕ) (a a' : Answers) (v : Request) (old : PodLink)
    (s : Lookup String) (o : Option (List Addr))
    → a'.seen ≡ true
    → (rest p default a v old s o).result ≡ success
    → rest p default' a' v (wanted p v) s o
      ≡ record { acts = []; link = wanted p v; result = success }
unfolding replace_link get_link_from_ns vxlan_of
rest_repeat p d d' a a' v old fails o e h = cc
rest_repeat p d d' a a' v old panics o e h = cc
rest_repeat p d d' a a' v old (got parent) none e h = cc
rest_repeat p d d' a a' v old (got parent) (some addrs) e h =
    rw (e, get_link_from_ns) (rw (same_is (vxlan_of p v parent d'), replace_link) refl)

-- A request that Update has answered with yes can be repeated: if the pod has the interface that the
-- first left, without an error of koko because a file exists, and the daemon gets to see it, then
-- Update answers yes again, asks nothing of the kernel and leaves the interface as it is, whatever
-- koko's calls would meet and whatever the host's default MTU has become.
pub update_pod-repeat :
    (p : Parsers) (r : Routes) (default default' : Option ℕ) (a a' : Answers) (v : Request)
    (old : PodLink) (m m' : Links)
    → a.file_exists ≡ false
    → a'.seen ≡ true
    → (update_pod p r default a v old m).1 ≡ true
    → let again = update_pod p r default' a' v (update_pod p r default a v old m).0.link m' in
      (again.0.acts ≡ []) × (again.0.link ≡ wanted p v) × (again.1 ≡ true)
unfolding update_pod update
update_pod-repeat p r default default' a a' v old m m' e seen answered =
    let done = responds (create_or_update p r default a v old).result v m answered in
    let link = create_or_update-leaves p r default a v old e done in
    let nothing =
      whole p r default' a' v (wanted p v)
      ∙ rest_repeat p default default' a a' v old (resolve_local_parent_if r v.node_intf)
          (addrs_of p v.intf_ip) seen (rw (whole p r default a v old) at done) in
    rw (link, nothing) (refl, refl, refl)
