-- ===== src/Vxlan.antt =====
-- daemon/vxlan/vxlan.go: the VXLAN interface of a pod, which the Update handler of
-- daemon/meshnet/handler.go creates or replaces. What netlink answers, and what the library net reads
-- from a text, is an argument. The interface of the pod is part of the state.
pub mod Settled
mod Examples
use meshnet_cni.Prelude.{
  ℕ, Bool, true, false, not, ◌&&◌, String, Option, none, some, List, [], ◌∷◌, ◌++◌, ◌==◌, nat_eq,
  string_eq, if◌then◌else◌,
}
use meshnet_cni.Koko.{Addr, VEth, VxLan, Act, Run, SetAnswers, make_vx_lan, remove_veth_link}
use meshnet_cni.LinkState.{RemotePod, Links, update}

-- A request of Update: the rest of RemotePod goes with the fields of module LinkState.
pub record Request : Type 0 where
  pub pod : RemotePod
  pub intf_ip : String
  pub node_intf : String
  pub mtu : ℕ

-- The interface with a name in a pod; the group of a VXLAN interface is a text, as ParseIP gives it.
pub data PodLink : Type 0 where
  no_link other_link : PodLink
  vxlan_link : (id : ℕ) (group : String) → PodLink

-- net.ParseCIDR and net.ParseIP, which answers nil as the empty text.
pub record Parsers : Type 0 where
  pub parse_cidr : String → Option Addr
  pub parse_ip : String → String

-- The routes that RouteGet gives for an address outside, with the index of the link of each, and
-- whether it gives an error too; the names of links by index, and which names there are.
pub record Routes : Type 0 where
  pub failed : Bool
  pub links : List ℕ
  pub name_of : ℕ → Option String
  pub present : String → Bool

-- Whether getLinkFromNS gets to the interface of the pod, and what koko's calls meet: see MakeVxLan
-- and RemoveVethLink. `file_exists` says whether the text of an error of MakeVxLan contains "file
-- exists", and `left` is the interface of the pod after such an error.
pub record Answers : Type 0 where
  pub seen : Bool
  pub prefix : Option (List ℕ)
  pub random : String
  pub parent_mtu : Option ℕ
  pub added : Bool
  pub found : Bool
  pub set : SetAnswers
  pub file_exists : Bool
  pub left : PodLink
  pub ns_opened : Bool
  pub link_found : Bool
  pub deleted : Bool

pub data Ending : Type 0 where
  success failure panic : Ending

-- An outcome: what was asked of the kernel, the interface of the pod afterwards, and the result.
pub record Updated : Type 0 where
  pub acts : List Act
  pub link : PodLink
  pub result : Ending

-- What a step answers: a value, an error, or a panic.
pub data Lookup {ℓ} (A : Type ℓ) : Type ℓ where
  got : A → Lookup A
  fails panics : Lookup A

-- getSource, whose address is not read here: it goes on if there is a route or no error.
unfoldable pub first_route : Routes → List ℕ → Lookup String
first_route r [] = if r.failed then fails else panics
first_route r (i ∷ l) = elim (r.name_of i) [ none ↦ fails | some n ↦ got n ]

unfoldable pub get_source : Routes → Lookup String
unfolding first_route
get_source r = first_route r r.links

-- resolveLocalParentIF
unfoldable pub resolve_local_parent_if : Routes → String → Lookup String
unfolding get_source
resolve_local_parent_if r hint =
    if not (hint == "") && r.present hint then got hint else get_source r

-- The link IP is optional.
unfoldable pub addrs_of : Parsers → String → Option (List Addr)
addrs_of p ip =
    if ip == "" then some [] else elim (p.parse_cidr ip) [ none ↦ none | some a ↦ some (a ∷ []) ]

unfoldable pub veth_of : Request → List Addr → VEth
veth_of v addrs = record {
  ns_name = v.pod.net_ns;
  link_name = v.pod.intf_name;
  ip_addr = addrs;
  mtu = 0;
}

-- The MTU of the request, or else the host's default, or else 0.
unfoldable pub mtu_of : Request → Option ℕ → ℕ
mtu_of v default = if v.mtu == 0 then elim default [ none ↦ 0 | some d ↦ d ] else v.mtu

unfoldable pub vxlan_of : Parsers → Request → String → Option ℕ → VxLan
unfolding mtu_of
vxlan_of p v parent default = record {
  parent_if = parent;
  id = v.pod.vni;
  ip_addr = p.parse_ip v.pod.peer_vtep;
  mtu = mtu_of v default;
  udp_port = 0;
}

-- Whether the interface is a VXLAN interface with these attributes.
unfoldable pub is_wanted : VxLan → PodLink → Bool
is_wanted x no_link = false
is_wanted x other_link = false
is_wanted x (vxlan_link id group) = (id == x.id) && (group == x.ip_addr)

-- getLinkFromNS
unfoldable pub get_link_from_ns : Bool → PodLink → PodLink
get_link_from_ns seen link = if seen then link else no_link

-- After MakeVxLan: a failure is an error unless the text of the error says that the file exists.
unfoldable pub after_make : VxLan → Answers → Run → Updated
after_make x a (acts, true) = record {
  acts = acts;
  link = vxlan_link x.id x.ip_addr;
  result = success;
}
after_make x a (acts, false) = record {
  acts = acts;
  link = a.left;
  result = if a.file_exists then success else failure;
}

unfoldable pub make_link : Answers → VEth → VxLan → Updated
unfolding after_make make_vx_lan
make_link a veth x =
    after_make x a (make_vx_lan a.prefix veth x a.random a.parent_mtu a.added a.found a.set)

-- After RemoveVethLink of the link that was found.
unfoldable pub removed : PodLink → Run → Updated → Updated
removed old (acts, false) next = record { acts = acts; link = old; result = failure }
removed old (acts, true) next = record next { acts = acts ++ next.acts }

-- The link that was found is removed, if there is one, unless it is the one that is wanted; then
-- the new one is made.
unfoldable pub replace_link : Answers → VEth → VxLan → (seen old : PodLink) → Updated
unfolding make_link remove_veth_link is_wanted removed
replace_link a veth x no_link old = make_link a veth x
replace_link a veth x other_link old =
    removed old (remove_veth_link veth a.ns_opened a.link_found a.deleted) (make_link a veth x)
replace_link a veth x (vxlan_link id group) old =
    if is_wanted x (vxlan_link id group)
    then record { acts = []; link = old; result = success }
    else removed old (remove_veth_link veth a.ns_opened a.link_found a.deleted) (make_link a veth x)

-- CreateOrUpdate
unfoldable pub create_or_update :
    Parsers → Routes → Option ℕ → Answers → Request → PodLink → Updated
unfolding resolve_local_parent_if addrs_of veth_of vxlan_of get_link_from_ns replace_link
create_or_update p r default a v old = elim (resolve_local_parent_if r v.node_intf) [
  | fails ↦ record { acts = []; link = old; result = failure }
  | panics ↦ record { acts = []; link = old; result = panic }
  | got parent ↦ elim (addrs_of p v.intf_ip) [
    | none ↦ record { acts = []; link = old; result = failure }
    | some addrs ↦
        replace_link a (veth_of v addrs) (vxlan_of p v parent default) (get_link_from_ns a.seen old)
          old
  ]
]

-- Whether CreateOrUpdate returned nil.
abbrev pub succeeded : Ending → Bool
succeeded success = true
succeeded failure = false
succeeded panic = false

-- Update of daemon/meshnet/handler.go: the outcome, the response and the links that are registered.
unfoldable pub update_pod :
    Parsers → Routes → Option ℕ → Answers → Request → PodLink → Links → Updated × Bool × Links
unfolding create_or_update update
update_pod p r default a v old m =
    let o = create_or_update p r default a v old in
    let (response, m') = update (succeeded o.result) v.pod m in (o, response, m')
