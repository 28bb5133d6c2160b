-- ===== src/Plugin/Del/Cleanup.antt =====
-- What a DEL of plugin/meshnet.go cleans up, and where it stops.
use meshnet_cni.Prelude.{
  ◌≡◌, ◌≢◌, Option, none, All, refl, sym, ap, ◌∙◌, Bool, true, false, String, some, List, [], ◌∷◌,
  ◌++◌, ◌==◌, string_eq, if◌then◌else◌, map, append_assoc, append-nil,
}
use meshnet_cni.Topology.{Link, Pod}
use meshnet_cni.Plugin.{
  Rpc, answered, refused, Code, LinkType, grpc, vxlan, Config, VEth, End, fine, panicked,
}
use meshnet_cni.Plugin.Del.{
  Act, Run, and_then, downs_remote, unregisters, removes_wires, sets_dead, removes, skips_reverse,
  Answers, after_reverse, tear_down, del_known, own_end, del_link, del_links, DelCall, del_found,
  del_local, cmd_del,
}

-- The other end of a link of either type, to a peer on this host or not: gRPC wires are taken down at
-- the peer's node, VXLAN links are unregistered, and on this host the other end goes with the own one.
abbrev pub other_end : LinkType → (here : Bool) → Pod → Link → List Act
other_end t true peer link = []
other_end grpc false peer link = downs_remote peer link.uid ∷ []
other_end vxlan false peer link = unregisters link.uid ∷ []

-- What a link asks for: the other end is taken down, the own interface is removed, and word is left for
-- the peer.
abbrev pub asks_of : Config → String → Link → Pod → VEth → List Act
asks_of cfg src_ip link peer mine =
    other_end cfg.inter_node_link_type (peer.src_ip == src_ip) peer link
    ++ (removes mine ∷ skips_reverse link.peer_pod link.uid ∷ [])

torn_down :
    (t : LinkType) (here : Bool) (peer : Pod) (link : Link)
    → (if here then [] else tear_down t peer link) ≡ other_end t here peer link
unfolding tear_down
torn_down grpc true peer link = refl
torn_down vxlan true peer link = refl
torn_down grpc false peer link = refl
torn_down vxlan false peer link = refl

-- Links that are cleaned, one after the other, with what they ask for: the peer has a topology, the
-- own end can be built, and the daemon takes the word that is left for the peer.
pub data Cleaned (cfg : Config) (src_ip : String) : List (Link × Answers) → List Act → Type 0 where
  none_left : Cleaned cfg src_ip [] []
  cleans :
      (link : Link) (a : Answers) (peer : Pod) (mine : VEth) (rest : List (Link × Answers))
      (acts : List Act)
      → a.peer ≡ answered peer
      → own_end cfg link ≡ some mine
      → a.reversed ≡ answered true
      → Cleaned cfg src_ip rest acts
      → Cleaned cfg src_ip ((link, a) ∷ rest) (asks_of cfg src_ip link peer mine ++ acts)

-- A link whose peer and own end are there, whatever the daemon answers to the word for the peer.
link_asks :
    (cfg : Config) (src_ip : String) (link : Link) (reply : Rpc Pod) (reversed : Rpc Bool)
    (r : Rpc Bool) (peer : Pod) (mine : VEth)
    → reply ≡ answered peer
    → own_end cfg link ≡ some mine
    → reversed ≡ r
    → del_link cfg src_ip link reversed reply ≡ (asks_of cfg src_ip link peer mine, after_reverse r)
unfolding del_link del_known
link_asks cfg src_ip link reply reversed r peer mine hp hm hr =
    rw (hp, hr, del_link)
      (rw (hm, del_known)
        (ap
          (λ l. (l ++ (removes mine ∷ skips_reverse link.peer_pod link.uid ∷ []), after_reverse r))
          (torn_down cfg.inter_node_link_type (peer.src_ip == src_ip) peer link)))

-- Links that are cleaned are passed, with all that they ask for, whatever follows them.
del_links-append :
    (cfg : Config) (src_ip : String) (before rest : List (Link × Answers)) (acts : List Act)
    → Cleaned cfg src_ip before acts
    → del_links cfg src_ip (before ++ rest)
      ≡ (acts ++ (del_links cfg src_ip rest).0, (del_links cfg src_ip rest).1)
unfolding del_links after_reverse
del_links-append cfg src_ip before rest acts none_left = refl
del_links-append cfg src_ip before rest acts (cleans link a peer mine links more hp hm hr h) =
    let ih = del_links-append cfg src_ip links rest more h in
    rw
      (
        link_asks cfg src_ip link a.peer a.reversed (answered true) peer mine hp hm hr,
        ih,
        del_links,
      )
      (ap (λ l. (l, (del_links cfg src_ip rest).1))
        (sym (append_assoc (asks_of cfg src_ip link peer mine) more _)))

-- What is asked before the links are looked at.
abbrev pub opening : List Act → List Act
opening acts = removes_wires ∷ sets_dead ∷ acts

-- A DEL that finds its pod, for which the daemon removes the wires and answers the empty fields,
-- with the links of the pod and what is answered for each.
abbrev pub Reaches : DelCall → Pod → List (Link × Answers) → Type 0
Reaches c p links =
    (c.args_loaded ≡ true)
    × (c.conf_loaded ≡ true)
    × (c.dialed ≡ true)
    × (c.local_pod ≡ answered p)
    × ((p.container_id == c.container_id) ≡ true)
    × (c.wires_removed ≡ answered true)
    × ((b : Bool) × (c.dead_set ≡ answered b))
    × (map (λ l. (l, c.answers l)) p.links ≡ links)

reaches_links :
    (cfg : Config) (c : DelCall) (p : Pod) (links : List (Link × Answers)) (acts : List Act)
    (end : End)
    → Reaches c p links
    → del_links cfg p.src_ip links ≡ (acts, end)
    → cmd_del cfg c ≡ (opening acts, end)
unfolding cmd_del del_local del_found
reaches_links cfg c p links acts end (ha, hc, hd, hp, hi, hw, (b, hs), hl) e =
    rw (ha, hc, hd, hp, cmd_del) (rw (hi, hw, hs, hl, del_local) (rw e refl))

-- The daemon answers no to the word for the peer only with an error, as SkipReverse does.
abbrev pub SaysNoWithError : List (Link × Answers) → Type 0
SaysNoWithError links = All (λ (x : Link × Answers). x.1.reversed ≢ answered false) links

-- The own end is there and the word was taken.
go_on :
    (cfg : Config) (src_ip : String) (link : Link) (veth : Option VEth) (r : Rpc Bool) (peer : Pod)
    (rest : Run)
    → r ≢ answered false
    → (and_then (del_known cfg src_ip link r peer veth) rest).1 ≡ fine
    → (mine : VEth) × (veth ≡ some mine) × (r ≡ answered true) × (rest.1 ≡ fine)
unfolding del_known after_reverse
go_on cfg src_ip link none r peer rest word e = cc
go_on cfg src_ip link (some mine) (answered true) peer rest word e = (mine, refl, refl, e)
go_on cfg src_ip link (some mine) (answered false) peer rest word e = absurd (word refl)
go_on cfg src_ip link (some mine) (refused c) peer rest word e = cc

link_passed :
    (cfg : Config) (src_ip : String) (link : Link) (a : Answers) (reply : Rpc Pod) (rest : Run)
    → a.peer ≡ reply
    → a.reversed ≢ answered false
    → (and_then (del_link cfg src_ip link a.reversed reply) rest).1 ≡ fine
    → (peer : Pod) × (mine : VEth) × (a.peer ≡ answered peer)
      × (own_end cfg link ≡ some mine)
      × (a.reversed ≡ answered true)
      × (rest.1 ≡ fine)
unfolding del_link
link_passed cfg src_ip link a (refused c) rest hp word e = cc
link_passed cfg src_ip link a (answered peer) rest hp word e =
    let (mine, own, taken, more) =
      go_on cfg src_ip link (own_end cfg link) a.reversed peer rest word e in
    (peer, mine, hp, own, taken, more)

-- A loop that ends without an error has cleaned every link.
loop-Cleaned :
    (cfg : Config) (src_ip : String) (links : List (Link × Answers))
    → SaysNoWithError links
    → (del_links cfg src_ip links).1 ≡ fine
    → (acts : List Act) × Cleaned cfg src_ip links acts
unfolding del_links
loop-Cleaned cfg src_ip [] word e = ([], none_left)
loop-Cleaned cfg src_ip ((link, a) ∷ rest) word e =
    let (peer, mine, hp, hm, hr, more) =
      link_passed cfg src_ip link a a.peer (del_links cfg src_ip rest) refl word.0 e in
    let (acts, cleaned) = loop-Cleaned cfg src_ip rest word.1 more in
    (_, cleans link a peer mine rest acts hp hm hr cleaned)

-- If a DEL that finds its pod ends without an error, it has asked, after the wires are removed and the
-- pod is set dead, for the clean-up of every link in order, and for nothing else: each peer had a
-- topology, gRPC wires to other hosts were to be taken down there and VXLAN links to be unregistered, the
-- own interface was to be removed, and the daemon took the word for the peer. The daemon is to answer no
-- to that word only with an error.
pub del_complete :
    (cfg : Config) (c : DelCall) (p : Pod) (links : List (Link × Answers))
    → Reaches c p links
    → SaysNoWithError links
    → (cmd_del cfg c).1 ≡ fine
    → (acts : List Act) × Cleaned cfg p.src_ip links acts × (cmd_del cfg c ≡ (opening acts, fine))
unfolding del_links
del_complete cfg c p links r word e =
    let run = del_links cfg p.src_ip links in
    let reached = reaches_links cfg c p links run.0 run.1 r refl in
    let ended : run.1 ≡ fine = sym (ap (λ (x : Run). x.1) reached) ∙ e in
    let (acts, cleaned) = loop-Cleaned cfg p.src_ip links word ended in
    let whole = del_links-append cfg p.src_ip links [] acts cleaned in
    (
      acts,
      cleaned,
      reaches_links cfg c p links acts fine r (rw (append-nil links, append-nil acts) at whole),
    )

-- If the daemon has no pod for the peer of a link, as for the peer `localhost` of a macvlan link, a
-- DEL that has asked for the clean-up of the links before it panics there, and asks for nothing for that link and for
-- the links behind it.
pub del_panics :
    (cfg : Config) (c : DelCall) (p : Pod) (before rest : List (Link × Answers)) (link : Link)
    (a : Answers) (acts : List Act) (e : Code)
    → Reaches c p (before ++ (link, a) ∷ rest)
    → Cleaned cfg p.src_ip before acts
    → a.peer ≡ refused e
    → cmd_del cfg c ≡ (opening acts, panicked)
unfolding del_links del_link
del_panics cfg c p before rest link a acts e r h hp =
    let passed = del_links-append cfg p.src_ip before ((link, a) ∷ rest) acts h in
    reaches_links cfg c p (before ++ (link, a) ∷ rest) acts panicked r
      (passed ∙ rw (hp, del_links) (rw (append-nil acts) refl))
