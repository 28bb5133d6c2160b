-- ===== src/Plugin/Success.antt =====
-- What an ADD of plugin/meshnet.go that succeeds has done.
use meshnet_cni.Prelude.{
  ◌≡◌, refl, sym, subst, ap, ◌∙◌, inl, inr, Bool, true, false, ◌&&◌, String, Option, none, some,
  List, [], ◌∷◌, ◌++◌, Bool-cases, All, map,
}
use meshnet_cni.Topology.{Link, Pod}
use meshnet_cni.Plugin.{Rpc, answered, refused, bool_response_err, Config, fine, failed, panicked}
use meshnet_cni.Plugin.Ready.{LocalPod, found, no_topology, not_ready, interrupted}
use meshnet_cni.Plugin.Add.{Act, Answers, Run, and_then, add_link, add_links}
use meshnet_cni.Plugin.Add.Outcome.{Settled, link_settles}
use meshnet_cni.Plugin.Command.{AddCall, Result, stopped, own_pod, add_alive, add_local, cmd_add}

abbrev pub LinkSettled : Config → Pod → Link × Answers → Type 0
LinkSettled cfg local (link, a) = Settled cfg local link a (add_link cfg local link a).0

-- The acts of a list of links, one link after the other.
abbrev pub acts_of : Config → Pod → List (Link × Answers) → List Act
acts_of cfg local [] = []
acts_of cfg local ((link, a) ∷ rest) = (add_link cfg local link a).0 ++ acts_of cfg local rest

fine_first :
    (first : Run) (rest : Run)
    → (and_then first rest).1 ≡ fine
    → (first.1 ≡ fine) × (rest.1 ≡ fine) × ((and_then first rest).0 ≡ first.0 ++ rest.0)
fine_first (acts, fine) rest e = (refl, e, refl)
fine_first (acts, failed) rest e = cc
fine_first (acts, panicked) rest e = cc

-- A loop over the links that ends without an error.
links_settled :
    (cfg : Config) (local : Pod) (links : List (Link × Answers))
    → (add_links cfg local links).1 ≡ fine
    → All (LinkSettled cfg local) links × ((add_links cfg local links).0 ≡ acts_of cfg local links)
unfolding add_links
links_settled cfg local [] e = (tt, refl)
links_settled cfg local ((link, a) ∷ rest) e =
    let (one, more, acts) = fine_first (add_link cfg local link a) (add_links cfg local rest) e in
    let (all, rest_acts) = links_settled cfg local rest more in
    (
      (link_settles cfg local link a one, all),
      acts ∙ ap (◌++◌ (add_link cfg local link a).0) rest_acts,
    )

-- The links of a pod with the answers for each.
abbrev pub links_of : AddCall → Pod → List (Link × Answers)
links_of c p = map (λ l. (l, c.answers l)) p.links

-- What an ADD without an error has come to.
pub data Success (cfg : Config) (c : AddCall) : Result → Type 0 where
  not_ours : c.local_pod ≡ no_topology → Success cfg c (stopped fine)
  links_up :
      (p : Pod) (ip intf : String) (acts : List Act)
      → c.local_pod ≡ found p
      → c.source ≡ some (ip, intf)
      → c.alive_set ≡ answered true
      → All (LinkSettled cfg (own_pod cfg c p ip)) (links_of c p)
      → acts ≡ acts_of cfg (own_pod cfg c p ip) (links_of c p)
      → Success cfg c (record { alive = some (own_pod cfg c p ip); acts = acts; end = fine })

was_accepted : (r : Rpc Bool) → bool_response_err r ≡ false → r ≡ answered true
unfolding bool_response_err
was_accepted (answered true) e = refl
was_accepted (answered false) e = cc
was_accepted (refused c) e = cc

alive_succeeds :
    (cfg : Config) (c : AddCall) (p : Pod) (ip intf : String)
    → c.local_pod ≡ found p
    → c.source ≡ some (ip, intf)
    → (add_alive cfg c (own_pod cfg c p ip)).end ≡ fine
    → Success cfg c (add_alive cfg c (own_pod cfg c p ip))
unfolding add_alive
alive_succeeds cfg c p ip intf hp hs e = elim (Bool-cases (bool_response_err c.alive_set)) [
  | inl bad ↦ let e' = rw (bad, add_alive) at e in cc
  | inr ok ↦
      let ended : (add_links cfg (own_pod cfg c p ip) (links_of c p)).1 ≡ fine =
        rw (ok, add_alive) at e in
      let (all, acts) = links_settled cfg (own_pod cfg c p ip) (links_of c p) ended in
      let result : add_alive cfg c (own_pod cfg c p ip) ≡ record {
        alive = some (own_pod cfg c p ip);
        acts = (add_links cfg (own_pod cfg c p ip) (links_of c p)).0;
        end = fine;
      } =
        rw (ok, ended, add_alive) refl in
      subst (Success cfg c) (sym result)
        (links_up p ip intf _ hp hs (was_accepted c.alive_set ok) all acts)
]

local_from :
    (cfg : Config) (c : AddCall) (p : Pod) (ip intf : String)
    → c.source ≡ some (ip, intf)
    → add_local cfg c (found p) ≡ add_alive cfg c (own_pod cfg c p ip)
unfolding add_local
local_from cfg c p ip intf hs = rw (hs, add_local) refl

local_succeeds :
    (cfg : Config) (c : AddCall) (reply : LocalPod) (source : Option (String × String))
    → c.local_pod ≡ reply
    → c.source ≡ source
    → (add_local cfg c reply).end ≡ fine
    → Success cfg c (add_local cfg c reply)
unfolding add_local
local_succeeds cfg c no_topology source hp hs e = not_ours hp
local_succeeds cfg c not_ready source hp hs e = cc
local_succeeds cfg c interrupted source hp hs e = cc
local_succeeds cfg c (found p) none hp hs e = let e' = rw (hs, add_local) at e in cc
local_succeeds cfg c (found p) (some (ip, intf)) hp hs e =
    let same = local_from cfg c p ip intf hs in
    subst (Success cfg c) (sym same)
      (alive_succeeds cfg c p ip intf hp hs (sym (ap (λ r. r.end) same) ∙ e))

-- An ADD that ends without an error is for a pod without a topology, and then nothing was asked; or
-- the pod was set alive with its address, namespace and container, the daemon took this, and then
-- every link was settled in turn: made on the host, if its peer is `localhost`; skipped in word, if the
-- peer is not alive; with a living peer on this host found in both pods, made in both pods, in place of
-- one interface that was found alone, or left to a peer with the higher name that has not skipped it; with a living peer on another host wired, if the links are of gRPC, or tunnelled and
-- registered at both ends, if they are of VXLAN. What was asked for each is listed, and was answered with
-- a success.
pub cmd_add-Success :
    (cfg : Config) (c : AddCall) → (cmd_add cfg c).end ≡ fine → Success cfg c (cmd_add cfg c)
unfolding cmd_add
cmd_add-Success cfg c e = elim (Bool-cases (c.conf_loaded && c.args_loaded && c.dialed)) [
  | inl able ↦
      rw (able, cmd_add)
        (local_succeeds cfg c c.local_pod c.source refl refl (rw (able, cmd_add) at e))
  | inr unable ↦ let e' = rw (unable, cmd_add) at e in cc
]
