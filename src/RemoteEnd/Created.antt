-- ===== src/RemoteEnd/Created.antt =====
-- What the daemon has after it was asked for the remote end of a wire.
use meshnet_cni.Prelude.{
  ℕ, ◌≡◌, refl, sym, ap, ◌∙◌, inl, inr, Bool, true, false, String, Option, none, some, List, [],
  ◌∷◌, ◌++◌, if◌then◌else◌, nat_eq, string_eq, pair_eq, Option-cases,
}
use mathlib.Core.Option.{some-injective}
use meshnet_cni.Prelude.Assoc.{lookup-insert_self}
use meshnet_cni.Wire.{
  Daemon, WireDef, get_wire, get_handle, create_gwire, add_wire, update_wire_by_uid,
}
use meshnet_cni.Wire.Steps.{add_grpc_wire_remote, create_update_remote, store_or_create}
use meshnet_cni.Wire.IfName.{Name, gen_node_iface_name}
use meshnet_cni.Protocol.Names.{codes}
use meshnet_cni.Stale.{Verdict, ensure}
use meshnet_cni.Koko.{Addr, VEth, Act, Run, deletes, make_veth_pair}
use meshnet_cni.RemoteEnd.{
  World, Making, fails_after, addrs_in, open_end, after_veth, make_pair, make_remote_end,
  add_remote_end,
}

-- If the creation got through, the host's end has this name, and the index and the handle that the
-- daemon found for it, and this was asked of the kernel.
abbrev Opened : World → String → List Act → Making → Type 0
Opened x name asked m =
    (i : ℕ) (n : String) (h : ℕ)
    → m.ended ≡ some (i, n, h)
    → (n ≡ name) × (x.index_of name ≡ some i) × (x.handle ≡ some h) × (m.acts ≡ asked)

-- The two ends of the wire, for koko.
abbrev pub pod_end : WireDef → List Addr → (mtu : ℕ) → VEth
pod_end d addrs mtu = record {
  ns_name = d.local_pod_net_ns;
  link_name = d.intf_name_in_pod;
  ip_addr = addrs;
  mtu = mtu;
}

abbrev pub host_end : (ns name : String) → VEth
host_end ns name = record { ns_name = ns; link_name = name; ip_addr = []; mtu = 0 }

-- What koko.MakeVeth does for the two ends.
abbrev pub veth_run : World → VEth → VEth → Run
veth_run x inside outside =
    make_veth_pair x.prefix inside outside x.random_in x.random_out x.added x.found x.set_in
      x.set_out

-- The removal of a leftover.
abbrev pub freed : Verdict → VEth → List Act
freed v inside = if v.removes then deletes inside.link_name ∷ [] else []

-- The pod's end was free, or freed, and koko.MakeVeth has made both ends without an error, with what
-- was asked of the kernel.
abbrev pub Made : World → VEth → VEth → Verdict → List Act → Type 0
Made x inside outside v acts =
    (v.refuses ≡ false)
    × ((veth_run x inside outside).1 ≡ true)
    × (acts ≡ freed v inside ++ (veth_run x inside outside).0)

open_end-Opened :
    (x : World) (name : String) (acts : List Act) (o p : Option ℕ)
    → x.index_of name ≡ o
    → x.handle ≡ p
    → Opened x name acts (open_end name acts o p)
unfolding open_end
open_end-Opened x name acts none p e f i n h w = cc
open_end-Opened x name acts (some j) none e f i n h w = cc
open_end-Opened x name acts (some j) (some k) e f i n h w =
    let same : ◌≡◌ {A = ℕ × String × ℕ} (j, name, k) (i, n, h) = some-injective _ _ w in
    (
      sym (ap (λ (y : ℕ × String × ℕ). y.1) same),
      e ∙ ap (λ (y : ℕ × String × ℕ). some y.0) same,
      f ∙ ap (λ (y : ℕ × String × ℕ). some y.2) same,
      refl,
    )

-- If the creation got through, both ends were made.
abbrev PairOpened : World → VEth → VEth → Verdict → Making → Type 0
PairOpened x inside outside v m =
    (i : ℕ) (n : String) (h : ℕ)
    → m.ended ≡ some (i, n, h)
    → (n ≡ outside.link_name)
      × (x.index_of outside.link_name ≡ some i)
      × (x.handle ≡ some h)
      × Made x inside outside v m.acts

after_veth-Opened :
    (x : World) (inside outside : VEth) (v : Verdict) (acts : List Act) (ok : Bool)
    → v.refuses ≡ false
    → veth_run x inside outside ≡ (acts, ok)
    → PairOpened x inside outside v (after_veth x outside.link_name (freed v inside) (acts, ok))
unfolding after_veth
after_veth-Opened x inside outside v acts false goes_on made i n h w = cc
after_veth-Opened x inside outside v acts true goes_on made i n h w =
    let (named, index, handle, asked) =
      open_end-Opened x outside.link_name (freed v inside ++ acts) (x.index_of outside.link_name)
        x.handle refl refl i n h w in
    (
      named,
      index,
      handle,
      (
        goes_on,
        ap (λ (r : Run). r.1) made,
        asked ∙ ap (λ (r : Run). freed v inside ++ r.0) (sym made),
      ),
    )

gated-Opened :
    (x : World) (inside outside : VEth) (v : Verdict) (refuses : Bool) (r : Run)
    → v.refuses ≡ refuses
    → veth_run x inside outside ≡ r
    → PairOpened x inside outside v (
        if refuses
        then fails_after (freed v inside)
        else after_veth x outside.link_name (freed v inside) r)
gated-Opened x inside outside v true r stopped made i n h w = cc
gated-Opened x inside outside v false (acts, ok) goes_on made i n h w =
    after_veth-Opened x inside outside v acts ok goes_on made i n h w

make_pair-Opened :
    (x : World) (d : WireDef) (inside outside : VEth) (v : Verdict)
    → PairOpened x inside outside v (make_pair x d inside outside v)
unfolding make_pair
make_pair-Opened x d inside outside v =
    gated-Opened x inside outside v v.refuses (veth_run x inside outside) refl refl

-- The pod's end and the host's end are made in the namespaces of the pod and of the daemon, after the
-- check for leftovers.
abbrev pub EndsMade : World → WireDef → (mtu : ℕ) → String → Daemon → List Act → Type 0
EndsMade x d mtu name s acts =
    (ns : String) × (addrs : List Addr) × (x.current_ns ≡ some ns)
    × (addrs_in x d ≡ some addrs)
    × Made x (pod_end d addrs mtu) (host_end ns name)
        (ensure x.info d s x.objects x.leftover_removed) acts

abbrev RemoteOpened : World → WireDef → (mtu : ℕ) → String → Daemon → Making → Type 0
RemoteOpened x d mtu name s m =
    (i : ℕ) (n : String) (h : ℕ)
    → m.ended ≡ some (i, n, h)
    → (n ≡ name) × (x.index_of name ≡ some i) × (x.handle ≡ some h) × EndsMade x d mtu name s m.acts

make_remote_end-Opened :
    (x : World) (d : WireDef) (mtu : ℕ) (name : Name) (s : Daemon)
    → RemoteOpened x d mtu (x.text name) s (make_remote_end x d mtu name s)
unfolding make_remote_end
make_remote_end-Opened x d mtu name s = elim (Option-cases x.current_ns) [
  | inl no_ns ↦ rw (no_ns, make_remote_end) (λ i n h w. cc)
  | inr (ns, path) ↦ elim (Option-cases (addrs_in x d)) [
    | inl bad ↦ rw (path, bad, make_remote_end) (λ i n h w. cc)
    | inr (addrs, read) ↦
        rw (path, read, make_remote_end)
          (λ i n h w.
            let (named, index, handle, made) =
              make_pair-Opened x d (pod_end d addrs mtu) (host_end ns (x.text name))
                (ensure x.info d s x.objects x.leftover_removed) i n h w in
            (named, index, handle, (ns, addrs, refl, refl, made)))
  ]
]

-- The name that the host's end is to have.
abbrev pub host_name : World → WireDef → ℕ → String
host_name x d counter =
    x.text (gen_node_iface_name (codes d.local_pod_name) (codes d.intf_name_in_pod) counter).0

abbrev pub making_of : World → WireDef → (mtu counter : ℕ) → Daemon → Making
making_of x d mtu counter s =
    make_remote_end x d mtu
      (gen_node_iface_name (codes d.local_pod_name) (codes d.intf_name_in_pod) counter).0 s

-- A request for a wire that the daemon does not have.
without_wire :
    (x : World) (d : WireDef) (mtu counter : ℕ) (s : Daemon)
    → get_wire d.local_pod_net_ns d.link_uid s ≡ none
    → let added = add_remote_end x d mtu counter s in
      let made = add_grpc_wire_remote (making_of x d mtu counter s).ended d s in
      (added.response ≡ made.0)
      × (added.daemon ≡ made.1)
      × (added.acts ≡ (making_of x d mtu counter s).acts)
unfolding add_remote_end
without_wire x d mtu counter s e = rw (e, add_remote_end) (refl, refl, refl)

-- What the daemon keeps of a wire that was made.
kept :
    (d : WireDef) (s : Daemon) (i : ℕ) (n : String) (h : ℕ)
    → get_wire d.local_pod_net_ns d.link_uid s ≡ none
    → let (response, s') = add_grpc_wire_remote (some (i, n, h)) d s in
      (response ≡ (true, i))
      × (get_wire d.local_pod_net_ns d.link_uid s' ≡ some (create_gwire i n s.next_chan d))
      × (get_handle i s' ≡ some h)
unfolding add_grpc_wire_remote create_update_remote store_or_create update_wire_by_uid get_wire
    get_handle add_wire create_gwire
kept d s i n h e =
    rw (e, update_wire_by_uid, store_or_create)
      (
        refl,
        lookup-insert_self (d.local_pod_net_ns, d.link_uid) _ s.wires,
        lookup-insert_self i h s.handles,
      )

unmade :
    (d : WireDef) (s : Daemon)
    → get_wire d.local_pod_net_ns d.link_uid s ≡ none
    → let (response, s') = add_grpc_wire_remote none d s in
      (response.0 ≡ false)
      × (s'.wires ≡ s.wires)
      × (s'.handles ≡ s.handles)
      × (s'.requests ≡ s.requests)
unfolding add_grpc_wire_remote create_update_remote store_or_create update_wire_by_uid get_wire
unmade d s e = rw (e, update_wire_by_uid, store_or_create) (refl, refl, refl, refl)

-- If AddGRPCWireRemote answers yes for a wire that the daemon did not have, then the check for leftovers
-- refused nothing, koko.MakeVeth has made the pod's end and a host's end with the generated name without
-- an error, which with the removal of a leftover is all that was asked of the kernel, a handle was
-- opened, the answer is the index of the host's end, and the daemon keeps for the link the wire on that
-- interface, ready and with a stop channel of its own, and finds the handle by the index.
pub remote_end_made :
    (x : World) (d : WireDef) (mtu counter : ℕ) (s : Daemon)
    → get_wire d.local_pod_net_ns d.link_uid s ≡ none
    → (add_remote_end x d mtu counter s).response.0 ≡ true
    → let added = add_remote_end x d mtu counter s in
      (i : ℕ) × (h : ℕ) × (x.index_of (host_name x d counter) ≡ some i)
      × (x.handle ≡ some h)
      × (added.response ≡ (true, i))
      × (get_wire d.local_pod_net_ns d.link_uid added.daemon
          ≡ some (create_gwire i (host_name x d counter) s.next_chan d))
      × (get_handle i added.daemon ≡ some h)
      × EndsMade x d mtu (host_name x d counter) s added.acts
remote_end_made x d mtu counter s e done =
    let (response, daemon, acts) = without_wire x d mtu counter s e in
    elim (Option-cases (making_of x d mtu counter s).ended) [
      | inl failed ↦
          let refused = (unmade d s e).0 in
          let answered = rw (response, failed) at done in cc (refused, answered)
      | inr ((i, n, h), ended) ↦
          let (named, index, handle, ends) = make_remote_end-Opened x d mtu _ s i n h ended in
          let (yes_, wire, found) = kept d s i n h e in
          (
            i,
            h,
            index,
            handle,
            response ∙ rw ended yes_,
            ap (get_wire d.local_pod_net_ns d.link_uid) daemon
                ∙ rw ended wire
                ∙ ap (λ m. some (create_gwire i m s.next_chan d)) named,
            ap (get_handle i) daemon ∙ rw ended found,
            rw acts ends,
          )
    ]

-- If it answers no for such a wire, the wires and the handles of the daemon are as they were, and the
-- data store was asked for nothing.
pub remote_end_failed :
    (x : World) (d : WireDef) (mtu counter : ℕ) (s : Daemon)
    → get_wire d.local_pod_net_ns d.link_uid s ≡ none
    → (add_remote_end x d mtu counter s).response.0 ≡ false
    → let added = add_remote_end x d mtu counter s in
      (added.daemon.wires ≡ s.wires)
      × (added.daemon.handles ≡ s.handles)
      × (added.daemon.requests ≡ s.requests)
remote_end_failed x d mtu counter s e failed =
    let (response, daemon, acts) = without_wire x d mtu counter s e in
    elim (Option-cases (making_of x d mtu counter s).ended) [
      | inl none_made ↦
          let (refused, wires, handles, requests) = unmade d s e in
          rw (daemon, none_made) (wires, handles, requests)
      | inr ((i, n, h), ended) ↦
          let answered = ap (λ (r : Bool × ℕ). r.0) (kept d s i n h e).0 in
          let said = rw (response, ended) at failed in cc (answered, said)
    ]
