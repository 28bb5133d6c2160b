-- ===== src/Recon/Survival.antt =====
-- A wire across a restart of its daemon: stored with `upsertGRPCWireItems`, and taken up by
-- ReconGWires, both of daemon/grpcwire/gwire_recon.go.
use meshnet_cni.Prelude.{
  ◌⊎◌, ℕ, ◌≡◌, refl, ◌∙◌, inl, inr, Bool, true, false, String, Option, none, some, List, [], ◌∷◌,
  ◌++◌, if◌then◌else◌, Bool-cases, ◌==◌, nat_eq, string_eq, pair_eq, All, All-append,
}
use meshnet_cni.Prelude.Assoc.{lookup, lookup-insert, lookup-insert_self}
use meshnet_cni.Wire.{
  Daemon, GrpcWire, LinkKey, peer_created_wire, start, get_wire, create_gwire, add_in_mem,
}
use meshnet_cni.Wire.Steps.{re_create_gwire, is_live, adopted_or_pruned, recon_local_grpc_wire}
use meshnet_cni.DataStore.{
  GWireStatus, Item, not_map, bad_map, status, create_wire_status, is_stale, is_same, upsert_loop,
  upsert_grpc_wire_items,
}
use meshnet_cni.Recon.{Kernel, wire_def_of, recon_items, recon_objects, recon_gwires}
use meshnet_cni.Recon.Restore.{Restored, ObjectRestored, recon_restores}

-- The status is for the same link in the same network namespace.
abbrev pub is_end_of : GWireStatus → GWireStatus → Bool
is_end_of ws x =
    ◌==◌ {A = LinkKey} (x.local_pod_net_ns, x.link_id) (ws.local_pod_net_ns, ws.link_id)

-- Every status for the link end is this one.
abbrev pub Only : GWireStatus → Item → Type 0
Only ws (not_map n) = Unit
Only ws (bad_map n) = Unit
Only ws (status x) = is_end_of ws x ≡ true → x ≡ ws

-- Every status for the link end would be replaced by this one.
abbrev pub Replaceable : GWireStatus → Item → Type 0
Replaceable ws (not_map n) = Unit
Replaceable ws (bad_map n) = Unit
Replaceable ws (status x) = is_end_of ws x ≡ true → is_same ws x ≡ true

-- No status is for the link end.
abbrev pub Foreign : GWireStatus → Item → Type 0
Foreign ws (not_map n) = Unit
Foreign ws (bad_map n) = Unit
Foreign ws (status x) = is_end_of ws x ≡ false

abbrev pub InObject : (Item → Type 0) → Option (List Item) → Type 0
InObject P none = Unit
InObject P (some l) = All P l

keep_or :
    (P : Item → Type 0) (b : Bool) (l r : List Item)
    → All P l
    → All P r
    → All P (if b then l else r)
keep_or P true l r hl hr = hl
keep_or P false l r hl hr = hr

kept_Only :
    (ws x : GWireStatus) (r : List Item)
    → Replaceable ws (status x)
    → is_same ws x ≡ false
    → All (Only ws) r
    → All (Only ws) (status x ∷ r)
kept_Only ws x r h other hr = (λ own. cc (h own, other), hr)

upsert_loop-Only :
    (ws : GWireStatus) (replaced : Bool) (l : List Item)
    → All (Replaceable ws) l
    → All (Only ws) (upsert_loop ws replaced l)
unfolding upsert_loop
upsert_loop-Only ws true [] h = tt
upsert_loop-Only ws false [] h = (λ own. refl, tt)
upsert_loop-Only ws r (not_map n ∷ l) h = (tt, upsert_loop-Only ws r l h.1)
upsert_loop-Only ws r (bad_map n ∷ l) h = (tt, upsert_loop-Only ws r l h.1)
upsert_loop-Only ws r (status x ∷ l) h = elim (Bool-cases (is_stale ws x)) [
  | inl stale ↦ rw stale (upsert_loop-Only ws r l h.1)
  | inr fresh ↦ elim (Bool-cases (is_same ws x)) [
    | inl same ↦
        rw (fresh, same)
          (keep_or (Only ws) r _ _ (upsert_loop-Only ws true l h.1)
            ((λ own. refl), upsert_loop-Only ws true l h.1))
    | inr other ↦ rw (fresh, other) (kept_Only ws x _ h.0 other (upsert_loop-Only ws r l h.1))
  ]
]

-- The status is among the items that were written.
upsert_loop_has :
    (P : Item → Type 0) (ws : GWireStatus) (l : List Item)
    → All P (upsert_loop ws false l)
    → P (status ws)
unfolding upsert_loop
upsert_loop_has P ws [] h = h.0
upsert_loop_has P ws (not_map n ∷ l) h = upsert_loop_has P ws l h.1
upsert_loop_has P ws (bad_map n ∷ l) h = upsert_loop_has P ws l h.1
upsert_loop_has P ws (status x ∷ l) h = elim (Bool-cases (is_stale ws x)) [
  | inl stale ↦ upsert_loop_has P ws l (rw stale at h)
  | inr fresh ↦ elim (Bool-cases (is_same ws x)) [
    | inl same ↦ (rw (fresh, same) at h).0
    | inr other ↦ upsert_loop_has P ws l (rw (fresh, other) at h).1
  ]
]

-- The daemon has the wire of the status, with some stop channel, and the index `i` of its interface.
abbrev pub Found : ℕ → GWireStatus → Daemon → Type 0
Found i ws s =
    (c : ℕ) × (get_wire ws.local_pod_net_ns ws.link_id s
      ≡ some (create_gwire i ws.wire_iface_name_on_local_node c (wire_def_of ws)))

-- The daemon has no wire for the link end, or that of the status.
abbrev pub AtMost : ℕ → GWireStatus → Daemon → Type 0
AtMost i ws s = (get_wire ws.local_pod_net_ns ws.link_id s ≡ none) ⊎ Found i ws s

-- The loop meets the status itself.
recreate_own :
    (i h : ℕ) (ws : GWireStatus) (s : Daemon)
    → AtMost i ws s
    → AtMost i ws (re_create_gwire (some i) (some h) (wire_def_of ws) s).1
unfolding re_create_gwire wire_def_of is_live adopted_or_pruned recon_local_grpc_wire get_wire
    add_in_mem create_gwire
recreate_own i h ws s (inl fresh) =
    inr (s.next_chan, rw fresh (lookup-insert_self (ws.local_pod_net_ns, ws.link_id) _ s.wires))
recreate_own i h ws s (inr (c, e)) = rw e (inr (c, e))

-- Taking up another link end leaves this one as it was.
adopts_other :
    (iface handle : Option ℕ) (ws x : GWireStatus) (s : Daemon)
    → is_end_of ws x ≡ false
    → get_wire ws.local_pod_net_ns ws.link_id
        (adopted_or_pruned
          (wire_def_of x)
          s
          (recon_local_grpc_wire iface handle (wire_def_of x) s)).1
      ≡ get_wire ws.local_pod_net_ns ws.link_id s
unfolding wire_def_of adopted_or_pruned recon_local_grpc_wire get_wire add_in_mem create_gwire
adopts_other none handle ws x s other = refl
adopts_other (some i) none ws x s other = refl
adopts_other (some i) (some h) ws x s other =
    lookup-insert (x.local_pod_net_ns, x.link_id) (ws.local_pod_net_ns, ws.link_id) _ s.wires
    ∙ rw other refl

recreate_other :
    (iface handle : Option ℕ) (ws x : GWireStatus) (s : Daemon)
    → is_end_of ws x ≡ false
    → get_wire ws.local_pod_net_ns ws.link_id (re_create_gwire iface handle (wire_def_of x) s).1
      ≡ get_wire ws.local_pod_net_ns ws.link_id s
unfolding re_create_gwire
recreate_other iface handle ws x s other =
    let d = wire_def_of x in
    elim (Bool-cases (is_live (get_wire d.local_pod_net_ns d.link_uid s))) [
      | inl live ↦ rw live refl
      | inr not_live ↦ rw not_live (adopts_other iface handle ws x s other)
    ]

-- Opening the interface of the wire finds its index and a handle.
module _ (k : Kernel) (ws : GWireStatus) (i h : ℕ)
    (index : k.index_of ws.wire_iface_name_on_local_node ≡ some i)
    (opened : k.opens ws.wire_iface_name_on_local_node ≡ some h) where
  recreate-AtMost :
      (x : GWireStatus) (s : Daemon)
      → Only ws (status x)
      → AtMost i ws s
      → let name = x.wire_iface_name_on_local_node in
        AtMost i ws (re_create_gwire (k.index_of name) (k.opens name) (wire_def_of x) s).1
  recreate-AtMost x s only a = elim (Bool-cases (is_end_of ws x)) [
    | inl own ↦ rw (only own, index, opened) (recreate_own i h ws s a)
    | inr other ↦
        let name = x.wire_iface_name_on_local_node in
        rw (recreate_other (k.index_of name) (k.opens name) ws x s other) a
  ]

  items-AtMost :
      (l : List Item) (s : Daemon)
      → All (Only ws) l
      → AtMost i ws s
      → AtMost i ws (recon_items k l s)
  unfolding recon_items
  items-AtMost [] s only a = a
  items-AtMost (not_map n ∷ l) s only a = items-AtMost l s only.1 a
  items-AtMost (bad_map n ∷ l) s only a = items-AtMost l s only.1 a
  items-AtMost (status x ∷ l) s only a = items-AtMost l _ only.1 (recreate-AtMost x s only.0 a)

  objects-AtMost :
      (l : List (Option (List Item))) (s : Daemon)
      → All (InObject (Only ws)) l
      → AtMost i ws s
      → AtMost i ws (recon_objects k l s)
  unfolding recon_objects
  objects-AtMost [] s only a = a
  objects-AtMost (none ∷ l) s only a = objects-AtMost l s only.1 a
  objects-AtMost (some items ∷ l) s only a =
      objects-AtMost l _ only.1 (items-AtMost items s only.0 a)

  live-Found : (s : Daemon) → AtMost i ws s → Restored k s (status ws) → Found i ws s
  unfolding is_live
  live-Found s a (inl gone) = cc (gone, index)
  live-Found s a (inr (inl refused)) = cc (refused, opened)
  live-Found s (inr found) (inr (inr live)) = found
  live-Found s (inl missing) (inr (inr live)) = absurd (cc (rw missing at live))

Foreign-Only : (ws : GWireStatus) (l : List Item) → All (Foreign ws) l → All (Only ws) l
Foreign-Only ws [] h = tt
Foreign-Only ws (not_map n ∷ l) h = (tt, Foreign-Only ws l h.1)
Foreign-Only ws (bad_map n ∷ l) h = (tt, Foreign-Only ws l h.1)
Foreign-Only ws (status x ∷ l) h = (λ own. cc (own, h.0), Foreign-Only ws l h.1)

objects-Only :
    (ws : GWireStatus) (l : List (Option (List Item)))
    → All (InObject (Foreign ws)) l
    → All (InObject (Only ws)) l
objects-Only ws [] h = tt
objects-Only ws (none ∷ l) h = (tt, objects-Only ws l h.1)
objects-Only ws (some items ∷ l) h = (Foreign-Only ws items h.0, objects-Only ws l h.1)

All-middle {ℓ κ} :
    {A : Type ℓ} (P : A → Type κ) (xs ys : List A) (y : A) → All P (xs ++ y ∷ ys) → P y
All-middle P [] ys y h = h.0
All-middle P (x ∷ xs) ys y h = All-middle P xs ys y h.1

-- What a restart changes of a wire: it is ready, its stop channel is new, and it counts as made by
-- the peer.
abbrev pub after_restart : ℕ → GrpcWire → GrpcWire
after_restart c w = record w {
  is_ready = true;
  originator = peer_created_wire;
  originator_ip = w.peer_node_ip;
  stop_c = c;
}

-- A wire is stored for a node, and the node's daemon starts again. Then ReconGWires makes the same
-- wire of what was stored, ready, with a new stop channel and as one that the peer has made, if the
-- wire's interface is on the node with its index and can be opened. Every status for the same link in
-- the same network namespace is to be in the object that was written, and of the wire's topology and
-- node; the other items and objects are any.
pub wire_survives_restart :
    (k : Kernel) (w : GrpcWire) (node : String) (h : ℕ) (l : List Item)
    (before after : List (Option (List Item)))
    → k.index_of w.local_node_iface_name ≡ some w.local_node_iface_id
    → k.opens w.local_node_iface_name ≡ some h
    → All (Replaceable (create_wire_status w node)) l
    → All (InObject (Foreign (create_wire_status w node))) before
    → All (InObject (Foreign (create_wire_status w node))) after
    → let stored = upsert_grpc_wire_items l (create_wire_status w node) in
      let (failed, s) = recon_gwires k (some (before ++ some stored ∷ after)) start in
      (failed ≡ false)
      × ((c : ℕ) × (get_wire w.local_pod_net_ns w.uid s ≡ some (after_restart c w)))
unfolding create_wire_status upsert_grpc_wire_items recon_gwires wire_def_of create_gwire get_wire
    lookup
wire_survives_restart k w node h l before after index opened mine earlier later =
    let ws = create_wire_status w node in
    let objects = before ++ some (upsert_loop ws false l) ∷ after in
    let only =
      All-append (InObject (Only ws)) before _ (objects-Only ws before earlier)
        (upsert_loop-Only ws false l mine, objects-Only ws after later) in
    let s = recon_objects k objects start in
    let restored =
      upsert_loop_has (Restored k s) ws l
        (All-middle (ObjectRestored k s) before after _ (recon_restores k objects start).1) in
    (
      refl,
      live-Found k ws w.local_node_iface_id h index opened s
          (objects-AtMost k ws w.local_node_iface_id h index opened objects start only (inl refl))
          restored,
    )
