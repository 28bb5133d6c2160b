-- ===== src/Recon/Restore.antt =====
-- What ReconGWires of daemon/grpcwire/gwire_recon.go takes up.
use meshnet_cni.Prelude.{
  ◌⊎◌, Option-cases, ℕ, ◌≡◌, refl, inl, inr, Bool, true, false, String, Option, none, some, List,
  [], ◌∷◌, if◌then◌else◌, Bool-cases, ◌==◌, nat_eq, string_eq, pair_eq, All, All-map,
}
use meshnet_cni.Prelude.Assoc.{lookup-insert, lookup-insert_self}
use meshnet_cni.Wire.{Daemon, WireDef, GrpcWire, LinkKey, get_wire, create_gwire, add_in_mem}
use meshnet_cni.Wire.Steps.{re_create_gwire, is_live, adopted_or_pruned, recon_local_grpc_wire}
use meshnet_cni.DataStore.{GWireStatus, Item, not_map, bad_map, status}
use meshnet_cni.Recon.{Kernel, wire_def_of, recon_items, recon_objects, recon_gwires}

-- The daemon has a wire for the link in this namespace, and it is ready.
abbrev pub HasLive : String → ℕ → Daemon → Type 0
HasLive ns uid s = is_live (get_wire ns uid s) ≡ true

live_either :
    (b : Bool) (w : GrpcWire) (o : Option GrpcWire)
    → w.is_ready ≡ true
    → is_live o ≡ true
    → is_live (if b then some w else o) ≡ true
unfolding is_live
live_either true w o hw ho = hw
live_either false w o hw ho = ho

adopted_keeps :
    (iface handle : Option ℕ) (d : WireDef) (s : Daemon) (ns : String) (uid : ℕ)
    → HasLive ns uid s
    → HasLive ns uid (adopted_or_pruned d s (recon_local_grpc_wire iface handle d s)).1
unfolding adopted_or_pruned recon_local_grpc_wire get_wire add_in_mem create_gwire is_live
adopted_keeps none handle d s ns uid h = h
adopted_keeps (some i) none d s ns uid h = h
adopted_keeps (some i) (some x) d s ns uid h =
    rw (lookup-insert (d.local_pod_net_ns, d.link_uid) (ns, uid) _ s.wires) (
      live_either (◌==◌ {A = LinkKey} (d.local_pod_net_ns, d.link_uid) (ns, uid))
        (create_gwire i d.wire_if_name_on_local_node s.next_chan d) (get_wire ns uid s) refl h)

adopted_has :
    (iface handle : Option ℕ) (i x : ℕ) (d : WireDef) (s : Daemon)
    → iface ≡ some i
    → handle ≡ some x
    → HasLive d.local_pod_net_ns d.link_uid
        (adopted_or_pruned d s (recon_local_grpc_wire iface handle d s)).1
unfolding adopted_or_pruned recon_local_grpc_wire get_wire add_in_mem create_gwire is_live
adopted_has iface handle i x d s hi hx =
    rw (hi, hx, recon_local_grpc_wire)
      (rw (lookup-insert_self (d.local_pod_net_ns, d.link_uid) _ s.wires) refl)

recreate_keeps :
    (iface handle : Option ℕ) (d : WireDef) (s : Daemon) (ns : String) (uid : ℕ)
    → HasLive ns uid s
    → HasLive ns uid (re_create_gwire iface handle d s).1
unfolding re_create_gwire
recreate_keeps iface handle d s ns uid h =
    elim (Bool-cases (is_live (get_wire d.local_pod_net_ns d.link_uid s))) [
      | inl live ↦ rw (live, re_create_gwire) h
      | inr none_live ↦ rw (none_live, re_create_gwire) (adopted_keeps iface handle d s ns uid h)
    ]

recreate_has :
    (iface handle : Option ℕ) (i x : ℕ) (d : WireDef) (s : Daemon)
    → iface ≡ some i
    → handle ≡ some x
    → HasLive d.local_pod_net_ns d.link_uid (re_create_gwire iface handle d s).1
unfolding re_create_gwire
recreate_has iface handle i x d s hi hx =
    elim (Bool-cases (is_live (get_wire d.local_pod_net_ns d.link_uid s))) [
      | inl live ↦ rw (live, re_create_gwire) live
      | inr none_live ↦ rw (none_live, re_create_gwire) (adopted_has iface handle i x d s hi hx)
    ]

items_keep :
    (k : Kernel) (l : List Item) (s : Daemon) (ns : String) (uid : ℕ)
    → HasLive ns uid s
    → HasLive ns uid (recon_items k l s)
unfolding recon_items
items_keep k [] s ns uid h = h
items_keep k (not_map n ∷ l) s ns uid h = items_keep k l s ns uid h
items_keep k (bad_map n ∷ l) s ns uid h = items_keep k l s ns uid h
items_keep k (status ws ∷ l) s ns uid h = items_keep k l _ ns uid (
    recreate_keeps (k.index_of ws.wire_iface_name_on_local_node)
      (k.opens ws.wire_iface_name_on_local_node) (wire_def_of ws) s ns uid h)

objects_keep :
    (k : Kernel) (l : List (Option (List Item))) (s : Daemon) (ns : String) (uid : ℕ)
    → HasLive ns uid s
    → HasLive ns uid (recon_objects k l s)
unfolding recon_objects
objects_keep k [] s ns uid h = h
objects_keep k (none ∷ l) s ns uid h = objects_keep k l s ns uid h
objects_keep k (some items ∷ l) s ns uid h =
    objects_keep k l (recon_items k items s) ns uid (items_keep k items s ns uid h)

-- The wire of a status is there, and ready, or its interface is not on the node or cannot be opened.
abbrev pub Restored : Kernel → Daemon → Item → Type 0
Restored k s (not_map n) = Unit
Restored k s (bad_map n) = Unit
Restored k s (status ws) =
    (k.index_of ws.wire_iface_name_on_local_node ≡ none)
    ⊎ (k.opens ws.wire_iface_name_on_local_node ≡ none)
    ⊎ HasLive ws.local_pod_net_ns ws.link_id s

-- The items of an object are restored.
abbrev pub ObjectRestored : Kernel → Daemon → Option (List Item) → Type 0
ObjectRestored k s none = Unit
ObjectRestored k s (some items) = All (Restored k s) items

one-Restored :
    (k : Kernel) (ws : GWireStatus) (s : Daemon)
    → let name = ws.wire_iface_name_on_local_node in
      Restored k (re_create_gwire (k.index_of name) (k.opens name) (wire_def_of ws) s).1 (status ws)
unfolding wire_def_of
one-Restored k ws s =
    let name = ws.wire_iface_name_on_local_node in
    elim (Option-cases (k.index_of name)) [
      | inl gone ↦ inl gone
      | inr (i, index) ↦ elim (Option-cases (k.opens name)) [
        | inl refused ↦ inr (inl refused)
        | inr (x, opened) ↦ inr (
            inr (recreate_has (k.index_of name) (k.opens name) i x (wire_def_of ws) s index opened))
      ]
    ]

-- What is restored stays so.
stays-Restored :
    (k : Kernel) (s t : Daemon) (item : Item)
    → ((ns : String) (uid : ℕ) → HasLive ns uid s → HasLive ns uid t)
    → Restored k s item
    → Restored k t item
stays-Restored k s t (not_map n) keep h = tt
stays-Restored k s t (bad_map n) keep h = tt
stays-Restored k s t (status ws) keep (inl gone) = inl gone
stays-Restored k s t (status ws) keep (inr (inl refused)) = inr (inl refused)
stays-Restored k s t (status ws) keep (inr (inr live)) =
    inr (inr (keep ws.local_pod_net_ns ws.link_id live))

items_restore : (k : Kernel) (l : List Item) (s : Daemon) → All (Restored k (recon_items k l s)) l
unfolding recon_items
items_restore k [] s = tt
items_restore k (not_map n ∷ l) s = (tt, items_restore k l s)
items_restore k (bad_map n ∷ l) s = (tt, items_restore k l s)
items_restore k (status ws ∷ l) s =
    let name = ws.wire_iface_name_on_local_node in
    let s' = (re_create_gwire (k.index_of name) (k.opens name) (wire_def_of ws) s).1 in
    (
      stays-Restored k s' _ (status ws) (items_keep k l s') (one-Restored k ws s),
      items_restore k l s',
    )

objects_restore :
    (k : Kernel) (l : List (Option (List Item))) (s : Daemon)
    → All (ObjectRestored k (recon_objects k l s)) l
unfolding recon_objects
objects_restore k [] s = tt
objects_restore k (none ∷ l) s = (tt, objects_restore k l s)
objects_restore k (some items ∷ l) s =
    let s' = recon_items k items s in
    (
      All-map _ _ items (λ item h. stays-Restored k s' _ item (objects_keep k l s') h)
          (items_restore k items s),
      objects_restore k l s',
    )

-- After ReconGWires has listed the objects of the node, every recorded wire is in the daemon's map and
-- ready, unless its interface is not on the node or cannot be opened, whatever the other items and
-- objects are.
pub recon_restores :
    (k : Kernel) (objects : List (Option (List Item))) (s : Daemon)
    → let (failed, s') = recon_gwires k (some objects) s in
      (failed ≡ false) × All (ObjectRestored k s') objects
unfolding recon_gwires
recon_restores k objects s = (refl, objects_restore k objects s)
