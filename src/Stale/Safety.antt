-- ===== src/Stale/Safety.antt =====
-- An interface is removed only if it is a leftover.
use meshnet_cni.Prelude.{
  refl, ℕ, ◌≡◌, ◌↔◌, ◌&&◌, not, Bool, true, false, String, Option, none, some, List, [], ◌∷◌, ◌++◌,
  arith,
}
use meshnet_cni.Wire.{Daemon, WireDef, get_wire}
use meshnet_cni.DataStore.{
  Item, GWireStatus, is_wire_recorded, records_wire, upsert_grpc_wire_items,
}
use meshnet_cni.DataStore.Prune.{stored_is_recorded}
use meshnet_cni.Stale.{LinkInfo, ensure, recorded_in}

-- The namespace could be inspected, and the name is taken.
abbrev pub is_taken : Option LinkInfo → Bool
is_taken none = false
is_taken (some info) = info.present

-- The interface is removed exactly if the namespace could be inspected, the name is taken by a veth,
-- the wire is not in memory, and the data store could be read and has no record of the wire. The
-- creation is refused exactly if the name is taken and was not freed: the interface was not removed, or
-- its removal failed.
pub removes_iff :
    (info : Option LinkInfo) (d : WireDef) (s : Daemon)
    (objects : Option (List (Option (List Item)))) (removed : Bool)
    → let v = ensure info d s objects removed in
      ((v.removes ≡ true) ↔ (
        (info ≡ some (record { present = true; is_veth = true }))
        × (get_wire d.local_pod_net_ns d.link_uid s ≡ none)
        × (recorded_in d objects ≡ some false)))
      × (v.refuses ≡ (is_taken info && not (v.removes && removed)))
unfolding ensure
removes_iff none d s objects removed = ground arith
removes_iff (some info) d s none removed = ground arith
removes_iff (some info) d s (some l) removed = ground arith

recorded-among :
    (ns : String) (link : ℕ) (before after : List (Option (List Item))) (l : List Item)
    → records_wire ns link l ≡ true
    → is_wire_recorded ns link (before ++ some l ∷ after) ≡ true
unfolding is_wire_recorded
recorded-among ns link [] after l h = rw h
recorded-among ns link (none ∷ before) after l h = recorded-among ns link before after l h
recorded-among ns link (some x ∷ before) after l h =
    ground (arith, recorded-among ns link before after l h)

-- The interface of a wire whose status was stored for the node is never removed, whether the data store
-- can be read or not, and while it can the creation is refused exactly if the name is taken.
pub stored_never_removed :
    (info : Option LinkInfo) (d : WireDef) (s : Daemon) (before after : List (Option (List Item)))
    (l : List Item) (ws : GWireStatus) (removed : Bool)
    → ws.local_pod_net_ns ≡ d.local_pod_net_ns
    → ws.link_id ≡ d.link_uid
    → let objects = before ++ some (upsert_grpc_wire_items l ws) ∷ after in
      ((ensure info d s (some objects) removed).removes ≡ false)
      × ((ensure info d s none removed).removes ≡ false)
      × ((ensure info d s (some objects) removed).refuses ≡ is_taken info)
unfolding ensure
stored_never_removed none d s before after l ws removed ns link = (refl, refl, refl)
stored_never_removed (some info) d s before after l ws removed ns link =
    let known =
      recorded-among ws.local_pod_net_ns ws.link_id before after (upsert_grpc_wire_items l ws)
        (stored_is_recorded l ws) in
    let known' : is_wire_recorded d.local_pod_net_ns d.link_uid
          (before ++ some (upsert_grpc_wire_items l ws) ∷ after)
        ≡ true =
      rw (← ns, ← link) known in
    (ground (arith, known'), ground arith, ground (arith, known'))
