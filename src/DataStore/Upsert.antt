-- ===== src/DataStore/Upsert.antt =====
-- What `upsertGRPCWireItems` does to the list of items.
use meshnet_cni.Prelude.{
  ◌≡◌, refl, ap, Bool, true, false, ◌||◌, not, List, [], ◌∷◌, arith, if◌then◌else◌, nat_eq,
  string_eq, filter, any, ==_refl,
}
use meshnet_cni.DataStore.{
  GWireStatus, Item, not_map, bad_map, status, is_stale, is_same, upsert_loop,
  upsert_grpc_wire_items,
}

abbrev pub on_status : (GWireStatus → Bool) → Item → Bool
on_status p (status x) = p x
on_status p _ = false

is_same_refl : (ws : GWireStatus) → is_same ws ws ≡ true
unfolding is_same
is_same_refl ws = simp ==_refl

is_stale_irrefl : (ws : GWireStatus) → is_stale ws ws ≡ false
unfolding is_stale
is_stale_irrefl ws = simp ==_refl

mine-upsert_loop :
    (ws : GWireStatus) (replaced : Bool) (l : List Item)
    → filter (on_status (is_same ws)) (upsert_loop ws replaced l)
      ≡ (if replaced then [] else status ws ∷ [])
unfolding upsert_loop
mine-upsert_loop ws true [] = refl
mine-upsert_loop ws false [] = rw is_same_refl
mine-upsert_loop ws r (not_map n ∷ l) = mine-upsert_loop ws r l
mine-upsert_loop ws r (bad_map n ∷ l) = mine-upsert_loop ws r l
mine-upsert_loop ws true (status x ∷ l) = ground (arith, mine-upsert_loop ws true l)
mine-upsert_loop ws false (status x ∷ l) =
    ground (arith, is_same_refl ws, mine-upsert_loop ws true l, mine-upsert_loop ws false l)

any_stale-upsert_loop :
    (ws : GWireStatus) (replaced : Bool) (l : List Item)
    → any (on_status (is_stale ws)) (upsert_loop ws replaced l) ≡ false
unfolding upsert_loop
any_stale-upsert_loop ws true [] = refl
any_stale-upsert_loop ws false [] = rw is_stale_irrefl
any_stale-upsert_loop ws r (not_map n ∷ l) = any_stale-upsert_loop ws r l
any_stale-upsert_loop ws r (bad_map n ∷ l) = any_stale-upsert_loop ws r l
any_stale-upsert_loop ws true (status x ∷ l) = ground (arith, any_stale-upsert_loop ws true l)
any_stale-upsert_loop ws false (status x ∷ l) =
    ground
      (arith, is_stale_irrefl ws, any_stale-upsert_loop ws true l, any_stale-upsert_loop ws false l)

-- The items that are neither the status to store nor an older incarnation of it.
abbrev pub is_bystander : GWireStatus → Item → Bool
is_bystander ws (status x) = not (is_stale ws x || is_same ws x)
is_bystander ws _ = true

bystanders-upsert_loop :
    (ws : GWireStatus) (replaced : Bool) (l : List Item)
    → filter (is_bystander ws) (upsert_loop ws replaced l) ≡ filter (is_bystander ws) l
unfolding upsert_loop
bystanders-upsert_loop ws true [] = refl
bystanders-upsert_loop ws false [] = rw (is_same_refl, is_stale_irrefl)
bystanders-upsert_loop ws r (not_map n ∷ l) = ap (◌∷◌ (not_map n)) (bystanders-upsert_loop ws r l)
bystanders-upsert_loop ws r (bad_map n ∷ l) = ap (◌∷◌ (bad_map n)) (bystanders-upsert_loop ws r l)
bystanders-upsert_loop ws true (status x ∷ l) = ground (arith, bystanders-upsert_loop ws true l)
bystanders-upsert_loop ws false (status x ∷ l) = ground (
  arith,
  is_same_refl ws,
  is_stale_irrefl ws,
  bystanders-upsert_loop ws true l,
  bystanders-upsert_loop ws false l,
)

idem_loop :
    (ws : GWireStatus) (replaced : Bool) (l : List Item)
    → upsert_loop ws replaced (upsert_loop ws replaced l) ≡ upsert_loop ws replaced l
unfolding upsert_loop
idem_loop ws true [] = refl
idem_loop ws false [] = ground (arith, is_same_refl ws, is_stale_irrefl ws)
idem_loop ws true (not_map n ∷ l) = ap (◌∷◌ (not_map n)) (idem_loop ws true l)
idem_loop ws false (not_map n ∷ l) = ap (◌∷◌ (not_map n)) (idem_loop ws false l)
idem_loop ws true (bad_map n ∷ l) = ap (◌∷◌ (bad_map n)) (idem_loop ws true l)
idem_loop ws false (bad_map n ∷ l) = ap (◌∷◌ (bad_map n)) (idem_loop ws false l)
idem_loop ws true (status x ∷ l) = ground (arith, idem_loop ws true l)
idem_loop ws false (status x ∷ l) =
    ground (arith, is_same_refl ws, is_stale_irrefl ws, idem_loop ws true l, idem_loop ws false l)

-- After a status has been stored, it is the one status of its identity in the list; there is no older
-- incarnation of the same pod's link end, and everything else is as before, in the same order.
pub upsert_replaces :
    (l : List Item) (ws : GWireStatus)
    → (filter (on_status (is_same ws)) (upsert_grpc_wire_items l ws) ≡ status ws ∷ [])
      × (any (on_status (is_stale ws)) (upsert_grpc_wire_items l ws) ≡ false)
      × (filter (is_bystander ws) (upsert_grpc_wire_items l ws) ≡ filter (is_bystander ws) l)
unfolding upsert_grpc_wire_items
upsert_replaces l ws = (
  mine-upsert_loop ws false l,
  any_stale-upsert_loop ws false l,
  bystanders-upsert_loop ws false l,
)

-- Storing a status a second time, as a retry or a second trigger does, changes nothing.
pub upsert_idem :
    (l : List Item) (ws : GWireStatus)
    → upsert_grpc_wire_items (upsert_grpc_wire_items l ws) ws ≡ upsert_grpc_wire_items l ws
unfolding upsert_grpc_wire_items
upsert_idem l ws = idem_loop ws false l
