-- ===== src/DataStore/Examples.antt =====
-- The data-store theorems at concrete lists of items.
use meshnet_cni.Prelude.{
  ℕ, zero, suc, subst, inl, inr, Bool-cases, ◌≤◌, ◌+◌, ◌<◌, ◌≡◌, refl, Bool, true, false, String,
  none, some, List, [], ◌∷◌, arith, nat_eq, string_eq, filter, any,
}
use native.Mathlib.Decide.{ℕ_discrete}
use meshnet_cni.DataStore.{
  not_found, other, GWireStatus, Item, not_map, status, is_stale, is_same, upsert_grpc_wire_items,
  Answer, conflict,
}
use meshnet_cni.DataStore.Upsert.{on_status, is_bystander, upsert_replaces}

abbrev wire_at : String → ℕ → GWireStatus
wire_at ns link = record {
  local_node_name = "node-1";
  link_id = link;
  topo_namespace = "lab";
  local_pod_net_ns = ns;
  local_pod_name = "r1";
  local_pod_ip = "12.12.12.1/24";
  local_pod_iface_name = "eth1";
  wire_iface_name_on_local_node = "r1eth1-0001";
  wire_iface_id_on_peer_node = 41;
  gwire_peer_node_ip = "10.0.0.2";
}

abbrev stored : List Item
stored = not_map 0 ∷ status (wire_at "a" 1) ∷ status (wire_at "a" 2) ∷ status (wire_at "b" 1) ∷ []

recycled :
    upsert_grpc_wire_items stored (wire_at "b" 1)
    ≡ not_map 0 ∷ status (wire_at "a" 2) ∷ status (wire_at "b" 1) ∷ []
unfolding upsert_grpc_wire_items
recycled = refl

upsert_replaces_example :
    (filter (on_status (is_same (wire_at "b" 1))) (upsert_grpc_wire_items stored (wire_at "b" 1))
      ≡ status (wire_at "b" 1) ∷ [])
    × (any (on_status (is_stale (wire_at "b" 1))) (upsert_grpc_wire_items stored (wire_at "b" 1))
        ≡ false)
    × (filter (is_bystander (wire_at "b" 1)) (upsert_grpc_wire_items stored (wire_at "b" 1))
        ≡ filter (is_bystander (wire_at "b" 1)) stored)
upsert_replaces_example = upsert_replaces stored (wire_at "b" 1)

-- A retry that looks at five attempts.
abbrev pub is_conflict : Answer → Bool
is_conflict (some conflict) = true
is_conflict _ = false

abbrev pub first_settled : ℕ → ℕ → (ℕ → Answer) → ℕ
first_settled zero i f = i
first_settled (suc n) i f = elim (is_conflict (f i)) [
  | true ↦ first_settled n (i + 1) f
  | false ↦ i
]

conflict_of : (a : Answer) → is_conflict a ≡ true → a ≡ some conflict
conflict_of (some conflict) e = refl
conflict_of none e = cc
conflict_of (some not_found) e = cc
conflict_of (some other) e = cc

pub first_settled-conflicts :
    (n i : ℕ) (f : ℕ → Answer) (j : ℕ) → i ≤ j → j < first_settled n i f → f j ≡ some conflict
first_settled-conflicts zero i f j le lt = absurd (omega arith)
first_settled-conflicts (suc n) i f j le lt = elim (Bool-cases (is_conflict (f i))) [
  | inl c ↦ elim (ℕ_discrete i j) [
    | yes e ↦ subst (λ k. f k ≡ some conflict) e (conflict_of (f i) c)
    | no ne ↦ first_settled-conflicts n (i + 1) f j (omega arith) (rw (c, first_settled) at lt)
  ]
  | inr s ↦ let lt' : j < i = rw (s, first_settled) at lt in absurd (omega arith)
]

pub first_settled-le : (n i : ℕ) (f : ℕ → Answer) → first_settled n i f ≤ n + i
first_settled-le zero i f = omega arith
first_settled-le (suc n) i f = ground (arith, first_settled-le n (i + 1) f)
