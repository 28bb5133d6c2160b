-- ===== src/DataStore/Attempts.antt =====
-- One attempt to store or to delete a status, and what RetryOnConflict makes of the attempts.
use meshnet_cni.Prelude.{
  ℕ, ◌<◌, ◌≡◌, refl, ◌⊎◌, inl, inr, true, String, Option, none, some, [], ◌∷◌,
}
use meshnet_cni.Wire.{GrpcWire}
use meshnet_cni.DataStore.{
  create_wire_status, upsert_loop, GWireStatus, status, not_found, conflict, other, Fetched,
  get_failed, wrong_type, absent, null, items, Sent, nothing, created, updated, Answer,
  update_attempt, delete_attempt, delete_pod_attempt, records_wire, upsert_grpc_wire_items,
}
use meshnet_cni.DataStore.Prune.{stored_is_recorded}

-- k8s.io/client-go/util/retry.RetryOnConflict with its default back-off. An attempt is known by what
-- it returns; `last` is the number of the attempt that the call returns.
pub record RetryOnConflict : Type 0 where
  pub last : (ℕ → Answer) → ℕ
  -- Only a conflict is tried again.
  pub retries_conflicts : (f : ℕ → Answer) (i : ℕ) → i < last f → f i ≡ some conflict
  -- At most five attempts.
  pub bounded : (f : ℕ → Answer) → last f < 5

-- The object that was written, if any, records the wire.
abbrev pub Recorded : GWireStatus → Sent → Type 0
Recorded ws nothing = ⊥
Recorded ws (created l) = records_wire ws.local_pod_net_ns ws.link_id l ≡ true
Recorded ws (updated l) = records_wire ws.local_pod_net_ns ws.link_id l ≡ true

first_is_recorded :
    (ws : GWireStatus) → records_wire ws.local_pod_net_ns ws.link_id (status ws ∷ []) ≡ true
first_is_recorded ws = unfold upsert_grpc_wire_items upsert_loop in stored_is_recorded [] ws

stored_or_lost :
    (ws : GWireStatus) (f : Fetched) (a : Answer)
    → (update_attempt ws f a).1 ≡ none
    → Recorded ws (update_attempt ws f a).0 ⊎ (f ≡ absent) ⊎ (f ≡ null)
unfolding update_attempt
stored_or_lost ws (get_failed not_found) a e = inl (first_is_recorded ws)
stored_or_lost ws (get_failed conflict) a e = cc
stored_or_lost ws (get_failed other) a e = cc
stored_or_lost ws wrong_type a e = cc
stored_or_lost ws absent a e = inr (inl refl)
stored_or_lost ws null a e = inr (inr refl)
stored_or_lost ws (items l) a e = inl (stored_is_recorded l ws)

-- updateGRPCWireStatus over its attempts: what the attempt that counts has sent, and its error.
unfoldable pub update_grpc_wire_status :
    RetryOnConflict → GWireStatus → (ℕ → Fetched) → (ℕ → Answer) → Sent × Answer
update_grpc_wire_status r ws fetched answers =
    let i = r.last (λ i. (update_attempt ws (fetched i) (answers i)).1) in
    update_attempt ws (fetched i) (answers i)

-- K8sStoreGWire: an error of the update is logged and not returned.
unfoldable pub k8s_store_g_wire :
    RetryOnConflict → Option String → GrpcWire → (ℕ → Fetched) → (ℕ → Answer) → Sent × Answer
unfolding update_grpc_wire_status create_wire_status
k8s_store_g_wire r none w fetched answers = (nothing, some other)
k8s_store_g_wire r (some node) w fetched answers =
    ((update_grpc_wire_status r (create_wire_status w node) fetched answers).0, none)

-- deleteGRPCWireStatus over its attempts.
unfoldable pub delete_grpc_wire_status :
    RetryOnConflict → GWireStatus → (ℕ → Fetched) → (ℕ → Answer) → Sent × Answer
delete_grpc_wire_status r ws fetched answers =
    let i = r.last (λ i. (delete_attempt ws (fetched i) (answers i)).1) in
    delete_attempt ws (fetched i) (answers i)

-- K8sDelGWire: without a node name it goes on with an empty one.
unfoldable pub k8s_del_g_wire :
    RetryOnConflict → Option String → GrpcWire → (ℕ → Fetched) → (ℕ → Answer) → Sent × Answer
unfolding delete_grpc_wire_status create_wire_status
k8s_del_g_wire r none w fetched answers =
    delete_grpc_wire_status r (create_wire_status w "") fetched answers
k8s_del_g_wire r (some node) w fetched answers =
    delete_grpc_wire_status r (create_wire_status w node) fetched answers

-- deleteGRPCWireStatusByPod over its attempts.
unfoldable pub delete_grpc_wire_status_by_pod :
    RetryOnConflict → Option String → String → (ℕ → Fetched) → (ℕ → Answer) → Sent × Answer
delete_grpc_wire_status_by_pod r none pod fetched answers = (nothing, some other)
delete_grpc_wire_status_by_pod r (some node) pod fetched answers =
    let i = r.last (λ i. (delete_pod_attempt pod (fetched i) (answers i)).1) in
    delete_pod_attempt pod (fetched i) (answers i)

-- If storing a status reports no error, then, however the attempts before were answered, the object
-- sent last records the wire, or the node's object had no list of items and nothing was sent.
pub update_success :
    (r : RetryOnConflict) (ws : GWireStatus) (fetched : ℕ → Fetched) (answers : ℕ → Answer)
    → (update_grpc_wire_status r ws fetched answers).1 ≡ none
    → Recorded ws (update_grpc_wire_status r ws fetched answers).0
      ⊎ ((i : ℕ) × (i < 5) × ((fetched i ≡ absent) ⊎ (fetched i ≡ null)))
unfolding update_grpc_wire_status
update_success r ws fetched answers e =
    let attempt = λ (i : ℕ). (update_attempt ws (fetched i) (answers i)).1 in
    let i = r.last attempt in
    elim (stored_or_lost ws (fetched i) (answers i) e) [
      | inl recorded ↦ inl recorded
      | inr lost ↦ inr (i, r.bounded attempt, lost)
    ]
