-- ===== src/DataStore/Prune.antt =====
-- Which wires count as recorded after a status is stored, or is deleted by its link or by its pod.
use meshnet_cni.Prelude.{
  ℕ, ◌+◌, ◌≡◌, refl, ap, true, false, not, String, List, [], ◌∷◌, arith, ◌==◌, if◌then◌else◌,
  nat_eq, string_eq, filter, any, ==_refl, nat_beq_iff, length,
}
use meshnet_cni.DataStore.{
  GWireStatus, Item, not_map, bad_map, status, upsert_loop, upsert_grpc_wire_items, without_link,
  without_pod, removed_of_pod, records_wire,
}
use meshnet_cni.DataStore.Upsert.{on_status}

records-upsert_loop :
    (ws : GWireStatus) (l : List Item)
    → records_wire ws.local_pod_net_ns ws.link_id (upsert_loop ws false l) ≡ true
unfolding upsert_loop records_wire
records-upsert_loop ws [] = simp ==_refl
records-upsert_loop ws (not_map n ∷ l) = records-upsert_loop ws l
records-upsert_loop ws (bad_map n ∷ l) = records-upsert_loop ws l
records-upsert_loop ws (status x ∷ l) =
    ground (arith, records-upsert_loop ws l, ==_refl ws.link_id, ==_refl ws.local_pod_net_ns)

-- A wire whose status has been stored counts as recorded, so that a stale-interface check finds it.
pub stored_is_recorded :
    (l : List Item) (ws : GWireStatus)
    → records_wire ws.local_pod_net_ns ws.link_id (upsert_grpc_wire_items l ws) ≡ true
unfolding upsert_grpc_wire_items
stored_is_recorded l ws = records-upsert_loop ws l

-- Deleting the status of a link forgets that link in every network namespace, and no other link.
pub records-without_link :
    (ns : String) (link other : ℕ) (l : List Item)
    → records_wire ns other (without_link link l)
      ≡ (if other == link then false else records_wire ns other l)
unfolding without_link records_wire
records-without_link ns link other [] = ground arith
records-without_link ns link other (not_map n ∷ l) = records-without_link ns link other l
records-without_link ns link other (bad_map n ∷ l) = records-without_link ns link other l
records-without_link ns link other (status x ∷ l) = ground (
  arith,
  records-without_link ns link other l,
  nat_beq_iff other link,
  nat_beq_iff x.link_id link,
  nat_beq_iff x.link_id other,
)

-- Deleting a pod's statuses leaves none of that pod, counts what it removed, and keeps every other
-- item, also one that does not convert.
pub without_pod-removes :
    (pod : String) (l : List Item)
    → (any (on_status (λ x. x.local_pod_name == pod)) (without_pod pod l) ≡ false)
      × (length (without_pod pod l) + removed_of_pod pod l ≡ length l)
      × (without_pod pod l ≡ filter (λ i. not (on_status (λ x. x.local_pod_name == pod) i)) l)
unfolding without_pod removed_of_pod
without_pod-removes pod [] = (refl, refl, refl)
without_pod-removes pod (not_map n ∷ l) =
    let r = without_pod-removes pod l in (r.0, omega (arith, r.1), ap (◌∷◌ (not_map n)) r.2)
without_pod-removes pod (bad_map n ∷ l) =
    let r = without_pod-removes pod l in (r.0, omega (arith, r.1), ap (◌∷◌ (bad_map n)) r.2)
without_pod-removes pod (status x ∷ l) =
    let r = without_pod-removes pod l in
    (ground (arith, r.0), ground (arith, r.1), ground (arith, r.2))
