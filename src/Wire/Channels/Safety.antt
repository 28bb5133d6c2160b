-- ===== src/Wire/Channels/Safety.antt =====
-- No history of wire operations makes a daemon close a channel twice.
use meshnet_cni.Prelude.{
  ℕ, ◌+◌, ◌≡◌, refl, sym, subst, ◌∙◌, true, String, Option, none, some, List, [], ◌∷◌, nat_eq,
  string_eq, pair_eq, Bool-cases, Option-cases, inl, inr,
}
use meshnet_cni.Prelude.Assoc.{lookup, insert}
use meshnet_cni.Wire.{
  Daemon, GrpcWire, WireDef, start, create_gwire, add_wire, add_in_mem, get_wire,
  update_wire_by_uid,
}
use meshnet_cni.Wire.Steps.{
  Op, adds_local, adds_remote, downs, removes, reconciles, step, run, create_grpc_wire_local,
  create_update_remote, add_grpc_wire_remote, recon_local_grpc_wire, re_create_gwire, is_live,
  store_or_create, adopted_or_pruned,
}
use meshnet_cni.Wire.Channels.Invariant.{Inv, Safe, insert-Inv, Inv-suc, wire_down-Safe, update-Inv}
use meshnet_cni.Wire.Channels.Removal.{delete_pod_wires-Drained}

local-Inv :
    (iface handle : Option ℕ) (d : WireDef) (s : Daemon)
    → Inv s
    → Inv (create_grpc_wire_local iface handle d s).1
unfolding create_grpc_wire_local create_gwire add_wire
local-Inv none handle d s v = v
local-Inv (some index) none d s v = v
local-Inv (some index) (some handle) d s v = insert-Inv s _ refl v

adopted-Inv :
    (iface handle : Option ℕ) (d : WireDef) (s : Daemon)
    → Inv s
    → Inv (adopted_or_pruned d s (recon_local_grpc_wire iface handle d s)).1
unfolding adopted_or_pruned recon_local_grpc_wire create_gwire add_in_mem
adopted-Inv none handle d s v = v
adopted-Inv (some index) none d s v = v
adopted-Inv (some index) (some h) d s v = insert-Inv s _ refl v

recon-Inv :
    (iface handle : Option ℕ) (d : WireDef) (s : Daemon)
    → Inv s
    → Inv (re_create_gwire iface handle d s).1
unfolding re_create_gwire
recon-Inv iface handle d s v =
    elim (Bool-cases (is_live (get_wire d.local_pod_net_ns d.link_uid s))) [
      | inl live ↦ rw live v
      | inr dead ↦ rw dead (adopted-Inv iface handle d s v)
    ]

update_missing :
    (ns : String) (uid peer c : ℕ) (s : Daemon)
    → lookup (ns, uid) s.wires ≡ none
    → update_wire_by_uid ns uid peer c s ≡ (none, s)
unfolding update_wire_by_uid
update_missing ns uid peer c s e = rw (e, update_wire_by_uid)

abbrev renewed : ℕ → ℕ → GrpcWire → GrpcWire
renewed peer c w = record w { stop_c = c; wire_iface_id_on_peer_node = peer; is_ready = true }

update_found :
    (ns : String) (uid peer c : ℕ) (s : Daemon) (w : GrpcWire)
    → lookup (ns, uid) s.wires ≡ some w
    → update_wire_by_uid ns uid peer c s
      ≡ (some (renewed peer c w), record s { wires = insert (ns, uid) (renewed peer c w) s.wires })
unfolding update_wire_by_uid
update_found ns uid peer c s w e = rw (e, update_wire_by_uid)

created-Inv :
    (made : Option (ℕ × String × ℕ)) (d : WireDef) (s : Daemon)
    → Inv s
    → Inv (store_or_create made d s.next_chan (none, record s { next_chan = s.next_chan + 1 })).1
unfolding store_or_create create_gwire add_wire
created-Inv none d s v = Inv-suc s v
created-Inv (some (index, name, handle)) d s v = insert-Inv s _ refl v

updated-Inv :
    (made : Option (ℕ × String × ℕ)) (d : WireDef) (n : ℕ) (w : GrpcWire) (s : Daemon)
    → Inv s
    → Inv (store_or_create made d n (some w, s)).1
unfolding store_or_create
updated-Inv made d n w s v = v

remote-Inv :
    (made : Option (ℕ × String × ℕ)) (d : WireDef) (s : Daemon)
    → Inv s
    → Inv (add_grpc_wire_remote made d s).1
unfolding add_grpc_wire_remote create_update_remote
remote-Inv made d s v =
    let ns = d.local_pod_net_ns in
    let s1 : Daemon = record s { next_chan = s.next_chan + 1 } in
    elim (Option-cases (lookup (ns, d.link_uid) s.wires)) [
      | inl e ↦
          subst (λ u. Inv (store_or_create made d s.next_chan u).1)
            (sym (update_missing ns d.link_uid d.wire_if_id_on_peer_node s.next_chan s1 e))
            (created-Inv made d s v)
      | inr (w, e) ↦
          let w' = renewed d.wire_if_id_on_peer_node s.next_chan w in
          let up = update_found ns d.link_uid d.wire_if_id_on_peer_node s.next_chan s1 w e in
          subst (λ u. Inv (store_or_create made d s.next_chan u).1) (sym up)
            (updated-Inv made d s.next_chan w'
              (record s1 { wires = insert (ns, d.link_uid) w' s.wires })
              (subst (λ (u : Option GrpcWire × Daemon). Inv u.1) up
                (update-Inv ns d.link_uid d.wire_if_id_on_peer_node s v)))
    ]

-- From any state in which the wires have their own channels, every operation returns, without the
-- panic of closing a closed channel, and leaves such a state.
pub step-Safe : (s : Daemon) (o : Op) → Inv s → Safe (step s o)
unfolding step
step-Safe s (adds_local iface handle d) v = (_, refl, local-Inv iface handle d s v)
step-Safe s (adds_remote made d) v = (_, refl, remote-Inv made d s v)
step-Safe s (downs d) v = wire_down-Safe d.local_pod_net_ns d.link_uid s v
step-Safe s (removes veth d) v =
    let (r, e, inv, empty) = delete_pod_wires-Drained veth d.topo_ns d.local_pod_name s v in
    (r.1, rw (e, step), inv)
step-Safe s (reconciles iface handle d) v = (_, refl, recon-Inv iface handle d s v)

step_then :
    (s s1 : Daemon) (o : Op) (os : List Op) → step s o ≡ some s1 → run s (o ∷ os) ≡ run s1 os
unfolding run
step_then s s1 o os e = rw (e, run)

run-Safe : (s : Daemon) (os : List Op) → Inv s → Safe (run s os)
unfolding run
run-Safe s [] v = (s, refl, v)
run-Safe s (o ∷ os) v =
    let (s1, e, v1) = step-Safe s o v in
    let (s2, e2, v2) = run-Safe s1 os v1 in (s2, step_then s s1 o os e ∙ e2, v2)

-- A daemon that starts empty serves every history of wire operations, whatever the kernel answers,
-- without closing a stop channel twice; afterwards every ready wire has an open channel, and no two
-- ready wires have the same one.
pub start-run-Safe : (os : List Op) → Safe (run start os)
start-run-Safe os = run-Safe start os (record { live = tt; apart = tt; made = tt })
