-- ===== src/Plugin/Chan/Ends.antt =====
-- What the daemons of module Wire have for the two ends of a wire of plugin/grpcwires-plugin.go.
use meshnet_cni.Prelude.{
  ℕ, ◌≡◌, refl, ap, inl, inr, true, String, Option, none, some, nat_eq, string_eq, pair_eq,
  Option-cases,
}
use meshnet_cni.Prelude.Assoc.{lookup-insert_self}
use meshnet_cni.Wire.{
  Daemon, GrpcWire, WireDef, get_wire, create_gwire, add_wire, add_in_mem, update_wire_by_uid,
}
use meshnet_cni.Wire.Steps.{
  create_grpc_wire_local, add_grpc_wire_remote, create_update_remote, store_or_create,
}

-- The daemon has the end of a wire that a definition names, ready, towards the peer's interface.
abbrev pub HasEnd : WireDef → GrpcWire → Daemon → Type 0
HasEnd d w s =
    (get_wire d.local_pod_net_ns d.link_uid s ≡ some w)
    × (w.is_ready ≡ true)
    × (w.wire_iface_id_on_peer_node ≡ d.wire_if_id_on_peer_node)

-- The own end, with the interface of the own node, towards the peer's node.
pub local_end :
    (i : ℕ) (handle : Option ℕ) (d : WireDef) (s : Daemon)
    → (create_grpc_wire_local (some i) handle d s).0 ≡ true
    → (w : GrpcWire) × HasEnd d w (create_grpc_wire_local (some i) handle d s).1
      × (w.local_node_iface_id ≡ i)
      × (w.peer_node_ip ≡ d.peer_node_ip)
unfolding create_grpc_wire_local add_wire add_in_mem create_gwire get_wire
local_end i none d s e = cc
local_end i (some handle) d s e =
    (_, (lookup-insert_self (d.local_pod_net_ns, d.link_uid) _ s.wires, refl, refl), refl, refl)

-- The node that a wire sends to after a trigger: that of the trigger, or that of an older wire.
abbrev pub ip_after : String → Option GrpcWire → String
ip_after ip none = ip
ip_after ip (some old) = old.peer_node_ip

-- What is known of the peer's end: it answers for the interface `id`, and has the own node's address
-- if the definition has made it.
abbrev pub RemoteEnd : WireDef → ℕ → (before after : Daemon) → Type 0
RemoteEnd d id before after =
    (w : GrpcWire) × HasEnd d w after
    × (w.local_node_iface_id ≡ id)
    × (w.peer_node_ip ≡ ip_after d.peer_node_ip (get_wire d.local_pod_net_ns d.link_uid before))

new_end :
    (made : Option (ℕ × String × ℕ)) (d : WireDef) (s : Daemon) (id : ℕ)
    → get_wire d.local_pod_net_ns d.link_uid s ≡ none
    → (add_grpc_wire_remote made d s).0 ≡ (true, id)
    → RemoteEnd d id s (add_grpc_wire_remote made d s).1
unfolding add_grpc_wire_remote create_update_remote store_or_create update_wire_by_uid add_wire
    add_in_mem create_gwire get_wire
new_end none d s id new e = let refused = rw (new, update_wire_by_uid, store_or_create) at e in cc
new_end (some (index, name, handle)) d s id new e =
    let w = record (create_gwire index name s.next_chan d) { is_ready = true } in
    (
      w,
      (
        rw (new, update_wire_by_uid, store_or_create)
            (lookup-insert_self (d.local_pod_net_ns, d.link_uid) w s.wires),
        refl,
        refl,
      ),
      ap (λ p. p.1) (rw (new, update_wire_by_uid, store_or_create) at e),
      rw new refl,
    )

old_end :
    (made : Option (ℕ × String × ℕ)) (d : WireDef) (s : Daemon) (id : ℕ) (w : GrpcWire)
    → get_wire d.local_pod_net_ns d.link_uid s ≡ some w
    → (add_grpc_wire_remote made d s).0 ≡ (true, id)
    → RemoteEnd d id s (add_grpc_wire_remote made d s).1
unfolding add_grpc_wire_remote create_update_remote store_or_create update_wire_by_uid get_wire
old_end made d s id w old e =
    let w' = record w {
      stop_c = s.next_chan;
      wire_iface_id_on_peer_node = d.wire_if_id_on_peer_node;
      is_ready = true;
    } in
    (
      w',
      (
        rw (old, update_wire_by_uid, store_or_create)
            (lookup-insert_self (d.local_pod_net_ns, d.link_uid) w' s.wires),
        refl,
        refl,
      ),
      ap (λ p. p.1) (rw (old, update_wire_by_uid, store_or_create) at e),
      rw old refl,
    )

pub their_end :
    (made : Option (ℕ × String × ℕ)) (d : WireDef) (s : Daemon) (id : ℕ)
    → (add_grpc_wire_remote made d s).0 ≡ (true, id)
    → RemoteEnd d id s (add_grpc_wire_remote made d s).1
their_end made d s id e = elim (Option-cases (get_wire d.local_pod_net_ns d.link_uid s)) [
  | inl new ↦ new_end made d s id new e
  | inr (w, old) ↦ old_end made d s id w old e
]
