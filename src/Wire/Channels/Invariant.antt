-- ===== src/Wire/Channels/Invariant.antt =====
-- Every ready wire has an open stop channel of its own, so no operation closes a channel twice.
use meshnet_cni.Prelude.{
  ℕ, ◌+◌, ◌<◌, ◌≡◌, refl, sym, subst, true, false, String, Option, none, some, List, [], ◌∷◌, arith,
  nat_eq, string_eq, pair_eq, All, All-map, Bool-cases, Option-cases, inl, inr,
}
use meshnet_cni.Prelude.Assoc.{
  Assoc, lookup, insert, delete, AllPairs, AllPairs-lookup, AllPairs-insert, AllPairs-remove,
}
use meshnet_cni.Wire.{
  Daemon, GrpcWire, LinkKey, key_of, stop_if_ready, update_wire_by_uid, wire_down_by_uid,
}
use meshnet_cni.Wire.Channels.Separate.{
  Live, clash, Apart, In, In-lookup, Apart-delete, In-Apart, In-Live, stopped, stop_if_ready-eq,
  stopped-Live, fresh-open, fresh-apart, Live-suc,
}

pub record InvOf (wires : Assoc LinkKey GrpcWire) (closed : List ℕ) (next : ℕ) : Type 0 where
  pub live : AllPairs (Live closed next) wires
  pub apart : Apart wires
  pub made : All (λ c. c < next) closed

abbrev pub Inv : Daemon → Type 0
Inv s = InvOf s.wires s.closed s.next_chan

-- A wire with a new channel may be put under its key.
pub insert-Inv :
    (s : Daemon) (w : GrpcWire)
    → w.stop_c ≡ s.next_chan
    → Inv s
    → InvOf (insert (key_of w) w s.wires) s.closed (s.next_chan + 1)
insert-Inv s w new v = record {
  live =
      AllPairs-insert (Live s.closed (s.next_chan + 1)) (key_of w) w s.wires
        (record {
          keyed = refl;
          made = omega (arith, new);
          is_open = λ r. rw new (fresh-open s.next_chan s.closed v.made);
        })
        (Live-suc s.closed s.next_chan s.wires v.live);
  apart =
      unfold insert in
      (
        AllPairs-remove (λ k x. clash w x ≡ false) (key_of w) s.wires
            (fresh-apart s.closed w s.wires (rw new v.live)),
        Apart-delete (key_of w) s.wires v.apart,
      );
  made =
      All-map (λ c. c < s.next_chan) (λ c. c < s.next_chan + 1) s.closed (λ c h. omega arith)
        v.made;
}

pub Inv-suc : (s : Daemon) → Inv s → InvOf s.wires s.closed (s.next_chan + 1)
Inv-suc s v = record {
  live = Live-suc s.closed s.next_chan s.wires v.live;
  apart = v.apart;
  made =
      All-map (λ c. c < s.next_chan) (λ c. c < s.next_chan + 1) s.closed (λ c h. omega arith)
        v.made;
}

stopped-made :
    (w : GrpcWire) (s : Daemon)
    → w.stop_c < s.next_chan
    → Inv s
    → All (λ c. c < s.next_chan) (stopped w s).closed
stopped-made w s h v = elim (Bool-cases w.is_ready) [
  | inl r ↦ rw r (h, v.made)
  | inr r ↦ rw r v.made
]

-- Any wire may be taken out, and its thread stopped.
pub stop-delete-Inv :
    (s : Daemon) (w : GrpcWire)
    → In w s.wires
    → Inv s
    → InvOf (delete (key_of w) s.wires) (stopped w s).closed s.next_chan
stop-delete-Inv s w h v = record {
  live =
      stopped-Live w s (delete (key_of w) s.wires)
        (In-Apart s.closed s.next_chan w s.wires h v.live v.apart)
        (AllPairs-remove (Live s.closed s.next_chan) (key_of w) s.wires v.live);
  apart = Apart-delete (key_of w) s.wires v.apart;
  made = stopped-made w s (In-Live s.closed s.next_chan s.wires h v.live).made v;
}

down-apart :
    (w : GrpcWire) (m : Assoc LinkKey GrpcWire)
    → AllPairs (λ k x. clash (record w { is_ready = false }) x ≡ false) m
down-apart w [] = tt
down-apart w ((k, x) ∷ m) = (refl, down-apart w m)

-- A wire that has been stopped may be put back as not ready.
pub stop-insert-Inv :
    (s : Daemon) (w : GrpcWire)
    → In w s.wires
    → Inv s
    → InvOf
        (insert (key_of w) (record w { is_ready = false }) s.wires)
        (stopped w s).closed
        s.next_chan
unfolding insert
stop-insert-Inv s w h v =
    let g = stop-delete-Inv s w h v in
    record {
      live = (
        record {
          keyed = refl;
          made = (In-Live s.closed s.next_chan s.wires h v.live).made;
          is_open = λ r. cc;
        },
        g.live,
      );
      apart = (down-apart w (delete (key_of w) s.wires), g.apart);
      made = g.made;
    }

pub entry_is_open :
    (s : Daemon) (w : GrpcWire) → In w s.wires → Inv s → stop_if_ready w s ≡ some (stopped w s)
entry_is_open s w h v = stop_if_ready-eq w s (In-Live s.closed s.next_chan s.wires h v.live).is_open

-- What a computation leaves, if it does not panic, satisfies the invariant; and it does not panic.
abbrev pub Safe : Option Daemon → Type 0
Safe o = (s' : Daemon) × (o ≡ some s') × Inv s'

down_at :
    (ns : String) (uid : ℕ) (s : Daemon) {w : GrpcWire}
    → lookup (ns, uid) s.wires ≡ some w
    → stop_if_ready w s ≡ some (stopped w s)
    → wire_down_by_uid ns uid s
      ≡ some (record (stopped w s) {
        wires = insert (ns, uid) (record w { is_ready = false }) s.wires;
      })
unfolding wire_down_by_uid
down_at ns uid s e h = rw (e, wire_down_by_uid) (rw h)

down_nothing :
    (ns : String) (uid : ℕ) (s : Daemon)
    → lookup (ns, uid) s.wires ≡ none
    → wire_down_by_uid ns uid s ≡ some s
unfolding wire_down_by_uid
down_nothing ns uid s e = rw (e, wire_down_by_uid)

pub wire_down-Safe : (ns : String) (uid : ℕ) (s : Daemon) → Inv s → Safe (wire_down_by_uid ns uid s)
wire_down-Safe ns uid s v = elim (Option-cases (lookup (ns, uid) s.wires)) [
  | inl e ↦ (s, down_nothing ns uid s e, v)
  | inr (w, e) ↦
      let h = In-lookup (ns, uid) s.wires e in
      (
        _,
        down_at ns uid s e (entry_is_open s w h v),
        subst
            (λ k.
              InvOf (insert k (record w { is_ready = false }) s.wires) (stopped w s).closed
                s.next_chan)
            (sym ((AllPairs-lookup (Live s.closed s.next_chan) (ns, uid) s.wires v.live e).keyed))
            (stop-insert-Inv s w h v),
      )
]

-- The update of a wire that the map holds, with a new channel.
pub update-Inv :
    (ns : String) (uid peer : ℕ) (s : Daemon)
    → Inv s
    → Inv (update_wire_by_uid ns uid peer s.next_chan (record s { next_chan = s.next_chan + 1 })).1
unfolding update_wire_by_uid
update-Inv ns uid peer s v = elim (Option-cases (lookup (ns, uid) s.wires)) [
  | inl e ↦ rw (e, update_wire_by_uid) (Inv-suc s v)
  | inr (w, e) ↦
      rw (e, update_wire_by_uid)
        (subst (λ k. InvOf (insert k (renewed w) s.wires) s.closed (s.next_chan + 1))
          (sym ((AllPairs-lookup (Live s.closed s.next_chan) (ns, uid) s.wires v.live e).keyed))
          (insert-Inv s (renewed w) refl v))
]
  where
    renewed : GrpcWire → GrpcWire
    renewed w = record w {
      stop_c = s.next_chan;
      wire_iface_id_on_peer_node = peer;
      is_ready = true;
    }
