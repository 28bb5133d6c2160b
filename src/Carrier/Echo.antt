-- ===== src/Carrier/Echo.antt =====
-- The echo table of internal/carrierprop/carrierprop.go: a state that was mirrored from the peer is
-- not sent back to the peer.
use meshnet_cni.Prelude.{
  ℕ, ◌-◌, ◌≡◌, Bool, true, false, ◌&&◌, none, List, [], ◌∷◌, arith, ◌==◌, if◌then◌else◌, nat_eq,
  bool_eq, count, nat_beq_iff, bool_beq_iff,
}
use meshnet_cni.Prelude.Assoc.{Assoc, lookup, insert, lookup-insert, lookup-delete}
use meshnet_cni.Carrier.{Edge, suppress_echo, consume_echo, holds}
use meshnet_cni.Carrier.Watch.{propagate}

-- The edges of key `k` to the state `up`.
abbrev pub is_edge : ℕ → Bool → Edge → Bool
is_edge k up e = e.key == k && e.up == up

lookup-consume_echo :
    (key k : ℕ) (up : Bool) (t : Assoc ℕ Bool)
    → lookup k (consume_echo key up t).1
      ≡ (if key == k && holds (lookup k t) up then none else lookup k t)
unfolding consume_echo
lookup-consume_echo key k up t = ground (arith, lookup-delete key k t, nat_beq_iff key k)

consume_echo-holds :
    (key : ℕ) (up : Bool) (t : Assoc ℕ Bool) → (consume_echo key up t).0 ≡ holds (lookup key t) up
unfolding consume_echo
consume_echo-holds key up t = ground arith

-- Of the edges of a key to a state, exactly the first is dropped if the table expects that state;
-- none is dropped otherwise, and no edge is invented.
pub count-propagate :
    (es : List Edge) (t : Assoc ℕ Bool) (k : ℕ) (up : Bool)
    → count (is_edge k up) (propagate es t).0
      ≡ (if holds (lookup k t) up then count (is_edge k up) es - 1 else count (is_edge k up) es)
unfolding propagate
count-propagate [] t k up = ground arith
count-propagate (e ∷ es) t k up = ground (
  arith,
  count-propagate es (consume_echo e.key e.up t).1 k up,
  lookup-consume_echo e.key k e.up t,
  consume_echo-holds e.key e.up t,
  nat_beq_iff e.key k,
  bool_beq_iff e.up up,
)

-- After the daemon has applied the peer's state to an interface, the next edge of that interface to
-- that state is not sent back; the table then expects nothing, so the edge after it is sent.
pub suppressed_once :
    (k : ℕ) (up : Bool) (t : Assoc ℕ Bool)
    → let (echo, t') = consume_echo k up (suppress_echo k up t) in
      (echo ≡ true) × ((consume_echo k up t').0 ≡ false)
unfolding suppress_echo consume_echo
suppressed_once k up t = ground (
  arith,
  lookup-insert k k up t,
  lookup-delete k k (insert k up t),
  nat_beq_iff k k,
  bool_beq_iff up up,
)
