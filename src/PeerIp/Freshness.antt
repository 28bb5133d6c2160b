-- ===== src/PeerIp/Freshness.antt =====
-- An address that is accepted was listed by a node within the lifetime of the cache.
use meshnet_cni.Prelude.{
  ℕ, ◌+◌, ◌≤◌, ◌≡◌, refl, sym, subst, ◌⊎◌, inl, inr, not, true, false, Bool-cases, Option-cases,
  String, Option, none, some, List, [], ◌∷◌, arith, ltb, ◌==◌, string_eq, any,
}
use mathlib.Core.Option.{some-injective}
use meshnet_cni.PeerIp.{
  node_ip_cache_ttl, Address, Cache, set_node_client, ips_of_nodes, Call, refresh_node_ips,
  accepted, is_expired, known, validate_peer_node_ip, after,
}

-- The addresses `l`, good until `e`, are those of the list that the call stored.
abbrev pub Stored : Call → List String → ℕ → Type 0
Stored c l e =
    (nodes : List (List Address)) × (c.nodes ≡ some nodes)
    × (l ≡ ips_of_nodes nodes)
    × (e ≡ c.stored_at + node_ip_cache_ttl)

abbrev pub StoredIn : List Call → List String → ℕ → Type 0
StoredIn [] l e = ⊥
StoredIn (c ∷ cs) l e = Stored c l e ⊎ StoredIn cs l e

-- The cache uses its client, and holds what a call of the history has stored.
abbrev Sound : List Call → Cache → Type 0
Sound cs s =
    (s.client ≡ true) × ((l : List String) → s.node_ip_set ≡ some l → StoredIn cs l s.expiry)

-- What a call may do to a sound cache: keep it, or store the list that it has got.
call_cases :
    (c : Call) (s : Cache)
    → s.client ≡ true
    → ((validate_peer_node_ip c s).1 ≡ s)
      ⊎ ((nodes : List (List Address)) × (c.nodes ≡ some nodes)
          × ((validate_peer_node_ip c s).1 ≡ record s {
            node_ip_set = some (ips_of_nodes nodes);
            expiry = c.stored_at + node_ip_cache_ttl;
          }))
unfolding validate_peer_node_ip refresh_node_ips
call_cases c s on =
    let off : not s.client ≡ false = rw on refl in
    elim (Bool-cases (is_expired s c.now)) [
      | inl stale ↦ elim (Option-cases c.nodes) [
        | inl failed ↦ inl (rw (off, stale, failed, validate_peer_node_ip, refresh_node_ips) refl)
        | inr (nodes, got) ↦ inr (
          nodes,
          got,
          rw (off, stale, got, validate_peer_node_ip, refresh_node_ips)
              (rw (got, refresh_node_ips) refl),
        )
      ]
      | inr fresh ↦ inl (rw (off, fresh, validate_peer_node_ip) refl)
    ]

after-Sound : (cs : List Call) → Sound cs (after cs)
unfolding after set_node_client
after-Sound [] = (refl, λ l e. cc)
after-Sound (c ∷ cs) =
    let (on, stored) = after-Sound cs in
    elim (call_cases c (after cs) on) [
      | inl same ↦ subst (Sound (c ∷ cs)) (sym same) (on, λ l e. inr (stored l e))
      | inr (nodes, got, new) ↦
          subst (Sound (c ∷ cs)) (sym new)
            (on, λ l e. inl (nodes, got, sym (some-injective _ _ e), refl))
    ]

known_lists :
    (ip : String) (l : List String) → known ip (some l) ≡ accepted → any (λ x. x == ip) l ≡ true
known_lists ip l e = ground arith

stale_lists :
    (c : Call) (s : Cache) (n : Option (List (List Address)))
    → s.client ≡ true
    → is_expired s c.now ≡ true
    → c.nodes ≡ n
    → (validate_peer_node_ip c s).0 ≡ accepted
    → (nodes : List (List Address)) × (n ≡ some nodes)
      × (any (λ x. x == c.ip) (ips_of_nodes nodes) ≡ true)
unfolding validate_peer_node_ip refresh_node_ips
stale_lists c s none on stale hn e =
    let off : not s.client ≡ false = rw on refl in
    let e' = rw (off, stale, hn, validate_peer_node_ip, refresh_node_ips) at e in cc
stale_lists c s (some nodes) on stale hn e =
    let off : not s.client ≡ false = rw on refl in
    let e' = rw (off, stale, hn, validate_peer_node_ip, refresh_node_ips) at e in
    (nodes, refl, known_lists c.ip (ips_of_nodes nodes) e')

fresh_lists :
    (c : Call) (s : Cache) (o : Option (List String))
    → s.client ≡ true
    → is_expired s c.now ≡ false
    → s.node_ip_set ≡ o
    → (validate_peer_node_ip c s).0 ≡ accepted
    → (l : List String) × (o ≡ some l) × (c.now ≤ s.expiry) × (any (λ x. x == c.ip) l ≡ true)
unfolding validate_peer_node_ip
fresh_lists c s none on fresh ho e = let fresh' = rw ho at fresh in cc
fresh_lists c s (some l) on fresh ho e =
    let off : not s.client ≡ false = rw on refl in
    let e' = rw (off, fresh, ho, validate_peer_node_ip) at e in
    let late : ltb s.expiry c.now ≡ false = rw ho at fresh in
    (l, refl, ground arith, known_lists c.ip l e')

-- Whatever was asked before, an address that is accepted is one that the list of nodes of this call,
-- or of an earlier one, has named, and that list is not older than the lifetime of the cache, if the
-- clock did not run back between this call's test and its storing of the list.
pub accepted_is_recent :
    (cs : List Call) (c : Call)
    → c.now ≤ c.stored_at
    → (validate_peer_node_ip c (after cs)).0 ≡ accepted
    → (l : List String) × (e : ℕ) × StoredIn (c ∷ cs) l e
      × (c.now ≤ e)
      × (any (λ x. x == c.ip) l ≡ true)
accepted_is_recent cs c clock ok =
    let (on, stored) = after-Sound cs in
    elim (Bool-cases (is_expired (after cs) c.now)) [
      | inl stale ↦
          let (nodes, got, lists) = stale_lists c (after cs) c.nodes on stale refl ok in
          (
            ips_of_nodes nodes,
            c.stored_at + node_ip_cache_ttl,
            inl (nodes, got, refl, refl),
            omega arith,
            lists,
          )
      | inr fresh ↦
          let (l, held, young, lists) =
            fresh_lists c (after cs) (after cs).node_ip_set on fresh refl ok in
          (l, (after cs).expiry, inr (stored l held), young, lists)
    ]
