-- ===== src/Topology/Skips.antt =====
-- The skip lists: how a pod that came up first leaves word for its peer.
use meshnet_cni.Prelude.{
  Bool, not, filter, ℕ, ◌≡◌, refl, true, false, ◌&&◌, ◌||◌, String, some, List, [], ◌∷◌, ◌++◌,
  arith, ◌==◌, if◌then◌else◌, nat_eq, string_eq, nat_beq_iff, ==_iff, ==_refl,
}
use meshnet_cni.Topology.{
  Topology, SkipItem, not_map, bad_map, skipped, skip, is_skipped, names, skip_reverse_peer,
  skip_reverse_own, kept_skips,
}

names-append :
    (pod peer : String) (link l : ℕ) (s : List SkipItem)
    → names pod l (s ++ skipped (record { pod_name = peer; link_id = link }) ∷ [])
      ≡ ((pod == peer && l == link) || names pod l s)
unfolding names
names-append pod peer link l [] = refl
names-append pod peer link l (not_map n ∷ s) = names-append pod peer link l s
names-append pod peer link l (bad_map n ∷ s) = names-append pod peer link l s
names-append pod peer link l (skipped x ∷ s) = ground (arith, names-append pod peer link l s)

-- After a pod has skipped `peer` on a link, the peer finds that it was skipped on that link, and
-- every other question about the skip list has the answer that it had.
pub is_skipped-skip :
    (pod peer : String) (link l : ℕ) (t : Topology)
    → is_skipped pod l (skip peer link t) ≡ ((pod == peer && l == link) || is_skipped pod l t)
unfolding is_skipped skip
is_skipped-skip pod peer link l t = names-append pod peer link l t.skips

-- A pod that goes down leaves word with a peer that is alive: the peer's list names it on that link
-- afterwards, whatever else is asked has its old answer, and going down again adds nothing.
pub skip_reverse_peer_once :
    (pod other : String) (link l : ℕ) (t u : Topology)
    → skip_reverse_peer pod link t ≡ some u
    → (is_skipped pod link u ≡ true)
      × (is_skipped other l u ≡ ((other == pod && l == link) || is_skipped other l t))
      × (skip_reverse_peer pod link u ≡ some u)
unfolding skip_reverse_peer is_skipped
skip_reverse_peer_once pod other link l t u e =
    let mine = names-append pod pod link link t.skips in
    (
      ground (arith, mine, ==_refl pod, nat_beq_iff link link),
      ground (arith, names-append other pod link l t.skips, ==_iff other pod, nat_beq_iff l link),
      ground (arith, mine, ==_refl pod, nat_beq_iff link link),
    )

names-kept_skips :
    (pod peer : String) (link l : ℕ) (s : List SkipItem)
    → names pod l (kept_skips peer link s)
      ≡ (if pod == peer || l == link then false else names pod l s)
unfolding names kept_skips
names-kept_skips pod peer link l [] = ground arith
names-kept_skips pod peer link l (not_map n ∷ s) = names-kept_skips pod peer link l s
names-kept_skips pod peer link l (bad_map n ∷ s) = names-kept_skips pod peer link l s
names-kept_skips pod peer link l (skipped x ∷ s) = ground (
  arith,
  names-kept_skips pod peer link l s,
  ==_iff pod x.pod_name,
  ==_iff x.pod_name peer,
  ==_iff pod peer,
  nat_beq_iff l x.link_id,
  nat_beq_iff x.link_id link,
  nat_beq_iff l link,
)

-- An entry that can be read and names neither the peer nor the link.
abbrev pub is_apart : String → ℕ → SkipItem → Bool
is_apart peer link (skipped x) = not (x.pod_name == peer || x.link_id == link)
is_apart peer link _ = false

kept_skips-filter :
    (peer : String) (link : ℕ) (s : List SkipItem)
    → kept_skips peer link s ≡ filter (is_apart peer link) s
unfolding kept_skips
kept_skips-filter peer link [] = refl
kept_skips-filter peer link (not_map n ∷ s) = kept_skips-filter peer link s
kept_skips-filter peer link (bad_map n ∷ s) = kept_skips-filter peer link s
kept_skips-filter peer link (skipped x ∷ s) = ground (arith, kept_skips-filter peer link s)

-- When a pod goes down, its own skip list keeps, in order, the entries that can be read and name
-- neither the peer, on whatever link, nor the link, of whatever peer. So whoever asks finds no skip for
-- that peer or on that link, and elsewhere what was there.
pub is_skipped-skip_reverse_own :
    (pod peer : String) (link l : ℕ) (t : Topology)
    → ((skip_reverse_own peer link t).skips ≡ filter (is_apart peer link) t.skips)
      × (is_skipped pod l (skip_reverse_own peer link t)
          ≡ (if pod == peer || l == link then false else is_skipped pod l t))
unfolding is_skipped skip_reverse_own
is_skipped-skip_reverse_own pod peer link l t =
    (kept_skips-filter peer link t.skips, names-kept_skips pod peer link l t.skips)
