-- ===== src/Topology/Updates/Seen.antt =====
-- The word that a pod leaves for its peer is there when the peer asks.
use meshnet_cni.Prelude.{
  ℕ, ◌≤◌, ◌≡◌, refl, sym, ap, subst, ◌∙◌, inl, inr, Bool, true, false, ◌&&◌, ◌||◌, String, some,
  List, [], ◌∷◌, ◌==◌, nat_eq, string_eq, pair_eq, ==_iff, ==_refl, Bool-cases, Option-cases, count,
  any, arith,
}
use meshnet_cni.Topology.{Topology, set_alive, is_skipped, skip_reverse_peer}
use meshnet_cni.Topology.Skips.{is_skipped-skip, skip_reverse_peer_once}
use meshnet_cni.Topology.Updates.{
  Call, alive, skips, reverses_peer, reverses_own, target_of, change, written, Turn, begin, run,
}
use meshnet_cni.Topology.Updates.Replay.{or_same, replay}
use meshnet_cni.Topology.Updates.Exactly.{no_update_lost}
use meshnet_cni.Topology.Updates.Server.{Key, Api}

-- The calls that take entries away.
abbrev pub takes_away : Call → Bool
takes_away (alive p) = false
takes_away (skips ns pod peer link) = false
takes_away (reverses_peer ns pod peer link) = false
takes_away (reverses_own ns pod peer link) = true

or_true : (b : Bool) → (b || true) ≡ true
or_true true = refl
or_true false = refl

-- An entry stays under the change of another call.
change_keeps :
    (c : Call) (pod : String) (link : ℕ) (t : Topology)
    → takes_away c ≡ false
    → is_skipped pod link t ≡ true
    → is_skipped pod link (or_same (change c t) t) ≡ true
unfolding change
change_keeps (alive p) pod link t e h = unfold set_alive is_skipped in h
change_keeps (skips ns p peer l) pod link t e h =
    is_skipped-skip pod peer l link t ∙ rw h (or_true (pod == peer && link == l))
change_keeps (reverses_peer ns p peer l) pod link t e h =
    elim (Option-cases (skip_reverse_peer p l t)) [
      | inl nothing ↦ rw nothing h
      | inr (u, sent) ↦ rw sent (
          (skip_reverse_peer_once p pod l link t u sent).1 ∙ rw h (or_true (pod == p && link == l)))
    ]
change_keeps (reverses_own ns p peer l) pod link t e h = cc

-- The entry of a call that is in the log.
replay_keeps :
    (calls : ℕ → Call) (n : Key) (k : ℕ) (l : List ℕ) (t0 : Topology) (pod peer : String) (link : ℕ)
    → n ≡ target_of (calls k)
    → calls k ≡ skips n.0 pod peer link
    → any (λ j. takes_away (calls j)) l ≡ false
    → 1 ≤ count (λ x. x == k) l
    → is_skipped peer link (replay calls n l t0) ≡ true
unfolding change
replay_keeps calls n k [] t0 pod peer link en ek none_away h = absurd (omega arith)
replay_keeps calls n k (j ∷ l) t0 pod peer link en ek none_away h = elim (Bool-cases (j == k)) [
  | inl same ↦
      let key = (==_iff j k).0 same in
      let hit : (target_of (calls j) == n) ≡ true =
        subst (λ i. (target_of (calls i) == n) ≡ true) (sym key)
          (subst (λ m. (m == n) ≡ true) en (==_refl {A = Key} n)) in
      rw hit (
        rw key (
          rw ek (
            is_skipped-skip peer peer link link (replay calls n l t0)
            ∙ rw (==_refl peer, ==_refl link) refl)))
  | inr other ↦
      let away = any_false (takes_away (calls j)) (any (λ i. takes_away (calls i)) l) none_away in
      let kept = replay_keeps calls n k l t0 pod peer link en ek away.1 (rw other at h) in
      elim (Bool-cases (target_of (calls j) == n)) [
        | inl hit ↦ rw hit (change_keeps (calls j) peer link (replay calls n l t0) away.0 kept)
        | inr miss ↦ rw miss kept
      ]
]
  where
    any_false : (a b : Bool) → (a || b) ≡ false → (a ≡ false) × (b ≡ false)
    any_false true b e = cc
    any_false false b e = (refl, e)

-- A Skip that was answered with yes is seen: the pod's object says that the peer was skipped on the
-- link, however the turns of all calls fell, unless a SkipReverse has taken entries away.
pub skip_is_seen :
    (api : Api) (again : ℕ → Bool) (calls : ℕ → Call) (t0 : Topology) (v0 : ℕ) (o : api.Objects)
    (es : List Turn) (k : ℕ) (ns pod peer : String) (link : ℕ)
    → api.get (ns, pod) o ≡ some (t0, v0)
    → calls k ≡ skips ns pod peer link
    → (run api again calls es (begin api again calls o)).phase k ≡ written
    → any (λ j. takes_away (calls j)) (run api again calls es (begin api again calls o)).log ≡ false
    → (t : Topology) × (v : ℕ) × (api.get
          (ns, pod)
          (run api again calls es (begin api again calls o)).objects
        ≡ some (t, v))
      × (is_skipped peer link t ≡ true)
unfolding target_of
skip_is_seen api again calls t0 v0 o es k ns pod peer link here ek done away =
    let ((v, shown), counts) = no_update_lost api again calls (ns, pod) t0 v0 o es k here in
    let s = run api again calls es (begin api again calls o) in
    let one : count (λ x. x == k) s.log ≡ 1 = rw done at counts in
    (
      replay calls (ns, pod) s.log t0,
      v,
      shown,
      replay_keeps calls (ns, pod) k s.log t0 pod peer link (sym (ap target_of ek)) ek away
          (omega (arith, one)),
    )
