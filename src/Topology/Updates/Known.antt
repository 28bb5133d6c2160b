-- ===== src/Topology/Updates/Known.antt =====
-- What a call knows of the object that it is about to write, and what an update makes of it.
use meshnet_cni.Prelude.{
  ℕ, ◌<◌, ◌≡◌, sym, ap, subst, ◌∙◌, ◌⊎◌, inl, inr, false, some, List, ◌∷◌, ◌==◌, nat_eq, string_eq,
  pair_eq, ==_iff, Bool-cases, arith,
}
use mathlib.Core.Option.{some-injective}
use meshnet_cni.Topology.{Topology}
use meshnet_cni.Topology.Updates.{
  Call, target_of, change, Phase, reads, writes, written, unneeded, refused, unsure,
}
use meshnet_cni.Topology.Updates.Replay.{replay, older, weaken}
use meshnet_cni.Topology.Updates.Server.{Key, Api}

module _ (api : Api) (calls : ℕ → Call) where
  open api use {Objects, get}

  -- What a call that is about to write knows of the object: the version is an old one, or the
  -- object is what the call has read.
  abbrev pub Knows : ℕ → Objects → Phase → Type 0
  Knows k o (reads i) = Unit
  Knows k o (writes i u v) =
      (t : Topology) × (cur : ℕ) × (get (target_of (calls k)) o ≡ some (t, cur))
      × ((v < cur) ⊎ ((v ≡ cur) × (change (calls k) t ≡ some u)))
  Knows k o written = Unit
  Knows k o unneeded = Unit
  Knows k o refused = Unit
  Knows k o unsure = Unit

  -- The object is what the log of updates has made of `t`.
  abbrev pub Replayed : Key → Topology → Objects → List ℕ → Type 0
  Replayed n t o l = (v : ℕ) × (get n o ≡ some (replay calls n l t, v))

  -- An update of the version `v` of the object of a call, to `u`.
  abbrev pub Made : ℕ → Topology → ℕ → Objects → Objects → Type 0
  Made k u v o o' =
      ((old : Topology) × (get (target_of (calls k)) o ≡ some (old, v)))
      × ((v' : ℕ) × ((v < v') ⊎ ((v ≡ v') × (get (target_of (calls k)) o ≡ some (u, v))))
          × (get (target_of (calls k)) o' ≡ some (u, v')))
      × ((j : Key) → (target_of (calls k) == j) ≡ false → get j o' ≡ get j o)

  same_version :
      (n : Key) (o : Objects) (t old : Topology) (cur v : ℕ)
      → get n o ≡ some (t, cur)
      → get n o ≡ some (old, v)
      → (t ≡ old) × (cur ≡ v)
  same_version n o t old cur v e f =
      let pair : ◌≡◌ {A = Topology × ℕ} (t, cur) (old, v) = some-injective _ _ (sym e ∙ f) in
      (ap (λ (x : Topology × ℕ). x.0) pair, ap (λ (x : Topology × ℕ). x.1) pair)

  -- What a call knows of an object after an update to `u` of its version `v`.
  known_after :
      (j : ℕ) (n : Key) (o : Objects) (t u u2 : Topology) (v2 cur v v' : ℕ)
      → get n o ≡ some (t, cur)
      → cur ≡ v
      → (v2 < cur) ⊎ ((v2 ≡ cur) × (change (calls j) t ≡ some u2))
      → (v < v') ⊎ ((v ≡ v') × (get n o ≡ some (u, v)))
      → (v2 < v') ⊎ ((v2 ≡ v') × (change (calls j) u ≡ some u2))
  known_after j n o t u u2 v2 cur v v' e at_ c (inl later) =
      inl (older v2 cur v v' (weaken c) at_ later)
  known_after j n o t u u2 v2 cur v v' e at_ (inl old) (inr (stays, same)) = inl (omega arith)
  known_after j n o t u u2 v2 cur v v' e at_ (inr (now, sent)) (inr (stays, same)) =
      inr (omega arith, rw (same_version n o t u cur v e same).0 at sent)

  pub Made-Knows :
      (k j : ℕ) (u : Topology) (v : ℕ) (o o' : Objects) (p : Phase)
      → Made k u v o o'
      → Knows j o p
      → Knows j o' p
  Made-Knows k j u v o o' (reads i) made h = tt
  Made-Knows k j u v o o' written made h = tt
  Made-Knows k j u v o o' unneeded made h = tt
  Made-Knows k j u v o o' refused made h = tt
  Made-Knows k j u v o o' unsure made h = tt
  Made-Knows k j u v o o' (writes i u2 v2) ((old, was), (v', later, now), rest) (t, cur, e, c) =
      elim (Bool-cases (target_of (calls k) == target_of (calls j))) [
        | inl same ↦
            let key = (==_iff {A = Key} (target_of (calls k)) (target_of (calls j))).0 same in
            let versions =
              same_version (target_of (calls j)) o t old cur v e
                (subst (λ n. get n o ≡ some (old, v)) key was) in
            (
              u,
              v',
              subst (λ n. get n o' ≡ some (u, v')) key now,
              known_after j (target_of (calls j)) o t u u2 v2 cur v v' e versions.1 c
                  (subst (λ n. (v < v') ⊎ ((v ≡ v') × (get n o ≡ some (u, v)))) key later),
            )
        | inr other ↦ (t, cur, rest (target_of (calls j)) other ∙ e, c)
      ]

  current :
      (k : ℕ) (t old u : Topology) (v cur : ℕ)
      → (v < cur) ⊎ ((v ≡ cur) × (change (calls k) t ≡ some u))
      → t ≡ old
      → cur ≡ v
      → change (calls k) old ≡ some u
  current k t old u v cur (inl h) e f = absurd (omega arith)
  current k t old u v cur (inr (h, sent)) e f = rw e at sent

  -- The update is the change of the call, of what the log has made before.
  pub Made-Replayed :
      (k i : ℕ) (u : Topology) (v : ℕ) (o o' : Objects) (n : Key) (t0 : Topology) (l : List ℕ)
      → Made k u v o o'
      → Knows k o (writes i u v)
      → Replayed n t0 o l
      → Replayed n t0 o' (k ∷ l)
  Made-Replayed k i u v o o' n t0 l ((old, was), (v', later, now), rest) (t, cur, e, c) (w, shown) =
      let versions = same_version (target_of (calls k)) o t old cur v e was in
      let sent = current k t old u v cur c versions.0 versions.1 in
      elim (Bool-cases (target_of (calls k) == n)) [
        | inl same ↦
            let key = (==_iff {A = Key} (target_of (calls k)) n).0 same in
            let base =
              same_version n o (replay calls n l t0) old w v shown
                (subst (λ m. get m o ≡ some (old, v)) key was) in
            (v', rw same (rw base.0 (rw sent (subst (λ m. get m o' ≡ some (u, v')) key now))))
        | inr other ↦ (w, rw other (rest n other ∙ shown))
      ]
