-- ===== src/Topology/Updates/Exactly.antt =====
-- What the objects hold, however the calls' turns fall.
use meshnet_cni.Prelude.{
  ℕ, suc, ◌≡◌, refl, sym, ap, subst, ◌∙◌, ◌⊎◌, inl, inr, Bool, true, false, Option, none, some,
  List, [], ◌∷◌, ◌==◌, nat_eq, string_eq, pair_eq, ==_iff, Bool-cases, Option-cases, count,
}
use meshnet_cni.Topology.{Topology}
use meshnet_cni.Topology.Updates.{
  Call, target_of, change, Phase, reads, writes, written, unneeded, refused, unsure, Turn, System,
  begin, enter, prepare, conclude, advance, run,
}
use meshnet_cni.Topology.Updates.Replay.{replay, logged}
use meshnet_cni.Topology.Updates.Server.{Key, Answer, stored, conflict, failed, lost, Declined, Api}
use meshnet_cni.Topology.Updates.Known.{Knows, Replayed, Made, Made-Knows, Made-Replayed}

module _ (api : Api) (again : ℕ → Bool) (calls : ℕ → Call) where
  open api use {Objects, get, put, put_law}

  prepare-Knows :
      (k i : ℕ) (o : Objects) (r : Option (Topology × ℕ))
      → get (target_of (calls k)) o ≡ r
      → Knows api calls k o (prepare api again calls k i r)
  unfolding prepare
  prepare-Knows k i o none e = tt
  prepare-Knows k i o (some (t, v)) e = elim (Option-cases (change (calls k) t)) [
    | inl nothing ↦ rw (nothing, prepare) tt
    | inr (u, sent) ↦ rw (sent, prepare) (t, v, e, inr (refl, sent))
  ]

  -- A phase that is set, seen from any call.
  enter-Knows :
      (k j : ℕ) (o : Objects) (p : Phase) (s : System api again calls)
      → Knows api calls k o p
      → Knows api calls j o (s.phase j)
      → Knows api calls j o ((enter api again calls k p s).phase j)
  unfolding enter
  enter-Knows k j o p s hk hj = elim (Bool-cases (k == j)) [
    | inl same ↦ rw same (subst (λ i. Knows api calls i o p) ((==_iff k j).0 same) hk)
    | inr other ↦ rw other hj
  ]

  -- The log and the calls after some turns.
  abbrev Sound : Key → Topology → System api again calls → Type 0
  Sound n t0 s =
      Replayed api calls n t0 s.objects s.log
      × ((k : ℕ) → Knows api calls k s.objects (s.phase k))
      × ((k : ℕ) → count (λ x. x == k) s.log ≡ logged (s.phase k))

  -- A call that ends without an update.
  enter-Sound :
      (n : Key) (t0 : Topology) (k : ℕ) (p q : Phase) (s : System api again calls)
      → s.phase k ≡ p
      → logged p ≡ 0
      → logged q ≡ 0
      → Knows api calls k s.objects q
      → Sound n t0 s
      → Sound n t0 (enter api again calls k q s)
  unfolding enter
  enter-Sound n t0 k p q s at_ zp zq h (shown, knows, counts) = (
    shown,
    λ j. enter-Knows k j s.objects q s h (knows j),
    λ j. elim (Bool-cases (k == j)) [
      | inl same ↦
          let key = (==_iff k j).0 same in
          rw same (
            subst (λ i. count (λ x. x == i) s.log ≡ logged q) key
              (counts k ∙ ap logged at_ ∙ zp ∙ sym zq))
      | inr other ↦ rw other (counts j)
    ],
  )

  -- A call whose update was made.
  Made-Sound :
      (n : Key) (t0 : Topology) (k i : ℕ) (u : Topology) (v : ℕ) (o : Objects) (q : Phase)
      (s : System api again calls)
      → s.phase k ≡ writes i u v
      → logged q ≡ 1
      → Knows api calls k o q
      → Made api calls k u v s.objects o
      → Sound n t0 s
      → Sound n t0 (enter api again calls k q (record s { objects = o; log = k ∷ s.log }))
  unfolding enter
  Made-Sound n t0 k i u v o q s at_ one h made (shown, knows, counts) = (
    Made-Replayed api calls k i u v s.objects o n t0 s.log made
        (subst (Knows api calls k s.objects) at_ (knows k)) shown,
    λ j.
        enter-Knows k j o q (record s { objects = o; log = k ∷ s.log }) h
          (Made-Knows api calls k j u v s.objects o (s.phase j) made (knows j)),
    λ j. elim (Bool-cases (k == j)) [
      | inl same ↦
          let key = (==_iff k j).0 same in
          rw same (
            ap suc (subst (λ i. count (λ x. x == i) s.log ≡ 0) key (counts k ∙ ap logged at_))
            ∙ sym one)
      | inr other ↦ rw other (counts j)
    ],
  )

  -- What the server answers to an update of a call.
  conclude-Sound :
      (n : Key) (t0 : Topology) (k i : ℕ) (u : Topology) (v : ℕ) (s : System api again calls)
      (r : Answer × Objects)
      → s.phase k ≡ writes i u v
      → Declined r.0 s.objects r.1
        ⊎ (((r.0 ≡ stored) ⊎ (r.0 ≡ lost)) × Made api calls k u v s.objects r.1)
      → Sound n t0 s
      → Sound n t0 (conclude api again calls k i r s)
  unfolding conclude
  conclude-Sound n t0 k i u v s (stored, o) at_ (inl (declined, same)) sound = elim declined [
    | inl c ↦ cc
    | inr c ↦ cc
  ]
  conclude-Sound n t0 k i u v s (lost, o) at_ (inl (declined, same)) sound = elim declined [
    | inl c ↦ cc
    | inr c ↦ cc
  ]
  conclude-Sound n t0 k i u v s (stored, o) at_ (inr (yes_, made)) sound =
      Made-Sound n t0 k i u v o written s at_ refl tt made sound
  conclude-Sound n t0 k i u v s (lost, o) at_ (inr (yes_, made)) sound =
      Made-Sound n t0 k i u v o unsure s at_ refl tt made sound
  conclude-Sound n t0 k i u v s (failed, o) at_ (inr (made, x)) sound = elim made [
    | inl c ↦ cc
    | inr c ↦ cc
  ]
  conclude-Sound n t0 k i u v s (conflict, o) at_ (inr (made, x)) sound = elim made [
    | inl c ↦ cc
    | inr c ↦ cc
  ]
  conclude-Sound n t0 k i u v s (failed, o) at_ (inl (declined, same)) sound =
      rw same (enter-Sound n t0 k (writes i u v) refused s at_ refl refl tt sound)
  conclude-Sound n t0 k i u v s (conflict, o) at_ (inl (declined, same)) sound =
      elim (Bool-cases (again i)) [
        | inl more ↦
            rw (same, more)
              (enter-Sound n t0 k (writes i u v) (reads (suc i)) s at_ refl refl tt sound)
        | inr enough ↦
            rw (same, enough) (enter-Sound n t0 k (writes i u v) refused s at_ refl refl tt sound)
      ]

  logged-prepare :
      (k i : ℕ) (r : Option (Topology × ℕ)) → logged (prepare api again calls k i r) ≡ 0
  unfolding prepare
  logged-prepare k i none = refl
  logged-prepare k i (some (t, v)) = elim (Option-cases (change (calls k) t)) [
    | inl nothing ↦ rw (nothing, prepare) refl
    | inr (u, sent) ↦ rw (sent, prepare) refl
  ]

  law-Made :
      (k : ℕ) (u : Topology) (v : ℕ) (o : Objects)
      → let r = put (target_of (calls k)) u v o in
        Declined r.0 o r.1 ⊎ (((r.0 ≡ stored) ⊎ (r.0 ≡ lost)) × Made api calls k u v o r.1)
  law-Made k u v o = elim (put_law (target_of (calls k)) u v o) [
    | inl declined ↦ inl declined
    | inr (answer, was, now, rest) ↦ inr (answer, (was, now, rest))
  ]

  advance-Sound :
      (n : Key) (t0 : Topology) (k : ℕ) (b : Bool) (p : Phase) (s : System api again calls)
      → s.phase k ≡ p
      → Sound n t0 s
      → Sound n t0 (advance api again calls k b p s)
  unfolding advance
  advance-Sound n t0 k true (reads i) s at_ sound =
      enter-Sound n t0 k (reads i)
        (prepare api again calls k i (get (target_of (calls k)) s.objects)) s at_ refl
        (logged-prepare k i (get (target_of (calls k)) s.objects))
        (prepare-Knows k i s.objects (get (target_of (calls k)) s.objects) refl) sound
  advance-Sound n t0 k false (reads i) s at_ sound =
      enter-Sound n t0 k (reads i) refused s at_ refl refl tt sound
  advance-Sound n t0 k b (writes i u v) s at_ sound =
      conclude-Sound n t0 k i u v s (put (target_of (calls k)) u v s.objects) at_
        (law-Made k u v s.objects) sound
  advance-Sound n t0 k b written s at_ sound = sound
  advance-Sound n t0 k b unneeded s at_ sound = sound
  advance-Sound n t0 k b refused s at_ sound = sound
  advance-Sound n t0 k b unsure s at_ sound = sound

  run-Sound :
      (n : Key) (t0 : Topology) (es : List Turn) (s : System api again calls)
      → Sound n t0 s
      → Sound n t0 (run api again calls es s)
  unfolding run
  run-Sound n t0 [] s sound = sound
  run-Sound n t0 (e ∷ es) s sound =
      run-Sound n t0 es (advance api again calls e.call e.answered (s.phase e.call) s)
        (advance-Sound n t0 e.call e.answered (s.phase e.call) s refl sound)

  -- However the turns of the calls of any daemons fall, and whatever the server refuses: an object
  -- holds what its first state becomes when the calls whose updates were made are made one after the
  -- other, each on what the one before has left; and a call is among them exactly once if it is
  -- answered with yes after an update, or if only the answer of the server was lost, and otherwise
  -- never, so that the update of no call is lost or undone by another's.
  pub no_update_lost :
      (n : Key) (t0 : Topology) (v0 : ℕ) (o : Objects) (es : List Turn) (k : ℕ)
      → get n o ≡ some (t0, v0)
      → let s = run api again calls es (begin api again calls o) in
        ((v : ℕ) × (get n s.objects ≡ some (replay calls n s.log t0, v)))
        × (count (λ x. x == k) s.log ≡ logged (s.phase k))
  unfolding begin
  no_update_lost n t0 v0 o es k e =
      let (shown, knows, counts) =
        run-Sound n t0 es (begin api again calls o) ((v0, e), λ j. tt, λ j. refl) in
      (shown, counts k)
