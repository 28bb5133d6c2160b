-- ===== src/Topology/Updates/Replay.antt =====
-- The abstract view of the handlers that write: calls that are made one after the other.
use meshnet_cni.Prelude.{
  ℕ, ◌<◌, ◌≡◌, ◌⊎◌, inl, inr, Option, none, some, List, [], ◌∷◌, ◌==◌, string_eq, pair_eq,
  if◌then◌else◌, arith,
}
use meshnet_cni.Topology.{Topology}
use meshnet_cni.Topology.Updates.{
  Call, target_of, change, Phase, reads, writes, written, unneeded, refused, unsure,
}
use meshnet_cni.Topology.Updates.Server.{Key}

-- The value of a change, or what was there.
abbrev pub or_same : Option Topology → Topology → Topology
or_same none t = t
or_same (some u) t = u

-- An object after calls that were made one after the other, the last one first: each changes what
-- the one before has left.
abbrev pub replay : (ℕ → Call) → Key → List ℕ → Topology → Topology
replay calls n [] t = t
replay calls n (k ∷ l) t =
    let u = replay calls n l t in
    if target_of (calls k) == n then or_same (change (calls k) u) u else u

-- How often the update of a call was made: once if it was answered yes, or its answer was lost.
abbrev pub logged : Phase → ℕ
logged (reads i) = 0
logged (writes i t v) = 0
logged written = 1
logged unneeded = 0
logged refused = 0
logged unsure = 1

-- An older version than one that comes after the current one.
pub older : (v2 cur v v' : ℕ) → (v2 < cur) ⊎ (v2 ≡ cur) → cur ≡ v → v < v' → v2 < v'
older v2 cur v v' (inl h) e l = omega arith
older v2 cur v v' (inr h) e l = omega arith

pub weaken : {A B C : Type 0} → A ⊎ (B × C) → A ⊎ B
weaken (inl a) = inl a
weaken (inr (b, c)) = inr b
