-- ===== src/Topology/Updates/Server.antt =====
-- The Kubernetes API server as the topology handlers use it: objects with resource versions, an update
-- that is refused with a conflict unless it is of the version that the server has, and versions that
-- grow with every change; an update that changes nothing may leave the version as it is. An error may also be the answer to an update that was made.
use meshnet_cni.Prelude.{ℕ, ◌<◌, ◌≡◌, ◌⊎◌, false, String, Option, some, ◌==◌, string_eq, pair_eq}
use meshnet_cni.Topology.{Topology}

-- A namespace and a name.
abbrev pub Key : Type 0
Key = String × String

pub data Answer : Type 0 where
  stored conflict failed lost : Answer

-- Nothing was changed.
abbrev pub Declined : {S : Type 0} → Answer → S → S → Type 0
Declined a s s' = ((a ≡ conflict) ⊎ (a ≡ failed)) × (s' ≡ s)

pub record Api : Type 1 where
  pub Objects : Type 0
  pub get : Key → Objects → Option (Topology × ℕ)
  pub put : Key → Topology → ℕ → Objects → Answer × Objects
  -- An update is made only of the current version, which it replaces by a later one, or by the same
  -- one if the object is what is sent, and changes no other object; otherwise nothing is changed.
  pub put_law :
      (k : Key) (t : Topology) (v : ℕ) (s : Objects)
      → Declined (put k t v s).0 s (put k t v s).1
        ⊎ ((((put k t v s).0 ≡ stored) ⊎ ((put k t v s).0 ≡ lost))
            × ((old : Topology) × (get k s ≡ some (old, v)))
            × ((v' : ℕ) × ((v < v') ⊎ ((v ≡ v') × (get k s ≡ some (t, v))))
                × (get k (put k t v s).1 ≡ some (t, v')))
            × ((j : Key) → (k == j) ≡ false → get j (put k t v s).1 ≡ get j s))
