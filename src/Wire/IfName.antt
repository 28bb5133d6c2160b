-- ===== src/Wire/IfName.antt =====
-- The names of the interfaces on a node: NextIndex, SeedIndexFromHost and GenNodeIfaceName of
-- daemon/grpcwire/grpcwire.go. A name is the list of its character codes, the counter is the 64-bit
-- pattern of an int64.
pub mod Fresh
use meshnet_cni.Prelude.{
  ℕ, zero, suc, ◌+◌, ◌*◌, ◌-◌, ◌/◌, ◌%◌, ◌^◌, Bool, true, false, ◌&&◌, Option, none, some, List, [],
  ◌∷◌, ◌++◌, ltb, leb, ◌==◌, nat_eq, if◌then◌else◌, length,
}

abbrev pub Name : Type 0
Name = List ℕ

-- The first characters of a name, `%.5s`.
unfoldable pub first : ℕ → Name → Name
first zero l = []
first (suc n) [] = []
first (suc n) (x ∷ l) = x ∷ first n l

unfoldable pub digit : ℕ → ℕ
digit d = 48 + d % 10

-- `%04d` of a number from 0 to 9999.
unfoldable pub four_digits : ℕ → Name
unfolding digit
four_digits n = digit (n / 1000) ∷ digit (n / 100) ∷ digit (n / 10) ∷ digit n ∷ []

-- `%04d` of a number from -9999 to -1, given without its sign, which counts as one of the four places.
unfoldable pub negative_digits : ℕ → Name
unfolding digit four_digits
negative_digits n =
    45 ∷ (if ltb n 1000 then digit (n / 100) ∷ digit (n / 10) ∷ digit n ∷ [] else four_digits n)

-- `%04d` of `id % 10000`, where the remainder has the sign of the dividend.
unfoldable pub index_text : ℕ → Name
unfolding four_digits negative_digits
index_text id =
    let m = (2 ^ 64 - id) % 10000 in
    if ltb id (2 ^ 63)
    then four_digits (id % 10000)
    else if m == 0
    then four_digits 0
    else negative_digits m

-- NextIndex
unfoldable pub next_index : ℕ → ℕ
next_index curr_id = (curr_id + 1) % 2 ^ 64

-- GenNodeIfaceName: the name, and the counter.
unfoldable pub gen_node_iface_name : Name → Name → ℕ → Name × ℕ
unfolding next_index index_text first
gen_node_iface_name pod_name pod_iface_name curr_id =
    let id = next_index curr_id in
    (first 5 pod_name ++ first 5 pod_iface_name ++ 45 ∷ index_text id, id)

abbrev pub is_digit : ℕ → Bool
is_digit c = leb 48 c && leb c 57

-- The five characters of a suffix, read as a number.
unfoldable pub read_suffix : Name → Option ℕ
read_suffix (x ∷ a ∷ b ∷ c ∷ d ∷ []) =
    if x == 45 && is_digit a && is_digit b && is_digit c && is_digit d
    then some ((a - 48) * 1000 + (b - 48) * 100 + (c - 48) * 10 + (d - 48))
    else none
read_suffix l = none

-- ifaceSuffixRe, with the number of its group.
unfoldable pub suffix_id : Name → Option ℕ
unfolding read_suffix
suffix_id [] = none
suffix_id (x ∷ l) = let rest = suffix_id l in if length l == 4 then read_suffix (x ∷ l) else rest

-- The greatest number among the names of the host.
unfoldable pub max_id : List Name → ℕ → ℕ
unfolding suffix_id
max_id [] m = m
max_id (name ∷ l) m = elim (suffix_id name) [
  | none ↦ max_id l m
  | some id ↦ max_id l (if ltb m id then id else m)
]

-- SeedIndexFromHost, with the names of the interfaces of the host, `none` if they cannot be listed.
-- The counter is a nonnegative int64.
unfoldable pub seed_index_from_host : Option (List Name) → ℕ → ℕ
unfolding max_id
seed_index_from_host none curr_id = curr_id
seed_index_from_host (some names) curr_id =
    if ltb 0 (max_id names 0) && ltb curr_id (max_id names 0) then max_id names 0 else curr_id
