-- ===== src/Wire/IfName/Fresh.antt =====
-- The names of GenNodeIfaceName of daemon/grpcwire/grpcwire.go: their length, their number, and that
-- they are new.
use meshnet_cni.Prelude.{
  ℕ, zero, suc, ◌+◌, ◌*◌, ◌-◌, ◌/◌, ◌%◌, ◌^◌, ◌≤◌, ◌<◌, ◌≡◌, ◌≢◌, refl, ap, ◌∙◌, inl, inr, true,
  some, List, [], ◌∷◌, ◌++◌, ltb, nat_eq, nat_beq_iff, if◌then◌else◌, length, length-append, All,
  All-map, Option-cases, arith,
}
use meshnet_cni.Wire.IfName.{
  Name, first, digit, four_digits, index_text, next_index, gen_node_iface_name, is_digit,
  read_suffix, suffix_id, max_id, seed_index_from_host,
}

digit_lower : (d : ℕ) → 48 ≤ digit d
unfolding digit
digit_lower d = omega arith

digit_upper : (d : ℕ) → digit d ≤ 57
unfolding digit
digit_upper d = omega arith

digit-IsDigit : (d : ℕ) → is_digit (digit d) ≡ true
digit-IsDigit d = ground (arith, digit_lower d, digit_upper d)

place : (d : ℕ) → digit d - 48 ≡ d % 10
unfolding digit
place d = omega arith

places_add :
    (n : ℕ)
    → n < 10000
    → (n / 1000 % 10) * 1000 + (n / 100 % 10) * 100 + (n / 10 % 10) * 10 + n % 10 ≡ n
places_add n h = omega (arith, h)

read_four : (n : ℕ) → n < 10000 → read_suffix (45 ∷ four_digits n) ≡ some n
unfolding four_digits read_suffix
read_four n h =
    rw
      (
        digit-IsDigit (n / 1000),
        digit-IsDigit (n / 100),
        digit-IsDigit (n / 10),
        digit-IsDigit n,
        read_suffix,
        place (n / 1000),
        place (n / 100),
        place (n / 10),
        place n,
      )
      (ap some (places_add n h))

length-first : (n : ℕ) (l : Name) → length (first n l) ≤ n
unfolding first
length-first zero l = omega arith
length-first (suc n) [] = omega arith
length-first (suc n) (x ∷ l) = omega (arith, length-first n l)

-- The suffix is looked for at the end.
suffix_id-append :
    (p l : Name) (x : ℕ) → length l ≡ 4 → suffix_id (p ++ x ∷ l) ≡ read_suffix (x ∷ l)
unfolding suffix_id
suffix_id-append [] l x h = ground (arith, h, nat_beq_iff (length l) 4)
suffix_id-append (y ∷ p) l x h =
    let long : length (p ++ x ∷ l) ≡ length p + suc (length l) = length-append p (x ∷ l) in
    ground (arith, h, long, nat_beq_iff (length (p ++ x ∷ l)) 4, suffix_id-append p l x h)

-- The counter is a nonnegative int64 that can be counted up.
abbrev pub CanCount : ℕ → Type 0
CanCount curr_id = curr_id + 1 < 2 ^ 63

counted : (curr_id : ℕ) → CanCount curr_id → next_index curr_id ≡ curr_id + 1
unfolding next_index
counted c h = omega (arith, h)

index_digits : (id : ℕ) → id < 2 ^ 63 → index_text id ≡ four_digits (id % 10000)
unfolding index_text
index_digits id h = ground (arith, h)

-- GenNodeIfaceName counts up, and gives a name of at most fifteen characters in which
-- SeedIndexFromHost reads the last four digits of the count.
pub name_fits :
    (pod_name pod_iface_name : Name) (curr_id : ℕ)
    → CanCount curr_id
    → let (name, next) = gen_node_iface_name pod_name pod_iface_name curr_id in
      (next ≡ curr_id + 1) × (length name ≤ 15) × (suffix_id name ≡ some ((curr_id + 1) % 10000))
unfolding gen_node_iface_name four_digits
name_fits pod ifc c h =
    let head = first 5 pod ++ first 5 ifc in
    let four = four_digits ((c + 1) % 10000) in
    let head_length : length head ≤ 10 =
      omega (
        arith,
        length-append (first 5 pod) (first 5 ifc),
        length-first 5 pod,
        length-first 5 ifc,
      ) in
    rw (counted c h, index_digits (c + 1) h)
      (
        refl,
        omega (arith, length-append head (45 ∷ four), head_length),
        suffix_id-append head four 45 refl ∙ read_four ((c + 1) % 10000) (omega arith),
      )

-- The greatest number is no less than the one to start from.
greatest : (m id : ℕ) → (m ≤ (if ltb m id then id else m)) × (id ≤ (if ltb m id then id else m))
greatest m id = (ground arith, ground arith)

max_lower : (names : List Name) (m : ℕ) → m ≤ max_id names m
unfolding max_id
max_lower [] m = omega arith
max_lower (name ∷ names) m = elim (Option-cases (suffix_id name)) [
  | inl bare ↦ rw (bare, max_id) (max_lower names m)
  | inr (id, read) ↦
      rw (read, max_id)
        (omega (arith, max_lower names (if ltb m id then id else m), (greatest m id).0))
]

-- No name has a number above the greatest.
max_bounds :
    (names : List Name) (m bound : ℕ)
    → max_id names m < bound
    → All (λ name. suffix_id name ≢ some bound) names
unfolding max_id
max_bounds [] m bound h = tt
max_bounds (name ∷ names) m bound h = elim (Option-cases (suffix_id name)) [
  | inl bare ↦ (λ e. cc, max_bounds names m bound (rw (bare, max_id) at h))
  | inr (id, read) ↦
      let h' : max_id names (if ltb m id then id else m) < bound = rw (read, max_id) at h in
      let smaller : id < bound =
        omega (arith, h', max_lower names (if ltb m id then id else m), (greatest m id).1) in
      (λ e. let same : id ≡ bound = cc in omega (arith, same, smaller), max_bounds names _ bound h')
]

seed_lower :
    (names : List Name) (curr_id : ℕ) → max_id names 0 ≤ seed_index_from_host (some names) curr_id
unfolding seed_index_from_host
seed_lower names c = ground arith

-- After SeedIndexFromHost has looked at the interfaces of the host, and as long as the counter is below
-- 9999, GenNodeIfaceName gives a name that none of them has, whatever the pod and its interface.
pub fresh_name :
    (names : List Name) (curr_id : ℕ) (pod_name pod_iface_name : Name)
    → seed_index_from_host (some names) curr_id < 9999
    → All
        (λ name.
          name
          ≢ (gen_node_iface_name pod_name pod_iface_name
              (seed_index_from_host (some names) curr_id)).0)
        names
fresh_name names c pod ifc h =
    let s = seed_index_from_host (some names) c in
    let (counts, fits, read) = name_fits pod ifc s (omega (arith, h)) in
    let small : (s + 1) % 10000 ≡ s + 1 = omega (arith, h) in
    All-map _ _ names (λ name ne same. ne (ap suffix_id same ∙ read ∙ ap some small))
      (max_bounds names 0 (s + 1) (omega (arith, seed_lower names c)))
