-- ===== src/Protocol/Names.antt =====
-- The comparison of pod names, `localPod.Name > peerPod.Name`: texts are compared character by
-- character, which for the letters of a pod name is Go's comparison of bytes.
use Prim.Native.Char.{code}
use Prim.Native.String.{String}
use mathlib.Core.Path.{ap₂}
use text.Mathlib.TextEquality.{Char-path}
use meshnet_cni.Prelude.{
  ℕ, ◌≡◌, ◌≢◌, refl, Bool, true, false, not, List, [], ◌∷◌, arith, ltb, ◌==◌, nat_eq, nat_beq_iff,
  if◌then◌else◌, Bool-cases, inl, inr,
}

abbrev pub codes : String → List ℕ
codes String.[] = []
codes (String.◌∷◌ c s) = code c ∷ codes s

unfoldable pub greater : List ℕ → List ℕ → Bool
greater [] m = false
greater (x ∷ l) [] = true
greater (x ∷ l) (y ∷ m) = let rest = greater l m in if x == y then rest else ltb y x

unfoldable pub higher_prio : String → String → Bool
unfolding greater
higher_prio a b = greater (codes a) (codes b)

codes-injective : (a b : String) → codes a ≡ codes b → a ≡ b
codes-injective String.[] String.[] e = refl
codes-injective String.[] (String.◌∷◌ d t) e = cc
codes-injective (String.◌∷◌ c s) String.[] e = cc
codes-injective (String.◌∷◌ c s) (String.◌∷◌ d t) e =
    let same_code : code c ≡ code d = cc in
    let same_rest : codes s ≡ codes t = cc in
    ap₂ String.◌∷◌ (Char-path c d same_code) (codes-injective s t same_rest)

greater_total : (l m : List ℕ) → l ≢ m → greater m l ≡ not (greater l m)
unfolding greater
greater_total [] [] ne = absurd (ne refl)
greater_total [] (y ∷ m) ne = refl
greater_total (x ∷ l) [] ne = refl
greater_total (x ∷ l) (y ∷ m) ne = elim (Bool-cases (x == y)) [
  | inl same ↦
      let e = (nat_beq_iff x y).0 same in
      let rest : l ≢ m = λ r. ne (ap₂ ◌∷◌ e r) in
      ground (arith, greater_total l m rest, nat_beq_iff y x, nat_beq_iff x y)
  | inr other ↦ ground (arith, nat_beq_iff x y, nat_beq_iff y x)
]

-- Of two pods with different names exactly one has the higher priority.
pub higher_prio_total : (a b : String) → a ≢ b → higher_prio b a ≡ not (higher_prio a b)
unfolding higher_prio
higher_prio_total a b ne = greater_total (codes a) (codes b) (λ e. ne (codes-injective a b e))
