-- ===== src/HostConf/Trim.antt =====
-- Trimming a text twice, as the daemon and the plugin do with the files of internal/cniconf.
use meshnet_cni.Prelude.{
  ℕ, ◌≡◌, refl, ap, ◌∙◌, inl, inr, Bool, true, false, [], ◌∷◌, if◌then◌else◌, Bool-cases,
}
use meshnet_cni.HostConf.{
  Text, is_space, trim_left, keep_or_cut, trim_right, trim_space, equals, link_vxlan, link_grpc,
  resolve_inter_node_link_type,
}

kept_or_cut :
    (c : ℕ) (r : Text) (space : Bool)
    → is_space c ≡ space
    → trim_right r ≡ r
    → trim_right (keep_or_cut space c r) ≡ keep_or_cut space c r
unfolding trim_right
kept_or_cut c [] true e h = refl
kept_or_cut c [] false e h = rw (trim_right, e) refl
kept_or_cut c (d ∷ m) space e h = ap (keep_or_cut (is_space c) c) h

right_twice : (l : Text) → trim_right (trim_right l) ≡ trim_right l
unfolding trim_right
right_twice [] = refl
right_twice (c ∷ l) = kept_or_cut c (trim_right l) (is_space c) refl (right_twice l)

keeps_first :
    (c : ℕ) (r : Text) (space : Bool)
    → is_space c ≡ space
    → space ≡ false
    → trim_left (keep_or_cut space c r) ≡ keep_or_cut space c r
unfolding trim_left
keeps_first c [] true e f = cc
keeps_first c [] false e f = rw (trim_left, e) refl
keeps_first c (d ∷ m) space e f = rw (trim_left, e, f) refl

left_right_left : (l : Text) → trim_left (trim_right (trim_left l)) ≡ trim_right (trim_left l)
unfolding trim_left trim_right
left_right_left [] = refl
left_right_left (c ∷ l) = elim (Bool-cases (is_space c)) [
  | inl space ↦ rw (space, trim_left) (left_right_left l)
  | inr other ↦ rw (other, trim_left) (keeps_first c (trim_right l) (is_space c) refl other)
]

-- Trimming a trimmed text changes nothing.
pub trim_space_idem : (l : Text) → trim_space (trim_space l) ≡ trim_space l
unfolding trim_space
trim_space_idem l = ap trim_right (left_right_left l) ∙ right_twice (trim_left l)

either_type :
    (b : Bool)
    → resolve_inter_node_link_type (if b then link_vxlan else link_grpc)
      ≡ (if b then link_vxlan else link_grpc)
unfolding resolve_inter_node_link_type is_space
either_type true = refl
either_type false = refl

-- Resolving a resolved type changes nothing.
pub resolve_idem :
    (value : Text)
    → resolve_inter_node_link_type (resolve_inter_node_link_type value)
      ≡ resolve_inter_node_link_type value
unfolding resolve_inter_node_link_type
resolve_idem value = either_type (equals (trim_space value) link_vxlan)
