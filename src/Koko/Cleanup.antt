-- ===== src/Koko/Cleanup.antt =====
-- How MakeVeth and SetVethLink of internal/koko/koko.go end.
use meshnet_cni.Prelude.{
  ℕ, ◌≡◌, refl, sym, ap, ◌⊎◌, inl, inr, Bool, true, false, ◌||◌, not, String, Option, List, [], ◌∷◌,
  ◌++◌, ◌==◌, string_eq, if◌then◌else◌, Bool-cases, append_assoc, append-nil,
}
use meshnet_cni.Koko.{
  Addr, VEth, Act, adds_veth, moves, renames, enables_ipv6, adds_addr, sets_down, sets_up, deletes,
  Run, ask, done, error, or_delete, SetAnswers, should_leave_admin_down, set_state, add_addrs,
  set_veth_link, temp_name, pair_mtu, make_veth_pair,
}

-- A run without an error whose last act is `b`.
abbrev pub SettlesAt : Act → Run → Type 0
SettlesAt b r = r.1 ≡ true → (before : List Act) × (r.0 ≡ before ++ b ∷ [])

ask_settles : (b a : Act) (ok : Bool) (rest : Run) → SettlesAt b rest → SettlesAt b (ask a ok rest)
ask_settles b a false rest h e = cc
ask_settles b a true rest h e = let (before, r) = h e in (a ∷ before, ap (◌∷◌ a) r)

-- The state that an interface is set to.
abbrev pub state_of : Option (List ℕ) → String → Act
state_of prefix name = if should_leave_admin_down prefix name then sets_down name else sets_up name

state_settles :
    (prefix : Option (List ℕ)) (name : String) (ok : Bool)
    → SettlesAt (state_of prefix name) (set_state prefix name ok)
unfolding set_state
state_settles prefix name ok = elim (Bool-cases (should_leave_admin_down prefix name)) [
  | inl down ↦ rw (down, set_state) (λ e. last (sets_down name) ok e)
  | inr up ↦ rw (up, set_state) (λ e. last (sets_up name) ok e)
]
  where
    last : (a : Act) (ok : Bool) → SettlesAt a (ask a ok done)
    last a false e = cc
    last a true e = ([], refl)

if_settles :
    (c : Bool) (b : Act) (r s : Run)
    → SettlesAt b r
    → SettlesAt b s
    → SettlesAt b (if c then r else s)
if_settles true b r s hr hs = hr
if_settles false b r s hr hs = hs

addrs_settle :
    (b : Act) (name : String) (a : SetAnswers) (l : List Addr) (rest : Run)
    → SettlesAt b rest
    → SettlesAt b (add_addrs name a l rest)
unfolding add_addrs
addrs_settle b name a [] rest h = h
addrs_settle b name a (addr ∷ l) rest h =
    let added =
      ask_settles b (adds_addr name addr.text) (a.addr_added addr) _
        (addrs_settle b name a l rest h) in
    if_settles addr.is_v4 b _ _ added
      (ask_settles b (enables_ipv6 name) (a.ipv6_enabled addr) _ added)

link_settles :
    (prefix : Option (List ℕ)) (veth : VEth) (link : String) (a : SetAnswers)
    → SettlesAt (state_of prefix veth.link_name) (set_veth_link prefix veth link a)
unfolding set_veth_link
link_settles prefix veth link a =
    let b = state_of prefix veth.link_name in
    let finish =
      addrs_settle b veth.link_name a veth.ip_addr _
        (state_settles prefix veth.link_name a.state_set) in
    let no_error : SettlesAt b error = λ e. cc in
    if_settles (not a.ns_opened || not a.fd_fits) b error _ no_error (
      ask_settles b (moves link veth.ns_name) a.moved _ (
        if_settles (not a.looked_up) b error _ no_error (
          if_settles (veth.link_name == link) b _ _ finish
            (ask_settles b (renames link veth.link_name) a.renamed _ finish))))

-- How MakeVeth ends, with the temporary names of the two links.
pub data Outcome (prefix : Option (List ℕ)) (one two : VEth) (first second : String)
    : (added found : Bool) → Run → Type 0 where
  not_made :
      (found : Bool)
      → Outcome prefix one two first second false found
          (adds_veth first second (pair_mtu one.mtu) ∷ [], false)
  lost :
      Outcome prefix one two first second true false
        (adds_veth first second (pair_mtu one.mtu) ∷ [], false)
  cleaned :
      (acts before : List Act) (link : String)
      → (link ≡ first) ⊎ (link ≡ second)
      → acts ≡ before ++ deletes link ∷ []
      → Outcome prefix one two first second true true (acts, false)
  both_set :
      (acts before between : List Act)
      → acts
        ≡ before ++ (state_of prefix one.link_name ∷ between ++ state_of prefix two.link_name ∷ [])
      → Outcome prefix one two first second true true (acts, true)

two_ends :
    (prefix : Option (List ℕ)) (one two : VEth) (first second : String) (a : Act) (r s : Run)
    → SettlesAt (state_of prefix one.link_name) r
    → SettlesAt (state_of prefix two.link_name) s
    → Outcome prefix one two first second true true
        (ask a true (or_delete first r (or_delete second s done)))
two_ends prefix one two first second a (x, false) s hr hs = cleaned _ (a ∷ x) first (inl refl) refl
two_ends prefix one two first second a (x, true) (y, false) hr hs =
    cleaned _ (a ∷ x ++ y) second (inr refl)
      (ap (◌∷◌ a) (sym (append_assoc x y (deletes second ∷ []))))
two_ends prefix one two first second a (x, true) (y, true) hr hs =
    let (before, ex) = hr refl in
    let (between, ey) = hs refl in
    both_set _ (a ∷ before) between
      (ap (◌∷◌ a) (rw (append-nil y, ex, ey) (append_assoc before _ _)))

-- MakeVeth makes no interface if the kernel refuses the pair, and leaves the pair behind if it cannot
-- find the second link; after any other error its last act is to delete one of the two links; and
-- without an error each end was set down or up, as its own name and the prefix say, the first end
-- before the second, which was the last act.
pub make_veth_pair-Outcome :
    (prefix : Option (List ℕ)) (one two : VEth) (random_one random_two : String)
    (added found : Bool) (a_one a_two : SetAnswers)
    → Outcome prefix one two
        (temp_name one random_one)
        (temp_name two random_two)
        added
        found
        (make_veth_pair prefix one two random_one random_two added found a_one a_two)
unfolding make_veth_pair
make_veth_pair-Outcome prefix one two random_one random_two false found a_one a_two = not_made found
make_veth_pair-Outcome prefix one two random_one random_two true false a_one a_two = lost
make_veth_pair-Outcome prefix one two random_one random_two true true a_one a_two =
    two_ends prefix one two _ _ _ _ _ (link_settles prefix one (temp_name one random_one) a_one)
      (link_settles prefix two (temp_name two random_two) a_two)
