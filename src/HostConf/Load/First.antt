-- ===== src/HostConf/Load/First.antt =====
-- Which configuration loadConfList of daemon/cni/cni.go takes, and how WaitForNetConfig ends.
use meshnet_cni.Prelude.{
  TicksBy, now_lower, ℕ, zero, suc, ◌+◌, ◌<◌, ◌≡◌, ◌≢◌, refl, sym, ap, ◌∙◌, ◌⊎◌, inl, inr, Bool,
  true, false, not, Option, none, some, List, [], ◌∷◌, ◌++◌, ltb, if◌then◌else◌, filter, All,
  Bool-cases, Option-cases, arith,
}
use meshnet_cni.HostConf.{Text}
use meshnet_cni.HostConf.Load.{
  ConfList, ConfFile, is_meshnet, unless_empty, with_plugins, read_file, first_valid, unmarshalled,
  load_conf_list, ConfRound, after_load, wait_for_conf, wait_for_net_config, default_wait_timeout,
  default_wait_interval,
}

-- Sorting loses and adds nothing: what holds of all files holds of the sorted ones.
abbrev pub KeepsFiles : (List ConfFile → List ConfFile) → Type 1
KeepsFiles sort = (P : ConfFile → Type 0) (l : List ConfFile) → All P l → All P (sort l)

-- The first of the files that can be read, with its list.
pub data FirstOf (files : List ConfFile) (plugins : List Text) : Type 0 where
  first_of :
      (before after : List ConfFile) (f : ConfFile) (c : ConfList)
      → files ≡ before ++ f ∷ after
      → All (λ g. read_file g ≡ none) before
      → read_file f ≡ some c
      → is_meshnet f ≡ false
      → c.plugins ≡ plugins
      → plugins ≢ []
      → FirstOf files plugins

-- The first file that is valid, in a list.
found_first :
    (l : List ConfFile) (c : ConfList)
    → first_valid l ≡ some c
    → (before : List ConfFile) × (after : List ConfFile) × (f : ConfFile) × (l
        ≡ before ++ f ∷ after)
      × All (λ g. read_file g ≡ none) before
      × (read_file f ≡ some c)
unfolding first_valid
found_first [] c e = cc
found_first (f ∷ l) c e = elim (Option-cases (read_file f)) [
  | inl unread ↦
      let (before, after, g, split, unread_before, read) =
        found_first l c (rw (unread, first_valid) at e) in
      (f ∷ before, after, g, ap (◌∷◌ f) split, (unread, unread_before), read)
  | inr (d, read) ↦
      let same : some d ≡ some c = rw (read, first_valid) at e in ([], l, f, refl, tt, read ∙ same)
]

has_some :
    (l : List Text) (d c : ConfList) → d.plugins ≡ l → unless_empty l d ≡ some c → c.plugins ≢ []
has_some [] d c h e p = cc
has_some (x ∷ l) d c h e p =
    let same : d ≡ c = cc in let plugins : x ∷ l ≡ [] = sym h ∙ ap (λ z. z.plugins) same ∙ p in cc

has_plugins : (o : Option ConfList) (c : ConfList) → with_plugins o ≡ some c → c.plugins ≢ []
has_plugins none c e p = cc
has_plugins (some d) c e p = has_some d.plugins d c refl e p

others_kept :
    (files : List ConfFile)
    → All (λ f. is_meshnet f ≡ false) (filter (λ f. not (is_meshnet f)) files)
others_kept [] = tt
others_kept (f ∷ files) = elim (Bool-cases (is_meshnet f)) [
  | inl own ↦ rw own (others_kept files)
  | inr other ↦ rw other (other, others_kept files)
]

at_middle :
    (P : ConfFile → Type 0) (before : List ConfFile) (f : ConfFile) (after : List ConfFile)
    → All P (before ++ f ∷ after)
    → P f
at_middle P [] f after h = h.0
at_middle P (g ∷ before) f after h = at_middle P before f after h.1

given : (b : Bool) (l m : List Text) → (if b then some l else none) ≡ some m → l ≡ m
given true l m e = cc
given false l m e = cc

unmarshals_to :
    (o : Option ConfList) (plugins : List Text)
    → unmarshalled o ≡ some plugins
    → (c : ConfList) × (o ≡ some c) × (c.plugins ≡ plugins)
unmarshals_to none plugins e = cc
unmarshals_to (some c) plugins e = (c, refl, given c.unmarshals c.plugins plugins e)

-- If loadConfList gives the plugins of a configuration, they are those of the first file, in the order of
-- the sort, that can be read, whose name does not contain `meshnet`; and there is at least one.
pub load_is_first :
    (sort : List ConfFile → List ConfFile) (files : List ConfFile) (plugins : List Text)
    → KeepsFiles sort
    → load_conf_list sort (some files) ≡ some plugins
    → FirstOf (sort (filter (λ f. not (is_meshnet f)) files)) plugins
unfolding load_conf_list read_file
load_is_first sort files plugins keeps e =
    let (c, found, named) = unmarshals_to _ plugins e in
    let (before, after, f, split, unread, read) = found_first _ c found in
    let others = keeps (λ g. is_meshnet g ≡ false) _ (others_kept files) in
    first_of before after f c split unread read
      (at_middle (λ g. is_meshnet g ≡ false) before f after (rw split at others)) named
      (λ p. has_plugins _ c read (named ∙ p))

-- A clock that moves on by the interval between rounds.
abbrev pub Ticks : ℕ → (ℕ → ConfRound) → Type 0
Ticks t0 env = TicksBy default_wait_interval t0 (λ i. (env i).now)

-- How the wait ends: with a configuration that a round has loaded, or with the deadline.
pub data Ended (sort : List ConfFile → List ConfFile) (env : ℕ → ConfRound) (deadline : ℕ)
    : Option Bool → Type 0 where
  loaded :
      (i : ℕ) (plugins : List Text)
      → load_conf_list sort (env i).files ≡ some plugins
      → Ended sort env deadline (some true)
  timed_out :
      (i : ℕ)
      → load_conf_list sort (env i).files ≡ none
      → deadline < (env i).now
      → Ended sort env deadline (some false)

round_ends :
    (sort : List ConfFile → List ConfFile) (env : ℕ → ConfRound) (deadline i : ℕ)
    (found : Option (List Text)) (late : Bool) (rest : Option Bool)
    → load_conf_list sort (env i).files ≡ found
    → ltb deadline (env i).now ≡ late
    → (late ≡ true) ⊎ Ended sort env deadline rest
    → Ended sort env deadline (after_load found late rest)
round_ends sort env deadline i (some plugins) late rest hf hl h = loaded i plugins hf
round_ends sort env deadline i none true rest hf hl h = timed_out i hf (ground arith)
round_ends sort env deadline i none false rest hf hl (inl h) = cc
round_ends sort env deadline i none false rest hf hl (inr h) = h

loop_ends :
    (sort : List ConfFile → List ConfFile) (env : ℕ → ConfRound) (deadline fuel i : ℕ)
    → deadline < (env (i + fuel)).now
    → Ended sort env deadline (wait_for_conf sort env deadline (suc fuel) i)
unfolding wait_for_conf
loop_ends sort env deadline zero i late =
    let at_i : i + 0 ≡ i = omega arith in
    let late' : deadline < (env i).now = rw at_i at late in
    round_ends sort env deadline i _ _ none refl refl (inl (ground arith))
loop_ends sort env deadline (suc fuel) i late =
    let later : i + suc fuel ≡ suc i + fuel = omega arith in
    round_ends sort env deadline i _ _ _ refl refl
      (inr (loop_ends sort env deadline fuel (suc i) (rw later at late)))

-- If the clock starts no earlier than the call and moves on by the interval between rounds,
-- WaitForNetConfig ends within 92 rounds: it succeeds only with a configuration that a round has
-- loaded, and fails only in a round after the timeout that has loaded none.
pub wait_for_net_config-Ended :
    (sort : List ConfFile → List ConfFile) (env : ℕ → ConfRound) (t0 : ℕ)
    → Ticks t0 env
    → Ended sort env (t0 + default_wait_timeout) (wait_for_net_config sort env t0)
unfolding wait_for_net_config
wait_for_net_config-Ended sort env t0 h =
    loop_ends sort env (t0 + default_wait_timeout) 91 0
      (omega (arith, now_lower default_wait_interval t0 (λ i. (env i).now) h 91))
