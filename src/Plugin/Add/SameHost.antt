-- ===== src/Plugin/Add/SameHost.antt =====
-- What cmdAdd of plugin/meshnet.go has done for two pods of one host.
use meshnet_cni.Prelude.{◌≡◌, refl, Bool, true, false, some, List, [], ◌∷◌, string_eq}
use meshnet_cni.Protocol.{initiates}
use meshnet_cni.Plugin.{Rpc, answered, refused, VEth, fine}
use meshnet_cni.Plugin.Add.{
  Act, removes, makes_veth, Answers, act_then, ended, add_new, add_same_host,
}

-- Two pods of one host are joined, or the peer is the one to join them, by which of the two interfaces
-- were found.
pub data Joined (higher : Bool) (mine theirs : VEth) (own_exists peer_exists : Bool) (a : Answers)
    (acts : List Act) : Type 0 where
  were_there :
      own_exists ≡ true
      → peer_exists ≡ true
      → acts ≡ []
      → Joined higher mine theirs own_exists peer_exists a acts
  replaces_own :
      own_exists ≡ true
      → peer_exists ≡ false
      → acts ≡ removes mine ∷ makes_veth mine theirs ∷ []
      → a.own_removed ≡ true
      → a.veth_made ≡ true
      → Joined higher mine theirs own_exists peer_exists a acts
  replaces_peer :
      own_exists ≡ false
      → peer_exists ≡ true
      → acts ≡ removes theirs ∷ makes_veth mine theirs ∷ []
      → a.peer_removed ≡ true
      → a.veth_made ≡ true
      → Joined higher mine theirs own_exists peer_exists a acts
  joins :
      (skipped : Bool)
      → own_exists ≡ false
      → peer_exists ≡ false
      → a.is_skipped ≡ answered skipped
      → initiates skipped higher ≡ true
      → acts ≡ makes_veth mine theirs ∷ []
      → a.veth_made ≡ true
      → Joined higher mine theirs own_exists peer_exists a acts
  leaves :
      own_exists ≡ false
      → peer_exists ≡ false
      → a.is_skipped ≡ answered false
      → higher ≡ false
      → acts ≡ []
      → Joined higher mine theirs own_exists peer_exists a acts

new_joins :
    (higher : Bool) (mine theirs : VEth) (skipped : Rpc Bool) (made : Bool) (a : Answers)
    → a.is_skipped ≡ skipped
    → a.veth_made ≡ made
    → (add_new higher mine theirs skipped made).1 ≡ fine
    → Joined higher mine theirs false false a (add_new higher mine theirs skipped made).0
unfolding add_new initiates
new_joins higher mine theirs (refused c) made a s m e = cc
new_joins true mine theirs (answered true) true a s m e = joins true refl refl s refl refl m
new_joins true mine theirs (answered true) false a s m e = cc
new_joins true mine theirs (answered false) true a s m e = joins false refl refl s refl refl m
new_joins true mine theirs (answered false) false a s m e = cc
new_joins false mine theirs (answered true) true a s m e = joins true refl refl s refl refl m
new_joins false mine theirs (answered true) false a s m e = cc
new_joins false mine theirs (answered false) made a s m e = leaves refl refl s refl refl

-- An act that was asked for and what follows it.
then_ends :
    (a b : Act) (first second : Bool)
    → (act_then a first (act_then b second ended)).1 ≡ fine
    → ((act_then a first (act_then b second ended)).0 ≡ a ∷ b ∷ [])
      × (first ≡ true)
      × (second ≡ true)
then_ends a b true true e = (refl, refl, refl)
then_ends a b true false e = cc
then_ends a b false second e = cc

pub same_host_joins :
    (higher : Bool) (mine theirs : VEth) (own_exists peer_exists : Bool) (a : Answers)
    → (add_same_host higher mine (some theirs) own_exists peer_exists a).1 ≡ fine
    → Joined higher mine theirs own_exists peer_exists a
        (add_same_host higher mine (some theirs) own_exists peer_exists a).0
unfolding add_same_host
same_host_joins higher mine theirs true true a e = were_there refl refl refl
same_host_joins higher mine theirs true false a e =
    let (acts, gone, made) =
      then_ends (removes mine) (makes_veth mine theirs) a.own_removed a.veth_made e in
    replaces_own refl refl acts gone made
same_host_joins higher mine theirs false true a e =
    let (acts, gone, made) =
      then_ends (removes theirs) (makes_veth mine theirs) a.peer_removed a.veth_made e in
    replaces_peer refl refl acts gone made
same_host_joins higher mine theirs false false a e =
    new_joins higher mine theirs a.is_skipped a.veth_made a refl refl e
