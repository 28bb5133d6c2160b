-- ===== src/Plugin/Del/Examples.antt =====
-- The links of a pod that goes down.
use meshnet_cni.Prelude.{
  ◌≢◌, ◌≡◌, refl, Bool, true, false, none, List, [], ◌∷◌, ◌==◌, nat_eq, string_eq, if◌then◌else◌,
  map,
}
use meshnet_cni.Topology.{Link, Pod}
use meshnet_cni.Plugin.{
  Rpc, answered, refused, not_found, VEth, make_veth, link_mtu_of, fine, panicked,
}
use meshnet_cni.Plugin.Del
use meshnet_cni.Plugin.Del.Cleanup.{
  Reaches, Cleaned, none_left, cleans, opening, asks_of, del_complete, del_panics,
}
use meshnet_cni.Plugin.Examples.{host_config, link_to, remote, own, beside, dead, peer_of}

abbrev del_answers : Rpc Pod → Rpc Bool → Del.Answers
del_answers peer reversed = record { peer = peer; reversed = reversed }

abbrev del_call : Rpc Pod → Rpc Bool → Del.DelCall
del_call second reversed = record {
  args_loaded = true;
  conf_loaded = true;
  dialed = true;
  local_pod = answered own;
  container_id = "c2";
  wires_removed = answered true;
  dead_set = answered true;
  answers = λ l.
      if l.uid == 2
      then del_answers second reversed
      else del_answers (answered (peer_of l.uid)) (answered true);
}

abbrev answers_to : Del.DelCall → List (Link × Del.Answers)
answers_to c = map (λ l. (l, c.answers l)) own.links

abbrev host_veth : VEth
host_veth = record { ns_name = "/var/run/netns/b"; link_name = "eth2"; ip_addr = none; mtu = 1450 }

abbrev reaches :
    (second : Rpc Pod) (reversed : Rpc Bool)
    → Reaches (del_call second reversed) own (answers_to (del_call second reversed))
reaches second reversed = (refl, refl, refl, refl, refl, refl, (true, refl), refl)

abbrev first_acts : List Del.Act
first_acts = asks_of host_config "10.0.0.2" (link_to "r1" 1) beside host_veth

first-Cleaned :
    Cleaned host_config "10.0.0.2"
      ((link_to "r1" 1, del_answers (answered beside) (answered true)) ∷ [])
      first_acts
unfolding make_veth link_mtu_of
first-Cleaned = cleans (link_to "r1" 1) _ beside host_veth [] [] refl refl refl none_left

ends_well : (Del.cmd_del host_config (del_call (answered remote) (answered true))).1 ≡ fine
unfolding Del.cmd_del make_veth link_mtu_of
ends_well = refl

no_refusal : (answered true) ≢ (answered false)
no_refusal e = cc

del_complete_example :
    let c = del_call (answered remote) (answered true) in
    (acts : List Del.Act) × Cleaned host_config "10.0.0.2" (answers_to c) acts
    × (Del.cmd_del host_config c ≡ (opening acts, fine))
del_complete_example =
    del_complete host_config (del_call (answered remote) (answered true)) own _
      (reaches (answered remote) (answered true)) (no_refusal, (no_refusal, (no_refusal, tt)))
      ends_well

-- The daemon has no topology for the second peer: the third link is not looked at.
del_panics_example :
    Del.cmd_del host_config (del_call (refused not_found) (answered true))
    ≡ (opening first_acts, panicked)
del_panics_example =
    del_panics host_config (del_call (refused not_found) (answered true)) own
      ((link_to "r1" 1, del_answers (answered beside) (answered true)) ∷ [])
      ((link_to "r4" 3, del_answers (answered dead) (answered true)) ∷ []) (link_to "r3" 2)
      (del_answers (refused not_found) (answered true)) first_acts not_found
      (reaches (refused not_found) (answered true)) first-Cleaned refl
