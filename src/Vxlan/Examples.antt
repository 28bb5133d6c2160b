-- ===== src/Vxlan/Examples.antt =====
-- A pod with a VXLAN interface of an earlier peer, on a host with one route.
use meshnet_cni.Prelude.{◌≡◌, refl, true, false, none, some, [], ◌∷◌, arith}
use meshnet_cni.Koko.{SetAnswers}
use meshnet_cni.LinkState.{get_link, vni_of_uid}
use meshnet_cni.LinkState.Registration.{link_of}
use meshnet_cni.Vxlan.{Request, PodLink, no_link, vxlan_link, Parsers, Routes, Answers, update_pod}
use meshnet_cni.Vxlan.Settled.{wanted, update_pod-leaves, update_pod-repeat}

abbrev parsers : Parsers
parsers = record { parse_cidr = λ c. some (record { text = c; is_v4 = true }); parse_ip = λ i. i }

abbrev routes : Routes
routes = record { failed = false; links = 2 ∷ []; name_of = λ i. some "eth0"; present = λ n. false }

abbrev set_up : SetAnswers
set_up = record {
  ns_opened = true;
  fd_fits = true;
  moved = true;
  looked_up = true;
  renamed = true;
  ipv6_enabled = λ a. true;
  addr_added = λ a. true;
  state_set = true;
}

abbrev answers : Answers
answers = record {
  seen = true;
  prefix = none;
  random = "koko1234";
  parent_mtu = some 1500;
  added = true;
  found = true;
  set = set_up;
  file_exists = false;
  left = no_link;
  ns_opened = true;
  link_found = true;
  deleted = true;
}

abbrev request : Request
request = record {
  pod = record {
    net_ns = "/run/netns/r2";
    intf_name = "eth3";
    peer_vtep = "10.0.0.9";
    vni = 5003;
    kube_ns = "lab";
  };
  intf_ip = "12.12.12.2/24";
  node_intf = "ens5";
  mtu = 0;
}

abbrev old : PodLink
old = vxlan_link 5003 "10.0.0.7"

update_pod-leaves_example :
    ((update_pod parsers routes none answers request old []).0.link ≡ wanted parsers request)
    × (get_link "lab" 3 (update_pod parsers routes none answers request old []).2
        ≡ some (link_of request.pod 3))
unfolding update_pod vni_of_uid
update_pod-leaves_example =
    update_pod-leaves parsers routes none answers request old [] 3 (omega arith) refl refl refl

update_pod-repeat_example :
    let again =
      update_pod parsers routes
        (some 1400)
        answers
        request
        (update_pod parsers routes none answers request old []).0.link
        [] in
    (again.0.acts ≡ []) × (again.0.link ≡ wanted parsers request) × (again.1 ≡ true)
unfolding update_pod
update_pod-repeat_example =
    update_pod-repeat parsers routes none (some 1400) answers answers request old [] [] refl refl
      refl
