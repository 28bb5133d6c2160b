-- ===== src/Protocol/Examples.antt =====
-- Two pods that come up one shortly after the other: the second makes the link when the first has
-- written its skip, and nobody does if the second has given up before.
use meshnet_cni.Prelude.{
  ◌≤◌, ◌≡◌, refl, ◌||◌, ==_iff, Bool, true, false, String, none, [], ◌==◌, string_eq,
}
use meshnet_cni.Topology.{Topology, Pod, set_alive, skip, is_skipped, surfaced_ip, names}
use meshnet_cni.Protocol.{Stage, Side, Pair, Move, Step, Reach, looks_alive, initiates}
use meshnet_cni.Protocol
use meshnet_cni.Protocol.Names.{higher_prio}
use meshnet_cni.Protocol.Agreement.{AreFresh, link_is_made, made_at_most_once}

abbrev knows : String → Bool
knows ip = ip == "10.0.0.1" || ip == "10.0.0.2"

abbrev object : Topology
object = record { links = none; src_ip = ""; net_ns = ""; container_id = ""; skips = [] }

abbrev pod_of : String → String → Pod
pod_of name ip = record {
  name = name;
  src_ip = ip;
  net_ns = "/run/netns/x";
  kube_ns = "lab";
  links = [];
  node_ip = ip;
  node_intf = "";
  container_id = "c";
}

abbrev side : String → String → Side
side name ip = record {
  name = name;
  pod = pod_of name ip;
  topology = object;
  stage = Protocol.starting;
}

abbrev fresh : Pair
fresh = record { left = side "r1" "10.0.0.1"; right = side "r2" "10.0.0.2"; made = 0 }

fresh-AreFresh : AreFresh knows 7 fresh
unfolding looks_alive is_skipped
fresh-AreFresh = record {
  left = record { running = (refl, refl, refl); stage = refl; down = refl; clean = refl };
  right = record { running = (refl, refl, refl); stage = refl; down = refl; clean = refl };
  names = λ e. let h : false ≡ true = (==_iff "r1" "r2").1 e in cc;
  none_made = refl;
}

abbrev left_to : Pair → Stage → Pair
left_to s st = record s { left = record s.left { stage = st } }

abbrev right_to : Pair → Stage → Pair
right_to s st = record s { right = record s.right { stage = st } }

abbrev left_up : Pair → Pair
left_up s = record s {
  left = record s.left { topology = set_alive s.left.pod s.left.topology; stage = Protocol.alive };
}

abbrev right_up : Pair → Pair
right_up s = record s {
  right = record s.right {
    topology = set_alive s.right.pod s.right.topology;
    stage = Protocol.alive;
  };
}

abbrev right_skips : Pair → Pair
right_skips s = record s {
  right = record s.right {
    topology = skip s.left.name 7 s.right.topology;
    stage = Protocol.skipped_peer;
  };
}

-- The right pod comes up, finds its peer dead, and is slow; then the left pod comes up.
abbrev second_up : Pair
second_up = left_up (right_to (right_up fresh) Protocol.saw_dead)

both_come_up : Reach knows 7 fresh second_up
unfolding looks_alive surfaced_ip set_alive
both_come_up =
    Protocol.next {t = right_to (right_up fresh) Protocol.saw_dead}
      (Protocol.next {t = right_up fresh}
        (Protocol.next {t = fresh} Protocol.here
          (Protocol.moves_right (Protocol.sets_alive refl refl refl) refl))
        (Protocol.moves_right (Protocol.sees_dead refl refl refl refl) refl))
      (Protocol.moves_left (Protocol.sets_alive refl refl refl) refl)

-- With CreatGRPCChan the left pod waits until the right one has written its skip.
abbrev left_waits : Pair
left_waits = left_to second_up Protocol.waiting

abbrev word_left : Pair
word_left = right_skips left_waits

abbrev link_made : Pair
link_made = record (left_to word_left Protocol.made_it) { made = 1 }

abbrev half_made : Pair
half_made = record (left_to word_left Protocol.linking) { made = 1 }

left_makes_it : Reach knows 7 fresh link_made
unfolding looks_alive surfaced_ip set_alive skip is_skipped higher_prio initiates names
left_makes_it =
    Protocol.next {t = half_made}
      (Protocol.next {t = left_to word_left Protocol.making}
        (Protocol.next {t = left_to word_left Protocol.checking}
          (Protocol.next {t = word_left}
            (Protocol.next {t = left_waits}
              (Protocol.next {t = left_to second_up Protocol.asking}
                (Protocol.next {t = second_up} both_come_up
                  (Protocol.moves_left (Protocol.sees_alive refl refl refl refl) refl))
                (Protocol.moves_left (Protocol.holds_back refl refl refl refl) refl))
              (Protocol.moves_right (Protocol.skips_peer refl refl refl) refl))
            (Protocol.moves_left (Protocol.wakes refl refl refl refl) refl))
          (Protocol.moves_left (Protocol.goes_on refl refl refl refl) refl))
        (Protocol.moves_left (Protocol.makes refl refl refl) refl))
      (Protocol.moves_left (Protocol.completes refl refl refl) refl)

-- It gives up before that, and the right pod's skip comes too late.
abbrev missed : Pair
missed = right_skips (left_to second_up Protocol.left_it)

nobody_makes_it : Reach knows 7 fresh missed
unfolding looks_alive surfaced_ip set_alive skip is_skipped higher_prio initiates names
nobody_makes_it =
    Protocol.next {t = left_to second_up Protocol.left_it}
      (Protocol.next {t = left_waits}
        (Protocol.next {t = left_to second_up Protocol.asking}
          (Protocol.next {t = second_up} both_come_up
            (Protocol.moves_left (Protocol.sees_alive refl refl refl refl) refl))
          (Protocol.moves_left (Protocol.holds_back refl refl refl refl) refl))
        (Protocol.moves_left (Protocol.gives_up refl refl refl) refl))
      (Protocol.moves_right (Protocol.skips_peer refl refl refl) refl)

link_is_made_example : (link_made.made ≡ 1) × (missed.made ≡ 0)
link_is_made_example = (
  link_is_made knows 7 fresh link_made fresh-AreFresh left_makes_it refl refl,
  link_is_made knows 7 fresh missed fresh-AreFresh nobody_makes_it refl refl,
)

made_at_most_once_example : link_made.made ≤ 1
made_at_most_once_example = made_at_most_once knows 7 fresh link_made fresh-AreFresh left_makes_it
