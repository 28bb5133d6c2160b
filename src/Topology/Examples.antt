-- ===== src/Topology/Examples.antt =====
-- The topology theorems at concrete objects.
use meshnet_cni.Prelude.{filter, ◌≡◌, refl, true, false, some, [], ◌∷◌, nat_eq, string_eq}
use meshnet_cni.Topology.{Topology, skipped, is_skipped, skip_reverse_own}
use meshnet_cni.Topology.Skips.{is_apart, is_skipped-skip_reverse_own}

abbrev r1 : Topology
r1 = record {
  links = some [];
  src_ip = "10.0.0.1";
  net_ns = "/var/run/netns/a";
  container_id = "c1";
  skips =
      skipped (record { pod_name = "r2"; link_id = 1 })
      ∷ skipped (record { pod_name = "r2"; link_id = 2 })
      ∷ skipped (record { pod_name = "r3"; link_id = 3 })
      ∷ [];
}

-- The entry for the peer's other link is lost.
is_skipped-skip_reverse_own_example :
    ((skip_reverse_own "r2" 1 r1).skips ≡ filter (is_apart "r2" 1) r1.skips)
    × (is_skipped "r2" 2 (skip_reverse_own "r2" 1 r1) ≡ false)
is_skipped-skip_reverse_own_example = is_skipped-skip_reverse_own "r2" "r2" 1 2 r1

was_skipped : is_skipped "r2" 2 r1 ≡ true
unfolding is_skipped
was_skipped = refl
