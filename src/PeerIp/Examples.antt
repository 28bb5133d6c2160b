-- ===== src/PeerIp/Examples.antt =====
-- A cluster of two nodes, one of which is listed late.
use meshnet_cni.Prelude.{ℕ, ◌+◌, ◌≡◌, refl, string_eq, some, List, [], ◌∷◌}
use meshnet_cni.PeerIp.{
  Address, internal_ip, other_type, Call, unknown, ips_of_nodes, validate_peer_node_ip,
  refresh_node_ips, set_node_client, ips_of_node, after,
}

abbrev first_node : List Address
first_node =
    record { type = other_type; address = "node-1" }
    ∷ record { type = internal_ip; address = "10.0.0.1" }
    ∷ []

abbrev second_node : List Address
second_node = record { type = internal_ip; address = "10.0.0.2" } ∷ []

abbrev asks : ℕ → List (List Address) → Call
asks now nodes = record { ip = "10.0.0.2"; now = now; nodes = some nodes; stored_at = now + 1 }

abbrev early : List Call
early = asks 5 (first_node ∷ []) ∷ []

-- The second node is not seen before the cache has expired.
too_early :
    ((validate_peer_node_ip (asks 5 (first_node ∷ [])) (after [])).0 ≡ unknown)
    × ((validate_peer_node_ip (asks 9 (first_node ∷ second_node ∷ [])) (after early)).0 ≡ unknown)
unfolding validate_peer_node_ip refresh_node_ips ips_of_nodes ips_of_node after set_node_client
too_early = (refl, refl)
