-- ===== src/Topology/Alive.antt =====
-- What the handlers Get and SetAlive of daemon/meshnet/handler.go show of a pod.
use meshnet_cni.Prelude.{
  ◌≡◌, ◌⊎◌, Bool, true, ◌&&◌, not, String, arith, ◌==◌, nat_eq, string_eq, ==_iff,
}
use meshnet_cni.Topology.{
  Topology, Pod, Read, read, no_topology, failed, got, get, set_alive, surfaced_ip,
}

-- The source address that Get shows to the plugin, which dials it, is empty or that of a known
-- cluster node, whatever the topology object holds.
pub get_ip_is_valid :
    (valid : String → Bool) (host_ip host_intf name ns : String) (r : Read) (p : Pod)
    → get valid host_ip host_intf name ns r ≡ got p
    → (p.src_ip ≡ "") ⊎ (valid p.src_ip ≡ true)
unfolding get surfaced_ip
get_ip_is_valid valid host_ip host_intf name ns no_topology p e = cc
get_ip_is_valid valid host_ip host_intf name ns failed p e = cc
get_ip_is_valid valid host_ip host_intf name ns (read t) p e = ground (arith, ==_iff t.src_ip "")

-- The plugin's test that a pod is alive.
abbrev pub is_alive : Pod → Bool
is_alive p = not (p.src_ip == "") && not (p.net_ns == "")

-- A pod that was set alive with the address of a known node is shown with that address, network
-- namespace and container to whoever asks.
pub get-set_alive :
    (valid : String → Bool) (host_ip host_intf name ns : String) (p q : Pod) (t : Topology)
    → valid p.src_ip ≡ true
    → get valid host_ip host_intf name ns (read (set_alive p t)) ≡ got q
    → (q.src_ip ≡ p.src_ip) × (q.net_ns ≡ p.net_ns) × (q.container_id ≡ p.container_id)
unfolding get surfaced_ip set_alive
get-set_alive valid host_ip host_intf name ns p q t v e = (ground arith, ground arith, ground arith)
