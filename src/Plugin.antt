-- ===== src/Plugin.antt =====
-- The CNI plugin, plugin/meshnet.go and plugin/grpcwires-plugin.go: what an ADD and a DEL ask of the
-- kernel, of the daemon on the node and of the daemons of the peers. What these answer is an argument;
-- what the plugin asks is listed in order.
pub mod Ready
pub mod Add
pub mod Command
pub mod Success
pub mod Del
pub mod Chan
pub mod Examples
use meshnet_cni.Prelude.{
  ℕ, ◌^◌, Bool, true, false, ◌&&◌, not, String, Option, none, some, ltb, ◌==◌, string_eq, nat_eq,
  if◌then◌else◌,
}
use meshnet_cni.Topology.{Pod}

-- The code of an error of a gRPC call, as far as the plugin tells them apart.
pub data Code : Type 0 where
  not_found other : Code

-- What a gRPC client returns: an answer, or an error and no answer.
pub data Rpc {ℓ} (A : Type ℓ) : Type ℓ where
  answered : A → Rpc A
  refused : Code → Rpc A

-- boolResponseErr: whether there is an error.
unfoldable pub bool_response_err : Rpc Bool → Bool
bool_response_err (refused c) = true
bool_response_err (answered response) = not response

-- The types of a link between nodes.
pub data LinkType : Type 0 where
  grpc vxlan : LinkType

-- What the plugin reads of its host: net.ParseCIDR, the default MTU of the host file, the type of the
-- links between nodes, and the network namespace and pod namespace of the call.
pub record Config : Type 0 where
  pub parses : String → Bool
  pub default_link_mtu : Option ℕ
  pub inter_node_link_type : LinkType
  pub net_ns : String
  pub kube_ns : String

-- linkMTU, of an int32 as its 32-bit pattern.
unfoldable pub link_mtu_of : Option ℕ → ℕ → ℕ
link_mtu_of default mtu =
    if ltb 0 mtu && ltb mtu (2 ^ 31) then mtu else elim default [ none ↦ 0 | some m ↦ m ]

-- koko.VEth; the address is the text that ParseCIDR has read.
pub record VEth : Type 0 where
  pub ns_name : String
  pub link_name : String
  pub ip_addr : Option String
  pub mtu : ℕ

-- makeVeth; `none` for an address that does not parse.
unfoldable pub make_veth : (String → Bool) → String → String → String → ℕ → Option VEth
make_veth parses ns name ip mtu =
    let veth : VEth = record { ns_name = ns; link_name = name; ip_addr = none; mtu = mtu } in
    if ip == ""
    then some veth
    else if parses ip
    then some (record veth { ip_addr = some ip })
    else none

-- `SrcIp != "" && NetNs != ""`
unfoldable pub is_alive_pod : Pod → Bool
is_alive_pod p = not (p.src_ip == "") && not (p.net_ns == "")

-- Whether a call of the plugin failed, in Go's terms: it returned an error, or it returned none, or it
-- panicked.
pub data End : Type 0 where
  fine failed panicked : End
