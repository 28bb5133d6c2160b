-- ===== src/PeerIp.antt =====
-- daemon/grpcwire/peerip.go: the addresses that the daemon may dial, which it takes from the list of
-- the cluster's nodes and keeps for a while. What the API server lists is an argument, and calls
-- follow one another.
pub mod Freshness
pub mod Wait
mod Examples
use meshnet_cni.Prelude.{
  ℕ, ◌+◌, ◌*◌, Bool, true, false, not, ◌&&◌, String, Option, none, some, List, [], ◌∷◌, ◌++◌, ltb,
  ◌==◌, string_eq, any, if◌then◌else◌,
}

-- nodeIPCacheTTL
abbrev pub node_ip_cache_ttl : ℕ
node_ip_cache_ttl = 30 * 1000000000

-- k8s.io/api/core/v1.NodeAddress, of the types that are told apart here.
pub data AddressType : Type 0 where
  internal_ip external_ip other_type : AddressType

pub record Address : Type 0 where
  pub type : AddressType
  pub address : String

-- nodeClient (whether it is set), nodeIPSet and nodeIPCacheExpiry.
pub record Cache : Type 0 where
  pub client : Bool
  pub node_ip_set : Option (List String)
  pub expiry : ℕ

unfoldable pub set_node_client : Bool → Cache
set_node_client client = record { client = client; node_ip_set = none; expiry = 0 }

abbrev pub dials : AddressType → Bool
dials internal_ip = true
dials external_ip = true
dials other_type = false

unfoldable pub ips_of_node : List Address → List String
ips_of_node [] = []
ips_of_node (a ∷ l) =
    let rest = ips_of_node l in
    if dials a.type && not (a.address == "") then a.address ∷ rest else rest

unfoldable pub ips_of_nodes : List (List Address) → List String
unfolding ips_of_node
ips_of_nodes [] = []
ips_of_nodes (n ∷ l) = ips_of_node n ++ ips_of_nodes l

-- One call of validatePeerNodeIP: the address, the time of its test of the expiry, what the list of
-- nodes gives (`none` for an error), and the time at which the list is stored.
pub record Call : Type 0 where
  pub ip : String
  pub now : ℕ
  pub nodes : Option (List (List Address))
  pub stored_at : ℕ

unfoldable pub refresh_node_ips : Call → Cache → Option (List String) × Cache
unfolding ips_of_nodes
refresh_node_ips c s = elim c.nodes [
  | none ↦ (none, s)
  | some nodes ↦ (
    some (ips_of_nodes nodes),
    record s { node_ip_set = some (ips_of_nodes nodes); expiry = c.stored_at + node_ip_cache_ttl },
  )
]

pub data Verdict : Type 0 where
  accepted refresh_failed unknown : Verdict

abbrev pub is_expired : Cache → ℕ → Bool
is_expired s now = elim s.node_ip_set [ none ↦ true | some l ↦ ltb s.expiry now ]

abbrev pub known : String → Option (List String) → Verdict
known ip none = unknown
known ip (some l) = if any (λ x. x == ip) l then accepted else unknown

unfoldable pub validate_peer_node_ip : Call → Cache → Verdict × Cache
unfolding refresh_node_ips
validate_peer_node_ip c s =
    if not s.client
    then (accepted, s)
    else if is_expired s c.now
    then elim (refresh_node_ips c s).0 [
      | none ↦ (refresh_failed, s)
      | some l ↦ (known c.ip (some l), (refresh_node_ips c s).1)
    ]
    else (known c.ip s.node_ip_set, s)

-- The cache after a history of calls, the newest first.
unfoldable pub after : List Call → Cache
unfolding set_node_client validate_peer_node_ip
after [] = set_node_client true
after (c ∷ cs) = (validate_peer_node_ip c (after cs)).1
