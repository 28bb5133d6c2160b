-- ===== src/Startup.antt =====
-- The start of the daemon: main of daemon/main.go, and New, restConfig and clientRateFromEnv of
-- daemon/meshnet/meshnet.go. What each call gives is an argument; the calls are listed in order. A
-- goroutine is listed where it is started.
pub mod Rates
use meshnet_cni.Prelude.{
  ℕ, Bool, true, false, not, Option, none, some, List, [], ◌∷◌, ◌++◌, ◌==◌, nat_eq, if◌then◌else◌,
}
use meshnet_cni.HostConf.{Text, link_grpc, equals, resolve_inter_node_link_type}
use meshnet_cni.Protocol.Names.{codes}

-- A value of the environment, if it is set, parsed and positive; the default otherwise. Floats and
-- integers are of any type.
unfoldable pub rate_or {ℓ} : {A : Type ℓ} → A → (Text → Option A) → (A → Bool) → Text → A
rate_or default parse positive [] = default
rate_or default parse positive (c ∷ v) = elim (parse (c ∷ v)) [
  | none ↦ default
  | some x ↦ if positive x then x else default
]

-- The values of MESHNET_K8S_QPS and MESHNET_K8S_BURST, empty if they are not set, and how they are
-- read.
pub record RateEnv (F I : Type 0) : Type 0 where
  pub qps : Text
  pub burst : Text
  pub default_qps : F
  pub default_burst : I
  pub parse_float : Text → Option F
  pub parse_int : Text → Option I
  pub float_positive : F → Bool
  pub int_positive : I → Bool

unfoldable pub client_rate_from_env : {F I : Type 0} → RateEnv F I → F × I
unfolding rate_or
client_rate_from_env e = (
  rate_or e.default_qps e.parse_float e.float_positive e.qps,
  rate_or e.default_burst e.parse_int e.int_positive e.burst,
)

-- restConfig: whether there is a configuration of the cluster, or else a file.
unfoldable pub rest_config : (in_cluster from_file : Bool) → Bool
rest_config in_cluster from_file = if in_cluster then true else from_file

-- What New meets: the configuration, the three clients, the port, and two variables.
pub record NewEnv : Type 0 where
  pub in_cluster : Bool
  pub from_file : Bool
  pub kube_client : Bool
  pub topology_client : Bool
  pub dynamic_client : Bool
  pub listens : Bool
  pub link_type : Text
  pub reflection : Text

-- The server: whether every call is logged, whether the log of grpc is discarded, and whether it
-- shows its services.
pub record Server : Type 0 where
  pub port : ℕ
  pub logs_calls : Bool
  pub discards_log : Bool
  pub reflects : Bool

abbrev pub is_grpc : Text → Bool
is_grpc link_type = equals (resolve_inter_node_link_type link_type) link_grpc

unfoldable pub new_meshnet : NewEnv → (port : ℕ) → Option Server
unfolding rest_config
new_meshnet e port =
    if not (rest_config e.in_cluster e.from_file)
    then none
    else if not e.kube_client
    then none
    else if not e.topology_client
    then none
    else if not e.dynamic_client
    then none
    else if not e.listens
    then none
    else some (record {
      port = port;
      logs_calls = not (is_grpc e.link_type);
      discards_log = is_grpc e.link_type;
      reflects = equals e.reflection (codes "1");
    })

pub data Step : Type 0 where
  waits_for_net_config inits_cni seeds_index creates_server sets_clients inits_carrier : Step
  reconciles watches_wires watches_links reasserts_later untaints_when_ready : Step
  serves cleans_up : Step
  exits : (code : ℕ) → Step

-- Outcomes of the calls of main. `grpc_port` is the number in GRPC_PORT, if it has one.
pub record MainEnv : Type 0 where
  pub conf_found : Bool
  pub cni_inited : Bool
  pub grpc_port : Option ℕ
  pub new : NewEnv
  pub served : Bool

abbrev pub grpc_default_port : ℕ
grpc_default_port = 51111

unfoldable pub port_of : Option ℕ → ℕ
port_of none = grpc_default_port
port_of (some p) = if p == 0 then grpc_default_port else p

-- From the server on; an error of the reconciliation is only logged. The deferred Cleanup runs when
-- main returns, and not after os.Exit.
unfoldable pub after_new : MainEnv → Option Server → List Step
after_new e none = exits 1 ∷ []
after_new e (some s) =
    sets_clients
    ∷ inits_carrier
    ∷ reconciles
    ∷ watches_wires
    ∷ watches_links
    ∷ reasserts_later
    ∷ untaints_when_ready
    ∷ serves
    ∷ (if e.served then cleans_up ∷ [] else exits 1 ∷ [])

unfoldable pub main : MainEnv → List Step
unfolding after_new new_meshnet port_of
main e =
    if not e.conf_found
    then waits_for_net_config ∷ exits 1 ∷ []
    else if not e.cni_inited
    then waits_for_net_config ∷ inits_cni ∷ exits 1 ∷ []
    else waits_for_net_config
      ∷ inits_cni
      ∷ seeds_index
      ∷ creates_server
      ∷ after_new e (new_meshnet e.new (port_of e.grpc_port))
