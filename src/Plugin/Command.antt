-- ===== src/Plugin/Command.antt =====
-- cmdAdd and cmdDel of plugin/meshnet.go as a whole.
use meshnet_cni.Prelude.{
  Bool, ◌&&◌, String, Option, none, some, List, [], string_eq, if◌then◌else◌, map,
}
use meshnet_cni.Topology.{Link, Pod}
use meshnet_cni.Plugin.{Rpc, bool_response_err, Config, End, fine, failed}
use meshnet_cni.Plugin.Ready.{LocalPod, found, no_topology, not_ready, interrupted}
use meshnet_cni.Plugin.Add.{Act, Answers, add_links}

-- Whether loadConf, LoadArgs and the dial of the local daemon succeed, and what each later step gets.
pub record AddCall : Type 0 where
  pub conf_loaded : Bool
  pub args_loaded : Bool
  pub dialed : Bool
  pub local_pod : LocalPod
  pub source : Option (String × String)
  pub alive_set : Rpc Bool
  pub container_id : String
  pub answers : Link → Answers

-- The pod that SetAlive was asked for, if it was, what was asked for the links, and the end.
pub record Result : Type 0 where
  pub alive : Option Pod
  pub acts : List Act
  pub end : End

abbrev pub stopped : End → Result
stopped e = record { alive = none; acts = []; end = e }

-- The pod as it is set alive.
abbrev pub own_pod : Config → AddCall → Pod → String → Pod
own_pod cfg c p ip = record p { net_ns = cfg.net_ns; src_ip = ip; container_id = c.container_id }

unfoldable pub add_alive : Config → AddCall → Pod → Result
unfolding bool_response_err
add_alive cfg c local =
    let (acts, end) = add_links cfg local (map (λ l. (l, c.answers l)) local.links) in
    if bool_response_err c.alive_set
    then record { alive = some local; acts = []; end = failed }
    else record { alive = some local; acts = acts; end = end }

unfoldable pub add_local : Config → AddCall → LocalPod → Result
unfolding add_alive
add_local cfg c no_topology = stopped fine
add_local cfg c not_ready = stopped failed
add_local cfg c interrupted = stopped failed
add_local cfg c (found p) = elim c.source [
  | none ↦ stopped failed
  | some (ip, intf) ↦ add_alive cfg c (own_pod cfg c p ip)
]

-- cmdAdd
unfoldable pub cmd_add : Config → AddCall → Result
unfolding add_local
cmd_add cfg c =
    if c.conf_loaded && c.args_loaded && c.dialed
    then add_local cfg c c.local_pod
    else stopped failed
