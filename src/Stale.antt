-- ===== src/Stale.antt =====
-- ensureNoStaleRemoteEnd of daemon/grpcwire/gwire_rpc_handlers.go: whether an interface that is in
-- the way of a new wire may be removed.
pub mod Safety
mod Examples
use meshnet_cni.Prelude.{ℕ, Bool, true, false, String, Option, none, some, List, if◌then◌else◌}
use meshnet_cni.Wire.{Daemon, GrpcWire, WireDef, get_wire}
use meshnet_cni.DataStore.{Item, is_wire_recorded}

-- What inPodLinkInfo reports: whether the name is taken, and whether by a veth.
pub record LinkInfo : Type 0 where
  pub present : Bool
  pub is_veth : Bool

-- Whether RemoveVethLink is called, and whether an error is returned.
pub record Verdict : Type 0 where
  pub removes : Bool
  pub refuses : Bool

unfoldable pub is_tracked : Option GrpcWire → Bool
is_tracked none = false
is_tracked (some w) = true

-- The checks (2) and (3), for a name that is taken and a wire that is not in memory. `recorded` is
-- `none` if the data store could not be read; `removed` says that the removal succeeds.
unfoldable pub check_recorded : LinkInfo → Option Bool → Bool → Verdict
check_recorded info none removed = record { removes = false; refuses = true }
check_recorded info (some true) removed = record { removes = false; refuses = true }
check_recorded info (some false) removed =
    if info.is_veth
    then record { removes = true; refuses = if removed then false else true }
    else record { removes = false; refuses = true }

-- `info` is `none` if the pod's namespace could not be inspected.
unfoldable pub ensure_no_stale_remote_end : Option LinkInfo → Bool → Option Bool → Bool → Verdict
unfolding check_recorded
ensure_no_stale_remote_end none tracked recorded removed = record {
  removes = false;
  refuses = false;
}
ensure_no_stale_remote_end (some info) tracked recorded removed =
    if info.present
    then (if tracked
        then record { removes = false; refuses = true }
        else check_recorded info recorded removed)
    else record { removes = false; refuses = false }

-- IsWireRecordedInDataStore, from the objects of the node; `none` if they could not be read.
unfoldable pub recorded_in : WireDef → Option (List (Option (List Item))) → Option Bool
recorded_in d none = none
recorded_in d (some objects) = some (is_wire_recorded d.local_pod_net_ns d.link_uid objects)

-- The check as the daemon makes it.
unfoldable pub ensure :
    Option LinkInfo → WireDef → Daemon → Option (List (Option (List Item))) → Bool → Verdict
unfolding ensure_no_stale_remote_end recorded_in is_tracked
ensure info d s objects removed =
    ensure_no_stale_remote_end info (is_tracked (get_wire d.local_pod_net_ns d.link_uid s))
      (recorded_in d objects) removed
