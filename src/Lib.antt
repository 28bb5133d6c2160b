-- ===== src/Lib.antt =====
-- meshnet-cni: the daemon that joins the pods of a topology by point-to-point links, and what
-- its state keeps true.
--
-- The plugin (plugin/meshnet.go and grpcwires-plugin.go) runs for each pod that comes up or goes
-- down, and calls the daemon on its node and, for links to other nodes, the daemons there. The
-- daemon keeps the custom resource of each pod's topology (daemon/meshnet/handler.go), a
-- registry of its gRPC wires (daemon/grpcwire/grpcwire.go and gwire_map.go) that it creates for
-- itself and for its peers (gwire_rpc_handlers.go), a copy of the registry in a data store from
-- which it restores them after a restart (gwire_recon.go), a debouncer that turns samples of an
-- interface's carrier into edges (internal/carrierprop) for the watch loops of both kinds of
-- link (daemon/grpcwire/carrier.go, daemon/vxlan/carrier.go), and a decoder that prints what a
-- captured frame holds (daemon/grpcwire/wire-decode.go).
--
-- Which file models which part:
--   Carrier      internal/carrierprop/carrierprop.go: Debouncer, Observe, Due, SuppressEcho,
--                ConsumeEcho; Carrier/Watch one tick of StartCarrierWatch of both packages;
--                Carrier/Debounce runs a history of samples, Carrier/Echo a history of edges;
--                Carrier/Reading is OperUp with the readers of internal/carrierprop/netns.go
--   Wire         daemon/grpcwire/grpcwire.go and gwire_map.go: the maps of wireMap, GRPCWire, the
--                stop channels, and the removal of a pod. Wire/Steps has the operations that
--                the handlers of gwire_rpc_handlers.go and handler.go and the reconciliation of
--                gwire_recon.go make of them. Wire/Channels is about the stop channels,
--                Wire/Registry about the registration of wires, Wire/IfName has the names of the
--                interfaces on the node
--   DataStore    daemon/grpcwire/gwire_recon.go: the lists of api/types/v1beta1 GWireStatus, their
--                upsert and deletion, and the attempts around them
--   Stale        daemon/grpcwire/gwire_rpc_handlers.go: ensureNoStaleRemoteEnd
--   RemoteEnd    the same file: CreateUpdateGRPCWireRemoteTriggered with the making of the host's and
--                the pod's end, over Stale and Koko
--   Forward      daemon/grpcwire/grpcwire.go: RecvFrmLocalPodThread, and SendToOnce of
--                daemon/meshnet/handler.go, frame by frame, to the node that the wire names
--   Vxlan        daemon/vxlan/vxlan.go: CreateOrUpdate, and Update of daemon/meshnet/handler.go
--   Topology     daemon/meshnet/handler.go: Get, SetAlive, Skip, SkipReverse, IsSkipped, on the
--                objects of api/types/v1beta1/topology.go; Topology/Updates has the handlers that
--                write under RetryOnConflict, any number of them at the same time
--   Taint        daemon/meshnet/taint.go: the readiness gate and the removal of the taint
--   LinkState    daemon/vxlan/link_map.go and carrier.go: the registry of VXLAN links; the notices
--                of daemon/vxlan/carrier.go and daemon/grpcwire/carrier.go about carrier edges,
--                and the handlers Update, UnregisterVxlanLink and SetPeerLinkState of
--                daemon/meshnet/handler.go; LinkState/Watch has the ticks of both watches with their
--                readings and notices, and both ReassertLocalLinkStates
--   PeerIp       daemon/grpcwire/peerip.go: SetNodeClient, validatePeerNodeIP, refreshNodeIPs;
--                PeerIp/Wait is waitForValidPeerNodeIP
--   Recon        daemon/grpcwire/gwire_recon.go: ReconGWires, which takes up the wires of the data
--                store with reCreateGWire of Wire/Steps; Recon/Survival follows a wire from the data
--                store's writing over a restart
--   Protocol     the agreement of two pods on two nodes on who makes their gRPC link: cmdAdd of
--                plugin/meshnet.go and CreatGRPCChan of plugin/grpcwires-plugin.go as the steps of
--                two sides over the handlers of Topology. Protocol/Names compares the names, Protocol/Flags is the
--                abstract protocol, Protocol/Once its invariant, Protocol/Refines and Agreement
--                carry it over
--   Plugin       plugin/meshnet.go: makeVeth, linkMTU, boolResponseErr; Plugin/Ready has
--                getLocalPodWithRetry and getVxlanSource, Plugin/Add the loop of cmdAdd,
--                Plugin/Command cmdAdd as a whole, Plugin/Del cmdDel. Plugin/Chan is CreatGRPCChan
--                and MakeGRPCChanDown of plugin/grpcwires-plugin.go, over the daemons of two nodes
--   Decode       daemon/grpcwire/wire-decode.go: the loop of DecodeFrame; Decode/Packet is DecodePkt
--   Koko         internal/koko/koko.go: the calls of netlink that MakeVeth, MakeVxLan, MakeMacVLan,
--                SetVethLink and RemoveVethLink make
--   HostConf     daemon/cni/cni.go (Init), internal/cniconf/cniconf.go and ResolveInterNodeLinkType of
--                utils/wireutil/wire-util.go: the files that tell the plugin what the daemon was told.
--                HostConf/Load has loadConfList, WaitForNetConfig and Cleanup
--   Startup      daemon/main.go (main with its clean-up at the end), New, restConfig and
--                clientRateFromEnv of daemon/meshnet/meshnet.go
--   Prelude      Boolean tests, lists and association lists that the parts share
-- The Examples module of a part holds concrete inputs and what the code does on them.
--
-- How state is modelled. A Go map is an association list with a lookup that takes the first
-- entry; a mutex makes an operation atomic, so an operation is a function from the state to the
-- next one. A wire is shared through a pointer in the source; it lives here in the map of wires,
-- and what the code changes through the pointer is changed there. A stop channel is a number, and
-- the state lists those that were closed; closing one again is the outcome none, as Go panics
-- there. An int64 is its 64-bit pattern where the code computes with it; times are nanoseconds
-- since the daemon's start, which do not reach 2 ^ 63 in its life.
-- An MTU is a natural number: what koko is given comes from linkMTU of the plugin, in the requests
-- too, and linkMTU turns a negative one into the default. In the protocol of Protocol the wait of CreatGRPCChan may be given up at any time.
--
-- Fuel. drain takes one round per wire in memory and one more, and each round removes a wire;
-- decode_loop takes one round per byte and one more, as each round cuts a byte at least.
-- decode_pkt takes a round for each VLAN layer, of which each is shorter than the one around it.
-- wait_loop takes the 152 rounds that reach past the timeout of five minutes at a round each two
-- seconds. The wait of CreatGRPCChan takes its twenty ticks, after which the code gives up;
-- retry_loop of Plugin/Ready takes the 32 attempts that reach past its timeout of a minute, and
-- wait_for_conf the 92 rounds that reach past its timeout of three minutes.
--
-- Parameters. What the kernel reports of an interface (netlink), what the API server answers,
-- the retry of client-go with the attempts it makes, and the layers that gopacket finds in a packet
-- are arguments of the definitions that use them. Their documented behaviour is stated as a
-- hypothesis where a theorem needs it, or as the laws of a record: Gopacket of Decode/Packet, Api of
-- Topology/Updates/Server and RetryOnConflict of DataStore/Attempts.
--
-- Not modelled: the race of two pods of one host, of which each may remove and make the link again;
-- what netlink does in the kernel, and the texts that describe packets in the log; generated code and
-- API client sets. Of the plugin, the parsing of its configuration and of its arguments, which is a
-- success or a failure here, and the printing of its result.

pub mod Prelude
pub mod Carrier
pub mod Vxlan
pub mod Forward
pub mod Wire
pub mod DataStore
pub mod Recon
pub mod Topology
pub mod Stale
pub mod RemoteEnd
pub mod Decode
pub mod Taint
pub mod LinkState
pub mod PeerIp
pub mod Protocol
pub mod Plugin
pub mod Koko
pub mod HostConf
pub mod Startup
