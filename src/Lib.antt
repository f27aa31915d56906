-- ===== src/Lib.antt =====
-- SPDK-CSI, a driver that lets Kubernetes make, publish, stage and delete logical volumes of SPDK
-- storage targets.
--
-- The parts, from the network up:
--   Prelude, Text, Effect: shared names, lists, int64 arithmetic (Prelude/Int), Go strings as lists
--     of bytes (Text), decimals (Text/Decimal), and Go calls as functions of a state that return,
--     fail with an error or panic (Effect), with rules for invariants (Effect/Keeps) and for what
--     holds at the end of a call (Effect/Triple).
--   Rpc: rpcClient of pkg/util/jsonrpc.go. Rpc/Message has the requests and replies, Rpc/Client the
--     methods (call, lvStores, createVolume, getVolume, ...), Rpc/Log a network that records the
--     exchanges.
--   Target: the node objects. Target/Nvmf is nodeNVMf of pkg/util/nvmf.go, Target/Iscsi is nodeISCSI
--     of pkg/util/iscsi.go, Target/Node the interface SpdkNode and NewSpdkNode of jsonrpc.go.
--     Target/Making tells the requests that make a volume from the others.
--   Util: ToMiB and TryLock of pkg/util/util.go.
--   Csi: the driver object of pkg/csi-common (driver.go, identityserver-default.go, utils.go), and
--     the answers of the default servers (Csi/Defaults).
--   Controller: controllerServer of pkg/spdk/controllerserver.go. Controller/Message has the CSI
--     messages, Controller/Handlers the handlers, Controller/Server the methods they call.
--   Locks: VolumeLocks of pkg/util/idlocker.go, as steps of any number of goroutines.
--   Node: nodeServer of pkg/spdk/nodeserver.go (Node/Server), the initiators of
--     pkg/util/initiator.go (Node/Initiator) and the stashed contexts of pkg/util/util.go
--     (Node/Context), over the machine they run on (Node/Host); xpuInitiator of
--     pkg/util/xpuinitiator.go (Node/Xpu) and its constructor (Node/Xpu/Creation), over any backend
--     (Node/Xpu/Composed, Node/Xpu/Released), and the lookups in sysfs of pkg/util/util.go (Node/Sysfs,
--     Text/DeviceName); Node/Attached gives the handlers such an initiator over a connection.
--   Backend: the backends of xpuInitiator. Backend/Opi is pkg/util/opiinitiator.go, Backend/Sma is
--     pkg/util/smainitiator.go, Backend/Contract what both promise.
--   Startup: Run of pkg/spdk/driver.go with the gRPC server of pkg/csi-common/server.go
--     (Startup/Grpc), connectXpuNode and newNodeServer (Startup/Nodes), and the configuration files
--     (Startup/Config), over the environment and the gRPC library (Startup/System).
--   Tests: a scripted target, a scripted machine, and the properties at concrete inputs.
--
-- The controller makes a node object for each call, the node object sends requests through the
-- client, and the client posts them to a network, the parameter Net: the HTTP client, the JSON
-- codec and the SPDK targets, with a state of their own that any reply may change. The decoding of
-- the secrets is a parameter too. The node server acts on a machine, the parameter Host: files,
-- mounts, commands and the clock, each call with any result. Statements about what was sent or run
-- are about a network or a machine that keeps a record. Where the code walks over the map of nodes,
-- the order of the visit is an argument, so a statement holds for every order. Every handler runs
-- under the lock of its volume, so handlers are modelled one at a time. A panic ends the process and
-- says nothing about the state, except in an invariant.
--
-- The digits of a decimal run on fuel: 20 are enough for 64 bits. The polling loops of the
-- initiators count their rounds down, as many as the source has.
--
-- An xPU backend is an implementation of the interface XpuInitiator, and Backend/Contract says what an
-- initiator may rely on: a record of laws that the theorems on each backend fill. The services of the
-- backends are parameters, which are recorded; a creation that fails is taken to leave nothing behind.
--
-- The goroutine that serves is run to its end before Run waits. A fatal log line ends the process,
-- which is a panic here.
--
-- Not modelled: the clients that the xPU backends dial; the text of log lines; flags.
pub mod Prelude
pub mod Text
pub mod Effect
pub mod Rpc
pub mod Target
pub mod Util
pub mod Csi
pub mod Controller
pub mod Locks
pub mod Node
pub mod Startup
pub mod Backend
pub mod Tests
