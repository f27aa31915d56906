-- ===== src/Startup/System.antt =====
-- What the process is started with: the environment, files, connections and the gRPC library.
use spdk_csi.Prelude.{Option, List}
use spdk_csi.Text.{Str}
use spdk_csi.Effect.{Result, good, bad, Exec, pure, raise, crash, attempt, ◌>>=◌}
use spdk_csi.Prelude.{ℕ, Bool}
use spdk_csi.Csi.Driver.{CsiDriver}
use spdk_csi.Controller.Message.{Controller}
use spdk_csi.Node.Xpu.{XpuConfig}

-- `Config`: the flags of the command line.
pub record Flags : Type 0 where
  pub driver_name : Str
  pub driver_version : Str
  pub endpoint : Str
  pub node_id : Str
  pub is_controller_server : Bool
  pub is_node_server : Bool

-- `XpuConfig`, with the address of the xPU.
pub record XpuNode : Type 0 where
  pub target_addr : Str
  pub config : XpuConfig

-- `nodeServer`, whose locks and mounts are modelled with its handlers. A connection is its number.
pub record NodeServer : Type 0 where
  pub driver : CsiDriver
  pub xpu_conn_client : Option ℕ
  pub xpu_config_info : Option XpuNode

-- A service that is registered with a gRPC server, over a pointer that may be nil.
pub data Service : Type 0 where
  identity_service : Option CsiDriver → Service
  controller_service : Option Controller → Service
  node_service : Option NodeServer → Service

-- `os.Getenv`, `os.Stat`, `os.Open`, `io.ReadAll`, `Close`, `os.Remove`, `grpc.Dial`, `net.Listen`, and
-- `Serve`, `GracefulStop` and `Stop` of a server. Files, connections and listeners are numbers.
pub record System (W : Type 0) : Type 0 where
  pub getenv : Str → W → Str
  pub stat : Str → Exec W Unit
  pub open_file : Str → Exec W ℕ
  pub read_all : (file : ℕ) → Exec W Str
  pub close : (file : ℕ) → Exec W Unit
  pub remove : Str → Exec W Unit
  pub dial : (address : Str) → Exec W ℕ
  pub listen : (network address : Str) → Exec W ℕ
  pub serve : (listener : ℕ) → List Service → Exec W Unit
  pub graceful_stop : List Service → Exec W Unit
  pub hard_stop : List Service → Exec W Unit

module _ {S A : Type 0} where
  abbrev pub returned : Result A → Exec S A
  returned (good a) = pure a
  returned (bad e) = raise e

  -- `if err != nil { klog.Fatal(err) }`: the process ends, which is modelled as a panic.
  abbrev pub fatal : Exec S A → Exec S A
  fatal m = attempt m >>= elim [ good a ↦ pure a | bad e ↦ crash ]
