-- ===== src/Startup/Grpc.antt =====
-- `nonBlockingGRPCServer` of pkg/csi-common/server.go and `Run` of pkg/spdk/driver.go.
use spdk_csi.Prelude.{
  ℕ, ◌+◌, Bool, true, false, Option, none, some, List, [], ◌∷◌, ◌++◌, ◌==◌, if◌then◌else◌,
}
use spdk_csi.Text.{Str, str, str_eq}
use spdk_csi.Effect.{
  ok, is_not_exist, Result, good, bad, Exec, pure, raise, crash, attempt, zoom, ◌>>=◌, ◌>>◌,
}
use spdk_csi.Csi.Driver.{
  CsiDriver, new_csi_driver, add_controller_service_capabilities,
  add_volume_capability_access_modes, parse_endpoint, create_delete_volume, create_delete_snapshot,
  single_node_writer,
}
use spdk_csi.Controller.Message.{NodeConfig, Controller}
use spdk_csi.Controller.Server.{new_controller_server}
use spdk_csi.Startup.System.{
  System, Flags, NodeServer, XpuNode, Service, identity_service, controller_service, node_service,
  returned, fatal,
}
use spdk_csi.Startup.Config.{new_csi_controller_config}
use spdk_csi.Startup.Nodes.{new_node_server}

-- The fields of `nonBlockingGRPCServer`, and the world. The wait group is its counter; a server is
-- the list of the services that are registered with it.
pub record Grpc (W : Type 0) : Type 0 where
  pub wait_group : ℕ
  pub server : Option (List Service)
  pub world : W

-- A Go interface is nil, or holds a pointer, which may be nil itself.
abbrev pub Interface : Type 0 → Type 0
Interface A = Option (Option A)

-- A pointer that is passed where an interface is expected: the interface is not nil.
abbrev pub as_interface : {A : Type 0} → Option A → Interface A
as_interface p = some p

-- `if s != nil { register(server, s) }`
abbrev pub registered : {A : Type 0} → (Option A → Service) → Interface A → List Service
registered service none = []
registered service (some p) = service p ∷ []

unfoldable pub all_registered :
    Interface CsiDriver → Interface Controller → Interface NodeServer → List Service
all_registered ids cs ns =
    registered identity_service ids
    ++ (registered controller_service cs ++ registered node_service ns)

module _ {W A : Type 0} where
  abbrev pub in_world : Exec W A → Exec (Grpc W) A
  in_world m = zoom (λ s. s.world) (λ w s. record s { world = w }) m

module _ {W A : Type 0} where
  -- A server that the flags ask for; its variable is nil otherwise.
  abbrev pub only_if : Bool → Exec W A → Exec W (Option A)
  only_if false m = pure none
  only_if true m = do a ← m; pure (some a)

module _ {W : Type 0} where
  abbrev pub set_server : List Service → Exec (Grpc W) Unit
  set_server l s = (ok tt, record s { server = some l })

  -- `s.wg.Add(1)`
  abbrev pub wait_add : Exec (Grpc W) Unit
  wait_add s = (ok tt, record s { wait_group = s.wait_group + 1 })

  -- `Wait`: whether it has returned.
  unfoldable pub wait : Exec (Grpc W) Bool
  wait s = (ok (s.wait_group == 0), s)

module _ {W : Type 0} (sys : System W) where
  -- A socket that is left over is removed.
  unfoldable pub address_of : Str → Str → Exec W Str
  address_of proto addr =
      if str_eq proto (str "unix")
      then (do
        r ← attempt (sys.remove (str "/" ++ addr))
        elim r [
          | good a ↦ pure (str "/" ++ addr)
          | bad e ↦ if is_not_exist e then pure (str "/" ++ addr) else raise e
        ])
      else pure addr

  unfoldable pub serve :
      Str → Interface CsiDriver → Interface Controller → Interface NodeServer → Exec (Grpc W) Unit
  serve endpoint ids cs ns = do
    parsed ← fatal (returned (parse_endpoint endpoint))
    addr ← fatal (in_world (address_of parsed.0 parsed.1))
    listener ← fatal (in_world (sys.listen parsed.0 addr))
    set_server []
    set_server (all_registered ids cs ns)
    fatal (in_world (sys.serve listener (all_registered ids cs ns)))

  -- `Start`, with the goroutine that it spawns run to its end.
  unfoldable pub start :
      Str → Interface CsiDriver → Interface Controller → Interface NodeServer → Exec (Grpc W) Unit
  start endpoint ids cs ns = do wait_add; serve endpoint ids cs ns

  abbrev on_server : (List Service → Exec W Unit) → Option (List Service) → Exec (Grpc W) Unit
  on_server m none = crash
  on_server m (some l) = in_world (m l)

  -- `Stop` and `ForceStop`, which call a nil pointer before the server is made.
  unfoldable pub stop : Exec (Grpc W) Unit
  stop s = on_server sys.graceful_stop s.server s

  unfoldable pub force_stop : Exec (Grpc W) Unit
  force_stop s = on_server sys.hard_stop s.server s

abbrev pub controller_caps : List ℕ
controller_caps = create_delete_volume ∷ create_delete_snapshot ∷ []

abbrev pub volume_modes : List ℕ
volume_modes = single_node_writer ∷ []

unfoldable pub enabled : Bool → CsiDriver → CsiDriver
enabled false d = d
enabled true d =
    add_volume_capability_access_modes (add_controller_service_capabilities d controller_caps)
      volume_modes

module _ {W : Type 0} (sys : System W) (nodes : Str → Result (List NodeConfig))
    (xpus : Str → Result (List (Option XpuNode))) where
  -- `newControllerServer` with the configuration that it reads.
  unfoldable pub read_controller_server : CsiDriver → Exec W Controller
  read_controller_server d = do
    r ← attempt (
        new_csi_controller_config sys nodes (str "SPDKCSI_CONFIG")
          (str "/etc/spdkcsi-config/config.json"))
    returned (new_controller_server d.modes r)

  -- `Run` of a driver, whether `Wait` has returned when the server has stopped.
  unfoldable pub run_driver : Flags → CsiDriver → Exec (Grpc W) Bool
  run_driver conf cd = do
    ns ← fatal (in_world (only_if conf.is_node_server (new_node_server sys xpus cd)))
    cs ← fatal (in_world (only_if conf.is_controller_server (read_controller_server cd)))
    start sys conf.endpoint (as_interface (some cd)) (as_interface cs) (as_interface ns)
    wait

  unfoldable pub run : Flags → Exec (Grpc W) Bool
  run conf = elim (new_csi_driver conf.driver_name conf.driver_version conf.node_id) [
    | none ↦ crash
    | some d ↦ run_driver conf (enabled conf.is_controller_server d)
  ]
