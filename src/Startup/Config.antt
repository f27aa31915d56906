-- ===== src/Startup/Config.antt =====
-- `FromEnv` and `ParseJSONFile` of pkg/util/util.go, and `NewCSIControllerConfig` of pkg/util/config.go.
use spdk_csi.Prelude.{[], List, if◌then◌else◌}
use spdk_csi.Text.{Str, str_eq}
use spdk_csi.Effect.{Result, Exec, ok, attempt, ignore, ◌>>=◌, ◌>>◌}
use spdk_csi.Controller.Message.{NodeConfig}
use spdk_csi.Startup.System.{System, returned}

module _ {W : Type 0} (sys : System W) where
  unfoldable pub from_env : Str → Str → Exec W Str
  from_env env def w = let s = sys.getenv env w in (ok (if str_eq s [] then def else s), w)

  module _ {A : Type 0} where
    -- `decode` is what `json.Unmarshal` makes of the bytes; the file is closed on every path.
    unfoldable pub parse_json_file : (decode : Str → Result A) → Str → Exec W A
    parse_json_file decode file_name = do
      file ← sys.open_file file_name
      r ← attempt (do bytes ← sys.read_all file; returned (decode bytes))
      ignore (sys.close file)
      returned r

  unfoldable pub new_csi_controller_config :
      (decode : Str → Result (List NodeConfig)) → Str → Str → Exec W (List NodeConfig)
  new_csi_controller_config decode env def = do
    config_file ← from_env env def
    parse_json_file decode config_file
