-- ===== src/Tests/Drivers.antt =====
-- The properties of the driver object at concrete inputs.
use spdk_csi.Prelude.{◌≡◌, false, [], ◌++◌}
use spdk_csi.Text.{str, str_eq}
use spdk_csi.Effect.{good}
use spdk_csi.Csi.Driver.{parse_endpoint}
use spdk_csi.Csi.Endpoint.{parse_endpoint-cut}

parse_endpoint-cut_example :
    (parse_endpoint (str "unix://csi.sock") ≡ good (str "unix", str "csi.sock")
      → (str "unix://csi.sock" ≡ str "unix" ++ (str "://" ++ str "csi.sock"))
        × (str_eq (str "csi.sock") [] ≡ false))
    × (str_eq (str "csi.sock") [] ≡ false
        → (parse_endpoint (str "unix://" ++ str "csi.sock") ≡ good (str "unix", str "csi.sock"))
          × (parse_endpoint (str "tcp://" ++ str "csi.sock") ≡ good (str "tcp", str "csi.sock")))
parse_endpoint-cut_example =
    parse_endpoint-cut (str "unix://csi.sock") (str "unix") (str "csi.sock")
