-- ===== src/Tests/Xpus.antt =====
-- The properties of the xPU initiator at concrete inputs.
use spdk_csi.Prelude.{◌≡◌, ◌↔◌}
use spdk_csi.Text.{str}
use spdk_csi.Text.Laws.{Free}
use spdk_csi.Effect.{good}
use spdk_csi.Node.Xpu.{XpuTargetType, parse_spdk_xpu_target_type}
use spdk_csi.Node.Xpu.Targets.{target_type_of, parse_spdk_xpu_target_type_iff}

abbrev target : XpuTargetType
target = record { backend = str "opi"; tr_type = str "virtioblk" }

parse_spdk_xpu_target_type_iff_example :
    (parse_spdk_xpu_target_type (str "xpu-opi-virtioblk") ≡ good target) ↔ (
      (target_type_of target ≡ str "xpu-opi-virtioblk")
      × Free b'-' (str "opi")
      × Free b'-' (str "virtioblk"))
parse_spdk_xpu_target_type_iff_example =
    parse_spdk_xpu_target_type_iff (str "xpu-opi-virtioblk") target
