-- ===== src/Tests/Numbers.antt =====
-- The properties of the sizes at concrete inputs.
use spdk_csi.Prelude.Int.{pos, negsuc}
use spdk_csi.Prelude.{ℕ, ◌-◌, ◌^◌, ◌≡◌, arith}
use spdk_csi.Util.{to_mib}
use spdk_csi.Util.Bounds.{to_mib-overflow}

to_mib-overflow_example : (k : ℕ) × (to_mib (pos (2 ^ 63 - 1)) ≡ negsuc k)
to_mib-overflow_example = to_mib-overflow (2 ^ 63 - 1) (omega arith) (omega arith)
