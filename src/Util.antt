-- ===== src/Util.antt =====
-- pkg/util/util.go: sizes and the try-lock.
pub mod Bounds
use spdk_csi.Prelude.Int.{ℤ, pos, ◌+ℤ◌, ◌-ℤ◌, wrap64, quot}
use spdk_csi.Prelude.{ℕ, ◌*◌, Bool, true, false, ◌==◌, if◌then◌else◌}

abbrev pub mi : ℕ
mi = 1024 * 1024

-- `ToMiB`, with the int64 additions in the order of the source.
unfoldable pub to_mib : ℤ → ℤ
to_mib bytes = quot (wrap64 (wrap64 (bytes +ℤ pos mi) -ℤ pos 1)) mi

-- `TryLock`: the field `locked`, and what each method returns with its new value.
unfoldable pub try_lock : ℕ → Bool × ℕ
try_lock locked = if locked == 0 then (true, 1) else (false, locked)

unfoldable pub try_unlock : ℕ → ℕ
try_unlock locked = 0
