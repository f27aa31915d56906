-- ===== src/Util/Bounds.antt =====
-- The range of `ToMiB` in int64 arithmetic, and the try-lock, of pkg/util/util.go.
use spdk_csi.Prelude.Int.{pos, negsuc, ◌+ℤ◌, ◌-ℤ◌, wrap64, quot}
use spdk_csi.Prelude.{ℕ, ◌+◌, ◌-◌, ◌*◌, ◌/◌, ◌^◌, ◌<◌, ◌≤◌, ◌≡◌, arith, true, false}
use spdk_csi.Util.{mi, to_mib, try_lock, try_unlock}

pub to_mib-pos : (n : ℕ) → n < 2 ^ 63 - mi → to_mib (pos n) ≡ pos ((n + (mi - 1)) / mi)
unfolding to_mib wrap64 quot ◌+ℤ◌ ◌-ℤ◌
to_mib-pos n h = ground arith

-- Below 2^63 - 1 MiB bytes, the MiB that ToMiB computes cover the bytes asked for and exceed them
-- by less than one MiB.
pub to_mib_bounds :
    (n : ℕ)
    → n < 2 ^ 63 - mi
    → (k : ℕ) × (to_mib (pos n) ≡ pos k) × (n ≤ k * mi) × (k * mi < n + mi)
to_mib_bounds n h = ((n + (mi - 1)) / mi, to_mib-pos n h, omega arith, omega arith)

-- Above 2^63 - 1 MiB bytes, the int64 sum of ToMiB overflows and the size is negative.
pub to_mib-overflow : (n : ℕ) → 2 ^ 63 - mi < n → n < 2 ^ 63 → (k : ℕ) × (to_mib (pos n) ≡ negsuc k)
unfolding to_mib wrap64 quot ◌+ℤ◌ ◌-ℤ◌
to_mib-overflow n h k = ((2 ^ 64 - (n + (mi - 1))) / mi - 1, ground arith)

-- A try-lock that was asked for twice refuses the second time, whatever its state before, and
-- grants after an unlock.
pub try_lock-try_unlock :
    (locked : ℕ)
    → ((try_lock (try_lock locked).1).0 ≡ false) × ((try_lock (try_unlock locked)).0 ≡ true)
unfolding try_lock try_unlock
try_lock-try_unlock locked = ground arith
