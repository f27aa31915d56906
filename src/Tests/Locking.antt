-- ===== src/Tests/Locking.antt =====
-- The properties of the locks at concrete interleavings.
use spdk_csi.Prelude.{
  ℕ, ◌≡◌, ◌≢◌, refl, ap, Bool, true, false, ◌==◌, ◌∷◌, if◌then◌else◌, arith, none,
}
use spdk_csi.Text.{str, str_eq}
use spdk_csi.Locks.{
  Phase, idle, loaded, holding, VolumeLocks, lookup, load_or_store, new_volume_locks, load, acquire,
  loads, acquires, Reachable, initial, then_,
}
use spdk_csi.Locks.Exclusion.{mutual_exclusion, unheld-free}

-- Goroutine 0 has taken the lock of a volume.
abbrev one_holds : VolumeLocks
one_holds = acquire 0 (str "v1") 0 (load 0 (str "v1") new_volume_locks)

one_holds-Reachable : Reachable one_holds
unfolding load acquire new_volume_locks load_or_store lookup
one_holds-Reachable =
    then_ (then_ initial (loads 0 (str "v1") refl)) (acquires 0 (str "v1") 0 refl refl)

-- Goroutine 1 has loaded the mutex of another volume.
abbrev one_waits : VolumeLocks
one_waits = load 1 (str "v2") one_holds

one_waits-Reachable : Reachable one_waits
unfolding load acquire new_volume_locks load_or_store lookup str_eq str
one_waits-Reachable = then_ one_holds-Reachable (loads 1 (str "v2") refl)

mutual_exclusion_example : one_waits.phase 1 ≢ holding (str "v1") 0
unfolding load acquire new_volume_locks load_or_store lookup str_eq str
mutual_exclusion_example =
    mutual_exclusion one_waits 0 1 (str "v1") 0 0 one_waits-Reachable refl (λ e. omega (arith, e))

abbrev second_byte : Phase → ℕ
second_byte (holding (a ∷ b ∷ l) m) = b
second_byte _ = 0

none_holds : (u k : ℕ) → one_waits.phase u ≢ holding (str "v2") k
unfolding load acquire new_volume_locks load_or_store lookup str_eq str
none_holds u k = cases (u == 1) (u == 0)
  where
    cases :
        (b c : Bool)
        → (if b
            then loaded (str "v2") 1
            else if c
            then holding (str "v1") 0
            else if c
            then loaded (str "v1") 0
            else idle)
          ≢ holding (str "v2") k
    cases true c h = cc
    cases false true h = omega (arith, ap second_byte h)
    cases false false h = cc

unheld-free_example : one_waits.owner 1 ≡ none
unfolding load acquire new_volume_locks load_or_store lookup str_eq str
unheld-free_example = unheld-free one_waits 1 (str "v2") 1 one_waits-Reachable refl none_holds
