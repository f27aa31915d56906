-- ===== src/Locks/Exclusion.antt =====
-- Who may hold the lock of a volume (idlocker.go), in any interleaving.
use spdk_csi.Prelude.{ℕ, ◌≡◌, ◌≢◌, inl, inr, Option-cases, none}
use spdk_csi.Text.{Str}
use spdk_csi.Locks.{loaded, holding, VolumeLocks, Reachable}
use spdk_csi.Locks.Consistent.{Uses-holding, Uses-loaded, Reachable-IsConsistent}

-- In every interleaving of Lock and the functions it returns, while a goroutine holds the lock of
-- a volume id no other goroutine holds a lock of that id.
pub mutual_exclusion :
    (s : VolumeLocks) (t u : ℕ) (id : Str) (m k : ℕ)
    → Reachable s
    → s.phase t ≡ holding id m
    → u ≢ t
    → s.phase u ≢ holding id k
mutual_exclusion s t u id m k r e n f =
    let c = Reachable-IsConsistent r in
    let p = c.named t id m (Uses-holding (s.phase t) id m e) in
    let q = c.named u id k (Uses-holding (s.phase u) id k f) in
    let same : u ≡ t = cc (p, q, c.owned t id m e, c.owned u id k f) in n same

-- In every interleaving, a goroutine that has loaded the mutex of a volume id finds it free as
-- long as no goroutine holds a lock of that id, whatever other locks are held.
pub unheld-free :
    (s : VolumeLocks) (t : ℕ) (id : Str) (m : ℕ)
    → Reachable s
    → s.phase t ≡ loaded id m
    → ((u k : ℕ) → s.phase u ≢ holding id k)
    → s.owner m ≡ none
unheld-free s t id m r e none_holds = elim (Option-cases (s.owner m)) [
  | inl o ↦ o
  | inr (u, o) ↦
      let c = Reachable-IsConsistent r in
      let (i, h) = c.held u m o in
      let p = c.named u i m (Uses-holding (s.phase u) i m h) in
      let q = c.named t id m (Uses-loaded (s.phase t) id m e) in
      let same : i ≡ id = c.apart i id m p q in absurd (none_holds u m (rw (← same) h))
]
