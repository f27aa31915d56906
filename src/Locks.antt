-- ===== src/Locks.antt =====
-- pkg/util/idlocker.go: a table of mutexes by volume id, and the goroutines that take them. Every
-- handler of the controller and of the node server runs between `Lock` and the function it returns.
pub mod Consistent
pub mod Exclusion
use spdk_csi.Prelude.{
  ℕ, suc, ◌+◌, ◌≡◌, Bool, Option, none, some, List, [], ◌∷◌, ◌==◌, if◌then◌else◌,
}
use spdk_csi.Text.{Str, str_eq}

-- A goroutine outside of `Lock`, one that has loaded its mutex, and one that has taken it.
pub data Phase : Type 0 where
  idle : Phase
  loaded : (volume_id : Str) (mutex : ℕ) → Phase
  holding : (volume_id : Str) (mutex : ℕ) → Phase

-- `VolumeLocks`: the table of `sync.Map`, by the addresses of the mutexes; the owner of each mutex;
-- the next address; and where each goroutine stands.
pub record VolumeLocks : Type 0 where
  pub mutexes : List (Str × ℕ)
  pub owner : ℕ → Option ℕ
  pub fresh : ℕ
  pub phase : ℕ → Phase

unfoldable pub lookup : Str → List (Str × ℕ) → Option ℕ
lookup id [] = none
lookup id ((i, m) ∷ l) = if str_eq i id then some m else lookup id l

-- `LoadOrStore(volumeID, &sync.Mutex{})`: the mutex that is there, or the new one at `m`.
abbrev pub or_store : Option ℕ → Str → ℕ → List (Str × ℕ) → ℕ × List (Str × ℕ)
or_store (some k) id m l = (k, l)
or_store none id m l = (m, (id, m) ∷ l)

unfoldable pub load_or_store : Str → ℕ → List (Str × ℕ) → ℕ × List (Str × ℕ)
load_or_store id m l = or_store (lookup id l) id m l

abbrev pub set : {A : Type 0} → ℕ → A → (ℕ → A) → ℕ → A
set t a f u = if u == t then a else f u

unfoldable pub new_volume_locks : VolumeLocks
new_volume_locks = record { mutexes = []; owner = λ _. none; fresh = 0; phase = λ _. idle }

-- The first half of `Lock`.
unfoldable pub load : ℕ → Str → VolumeLocks → VolumeLocks
load t id s =
    let (m, l) = load_or_store id s.fresh s.mutexes in
    record s { mutexes = l; fresh = suc s.fresh; phase = set t (loaded id m) s.phase }

-- `mtx.Lock()`, when the mutex is free.
unfoldable pub acquire : ℕ → Str → ℕ → VolumeLocks → VolumeLocks
acquire t id m s = record s { owner = set m (some t) s.owner; phase = set t (holding id m) s.phase }

-- The function that `Lock` returns.
unfoldable pub release : ℕ → ℕ → VolumeLocks → VolumeLocks
release t m s = record s { owner = set m none s.owner; phase = set t idle s.phase }

-- One step of one goroutine.
pub data Step : VolumeLocks → VolumeLocks → Type 0 where
  loads : {s : VolumeLocks} (t : ℕ) (id : Str) → s.phase t ≡ idle → Step s (load t id s)
  acquires :
      {s : VolumeLocks} (t : ℕ) (id : Str) (m : ℕ)
      → s.phase t ≡ loaded id m
      → s.owner m ≡ none
      → Step s (acquire t id m s)
  releases :
      {s : VolumeLocks} (t : ℕ) (id : Str) (m : ℕ)
      → s.phase t ≡ holding id m
      → Step s (release t m s)

-- Any interleaving of the goroutines, from the table that `NewVolumeLocks` makes.
pub data Reachable : VolumeLocks → Type 0 where
  initial : Reachable new_volume_locks
  then_ : {s s' : VolumeLocks} → Reachable s → Step s s' → Reachable s'
