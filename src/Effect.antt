-- ===== src/Effect.antt =====
-- Go's `error` values, and methods that change a state and return, fail or panic.
pub mod Keeps
pub mod Triple
use spdk_csi.Prelude.{Bool, true, false, Option, none, some, ◌++◌, if◌then◌else◌}
use spdk_csi.Text.{Str, str}

-- The codes of package `google.golang.org/grpc/codes` that the driver returns.
pub data Code : Type 0 where
  internal invalid_argument unimplemented unavailable : Code

-- The sentinels of pkg/util and os, `errors.New`, `fmt.Errorf` with `%w` at its end, `status.Error`.
pub data Error : Type 0 where
  json_no_space_left json_no_such_device invalid_parameters : Error
  volume_deleted volume_published volume_unpublished : Error
  not_exist deadline_exceeded : Error
  message : Str → Error
  wrapped : Str → Error → Error
  status : Code → Str → Error

code_text : Code → Str
code_text internal = str "Internal"
code_text invalid_argument = str "InvalidArgument"
code_text unimplemented = str "Unimplemented"
code_text unavailable = str "Unavailable"

-- `err.Error()`
unfoldable pub error_text : Error → Str
unfolding code_text
error_text json_no_space_left = str "json: No space left"
error_text json_no_such_device = str "json: No such device"
error_text invalid_parameters = str "json: Invalid parameters"
error_text volume_deleted = str "volume deleted"
error_text volume_published = str "volume already published"
error_text volume_unpublished = str "volume not published"
error_text not_exist = str "file does not exist"
error_text deadline_exceeded = str "i/o timeout"
error_text (message s) = s
error_text (wrapped s e) = s ++ (str ": " ++ error_text e)
error_text (status c s) = str "rpc error: code = " ++ (code_text c ++ (str " desc = " ++ s))

-- `errors.Is(err, ErrJSONNoSuchDevice)`, through the errors that `%w` wraps.
abbrev pub is_no_such_device : Error → Bool
is_no_such_device json_no_such_device = true
is_no_such_device (wrapped s e) = is_no_such_device e
is_no_such_device _ = false

-- `errors.Is(err, ErrVolumeDeleted)`
abbrev pub is_volume_deleted : Error → Bool
is_volume_deleted volume_deleted = true
is_volume_deleted (wrapped s e) = is_volume_deleted e
is_volume_deleted _ = false

-- `errors.Is(err, ErrVolumeUnpublished)`
abbrev pub is_volume_unpublished : Error → Bool
is_volume_unpublished volume_unpublished = true
is_volume_unpublished (wrapped s e) = is_volume_unpublished e
is_volume_unpublished _ = false

-- `os.IsNotExist(err)`, which does not look through `%w`.
abbrev pub is_not_exist : Error → Bool
is_not_exist not_exist = true
is_not_exist _ = false

-- How a call ends. A panic (nil dereference, index out of range) is not recovered anywhere.
pub data Outcome (A : Type 0) : Type 0 where
  ok : A → Outcome A
  err : Error → Outcome A
  panic : Outcome A

-- A call that may fail, seen by a caller that goes on after the failure.
pub data Result (A : Type 0) : Type 0 where
  good : A → Result A
  bad : Error → Result A

-- The state comes back on every path: what was done before a failure stays done.
abbrev pub Exec : Type 0 → Type 0 → Type 0
Exec S A = S → Outcome A × S

module _ {S A : Type 0} where
  abbrev pub pure : A → Exec S A
  pure a s = (ok a, s)

  abbrev pub raise : Error → Exec S A
  raise e s = (err e, s)

  abbrev pub crash : Exec S A
  crash s = (panic, s)

  abbrev pub try_outcome : Outcome A → S → Outcome (Result A) × S
  try_outcome (ok a) s = (ok (good a), s)
  try_outcome (err e) s = (ok (bad e), s)
  try_outcome panic s = (panic, s)

  -- `x, err := m()`, where the code looks at `err` itself.
  abbrev pub attempt : Exec S A → Exec S (Result A)
  attempt m s = let (r, s') = m s in try_outcome r s'

module _ {S C A : Type 0} (get : S → C) (set : C → S → S) where
  -- An action on a part of the state.
  abbrev pub zoom : Exec C A → Exec S A
  zoom m s = let (r, c) = m (get s) in (r, set c s)

module _ {S A B : Type 0} where
  abbrev pub continue : Outcome A → (A → Exec S B) → Exec S B
  continue (ok a) f s = f a s
  continue (err e) f s = (err e, s)
  continue panic f s = (panic, s)

  infixl 10 ◌>>=◌ ◌>>◌
  abbrev pub ◌>>=◌ : Exec S A → (A → Exec S B) → Exec S B
  ◌>>=◌ m f s = let (r, s') = m s in continue r f s'

  abbrev pub ◌>>◌ : Exec S A → Exec S B → Exec S B
  m >> n = m >>= λ _. n

module _ {S : Type 0} where
  -- `if err != nil { return err }`
  abbrev pub check : Option Error → Exec S Unit
  check none = pure tt
  check (some e) = raise e

module _ {S A : Type 0} where
  -- `m() //nolint:errcheck`: the failure is dropped, a panic is not.
  abbrev pub ignore : Exec S A → Exec S Unit
  ignore m = attempt m >>= λ _. pure tt

  -- `if err != nil { return nil, f(err) }`
  abbrev pub on_error : (Error → Error) → Exec S A → Exec S A
  on_error f m = attempt m >>= elim [ good a ↦ pure a | bad e ↦ raise (f e) ]

-- `status.Error(codes.Internal, err.Error())`
abbrev pub internal_status : Error → Error
internal_status e = status internal (error_text e)
