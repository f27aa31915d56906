-- ===== src/Node/Host.antt =====
-- The machine under the node server: files, mounts, commands and the clock, as one parameter.
use spdk_csi.Prelude.{ℕ, Bool, false, List, [], ◌∷◌}
use spdk_csi.Text.{Str}
use spdk_csi.Effect.{Result, good, bad, Exec, pure, raise, ◌>>◌}

-- The calls of os, filepath, os/exec, time and k8s.io/mount-utils that the node server makes.
pub data Op : Type 0 where
  glob : (pattern : Str) → Op
  command : (cmd_line : List Str) (timeout : ℕ) → Op
  sleep : (seconds : ℕ) → Op
  is_not_mount_point mkdir_all remove_all remove stat read_file unmount : (path : Str) → Op
  read_dir read_link : (path : Str) → Op
  write_file append_file : (path content : Str) → Op
  mount format_and_mount : (source target fs_type : Str) (flags : List Str) → Op

-- What a call returns besides its error.
pub data Answer : Type 0 where
  done : Answer
  flag : Bool → Answer
  paths : List Str → Answer
  bytes : Str → Answer

-- The answer read at its Go type.
abbrev pub flag_of : Answer → Bool
flag_of (flag b) = b
flag_of _ = false

abbrev pub paths_of : Answer → List Str
paths_of (paths l) = l
paths_of _ = []

abbrev pub bytes_of : Answer → Str
bytes_of (bytes s) = s
bytes_of _ = []

-- `join` is `filepath.Join` of two parts.
pub record Host (W : Type 0) : Type 0 where
  pub perform : Op → W → Result Answer × W
  pub join : Str → Str → Str

module _ {W : Type 0} where
  abbrev pub answer_in : Result Answer → Exec W Answer
  answer_in (good a) = pure a
  answer_in (bad e) = raise e

module _ {W : Type 0} (host : Host W) where
  unfoldable pub act : Op → Exec W Answer
  act op w = let (r, w') = host.perform op w in answer_in r w'

  -- A call whose answer is only its error.
  abbrev pub act_unit : Op → Exec W Unit
  act_unit op = do act op; pure tt

-- A machine that records its calls with their results, the newest first.
pub record Event : Type 0 where
  pub op : Op
  pub result : Result Answer

abbrev pub Trace : Type 0
Trace = List Event

module _ {W : Type 0} (host : Host W) where
  abbrev pub traced : Host (W × Trace)
  traced = record {
    perform = λ op (w, l).
        let (r, w') = host.perform op w in (r, (w', record { op = op; result = r } ∷ l));
    join = host.join;
  }
