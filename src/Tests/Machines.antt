-- ===== src/Tests/Machines.antt =====
-- The properties of the node side on a machine with a script.
use spdk_csi.Prelude.{◌≡◌, refl, ◌⊎◌, inr, true, ◌++◌, none, some, List, [], ◌∷◌}
use spdk_csi.Text.{Str, str}
use spdk_csi.Effect.{not_exist, message, ok, Result, good, bad}
use spdk_csi.Effect.Triple.{Ends}
use spdk_csi.Target.Nvmf.{Map}
use spdk_csi.Node.Host.{Op, read_file, write_file, Answer, done, paths, bytes, Host, traced}
use spdk_csi.Node.Context.{Codec, object, stash_volume_context, lookup_volume_context}
use spdk_csi.Node.Initiator.{wait_for_device_ready, wait_for_device_gone}
use spdk_csi.Node.Server.{
  StageRequest, UnstageRequest, get_staging_target_path, node_stage_volume, node_unstage_volume,
}
use spdk_csi.Node.Devices.{
  IsNone, IsSome, Unended, Ready, Gone, wait_for_device_ready_lem, wait_for_device_gone_lem,
}
use spdk_csi.Node.Sessions.{Has}
use spdk_csi.Node.Sessions.Staging.{
  IsMounted, staging_path_of, Unconnected, node_stage_volume-session,
}
use spdk_csi.Node.Unstaging.{IsUnmounted, IsCleanedUp, node_unstage_volume-IsCleanedUp}
use spdk_csi.Node.RoundTrip.{texts, stash-lookup_volume_context}

-- The results of the calls to come; the device is there after them.
abbrev Replies : Type 0
Replies = List (Result Answer)

abbrev reply : Op → Replies → Result Answer × Replies
reply op [] = (good done, [])
reply op (r ∷ l) = (r, l)

abbrev machine : Host Replies
machine = record { perform = reply; join = λ a b. a ++ (str "/" ++ b) }

abbrev context : Map
context = ("targetType", str "TCP") ∷ ("nqn", str "nqn") ∷ ("model", str "v1") ∷ []

abbrev codec : Codec
codec = record {
  marshal = λ _. [];
  unmarshal = λ _. inr (object (texts context));
  bytes_of_key = λ _. [];
}

-- The path is not there, the command runs, the device shows up, and formatting it fails.
abbrev failing : Replies
failing =
    bad not_exist
    ∷ good done
    ∷ good (paths (str "/dev/disk/by-id/nvme-v1" ∷ []))
    ∷ bad not_exist
    ∷ good done
    ∷ bad (message (str "mkfs failed"))
    ∷ []

abbrev staging : StageRequest
staging = record {
  volume_id = str "n1:v1";
  staging_target_path = str "/staging";
  volume_context = some context;
  fs_type = str "ext4";
  mount_flags = [];
  access_mode = some 1;
}

node_stage_volume-session_example :
    Ends
      (λ _ s. Has machine true s ⊎ IsMounted machine (staging_path_of machine staging) s.1)
      (λ _ s. Unconnected machine context s)
      (node_stage_volume (traced machine) codec none staging (failing, []))
node_stage_volume-session_example =
    (node_stage_volume-session machine codec staging).at (failing, []) refl

abbrev unstaging : UnstageRequest
unstaging = record { volume_id = str "n1:v1"; staging_target_path = str "/staging" }

node_unstage_volume-IsCleanedUp_example :
    Ends
      (λ _ s.
        IsUnmounted (str "/staging/n1:v1") s.1
        ⊎ IsCleanedUp (str "/staging/volume-context.json") s.1)
      (λ _ _. Unit)
      (node_unstage_volume (traced machine) codec none unstaging ([], []))
unfolding get_staging_target_path str
node_unstage_volume-IsCleanedUp_example =
    (node_unstage_volume-IsCleanedUp machine codec unstaging).at ([], []) tt

wait_for_device_ready_lem_example :
    Ends
      (λ p s. Ready machine (str "*") [] 21 p s)
      (λ _ s. Unended (str "*") IsNone [] 21 s.1)
      (wait_for_device_ready
        (traced machine)
        (str "*")
        20
        (good (paths []) ∷ good done ∷ good (paths (str "a" ∷ [])) ∷ [], []))
wait_for_device_ready_lem_example =
    (wait_for_device_ready_lem machine (str "*") [] 20).at
      (good (paths []) ∷ good done ∷ good (paths (str "a" ∷ [])) ∷ [], []) refl

wait_for_device_gone_lem_example :
    Ends
      (λ _ s. Gone machine (str "*") [] 21 s)
      (λ _ s. Unended (str "*") IsSome [] 21 s.1)
      (wait_for_device_gone
        (traced machine)
        (str "*")
        (good (paths (str "a" ∷ [])) ∷ good done ∷ good (paths []) ∷ [], []))
wait_for_device_gone_lem_example =
    (wait_for_device_gone_lem machine (str "*") []).at
      (good (paths (str "a" ∷ [])) ∷ good done ∷ good (paths []) ∷ [], []) refl

-- A disk with room for one file.
abbrev disk_reply : Op → Str → Result Answer × Str
disk_reply (write_file path content) s = (good done, content)
disk_reply (read_file path) s = (good (bytes s), s)
disk_reply op s = (good done, s)

abbrev disk : Host Str
disk = record { perform = disk_reply; join = λ a b. a ++ (str "/" ++ b) }

stash-lookup_volume_context_example :
    Ends
      (λ _ w. (lookup_volume_context disk codec (str "/staging") w).0 ≡ ok context)
      (λ _ _. Unit)
      (stash_volume_context disk codec context (str "/staging") [])
stash-lookup_volume_context_example =
    (stash-lookup_volume_context disk codec context (str "/staging") (λ p c w a e. refl) refl).at []
      tt
