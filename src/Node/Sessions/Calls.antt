-- ===== src/Node/Sessions/Calls.antt =====
-- The session across the calls that stage a connected device (`stageVolume`, `StashVolumeContext`).
use spdk_csi.Prelude.{ℕ, ◌≡◌, refl, Bool, false, Option, none, some, List}
use spdk_csi.Text.{Str}
use spdk_csi.Effect.{Error, Result, good, bad, Exec, on_error, is_not_exist}
use spdk_csi.Effect.Keeps.{
  Keeps, Keeps-pure, Keeps-raise, Keeps-crash, Keeps-if, Keeps-attempt, Keeps-bind,
}
use spdk_csi.Target.Nvmf.{Map}
use spdk_csi.Node.Host.{
  Op, is_not_mount_point, mkdir_all, stat, write_file, format_and_mount, Host, act_unit, traced,
}
use spdk_csi.Node.Context.{Codec, make_folder, stash_context, stash_volume_context}
use spdk_csi.Node.Server.{
  StageRequest, mount_staged, mount_in_mode, staging_flags, create_mount_point, stage_volume,
  stage_device,
}
use spdk_csi.Node.Devices.{Traced}
use spdk_csi.Node.Sessions.{move, Has, act-Keeps}

module _ {W : Type 0} (host : Host W) where
  create_mount_point-Keeps :
      (path : Str) (b : Bool) → Keeps (Has host b) (create_mount_point (traced host) path)
  unfolding create_mount_point
  create_mount_point-Keeps path b =
      Keeps-bind _ _ (Keeps-attempt _ (act-Keeps host (is_not_mount_point path) b (λ _. refl)))
        (elim [
          | good a ↦ Keeps-pure _
          | bad e ↦
              Keeps-if (is_not_exist e) _ _
                (Keeps-bind _ _ (act-Keeps host (mkdir_all path) b (λ _. refl))
                  (λ _. Keeps-pure false))
                (Keeps-raise e)
        ])

  on_error-Keeps :
      {A : Type 0} (b : Bool) (f : Error → Error) (m : Exec (Traced host) A)
      → Keeps (Has host b) m
      → Keeps (Has host b) (on_error f m)
  on_error-Keeps b f m k =
      Keeps-bind _ _ (Keeps-attempt m k)
        (elim [ good a ↦ Keeps-pure a | bad e ↦ Keeps-raise (f e) ])

  act_unit-Keeps :
      (op : Op) (b : Bool)
      → ((c : Bool) → move op c ≡ c)
      → Keeps (Has host b) (act_unit (traced host) op)
  act_unit-Keeps op b q = Keeps-bind _ _ (act-Keeps host op b q) (λ _. Keeps-pure tt)

  mount_in_mode-Keeps :
      (device path : Str) (req : StageRequest) (mode : Option ℕ) (b : Bool)
      → Keeps (Has host b) (mount_in_mode (traced host) device path req mode)
  mount_in_mode-Keeps device path req none b = Keeps-crash
  mount_in_mode-Keeps device path req (some mode) b = flags (staging_flags mode req.mount_flags)
    where
      flags :
          (r : Result (List Str))
          → Keeps (Has host b) (mount_staged (traced host) device path req r)
      flags (good l) = act_unit-Keeps (format_and_mount device path req.fs_type l) b (λ _. refl)
      flags (bad e) = Keeps-raise e

  stage_volume-Keeps :
      (device path : Str) (req : StageRequest) (b : Bool)
      → Keeps (Has host b) (stage_volume (traced host) device path req)
  unfolding stage_volume
  stage_volume-Keeps device path req b = Keeps-bind _ _ (create_mount_point-Keeps path b) λ mounted.
      Keeps-if mounted _ _ (Keeps-pure tt) (mount_in_mode-Keeps device path req req.access_mode b)

  module _ (codec : Codec) where
    stash_volume_context-Keeps :
        (m : Map) (path : Str) (b : Bool)
        → Keeps (Has host b) (stash_volume_context (traced host) codec m path)
    unfolding stash_volume_context stash_context
    stash_volume_context-Keeps m path b =
        Keeps-bind _ _ (Keeps-attempt _ (act_unit-Keeps (stat path) b (λ _. refl))) λ r.
          Keeps-bind _ _ (folder r)
            λ _. on_error-Keeps b _ _ (act_unit-Keeps (write_file _ _) b (λ _. refl))
      where
        folder :
            (r : Result (Unit {0})) → Keeps (Has host b) (make_folder (traced host) codec path r)
        folder (good _) = Keeps-pure tt
        folder (bad e) =
            Keeps-if (is_not_exist e) _ _ (act_unit-Keeps (mkdir_all path) b (λ _. refl))
              (Keeps-pure tt)

    pub stage_device-Keeps :
        (device : Str) (ctx : Map) (req : StageRequest) (b : Bool)
        → Keeps (Has host b) (stage_device (traced host) codec device ctx req)
    unfolding stage_device
    stage_device-Keeps device ctx req b =
        Keeps-bind _ _ (on_error-Keeps b _ _ (stage_volume-Keeps device _ req b))
          (λ _. on_error-Keeps b _ _ (stash_volume_context-Keeps ctx _ b))
