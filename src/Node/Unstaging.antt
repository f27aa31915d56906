-- ===== src/Node/Unstaging.antt =====
-- What `NodeUnstageVolume` has done when it reports success.
use spdk_csi.Prelude.{◌≡◌, refl, Bool, true, false, not, none, ◌⊎◌, inl, inr, if◌then◌else◌}
use spdk_csi.Text.{Str}
use spdk_csi.Effect.{
  Error, Result, good, bad, pure, raise, attempt, on_error, internal_status, is_not_exist, ◌>>=◌,
  ◌>>◌,
}
use spdk_csi.Effect.Triple.{
  Triple, Either, Triple-attempt, Triple-bind, Triple-pure, Triple-raise, Triple-weaken,
  Triple-strengthen, Triple-any, Triple-on_error,
}
use spdk_csi.Node.Host.{
  is_not_mount_point, remove, Answer, flag_of, Host, act, act_unit, Trace, traced,
}
use spdk_csi.Node.Context.{
  Codec, volume_context_file_name, lookup_volume_context, clean_up_context, clean_up_volume_context,
}
use spdk_csi.Node.Initiator.{SpdkCsiInitiator, new_spdk_csi_initiator}
use spdk_csi.Node.Server.{
  UnstageRequest, get_staging_target_path, is_staged, delete_mount_point, unstage_failed,
  lift_internal, disconnect_staged, node_unstage_volume,
}
use spdk_csi.Node.Devices.{Newest, act-Triple}
use spdk_csi.Node.Sessions.{attached, Has, GoodSession, session, new_spdk_csi_initiator-GoodSession}

-- The newest call is the host's answer that the path is no mount point, or does not exist.
abbrev pub IsUnmounted : Str → Trace → Type 0
IsUnmounted path l =
    ((a : Answer) × (flag_of a ≡ true) × Newest (λ _. Unit) (is_not_mount_point path) (good a) l)
    ⊎ ((e : Error) × (is_not_exist e ≡ true)
        × Newest (λ _. Unit) (is_not_mount_point path) (bad e) l)

-- The newest call removed the file, with no session left before it.
abbrev pub IsCleanedUp : Str → Trace → Type 0
IsCleanedUp path l = (a : Answer) × Newest (λ k. attached k ≡ false) (remove path) (good a) l

module _ {W : Type 0} (host : Host W) where
  is_staged-IsUnmounted :
      (path : Str)
      → Triple
          (λ _. Unit)
          (is_staged (traced host) path)
          (λ b s. b ≡ false → IsUnmounted path s.1)
          (λ _ _. Unit)
  unfolding is_staged
  is_staged-IsUnmounted path =
      Triple-bind
        {R = Either (λ a s. Newest (λ _. Unit) (is_not_mount_point path) (good a) s.1)
          (λ e s. Newest (λ _. Unit) (is_not_mount_point path) (bad e) s.1)}
        (attempt (act (traced host) (is_not_mount_point path))) _
        (Triple-attempt _ (act-Triple host (λ _. Unit) (is_not_mount_point path)))
        (elim [
          | good a ↦ Triple-pure (not (flag_of a)) (λ s n h. inl (a, not_false (flag_of a) h, n))
          | bad e ↦ missing e (is_not_exist e) refl
        ])
    where
      not_false : (b : Bool) → not b ≡ false → b ≡ true
      not_false true h = refl
      not_false false h = cc

      missing :
          (e : Error) (b : Bool)
          → is_not_exist e ≡ b
          → Triple {S = W × Trace}
              (λ s. Newest (λ _. Unit) (is_not_mount_point path) (bad e) s.1)
              (if b then pure false else raise e)
              (λ c s. c ≡ false → IsUnmounted path s.1)
              (λ _ _. Unit)
      missing e true q = Triple-pure false (λ s n h. inr (e, q, n))
      missing e false q = Triple-raise e (λ s n. tt)

  module _ (codec : Codec) where
    clean_up-IsCleanedUp :
        (folder : Str)
        → Triple
            (λ s. Has host false s)
            (clean_up_volume_context (traced host) codec folder)
            (λ _ s. IsCleanedUp (host.join folder volume_context_file_name) s.1)
            (λ _ _. Unit)
    unfolding clean_up_volume_context clean_up_context
    clean_up-IsCleanedUp folder =
        let path = host.join folder volume_context_file_name in
        Triple-on_error _ (act_unit (traced host) (remove path)) (
          Triple-bind (act (traced host) (remove path)) _
            (Triple-weaken (λ _ _ _. tt) (act-Triple host (λ l. attached l ≡ false) (remove path)))
            (λ a. Triple-pure tt (λ s n. (a, n))))

    made-IsCleanedUp :
        (r : Result (SpdkCsiInitiator (W × Trace))) (folder : Str)
        → GoodSession host r
        → Triple
            (λ _. Unit)
            (do
              i ← lift_internal r
              on_error internal_status i.disconnect
              on_error internal_status (clean_up_volume_context (traced host) codec folder))
            (λ _ s. IsCleanedUp (host.join folder volume_context_file_name) s.1)
            (λ _ _. Unit)
    made-IsCleanedUp (good i) folder (session h) =
        Triple-bind (on_error internal_status i.disconnect) _
          (Triple-on_error _ i.disconnect (Triple-weaken (λ _ _ _. tt) h.disconnects))
          (λ _. Triple-on_error _ _ (clean_up-IsCleanedUp folder))
    made-IsCleanedUp (bad e) folder h = Triple-raise _ (λ s q. tt)

    -- On a node without an xPU, NodeUnstageVolume that succeeds either found the staging path
    -- unmounted or missing and did nothing more, or has no session left by its session commands
    -- and then removed the stashed volume context.
    pub node_unstage_volume-IsCleanedUp :
        (req : UnstageRequest)
        → Triple
            (λ _. Unit)
            (node_unstage_volume (traced host) codec none req)
            (λ _ s.
              IsUnmounted (get_staging_target_path req.staging_target_path req.volume_id) s.1
              ⊎ IsCleanedUp (host.join req.staging_target_path volume_context_file_name) s.1)
            (λ _ _. Unit)
    unfolding node_unstage_volume disconnect_staged
    node_unstage_volume-IsCleanedUp req =
        let path = get_staging_target_path req.staging_target_path req.volume_id in
        Triple-bind (on_error internal_status (is_staged (traced host) path)) _
          (Triple-on_error internal_status _ (is_staged-IsUnmounted path))
          (elim [
            | false ↦ Triple-pure tt (λ s h. inl (h refl))
            | true ↦
                Triple-bind {R = λ _ _. Unit}
                  (on_error (unstage_failed req.volume_id) (delete_mount_point (traced host) path))
                  _
                  (Triple-any (
                    on_error (unstage_failed req.volume_id)
                      (delete_mount_point (traced host) path)))
                  λ _.
                    Triple-bind {R = λ _ _. Unit}
                      (on_error internal_status
                        (lookup_volume_context (traced host) codec req.staging_target_path))
                      _ (Triple-any _)
                      λ ctx.
                        Triple-strengthen (λ _ _ q. inr q)
                          (made-IsCleanedUp (new_spdk_csi_initiator (traced host) ctx)
                            req.staging_target_path (new_spdk_csi_initiator-GoodSession host ctx))
          ])
