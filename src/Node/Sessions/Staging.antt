-- ===== src/Node/Sessions/Staging.antt =====
-- Whether `NodeStageVolume` leaves a session behind.
use spdk_csi.Prelude.{◌≡◌, refl, Bool, true, false, not, none, ◌⊎◌, inl, inr, if◌then◌else◌}
use spdk_csi.Text.{Str}
use spdk_csi.Effect.{
  Error, Result, good, bad, Outcome, ok, err, panic, pure, raise, attempt, ignore, on_error,
  internal_status, is_not_exist, ◌>>=◌,
}
use spdk_csi.Effect.Triple.{
  Ends, Triple, Either, Triple-attempt, Triple-bind, Triple-pure, Triple-raise, Triple-weaken,
  Triple-strengthen, Triple-Keeps, Triple-ignore, Triple-on_error,
}
use spdk_csi.Target.Nvmf.{Map}
use spdk_csi.Node.Host.{is_not_mount_point, Answer, flag_of, Host, act, Trace, traced}
use spdk_csi.Node.Context.{Codec}
use spdk_csi.Node.Initiator.{SpdkCsiInitiator, new_spdk_csi_initiator}
use spdk_csi.Node.Server.{
  StageRequest, is_staged, stage_device, connect_and_stage, node_stage_volume,
  get_staging_target_path, lift_internal, context_of,
}
use spdk_csi.Node.Devices.{Traced, Newest, act-Triple}
use spdk_csi.Node.Sessions.{
  attached, Has, IsSession, GoodSession, session, new_spdk_csi_initiator-GoodSession,
}
use spdk_csi.Node.Sessions.Calls.{stage_device-Keeps}

module _ {W : Type 0} (host : Host W) where
  -- The path ended with a failure of `Connect`.
  abbrev pub ConnectFailed : SpdkCsiInitiator (W × Trace) → Traced host → Type 0
  ConnectFailed i s = (s₀ : Traced host) × (e : Error) × (i.connect s₀ ≡ (err e, s))

  connect-Ends :
      (i : SpdkCsiInitiator (W × Trace)) (s₀ : Traced host) (r : Outcome Str) (s : Traced host)
      → i.connect s₀ ≡ (r, s)
      → Ends (λ _ t. Has host true t) (λ _ t. Has host true t) (r, s)
      → Ends (λ _ t. Has host true t) (λ _ t. ConnectFailed i t) (r, s)
  connect-Ends i s₀ (ok p) s e h = h
  connect-Ends i s₀ (err x) s e h = (s₀, x, e)
  connect-Ends i s₀ panic s e h = tt

  connect-Triple :
      (i : SpdkCsiInitiator (W × Trace))
      → IsSession host i
      → Triple (λ _. Unit) i.connect (λ _ s. Has host true s) (λ _ s. ConnectFailed i s)
  connect-Triple i h = record {
    at = λ s _. connect-Ends i s (i.connect s).0 (i.connect s).1 refl (h.connects.at s tt);
  }

  -- The newest call is the host's answer that the path is a mount point.
  abbrev pub IsMounted : Str → Trace → Type 0
  IsMounted path l =
      (a : Answer) × (flag_of a ≡ false) × Newest (λ _. Unit) (is_not_mount_point path) (good a) l

  abbrev pub staging_path_of : StageRequest → Str
  staging_path_of req = get_staging_target_path req.staging_target_path req.volume_id

  -- There is no session, or `Connect` of the initiator that the context asks for failed.
  abbrev pub Unconnected : Map → Traced host → Type 0
  Unconnected ctx s =
      Has host false s
      ⊎ ((i : SpdkCsiInitiator (W × Trace)) × (new_spdk_csi_initiator (traced host) ctx ≡ good i)
          × ConnectFailed i s)

  is_staged-Triple :
      (path : Str)
      → Triple
          (λ s. Has host false s)
          (is_staged (traced host) path)
          (λ b s. Has host false s × (b ≡ true → IsMounted path s.1))
          (λ _ s. Has host false s)
  unfolding is_staged
  is_staged-Triple path =
      Triple-bind
        {R = Either (λ a s. Newest Detached (is_not_mount_point path) (good a) s.1)
          (λ e s. Newest Detached (is_not_mount_point path) (bad e) s.1)}
        (attempt (act (traced host) (is_not_mount_point path))) _
        (Triple-attempt _ (act-Triple host Detached (is_not_mount_point path)))
        (elim [
          | good a ↦ Triple-pure (not (flag_of a)) (λ s n.
              (kept (good a) s.1 n, λ h. (a, not_true (flag_of a) h, weaker (good a) s.1 n)))
          | bad e ↦ missing e (is_not_exist e)
        ])
    where
      Detached : Trace → Type 0
      Detached l = attached l ≡ false

      kept :
          (r : Result Answer) (l : Trace)
          → Newest Detached (is_not_mount_point path) r l
          → attached l ≡ false
      kept r l n = rw n.now n.so_far

      weaker :
          (r : Result Answer) (l : Trace)
          → Newest Detached (is_not_mount_point path) r l
          → Newest (λ _. Unit) (is_not_mount_point path) r l
      weaker r l n = record { before = n.before; so_far = tt; now = n.now }

      not_true : (b : Bool) → not b ≡ true → b ≡ false
      not_true true h = cc
      not_true false h = refl

      missing :
          (e : Error) (b : Bool)
          → Triple
              (λ s. Newest Detached (is_not_mount_point path) (bad e) s.1)
              (if b then pure false else raise e)
              (λ c s. Has host false s × (c ≡ true → IsMounted path s.1))
              (λ _ s. Has host false s)
      missing e true = Triple-pure false (λ s n. (kept (bad e) s.1 n, λ h. cc))
      missing e false = Triple-raise e (λ s n. kept (bad e) s.1 n)

  module _ (codec : Codec) where
    connect_and_stage-Triple :
        (i : SpdkCsiInitiator (W × Trace)) (ctx : Map) (req : StageRequest)
        → new_spdk_csi_initiator (traced host) ctx ≡ good i
        → IsSession host i
        → Triple
            (λ _. Unit)
            (connect_and_stage (traced host) codec none i ctx req)
            (λ _ s. Has host true s)
            (λ _ s. Unconnected ctx s)
    unfolding connect_and_stage
    connect_and_stage-Triple i ctx req made h =
        Triple-bind (on_error internal_status i.connect) _
          (Triple-on_error internal_status i.connect
            (Triple-weaken (λ e s f. inr (i, made, f)) (connect-Triple i h)))
          λ device.
            Triple-bind {R = Either (λ _ s. Has host true s) (λ _ s. Has host true s)}
              (attempt (stage_device (traced host) codec device ctx req)) _
              (Triple-attempt _
                (Triple-Keeps _ (stage_device-Keeps host codec device ctx req true)))
              (elim [
                | good _ ↦ Triple-pure tt (λ s q. q)
                | bad e ↦
                    Triple-bind (ignore i.disconnect) _
                      (Triple-ignore i.disconnect (record { at = λ s _. h.disconnects.at s tt }))
                      (λ _. Triple-raise e (λ s q. inl q))
              ])

    made-Triple :
        (r : Result (SpdkCsiInitiator (W × Trace))) (ctx : Map) (req : StageRequest)
        → new_spdk_csi_initiator (traced host) ctx ≡ r
        → GoodSession host r
        → Triple
            (λ s. Has host false s)
            (do i ← lift_internal r; connect_and_stage (traced host) codec none i ctx req)
            (λ _ s. Has host true s)
            (λ _ s. Unconnected ctx s)
    made-Triple (good i) ctx req made (session h) = record {
      at = λ s _. (connect_and_stage-Triple i ctx req made h).at s tt;
    }
    made-Triple (bad e) ctx req made h = Triple-raise _ (λ s q. inl q)

    -- On a node without an xPU that has no session, NodeStageVolume that succeeds has made a
    -- session by its last session command, or the staging path was mounted already; when it fails
    -- there is no session left, unless what failed is Connect of the initiator that the volume
    -- context asks for.
    pub node_stage_volume-session :
        (req : StageRequest)
        → Triple
            (λ s. Has host false s)
            (node_stage_volume (traced host) codec none req)
            (λ _ s. Has host true s ⊎ IsMounted (staging_path_of req) s.1)
            (λ _ s. Unconnected (context_of req.volume_context) s)
    unfolding node_stage_volume
    node_stage_volume-session req =
        Triple-bind (on_error internal_status (is_staged (traced host) (staging_path_of req))) _
          (Triple-on_error internal_status _
            (Triple-weaken (λ _ _ h. inl h) (is_staged-Triple (staging_path_of req))))
          (elim [
            | true ↦ Triple-pure tt (λ s h. inr (h.1 refl))
            | false ↦ record {
              at = λ s h.
                  (Triple-strengthen (λ _ _ q. inl q)
                      (made-Triple
                        (new_spdk_csi_initiator (traced host) (context_of req.volume_context))
                        (context_of req.volume_context) req refl
                        (new_spdk_csi_initiator-GoodSession host
                          (context_of req.volume_context)))).at
                    s h.0;
            }
          ])
