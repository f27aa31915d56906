-- ===== src/Node/Xpu/Rollback.antt =====
-- The calls of the backend that `ConnectVirtioBlk` makes, by a record of them.
use spdk_csi.Prelude.{◌≡◌, refl, Bool, true, false, List, [], ◌∷◌, if◌then◌else◌}
use spdk_csi.Text.{Str, str}
use spdk_csi.Effect.{
  Outcome, ok, err, panic, Result, good, bad, wrapped, Exec, pure, raise, attempt, ignore, on_error,
  ◌>>◌,
}
use spdk_csi.Effect.Keeps.{Keeps}
use spdk_csi.Effect.Triple.{
  Ends, Triple, Either, Triple-attempt, Triple-bind, Triple-pure, Triple-raise, Triple-ignore,
  Triple-Keeps, Triple-on_error,
}
use spdk_csi.Node.Host.{Host}
use spdk_csi.Node.Xpu.{
  ConnectParams, XpuInitiator, Sysfs, XpuState, Xpu, on_world, set_functions, set_device_path,
  connect_virtio_blk,
}

-- A call of the backend: `Connect` with whether it returned, or `Disconnect`.
pub data Call : Type 0 where
  connected : Bool → Call
  disconnected : Call

-- The backend has connected and has not been told to disconnect since.
abbrev pub held : List Call → Bool
held [] = false
held (connected b ∷ l) = if b then true else held l
held (disconnected ∷ l) = false

abbrev returned : {A : Type 0} → Outcome A → Bool
returned (ok _) = true
returned _ = false

module _ {W A : Type 0} where
  abbrev beside : Exec W A → Exec (W × List Call) A
  beside m (w, l) = let (r, w') = m w in (r, (w', l))

module _ {W : Type 0} where
  -- The backend with a record of its calls, the newest first, and the lookups beside it.
  abbrev pub recorded : XpuInitiator W → XpuInitiator (W × List Call)
  recorded b = record {
    connect = λ p (w, l). let (r, w') = b.connect p w in (r, (w', connected (returned r) ∷ l));
    disconnect = λ (w, l). let (r, w') = b.disconnect w in (r, (w', disconnected ∷ l));
    get_param = beside b.get_param;
  }

  abbrev pub beside_sysfs : Sysfs W → Sysfs (W × List Call)
  beside_sysfs s = record {
    get_available_functions = λ c. beside (s.get_available_functions c);
    check_if_nvme_device_exists = λ m. beside (s.check_if_nvme_device_exists m);
    get_nvme_device_name = λ m b. beside (s.get_nvme_device_name m b);
    get_virtio_blk_device_name = λ b. beside (s.get_virtio_blk_device_name b);
  }

  abbrev pub Holds : Bool → XpuState (W × List Call) → Type 0
  Holds b s = held s.world.1 ≡ b

  connect-Ends :
      (r : Outcome Unit) (s : XpuState (W × List Call)) (w : W) (l : List Call)
      → held l ≡ false
      → Ends
          (λ _ t. Holds true t)
          (λ _ t. Holds false t)
          (r, record s { world = (w, connected (returned r) ∷ l) })
  connect-Ends (ok _) s w l h = refl
  connect-Ends (err e) s w l h = h
  connect-Ends panic s w l h = tt

  disconnect-Ends :
      (r : Outcome Unit) (s : XpuState (W × List Call)) (w : W) (l : List Call)
      → Ends
          (λ _ t. Holds false t)
          (λ _ t. Holds false t)
          (r, record s { world = (w, disconnected ∷ l) })
  disconnect-Ends (ok _) s w l = refl
  disconnect-Ends (err e) s w l = refl
  disconnect-Ends panic s w l = tt

module _ {W : Type 0} (backend : XpuInitiator W) where
  connect-Triple :
      (p : ConnectParams)
      → Triple
          (λ s. Holds false s)
          (on_world ((recorded backend).connect p))
          (λ _ s. Holds true s)
          (λ _ s. Holds false s)
  connect-Triple p = record {
    at = λ s h.
        connect-Ends (backend.connect p s.world.0).0 s (backend.connect p s.world.0).1 s.world.1 h;
  }

  disconnect-Triple :
      Triple
        (λ _. Unit)
        (on_world (recorded backend).disconnect)
        (λ _ s. Holds false s)
        (λ _ s. Holds false s)
  disconnect-Triple = record {
    at = λ s h.
        disconnect-Ends (backend.disconnect s.world.0).0 s (backend.disconnect s.world.0).1
          s.world.1;
  }

  -- The end of the function, once the device has been looked for.
  abbrev finish : Result Str → Exec (XpuState (W × List Call)) Str
  finish r = elim r [
    | bad e ↦ do ignore (on_world (recorded backend).disconnect); raise e
    | good p ↦ do set_device_path p; pure p
  ]

  finish-Triple :
      (r : Result Str)
      → Triple
          (Either (λ _ s. Holds true s) (λ _ s. Holds true s) r)
          (finish r)
          (λ _ s. Holds true s)
          (λ _ s. Holds false s)
  finish-Triple (bad e) =
      Triple-bind (ignore (on_world (recorded backend).disconnect)) _
        (Triple-ignore (on_world (recorded backend).disconnect)
          (record { at = λ s _. disconnect-Triple.at s tt }))
        (λ _. Triple-raise e (λ s h. h))
  finish-Triple (good p) =
      Triple-bind {R = λ _ s. Holds true s} (set_device_path p) _ (record { at = λ s h. h })
        (λ _. Triple-pure p (λ s h. h))

module _ {W A : Type 0} where
  beside-Keeps : (b : Bool) (m : Exec W A) → Keeps (Holds b) (on_world (beside m))
  beside-Keeps b m = record { at = λ s h. h }

module _ {W : Type 0} (host : Host (W × List Call)) (sysfs : Sysfs W) (backend : XpuInitiator W)
    (xpu : Xpu) where
  -- With no device held, ConnectVirtioBlk of xpuInitiator that returns has connected the backend
  -- and not disconnected it since; when it fails, at whatever step, the backend did not connect or
  -- was told to disconnect.
  pub connect_virtio_blk-rollback :
      Triple
        (λ s. Holds false s)
        (connect_virtio_blk host (beside_sysfs sysfs) (recorded backend) xpu)
        (λ _ s. Holds true s)
        (λ _ s. Holds false s)
  unfolding connect_virtio_blk
  connect_virtio_blk-rollback =
      Triple-bind {R = λ _ s. Holds false s}
        (on_error (wrapped (str "failed to detect free NVMe virtual function"))
          (on_world (beside (sysfs.get_available_functions xpu.xpu_config))))
        _
        (Triple-on_error _ _
          (Triple-Keeps _ (beside-Keeps false (sysfs.get_available_functions xpu.xpu_config))))
        λ found.
          Triple-bind {R = λ _ s. Holds false s} (set_functions found) _ (record { at = λ s h. h })
            λ _.
              Triple-bind
                (on_world (
                  (recorded backend).connect
                    (record { tcp_target_port = []; pci_endpoint = found.0 })))
                _ (connect-Triple backend _)
                λ _.
                  Triple-bind {R = Either (λ _ s. Holds true s) (λ _ s. Holds true s)}
                    (attempt (on_world (beside (sysfs.get_virtio_blk_device_name found.1.vf_bdf))))
                    (finish backend)
                    (Triple-attempt _ (
                      Triple-Keeps _
                        (beside-Keeps true (sysfs.get_virtio_blk_device_name found.1.vf_bdf))))
                    (finish-Triple backend)
