-- ===== src/Backend/Sma/Steps.antt =====
-- The methods of `smaCommon` on the record of its devices and volumes.
use spdk_csi.Prelude.{◌≡◌, ◌≢◌, refl, ap, ◌∙◌, true, false, Option, none, some, List, [], ◌∷◌}
use spdk_csi.Text.{Str, str_eq}
use spdk_csi.Text.Laws.{str_eq_iff}
use spdk_csi.Effect.{Error, Outcome, ok, err, panic, on_error, ◌>>=◌}
use spdk_csi.Effect.Triple.{Ends, Triple}
use spdk_csi.Target.Nvmf.{Map}
use spdk_csi.Backend.Opi.Ledger.{remove, named, remove-named}
use spdk_csi.Backend.Sma.{
  CreateDeviceRequest, AttachVolumeRequest, DetachVolumeRequest, Agent, SmaCommon, on_agent,
  keep_handle, answered, set_volume, set_handle, create_device, attach_volume, detach_volume,
  delete_device, attach_request,
}
use spdk_csi.Backend.Sma.Ledger.{
  created, deleted, attached, detached, Log, devices, volumes, note, recorded, Assumptions, At,
}

not_none {ℓ} : {A : Type ℓ} {a : A} → none ≡ some a → ⊥
not_none e = cc

no_handle :
    {W : Type 0} {v : Option Str} {vs : List Str} {s : SmaCommon (W × Log)}
    → At false v vs s
    → devices s.world.1 ≡ []
no_handle {s = s} a = a.devices_are ∙ ap named ((str_eq_iff s.device_handle []).0 a.handle_test)

module _ {W : Type 0} (agent : Agent W) (volume_context : Map) {vs : List Str} where
  create-Ends :
      (v : Option Str) (f : Error → Error) (r : Outcome (Option Str)) (w : W)
      (s : SmaCommon (W × Log))
      → At false v vs s
      → Ends (λ r' _. (h : Str) × (r' ≡ some h) × (h ≢ [])) (λ _ _. Unit) (r, w)
      → Ends
          (λ _ t. At true v vs t)
          (λ _ t. At false v vs t)
          ((on_error f (on_agent (λ (_ : W × Log). note (λ h. created h ∷ s.world.1) r w s.world.1))
              >>= keep_handle (recorded agent) volume_context)
            s)
  unfolding devices volumes str_eq
  create-Ends v f (ok (some [])) w s a (h, e, ne) = absurd (ne (cc))
  create-Ends v f (ok (some (c ∷ h))) w s a x = record {
    handle_test = refl;
    volume_is = a.volume_is;
    devices_are = ap (◌∷◌ (c ∷ h)) (no_handle a);
    volumes_are = a.volumes_are;
  }
  create-Ends v f (ok none) w s a (h, e, ne) = absurd (not_none e)
  create-Ends v f (err e) w s a x = record {
    handle_test = a.handle_test;
    volume_is = a.volume_is;
    devices_are = a.devices_are;
    volumes_are = a.volumes_are;
  }
  create-Ends v f panic w s a x = tt

  attach-Ends :
      (v : Str) (x : Option Str) (f : Error → Error) (what : Str) (r : Outcome (Option (Unit {0})))
      (w : W) (s : SmaCommon (W × Log))
      → x ≡ some v
      → At true (some v) vs s
      → Ends
          (λ _ t. At true (some v) (v ∷ vs) t)
          (λ _ t. At true (some v) vs t)
          ((on_error f
                (on_agent (λ (_ : W × Log). note (λ _. attached x ∷ s.world.1) r w s.world.1))
              >>= answered (recorded agent) volume_context what (set_volume x))
            s)
  unfolding devices volumes
  attach-Ends v x f what (ok (some _)) w s e a = record {
    handle_test = a.handle_test;
    volume_is = e;
    devices_are = a.devices_are;
    volumes_are = rw e (ap (◌∷◌ v) a.volumes_are);
  }
  attach-Ends v x f what (ok none) w s e a = record {
    handle_test = a.handle_test;
    volume_is = a.volume_is;
    devices_are = a.devices_are;
    volumes_are = a.volumes_are;
  }
  attach-Ends v x f what (err _) w s e a = record {
    handle_test = a.handle_test;
    volume_is = a.volume_is;
    devices_are = a.devices_are;
    volumes_are = a.volumes_are;
  }
  attach-Ends v x f what panic w s e a = tt

  module _ (Refused : Type 0) where
    detach-Ends :
        (v : Str) (f : Error → Error) (what : Str) (r : Outcome (Option (Unit {0}))) (w : W)
        (s : SmaCommon (W × Log))
        → At true (some v) vs s
        → Ends (λ r' _. r' ≡ some tt) (λ _ _. Refused) (r, w)
        → Ends
            (λ _ t. At true none (remove v vs) t)
            (λ _ t. At true (some v) vs t × Refused)
            ((on_error f (
                  on_agent
                    (λ (_ : W × Log). note (λ _. detached (some v) ∷ s.world.1) r w s.world.1))
                >>= answered (recorded agent) volume_context what (set_volume none))
              s)
    unfolding devices volumes
    detach-Ends v f what (ok (some _)) w s a x = record {
      handle_test = a.handle_test;
      volume_is = refl;
      devices_are = a.devices_are;
      volumes_are = ap (remove v) a.volumes_are;
    }
    detach-Ends v f what (ok none) w s a x = absurd (not_none x)
    detach-Ends v f what (err e) w s a x = (
      record {
        handle_test = a.handle_test;
        volume_is = a.volume_is;
        devices_are = a.devices_are;
        volumes_are = a.volumes_are;
      },
      x,
    )
    detach-Ends v f what panic w s a x = tt

    delete-Ends :
        (v : Option Str) (f : Error → Error) (what : Str) (r : Outcome (Option (Unit {0}))) (w : W)
        (s : SmaCommon (W × Log))
        → At true v vs s
        → Ends (λ r' _. r' ≡ some tt) (λ _ _. Refused) (r, w)
        → Ends
            (λ _ t. At false v vs t)
            (λ _ t. At true v vs t × Refused)
            ((on_error f (
                  on_agent (λ (_ : W × Log).
                    note (λ _. deleted s.device_handle ∷ s.world.1) r w s.world.1))
                >>= answered (recorded agent) volume_context what (set_handle []))
              s)
    unfolding devices volumes str_eq
    delete-Ends v f what (ok (some _)) w s a x = record {
      handle_test = refl;
      volume_is = a.volume_is;
      devices_are = ap (remove s.device_handle) a.devices_are ∙ remove-named s.device_handle;
      volumes_are = a.volumes_are;
    }
    delete-Ends v f what (ok none) w s a x = absurd (not_none x)
    delete-Ends v f what (err e) w s a x = (
      record {
        handle_test = a.handle_test;
        volume_is = a.volume_is;
        devices_are = a.devices_are;
        volumes_are = a.volumes_are;
      },
      x,
    )
    delete-Ends v f what panic w s a x = tt

module _ {W : Type 0} (agent : Agent W) (volume_context : Map) (Refused : Type 0)
    (safe : Assumptions agent Refused) {vs : List Str} where
  -- `CreateDevice` names the new device, or changes nothing.
  pub create_device-Triple :
      (v : Option Str) (req : CreateDeviceRequest)
      → Triple
          (At false v vs)
          (create_device (recorded agent) volume_context req)
          (λ _ s. At true v vs s)
          (λ _ s. At false v vs s)
  unfolding create_device
  create_device-Triple v req = record {
    at = λ s a.
        create-Ends agent volume_context v _ (agent.create req s.world.0).0
          (agent.create req s.world.0).1 s a (safe.names_devices req s.world.0);
  }

  -- `DetachVolume` of the volume that is named.
  pub detach_volume-Triple :
      (v h : Str)
      → Triple
          (At true (some v) vs)
          (detach_volume
            (recorded agent)
            volume_context
            (record { volume_id = some v; device_handle = h }))
          (λ _ s. At true none (remove v vs) s)
          (λ _ s. At true (some v) vs s × Refused)
  unfolding detach_volume
  detach_volume-Triple v h = record {
    at = λ s a.
        let q : DetachVolumeRequest = record { volume_id = some v; device_handle = h } in
        detach-Ends agent volume_context Refused v _ _ (agent.detach q s.world.0).0
          (agent.detach q s.world.0).1 s a (safe.detaches q s.world.0);
  }

  -- `DeleteDevice` of the device that is named.
  pub delete_device-Triple :
      (v : Option Str)
      → Triple
          (At true v vs)
          (λ s. delete_device (recorded agent) volume_context s.device_handle s)
          (λ _ s. At false v vs s)
          (λ _ s. At true v vs s × Refused)
  unfolding delete_device
  delete_device-Triple v = record {
    at = λ s a.
        delete-Ends agent volume_context Refused v _ _ (agent.delete s.device_handle s.world.0).0
          (agent.delete s.device_handle s.world.0).1 s a (safe.deletes s.device_handle s.world.0);
  }

module _ {W : Type 0} (agent : Agent W) (volume_context : Map) {vs : List Str} where
  -- `AttachVolume` of the volume that is named.
  pub attach_volume-Triple :
      (v : Str)
      → Triple
          (At true (some v) vs)
          (λ s.
            attach_volume
              (recorded agent)
              volume_context
              (attach_request (recorded agent) volume_context s)
              s)
          (λ _ s. At true (some v) (v ∷ vs) s)
          (λ _ s. At true (some v) vs s)
  unfolding attach_volume
  attach_volume-Triple v = record {
    at = λ s a.
        let q : AttachVolumeRequest = attach_request (recorded agent) volume_context s in
        attach-Ends agent volume_context v s.volume_id _ _ (agent.attach q s.world.0).0
          (agent.attach q s.world.0).1 s a.volume_is a;
  }
