-- ===== src/Backend/Sma/Ledger.antt =====
-- The devices and the attached volumes of an agent, by a record of the requests that went through.
-- A creation or an attachment that fails is taken to leave nothing behind.
use spdk_csi.Prelude.{◌≡◌, ◌≢◌, Bool, true, false, not, Option, none, some, List, [], ◌∷◌}
use spdk_csi.Text.{Str, str_eq}
use spdk_csi.Effect.{Outcome, ok, err, panic}
use spdk_csi.Effect.Triple.{Ends}
use spdk_csi.Backend.Opi.Ledger.{remove, named}
use spdk_csi.Backend.Sma.{CreateDeviceRequest, DetachVolumeRequest, Agent, SmaCommon}

pub data Entry : Type 0 where
  created deleted : (handle : Str) → Entry
  attached detached : (volume : Option Str) → Entry

abbrev pub Log : Type 0
Log = List Entry

unfoldable pub devices : Log → List Str
devices [] = []
devices (created h ∷ l) = h ∷ devices l
devices (deleted h ∷ l) = remove h (devices l)
devices (_ ∷ l) = devices l

-- The volumes; nil is no volume.
unfoldable pub volumes : Log → List Str
volumes [] = []
volumes (attached (some v) ∷ l) = v ∷ volumes l
volumes (detached (some v) ∷ l) = remove v (volumes l)
volumes (_ ∷ l) = volumes l

module _ {W A : Type 0} where
  -- A response is noted, an error is not.
  abbrev pub note : (A → Log) → Outcome (Option A) → W → Log → Outcome (Option A) × (W × Log)
  note entry (ok (some a)) w l = (ok (some a), (w, entry a))
  note entry (ok none) w l = (ok none, (w, l))
  note entry (err e) w l = (err e, (w, l))
  note entry panic w l = (panic, (w, l))

module _ {W : Type 0} where
  abbrev pub recorded : Agent W → Agent (W × Log)
  recorded a = record {
    create = λ q (w, l). let (r, w') = a.create q w in note (λ h. created h ∷ l) r w' l;
    attach = λ q (w, l).
        let (r, w') = a.attach q w in note (λ _. attached q.volume.volume_id ∷ l) r w' l;
    detach = λ q (w, l). let (r, w') = a.detach q w in note (λ _. detached q.volume_id ∷ l) r w' l;
    delete = λ h (w, l). let (r, w') = a.delete h w in note (λ _. deleted h ∷ l) r w' l;
  }

-- What is relied on: every device has a handle, and a removal fails only when `Refused` holds.
pub record Assumptions {W : Type 0} (agent : Agent W) (Refused : Type 0) : Type 0 where
  pub names_devices :
      (q : CreateDeviceRequest) (w : W)
      → Ends (λ r _. (h : Str) × (r ≡ some h) × (h ≢ [])) (λ _ _. Unit) (agent.create q w)
  pub detaches :
      (q : DetachVolumeRequest) (w : W)
      → Ends (λ r _. r ≡ some tt) (λ _ _. Refused) (agent.detach q w)
  pub deletes : (h : Str) (w : W) → Ends (λ r _. r ≡ some tt) (λ _ _. Refused) (agent.delete h w)

module _ {W : Type 0} where
  -- Whether the object names a device, the volume that it names, and the volumes that are attached.
  -- The agent has the device that is named and no other.
  pub record At (made : Bool) (volume : Option Str) (vs : List Str) (s : SmaCommon (W × Log))
      : Type 0 where
    pub handle_test : str_eq s.device_handle [] ≡ not made
    pub volume_is : s.volume_id ≡ volume
    pub devices_are : devices s.world.1 ≡ named s.device_handle
    pub volumes_are : volumes s.world.1 ≡ vs

  abbrev pub Fresh : SmaCommon (W × Log) → Type 0
  Fresh s = (v : Str) × At false (some v) [] s

  abbrev pub Up : SmaCommon (W × Log) → Type 0
  Up s = (v : Str) × At true (some v) (v ∷ []) s

  abbrev pub Gone : SmaCommon (W × Log) → Type 0
  Gone s = (v : Option Str) × At false v [] s

  -- A device with no volume, which is how a virtio-blk device is made.
  abbrev pub Bare : SmaCommon (W × Log) → Type 0
  Bare s = (v : Option Str) × At true v [] s

  -- What a call may leave behind.
  pub data Held (s : SmaCommon (W × Log)) : Type 0 where
    none_left : Gone s → Held s
    device_left : Bare s → Held s
    volume_left : Up s → Held s
