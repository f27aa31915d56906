-- ===== src/Backend/Opi/VirtioBlkSteps.antt =====
-- The steps of `opiInitiatorVirtioBlk` on the record of its objects.
use spdk_csi.Prelude.{◌≡◌, refl, Bool, true, []}
use spdk_csi.Text.{Str}
use spdk_csi.Text.Decimal.{Parsed, number, syntax, range}
use spdk_csi.Effect.Triple.{Triple, Triple-raise, Triple-same}
use spdk_csi.Target.Nvmf.{Map}
use spdk_csi.Node.Xpu.{PciEndpoint}
use spdk_csi.Backend.Opi.{
  on_service, Kind, remote_controller, path, virtio_blk, Services, OpiCommon,
  set_remote_controller_name, set_path_name, create_nvme_remote_controller,
  delete_nvme_remote_controller, create_nvmf_path, delete_nvmf_path, create_path_at,
  create_remote_controller, create_path, delete_request, create_virtio_blk_device,
}
use spdk_csi.Backend.Opi.Ledger.{at_kinds, Log, recorded, Assumptions, View, with, without}
use spdk_csi.Backend.Opi.Steps.{Field, Stage, nothing}
use spdk_csi.Backend.Opi.Moves.{keep_name-Triple, drop_name-Triple}
use spdk_csi.Backend.Opi.Requests.{
  Part, set_part, zoom-keep_name, zoom-drop_name, Beside, create_at, delete_at,
}
use spdk_csi.Backend.Opi.VirtioBlk.{
  OpiVirtioBlk, on_common, set_virtio_blk_name, create_virtio_blk, delete_virtio_blk,
}

module _ {W : Type 0} where
  abbrev pub name_of : OpiVirtioBlk W → Kind → Str
  name_of s remote_controller = s.common.remote_controller_name
  name_of s path = s.common.path_name
  name_of s virtio_blk = s.virtio_blk_name
  name_of s _ = []

  abbrev common_part : Part (OpiVirtioBlk W) (OpiCommon W)
  common_part = record {
    read = λ s. s.common;
    write = λ c s. record s { common = c };
    read-write = λ c s. refl;
    write-read = λ s. refl;
    write-write = λ c d s. refl;
  }

  abbrev world_part : Part (OpiVirtioBlk W) W
  world_part = record {
    read = λ s. s.common.world;
    write = λ w s. record s { common = record s.common { world = w } };
    read-write = λ c s. refl;
    write-read = λ s. refl;
    write-write = λ c d s. refl;
  }

module _ {W : Type 0} where
  abbrev pub view : View (OpiVirtioBlk (W × Log))
  view = record { name = name_of; log = λ s. s.common.world.1 }

  beside : Beside view world_part
  beside = record { log_at = λ s. refl; names_at = λ c s. at_kinds _ refl refl refl refl refl refl }

  virtio_blk-Field : Field view virtio_blk set_virtio_blk_name
  virtio_blk-Field = record {
    name_set = λ n s. at_kinds _ refl refl refl refl refl refl;
    log_set = λ n s. refl;
  }

  remote_controller-Field :
      Field view remote_controller (set_part common_part set_remote_controller_name)
  remote_controller-Field = record {
    name_set = λ n s. at_kinds _ refl refl refl refl refl refl;
    log_set = λ n s. refl;
  }

  path-Field : Field view path (set_part common_part set_path_name)
  path-Field = record {
    name_set = λ n s. at_kinds _ refl refl refl refl refl refl;
    log_set = λ n s. refl;
  }

module _ {W : Type 0} where
  -- One more kind has its object.
  abbrev pub Grown : (Kind → Bool) → (Kind → Bool) → Kind → OpiVirtioBlk (W × Log) → Type 0
  Grown f g k = Stage view (without k f) (with k g)

  -- One more kind has none.
  abbrev pub Shrunk : (Kind → Bool) → Kind → OpiVirtioBlk (W × Log) → Type 0
  Shrunk f k = Stage view (with k f) nothing

module _ {W : Type 0} (services : Services W) (volume_context : Map) (Refused : Type 0)
    (safe : Assumptions services Refused) {f g : Kind → Bool} where
  pub create_virtio_blk-Triple :
      (pe : PciEndpoint)
      → f virtio_blk ≡ true
      → Triple
          (Stage view f g)
          (create_virtio_blk (recorded services) volume_context pe)
          (λ _ s. Grown f g virtio_blk s)
          (λ _ s. Stage view f g s)
  unfolding create_virtio_blk
  create_virtio_blk-Triple pe h =
      keep_name-Triple view virtio_blk set_virtio_blk_name virtio_blk-Field _ _
        (record {
          at =
              create_at view world_part beside services Refused safe
                (create_virtio_blk_device _ _ _);
        })
        h

  pub create_remote_controller-Triple :
      f remote_controller ≡ true
      → Triple
          (Stage view f g)
          (on_common (create_nvme_remote_controller (recorded services) volume_context))
          (λ _ s. Grown f g remote_controller s)
          (λ _ s. Stage view f g s)
  unfolding create_nvme_remote_controller
  create_remote_controller-Triple h = Triple-same _ _ (zoom-keep_name common_part _ _ _) (
      keep_name-Triple view remote_controller _ remote_controller-Field _ _
        (record {
          at = λ s.
              create_at view world_part beside services Refused safe (create_remote_controller _) s;
        })
        h)

  create_path_at-Triple :
      (port : Parsed)
      → f path ≡ true
      → Triple
          (Stage view f g)
          (on_common (create_path_at (recorded services) volume_context port))
          (λ _ s. Grown f g path s)
          (λ _ s. Stage view f g s)
  create_path_at-Triple syntax h = Triple-raise _ (λ s x. x)
  create_path_at-Triple range h = Triple-raise _ (λ s x. x)
  create_path_at-Triple (number port) h = Triple-same _ _ (zoom-keep_name common_part _ _ _) (
      keep_name-Triple view path _ path-Field _ _
        (record {
          at = λ s. create_at view world_part beside services Refused safe (create_path _ _) s;
        })
        h)

  pub create_path-Triple :
      f path ≡ true
      → Triple
          (Stage view f g)
          (on_common (create_nvmf_path (recorded services) volume_context))
          (λ _ s. Grown f g path s)
          (λ _ s. Stage view f g s)
  unfolding create_nvmf_path
  create_path-Triple = create_path_at-Triple _

module _ {W : Type 0} (services : Services W) (volume_context : Map) (Refused : Type 0)
    (safe : Assumptions services Refused) {f : Kind → Bool} where
  pub delete_virtio_blk-Triple :
      Triple
        (Stage view f nothing)
        (delete_virtio_blk (recorded services) volume_context)
        (λ _ s. Shrunk f virtio_blk s)
        (λ _ s. Stage view f nothing s × Refused)
  unfolding delete_virtio_blk
  delete_virtio_blk-Triple =
      drop_name-Triple view virtio_blk set_virtio_blk_name virtio_blk-Field _ Refused _ (record {
        at = λ n.
            delete_at view world_part beside services Refused safe (delete_request virtio_blk n);
      })

  pub delete_path-Triple :
      Triple
        (Stage view f nothing)
        (on_common (delete_nvmf_path (recorded services) volume_context))
        (λ _ s. Shrunk f path s)
        (λ _ s. Stage view f nothing s × Refused)
  unfolding delete_nvmf_path
  delete_path-Triple =
      Triple-same _ _
        (zoom-drop_name common_part (λ e. e) (λ c. c.path_name)
          (λ n. on_service ((recorded services).delete (delete_request path n))) set_path_name)
        (drop_name-Triple view path _ path-Field (λ e. e) Refused _
          (record {
            at =
                λ n. delete_at view world_part beside services Refused safe (delete_request path n);
          }))

  pub delete_remote_controller-Triple :
      Triple
        (Stage view f nothing)
        (on_common (delete_nvme_remote_controller (recorded services) volume_context))
        (λ _ s. Shrunk f remote_controller s)
        (λ _ s. Stage view f nothing s × Refused)
  unfolding delete_nvme_remote_controller
  delete_remote_controller-Triple =
      Triple-same _ _
        (zoom-drop_name common_part (λ e. e) (λ c. c.remote_controller_name)
          (λ n. on_service ((recorded services).delete (delete_request remote_controller n)))
          set_remote_controller_name)
        (drop_name-Triple view remote_controller _ remote_controller-Field (λ e. e) Refused _
          (record {
            at = λ n.
                delete_at view world_part beside services Refused safe
                  (delete_request remote_controller n);
          }))
