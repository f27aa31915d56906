-- ===== src/Backend/Opi/NvmeSteps.antt =====
-- The steps of `opiInitiatorNvme` on the record of its objects.
use spdk_csi.Prelude.{◌≡◌, refl, Bool, true, []}
use spdk_csi.Text.{Str}
use spdk_csi.Text.Decimal.{Parsed, number, syntax, range}
use spdk_csi.Effect.Keeps.{Keeps}
use spdk_csi.Effect.Triple.{
  Triple, Triple-bind, Triple-raise, Triple-same, Triple-Keeps, Triple-on_error,
}
use spdk_csi.Target.Nvmf.{Map}
use spdk_csi.Node.Xpu.{PciEndpoint}
use spdk_csi.Backend.Opi.{
  Kind, remote_controller, path, subsystem, controller, namespace, virtio_blk, Services, OpiCommon,
  set_remote_controller_name, set_path_name, create_nvme_remote_controller, create_nvmf_path,
  create_path_at, create_remote_controller, create_path, create_subsystem, create_controller,
  create_namespace,
}
use spdk_csi.Backend.Opi.Ledger.{at_kinds, Log, recorded, Assumptions, View, with, without}
use spdk_csi.Backend.Opi.Steps.{Field, Stage, Stage-Noted, nothing}
use spdk_csi.Backend.Opi.Moves.{keep_name-Triple}
use spdk_csi.Backend.Opi.Requests.{Part, set_part, zoom-keep_name, Beside, create_at}
use spdk_csi.Backend.Opi.Nvme.{
  OpiNvme, on_common, request, set_subsystem_name, set_namespace_name, set_controller_name,
  create_nvme_subsystem, create_nvme_controller, create_nvme_namespace,
}

module _ {W : Type 0} where
  abbrev pub name_of : OpiNvme W → Kind → Str
  name_of s remote_controller = s.common.remote_controller_name
  name_of s path = s.common.path_name
  name_of s subsystem = s.subsystem_name
  name_of s controller = s.controller_name
  name_of s namespace = s.namespace_name
  name_of s virtio_blk = []

  abbrev pub common_part : Part (OpiNvme W) (OpiCommon W)
  common_part = record {
    read = λ s. s.common;
    write = λ c s. record s { common = c };
    read-write = λ c s. refl;
    write-read = λ s. refl;
    write-write = λ c d s. refl;
  }

  abbrev pub world_part : Part (OpiNvme W) W
  world_part = record {
    read = λ s. s.common.world;
    write = λ w s. record s { common = record s.common { world = w } };
    read-write = λ c s. refl;
    write-read = λ s. refl;
    write-write = λ c d s. refl;
  }

module _ {W : Type 0} where
  abbrev pub view : View (OpiNvme (W × Log))
  view = record { name = name_of; log = λ s. s.common.world.1 }

  pub beside : Beside view world_part
  beside = record { log_at = λ s. refl; names_at = λ c s. at_kinds _ refl refl refl refl refl refl }

  pub subsystem-Field : Field view subsystem set_subsystem_name
  subsystem-Field = record {
    name_set = λ n s. at_kinds _ refl refl refl refl refl refl;
    log_set = λ n s. refl;
  }

  pub controller-Field : Field view controller set_controller_name
  controller-Field = record {
    name_set = λ n s. at_kinds _ refl refl refl refl refl refl;
    log_set = λ n s. refl;
  }

  pub namespace-Field : Field view namespace set_namespace_name
  namespace-Field = record {
    name_set = λ n s. at_kinds _ refl refl refl refl refl refl;
    log_set = λ n s. refl;
  }

  pub remote_controller-Field :
      Field view remote_controller (set_part common_part set_remote_controller_name)
  remote_controller-Field = record {
    name_set = λ n s. at_kinds _ refl refl refl refl refl refl;
    log_set = λ n s. refl;
  }

  pub path-Field : Field view path (set_part common_part set_path_name)
  path-Field = record {
    name_set = λ n s. at_kinds _ refl refl refl refl refl refl;
    log_set = λ n s. refl;
  }

module _ {W : Type 0} where
  -- One more kind has its object.
  abbrev pub Grown : (Kind → Bool) → (Kind → Bool) → Kind → OpiNvme (W × Log) → Type 0
  Grown f g k = Stage view (without k f) (with k g)

  -- One more kind has none.
  abbrev pub Shrunk : (Kind → Bool) → Kind → OpiNvme (W × Log) → Type 0
  Shrunk f k = Stage view (with k f) nothing

module _ {W : Type 0} (services : Services W) (volume_context : Map) (Refused : Type 0)
    (safe : Assumptions services Refused) {f g : Kind → Bool} where
  pub create_subsystem-Triple :
      f subsystem ≡ true
      → Triple
          (Stage view f g)
          (create_nvme_subsystem (recorded services) volume_context)
          (λ _ s. Grown f g subsystem s)
          (λ _ s. Stage view f g s)
  unfolding create_nvme_subsystem
  create_subsystem-Triple h =
      keep_name-Triple view subsystem set_subsystem_name subsystem-Field _ _
        (record {
          at = create_at view world_part beside services Refused safe (create_subsystem _ _);
        })
        h

  pub create_controller-Triple :
      (pe : PciEndpoint)
      → f controller ≡ true
      → Triple
          (Stage view f g)
          (create_nvme_controller (recorded services) volume_context pe)
          (λ _ s. Grown f g controller s)
          (λ _ s. Stage view f g s)
  unfolding create_nvme_controller
  create_controller-Triple pe h =
      keep_name-Triple view controller set_controller_name controller-Field _ _
        (record {
          at = λ s.
              create_at view world_part beside services Refused safe (create_controller _ _ _) s;
        })
        h

  pub create_remote_controller-Triple :
      f remote_controller ≡ true
      → Triple
          (Stage view f g)
          (on_common (create_nvme_remote_controller (recorded services) volume_context))
          (λ _ s. Grown f g remote_controller s)
          (λ _ s. Stage view f g s)
  unfolding create_nvme_remote_controller
  create_remote_controller-Triple h = Triple-same _ _ (zoom-keep_name common_part _ _ _) (
      keep_name-Triple view remote_controller _ remote_controller-Field _ _
        (record {
          at = λ s.
              create_at view world_part beside services Refused safe (create_remote_controller _) s;
        })
        h)

  create_path_at-Triple :
      (port : Parsed)
      → f path ≡ true
      → Triple
          (Stage view f g)
          (on_common (create_path_at (recorded services) volume_context port))
          (λ _ s. Grown f g path s)
          (λ _ s. Stage view f g s)
  create_path_at-Triple syntax h = Triple-raise _ (λ s x. x)
  create_path_at-Triple range h = Triple-raise _ (λ s x. x)
  create_path_at-Triple (number port) h = Triple-same _ _ (zoom-keep_name common_part _ _ _) (
      keep_name-Triple view path _ path-Field _ _
        (record {
          at = λ s. create_at view world_part beside services Refused safe (create_path _ _) s;
        })
        h)

  pub create_path-Triple :
      f path ≡ true
      → Triple
          (Stage view f g)
          (on_common (create_nvmf_path (recorded services) volume_context))
          (λ _ s. Grown f g path s)
          (λ _ s. Stage view f g s)
  unfolding create_nvmf_path
  create_path-Triple = create_path_at-Triple _

  random-Keeps : Keeps (Stage view f g) (request ((recorded services).random_below 32))
  random-Keeps = record {
    at = λ s h.
        Stage-Noted view h
          (record { log_is = refl; names_stay = at_kinds _ refl refl refl refl refl refl });
  }

  pub create_namespace-Triple :
      f namespace ≡ true
      → Triple
          (Stage view f g)
          (create_nvme_namespace (recorded services) volume_context)
          (λ _ s. Grown f g namespace s)
          (λ _ s. Stage view f g s)
  unfolding create_nvme_namespace
  create_namespace-Triple h =
      Triple-bind {R = λ _ s. Stage view f g s} _ _
        (Triple-on_error _ _ (Triple-Keeps _ random-Keeps))
        λ nsid.
          keep_name-Triple view namespace set_namespace_name namespace-Field _ _
            (record {
              at = λ s.
                  create_at view world_part beside services Refused safe (create_namespace _ _ _ _)
                    s;
            })
            h
