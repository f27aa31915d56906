-- ===== src/Backend/Opi/NvmeDeletions.antt =====
-- The deletions of `opiInitiatorNvme` on the record of its objects.
use spdk_csi.Prelude.{Bool}
use spdk_csi.Effect.Triple.{Triple, Triple-same}
use spdk_csi.Target.Nvmf.{Map}
use spdk_csi.Backend.Opi.{
  on_service, Kind, remote_controller, path, subsystem, controller, namespace, Services,
  set_remote_controller_name, set_path_name, delete_nvme_remote_controller, delete_nvmf_path,
  delete_request,
}
use spdk_csi.Backend.Opi.Ledger.{recorded, Assumptions}
use spdk_csi.Backend.Opi.Steps.{Stage, nothing}
use spdk_csi.Backend.Opi.Moves.{drop_name-Triple}
use spdk_csi.Backend.Opi.Requests.{zoom-drop_name, delete_at}
use spdk_csi.Backend.Opi.Nvme.{
  on_common, set_subsystem_name, set_namespace_name, set_controller_name, delete_nvme_subsystem,
  delete_nvme_controller, delete_nvme_namespace,
}
use spdk_csi.Backend.Opi.NvmeSteps.{
  common_part, world_part, view, beside, subsystem-Field, controller-Field, namespace-Field,
  remote_controller-Field, path-Field, Shrunk,
}

module _ {W : Type 0} (services : Services W) (volume_context : Map) (Refused : Type 0)
    (safe : Assumptions services Refused) {f : Kind → Bool} where
  pub delete_namespace-Triple :
      Triple
        (Stage view f nothing)
        (delete_nvme_namespace (recorded services) volume_context)
        (λ _ s. Shrunk f namespace s)
        (λ _ s. Stage view f nothing s × Refused)
  unfolding delete_nvme_namespace
  delete_namespace-Triple =
      drop_name-Triple view namespace set_namespace_name namespace-Field _ Refused _ (record {
        at = λ n.
            delete_at view world_part beside services Refused safe (delete_request namespace n);
      })

  pub delete_controller-Triple :
      Triple
        (Stage view f nothing)
        (delete_nvme_controller (recorded services) volume_context)
        (λ _ s. Shrunk f controller s)
        (λ _ s. Stage view f nothing s × Refused)
  unfolding delete_nvme_controller
  delete_controller-Triple =
      drop_name-Triple view controller set_controller_name controller-Field _ Refused _ (record {
        at = λ n.
            delete_at view world_part beside services Refused safe (delete_request controller n);
      })

  pub delete_subsystem-Triple :
      Triple
        (Stage view f nothing)
        (delete_nvme_subsystem (recorded services) volume_context)
        (λ _ s. Shrunk f subsystem s)
        (λ _ s. Stage view f nothing s × Refused)
  unfolding delete_nvme_subsystem
  delete_subsystem-Triple = record {
    at = λ s h.
        (drop_name-Triple view subsystem set_subsystem_name subsystem-Field _ Refused _ (record {
          at = λ n.
              delete_at view world_part beside services Refused safe (delete_request subsystem n);
        })).at
          s h;
  }

  pub delete_path-Triple :
      Triple
        (Stage view f nothing)
        (on_common (delete_nvmf_path (recorded services) volume_context))
        (λ _ s. Shrunk f path s)
        (λ _ s. Stage view f nothing s × Refused)
  unfolding delete_nvmf_path
  delete_path-Triple =
      Triple-same _ _
        (zoom-drop_name common_part (λ e. e) (λ c. c.path_name)
          (λ n. on_service ((recorded services).delete (delete_request path n))) set_path_name)
        (drop_name-Triple view path _ path-Field (λ e. e) Refused _
          (record {
            at =
                λ n. delete_at view world_part beside services Refused safe (delete_request path n);
          }))

  pub delete_remote_controller-Triple :
      Triple
        (Stage view f nothing)
        (on_common (delete_nvme_remote_controller (recorded services) volume_context))
        (λ _ s. Shrunk f remote_controller s)
        (λ _ s. Stage view f nothing s × Refused)
  unfolding delete_nvme_remote_controller
  delete_remote_controller-Triple =
      Triple-same _ _
        (zoom-drop_name common_part (λ e. e) (λ c. c.remote_controller_name)
          (λ n. on_service ((recorded services).delete (delete_request remote_controller n)))
          set_remote_controller_name)
        (drop_name-Triple view remote_controller _ remote_controller-Field (λ e. e) Refused _
          (record {
            at = λ n.
                delete_at view world_part beside services Refused safe
                  (delete_request remote_controller n);
          }))
