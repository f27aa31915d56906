-- ===== src/Backend/Opi/Nvme.antt =====
-- `opiInitiatorNvme` of pkg/util/opiinitiator.go.
use spdk_csi.Prelude.{[], ◌++◌}
use spdk_csi.Text.{Str, str}
use spdk_csi.Text.Decimal.{format_nat}
use spdk_csi.Effect.{
  wrapped, Exec, pure, raise, zoom, attempt, ignore, on_error, ◌>>=◌, ◌>>◌, good, bad,
}
use spdk_csi.Target.Nvmf.{Map}
use spdk_csi.Controller.Message.{put}
use spdk_csi.Node.Xpu.{PciEndpoint, ConnectParams, XpuInitiator}
use spdk_csi.Backend.Opi.{
  subsystem, controller, namespace, create_subsystem, create_controller, create_namespace, Services,
  Function, OpiCommon, opi_subsystem_nqn_pref, to_int32, keep_name, drop_name, on_service,
  delete_request, model_of, object_id, create_nvme_remote_controller, delete_nvme_remote_controller,
  create_nvmf_path, delete_nvmf_path,
}

pub record OpiNvme (W : Type 0) : Type 0 where
  pub common : OpiCommon W
  pub subsystem_name : Str
  pub namespace_name : Str
  pub controller_name : Str

module _ {W A : Type 0} where
  abbrev pub on_common : Exec (OpiCommon W) A → Exec (OpiNvme W) A
  on_common = zoom (λ s. s.common) (λ c s. record s { common = c })

  abbrev pub request : Exec W A → Exec (OpiNvme W) A
  request m = on_common (on_service m)

module _ {W : Type 0} where
  abbrev pub set_subsystem_name : Str → OpiNvme W → OpiNvme W
  set_subsystem_name n s = record s { subsystem_name = n }

  abbrev pub set_namespace_name : Str → OpiNvme W → OpiNvme W
  set_namespace_name n s = record s { namespace_name = n }

  abbrev pub set_controller_name : Str → OpiNvme W → OpiNvme W
  set_controller_name n s = record s { controller_name = n }

  unfoldable pub nvme_param : OpiNvme W → Map
  nvme_param s =
      put
        (put
          (put
            (put (put [] "nvmfRemoteControllerName" s.common.remote_controller_name) "nvmfPathName"
              s.common.path_name)
            "subsystemName" s.subsystem_name)
          "namespaceName" s.namespace_name)
        "nvmeControllerName" s.controller_name

-- `physID (%d) and virtID (%d)`
abbrev pub ids_text : PciEndpoint → Str
ids_text pe =
    str "physID ("
    ++ (format_nat pe.pf_id ++ (str ") and virtID (" ++ (format_nat pe.vf_id ++ str ")")))

abbrev pub function_at : PciEndpoint → Function
function_at pe = record {
  physical_function = to_int32 pe.pf_id;
  virtual_function = to_int32 pe.vf_id;
}

module _ {W : Type 0} (services : Services W) (volume_context : Map) where
  abbrev model : Str
  model = model_of services volume_context

  abbrev id : Str
  id = object_id services volume_context

  unfoldable pub create_nvme_subsystem : Exec (OpiNvme W) Unit
  create_nvme_subsystem =
      keep_name (wrapped (str "failed to create NVMe subsystem for '" ++ (id ++ str "'")))
        (request (services.create (create_subsystem (opi_subsystem_nqn_pref ++ model) id)))
        set_subsystem_name

  unfoldable pub delete_nvme_subsystem : Exec (OpiNvme W) Unit
  delete_nvme_subsystem s =
      drop_name (wrapped (str "failed to delete NVMe subsystem '" ++ (s.subsystem_name ++ str "'")))
        (λ t. t.subsystem_name) (λ n. request (services.delete (delete_request subsystem n)))
        (set_subsystem_name []) s

  unfoldable pub create_nvme_controller : PciEndpoint → Exec (OpiNvme W) Unit
  create_nvme_controller pe =
      keep_name
        (wrapped (str "failed to create NVMe controller with " ++ (ids_text pe ++ str " error")))
        (λ s. request (services.create (create_controller s.subsystem_name (function_at pe) id)) s)
        set_controller_name

  unfoldable pub delete_nvme_controller : Exec (OpiNvme W) Unit
  delete_nvme_controller =
      drop_name (λ e. e) (λ s. s.controller_name)
        (λ n. request (services.delete (delete_request controller n))) (set_controller_name [])

  unfoldable pub create_nvme_namespace : Exec (OpiNvme W) Unit
  create_nvme_namespace = do
    nsid ←
        on_error (wrapped (str "failed to generate random number"))
          (request (services.random_below 32))
    keep_name (λ e. e)
        (λ s. request (services.create (create_namespace s.subsystem_name nsid model id)) s)
        set_namespace_name

  unfoldable pub delete_nvme_namespace : Exec (OpiNvme W) Unit
  delete_nvme_namespace =
      drop_name (λ e. e) (λ s. s.namespace_name)
        (λ n. request (services.delete (delete_request namespace n))) (set_namespace_name [])

  unfoldable pub cleanup : Exec (OpiNvme W) Unit
  cleanup = do
    delete_nvme_namespace
    on_common (delete_nvmf_path services volume_context)
    on_common (delete_nvme_remote_controller services volume_context)
    delete_nvme_controller
    delete_nvme_subsystem

  -- The steps that the deferred clean-up covers.
  abbrev pub later_steps : ConnectParams → Exec (OpiNvme W) Unit
  later_steps params = do
    create_nvme_controller params.pci_endpoint
    on_common (create_nvme_remote_controller services volume_context)
    on_common (create_nvmf_path services volume_context)
    create_nvme_namespace

  unfoldable pub connect : ConnectParams → Exec (OpiNvme W) Unit
  connect params = do
    create_nvme_subsystem
    r ← attempt (later_steps params)
    elim r [ good _ ↦ pure tt | bad e ↦ do ignore cleanup; raise e ]

  unfoldable pub disconnect : Exec (OpiNvme W) Unit
  disconnect = cleanup

  abbrev pub opi_initiator_nvme : XpuInitiator (OpiNvme W)
  opi_initiator_nvme = record {
    connect = connect;
    disconnect = disconnect;
    get_param = λ s. pure (nvme_param s) s;
  }
