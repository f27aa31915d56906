-- ===== src/Tests/Backends.antt =====
-- The properties of the xPU backends at concrete inputs.
use spdk_csi.Prelude.{◌≢◌, refl, some, [], ◌∷◌}
use spdk_csi.Text.{Str, str}
use spdk_csi.Effect.{message, Exec, pure, raise}
use spdk_csi.Effect.Triple.{Ends}
use spdk_csi.Target.Nvmf.{Map}
use spdk_csi.Node.Xpu.{ConnectParams}
use spdk_csi.Backend.Sma.{connect_virtio_blk}
use spdk_csi.Effect.Triple.{Triple}
use spdk_csi.Backend.Contract.{Contract}
use spdk_csi.Backend.Opi.{CreateRequest, create_path, Services}
use spdk_csi.Backend.Opi.Nvme.{opi_initiator_nvme}
use spdk_csi.Backend.Opi.VirtioBlk.{opi_initiator_virtio_blk}
use spdk_csi.Backend.Opi.Ledger
use spdk_csi.Backend.Opi.NvmeContract.{nvme_stages, opi_initiator_nvme-Contract}
use spdk_csi.Backend.Opi.VirtioBlkContract.{virtio_blk_stages, opi_initiator_virtio_blk-Contract}
use spdk_csi.Backend.Sma.{
  Agent, sma_initiator_nvmf_tcp, sma_initiator_nvme, sma_initiator_virtio_blk,
}
use spdk_csi.Backend.Sma.Ledger as Sma
use spdk_csi.Backend.Sma.Contract.{attaching_stages, sma_initiators-Contract}
use spdk_csi.Backend.Sma.VirtioBlk.{bare_stages, sma_initiator_virtio_blk-Contract}

abbrev pub volume : Map
volume = ("model", str "m1") ∷ ("targetPort", str "4420") ∷ []

-- A bridge that refuses paths, and deletes what it is asked to.
abbrev refuse_paths : CreateRequest → Exec (Unit {0}) Str
refuse_paths (create_path p id) = raise (message (str "no such target"))
refuse_paths _ = pure (b'o' ∷ [])

abbrev bridge : Services (Unit {0})
bridge = record { create = refuse_paths; delete = λ q. pure tt; random_below = λ n. pure 7 }

bridge_safe : Ledger.Assumptions bridge ⊥
bridge_safe = record { names_objects = names; deletes = λ q w. tt }
  where
    names :
        (q : CreateRequest) (w : Unit {0}) → Ends (λ n _. n ≢ []) (λ _ _. Unit) (refuse_paths q w)
    names (create_path p id) w = tt
    names (CreateRequest.create_remote_controller id) w = λ e. cc
    names (CreateRequest.create_subsystem n id) w = λ e. cc
    names (CreateRequest.create_controller s f id) w = λ e. cc
    names (CreateRequest.create_namespace s n v id) w = λ e. cc
    names (CreateRequest.create_virtio_blk_device f v id) w = λ e. cc

opi_initiator_nvme-Contract_example :
    Contract (nvme_stages (Unit {0}) ⊥) (opi_initiator_nvme (Ledger.recorded bridge) volume)
opi_initiator_nvme-Contract_example = opi_initiator_nvme-Contract bridge volume ⊥ bridge_safe

opi_initiator_virtio_blk-Contract_example :
    Contract
      (virtio_blk_stages (Unit {0}) ⊥)
      (opi_initiator_virtio_blk (Ledger.recorded bridge) volume)
opi_initiator_virtio_blk-Contract_example =
    opi_initiator_virtio_blk-Contract bridge volume ⊥ bridge_safe

-- An agent that makes devices and attaches nothing.
abbrev pub agent : Agent (Unit {0})
agent = record {
  create = λ q. pure (some (b'd' ∷ []));
  attach = λ q. raise (message (str "no volume"));
  detach = λ q. pure (some tt);
  delete = λ h. pure (some tt);
}

pub agent_safe : Sma.Assumptions agent ⊥
agent_safe = record {
  names_devices = λ q w. (b'd' ∷ [], refl, λ e. cc);
  detaches = λ q w. refl;
  deletes = λ h w. refl;
}

sma_initiators-Contract_example :
    Contract (attaching_stages (Unit {0}) ⊥) (sma_initiator_nvmf_tcp (Sma.recorded agent) volume)
    × Contract (attaching_stages (Unit {0}) ⊥) (sma_initiator_nvme (Sma.recorded agent) volume)
sma_initiators-Contract_example = sma_initiators-Contract agent volume ⊥ agent_safe

sma_initiator_virtio_blk-Contract_example :
    Contract (bare_stages (Unit {0}) ⊥) (sma_initiator_virtio_blk (Sma.recorded agent) volume)
    × ((p : ConnectParams)
        → Triple Sma.Gone
            (connect_virtio_blk (Sma.recorded agent) volume p)
            (λ _ s. Sma.Bare s)
            (λ _ s. Sma.Gone s))
sma_initiator_virtio_blk-Contract_example =
    sma_initiator_virtio_blk-Contract agent volume ⊥ agent_safe
