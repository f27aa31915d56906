-- ===== src/Tests/Composed.antt =====
-- The xPU initiator over a backend at concrete inputs.
use spdk_csi.Prelude.{◌⊎◌, refl}
use spdk_csi.Text.{str, str_eq}
use spdk_csi.Effect.{message, pure, raise, good, bad}
use spdk_csi.Effect.Triple.{Triple}
use spdk_csi.Node.Host.{done, Host, act}
use spdk_csi.Node.Xpu.{
  is_kvm, connect_nvmf_tcp, connect_virtio_blk, connect_new_nvme, XpuInitiator, Sysfs,
}
use spdk_csi.Node.Xpu.Lifecycle.{disconnect}
use spdk_csi.Node.Xpu.Released.{disconnect-Releases}
use spdk_csi.Node.Xpu.Composed.{Apart, Undone, connect-Undone}
use spdk_csi.Backend.Sma.{SmaCommon, sma_initiator_nvme}
use spdk_csi.Backend.Sma.Ledger as Sma
use spdk_csi.Backend.Sma.Contract.{attaching_stages, sma_initiators-Contract}
use spdk_csi.Tests.Backends.{volume, agent, agent_safe}
use spdk_csi.Tests.Contexts.{xpu, codec}

-- A machine and lookups that find nothing and touch no object.
abbrev still : Host (SmaCommon (Unit {0} × Sma.Log))
still = record { perform = λ op s. (good done, s); join = λ a b. a }

abbrev blind : Sysfs (SmaCommon (Unit {0} × Sma.Log))
blind = record {
  get_available_functions = λ c. raise (message (str "none"));
  check_if_nvme_device_exists = λ m. pure (bad (message (str "none")));
  get_nvme_device_name = λ m b. raise (message (str "none"));
  get_virtio_blk_device_name = λ b. raise (message (str "none"));
}

still_apart : (P : SmaCommon (Unit {0} × Sma.Log) → Type 0) → Apart still blind P
unfolding act
still_apart P = record {
  of_calls = λ op. record { at = λ s h. h };
  of_functions = λ c. record { at = λ s h. h };
  of_nvme = λ m b. record { at = λ s h. h };
  of_virtio = λ b. record { at = λ s h. h };
}

abbrev over_agent : XpuInitiator (SmaCommon (Unit {0} × Sma.Log))
over_agent = sma_initiator_nvme (Sma.recorded agent) volume

connect-Undone_example :
    Triple
      (λ s. Sma.Fresh s.world)
      (connect_nvmf_tcp still blind over_agent xpu)
      (λ _ s. Sma.Up s.world)
      (λ _ s. Undone (attaching_stages (Unit {0}) ⊥) s.world)
    × Triple
        (λ s. Sma.Fresh s.world)
        (connect_virtio_blk still blind over_agent xpu)
        (λ _ s. Sma.Up s.world)
        (λ _ s. Undone (attaching_stages (Unit {0}) ⊥) s.world)
    × Triple
        (λ s. Sma.Fresh s.world)
        (connect_new_nvme still blind over_agent xpu)
        (λ _ s. Sma.Up s.world)
        (λ _ s. Undone (attaching_stages (Unit {0}) ⊥) s.world)
unfolding is_kvm str str_eq
connect-Undone_example =
    connect-Undone still blind (attaching_stages (Unit {0}) ⊥) over_agent
      (sma_initiators-Contract agent volume ⊥ agent_safe).1 xpu (still_apart Sma.Up) refl
      (still_apart Sma.Fresh)

disconnect-Releases_example :
    Triple
      (λ s. Sma.Held s.world)
      (disconnect still codec blind over_agent xpu)
      (λ _ s. Sma.Gone s.world)
      (λ _ s. Sma.Held s.world ⊎ Sma.Gone s.world)
disconnect-Releases_example =
    disconnect-Releases still codec blind (attaching_stages (Unit {0}) ⊥) over_agent
      (sma_initiators-Contract agent volume ⊥ agent_safe).1 xpu (still_apart Sma.Held).of_calls
      (still_apart Sma.Gone).of_calls
