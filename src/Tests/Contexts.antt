-- ===== src/Tests/Contexts.antt =====
-- The lookups in sysfs and the saved context of the xPU initiator at concrete inputs.
use spdk_csi.Prelude.{◌*◌, ◌≡◌, refl, none, List, [], ◌∷◌, inr, arith, if◌then◌else◌}
use spdk_csi.Text.{Str, str, str_eq}
use spdk_csi.Effect.{message, pure, raise, Result, good, ok}
use spdk_csi.Effect.Triple.{Ends}
use spdk_csi.Controller.Message.{get}
use spdk_csi.Node.Host.{Op, glob, read_file, write_file, Answer, done, paths, bytes, Host}
use spdk_csi.Node.Context.{Codec, object}
use spdk_csi.Node.RoundTrip.{texts}
use spdk_csi.Node.Xpu.{kvm_pci_bridge_ids, XpuInitiator, Sysfs, XpuState, Xpu}
use spdk_csi.Node.Xpu.Lifecycle.{xpu_context, save_xpu_context}
use spdk_csi.Node.Xpu.Creation.{opi, sma, new_backend, try_get_xpu_context}
use spdk_csi.Node.Xpu.Creation.RoundTrip.{fields_of, saved, save-restores}
use spdk_csi.Node.Xpu.Creation.Backends.{
  opi_type, nvme_fields, virtio_blk_fields, sma_fields, saved_with, from_agent,
  new_backend-restores,
}
use spdk_csi.Node.Sysfs.{slot_pattern, get_available_functions_kvm}
use spdk_csi.Node.Sysfs.{detect_nvme_device_name, uuid_paths}
use spdk_csi.Effect.{deadline_exceeded}
use spdk_csi.Node.Host.{traced}
use spdk_csi.Node.Sysfs.Detection.{reads, Distinct, IsNamed, detect_nvme_device_name_lem}
use spdk_csi.Node.Sysfs.Functions.{FirstFree, get_available_functions_kvm_lem}
use spdk_csi.Backend.Opi.Nvme.{OpiNvme, nvme_param}
use spdk_csi.Backend.Opi.VirtioBlk.{OpiVirtioBlk, virtio_blk_param}
use spdk_csi.Backend.Opi.Creation.{nvme_initiator, virtio_blk_initiator}
use spdk_csi.Backend.Sma.{SmaCommon, volume_uuid}
use spdk_csi.Backend.Sma.Creation.{SmaInitiator, nvmf_tcp_initiator}
use spdk_csi.Tests.Backends.{volume}

-- Slot 0 of the first bridge is taken, by an NVMe device.
abbrev tree : Str → List Str
tree pattern =
    if str_eq pattern (slot_pattern 1 0)
    then str "0000:01:00.0" ∷ []
    else if str_eq pattern uuid_paths
    then str "/sys/bus/pci/devices/0000:01:00.0/nvme/nvme0/nvme0c0n1/uuid" ∷ []
    else []

-- A machine with one file, which is what was written last, and those directories.
abbrev answer : Op → Str → Result Answer × Str
answer (glob pattern) w = (good (paths (tree pattern)), w)
answer (read_file path) w = (good (bytes w), w)
answer (write_file path content) w = (good done, content)
answer _ w = (good done, w)

abbrev machine : Host Str
machine = record { perform = answer; join = λ a b. a }

get_available_functions_kvm_lem_example :
    FirstFree tree (1 * 32) [] (get_available_functions_kvm machine 1 [])
get_available_functions_kvm_lem_example =
    get_available_functions_kvm_lem machine tree (λ pattern w. refl) 1 (omega arith) []
      (omega arith)

abbrev lookups : Sysfs Str
lookups = record {
  get_available_functions = λ c. raise (message []);
  check_if_nvme_device_exists = λ m. raise (message []);
  get_nvme_device_name = λ m b. raise (message []);
  get_virtio_blk_device_name = λ b. raise (message []);
}

abbrev idle : XpuInitiator Str
idle = record { connect = λ p. pure tt; disconnect = pure tt; get_param = λ w. pure [] w }

abbrev pub xpu : Xpu
xpu = record {
  target_info = opi_type (str "nvme");
  volume_context = volume;
  xpu_config = record { target_type = str "xpu-opi-nvme"; pci_ids = kvm_pci_bridge_ids };
}

abbrev connected : XpuState Str
connected = record {
  device_path = str "/dev/nvme0n1";
  endpoint = record { pf_id = 1; vf_id = 0 };
  bdfs = record { pf_bdf = []; vf_bdf = str "0000:01:01.0" };
  world = [];
}

abbrev no_codec : Codec
no_codec = record { marshal = λ _. []; unmarshal = λ _. inr (object []); bytes_of_key = λ _. [] }

abbrev pub codec : Codec
codec = record {
  marshal = λ _. [];
  unmarshal =
      λ _. inr (object (texts (xpu_context machine no_codec lookups idle xpu [] connected)));
  bytes_of_key = λ _. [];
}

save-restores_example :
    Ends
      (λ _ t.
        (try_get_xpu_context machine codec volume t.world).0
        ≡ ok (
          fields_of machine codec lookups idle xpu connected,
          saved machine codec lookups idle xpu (λ _. []) (λ w. refl) connected,
        ))
      (λ _ _. Unit)
      (save_xpu_context machine codec lookups idle xpu connected)
unfolding xpu_context
save-restores_example =
    save-restores machine codec lookups idle xpu (λ _. []) (λ w. refl) connected
      (record { pf = omega arith; vf = omega arith }) (λ path content w a e. refl) refl

abbrev some_nvme : OpiNvme (Unit {0})
some_nvme = record {
  common = record { remote_controller_name = str "c1"; path_name = str "p1"; world = tt };
  subsystem_name = str "s1";
  namespace_name = str "n1";
  controller_name = str "k1";
}

abbrev some_blk : OpiVirtioBlk (Unit {0})
some_blk = record { common = some_nvme.common; virtio_blk_name = str "b1" }

abbrev some_device : SmaCommon (Unit {0})
some_device = record { device_handle = str "d1"; volume_id = none; world = tt }

abbrev parse : Str → Result Str
parse m = good m

new_backend-restores_example :
    (new_backend parse volume
        (opi_type (str "nvme"))
        (saved_with machine codec lookups idle xpu connected parse volume (nvme_param some_nvme))
      ≡ good (opi (nvme_initiator (nvme_fields some_nvme))))
    × (new_backend parse volume (opi_type (str "virtioblk")) (
          saved_with machine codec lookups idle xpu connected parse volume
            (virtio_blk_param some_blk))
        ≡ good (opi (virtio_blk_initiator (virtio_blk_fields some_blk))))
    × (from_agent machine codec lookups idle xpu connected parse volume "nvmftcp" some_device
        ≡ good (
            sma (
              nvmf_tcp_initiator (
                sma_fields machine codec lookups idle xpu connected parse volume
                  (str "m1")
                  some_device))))
    × (from_agent machine codec lookups idle xpu connected parse volume "nvme" some_device
        ≡ good (
            sma (
              SmaInitiator.nvme_initiator (
                sma_fields machine codec lookups idle xpu connected parse volume
                  (str "m1")
                  some_device))))
    × (from_agent machine codec lookups idle xpu connected parse volume "virtioblk" some_device
        ≡ good (
            sma (
              SmaInitiator.virtio_blk_initiator (
                sma_fields machine codec lookups idle xpu connected parse volume
                  (str "m1")
                  some_device))))
unfolding volume_uuid get str
new_backend-restores_example =
    new_backend-restores machine codec lookups idle xpu connected parse volume some_nvme some_blk
      some_device (str "m1") refl

detect_nvme_device_name_lem_example :
    Ends
      (λ n s. Distinct (reads s.1) × IsNamed (str "m1") n s.1)
      (λ e s. (e ≡ deadline_exceeded) × Distinct (reads s.1))
      (detect_nvme_device_name (traced machine) (str "m1") (str "m1", []))
detect_nvme_device_name_lem_example =
    (detect_nvme_device_name_lem machine (str "m1")).at (str "m1", []) refl
