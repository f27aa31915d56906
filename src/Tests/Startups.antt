-- ===== src/Tests/Startups.antt =====
-- The start of the process at concrete inputs.
use spdk_csi.Prelude.{◌≡◌, true, false, Option, some, List, [], ◌∷◌, if◌then◌else◌}
use spdk_csi.Text.{Str, str, str_eq}
use spdk_csi.Effect.{message, Result, good, pure, raise}
use spdk_csi.Effect.Triple.{Ends, Triple}
use spdk_csi.Csi.Driver.{CsiDriver}
use spdk_csi.Controller.Message.{NodeConfig}
use spdk_csi.Node.Xpu.{kvm_pci_bridge_ids}
use spdk_csi.Startup.System.{System, Flags, XpuNode}
use spdk_csi.Startup.Nodes.{new_node_server}
use spdk_csi.Startup.Grpc.{run}
use spdk_csi.Startup.Chosen.{Chosen, Unread, new_node_server-Chosen}
use spdk_csi.Startup.Serving.{Serving, run-Serving}

abbrev driver : CsiDriver
driver = record { name = str "d"; node_id = str "n1"; version = str "1"; caps = []; modes = [] }

abbrev node_at : Str → XpuNode
node_at addr = record {
  target_addr = addr;
  config = record { target_type = str "xpu-opi-virtioblk"; pci_ids = kvm_pci_bridge_ids };
}

-- The first xPU does not answer, the second does; every file is there, and a socket is left over.
abbrev system : System (Unit {0})
system = record {
  getenv = λ s w. [];
  stat = λ s. pure tt;
  open_file = λ s. pure 3;
  read_all = λ f. pure (str "{}");
  close = λ f. pure tt;
  remove = λ s. pure tt;
  dial = λ a.
      if str_eq a (str "10.0.0.1:50051")
      then raise (message (str "connection refused"))
      else pure 7;
  listen = λ n a. pure 4;
  serve = λ l s. pure tt;
  graceful_stop = λ s. pure tt;
  hard_stop = λ s. pure tt;
}

abbrev two_xpus : Str → Result (List (Option XpuNode))
two_xpus s =
    good (some (node_at (str "10.0.0.1:50051")) ∷ some (node_at (str "10.0.0.2:50051")) ∷ [])

abbrev no_nodes : Str → Result (List NodeConfig)
no_nodes s = good []

new_node_server-Chosen_example :
    Ends
      (λ ns w. Chosen system two_xpus driver tt ns w)
      (λ _ w. Unread system two_xpus driver tt w)
      (new_node_server system two_xpus driver tt)
new_node_server-Chosen_example = new_node_server-Chosen system two_xpus driver tt

abbrev node_only : Flags
node_only = record {
  driver_name = str "csi.spdk.io";
  driver_version = str "0.1.0";
  endpoint = str "unix://tmp/spdkcsi.sock";
  node_id = str "n1";
  is_controller_server = false;
  is_node_server = true;
}

run-Serving_example :
    Triple
      (λ s. s.wait_group ≡ 0)
      (run system no_nodes two_xpus node_only)
      (λ r s. Serving node_only r s)
      (λ _ _. ⊥)
run-Serving_example = run-Serving system no_nodes two_xpus node_only
