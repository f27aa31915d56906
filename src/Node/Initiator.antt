-- ===== src/Node/Initiator.antt =====
-- pkg/util/initiator.go: how a node connects to a published volume and leaves it.
pub mod Kept
use spdk_csi.Prelude.{ℕ, zero, suc, ◌||◌, List, [], ◌∷◌, ◌++◌, if◌then◌else◌}
use spdk_csi.Text.{Str, str, str_eq, to_lower}
use spdk_csi.Effect.{
  Error, deadline_exceeded, message, Result, good, bad, Exec, pure, raise, attempt, ignore, ◌>>=◌,
  ◌>>◌,
}
use spdk_csi.Target.Nvmf.{Map}
use spdk_csi.Controller.Message.{get}
use spdk_csi.Node.Host.{glob, command, sleep, paths_of, Host, act, act_unit}

-- Interface `SpdkCsiInitiator`
pub record SpdkCsiInitiator (W : Type 0) : Type 0 where
  pub connect : Exec W Str
  pub disconnect : Exec W Unit

pub record InitiatorNvmf : Type 0 where
  pub target_type : Str
  pub target_addr : Str
  pub target_port : Str
  pub nqn : Str
  pub model : Str

pub record InitiatorIscsi : Type 0 where
  pub target_addr : Str
  pub target_port : Str
  pub iqn : Str

-- `execWithTimeout` replaces the error of a command that ran out of time.
abbrev timed_out : Error → Error
timed_out deadline_exceeded = message (str "timed out")
timed_out e = e

-- The patterns of the links under which the device of a volume shows up.
abbrev pub by_id : Str → Str
by_id model = str "/dev/disk/by-id/*" ++ (model ++ str "*")

abbrev pub by_path : Str → Str
by_path iqn = str "/dev/disk/by-path/*" ++ (iqn ++ str "*")

abbrev pub portal : InitiatorIscsi → Str
portal i = i.target_addr ++ (str ":" ++ i.target_port)

abbrev pub iscsi_node_command : InitiatorIscsi → Str → List Str
iscsi_node_command i action =
    str "iscsiadm" ∷ str "-m" ∷ str "node" ∷ str "-T" ∷ i.iqn ∷ str "-p" ∷ portal i ∷ action ∷ []

abbrev pub discovery_command : InitiatorIscsi → List Str
discovery_command i =
    str "iscsiadm"
    ∷ str "-m"
    ∷ str "discovery"
    ∷ str "-t"
    ∷ str "sendtargets"
    ∷ str "-p"
    ∷ portal i
    ∷ []

abbrev pub nvmf_of : Map → InitiatorNvmf
nvmf_of m = record {
  target_type = get m "targetType";
  target_addr = get m "targetAddr";
  target_port = get m "targetPort";
  nqn = get m "nqn";
  model = get m "model";
}

abbrev pub iscsi_of : Map → InitiatorIscsi
iscsi_of m = record {
  target_addr = get m "targetAddr";
  target_port = get m "targetPort";
  iqn = get m "iqn";
}

module _ {W : Type 0} (host : Host W) where
  unfoldable pub exec_with_timeout : List Str → ℕ → Exec W Unit
  exec_with_timeout cmd_line timeout = do
    r ← attempt (act_unit host (command cmd_line timeout))
    elim r [ good _ ↦ pure tt | bad e ↦ raise (timed_out e) ]

  abbrev pub ready_or : List Str → Exec W Str → Exec W Str
  ready_or [] rest = do ignore (act host (sleep 1)); rest
  ready_or (p ∷ l) rest = pure p

  -- The rounds that are left of the loop of `waitForDeviceReady`.
  unfoldable pub ready_loop : ℕ → Str → Exec W Str
  ready_loop zero pattern = raise (message (str "timed out waiting device ready: " ++ pattern))
  ready_loop (suc n) pattern = do
    found ← act host (glob pattern)
    ready_or (paths_of found) (ready_loop n pattern)

  unfoldable pub wait_for_device_ready : Str → ℕ → Exec W Str
  wait_for_device_ready pattern seconds = ready_loop (suc seconds) pattern

  abbrev pub gone_or : List Str → Exec W Unit → Exec W Unit
  gone_or [] rest = pure tt
  gone_or (p ∷ l) rest = do ignore (act host (sleep 1)); rest

  unfoldable pub gone_loop : ℕ → Str → Exec W Unit
  gone_loop zero pattern = raise (message (str "timed out waiting device gone: " ++ pattern))
  gone_loop (suc n) pattern = do
    found ← act host (glob pattern)
    gone_or (paths_of found) (gone_loop n pattern)

  unfoldable pub wait_for_device_gone : Str → Exec W Unit
  wait_for_device_gone pattern = gone_loop 21 pattern

  -- The failure of a command is logged, and the device is looked for all the same.
  unfoldable pub nvmf_connect : InitiatorNvmf → Exec W Str
  nvmf_connect i = do
    ignore (
        exec_with_timeout
          (str "nvme"
            ∷ str "connect"
            ∷ str "-t"
            ∷ to_lower i.target_type
            ∷ str "-a"
            ∷ i.target_addr
            ∷ str "-s"
            ∷ i.target_port
            ∷ str "-n"
            ∷ i.nqn
            ∷ [])
          40)
    wait_for_device_ready (by_id i.model) 20

  unfoldable pub nvmf_disconnect : InitiatorNvmf → Exec W Unit
  nvmf_disconnect i = do
    ignore (exec_with_timeout (str "nvme" ∷ str "disconnect" ∷ str "-n" ∷ i.nqn ∷ []) 40)
    wait_for_device_gone (by_id i.model)

  unfoldable pub iscsi_connect : InitiatorIscsi → Exec W Str
  iscsi_connect i = do
    ignore (exec_with_timeout (discovery_command i) 40)
    ignore (exec_with_timeout (iscsi_node_command i (str "--login")) 40)
    wait_for_device_ready (by_path i.iqn) 20

  unfoldable pub iscsi_disconnect : InitiatorIscsi → Exec W Unit
  iscsi_disconnect i = do
    ignore (exec_with_timeout (iscsi_node_command i (str "--logout")) 40)
    wait_for_device_gone (by_path i.iqn)

  -- `NewSpdkCsiInitiator`
  unfoldable pub new_spdk_csi_initiator : Map → Result (SpdkCsiInitiator W)
  new_spdk_csi_initiator m =
      let target_type = to_lower (get m "targetType") in
      if str_eq target_type (str "rdma") || str_eq target_type (str "tcp")
      then good
          (record { connect = nvmf_connect (nvmf_of m); disconnect = nvmf_disconnect (nvmf_of m) })
      else if str_eq target_type (str "iscsi")
      then good (record {
        connect = iscsi_connect (iscsi_of m);
        disconnect = iscsi_disconnect (iscsi_of m);
      })
      else bad (message (str "unknown initiator: " ++ target_type))
