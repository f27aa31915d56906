-- ===== src/Node/Initiator/Kept.antt =====
-- What every call of the machine keeps is kept by the NVMe-oF connection of
-- pkg/util/initiator.go.
use spdk_csi.Prelude.{ℕ, zero, suc, List, [], ◌∷◌}
use spdk_csi.Text.{Str}
use spdk_csi.Effect.{Exec, attempt, ignore}
use spdk_csi.Effect.Keeps.{Keeps, Keeps-pure, Keeps-raise, Keeps-bind, Keeps-attempt, Keeps-cases}
use spdk_csi.Node.Host.{Op, glob, sleep, command, paths_of, Host, act, act_unit}
use spdk_csi.Node.Initiator.{
  InitiatorNvmf, exec_with_timeout, ready_or, ready_loop, wait_for_device_ready, gone_or, gone_loop,
  wait_for_device_gone, nvmf_connect, nvmf_disconnect,
}

module _ {W A : Type 0} {P : W → Type 0} where
  Keeps-ignore : (m : Exec W A) → Keeps P m → Keeps P (ignore m)
  Keeps-ignore m k = Keeps-bind (attempt m) _ (Keeps-attempt m k) (λ _. Keeps-pure tt)

module _ {W : Type 0} {P : W → Type 0} (host : Host W)
    (kept : (op : Op) → Keeps P (act host op)) where
  pub act_unit-Keeps : (op : Op) → Keeps P (act_unit host op)
  act_unit-Keeps op = Keeps-bind (act host op) _ (kept op) (λ _. Keeps-pure tt)

  exec_with_timeout-Keeps :
      (cmd_line : List Str) (timeout : ℕ) → Keeps P (exec_with_timeout host cmd_line timeout)
  unfolding exec_with_timeout
  exec_with_timeout-Keeps cmd_line timeout =
      Keeps-bind (attempt (act_unit host (command cmd_line timeout))) _
        (Keeps-attempt _ (act_unit-Keeps (command cmd_line timeout)))
        (λ r. Keeps-cases r _ _ (λ _. Keeps-pure tt) (λ e. Keeps-raise _))

  ready_or-Keeps : (l : List Str) (m : Exec W Str) → Keeps P m → Keeps P (ready_or host l m)
  ready_or-Keeps [] m k =
      Keeps-bind (ignore (act host (sleep 1))) _ (Keeps-ignore _ (kept (sleep 1))) (λ _. k)
  ready_or-Keeps (p ∷ l) m k = Keeps-pure p

  ready_loop-Keeps : (n : ℕ) (pattern : Str) → Keeps P (ready_loop host n pattern)
  unfolding ready_loop
  ready_loop-Keeps zero pattern = Keeps-raise _
  ready_loop-Keeps (suc n) pattern =
      Keeps-bind (act host (glob pattern)) _ (kept (glob pattern))
        (λ found. ready_or-Keeps (paths_of found) _ (ready_loop-Keeps n pattern))

  pub nvmf_connect-Keeps : (i : InitiatorNvmf) → Keeps P (nvmf_connect host i)
  unfolding nvmf_connect wait_for_device_ready
  nvmf_connect-Keeps i =
      Keeps-bind (ignore (exec_with_timeout host _ _)) _
        (Keeps-ignore _ (exec_with_timeout-Keeps _ _)) (λ _. ready_loop-Keeps 21 _)

  gone_or-Keeps : (l : List Str) (m : Exec W Unit) → Keeps P m → Keeps P (gone_or host l m)
  gone_or-Keeps [] m k = Keeps-pure tt
  gone_or-Keeps (p ∷ l) m k =
      Keeps-bind (ignore (act host (sleep 1))) _ (Keeps-ignore _ (kept (sleep 1))) (λ _. k)

  gone_loop-Keeps : (n : ℕ) (pattern : Str) → Keeps P (gone_loop host n pattern)
  unfolding gone_loop
  gone_loop-Keeps zero pattern = Keeps-raise _
  gone_loop-Keeps (suc n) pattern =
      Keeps-bind (act host (glob pattern)) _ (kept (glob pattern))
        (λ found. gone_or-Keeps (paths_of found) _ (gone_loop-Keeps n pattern))

  pub wait_for_device_gone-Keeps : (pattern : Str) → Keeps P (wait_for_device_gone host pattern)
  unfolding wait_for_device_gone
  wait_for_device_gone-Keeps pattern = gone_loop-Keeps 21 pattern

  pub nvmf_disconnect-Keeps : (i : InitiatorNvmf) → Keeps P (nvmf_disconnect host i)
  unfolding nvmf_disconnect
  nvmf_disconnect-Keeps i =
      Keeps-bind (ignore (exec_with_timeout host _ _)) _
        (Keeps-ignore _ (exec_with_timeout-Keeps _ _)) (λ _. wait_for_device_gone-Keeps _)
