-- ===== src/Node/Sessions.antt =====
-- Whether the node has a session with the target of a volume, by the commands that were run.
pub mod Calls
pub mod Staging
use spdk_csi.Prelude.{
  ℕ, zero, suc, ◌≡◌, refl, ◌∙◌, Bool, true, false, not, ◌||◌, Option, none, some, List, [], ◌∷◌,
  ◌⊎◌, inl, inr, if◌then◌else◌,
}
use spdk_csi.Text.{Str, str, str_eq, to_lower}
use spdk_csi.Effect.{
  Error, Result, good, bad, Outcome, ok, err, panic, Exec, pure, raise, attempt, ignore, on_error,
  internal_status, is_not_exist, ◌>>=◌,
}
use spdk_csi.Effect.Keeps.{
  Keeps, Keeps-pure, Keeps-raise, Keeps-crash, Keeps-if, Keeps-attempt, Keeps-bind,
}
use spdk_csi.Effect.Triple.{
  Ends, Triple, Either, Triple-attempt, Triple-bind, Triple-pure, Triple-raise, Triple-weaken,
  Triple-strengthen, Triple-Keeps, Triple-ignore, Triple-any, Triple-on_error,
}
use spdk_csi.Target.Nvmf.{Map}
use spdk_csi.Controller.Message.{get}
use spdk_csi.Node.Host.{
  Op, glob, command, sleep, is_not_mount_point, mkdir_all, stat, write_file, format_and_mount,
  Answer, flag_of, paths_of, Host, answer_in, act, act_unit, Trace, traced,
}
use spdk_csi.Node.Context.{Codec, make_folder, stash_context, stash_volume_context}
use spdk_csi.Node.Initiator.{
  SpdkCsiInitiator, InitiatorNvmf, InitiatorIscsi, nvmf_of, iscsi_of, exec_with_timeout, ready_or,
  ready_loop, wait_for_device_ready, gone_or, gone_loop, wait_for_device_gone, nvmf_connect,
  nvmf_disconnect, discovery_command, iscsi_connect, iscsi_disconnect, new_spdk_csi_initiator,
}
use spdk_csi.Node.Server.{
  StageRequest, mount_staged, mount_in_mode, staging_flags, is_staged, create_mount_point,
  stage_volume, stage_device, connect_and_stage, node_stage_volume, get_staging_target_path,
  lift_internal, context_of,
}
use spdk_csi.Node.Devices.{Traced, Newest, act-Triple}

-- The last word of a command line.
abbrev last_effect : List Str → Option Bool
last_effect [] = none
last_effect (x ∷ []) =
    if str_eq x (str "--login")
    then some true
    else if str_eq x (str "--logout")
    then some false
    else none
last_effect (x ∷ y ∷ l) = last_effect (y ∷ l)

-- What a command does to the session: `nvme connect` and a login make it, `nvme disconnect` and a
-- logout end it.
abbrev pub effect : List Str → Option Bool
effect (tool ∷ action ∷ l) =
    if str_eq action (str "connect")
    then some true
    else if str_eq action (str "disconnect")
    then some false
    else last_effect l
effect _ = none

abbrev or_before : Option Bool → Bool → Bool
or_before (some b) c = b
or_before none c = c

abbrev move : Op → Bool → Bool
move (command cmd_line timeout) b = or_before (effect cmd_line) b
move _ b = b

-- The newest command that makes or ends a session decides; a command counts when it is run, whether
-- it succeeds or not.
abbrev pub attached : Trace → Bool
attached [] = false
attached (x ∷ l) = move x.op (attached l)

module _ {W : Type 0} (host : Host W) where
  abbrev pub Has : Bool → Traced host → Type 0
  Has b s = attached s.1 ≡ b

  answer-Has :
      (op : Op) (b : Bool) (r : Result Answer) (w : W) (l : Trace)
      → move op (attached l) ≡ b
      → Has b (answer_in r (w, record { op = op; result = r } ∷ l)).1
  answer-Has op b (good a) w l h = h
  answer-Has op b (bad e) w l h = h

  -- A call that is no command.
  act-Keeps :
      (op : Op) (b : Bool) → ((c : Bool) → move op c ≡ c) → Keeps (Has b) (act (traced host) op)
  unfolding act
  act-Keeps op b q = record {
    at = λ s h.
        answer-Has op b (host.perform op s.0).0 (host.perform op s.0).1 s.1 (q (attached s.1) ∙ h);
  }

  command-Triple :
      (cmd_line : List Str) (timeout : ℕ) (b : Bool)
      → effect cmd_line ≡ some b
      → Triple
          (λ _. Unit)
          (exec_with_timeout (traced host) cmd_line timeout)
          (λ _ s. Has b s)
          (λ _ s. Has b s)
  unfolding exec_with_timeout
  command-Triple cmd_line timeout b q =
      Triple-bind {R = Either (λ _ s. Has b s) (λ _ s. Has b s)}
        (attempt (act_unit (traced host) (command cmd_line timeout))) _
        (Triple-attempt (act_unit (traced host) (command cmd_line timeout)) (
          Triple-bind (act (traced host) (command cmd_line timeout)) _
            (Triple-strengthen (λ a s n. moved (good a) s.1 n)
              (Triple-weaken (λ e s n. moved (bad e) s.1 n)
                (act-Triple host (λ _. Unit) (command cmd_line timeout))))
            (λ _. Triple-pure tt (λ s h. h))))
        (elim [ good _ ↦ Triple-pure tt (λ s h. h) | bad e ↦ Triple-raise _ (λ s h. h) ])
    where
      moved :
          (r : Result Answer) (l : Trace)
          → Newest (λ _. Unit) (command cmd_line timeout) r l
          → attached l ≡ b
      moved r l n = rw (n.now, q) refl

  sleep-Keeps : (b : Bool) → Keeps (Has b) (ignore (act (traced host) (sleep 1)))
  sleep-Keeps b =
      Keeps-bind _ _ (Keeps-attempt _ (act-Keeps (sleep 1) b (λ _. refl))) (λ _. Keeps-pure tt)

  ready_loop-Keeps :
      (n : ℕ) (pattern : Str) (b : Bool) → Keeps (Has b) (ready_loop (traced host) n pattern)
  unfolding ready_loop
  ready_loop-Keeps zero pattern b = Keeps-raise _
  ready_loop-Keeps (suc n) pattern b =
      Keeps-bind _ _ (act-Keeps (glob pattern) b (λ _. refl))
        (λ a. matched (ready_loop-Keeps n pattern b) (paths_of a))
    where
      matched :
          Keeps (Has b) (ready_loop (traced host) n pattern)
          → (l : List Str)
          → Keeps (Has b) (ready_or (traced host) l (ready_loop (traced host) n pattern))
      matched k [] = Keeps-bind _ _ (sleep-Keeps b) (λ _. k)
      matched k (p ∷ l) = Keeps-pure p

  gone_loop-Keeps :
      (n : ℕ) (pattern : Str) (b : Bool) → Keeps (Has b) (gone_loop (traced host) n pattern)
  unfolding gone_loop
  gone_loop-Keeps zero pattern b = Keeps-raise _
  gone_loop-Keeps (suc n) pattern b =
      Keeps-bind _ _ (act-Keeps (glob pattern) b (λ _. refl))
        (λ a. matched (gone_loop-Keeps n pattern b) (paths_of a))
    where
      matched :
          Keeps (Has b) (gone_loop (traced host) n pattern)
          → (l : List Str)
          → Keeps (Has b) (gone_or (traced host) l (gone_loop (traced host) n pattern))
      matched k [] = Keeps-pure tt
      matched k (p ∷ l) = Keeps-bind _ _ (sleep-Keeps b) (λ _. k)

  -- Connecting runs a command that makes the session, and disconnecting one that ends it, on every
  -- path, failures included.
  pub record IsSession (i : SpdkCsiInitiator (W × Trace)) : Type 0 where
    pub connects : Triple (λ _. Unit) i.connect (λ _ s. Has true s) (λ _ s. Has true s)
    pub disconnects : Triple (λ _. Unit) i.disconnect (λ _ s. Has false s) (λ _ s. Has false s)

  nvmf-IsSession :
      (i : InitiatorNvmf)
      → IsSession (record {
        connect = nvmf_connect (traced host) i;
        disconnect = nvmf_disconnect (traced host) i;
      })
  unfolding nvmf_connect nvmf_disconnect wait_for_device_ready wait_for_device_gone str_eq str
  nvmf-IsSession i = record {
    connects =
        Triple-bind _ _ (Triple-ignore _ (command-Triple _ 40 true refl))
          (λ _. Triple-Keeps _ (ready_loop-Keeps 21 _ true));
    disconnects =
        Triple-bind _ _ (Triple-ignore _ (command-Triple _ 40 false refl))
          (λ _. Triple-Keeps _ (gone_loop-Keeps 21 _ false));
  }

  iscsi-IsSession :
      (i : InitiatorIscsi)
      → IsSession (record {
        connect = iscsi_connect (traced host) i;
        disconnect = iscsi_disconnect (traced host) i;
      })
  unfolding iscsi_connect iscsi_disconnect wait_for_device_ready wait_for_device_gone str_eq str
  iscsi-IsSession i = record {
    connects =
        Triple-bind (ignore (exec_with_timeout (traced host) (discovery_command i) 40)) _
          (Triple-ignore {R = λ _. Unit} (exec_with_timeout (traced host) (discovery_command i) 40)
            (Triple-any _))
          λ _.
            Triple-bind _ _ (Triple-ignore _ (command-Triple _ 40 true refl))
              (λ _. Triple-Keeps _ (ready_loop-Keeps 21 _ true));
    disconnects =
        Triple-bind _ _ (Triple-ignore _ (command-Triple _ 40 false refl))
          (λ _. Triple-Keeps _ (gone_loop-Keeps 21 _ false));
  }

  pub data GoodSession : Result (SpdkCsiInitiator (W × Trace)) → Type 0 where
    session : {i : SpdkCsiInitiator (W × Trace)} → IsSession i → GoodSession (good i)
    no_session : (e : Error) → GoodSession (bad e)

  GoodSession-if :
      (b : Bool) (x y : Result (SpdkCsiInitiator (W × Trace)))
      → GoodSession x
      → GoodSession y
      → GoodSession (if b then x else y)
  GoodSession-if true x y p q = p
  GoodSession-if false x y p q = q

  -- Of every initiator that NewSpdkCsiInitiator makes, Connect ends with a session by its last
  -- session command, whether it returns or fails, and Disconnect with none.
  pub new_spdk_csi_initiator-GoodSession :
      (m : Map) → GoodSession (new_spdk_csi_initiator (traced host) m)
  unfolding new_spdk_csi_initiator
  new_spdk_csi_initiator-GoodSession m =
      let kind = to_lower (get m "targetType") in
      GoodSession-if (str_eq kind (str "rdma") || str_eq kind (str "tcp")) _ _
        (session (nvmf-IsSession (nvmf_of m)))
        (GoodSession-if (str_eq kind (str "iscsi")) _ _ (session (iscsi-IsSession (iscsi_of m)))
          (no_session _))
