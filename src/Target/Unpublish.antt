-- ===== src/Target/Unpublish.antt =====
-- What the error of `UnpublishVolume` and of `DeleteVolume` tells, for both kinds of node.
use spdk_csi.Prelude.{◌≡◌, refl, Bool, true, false, Option, if◌then◌else◌}
use spdk_csi.Text.{Str}
use spdk_csi.Effect.{
  Error, volume_deleted, message, is_no_such_device, is_volume_deleted, is_volume_unpublished, Exec,
  check, pure, raise, ignore, ◌>>=◌,
}
use spdk_csi.Effect.Triple.{
  Triple, Triple-bind, Triple-pure, Triple-raise, Triple-ignore, Triple-any, Triple-weaken,
}
use spdk_csi.Rpc.Message.{flag_of, Net}
use spdk_csi.Rpc.Client.{Client, Conn}
use spdk_csi.Rpc.Client.Errors.{
  Plain, PlainOption, call-PlainOption, check-Plain, call_unit-Plain, IsUnknown, IsRemoved,
  is_volume_created-Triple, delete_volume-Triple,
}
use spdk_csi.Rpc.Log.{Log, logged, log_of}
use spdk_csi.Target.Nvmf.{NvmfNode, get_volume_nqn, has_own_listener, delete_subsystem}
use spdk_csi.Target.Nvmf
use spdk_csi.Target.Iscsi.{IscsiNode, has_alias, call_flag, delete_target_node}
use spdk_csi.Target.Iscsi
use spdk_csi.Target.Node.{SpdkNode, nvmf_node, iscsi_node}

module _ {W : Type 0} (net : Net W) (client : Client) where
  abbrev IsPlain : {A : Type 0} → Exec (Conn W) A → Type 0
  IsPlain m = Triple (λ _. Unit) m (λ _ _. Unit) (λ e _. Plain e)

  after_check :
      {A : Type 0} (e : Option Error) (a : A)
      → Triple {S = Conn W}
          (λ _. PlainOption e)
          (check e >>= λ _. pure a)
          (λ _ _. Unit)
          (λ x _. Plain x)
  after_check e a = Triple-bind _ _ (check-Plain net client e) (λ _. Triple-pure a (λ s h. tt))

  unless :
      {A : Type 0} (b : Bool) (e : Option Error) (x y : A)
      → Triple {S = Conn W}
          (λ _. PlainOption e)
          (if b then pure x else (check e >>= λ _. pure y))
          (λ _ _. Unit)
          (λ z _. Plain z)
  unless true e x y = Triple-pure x (λ s h. tt)
  unless false e x y = after_check e y

  nvmf_published-IsPlain :
      (node : NvmfNode) (id : Str) → IsPlain (Nvmf.is_volume_published net client node id)
  unfolding Nvmf.is_volume_published
  nvmf_published-IsPlain node id =
      Triple-bind _ _ (call-PlainOption net client _) (λ r. unless _ r.error false _)

  iscsi_published-IsPlain :
      (node : IscsiNode) (id : Str) → IsPlain (Iscsi.is_volume_published net client node id)
  unfolding Iscsi.is_volume_published
  iscsi_published-IsPlain node id =
      Triple-bind _ _ (call-PlainOption net client _) (λ r. after_check r.error _)

  flagged :
      (b : Bool) (m : Str)
      → Triple {S = Conn W} {A = Unit}
          (λ _. Unit)
          (if b then pure tt else raise (message m))
          (λ _ _. Unit)
          (λ x _. Plain x)
  flagged true m = Triple-pure tt (λ s h. tt)
  flagged false m = Triple-raise (message m) (λ s h. (refl, refl, refl))

  delete_target_node-IsPlain :
      (node : IscsiNode) (id : Str) → IsPlain (delete_target_node net client node id)
  unfolding delete_target_node call_flag
  delete_target_node-IsPlain node id =
      Triple-bind _ _ (call-PlainOption net client _)
        λ r. Triple-bind _ _ (check-Plain net client r.error) (λ _. flagged (flag_of r.result) _)

-- "Volume deleted" comes only after the target said that there is no such volume, and no error is
-- "volume not published".
abbrev pub Explained : {W : Type 0} → Str → Error → Conn (W × Log) → Type 0
Explained id e s =
    (is_volume_deleted e ≡ true → IsUnknown id (log_of s)) × (is_volume_unpublished e ≡ false)

module _ {W : Type 0} (net : Net W) (client : Client) (id : Str) where
  abbrev Explains : Exec (Conn (W × Log)) Unit → Type 0
  Explains m = Triple (λ _. Unit) m (λ _ _. Unit) (λ e s. Explained id e s)

  plain-Explains : (m : Exec (Conn (W × Log)) Unit) → IsPlain (logged net) client m → Explains m
  plain-Explains m t = Triple-weaken (λ e s p. (λ q. cc (p.1), p.2)) t

  pub nvmf_unpublish-Explains :
      (node : NvmfNode) → Explains (Nvmf.unpublish_volume (logged net) client node id)
  unfolding Nvmf.unpublish_volume delete_subsystem
  nvmf_unpublish-Explains node = Triple-bind _ _ (is_volume_created-Triple net client id) (elim [
    | false ↦ Triple-raise volume_deleted (λ s h. (λ _. h refl, refl))
    | true ↦ record {
      at = λ s h.
          (plain-Explains _ (
              Triple-bind _ _ (nvmf_published-IsPlain (logged net) client node id) (elim [
                | false ↦ Triple-pure tt (λ s h. tt)
                | true ↦
                    Triple-bind {R = λ _ _. Unit}
                      (ignore (Nvmf.subsystem_remove_ns (logged net) client node id)) _
                      (Triple-ignore _ (Triple-any _)) (λ _. call_unit-Plain (logged net) client _)
              ]))).at
            s tt;
    }
  ])

  pub iscsi_unpublish-Explains :
      (node : IscsiNode) → Explains (Iscsi.unpublish_volume (logged net) client node id)
  unfolding Iscsi.unpublish_volume
  iscsi_unpublish-Explains node = Triple-bind _ _ (is_volume_created-Triple net client id) (elim [
    | false ↦ Triple-raise volume_deleted (λ s h. (λ _. h refl, refl))
    | true ↦ record {
      at = λ s h.
          (plain-Explains _ (
              Triple-bind _ _ (iscsi_published-IsPlain (logged net) client node id) (elim [
                | false ↦ Triple-pure tt (λ s h. tt)
                | true ↦ delete_target_node-IsPlain (logged net) client node id
              ]))).at
            s tt;
    }
  ])

-- A node object that `NewSpdkNode` returns.
pub data Made {W : Type 0} (net : Net W) : SpdkNode W → Type 0 where
  nvmf : (client : Client) (node : NvmfNode) → Made net (nvmf_node net client node)
  iscsi : (client : Client) (node : IscsiNode) → Made net (iscsi_node net client node)

module _ {W : Type 0} (net : Net W) where
  pub unpublish-Explains :
      (n : SpdkNode (W × Log)) (id : Str)
      → Made (logged net) n
      → Triple (λ _. Unit) (n.unpublish_volume id) (λ _ _. Unit) (λ e s. Explained id e s)
  unfolding nvmf_node iscsi_node
  unpublish-Explains n id (nvmf client node) = nvmf_unpublish-Explains net client id node
  unpublish-Explains n id (iscsi client node) = iscsi_unpublish-Explains net client id node

  pub delete-IsRemoved :
      (n : SpdkNode (W × Log)) (id : Str)
      → Made (logged net) n
      → Triple
          (λ _. Unit)
          (n.delete_volume id)
          (λ _ s. IsRemoved id (log_of s))
          (λ e s. is_no_such_device e ≡ true → IsRemoved id (log_of s))
  unfolding nvmf_node iscsi_node
  delete-IsRemoved n id (nvmf client node) = delete_volume-Triple net client id
  delete-IsRemoved n id (iscsi client node) = delete_volume-Triple net client id
