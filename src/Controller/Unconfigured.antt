-- ===== src/Controller/Unconfigured.antt =====
-- What the handlers do with an id whose node is not configured: `getSpdkNode` formats the name of
-- a nil configuration.
use spdk_csi.Prelude.{◌≡◌, refl, ap, ◌∙◌, ◌⊎◌, inl, inr, Option, none, some, List}
use spdk_csi.Text.{Str}
use spdk_csi.Effect.{
  Error, ok, panic, Exec, good, bad, message, crash, attempt, continue, try_outcome, on_error,
  ◌>>=◌, internal_status,
}
use spdk_csi.Rpc.Message.{Net}
use spdk_csi.Target.Nvmf.{Map}
use spdk_csi.Target.Node.{SpdkNode}
use spdk_csi.Controller.Message.{get, NodeConfig, Token, SpdkVolume, Controller, find_config}
use spdk_csi.Controller.Handlers.{
  handle_delete_volume, handle_create_snapshot, handle_delete_snapshot,
}
use spdk_csi.Controller.Server.{
  SecretsReader, lift, find_token, node_for, get_spdk_vol, get_spdk_node, unpublish_volume,
}

module _ {S A B : Type 0} (m : Exec S A) (s : S) where
  bind-panic : (f : A → Exec S B) → m s ≡ (panic, s) → (m >>= f) s ≡ (panic, s)
  bind-panic f h = ap (λ r. continue r.0 f r.1) h

  bind-ok : (a : A) (f : A → Exec S B) → m s ≡ (ok a, s) → (m >>= f) s ≡ f a s
  bind-ok a f h = ap (λ r. continue r.0 f r.1) h

module _ {S A : Type 0} (m : Exec S A) (s : S) where
  attempt-panic : m s ≡ (panic, s) → attempt m s ≡ (panic, s)
  attempt-panic h = ap (λ r. try_outcome r.0 r.1) h

  on_error-panic : (f : Error → Error) → m s ≡ (panic, s) → on_error f m s ≡ (panic, s)
  on_error-panic f h = bind-panic (attempt m) s _ (attempt-panic h)

module _ {W : Type 0} (net : Net W) (read : SecretsReader) (cs : Controller) where
  get_spdk_node-panic :
      (name : Str) (secrets : Map) (tokens : List Token) (w : W)
      → read (get secrets "secret.json") ≡ inr tokens
      → find_config name cs.spdk_node_configs ≡ none
      → get_spdk_node net read cs name secrets w ≡ (panic, w)
  unfolding get_spdk_node
  get_spdk_node-panic name secrets tokens w =
      cases (read (get secrets "secret.json")) (find_config name cs.spdk_node_configs)
    where
      cases :
          (x : Str ⊎ List Token) (o : Option NodeConfig)
          → x ≡ inr tokens
          → o ≡ none
          → ◌>>=◌ {B = Option (SpdkNode W)}
              (lift (elim x [ inl m ↦ bad (message m) | inr l ↦ good l ]))
              (λ l. elim o [ none ↦ crash | some c ↦ node_for net read c (find_token name l) ])
              w
            ≡ (panic, w)
      cases (inl m) o h k = cc
      cases (inr l) none h k = refl
      cases (inr l) (some c) h k = cc

  lift-named :
      (id : Str) (v : SpdkVolume) (w : W)
      → get_spdk_vol id ≡ good v
      → lift {S = W} (get_spdk_vol id) w ≡ (ok v, w)
  lift-named id v w h = ap (λ r. lift r w) h

  -- For an id of two parts whose node name is not configured, and secrets that decode,
  -- DeleteVolume, CreateSnapshot and DeleteSnapshot panic and change nothing.
  pub unconfigured_node-panic :
      (id name : Str) (v : SpdkVolume) (secrets : Map) (tokens : List Token) (w : W)
      → get_spdk_vol id ≡ good v
      → read (get secrets "secret.json") ≡ inr tokens
      → find_config v.node_name cs.spdk_node_configs ≡ none
      → (handle_delete_volume net read cs (record { volume_id = id; secrets = secrets }) w
          ≡ (panic, w))
        × (handle_create_snapshot net read cs
              (record { source_volume_id = id; name = name; secrets = secrets })
              w
            ≡ (panic, w))
        × (handle_delete_snapshot net read cs (record { snapshot_id = id; secrets = secrets }) w
            ≡ (panic, w))
  unfolding handle_delete_volume handle_create_snapshot handle_delete_snapshot unpublish_volume
  unconfigured_node-panic id name v secrets tokens w i r f =
      let p = get_spdk_node-panic v.node_name secrets tokens w r f in
      let n = lift-named id v w i in
      let q = on_error-panic (get_spdk_node net read cs v.node_name secrets) w internal_status p in
      (
        bind-panic (attempt (unpublish_volume net read cs id secrets)) w _ (
            attempt-panic (unpublish_volume net read cs id secrets) w (
              bind-ok (lift (get_spdk_vol id)) w v _ n
              ∙ bind-panic (get_spdk_node net read cs v.node_name secrets) w _ p)),
        bind-ok (lift (get_spdk_vol id)) w v _ n
            ∙ bind-panic (on_error internal_status (get_spdk_node net read cs v.node_name secrets))
                w _ q,
        bind-ok (lift (get_spdk_vol id)) w v _ n
            ∙ bind-panic (on_error internal_status (get_spdk_node net read cs v.node_name secrets))
                w _ q,
      )
