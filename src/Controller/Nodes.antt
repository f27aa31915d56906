-- ===== src/Controller/Nodes.antt =====
-- `getSpdkNode` and the node objects that it makes: what a method does on a fresh connection.
use spdk_csi.Prelude.{
  ◌≡◌, refl, ◌⊎◌, inl, inr, Bool, true, false, Option, none, some, List, ◌++◌, if◌then◌else◌,
}
use spdk_csi.Text.{Str, str, str_eq, to_lower}
use spdk_csi.Effect.{Error, message, Outcome, ok, err, panic, Result, good, bad, Exec, pure, crash}
use spdk_csi.Effect.Triple.{Ends, Triple, Triple-bind, Triple-pure, Triple-raise}
use spdk_csi.Rpc.Message.{Net}
use spdk_csi.Rpc.Client.{Client, Conn}
use spdk_csi.Rpc.Client.Errors.{Plain}
use spdk_csi.Target.Nvmf.{Map, new_nvmf}
use spdk_csi.Target.Iscsi.{new_iscsi}
use spdk_csi.Target.Node.{SpdkNode, new_spdk_node}
use spdk_csi.Target.Unpublish.{Made, nvmf, iscsi}
use spdk_csi.Controller.Message.{get, NodeConfig, Token, Controller, find_config}
use spdk_csi.Controller.Server.{SecretsReader, lift, find_token, run_on, node_for, get_spdk_node}

abbrev pub AllMade : {W : Type 0} → Net W → Option (SpdkNode W) → Type 0
AllMade net none = Unit
AllMade net (some n) = Made net n

module _ {W A : Type 0} (Q : A → W → Type 0) (E : Error → W → Type 0) where
  world-Ends :
      (r : Outcome A) (s : Conn W)
      → Ends (λ a (t : Conn W). Q a t.world) (λ e t. E e t.world) (r, s)
      → Ends Q E (r, s.world)
  world-Ends (ok a) s h = h
  world-Ends (err e) s h = h
  world-Ends panic s h = tt

  -- A triple of a method on a fresh connection is one of the handler.
  pub run_on-Triple_from :
      {P : W → Type 0} (n : Option (SpdkNode W)) (m : SpdkNode W → Exec (Conn W) A)
      → ((node : SpdkNode W)
          → n ≡ some node
          → Triple (λ s. P s.world) (m node) (λ a s. Q a s.world) (λ e s. E e s.world))
      → Triple P (run_on n m) Q E
  run_on-Triple_from none m t = record { at = λ w h. tt }
  run_on-Triple_from (some node) m t = record {
    at = λ w h.
        let c : Conn W = record { rpc_id = 0; trans_created = 0; world = w } in
        world-Ends (m node c).0 (m node c).1 ((t node refl).at c h);
  }

  pub run_on-Triple :
      (n : Option (SpdkNode W)) (m : SpdkNode W → Exec (Conn W) A)
      → ((node : SpdkNode W)
          → n ≡ some node
          → Triple (λ _. Unit) (m node) (λ a s. Q a s.world) (λ e s. E e s.world))
      → Triple (λ _. Unit) (run_on n m) Q E
  run_on-Triple n m t = run_on-Triple_from {P = λ _. Unit} n m t

module _ {W : Type 0} (net : Net W) where
  data GoodMade : Result (SpdkNode W) → Type 0 where
    made : {n : SpdkNode W} → Made net n → GoodMade (good n)
    unmade : (e : Error) → GoodMade (bad e)

  GoodMade-if :
      (b : Bool) (x y : Result (SpdkNode W))
      → GoodMade x
      → GoodMade y
      → GoodMade (if b then x else y)
  GoodMade-if true x y p q = p
  GoodMade-if false x y p q = q

  new_spdk_node-Made :
      (url user pass kind addr : Str) → GoodMade (new_spdk_node net url user pass kind addr)
  unfolding new_spdk_node
  new_spdk_node-Made url user pass kind addr =
      let client : Client = record { rpc_url = url; rpc_user = user; rpc_pass = pass } in
      GoodMade-if (str_eq (to_lower kind) (str "nvme-rdma")) _ _
        (made (nvmf client (new_nvmf (str "RDMA") addr)))
        (GoodMade-if (str_eq (to_lower kind) (str "nvme-tcp")) _ _
          (made (nvmf client (new_nvmf (str "TCP") addr)))
          (GoodMade-if (str_eq (to_lower kind) (str "iscsi")) _ _
            (made (iscsi client (new_iscsi addr)))
            (unmade (message (str "unknown transport: " ++ kind)))))

module _ {W : Type 0} (net : Net W) (read : SecretsReader) (cs : Controller) where
  made_or_nil :
      {P : W → Type 0} (r : Result (SpdkNode W))
      → GoodMade net r
      → Triple P
          (elim r [ good node ↦ pure (some node) | bad _ ↦ pure none ])
          (λ n w. P w × AllMade net n)
          (λ e w. P w × Plain e)
  made_or_nil (good n) (made m) = Triple-pure (some n) (λ w h. (h, m))
  made_or_nil (bad e) m = Triple-pure none (λ w h. (h, tt))

  node_for-Triple :
      {P : W → Type 0} (c : NodeConfig) (t : Option Token)
      → Triple P (node_for net read c t) (λ n w. P w × AllMade net n) (λ e w. P w × Plain e)
  node_for-Triple c none = Triple-raise _ (λ w h. (h, (refl, refl, refl)))
  node_for-Triple c (some t) = made_or_nil _ (new_spdk_node-Made net _ _ _ _ _)

  -- `getSpdkNode` changes nothing, returns nodes that `NewSpdkNode` made, and fails with none of
  -- the errors that callers look for.
  pub get_spdk_node-Triple :
      {P : W → Type 0} (name : Str) (secrets : Map)
      → Triple P
          (get_spdk_node net read cs name secrets)
          (λ n w. P w × AllMade net n)
          (λ e w. P w × Plain e)
  unfolding get_spdk_node
  get_spdk_node-Triple {P} name secrets =
      Triple-bind {R = λ _ w. P w} _ _ (tokens (read (get secrets "secret.json")))
        (λ l. configured (find_config name cs.spdk_node_configs) l)
    where
      tokens :
          (r : Str ⊎ List Token)
          → Triple P
              (lift (elim r [ inl m ↦ bad (message m) | inr l ↦ good l ]))
              (λ _ w. P w)
              (λ e w. P w × Plain e)
      tokens (inl m) = Triple-raise _ (λ w h. (h, (refl, refl, refl)))
      tokens (inr l) = Triple-pure l (λ w h. h)

      configured :
          (o : Option NodeConfig) (l : List Token)
          → Triple P
              (elim o [ none ↦ crash | some c ↦ node_for net read c (find_token name l) ])
              (λ n w. P w × AllMade net n)
              (λ e w. P w × Plain e)
      configured none l = record { at = λ w h. tt }
      configured (some c) l = node_for-Triple c (find_token name l)
