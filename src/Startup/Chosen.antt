-- ===== src/Startup/Chosen.antt =====
-- `connectXpuNode` and `newNodeServer`: which xPU the node server is connected to.
use mathlib.Core.Path.{subst}
use spdk_csi.Prelude.{
  ℕ, ◌≡◌, ◌↔◌, refl, ap, Bool, true, false, Option, none, some, List, [], ◌∷◌, if◌then◌else◌,
}
use spdk_csi.Text.{Str, str_eq}
use spdk_csi.Effect.{Error, ok, err, is_not_exist, Result, good, bad, pure}
use spdk_csi.Effect.Triple.{
  Ends, Triple, Triple-at, Triple-attempt, Triple-bind, Triple-pure, Triple-both, Triple-strengthen,
  Triple-weaken, Triple-on_error,
}
use spdk_csi.Csi.Driver.{CsiDriver}
use spdk_csi.Startup.System.{System, NodeServer, XpuNode}
use spdk_csi.Startup.Config.{from_env, parse_json_file}
use spdk_csi.Startup.Parsed.{Parsed, parse_json_file-Parsed}
use spdk_csi.Startup.Nodes.{
  node_config_env, node_config_file, is_unsupported, without_xpu, with_xpu, connect_xpu_node,
  configured_node_server, new_node_server,
}

module _ {W : Type 0} (sys : System W) where
  -- A list is dialled in order up to the first xPU that answers, each from the state that the one
  -- before it left: that xPU comes back with its connection.
  pub data Dialled : List (Option XpuNode) → W → Option (ℕ × XpuNode) → W → Type 0 where
    none_left : {w : W} → Dialled [] w none w
    reached :
        {l : List (Option XpuNode)} {x : XpuNode} {conn : ℕ} {w w' : W}
        → sys.dial x.target_addr w ≡ (ok conn, w')
        → Dialled (some x ∷ l) w (some (conn, x)) w'
    refused :
        {l : List (Option XpuNode)} {x : XpuNode} {r : Option (ℕ × XpuNode)} {w w'' : W} (e : Error)
        (w' : W)
        → sys.dial x.target_addr w ≡ (err e, w')
        → Dialled l w' r w''
        → Dialled (some x ∷ l) w r w''

  connect_xpu_node-Dialled :
      (l : List (Option XpuNode)) (w : W) (E : Error → W → Type 0)
      → Triple (λ t. t ≡ w) (connect_xpu_node sys l) (λ r t. Dialled l w r t) E
  unfolding connect_xpu_node
  connect_xpu_node-Dialled [] w E =
      Triple-pure none (λ t h. subst (λ x. Dialled [] x none t) h none_left)
  connect_xpu_node-Dialled (none ∷ l) w E = record { at = λ t h. tt }
  connect_xpu_node-Dialled (some x ∷ l) w E =
      Triple-bind _ _ (Triple-attempt _ (Triple-at w (sys.dial x.target_addr))) (elim [
        | good conn ↦ Triple-pure (some (conn, x)) (λ t h. reached h)
        | bad e ↦ record {
          at = λ w' h.
              (Triple-strengthen (λ r t q. refused e w' h q) (connect_xpu_node-Dialled l w' E)).at
                w' refl;
        }
      ])

  -- The file that the environment names, or the default one.
  abbrev pub config_file : W → Str
  config_file w =
      let s = sys.getenv node_config_env w in if str_eq s [] then node_config_file else s

  -- The test of the file did not find it missing; it left the second state.
  pub data IsThere (file : Str) (w w' : W) : Type 0 where
    found : sys.stat file w ≡ (ok tt, w') → IsThere file w w'
    unknown :
        (e : Error) → sys.stat file w ≡ (err e, w') → is_not_exist e ≡ false → IsThere file w w'

  module _ (decode : Str → Result (List (Option XpuNode))) (d : CsiDriver) (w : W) where
    -- The node server has the connection that was dialled, if it is supported, and knows its xPU.
    pub record Connected (ns : NodeServer) (w' : W) : Type 0 where
      pub w_there : W
      pub there : IsThere (config_file w) w w_there
      pub xpu_list : List (Option XpuNode)
      pub w_parsed : W
      pub parsed : Parsed sys decode (config_file w) w_there xpu_list w_parsed
      pub dialled_node : Option (ℕ × XpuNode)
      pub dialled : Dialled xpu_list w_parsed dialled_node w'
      pub driver : ns.driver ≡ d
      pub kept :
          (conn : ℕ) (x : XpuNode)
          → ((ns.xpu_conn_client ≡ some conn) × (ns.xpu_config_info ≡ some x))
            ↔ ((dialled_node ≡ some (conn, x)) × (is_unsupported x.config ≡ false))

    -- How newNodeServer returns.
    pub data Chosen (ns : NodeServer) (w' : W) : Type 0 where
      missing :
          (e : Error)
          → sys.stat (config_file w) w ≡ (err e, w')
          → is_not_exist e ≡ true
          → ns ≡ without_xpu d
          → Chosen ns w'
      connected : Connected ns w' → Chosen ns w'

    -- How it fails: its file is not missing, and cannot be read and decoded.
    pub data Unread (w' : W) : Type 0 where
      unread :
          (e : Error) (w₁ : W)
          → IsThere (config_file w) w w₁
          → parse_json_file sys decode (config_file w) w₁ ≡ (err e, w')
          → Unread w'

  module _ (decode : Str → Result (List (Option XpuNode))) (d : CsiDriver) where
    kept_with :
        (found : Option (ℕ × XpuNode)) (conn : ℕ) (x : XpuNode)
        → (((with_xpu d found).xpu_conn_client ≡ some conn)
            × ((with_xpu d found).xpu_config_info ≡ some x))
          ↔ ((found ≡ some (conn, x)) × (is_unsupported x.config ≡ false))
    unfolding with_xpu
    kept_with none conn x = (λ h. cc h.0, λ h. cc h.0)
    kept_with (some (c, y)) conn x = tested (is_unsupported y.config) refl
      where
        tested :
            (b : Bool)
            → is_unsupported y.config ≡ b
            → let r : Option (ℕ × XpuNode) = some (c, y) in
              (((if b then none else some c) ≡ some conn) × (some y ≡ some x))
              ↔ ((r ≡ some (conn, x)) × (is_unsupported x.config ≡ false))
        tested true e = (λ h. cc h.0, λ h. let q : y ≡ x = cc h.0 in cc (q, h.1))
        tested false e = (
          λ h. let p : c ≡ conn = cc h.0 in let q : y ≡ x = cc h.1 in rw (← p, ← q) (refl, e),
          λ h. let p : c ≡ conn = cc h.0 in let q : y ≡ x = cc h.0 in (ap some p, ap some q),
        )

    with_xpu-driver : (found : Option (ℕ × XpuNode)) → (with_xpu d found).driver ≡ d
    unfolding with_xpu
    with_xpu-driver none = refl
    with_xpu-driver (some f) = refl

    configured-Chosen :
        (w w₁ : W)
        → IsThere (config_file w) w w₁
        → Triple
            (λ t. t ≡ w₁)
            (configured_node_server sys decode d (config_file w))
            (λ ns t. Chosen decode d w ns t)
            (λ _ t. Unread decode d w t)
    unfolding configured_node_server
    configured-Chosen w w₁ there =
        Triple-bind _ _
          (Triple-on_error _ _ (
            Triple-weaken (λ e t h. unread e w₁ there h.1)
              (Triple-both (parse_json_file-Parsed sys decode (config_file w) w₁)
                (Triple-at w₁ (parse_json_file sys decode (config_file w))))))
          λ xpu_list. record {
            at = λ w₂ h.
                (Triple-bind _ _ (connect_xpu_node-Dialled xpu_list w₂ (λ _ t. Unread decode d w t))
                    (λ r. Triple-pure (with_xpu d r) (λ w' q. connected (record {
                      w_there = w₁;
                      there = there;
                      xpu_list = xpu_list;
                      w_parsed = w₂;
                      parsed = h.0;
                      dialled_node = r;
                      dialled = q;
                      driver = with_xpu-driver r;
                      kept = kept_with r;
                    })))).at
                  w₂ refl;
          }

    tested :
        (w : W) (e : Error) (b : Bool)
        → is_not_exist e ≡ b
        → Triple
            (λ t. sys.stat (config_file w) w ≡ (err e, t))
            (if b
              then pure (without_xpu d)
              else configured_node_server sys decode d (config_file w))
            (λ ns t. Chosen decode d w ns t)
            (λ _ t. Unread decode d w t)
    tested w e true m = Triple-pure _ (λ t h. missing e h m refl)
    tested w e false m = record { at = λ t h. (configured-Chosen w t (unknown e h m)).at t refl }

    -- newNodeServer tests the file that the environment names, or the default one. When it
    -- returns, either that file is missing and the server has no xPU, or the file was not found
    -- missing, it was opened, its bytes decode to a list of xPUs, and these were dialled in order,
    -- from the state in which it was closed, up to the first that answered, if any; then the
    -- driver is the one given, and the server has a connection with the xPU's configuration
    -- exactly when that xPU answered with it and is not an OPI virtio-blk one outside KVM. It
    -- fails only if the file was not found missing and cannot be read and decoded.
    pub new_node_server-Chosen :
        (w : W)
        → Ends
            (λ ns w'. Chosen decode d w ns w')
            (λ _ w'. Unread decode d w w')
            (new_node_server sys decode d w)
    unfolding new_node_server from_env
    new_node_server-Chosen w =
        (Triple-bind _ _ (Triple-attempt _ (Triple-at w (sys.stat (config_file w)))) (elim [
          | good u ↦ record { at = λ t h. (configured-Chosen w t (found h)).at t refl }
          | bad e ↦ tested w e (is_not_exist e) refl
        ])).at
          w refl
