-- ===== src/Controller/Making.antt =====
-- `createVolume` when it fails: no volume was made.
use mathlib.Core.Path.{subst}
use spdk_csi.Prelude.Int.{ℤ}
use spdk_csi.Prelude.{◌≡◌, Option, none, some, List, [], ◌∷◌}
use spdk_csi.Text.{Str}
use spdk_csi.Effect.{Error, Result, good, bad, Exec, pure, attempt, on_error, ◌>>=◌}
use spdk_csi.Effect.Keeps.{Keeps, Keeps-pure, Keeps-attempt, Keeps-bind, Keeps-on_error}
use spdk_csi.Effect.Triple.{
  Triple, Either, Triple-attempt, Triple-bind, Triple-pure, Triple-raise, Triple-weaken,
  Triple-Keeps, Triple-on_error,
}
use spdk_csi.Rpc.Message.{Net}
use spdk_csi.Rpc.Client.{Conn, LvStore}
use spdk_csi.Rpc.Log.{Log, logged}
use spdk_csi.Target.Nvmf.{Map}
use spdk_csi.Target.Node.{SpdkNode}
use spdk_csi.Target.Making.{NothingMade, NoneMade, Making, made-Making}
use spdk_csi.Controller.Message.{
  NodeConfig, ContentSource, snapshot, volume, unset, CreateVolumeRequest, SpdkVolume, Controller,
}
use spdk_csi.Controller.Server.{
  SecretsReader, volume_id_of, requested_mib, get_spdk_vol, lift, run_on, get_spdk_node,
  find_in_stores, get_volume, find_space, schedule, get_snapshot_info, clone_from, create_new,
  make_volume, create_volume,
}
use spdk_csi.Controller.Nodes.{AllMade, run_on-Triple_from, get_spdk_node-Triple}

module _ {W : Type 0} (net : Net W) (read : SecretsReader) (cs : Controller) where
  -- No volume has been made after the action, whether it returns or fails.
  abbrev Reads : {A : Type 0} → Exec (W × Log) A → Type 0
  Reads m = Triple NothingMade m (λ _ w. NothingMade w) (λ _ w. NothingMade w)

  -- When the action fails, it has made no volume.
  abbrev Makes : {A : Type 0} → Exec (W × Log) A → Type 0
  Makes m = Triple NothingMade m (λ _ _. Unit) (λ _ w. NothingMade w)

  lift-Reads : (id : Str) → Reads (lift (get_spdk_vol id))
  lift-Reads id = lifted (get_spdk_vol id)
    where
      lifted : (r : Result SpdkVolume) → Reads (lift r)
      lifted (good v) = Triple-pure v (λ w h. h)
      lifted (bad e) = Triple-raise e (λ w h. h)

  -- An action that changes nothing and returns a node that `NewSpdkNode` made.
  abbrev Gets : Exec (W × Log) (Option (SpdkNode (W × Log))) → Type 0
  Gets m =
      Triple NothingMade m (λ n w. NothingMade w × AllMade (logged net) n) (λ _ w. NothingMade w)

  got : (name : Str) (secrets : Map) → Gets (get_spdk_node (logged net) read cs name secrets)
  got name secrets =
      Triple-weaken (λ e w h. h.0)
        (get_spdk_node-Triple (logged net) read cs {P = NothingMade} name secrets)

  got_or :
      (f : Error → Error) (name : Str) (secrets : Map)
      → Gets (on_error f (get_spdk_node (logged net) read cs name secrets))
  got_or f name secrets = Triple-on_error {E = λ _ w. NothingMade w} f _ (got name secrets)

  -- What is done with such a node, by what its methods make.
  with_node :
      {A : Type 0} {Q : A → W × Log → Type 0} (m : Exec (W × Log) (Option (SpdkNode (W × Log))))
      (k : Option (SpdkNode (W × Log)) → Exec (W × Log) A)
      → Gets m
      → ((n : Option (SpdkNode (W × Log)))
          → ((x : SpdkNode (W × Log)) → n ≡ some x → Making x)
          → Triple NothingMade (k n) Q (λ _ w. NothingMade w))
      → Triple NothingMade (m >>= k) Q (λ _ w. NothingMade w)
  with_node m k g t = Triple-bind m k g λ n. record {
    at = λ w h. (t n (λ x e. made-Making net x (subst (AllMade (logged net)) e h.1))).at w h.0;
  }

  reading :
      {A : Type 0} (n : Option (SpdkNode (W × Log)))
      (m : SpdkNode (W × Log) → Exec (Conn (W × Log)) A)
      → ((k : SpdkNode (W × Log)) → n ≡ some k → Keeps NoneMade (m k))
      → Reads (run_on n m)
  reading n m t =
      run_on-Triple_from (λ _ w. NothingMade w) (λ _ w. NothingMade w) {P = NothingMade} n m
        (λ k e. Triple-Keeps _ (t k e))

  find_in_stores-Keeps :
      (n : SpdkNode (W × Log)) (name : Str) (l : List LvStore)
      → Making n
      → Keeps NoneMade (find_in_stores (logged net) read n name l)
  unfolding find_in_stores
  find_in_stores-Keeps n name [] h = Keeps-pure none
  find_in_stores-Keeps n name (l ∷ ls) h =
      Keeps-bind _ _ (Keeps-attempt _ (h.looked_up name l.name))
        (elim [ good id ↦ Keeps-pure (some id) | bad e ↦ find_in_stores-Keeps n name ls h ])

  get_volume-Reads :
      (visit : List NodeConfig) (req : CreateVolumeRequest)
      → Reads (get_volume (logged net) read cs visit req)
  unfolding get_volume
  get_volume-Reads [] req = Triple-raise _ (λ w h. h)
  get_volume-Reads (c ∷ visit) req = with_node _ _ (got_or _ c.name req.secrets) λ n t.
      Triple-bind _ _
        (reading n _ (λ k e.
          Keeps-bind _ _ (Keeps-on_error _ _ ((t k e).stores))
            (λ l. find_in_stores-Keeps k req.name l (t k e))))
        (elim [ some id ↦ Triple-pure _ (λ w h. h) | none ↦ get_volume-Reads visit req ])

  module _ (name : Str) (size : ℤ) (rest : Exec (W × Log) (Str × Str)) (t : Reads rest) where
    chosen : (o : Option Str) → Reads (elim o [ some lvstore ↦ pure (name, lvstore) | none ↦ rest ])
    chosen (some l) = Triple-pure _ (λ w h. h)
    chosen none = t

    listed :
        (n : Option (SpdkNode (W × Log)))
        → Triple
            (λ w. NothingMade w × AllMade (logged net) n)
            (do
              stores ← run_on n (λ m. attempt m.lv_stores)
              elim stores [
                | bad _ ↦ rest
                | good l ↦ elim (find_space size l) [
                  | some lvstore ↦ pure (name, lvstore)
                  | none ↦ rest
                ]
              ])
            (λ _ w. NothingMade w)
            (λ _ w. NothingMade w)
    listed n = record {
      at = λ w h.
          (Triple-bind _ _
              (reading n _ (λ k e.
                Keeps-attempt _ (made-Making net k (subst (AllMade (logged net)) e h.1)).stores))
              (elim [ bad e ↦ t | good l ↦ chosen (find_space size l) ])).at
            w h.0;
    }

  schedule-Reads :
      (visit : List NodeConfig) (size : ℤ) (secrets : Map)
      → Reads (schedule (logged net) read cs visit size secrets)
  unfolding schedule
  schedule-Reads [] size secrets = Triple-raise _ (λ w h. h)
  schedule-Reads (c ∷ visit) size secrets =
      Triple-bind
        {R = Either (λ n w. NothingMade w × AllMade (logged net) n) (λ _ w. NothingMade w)} _ _
        (Triple-attempt _ (got c.name secrets))
        (elim [
          | bad e ↦ schedule-Reads visit size secrets
          | good n ↦ listed c.name size _ (schedule-Reads visit size secrets) n
        ])

  get_snapshot_info-Reads :
      (source : ContentSource) (secrets : Map)
      → Reads (get_snapshot_info (logged net) read cs source secrets)
  unfolding get_snapshot_info
  get_snapshot_info-Reads (snapshot id) secrets = Triple-bind _ _ (lift-Reads id) λ v.
      with_node _ _ (got v.node_name secrets) λ n t.
        Triple-bind _ _ (reading n _ (λ k e. (t k e).described v.lvol_id))
          (λ info. Triple-pure _ (λ w h. h))
  get_snapshot_info-Reads (volume id) secrets = Triple-raise _ (λ w h. h)
  get_snapshot_info-Reads unset secrets = Triple-raise _ (λ w h. h)

  -- A method that makes a volume, run on a node.
  making :
      (n : Option (SpdkNode (W × Log))) (m : SpdkNode (W × Log) → Exec (Conn (W × Log)) Str)
      (name : Str)
      → ((k : SpdkNode (W × Log))
          → n ≡ some k
          → Triple NoneMade (m k) (λ _ _. Unit) (λ _ s. NoneMade s))
      → Makes (do id ← run_on n m; pure (volume_id_of name id))
  making n m name t =
      Triple-bind _ _
        (run_on-Triple_from (λ _ _. Unit) (λ _ w. NothingMade w) {P = NothingMade} n m t)
        (λ id. Triple-pure _ (λ w h. tt))

  clone_from-Makes :
      (source : ContentSource) (req : CreateVolumeRequest)
      → Makes (clone_from (logged net) read cs source req)
  unfolding clone_from
  clone_from-Makes source req = Triple-bind _ _ (get_snapshot_info-Reads source req.secrets) λ p.
      with_node _ _ (got_or _ p.0 req.secrets)
        λ n t. making n _ p.0 (λ k e. (t k e).cloned req.name p.1 p.2)

  create_new-Makes :
      (visit : List NodeConfig) (req : CreateVolumeRequest)
      → Makes (create_new (logged net) read cs visit req)
  unfolding create_new
  create_new-Makes visit req =
      Triple-bind _ _ (schedule-Reads visit (requested_mib req.required_bytes) req.secrets) λ p.
        with_node _ _ (got_or _ p.0 req.secrets)
          λ n t. making n _ p.0 (λ k e. (t k e).created req.name p.1 _)

  make_volume-Makes :
      (visit : List NodeConfig) (req : CreateVolumeRequest) (o : Option ContentSource)
      → Makes (make_volume (logged net) read cs visit req o)
  make_volume-Makes visit req (some source) = clone_from-Makes source req
  make_volume-Makes visit req none = create_new-Makes visit req

  -- `createVolume` has made no volume when it fails.
  pub create_volume-Makes :
      (visit₁ visit₂ : List NodeConfig) (req : CreateVolumeRequest)
      → Makes (create_volume (logged net) read cs visit₁ visit₂ req)
  unfolding create_volume
  create_volume-Makes visit₁ visit₂ req =
      Triple-bind {R = Either (λ _ w. NothingMade w) (λ _ w. NothingMade w)} _ _
        (Triple-attempt _ (get_volume-Reads visit₁ req))
        λ found. Triple-bind {R = λ _ _. Unit} _ _ (either found) (λ id. Triple-pure _ (λ w h. tt))
    where
      either :
          (r : Result Str)
          → Triple {S = W × Log} {A = Str}
              (Either (λ _ w. NothingMade w) (λ _ w. NothingMade w) r)
              (elim r [
                | good id ↦ pure id
                | bad _ ↦ make_volume (logged net) read cs visit₂ req req.content_source
              ])
              (λ _ _. Unit)
              (λ _ w. NothingMade w)
      either (good id) = Triple-pure id (λ w h. tt)
      either (bad e) = make_volume-Makes visit₂ req req.content_source
