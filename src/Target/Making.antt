-- ===== src/Target/Making.antt =====
-- The methods of a node object by the volumes that they make: `CreateVolume` and `CloneVolume` of
-- both kinds of node, and the methods that only read.
use spdk_csi.Prelude.Int.{ℤ}
use spdk_csi.Prelude.{◌≡◌, refl, Bool, true, false, Option, none, some, ◌∷◌, All, if◌then◌else◌}
use spdk_csi.Text.{Str}
use spdk_csi.Effect.{
  Error, json_no_space_left, good, bad, Exec, pure, raise, attempt, check, ◌>>=◌, ◌>>◌,
}
use spdk_csi.Effect.Keeps.{Keeps, Keeps-pure, Keeps-raise, Keeps-if, Keeps-bind}
use spdk_csi.Effect.Triple.{
  Triple, Either, Triple-attempt, Triple-bind, Triple-pure, Triple-strengthen, Triple-Keeps,
}
use spdk_csi.Rpc.Message.{Request, bdev_lvol_create, bdev_lvol_clone, text_of, Net}
use spdk_csi.Rpc.Client.{Client, Conn, call, error_matches}
use spdk_csi.Rpc.Client
use spdk_csi.Rpc.Client.Methods.{
  get_volume-Keeps, lv_stores-Keeps, is_volume_created-Keeps, get_lvstore-Keeps,
}
use spdk_csi.Rpc.Log.{Exchange, Log, logged, log_of}
use spdk_csi.Target.Nvmf.{NvmfNode, alias}
use spdk_csi.Target.Nvmf
use spdk_csi.Target.Nvmf.Methods.{volume_info-Keeps}
use spdk_csi.Target.Iscsi.{IscsiNode}
use spdk_csi.Target.Iscsi
use spdk_csi.Target.Node.{SpdkNode, nvmf_node, iscsi_node}
use spdk_csi.Target.Unpublish.{Made, nvmf, iscsi}

-- The requests that make a volume.
abbrev pub is_making : Request → Bool
is_making (bdev_lvol_create _ _ _ _ _) = true
is_making (bdev_lvol_clone _ _) = true
is_making _ = false

-- An exchange that made no volume: it asked for none, or `call` found an error.
pub data Unmade (x : Exchange) : Type 0 where
  other : is_making x.request ≡ false → Unmade x
  refused : (e : Error) → x.outcome.error ≡ some e → Unmade x

-- No volume was made.
abbrev pub NothingMade : {W : Type 0} → W × Log → Type 0
NothingMade w = All Unmade w.1

abbrev pub NoneMade : {W : Type 0} → Conn (W × Log) → Type 0
NoneMade s = All Unmade (log_of s)

module _ {W : Type 0} (net : Net W) (client : Client) where
  reading-Keeps :
      (req : Request) → is_making req ≡ false → Keeps NoneMade (call (logged net) client req)
  unfolding call
  reading-Keeps req e = record { at = λ s h. (other e, h) }

  -- No volume was made, if `call` found an error.
  abbrev Spared : Option Error → Log → Type 0
  Spared none log = Unit
  Spared (some e) log = All Unmade log

  spared :
      (x : Exchange) (o : Option Error) (log : Log)
      → x.outcome.error ≡ o
      → All Unmade log
      → Spared o (x ∷ log)
  spared x none log q h = tt
  spared x (some e) log q h = (refused e q, h)

  call-Spared :
      (req : Request)
      → Triple NoneMade
          (call (logged net) client req)
          (λ r s. Spared r.error (log_of s))
          (λ _ s. NoneMade s)
  unfolding call
  call-Spared req = record { at = λ s h. spared _ _ (log_of s) refl h }

  checked :
      {A : Type 0} (o : Option Error) (a : A)
      → Triple {S = Conn (W × Log)}
          (λ s. Spared o (log_of s))
          (do check o; pure a)
          (λ _ _. Unit)
          (λ _ s. NoneMade s)
  checked none a = record { at = λ s h. tt }
  checked (some e) a = record { at = λ s h. h }

  matched :
      {A : Type 0} (o : Option Error) (a : A)
      → Triple {S = Conn (W × Log)}
          (λ s. Spared o (log_of s))
          (if error_matches o json_no_space_left
            then raise json_no_space_left
            else (do check o; pure a))
          (λ _ _. Unit)
          (λ _ s. NoneMade s)
  unfolding error_matches
  matched none a = record { at = λ s h. tt }
  matched (some e) a =
      Triple-strengthen (λ _ _ _. tt)
        (Triple-Keeps _ (
          Keeps-if (error_matches (some e) json_no_space_left) _ _ (Keeps-raise _) (Keeps-raise e)))

  abbrev Makes : Exec (Conn (W × Log)) Str → Type 0
  Makes m = Triple NoneMade m (λ _ _. Unit) (λ _ s. NoneMade s)

  client_create-Makes :
      (name store : Str) (size : ℤ)
      → Makes (Client.create_volume (logged net) client name store size)
  unfolding Client.create_volume
  client_create-Makes name store size =
      Triple-bind _ _ (call-Spared _) (λ r. matched r.error (text_of r.result))

  client_clone-Makes :
      (name source : Str) → Makes (Client.clone_volume (logged net) client name source)
  unfolding Client.clone_volume
  client_clone-Makes name source =
      Triple-bind _ _ (call-Spared _) (λ r. checked r.error (text_of r.result))

  client_get-Keeps : (id : Str) → Keeps NoneMade (Client.get_volume (logged net) client id)
  client_get-Keeps id = get_volume-Keeps _ client id (reading-Keeps _ refl)

  -- A volume of that name is looked up first, and is made where the lookup fails.
  unless_found :
      (id : Str) (m : Exec (Conn (W × Log)) Str)
      → Makes m
      → Makes (do
        r ← attempt (Client.get_volume (logged net) client id)
        elim r [ good lvol ↦ pure lvol.uuid | bad _ ↦ m ])
  unless_found id m t =
      Triple-bind {R = Either (λ _ s. NoneMade s) (λ _ s. NoneMade s)} _ _
        (Triple-attempt _ (Triple-Keeps _ (client_get-Keeps id)))
        (elim [ good lvol ↦ Triple-pure lvol.uuid (λ s h. tt) | bad e ↦ t ])

-- The methods of a node object that reading a volume takes, and those that make one.
pub record Making {W : Type 0} (n : SpdkNode (W × Log)) : Type 0 where
  pub stores : Keeps NoneMade n.lv_stores
  pub looked_up : (name store : Str) → Keeps NoneMade (n.lookup_volume name store)
  pub described : (id : Str) → Keeps NoneMade (n.volume_info id)
  pub created :
      (name store : Str) (size : ℤ)
      → Triple NoneMade (n.create_volume name store size) (λ _ _. Unit) (λ _ s. NoneMade s)
  pub cloned :
      (name store source : Str)
      → Triple NoneMade (n.clone_volume name store source) (λ _ _. Unit) (λ _ s. NoneMade s)

module _ {W : Type 0} (net : Net W) where
  iscsi_info-Keeps :
      (client : Client) (node : IscsiNode) (id : Str)
      → Keeps NoneMade (Iscsi.volume_info (logged net) client node id)
  unfolding Iscsi.volume_info
  iscsi_info-Keeps client node id =
      Keeps-bind _ _ (is_volume_created-Keeps _ client id (reading-Keeps net client _ refl)) λ b.
        Keeps-if _ _ _ (Keeps-raise _) (
          Keeps-bind _ _
            (get_lvstore-Keeps _ client id (reading-Keeps net client _ refl)
              (reading-Keeps net client _ refl))
            (λ l. Keeps-pure _))

  pub made-Making : (n : SpdkNode (W × Log)) → Made (logged net) n → Making n
  unfolding nvmf_node iscsi_node Nvmf.create_volume Nvmf.clone_volume Nvmf.lookup_volume
      Iscsi.create_volume Iscsi.clone_volume Iscsi.lookup_volume
  made-Making n (nvmf client node) = record {
    stores = lv_stores-Keeps _ client (reading-Keeps net client _ refl);
    looked_up = λ name store.
        Keeps-bind _ _ (client_get-Keeps net client (alias store name))
          (λ lvol. Keeps-pure lvol.uuid);
    described = λ id.
        volume_info-Keeps _ client node id (reading-Keeps net client _ refl)
          (reading-Keeps net client _ refl);
    created = λ name store size.
        unless_found net client (alias store name) _
          (client_create-Makes net client name store size);
    cloned = λ name store source.
        unless_found net client (alias store name) _ (client_clone-Makes net client name source);
  }
  made-Making n (iscsi client node) = record {
    stores = lv_stores-Keeps _ client (reading-Keeps net client _ refl);
    looked_up = λ name store.
        Keeps-bind _ _ (client_get-Keeps net client (alias store name))
          (λ lvol. Keeps-pure lvol.uuid);
    described = λ id. iscsi_info-Keeps client node id;
    created = λ name store size.
        unless_found net client (alias store name) _
          (client_create-Makes net client name store size);
    cloned = λ name store source.
        unless_found net client (alias store name) _ (client_clone-Makes net client name source);
  }
