-- ===== src/Rpc/Client.antt =====
-- The methods of `rpcClient` in pkg/util/jsonrpc.go, and the settings of pkg/util/config.go.
pub mod Call
pub mod Methods
pub mod Errors
use spdk_csi.Prelude.Int.{ℤ, pos, ◌*ℤ◌, wrap64, quot}
use spdk_csi.Prelude.{
  ℕ, zero, ◌+◌, ◌*◌, ◌%◌, ◌^◌, ◌≡◌, refl, Bool, true, false, not, Option, none, some, List, [], ◌∷◌,
  ◌++◌, map, leb, ◌==◌, if◌then◌else◌,
}
use spdk_csi.Text.{Str, str, str_eq, to_lower, contains, trim_prefix, trim_space}
use spdk_csi.Text.Decimal.{format_nat}
use spdk_csi.Effect.{
  Error, json_no_space_left, json_no_such_device, message, wrapped, error_text, is_no_such_device,
  Exec, good, bad, pure, raise, crash, attempt, ◌>>=◌, ◌>>◌, check,
}
use spdk_csi.Rpc.Message.{
  Request, bdev_lvol_get_lvstores, bdev_lvol_create, bdev_lvol_clone, bdev_get_bdevs,
  bdev_lvol_delete, bdev_lvol_snapshot, method, BDev, RawLvStore, Payload, null, text_of, bdevs_of,
  lvstores_of, HttpRequest, Body, malformed, decoded, HttpReply, no_response, response, Net,
}

abbrev pub cfg_lvol_clear_method : Str
cfg_lvol_clear_method = str "unmap"

abbrev pub cfg_lvol_thin_provision : Bool
cfg_lvol_thin_provision = true

-- `rpcClient` without its counter, which is part of the state.
pub record Client : Type 0 where
  pub rpc_url : Str
  pub rpc_user : Str
  pub rpc_pass : Str

-- The mutable fields of a node object (`rpcID`, an int32 as its bit pattern, and `transCreated`),
-- and the world behind the network.
pub record Conn (W : Type 0) : Type 0 where
  pub rpc_id : ℕ
  pub trans_created : ℕ
  pub world : W

-- What `call` leaves: its error and the result variable.
pub record Called : Type 0 where
  pub error : Option Error
  pub result : Payload

-- `LvStore`
pub record LvStore : Type 0 where
  pub name : Str
  pub uuid : Str
  pub total_size_mib : ℤ
  pub free_size_mib : ℤ

-- The checks that `call` makes on what the HTTP client returned, in their order.
unfoldable pub check_body : Str → ℕ → Body → Called
check_body method_name id (malformed m partial) = record {
  error = some (wrapped method_name (message m));
  result = partial;
}
check_body method_name id (decoded id' code m result) =
    if not (id' == id)
    then record {
      error = some (message (method_name ++ str ": json response ID mismatch"));
      result = result;
    }
    else elim code [
      | pos zero ↦ record { error = none; result = result }
      | _ ↦ record {
        error = some (message (method_name ++ (str ": json response error: " ++ m)));
        result = result;
      }
    ]

unfoldable pub check_reply : Str → ℕ → HttpReply → Called
unfolding check_body
check_reply method_name id (no_response m) = record {
  error = some (wrapped method_name (message m));
  result = null;
}
check_reply method_name id (response status body) =
    if leb 400 status
    then record {
      error = some (message (method_name ++ (str ": HTTP error code: " ++ format_nat status)));
      result = null;
    }
    else check_body method_name id body

-- The id of the next request: `atomic.AddInt32(&client.rpcID, 1)`.
abbrev pub next_id : ℕ → ℕ
next_id id = (id + 1) % 2 ^ 32

-- The request that `call` posts.
abbrev pub http_request : Client → ℕ → Request → HttpRequest
http_request client id req = record {
  url = client.rpc_url;
  user = client.rpc_user;
  pass = client.rpc_pass;
  ver = str "2.0";
  id = id;
  params = req;
}

-- `errorMatches`, which also takes a nil error.
unfoldable pub error_matches : Option Error → Error → Bool
error_matches none tag = false
error_matches (some full) tag =
    contains (to_lower (error_text full))
      (trim_space (trim_prefix (to_lower (error_text tag)) (str "json:")))

-- An element of the result of `lvStores`: clusters to MiB, in int64 arithmetic.
unfoldable pub to_lvstore : RawLvStore → LvStore
to_lvstore r = record {
  name = r.name;
  uuid = r.uuid;
  total_size_mib = quot (quot (wrap64 (r.total_clusters *ℤ r.cluster_size)) 1024) 1024;
  free_size_mib = quot (quot (wrap64 (r.free_clusters *ℤ r.cluster_size)) 1024) 1024;
}

module _ {W : Type 0} where
  -- `&result[0]`: out of range on an empty result.
  abbrev pub first_bdev : List BDev → Exec (Conn W) BDev
  first_bdev [] = crash
  first_bdev (b ∷ _) = pure b

  -- The loop of `getLvstore` over the stores.
  unfoldable pub find_lvstore : Str → Str → List LvStore → Exec (Conn W) Str
  find_lvstore lvol_id uuid [] =
      raise (message (str "lvstore for " ++ (lvol_id ++ str " not found")))
  find_lvstore lvol_id uuid (l ∷ ls) =
      let rest = find_lvstore lvol_id uuid ls in if str_eq l.uuid uuid then pure l.name else rest

module _ {W : Type 0} (net : Net W) (client : Client) where
  -- `call`, whose marshalling cannot fail at these requests.
  unfoldable pub call : Request → Exec (Conn W) Called
  unfolding check_reply
  call req s =
      let id = next_id s.rpc_id in
      let (reply, w) = net.send (http_request client id req) s.world in
      pure (check_reply (method req) id reply) (record s { rpc_id = id; world = w })

  -- `return client.call(…)`
  unfoldable pub call_unit : Request → Exec (Conn W) Unit
  call_unit req = do r ← call req; check r.error

  unfoldable pub lv_stores : Exec (Conn W) (List LvStore)
  lv_stores = do
    r ← call bdev_lvol_get_lvstores
    check r.error
    pure (map to_lvstore (lvstores_of r.result))

  unfoldable pub create_volume : Str → Str → ℤ → Exec (Conn W) Str
  create_volume lvol_name lvs_name size_mib = do
    r ← call (
        bdev_lvol_create lvol_name (wrap64 (size_mib *ℤ pos (1024 * 1024))) lvs_name
          cfg_lvol_clear_method cfg_lvol_thin_provision)
    if error_matches r.error json_no_space_left
        then raise json_no_space_left
        else do check r.error; pure (text_of r.result)

  unfoldable pub clone_volume : Str → Str → Exec (Conn W) Str
  clone_volume lvol_name snapshot_name = do
    r ← call (bdev_lvol_clone lvol_name snapshot_name)
    check r.error
    pure (text_of r.result)

  -- An error that does not match `ErrJSONNoSuchDevice` is not looked at.
  unfoldable pub get_volume : Str → Exec (Conn W) BDev
  get_volume lvol_id = do
    r ← call (bdev_get_bdevs lvol_id)
    if error_matches r.error json_no_such_device
        then raise json_no_such_device
        else first_bdev (bdevs_of r.result)

  unfoldable pub is_volume_created : Str → Exec (Conn W) Bool
  is_volume_created lvol_id = do
    r ← attempt (get_volume lvol_id)
    elim r [ good _ ↦ pure true | bad e ↦ if is_no_such_device e then pure false else raise e ]

  unfoldable pub delete_volume : Str → Exec (Conn W) Unit
  delete_volume lvol_id = do
    r ← call (bdev_lvol_delete lvol_id)
    if error_matches r.error json_no_such_device then raise json_no_such_device else check r.error

  unfoldable pub snapshot : Str → Str → Exec (Conn W) Str
  snapshot lvol_name snapshot_name = do
    r ← call (bdev_lvol_snapshot lvol_name snapshot_name)
    check r.error
    pure (text_of r.result)

  unfoldable pub get_lvstore : Str → Exec (Conn W) Str
  get_lvstore lvol_id = do
    lvol ← get_volume lvol_id
    elim lvol.lvol_store_uuid [
      | none ↦ raise (message (str "no driver_specific for " ++ lvol_id))
      | some uuid ↦ do stores ← lv_stores; find_lvstore lvol_id uuid stores
    ]
