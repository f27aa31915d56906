-- ===== src/Node/Context.antt =====
-- The stashed contexts of pkg/util/util.go: a map that outlives the node server in a JSON file.
use spdk_csi.Prelude.{◌⊎◌, inl, inr, List, [], ◌∷◌, ◌++◌, String, if◌then◌else◌}
use spdk_csi.Text.{Str, str}
use spdk_csi.Effect.{
  Error, message, wrapped, is_not_exist, Result, good, bad, Exec, pure, raise, attempt, on_error,
  ◌>>=◌, ◌>>◌,
}
use spdk_csi.Target.Nvmf.{Map}
use spdk_csi.Node.Host.{
  mkdir_all, remove, stat, read_file, write_file, bytes_of, Host, act, act_unit,
}

-- What `json.Unmarshal` stores in an `interface{}`, as far as the code looks at it. The text is the
-- key in the bytes of the error that names it.
pub data JsonValue : Type 0 where
  text : Str → JsonValue
  other : JsonValue

pub data Json : Type 0 where
  object : List (String × JsonValue) → Json
  no_object : Json

-- `json.Marshal` of a map, `json.Unmarshal` with the text of its error, and the bytes of a key.
pub record Codec : Type 0 where
  pub marshal : Map → Str
  pub unmarshal : Str → Str ⊎ Json
  pub bytes_of_key : String → Str

abbrev pub volume_context_file_name : Str
volume_context_file_name = str "volume-context.json"

abbrev pub xpu_context_file_name : Str
xpu_context_file_name = str "xpu-context.json"

module _ (codec : Codec) where
  abbrev pub add_entry : String → Str → Result Map → Result Map
  add_entry k v (good m) = good ((k, v) ∷ m)
  add_entry k v (bad e) = bad e

  abbrev pub convert_entries : List (String × JsonValue) → Result Map
  convert_entries [] = good []
  convert_entries ((k, text v) ∷ l) = add_entry k v (convert_entries l)
  convert_entries ((k, other) ∷ l) =
      bad (message (str "the value for key " ++ (codec.bytes_of_key k ++ str " is not a string")))

  -- `ConvertInterfaceToMap`
  unfoldable pub convert_interface_to_map : Json → Result Map
  convert_interface_to_map no_object =
      bad (message (str "the data is not a map[string]interface{}"))
  convert_interface_to_map (object l) = convert_entries l

module _ {W : Type 0} (host : Host W) (codec : Codec) where
  -- The folder is made if it is not there; any other error of `os.Stat` is not looked at.
  abbrev pub make_folder : Str → Result Unit → Exec W Unit
  make_folder folder (good _) = pure tt
  make_folder folder (bad e) = if is_not_exist e then act_unit host (mkdir_all folder) else pure tt

  unfoldable pub stash_context : Map → Str → Str → Exec W Unit
  stash_context data_ folder file_name = do
    r ← attempt (act_unit host (stat folder))
    make_folder folder r
    let path = host.join folder file_name
    on_error (wrapped (str "failed to marshall context JSON at path (" ++ (path ++ str ")")))
        (act_unit host (write_file path (codec.marshal data_)))

  abbrev pub decoded : Str → Str ⊎ Json → Exec W Json
  decoded path (inr j) = pure j
  decoded path (inl m) = raise (
      wrapped (str "failed to unmarshall stashed context JSON from path (" ++ (path ++ str ")"))
        (message m))

  abbrev pub read_failure : Str → Error → Error
  read_failure path e =
      if is_not_exist e
      then message (str "volume context JSON file not found")
      else wrapped (str "failed to read stashed context JSON from path (" ++ (path ++ str ")")) e

  unfoldable pub lookup_context : Str → Str → Exec W Json
  lookup_context folder file_name = do
    let path = host.join folder file_name
    content ← on_error (read_failure path) (act host (read_file path))
    decoded path (codec.unmarshal (bytes_of content))

  unfoldable pub clean_up_context : Str → Str → Exec W Unit
  clean_up_context folder file_name = do
    let path = host.join folder file_name
    on_error (wrapped (str "failed to cleanup volume context stash (" ++ (path ++ str ")")))
        (act_unit host (remove path))

  abbrev pub to_map : Result Map → Exec W Map
  to_map (good m) = pure m
  to_map (bad e) = raise e

  unfoldable pub stash_volume_context : Map → Str → Exec W Unit
  stash_volume_context m path = stash_context m path volume_context_file_name

  unfoldable pub lookup_volume_context : Str → Exec W Map
  lookup_volume_context path = do
    j ← lookup_context path volume_context_file_name
    to_map (convert_interface_to_map codec j)

  unfoldable pub clean_up_volume_context : Str → Exec W Unit
  clean_up_volume_context path = clean_up_context path volume_context_file_name

  unfoldable pub stash_xpu_context : Map → Str → Exec W Unit
  stash_xpu_context m path = stash_context m path xpu_context_file_name

  unfoldable pub lookup_xpu_context : Str → Exec W Map
  lookup_xpu_context path = do
    j ← lookup_context path xpu_context_file_name
    to_map (convert_interface_to_map codec j)

  unfoldable pub clean_up_xpu_context : Str → Exec W Unit
  clean_up_xpu_context path = clean_up_context path xpu_context_file_name
