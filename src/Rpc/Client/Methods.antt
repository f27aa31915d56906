-- ===== src/Rpc/Client/Methods.antt =====
-- The methods of `rpcClient` keep whatever each of their requests keeps.
use spdk_csi.Prelude.{true, false, List, [], ◌∷◌}
use spdk_csi.Text.{Str, str_eq}
use spdk_csi.Effect.{is_no_such_device, good, bad}
use spdk_csi.Effect.Keeps.{
  Keeps, Keeps-pure, Keeps-raise, Keeps-crash, Keeps-if, Keeps-attempt, Keeps-bind, Keeps-option,
  keeps_rules,
}
use spdk_csi.Rpc.Message.{
  Request, bdev_lvol_get_lvstores, bdev_get_bdevs, bdev_lvol_delete, BDev, Net,
}
use spdk_csi.Rpc.Client.{
  Client, Conn, LvStore, call, call_unit, first_bdev, find_lvstore, lv_stores, get_volume,
  is_volume_created, delete_volume, get_lvstore,
}

module _ {W : Type 0} {P : Conn W → Type 0} where
  first_bdev-Keeps : (l : List BDev) → Keeps P (first_bdev l)
  first_bdev-Keeps [] = Keeps-crash
  first_bdev-Keeps (b ∷ l) = Keeps-pure b

  find_lvstore-Keeps : (id uuid : Str) (l : List LvStore) → Keeps P (find_lvstore id uuid l)
  unfolding find_lvstore
  find_lvstore-Keeps id uuid [] = search keeps_rules
  find_lvstore-Keeps id uuid (l ∷ ls) =
      Keeps-if (str_eq l.uuid uuid) _ _ (Keeps-pure l.name) (find_lvstore-Keeps id uuid ls)

module _ {W : Type 0} {P : Conn W → Type 0} (net : Net W) (client : Client) where
  pub call_unit-Keeps :
      (req : Request) → Keeps P (call net client req) → Keeps P (call_unit net client req)
  unfolding call_unit
  call_unit-Keeps req k = search keeps_rules

  pub lv_stores-Keeps :
      Keeps P (call net client bdev_lvol_get_lvstores) → Keeps P (lv_stores net client)
  unfolding lv_stores
  lv_stores-Keeps k = search keeps_rules

  pub get_volume-Keeps :
      (id : Str)
      → Keeps P (call net client (bdev_get_bdevs id))
      → Keeps P (get_volume net client id)
  unfolding get_volume
  get_volume-Keeps id k = search (keeps_rules, first_bdev-Keeps)

  pub is_volume_created-Keeps :
      (id : Str)
      → Keeps P (call net client (bdev_get_bdevs id))
      → Keeps P (is_volume_created net client id)
  unfolding is_volume_created
  is_volume_created-Keeps id k = Keeps-bind _ _ (Keeps-attempt _ (get_volume-Keeps id k)) (elim [
    | good b ↦ Keeps-pure true
    | bad e ↦ Keeps-if (is_no_such_device e) _ _ (Keeps-pure false) (Keeps-raise e)
  ])

  pub get_lvstore-Keeps :
      (id : Str)
      → Keeps P (call net client (bdev_get_bdevs id))
      → Keeps P (call net client bdev_lvol_get_lvstores)
      → Keeps P (get_lvstore net client id)
  unfolding get_lvstore
  get_lvstore-Keeps id k l = Keeps-bind _ _ (get_volume-Keeps id k) λ b.
      Keeps-option b.lvol_store_uuid _ _ (Keeps-raise _)
        λ uuid. Keeps-bind _ _ (lv_stores-Keeps l) (find_lvstore-Keeps id uuid)

  pub delete_volume-Keeps :
      (id : Str)
      → Keeps P (call net client (bdev_lvol_delete id))
      → Keeps P (delete_volume net client id)
  unfolding delete_volume
  delete_volume-Keeps id k = search keeps_rules
