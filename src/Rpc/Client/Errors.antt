-- ===== src/Rpc/Client/Errors.antt =====
-- The errors of `rpcClient`: which are sentinels, what they tell, and when `getVolume` panics.
use spdk_csi.Prelude.Int.{pos, negsuc}
use spdk_csi.Prelude.{
  ℕ, zero, suc, ◌≡◌, ◌↔◌, refl, Bool, true, false, not, Option, none, some, List, [], ◌∷◌, leb,
  ◌==◌, inl, inr, ◌⊎◌, if◌then◌else◌,
}
use spdk_csi.Text.{Str}
use spdk_csi.Effect.{
  Error, json_no_such_device, is_no_such_device, is_volume_deleted, is_volume_unpublished, panic,
  good, bad, check, pure, raise,
}
use spdk_csi.Effect.Triple.{Triple, Triple-bind, Triple-attempt, Triple-pure, Triple-raise}
use spdk_csi.Rpc.Message.{
  Request, bdev_get_bdevs, bdev_lvol_delete, method, BDev, bdevs_of, Body, malformed, decoded,
  HttpReply, no_response, response, Net,
}
use spdk_csi.Rpc.Client.{
  Client, Conn, Called, next_id, check_body, check_reply, error_matches, first_bdev, call,
  call_unit, get_volume, is_volume_created, delete_volume,
}
use spdk_csi.Rpc.Client.Call.{reply_to}
use spdk_csi.Rpc.Log.{Log, logged, log_of}

-- No `errors.Is` of the driver answers yes.
abbrev pub Plain : Error → Type 0
Plain e =
    (is_no_such_device e ≡ false)
    × (is_volume_deleted e ≡ false)
    × (is_volume_unpublished e ≡ false)

abbrev pub PlainOption : Option Error → Type 0
PlainOption none = Unit
PlainOption (some e) = Plain e

PlainOption-if :
    (b : Bool) (x y : Called)
    → PlainOption x.error
    → PlainOption y.error
    → PlainOption (if b then x else y).error
PlainOption-if true x y p q = p
PlainOption-if false x y p q = q

check_body-Plain : (name : Str) (id : ℕ) (body : Body) → PlainOption (check_body name id body).error
unfolding check_body
check_body-Plain name id (malformed m p) = (refl, refl, refl)
check_body-Plain name id (decoded id' (pos zero) m p) =
    PlainOption-if (not (id' == id)) _ _ (refl, refl, refl) tt
check_body-Plain name id (decoded id' (pos (suc n)) m p) =
    PlainOption-if (not (id' == id)) _ _ (refl, refl, refl) (refl, refl, refl)
check_body-Plain name id (decoded id' (negsuc n) m p) =
    PlainOption-if (not (id' == id)) _ _ (refl, refl, refl) (refl, refl, refl)

pub check_reply-Plain :
    (name : Str) (id : ℕ) (reply : HttpReply) → PlainOption (check_reply name id reply).error
unfolding check_reply
check_reply-Plain name id (no_response m) = (refl, refl, refl)
check_reply-Plain name id (response status body) =
    PlainOption-if (leb 400 status) _ _ (refl, refl, refl) (check_body-Plain name id body)

first_cases :
    {W : Type 0} (b : Bool) (l : List BDev) (s : Conn W)
    → (((if b then raise json_no_such_device else first_bdev l) s).0 ≡ panic)
      ↔ ((b ≡ false) × (l ≡ []))
first_cases true l s = (λ h. cc, λ h. cc)
first_cases false [] s = (λ h. (refl, refl), λ h. refl)
first_cases false (b ∷ l) s = (λ h. cc, λ h. cc)

module _ {W : Type 0} (net : Net W) (client : Client) where
  -- getVolume of rpcClient panics exactly when the call left no block device in the result and its
  -- error, if any, does not match 'No such device'.
  pub get_volume_panics_iff :
      (id : Str) (s : Conn W)
      → let r =
          check_reply
            (method (bdev_get_bdevs id))
            (next_id s.rpc_id)
            (reply_to net client (bdev_get_bdevs id) s) in
        ((get_volume net client id s).0 ≡ panic)
        ↔ ((error_matches r.error json_no_such_device ≡ false) × (bdevs_of r.result ≡ []))
  unfolding get_volume call
  get_volume_panics_iff id s = first_cases _ _ _

-- The newest exchange is the answer that there is no such volume.
abbrev pub IsUnknown : Str → Log → Type 0
IsUnknown id [] = ⊥
IsUnknown id (x ∷ log) =
    (x.request ≡ bdev_get_bdevs id) × (error_matches x.outcome.error json_no_such_device ≡ true)

-- The newest exchange is the consent to deleting the volume, or the answer that there is none.
abbrev pub IsRemoved : Str → Log → Type 0
IsRemoved id [] = ⊥
IsRemoved id (x ∷ log) =
    (x.request ≡ bdev_lvol_delete id)
    × ((x.outcome.error ≡ none) ⊎ (error_matches x.outcome.error json_no_such_device ≡ true))

module _ {W : Type 0} (net : Net W) (client : Client) where
  pub call-PlainOption :
      {E : Error → Conn W → Type 0} (req : Request)
      → Triple (λ _. Unit) (call net client req) (λ r _. PlainOption r.error) E
  unfolding call
  call-PlainOption req = record {
    at = λ s h. check_reply-Plain (method req) (next_id s.rpc_id) (reply_to net client req s);
  }

  pub check-Plain :
      (e : Option Error)
      → Triple {S = Conn W} (λ _. PlainOption e) (check e) (λ _ _. Unit) (λ x _. Plain x)
  check-Plain none = record { at = λ s h. tt }
  check-Plain (some e) = record { at = λ s h. h }

  pub call_unit-Plain :
      (req : Request) → Triple (λ _. Unit) (call_unit net client req) (λ _ _. Unit) (λ x _. Plain x)
  unfolding call_unit
  call_unit-Plain req = Triple-bind _ _ (call-PlainOption req) (λ r. check-Plain r.error)

module _ {W : Type 0} (net : Net W) (client : Client) (id : Str) where
  abbrev Logged : Type 0
  Logged = Conn (W × Log)

  deleted :
      (e : Option Error)
      → Triple {S = Logged}
          (λ s. PlainOption e × (e ≡ none → IsRemoved id (log_of s)))
          (check e)
          (λ _ s. IsRemoved id (log_of s))
          (λ x s. is_no_such_device x ≡ true → IsRemoved id (log_of s))
  deleted none = record { at = λ s h. h.1 refl }
  deleted (some e) = record { at = λ s h p. cc }

  delete_decide :
      (e : Option Error) (b : Bool)
      → Triple {S = Logged}
          (λ s. PlainOption e × (((e ≡ none) ⊎ (b ≡ true)) → IsRemoved id (log_of s)))
          (if b then raise json_no_such_device else check e)
          (λ _ s. IsRemoved id (log_of s))
          (λ x s. is_no_such_device x ≡ true → IsRemoved id (log_of s))
  delete_decide e true = Triple-raise json_no_such_device (λ s h _. h.1 (inr refl))
  delete_decide e false = record { at = λ s h. (deleted e).at s (h.0, λ q. h.1 (inl q)) }

  -- `deleteVolume` of the client: success, or "no such device", is the target's own word.
  pub delete_volume-Triple :
      Triple
        (λ _. Unit)
        (delete_volume (logged net) client id)
        (λ _ s. IsRemoved id (log_of s))
        (λ e s. is_no_such_device e ≡ true → IsRemoved id (log_of s))
  unfolding delete_volume call
  delete_volume-Triple =
      Triple-bind
        {R = λ r s.
          PlainOption r.error
          × (((r.error ≡ none) ⊎ (error_matches r.error json_no_such_device ≡ true))
              → IsRemoved id (log_of s))}
        (call (logged net) client (bdev_lvol_delete id)) _
        (record {
          at = λ s h. (
            check_reply-Plain (method (bdev_lvol_delete id)) (next_id s.rpc_id)
                (reply_to (logged net) client (bdev_lvol_delete id) s),
            λ q. (refl, q),
          );
        })
        (λ r. delete_decide r.error (error_matches r.error json_no_such_device))

  lookup_decide :
      (l : List BDev) (b : Bool)
      → Triple {S = Logged}
          (λ s. b ≡ true → IsUnknown id (log_of s))
          (if b then raise json_no_such_device else first_bdev l)
          (λ _ _. Unit)
          (λ e s. (e ≡ json_no_such_device) × IsUnknown id (log_of s))
  lookup_decide l true = Triple-raise json_no_such_device (λ s h. (refl, h refl))
  lookup_decide [] false = record { at = λ s h. tt }
  lookup_decide (b ∷ l) false = record { at = λ s h. tt }

  get_volume-Triple :
      Triple
        (λ _. Unit)
        (get_volume (logged net) client id)
        (λ _ _. Unit)
        (λ e s. (e ≡ json_no_such_device) × IsUnknown id (log_of s))
  unfolding get_volume call
  get_volume-Triple =
      Triple-bind
        {R = λ r s. error_matches r.error json_no_such_device ≡ true → IsUnknown id (log_of s)}
        (call (logged net) client (bdev_get_bdevs id)) _ (record { at = λ s h q. (refl, q) })
        (λ r. lookup_decide (bdevs_of r.result) (error_matches r.error json_no_such_device))

  exists_decide :
      {E : Error → Logged → Type 0} (e : Error) (b : Bool)
      → Triple {S = Logged}
          (λ s. (b ≡ true) × IsUnknown id (log_of s))
          (if b then pure false else raise e)
          (λ c s. c ≡ false → IsUnknown id (log_of s))
          E
  exists_decide e true = Triple-pure false (λ s h _. h.1)
  exists_decide e false = record { at = λ s h. cc }

  -- `isVolumeCreated` never fails, and says no only on the target's word.
  pub is_volume_created-Triple :
      {E : Error → Logged → Type 0}
      → Triple
          (λ _. Unit)
          (is_volume_created (logged net) client id)
          (λ b s. b ≡ false → IsUnknown id (log_of s))
          E
  unfolding is_volume_created
  is_volume_created-Triple {E} = Triple-bind _ _ (Triple-attempt _ get_volume-Triple) (elim [
    | good b ↦ Triple-pure true (λ s h e. cc)
    | bad e ↦ record {
      at = λ s h. (exists_decide {E = E} e (is_no_such_device e)).at s (rw h.0 (refl, h.1));
    }
  ])
