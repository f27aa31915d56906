-- ===== src/Backend/Opi/Moves.antt =====
-- The steps of an OPI initiator as triples: which objects are made before and after a step.
use spdk_csi.Prelude.{◌≡◌, ◌≢◌, refl, Bool, true, false, [], ◌∷◌, ◌&&◌, arith}
use spdk_csi.Text.{Str, str_eq}
use spdk_csi.Effect.{Error, Outcome, ok, err, panic, Exec, pure, on_error, ◌>>◌}
use spdk_csi.Effect.Triple.{Ends, Triple, Triple-weaken}
use spdk_csi.Backend.Opi.{
  Kind, remote_controller, path, subsystem, controller, namespace, virtio_blk, keep_name, drop_name,
}
use spdk_csi.Backend.Opi.Ledger.{at_kinds, created, deleted, View, with, without}
use spdk_csi.Backend.Opi.Steps.{
  Field, Noted, Creates, Deletes, Stage, Stage-weaken, Stage-Noted, Stage-created, Tracked-dropped,
  Clear-dropped, nothing, still_clear,
}

module _ {S : Type 0} (v : View S) (k : Kind) (set : Str → S → S) (fd : Field v k set)
    {f g : Kind → Bool} (e : Error → Error) where
  keep-Ends :
      (r : Outcome Str) (s t : S)
      → f k ≡ true
      → Stage v f g s
      → Ends
          (λ n t. (n ≢ []) × Noted v s (created k n ∷ v.log s) t)
          (λ _ t. Noted v s (v.log s) t)
          (r, t)
      → Ends
          (λ _ t. Stage v (without k f) (with k g) t)
          (λ _ t. Stage v f g t)
          (keep_name e (λ (_ : S). (r, t)) set s)
  keep-Ends (ok n) s t fk h x = Stage-created v k set fd n fk h x.0 x.1
  keep-Ends (err _) s t fk h x = Stage-Noted v h x
  keep-Ends panic s t fk h x = tt

  -- A creation makes the object of its kind, or changes nothing.
  pub keep_name-Triple :
      (m : Exec S Str)
      → Creates v k m
      → f k ≡ true
      → Triple
          (Stage v f g)
          (keep_name e m set)
          (λ _ t. Stage v (without k f) (with k g) t)
          (λ _ t. Stage v f g t)
  keep_name-Triple m c fk = record { at = λ s h. keep-Ends (m s).0 s (m s).1 fk h (c.at s) }

module _ {S : Type 0} (v : View S) (k : Kind) (set : Str → S → S) (fd : Field v k set)
    {f : Kind → Bool} (e : Error → Error) (Refused : Type 0) where
  drop-Ends :
      (r : Outcome Unit) (s t : S)
      → Stage v f nothing s
      → Ends
          (λ _ t. Noted v s (deleted k (v.name s k) ∷ v.log s) t)
          (λ _ t. Noted v s (v.log s) t × Refused)
          (r, t)
      → Ends
          (λ _ t. Stage v (with k f) nothing t)
          (λ _ t. Stage v f nothing t × Refused)
          ((do on_error e (λ (_ : S). (r, t)); λ s'. pure tt (set [] s')) s)
  drop-Ends (ok _) s t h x = record {
    tracked = Tracked-dropped v k set fd h x;
    clear = Clear-dropped v k set fd h x;
    made = λ j y. cc;
  }
  drop-Ends (err _) s t h x = (Stage-Noted v h x.0, x.1)
  drop-Ends panic s t h x = tt

  drop_name-cases :
      (m : Str → Exec S Unit) (b : Bool) (s : S)
      → Deletes v k Refused m
      → str_eq (v.name s k) [] ≡ b
      → Stage v f nothing s
      → Ends
          (λ _ t. Stage v (with k f) nothing t)
          (λ _ t. Stage v f nothing t × Refused)
          (drop_name e (λ t. v.name t k) m (set []) s)
  drop_name-cases m true s d b h = rw b (still_clear v k s b h)
  drop_name-cases m false s d b h =
      rw b (drop-Ends (m (v.name s k) s).0 s (m (v.name s k) s).1 h (d.at (v.name s k) s))

  -- A deletion leaves no object of its kind, or changes nothing.
  pub drop_name-Triple :
      (m : Str → Exec S Unit)
      → Deletes v k Refused m
      → Triple
          (Stage v f nothing)
          (drop_name e (λ s. v.name s k) m (set []))
          (λ _ t. Stage v (with k f) nothing t)
          (λ _ t. Stage v f nothing t × Refused)
  drop_name-Triple m d = record {
    at = λ s h. drop_name-cases m (str_eq (v.name s k) []) s d refl h;
  }

-- The kinds of the first are among those of the second.
abbrev pub Below : (Kind → Bool) → (Kind → Bool) → Type 0
Below f g = (k : Kind) → f k ≡ true → g k ≡ true

abbrev implies : Bool → Bool → Bool
implies true b = b
implies false b = true

-- The test of the same, kind by kind.
abbrev pub below : (Kind → Bool) → (Kind → Bool) → Bool
below f g =
    implies (f remote_controller) (g remote_controller)
    && (implies (f path) (g path)
        && (implies (f subsystem) (g subsystem)
            && (implies (f controller) (g controller)
                && (implies (f namespace) (g namespace) && implies (f virtio_blk) (g virtio_blk)))))

pub below→Below : (f g : Kind → Bool) → below f g ≡ true → Below f g
below→Below f g h =
    at_kinds _ (λ e. ground arith) (λ e. ground arith) (λ e. ground arith) (λ e. ground arith)
      (λ e. ground arith) (λ e. ground arith)

pub Below-nothing : (f : Kind → Bool) → Below nothing f
Below-nothing f k e = cc

module _ {S A : Type 0} (v : View S) (Refused : Type 0) {f g : Kind → Bool} (k : Kind)
    {m : Exec S A} where
  -- A deletion in a row of deletions, seen from before the first one.
  pub deletion :
      Below f g
      → Triple
          (Stage v g nothing)
          m
          (λ _ s. Stage v (with k g) nothing s)
          (λ _ s. Stage v g nothing s × Refused)
      → Triple
          (Stage v g nothing)
          m
          (λ _ s. Stage v (with k g) nothing s)
          (λ _ s. Stage v f nothing s × Refused)
  deletion b t = Triple-weaken (λ _ s x. (Stage-weaken v b (Below-nothing _) x.0, x.1)) t

module _ {S A : Type 0} (v : View S) {f f' g : Kind → Bool} (k : Kind) {m : Exec S A} where
  -- A creation in a row of creations, seen by who takes them all back.
  pub creation :
      Below f f'
      → Triple (Stage v f' g) m (λ _ s. Stage v (without k f') (with k g) s) (λ _ s. Stage v f' g s)
      → Triple
          (Stage v f' g)
          m
          (λ _ s. Stage v (without k f') (with k g) s)
          (λ _ s. Stage v f nothing s)
  creation b t = Triple-weaken (λ _ s x. Stage-weaken v b (Below-nothing _) x) t
