-- ===== src/Startup/Parsed.antt =====
-- `ParseJSONFile` of pkg/util/util.go when it succeeds: the file that it opened, read and closed.
use spdk_csi.Prelude.{ℕ, ◌≡◌, refl}
use spdk_csi.Text.{Str}
use spdk_csi.Effect.{ok, Result, good, bad, ignore, ◌>>◌}
use spdk_csi.Effect.Triple.{
  Triple, Either, Triple-at, Triple-attempt, Triple-bind, Triple-pure, Triple-any, Triple-weaken,
  Triple-ignore, Triple-left, Triple-raise,
}
use spdk_csi.Startup.System.{System, returned}
use spdk_csi.Startup.Config.{parse_json_file}

module _ {W : Type 0} (sys : System W) where
  module _ {A : Type 0} (decode : Str → Result A) (file : Str) (w : W) where
    -- The file was opened, its bytes were read, and they decode to the value; it was closed.
    pub record Parsed (a : A) (w' : W) : Type 0 where
      pub handle : ℕ
      pub w_open : W
      pub opened : sys.open_file file w ≡ (ok handle, w_open)
      pub bytes : Str
      pub w_read : W
      pub content : sys.read_all handle w_open ≡ (ok bytes, w_read)
      pub decoded : decode bytes ≡ good a
      pub closed : (sys.close handle w_read).1 ≡ w'

  module _ {A : Type 0} (decode : Str → Result A) where
    abbrev Content : ℕ → W → A → W → Type 0
    Content handle w a t =
        (bytes : Str) × (sys.read_all handle w ≡ (ok bytes, t)) × (decode bytes ≡ good a)

    decoded :
        (handle : ℕ) (w : W) (bytes : Str) (r : Result A)
        → decode bytes ≡ r
        → Triple
            (λ t. sys.read_all handle w ≡ (ok bytes, t))
            (returned r)
            (λ a t. Content handle w a t)
            (λ _ _. Unit)
    decoded handle w bytes (good a) e = Triple-pure a (λ t h. (bytes, h, e))
    decoded handle w bytes (bad x) e = Triple-raise x (λ t h. tt)

    closed :
        (file : Str) (w : W) (handle : ℕ) (w₁ : W) (r : Result A)
        → sys.open_file file w ≡ (ok handle, w₁)
        → Triple
            (Either (λ a t. Content handle w₁ a t) (λ _ _. Unit) r)
            (do ignore (sys.close handle); returned r)
            (λ a t. Parsed decode file w a t)
            (λ _ _. Unit)
    closed file w handle w₁ (bad x) o =
        Triple-bind _ _ (Triple-ignore _ (Triple-any (sys.close handle)))
          (λ _. Triple-raise x (λ t h. tt))
    closed file w handle w₁ (good a) o =
        Triple-bind _ _ (Triple-left (Content handle w₁ a) (sys.close handle)) (λ _.
          Triple-pure a (λ t h. record {
            handle = handle;
            w_open = w₁;
            opened = o;
            bytes = h.1.0;
            w_read = h.0;
            content = h.1.1;
            decoded = h.1.2;
            closed = h.2;
          }))

    pub parse_json_file-Parsed :
        (file : Str) (w : W)
        → Triple
            (λ t. t ≡ w)
            (parse_json_file sys decode file)
            (λ a t. Parsed decode file w a t)
            (λ _ _. Unit)
    unfolding parse_json_file
    parse_json_file-Parsed file w =
        Triple-bind _ _ (Triple-weaken (λ _ _ _. tt) (Triple-at w (sys.open_file file))) λ handle.
          record {
            at = λ w₁ o.
                (Triple-bind {P = λ t. t ≡ w₁} _ _
                    (Triple-attempt _ (
                      Triple-bind _ _
                        (Triple-weaken (λ _ _ _. tt) (Triple-at w₁ (sys.read_all handle)))
                        λ bytes. decoded handle w₁ bytes (decode bytes) refl))
                    (λ r. closed file w handle w₁ r o)).at
                  w₁ refl;
          }
