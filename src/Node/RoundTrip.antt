-- ===== src/Node/RoundTrip.antt =====
-- `StashVolumeContext` and `LookupVolumeContext` of pkg/util/util.go, one after the other.
use spdk_csi.Prelude.{◌≡◌, refl, ap, ◌∙◌, inr, List, [], ◌∷◌, String}
use spdk_csi.Text.{Str}
use spdk_csi.Effect.{
  Error, ok, Result, good, bad, Exec, pure, raise, continue, try_outcome, on_error, ◌>>=◌,
}
use spdk_csi.Effect.Triple.{
  Ends, Triple, Triple-bind, Triple-pure, Triple-any, Triple-on_error, Triple-strengthen,
}
use spdk_csi.Target.Nvmf.{Map}
use spdk_csi.Node.Host.{read_file, write_file, Answer, bytes, Host, answer_in, act, act_unit}
use spdk_csi.Node.Context.{
  JsonValue, text, object, Codec, volume_context_file_name, convert_entries,
  convert_interface_to_map, decoded, make_folder, to_map, stash_context, lookup_context,
  stash_volume_context, lookup_volume_context,
}

-- A file that was written is read back as it was written.
abbrev pub ReadsBack : {W : Type 0} → Host W → Type 0
ReadsBack {W} host =
    (path content : Str) (w : W) (a : Answer)
    → (host.perform (write_file path content) w).0 ≡ good a
    → (host.perform (read_file path) (host.perform (write_file path content) w).1).0
      ≡ good (bytes content)

-- The JSON object of a map of strings.
abbrev pub texts : Map → List (String × JsonValue)
texts [] = []
texts ((k, v) ∷ m) = (k, text v) ∷ texts m

-- The JSON of the map decodes to its object.
abbrev pub Decodes : Codec → Map → Type 0
Decodes codec m = codec.unmarshal (codec.marshal m) ≡ inr (object (texts m))

convert_entries-texts : (codec : Codec) (m : Map) → convert_entries codec (texts m) ≡ good m
convert_entries-texts codec [] = refl
convert_entries-texts codec ((k, v) ∷ m) = rw (convert_entries-texts codec m) refl

module _ {S A B : Type 0} (m : Exec S A) (s s' : S) (a : A) where
  pub bind-run : (f : A → Exec S B) → m s ≡ (ok a, s') → (m >>= f) s ≡ f a s'
  bind-run f h = ap (λ r. continue r.0 f r.1) h

module _ {S A : Type 0} (m : Exec S A) (s s' : S) (a : A) where
  pub on_error-run : (f : Error → Error) → m s ≡ (ok a, s') → on_error f m s ≡ (ok a, s')
  on_error-run f h =
      ap
        (λ r.
          continue (try_outcome r.0 r.1).0 (elim [ good b ↦ pure b | bad e ↦ raise (f e) ])
            (try_outcome r.0 r.1).1)
        h

module _ {W : Type 0} (host : Host W) (codec : Codec) where
  -- The file holds the content in this state.
  abbrev pub Holds : Str → Str → W → Type 0
  Holds path content w = (host.perform (read_file path) w).0 ≡ good (bytes content)

  write-Ends :
      (path content : Str) (w : W) (r : Result Answer) (w' : W)
      → ((a : Answer) → r ≡ good a → Holds path content w')
      → Ends (λ _ s. Holds path content s) (λ _ _. Unit) (answer_in r w')
  write-Ends path content w (good a) w' h = h a refl
  write-Ends path content w (bad e) w' h = tt

  write-Triple :
      (path content : Str)
      → ReadsBack host
      → Triple
          (λ _. Unit)
          (act host (write_file path content))
          (λ _ s. Holds path content s)
          (λ _ _. Unit)
  unfolding act
  write-Triple path content h = record {
    at = λ w _.
        write-Ends path content w (host.perform (write_file path content) w).0
          (host.perform (write_file path content) w).1 (λ a e. h path content w a e);
  }

  pub stash_context-Holds :
      (m : Map) (folder name : Str)
      → ReadsBack host
      → Triple
          (λ _. Unit)
          (stash_context host codec m folder name)
          (λ _ s. Holds (host.join folder name) (codec.marshal m) s)
          (λ _ _. Unit)
  unfolding stash_context
  stash_context-Holds m folder name h = Triple-bind {R = λ _ _. Unit} _ _ (Triple-any _) λ r.
      Triple-bind {R = λ _ _. Unit} (make_folder host codec folder r) _ (Triple-any _) λ _.
        Triple-on_error _ (act_unit host (write_file (host.join folder name) (codec.marshal m))) (
          Triple-bind (act host (write_file (host.join folder name) (codec.marshal m))) _
            (write-Triple (host.join folder name) (codec.marshal m) h)
            (λ _. Triple-pure tt (λ s q. q)))

  -- A context whose JSON the file holds is what the lookup decodes.
  pub lookup_context-found :
      (m : Map) (folder name : Str) (w : W)
      → Decodes codec m
      → Holds (host.join folder name) (codec.marshal m) w
      → lookup_context host codec folder name w
        ≡ (ok (object (texts m)), (host.perform (read_file (host.join folder name)) w).1)
  unfolding lookup_context act
  lookup_context-found m folder name w d h =
      let path = host.join folder name in
      let w' = (host.perform (read_file path) w).1 in
      bind-run (on_error _ (act host (read_file path))) w w' (bytes (codec.marshal m)) _ (
        on_error-run (act host (read_file path)) w w' (bytes (codec.marshal m)) _
          (ap (λ r. answer_in r w') h))
      ∙ ap (λ j. decoded host codec path j w') d

  pub converted :
      (m : Map) (folder name : Str) (w : W)
      → Decodes codec m
      → Holds (host.join folder name) (codec.marshal m) w
      → (lookup_context host codec folder name >>= λ j.
            to_map host codec (convert_interface_to_map codec j))
          w
        ≡ (ok m, (host.perform (read_file (host.join folder name)) w).1)
  unfolding convert_interface_to_map
  converted m folder name w d h =
      let w' = (host.perform (read_file (host.join folder name)) w).1 in
      bind-run (lookup_context host codec folder name) w w' (object (texts m)) _
        (lookup_context-found m folder name w d h)
      ∙ ap (λ r. to_map host codec r w') (convert_entries-texts codec m)

  lookup_volume_context-found :
      (m : Map) (folder : Str) (w : W)
      → Decodes codec m
      → Holds (host.join folder volume_context_file_name) (codec.marshal m) w
      → (lookup_volume_context host codec folder w).0 ≡ ok m
  unfolding lookup_volume_context
  lookup_volume_context-found m folder w d h =
      ap (λ x. x.0) (converted m folder volume_context_file_name w d h)

  -- On a machine where a written file reads back and for a map whose JSON decodes to it, after
  -- StashVolumeContext succeeds LookupVolumeContext of the same folder returns the map.
  pub stash-lookup_volume_context :
      (m : Map) (folder : Str)
      → ReadsBack host
      → Decodes codec m
      → Triple
          (λ _. Unit)
          (stash_volume_context host codec m folder)
          (λ _ w. (lookup_volume_context host codec folder w).0 ≡ ok m)
          (λ _ _. Unit)
  unfolding stash_volume_context
  stash-lookup_volume_context m folder r d =
      Triple-strengthen (λ _ w q. lookup_volume_context-found m folder w d q)
        (stash_context-Holds m folder volume_context_file_name r)
