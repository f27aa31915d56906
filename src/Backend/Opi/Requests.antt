-- ===== src/Backend/Opi/Requests.antt =====
-- The requests of an OPI initiator to services that keep a record, from a state that holds them.
use spdk_csi.Prelude.{◌≡◌, ◌≢◌, refl, ap, sym, ◌∙◌, [], ◌∷◌, Bool, true, false, if◌then◌else◌}
use spdk_csi.Text.{Str, str_eq}
use spdk_csi.Effect.{Error, Outcome, ok, err, panic, Exec, pure, zoom, on_error, ◌>>=◌}
use spdk_csi.Effect.Triple.{Ends}
use spdk_csi.Backend.Opi.{Kind, CreateRequest, DeleteRequest, Services, keep_name, drop_name}
use spdk_csi.Backend.Opi.Ledger.{
  kind_of, created, deleted, Log, note_created, note_deleted, recorded, Assumptions, View,
}
use spdk_csi.Backend.Opi.Steps.{Noted}

-- A part of a state that is read and written.
pub record Part (S C : Type 0) : Type 0 where
  pub read : S → C
  pub write : C → S → S
  pub read-write : (c : C) (s : S) → read (write c s) ≡ c
  pub write-read : (s : S) → write (read s) s ≡ s
  pub write-write : (c d : C) (s : S) → write c (write d s) ≡ write c s

module _ {S C : Type 0} (p : Part S C) where
  abbrev pub set_part : (Str → C → C) → Str → S → S
  set_part set n s = p.write (set n (p.read s)) s

  set_part-write :
      (set : Str → C → C) (n : Str) (c : C) (s : S)
      → p.write (set n c) s ≡ set_part set n (p.write c s)
  set_part-write set n c s =
      ap (λ (d : C). p.write (set n d) s) (sym (p.read-write c s))
      ∙ sym (p.write-write (set n (p.read (p.write c s))) c s)

module _ {S C : Type 0} (p : Part S C) (e : Error → Error) where
  zoom-keep_cases :
      (set : Str → C → C) (r : Outcome Str) (c : C) (s : S)
      → zoom p.read p.write (keep_name e (λ _. (r, c)) set) s
        ≡ keep_name e (λ (s' : S). (r, p.write c s')) (set_part p set) s
  zoom-keep_cases set (ok n) c s = ap (λ (t : S). (ok tt, t)) (set_part-write p set n c s)
  zoom-keep_cases set (err _) c s = refl
  zoom-keep_cases set panic c s = refl

  -- Naming in a part of the state is naming in the state.
  pub zoom-keep_name :
      (m : Exec C Str) (set : Str → C → C) (s : S)
      → zoom p.read p.write (keep_name e m set) s
        ≡ keep_name e (zoom p.read p.write m) (set_part p set) s
  zoom-keep_name m set s = zoom-keep_cases set (m (p.read s)).0 (m (p.read s)).1 s

  zoom-drop_cases :
      (set : Str → C → C) (b : Bool) (r : Outcome Unit) (c : C) (s : S)
      → zoom p.read p.write
          (λ (c' : C).
            if b
            then pure tt c'
            else (on_error e (λ (_ : C). (r, c))
                  >>= (λ (_ : Unit {0}) (c'' : C). pure tt (set [] c'')))
                c')
          s
        ≡ (if b
            then pure tt s
            else (on_error e (λ (s' : S). (r, p.write c s'))
                  >>= (λ (_ : Unit {0}) (s'' : S). pure tt (set_part p set [] s'')))
                s)
  zoom-drop_cases set true r c s = ap (λ (t : S). (ok tt, t)) (p.write-read s)
  zoom-drop_cases set false (ok _) c s = ap (λ (t : S). (ok tt, t)) (set_part-write p set [] c s)
  zoom-drop_cases set false (err _) c s = refl
  zoom-drop_cases set false panic c s = refl

  pub zoom-drop_name :
      (name : C → Str) (m : Str → Exec C Unit) (set : Str → C → C) (s : S)
      → zoom p.read p.write (drop_name e name m (set [])) s
        ≡ drop_name e
            (λ s'. name (p.read s'))
            (λ n. zoom p.read p.write (m n))
            (set_part p set [])
            s
  zoom-drop_name name m set s =
      let n = name (p.read s) in
      zoom-drop_cases set (str_eq n []) (m n (p.read s)).0 (m n (p.read s)).1 s

-- The record of the services as a part of an initiator's state that its names do not lie in.
module _ {S W : Type 0} (v : View S) (p : Part S (W × Log)) where
  pub record Beside : Type 0 where
    pub log_at : (s : S) → v.log s ≡ (p.read s).1
    pub names_at : (c : W × Log) (s : S) (j : Kind) → v.name (p.write c s) j ≡ v.name s j

module _ {S W : Type 0} (v : View S) (p : Part S (W × Log)) (beside : Beside v p)
    (services : Services W) (Refused : Type 0) (safe : Assumptions services Refused) where
  noted : (w : W) (l : Log) (s : S) → Noted v s l (p.write (w, l) s)
  noted w l s = record {
    log_is = beside.log_at (p.write (w, l) s) ∙ ap (λ c. c.1) (p.read-write (w, l) s);
    names_stay = beside.names_at (w, l) s;
  }

  create-Ends :
      (k : Kind) (r : Outcome Str) (w : W) (s : S)
      → Ends (λ n _. n ≢ []) (λ _ _. Unit) (r, w)
      → Ends
          (λ n t. (n ≢ []) × Noted v s (created k n ∷ (p.read s).1) t)
          (λ _ t. Noted v s (p.read s).1 t)
          (zoom p.read p.write (λ (_ : W × Log). note_created k r w (p.read s).1) s)
  create-Ends k (ok n) w s h = (h, noted w (created k n ∷ (p.read s).1) s)
  create-Ends k (err _) w s h = noted w (p.read s).1 s
  create-Ends k panic w s h = tt

  delete-Ends :
      (k : Kind) (n : Str) (r : Outcome Unit) (w : W) (s : S)
      → Ends (λ _ _. Unit) (λ _ _. Refused) (r, w)
      → Ends
          (λ _ t. Noted v s (deleted k n ∷ (p.read s).1) t)
          (λ _ t. Noted v s (p.read s).1 t × Refused)
          (zoom p.read p.write (λ (_ : W × Log). note_deleted k n r w (p.read s).1) s)
  delete-Ends k n (ok _) w s h = noted w (deleted k n ∷ (p.read s).1) s
  delete-Ends k n (err _) w s h = (noted w (p.read s).1 s, h)
  delete-Ends k n panic w s h = tt

  pub create_at :
      (q : CreateRequest) (s : S)
      → Ends
          (λ n t. (n ≢ []) × Noted v s (created (kind_of q) n ∷ v.log s) t)
          (λ _ t. Noted v s (v.log s) t)
          (zoom p.read p.write ((recorded services).create q) s)
  create_at q s = rw (beside.log_at s) (
      create-Ends (kind_of q) (services.create q (p.read s).0).0 (services.create q (p.read s).0).1
        s (safe.names_objects q (p.read s).0))

  pub delete_at :
      (q : DeleteRequest) (s : S)
      → Ends
          (λ _ t. Noted v s (deleted q.kind q.name ∷ v.log s) t)
          (λ _ t. Noted v s (v.log s) t × Refused)
          (zoom p.read p.write ((recorded services).delete q) s)
  delete_at q s = rw (beside.log_at s) (
      delete-Ends q.kind q.name (services.delete q (p.read s).0).0
        (services.delete q (p.read s).0).1 s (safe.deletes q (p.read s).0))
