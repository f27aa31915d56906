-- ===== src/Backend/Opi/Steps.antt =====
-- The steps of an OPI initiator on the record of its objects: a creation that is named, and a
-- deletion that clears the name.
use spdk_csi.Prelude.{
  ◌≡◌, ◌≢◌, refl, Bool, true, false, [], ◌∷◌, if◌then◌else◌, inl, inr, Bool-cases,
}
use spdk_csi.Text.{Str, str_eq}
use spdk_csi.Text.Laws.{str_eq_iff}
use spdk_csi.Effect.{Exec}
use spdk_csi.Effect.Triple.{Ends}
use spdk_csi.Backend.Opi.{
  Kind, remote_controller, path, subsystem, controller, namespace, virtio_blk,
}
use spdk_csi.Backend.Opi.Ledger.{
  is_kind, created, deleted, Log, live-created, live-deleted, remove-named, named-ne_nil, View,
  Tracked, Clear, Made, with, without,
}

module _ {S : Type 0} (v : View S) where
  -- A field that holds the name of the object of a kind.
  pub record Field (k : Kind) (set : Str → S → S) : Type 0 where
    pub name_set :
        (n : Str) (s : S) (j : Kind) → v.name (set n s) j ≡ (if is_kind k j then n else v.name s j)
    pub log_set : (n : Str) (s : S) → v.log (set n s) ≡ v.log s

  -- The state as before, but for the record.
  pub record Noted (s : S) (l : Log) (t : S) : Type 0 where
    pub log_is : v.log t ≡ l
    pub names_stay : (j : Kind) → v.name t j ≡ v.name s j

  pub record Creates (k : Kind) (m : Exec S Str) : Type 0 where
    pub at :
        (s : S)
        → Ends
            (λ n t. (n ≢ []) × Noted s (created k n ∷ v.log s) t)
            (λ _ t. Noted s (v.log s) t)
            (m s)

  pub record Deletes (k : Kind) (Refused : Type 0) (m : Str → Exec S Unit) : Type 0 where
    pub at :
        (n : Str) (s : S)
        → Ends
            (λ _ t. Noted s (deleted k n ∷ v.log s) t)
            (λ _ t. Noted s (v.log s) t × Refused)
            (m n s)

  -- The kinds of `f` have no object, those of `g` have one, and every object is named.
  pub record Stage (f g : Kind → Bool) (s : S) : Type 0 where
    pub tracked : Tracked v s
    pub clear : Clear v f s
    pub made : Made v g s

  pub Stage-weaken :
      {f g f' g' : Kind → Bool} {s : S}
      → ((k : Kind) → f' k ≡ true → f k ≡ true)
      → ((k : Kind) → g' k ≡ true → g k ≡ true)
      → Stage f g s
      → Stage f' g' s
  Stage-weaken hf hg h = record {
    tracked = h.tracked;
    clear = λ k e. h.clear k (hf k e);
    made = λ k e. h.made k (hg k e);
  }

module _ {S : Type 0} (v : View S) {f g : Kind → Bool} {s t : S} where
  pub Stage-Noted : Stage v f g s → Noted v s (v.log s) t → Stage v f g t
  Stage-Noted h n = record {
    tracked = λ k. rw (n.log_is, n.names_stay k) (h.tracked k);
    clear = λ k e. rw (n.names_stay k) (h.clear k e);
    made = λ k e. rw (n.names_stay k) (h.made k e);
  }

is_kind-eq : (k j : Kind) → is_kind k j ≡ true → k ≡ j
is_kind-eq remote_controller remote_controller h = refl
is_kind-eq path path h = refl
is_kind-eq subsystem subsystem h = refl
is_kind-eq controller controller h = refl
is_kind-eq namespace namespace h = refl
is_kind-eq virtio_blk virtio_blk h = refl
is_kind-eq _ _ h = cc

module _ {S : Type 0} (v : View S) (k : Kind) (set : Str → S → S) (fd : Field v k set)
    {f g : Kind → Bool} {s t : S} (n : Str) where
  Tracked-kept :
      f k ≡ true
      → Stage v f g s
      → n ≢ []
      → Noted v s (created k n ∷ v.log s) t
      → Tracked v (set n t)
  Tracked-kept fk h ne nt j = elim (Bool-cases (is_kind k j)) [
    | inl e ↦
        let none_yet : v.name s j ≡ [] = h.clear j (rw (is_kind-eq k j e) at fk) in
        rw
          (
            fd.log_set n t,
            nt.log_is,
            fd.name_set n t j,
            live-created k j n (v.log s),
            e,
            h.tracked j,
            none_yet,
            named-ne_nil n ne,
          )
          refl
    | inr e ↦
        rw
          (
            fd.log_set n t,
            nt.log_is,
            fd.name_set n t j,
            live-created k j n (v.log s),
            e,
            nt.names_stay j,
          )
          (h.tracked j)
  ]

  Clear-kept : Stage v f g s → Noted v s (created k n ∷ v.log s) t → Clear v (without k f) (set n t)
  Clear-kept h nt j = elim (Bool-cases (is_kind k j)) [
    | inl e ↦ rw e (λ x. cc)
    | inr e ↦ rw (e, fd.name_set n t j, nt.names_stay j, e) (h.clear j)
  ]

  Made-kept :
      Stage v f g s → n ≢ [] → Noted v s (created k n ∷ v.log s) t → Made v (with k g) (set n t)
  Made-kept h ne nt j = elim (Bool-cases (is_kind k j)) [
    | inl e ↦ rw (e, fd.name_set n t j, e) (λ _. ne)
    | inr e ↦ rw (e, fd.name_set n t j, nt.names_stay j, e) (h.made j)
  ]

  pub Stage-created :
      f k ≡ true
      → Stage v f g s
      → n ≢ []
      → Noted v s (created k n ∷ v.log s) t
      → Stage v (without k f) (with k g) (set n t)
  Stage-created fk h ne nt = record {
    tracked = Tracked-kept fk h ne nt;
    clear = Clear-kept h nt;
    made = Made-kept h ne nt;
  }

module _ {S : Type 0} (v : View S) (k : Kind) (set : Str → S → S) (fd : Field v k set)
    {f g : Kind → Bool} {s t : S} where
  pub Tracked-dropped :
      Stage v f g s → Noted v s (deleted k (v.name s k) ∷ v.log s) t → Tracked v (set [] t)
  Tracked-dropped h nt j = elim (Bool-cases (is_kind k j)) [
    | inl e ↦
        let same : k ≡ j = is_kind-eq k j e in
        rw
          (
            fd.log_set [] t,
            nt.log_is,
            fd.name_set [] t j,
            live-deleted k j (v.name s k) (v.log s),
            e,
            h.tracked j,
            same,
            remove-named (v.name s j),
          )
          refl
    | inr e ↦
        rw
          (
            fd.log_set [] t,
            nt.log_is,
            fd.name_set [] t j,
            live-deleted k j (v.name s k) (v.log s),
            e,
            nt.names_stay j,
          )
          (h.tracked j)
  ]

  pub Clear-dropped :
      Stage v f g s → Noted v s (deleted k (v.name s k) ∷ v.log s) t → Clear v (with k f) (set [] t)
  Clear-dropped h nt j = elim (Bool-cases (is_kind k j)) [
    | inl e ↦ rw (e, fd.name_set [] t j, e) (λ _. refl)
    | inr e ↦ rw (e, fd.name_set [] t j, nt.names_stay j, e) (h.clear j)
  ]

abbrev pub nothing : Kind → Bool
nothing _ = false

pub still_clear :
    {S : Type 0} {f : Kind → Bool} (v : View S) (k : Kind) (s : S)
    → str_eq (v.name s k) [] ≡ true
    → Stage v f nothing s
    → Stage v (with k f) nothing s
still_clear v k s b h = record {
  tracked = h.tracked;
  clear = λ j. elim (Bool-cases (is_kind k j)) [
    | inl e ↦ rw (e, ← (is_kind-eq k j e)) (λ _. (str_eq_iff (v.name s k) []).0 b)
    | inr e ↦ rw e (h.clear j)
  ];
  made = λ j y. cc;
}
