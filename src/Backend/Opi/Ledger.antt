-- ===== src/Backend/Opi/Ledger.antt =====
-- The objects that an OPI bridge holds for an initiator, by a record of the requests that went
-- through. A creation that fails is taken to leave nothing behind.
use spdk_csi.Prelude.{◌≡◌, ◌≢◌, refl, Bool, true, false, List, [], ◌∷◌, if◌then◌else◌}
use spdk_csi.Text.{Str, str_eq}
use spdk_csi.Text.Laws.{str_eq_refl}
use spdk_csi.Effect.{Outcome, ok, err, panic}
use spdk_csi.Effect.Triple.{Ends}
use spdk_csi.Backend.Opi.{
  Kind, remote_controller, path, subsystem, controller, namespace, virtio_blk, CreateRequest,
  create_remote_controller, create_path, create_subsystem, create_controller, create_namespace,
  create_virtio_blk_device, DeleteRequest, Services,
}

abbrev pub is_kind : Kind → Kind → Bool
is_kind remote_controller remote_controller = true
is_kind path path = true
is_kind subsystem subsystem = true
is_kind controller controller = true
is_kind namespace namespace = true
is_kind virtio_blk virtio_blk = true
is_kind _ _ = false

-- A statement on every kind, kind by kind.
pub at_kinds :
    (P : Kind → Type 0)
    → P remote_controller
    → P path
    → P subsystem
    → P controller
    → P namespace
    → P virtio_blk
    → (k : Kind) → P k
at_kinds P r p s c n v remote_controller = r
at_kinds P r p s c n v path = p
at_kinds P r p s c n v subsystem = s
at_kinds P r p s c n v controller = c
at_kinds P r p s c n v namespace = n
at_kinds P r p s c n v virtio_blk = v

abbrev pub kind_of : CreateRequest → Kind
kind_of (create_remote_controller id) = remote_controller
kind_of (create_path p id) = path
kind_of (create_subsystem nqn id) = subsystem
kind_of (create_controller s f id) = controller
kind_of (create_namespace s n v id) = namespace
kind_of (create_virtio_blk_device f v id) = virtio_blk

pub data Entry : Type 0 where
  created deleted : Kind → Str → Entry

abbrev pub Log : Type 0
Log = List Entry

unfoldable pub remove : Str → List Str → List Str
remove n [] = []
remove n (x ∷ l) = if str_eq x n then l else x ∷ remove n l

-- The objects of a kind that have been made and not removed, the newest first.
unfoldable pub live : Kind → Log → List Str
live k [] = []
live k (created j n ∷ l) = if is_kind j k then n ∷ live k l else live k l
live k (deleted j n ∷ l) = if is_kind j k then remove n (live k l) else live k l

-- The object that a field names, if it names one.
abbrev pub named : Str → List Str
named [] = []
named (c ∷ n) = (c ∷ n) ∷ []

-- Services with a record of the creations and deletions that went through.
module _ {W : Type 0} where
  abbrev pub note_created : Kind → Outcome Str → W → Log → Outcome Str × (W × Log)
  note_created k (ok n) w l = (ok n, (w, created k n ∷ l))
  note_created k (err e) w l = (err e, (w, l))
  note_created k panic w l = (panic, (w, l))

  abbrev pub note_deleted : Kind → Str → Outcome Unit → W → Log → Outcome Unit × (W × Log)
  note_deleted k n (ok u) w l = (ok u, (w, deleted k n ∷ l))
  note_deleted k n (err e) w l = (err e, (w, l))
  note_deleted k n panic w l = (panic, (w, l))

  abbrev pub recorded : Services W → Services (W × Log)
  recorded v = record {
    create = λ q (w, l). let (r, w') = v.create q w in note_created (kind_of q) r w' l;
    delete = λ q (w, l). let (r, w') = v.delete q w in note_deleted q.kind q.name r w' l;
    random_below = λ n (w, l). let (r, w') = v.random_below n w in (r, (w', l));
  }

-- What is relied on: an object has a name, and a deletion fails only when `Refused` holds. With
-- `AllowMissing` a deletion of an object that is not there succeeds.
pub record Assumptions {W : Type 0} (services : Services W) (Refused : Type 0) : Type 0 where
  pub names_objects :
      (q : CreateRequest) (w : W) → Ends (λ n _. n ≢ []) (λ _ _. Unit) (services.create q w)
  pub deletes :
      (q : DeleteRequest) (w : W) → Ends (λ _ _. Unit) (λ _ _. Refused) (services.delete q w)

-- An initiator as this view sees it: the names that it keeps, and the record.
pub record View (S : Type 0) : Type 0 where
  pub name : S → Kind → Str
  pub log : S → Log

module _ {S : Type 0} (v : View S) where
  -- Of every kind the service holds the object that the initiator names, and no other.
  abbrev pub Tracked : S → Type 0
  Tracked s = (k : Kind) → live k (v.log s) ≡ named (v.name s k)

  -- Of the kinds that are told, the initiator names none.
  abbrev pub Clear : (Kind → Bool) → S → Type 0
  Clear f s = (k : Kind) → f k ≡ true → v.name s k ≡ []

  abbrev pub Made : (Kind → Bool) → S → Type 0
  Made f s = (k : Kind) → f k ≡ true → v.name s k ≢ []

abbrev pub without : Kind → (Kind → Bool) → Kind → Bool
without k f j = if is_kind k j then false else f j

abbrev pub with : Kind → (Kind → Bool) → Kind → Bool
with k f j = if is_kind k j then true else f j

pub live-created :
    (k j : Kind) (n : Str) (l : Log)
    → live j (created k n ∷ l) ≡ (if is_kind k j then n ∷ live j l else live j l)
unfolding live
live-created k j n l = refl

pub live-deleted :
    (k j : Kind) (n : Str) (l : Log)
    → live j (deleted k n ∷ l) ≡ (if is_kind k j then remove n (live j l) else live j l)
unfolding live
live-deleted k j n l = refl

pub remove-named : (n : Str) → remove n (named n) ≡ []
unfolding remove
remove-named [] = refl
remove-named (c ∷ n) = rw (str_eq_refl (c ∷ n))

pub named-ne_nil : (n : Str) → n ≢ [] → named n ≡ n ∷ []
named-ne_nil [] h = absurd (h refl)
named-ne_nil (c ∷ n) h = refl
