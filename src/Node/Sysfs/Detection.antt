-- ===== src/Node/Sysfs/Detection.antt =====
-- `detectNvmeDeviceName` of pkg/util/util.go: what it finds, and how often it reads a file.
use spdk_csi.Prelude.{
  ℕ, zero, suc, ◌≡◌, refl, ap, ◌∙◌, Bool, true, false, some, List, [], ◌∷◌, inl, inr, Bool-cases,
  if◌then◌else◌,
}
use spdk_csi.Text.{Str, str, str_eq, trim_space}
use spdk_csi.Text.DeviceName.{find_device_name, strip_controller}
use spdk_csi.Effect.{Error, deadline_exceeded, message, Result, good, bad, pure, raise}
use spdk_csi.Effect.Triple.{
  Triple, Either, Triple-attempt, Triple-bind, Triple-pure, Triple-raise, Triple-ignore,
  Triple-weaken, Triple-strengthen, Triple-from,
}
use spdk_csi.Node.Host.{
  Op, glob, sleep, read_file, Answer, bytes_of, paths_of, Host, act, Trace, traced,
}
use spdk_csi.Node.Devices.{Newest, Traced, act-Triple}
use spdk_csi.Node.Sysfs.{
  uuid_paths, Visited, has_path, is_visited, detected_or, get_nvme_device_name_at, check_paths,
  check_if_nvme_device_exists, detect_loop, detect_nvme_device_name,
}

abbrev read_by : Op → List Str → List Str
read_by (read_file p) l = p ∷ l
read_by _ l = l

-- The files that were read, the newest first.
abbrev pub reads : Trace → List Str
reads [] = []
reads (x ∷ l) = read_by x.op (reads l)

abbrev pub Distinct : List Str → Type 0
Distinct [] = Unit
Distinct (p ∷ l) = (has_path p l ≡ false) × Distinct l

-- The files of a list are those that were read, each once.
abbrev ReadOnce : List Str → Trace → Type 0
ReadOnce v l = (reads l ≡ v) × Distinct v

-- The newest call read a file that has the model, and the device is that of its path.
pub record IsNamed (model n : Str) (l : Trace) : Type 0 where
  pub path : Str
  pub content : Answer
  pub before : Trace
  pub now : l ≡ record { op = read_file path; result = good content } ∷ before
  pub has_model : str_eq (trim_space (bytes_of content)) model ≡ true
  pub name : n ≡ strip_controller (find_device_name path)

module _ {W : Type 0} (host : Host W) (model : Str) where
  abbrev T : Type 0
  T = Traced host

  add :
      (p : Str) (v : List Str) (r : Result Answer) (l : Trace)
      → has_path p v ≡ false
      → Newest (ReadOnce v) (read_file p) r l
      → ReadOnce (p ∷ v) l
  add p v r l f n = rw n.now (ap (λ x. p ∷ x) n.so_far.0, (f, n.so_far.1))

  compared :
      (p : Str) (v : List Str) (a : Answer) (b : Bool)
      → str_eq (trim_space (bytes_of a)) model ≡ b
      → has_path p v ≡ false
      → Triple
          (λ (s : T). Newest (ReadOnce v) (read_file p) (good a) s.1)
          (if b
            then pure (strip_controller (find_device_name p))
            else raise (message (str "does not match")))
          (λ n s. ReadOnce (p ∷ v) s.1 × IsNamed model n s.1)
          (λ _ s. ReadOnce (p ∷ v) s.1)
  compared p v a true e f = Triple-pure _ (λ s n. (
    add p v _ s.1 f n,
    record { path = p; content = a; before = n.before; now = n.now; has_model = e; name = refl },
  ))
  compared p v a false e f = Triple-raise _ (λ s n. add p v _ s.1 f n)

  read-Triple :
      (p : Str) (v : List Str)
      → has_path p v ≡ false
      → Triple
          (λ s. ReadOnce v s.1)
          (get_nvme_device_name_at (traced host) p model)
          (λ n s. ReadOnce (p ∷ v) s.1 × IsNamed model n s.1)
          (λ _ s. ReadOnce (p ∷ v) s.1)
  unfolding get_nvme_device_name_at
  read-Triple p v f =
      Triple-bind _ _
        (Triple-weaken (λ _ s n. add p v _ s.1 f n) (act-Triple host (ReadOnce v) (read_file p)))
        (λ a. compared p v a _ refl f)

  -- A result of a search, with the paths that it visited.
  abbrev IsResult : Result Str → Trace → Type 0
  IsResult (good n) l = IsNamed model n l
  IsResult (bad e) l = Unit

  abbrev Searched : Result Str × Visited → T → Type 0
  Searched r s = (v : List Str) × (r.1 ≡ some v) × ReadOnce v s.1 × IsResult r.0 s.1

  check-Triple :
      (ps v : List Str) {E : Error → T → Type 0}
      → Triple (λ s. ReadOnce v s.1) (check_paths (traced host) model ps (some v)) Searched E
  unfolding check_paths is_visited str_eq
  check-Triple [] v = Triple-pure _ (λ s h. (v, refl, h, tt))
  check-Triple (p ∷ ps) v = elim (Bool-cases (has_path p v)) [
    | inl e ↦ rw e (check-Triple ps v)
    | inr e ↦ rw e (
        Triple-bind _ _ (Triple-attempt _ (read-Triple p v e)) (elim [
          | good n ↦ named n (str_eq n []) (check-Triple ps (p ∷ v))
          | bad x ↦ Triple-from (λ s h. h) (check-Triple ps (p ∷ v))
        ]))
  ]
    where
      named :
          {F : Error → T → Type 0} (n : Str) (b : Bool)
          → Triple
              (λ s. ReadOnce (p ∷ v) s.1)
              (check_paths (traced host) model ps (some (p ∷ v)))
              Searched
              F
          → Triple
              (λ (s : T). ReadOnce (p ∷ v) s.1 × IsNamed model n s.1)
              (if b
                then check_paths (traced host) model ps (some (p ∷ v))
                else pure (good n, some (p ∷ v)))
              Searched
              F
      named n true t = Triple-from (λ s h. h.0) t
      named n false t = Triple-pure _ (λ s h. (p ∷ v, refl, h.0, h.1))

  -- A call that reads no file.
  other :
      (v : List Str) (op : Op) (r : Result Answer) (l : Trace)
      → ((x : List Str) → read_by op x ≡ x)
      → Newest (ReadOnce v) op r l
      → ReadOnce v l
  other v op r l q n = rw n.now (q _ ∙ n.so_far.0, n.so_far.1)

  other-Triple :
      (v : List Str) (op : Op)
      → ((x : List Str) → read_by op x ≡ x)
      → Triple
          (λ s. ReadOnce v s.1)
          (act (traced host) op)
          (λ _ s. ReadOnce v s.1)
          (λ _ s. ReadOnce v s.1)
  other-Triple v op q =
      Triple-strengthen (λ a s n. other v op (good a) s.1 q n)
        (Triple-weaken (λ e s n. other v op (bad e) s.1 q n) (act-Triple host (ReadOnce v) op))

  exists-Triple :
      (v : List Str) {E : Error → T → Type 0}
      → Triple
          (λ s. ReadOnce v s.1)
          (check_if_nvme_device_exists (traced host) model (some v))
          Searched
          E
  unfolding check_if_nvme_device_exists
  exists-Triple v =
      Triple-bind {R = Either (λ _ s. ReadOnce v s.1) (λ _ s. ReadOnce v s.1)} _ _
        (Triple-attempt _ (other-Triple v (glob uuid_paths) (λ _. refl)))
        (elim [
          | good a ↦ Triple-from (λ s h. h) (check-Triple (paths_of a) v)
          | bad e ↦ Triple-pure _ (λ s h. (v, refl, h, tt))
        ])

  abbrev Detected : Str → T → Type 0
  Detected n s = Distinct (reads s.1) × IsNamed model n s.1

  abbrev Missed : Error → T → Type 0
  Missed e s = (e ≡ deadline_exceeded) × Distinct (reads s.1)

  distinct : (v : List Str) (l : Trace) → ReadOnce v l → Distinct (reads l)
  distinct v l h = rw h.0 h.1

  loop-Triple :
      (n : ℕ) (v : List Str)
      → Triple (λ s. ReadOnce v s.1) (detect_loop (traced host) n model (some v)) Detected Missed
  unfolding detect_loop
  loop-Triple zero v = Triple-raise _ (λ s h. (refl, distinct v s.1 h))
  loop-Triple (suc n) v =
      Triple-bind _ _ (exists-Triple v)
        λ r. record { at = λ s (u, e, h, i). (next r.0 r.1 u e (loop-Triple n)).at s (h, i) }
    where
      next :
          (r : Result Str) (vis : Visited) (u : List Str)
          → vis ≡ some u
          → ((v : List Str)
              → Triple
                  (λ s. ReadOnce v s.1)
                  (detect_loop (traced host) n model (some v))
                  Detected
                  Missed)
          → Triple
              (λ s. ReadOnce u s.1 × IsResult r s.1)
              (detected_or (traced host) r (detect_loop (traced host) n model vis))
              Detected
              Missed
      next (good m) vis u e again = Triple-pure m (λ s h. (distinct u s.1 h.0, h.1))
      next (bad x) vis u e again = rw e (
          Triple-bind _ _
            (Triple-from (λ s h. h.0) (Triple-ignore _ (other-Triple u (sleep 1) (λ _. refl))))
            (λ _. again u))

  -- detectNvmeDeviceName returns only the name in the path of the file that it read last, whose
  -- trimmed content is the model, and it fails only with the deadline; on both ends it has read no
  -- uuid file twice, whatever the globs of its twenty rounds list.
  pub detect_nvme_device_name_lem :
      Triple
        (λ s. reads s.1 ≡ [])
        (detect_nvme_device_name (traced host) model)
        (λ n s. Distinct (reads s.1) × IsNamed model n s.1)
        (λ e s. (e ≡ deadline_exceeded) × Distinct (reads s.1))
  unfolding detect_nvme_device_name
  detect_nvme_device_name_lem = Triple-from (λ s h. (h, tt)) (loop-Triple 20 [])
