-- ===== src/Locks/Consistent.antt =====
-- The invariant that ties the lock table, its mutexes and the goroutines of idlocker.go together.
use spdk_csi.Prelude.{
  ℕ, ◌≡◌, ◌≢◌, refl, sym, ◌∙◌, ◌⊎◌, inl, inr, ◌<◌, arith, Bool, true, false, Bool-cases, Option,
  none, some, List, ◌==◌, ==_iff, if◌then◌else◌,
}
use spdk_csi.Text.{Str, str_eq}
use spdk_csi.Text.Laws.{str_eq_refl, str_eq_iff}
use spdk_csi.Locks.{
  Phase, idle, loaded, holding, VolumeLocks, lookup, or_store, load_or_store, set, new_volume_locks,
  load, acquire, release, Step, loads, acquires, releases, Reachable, initial, then_,
}

module _ (id : Str) (fresh : ℕ) (l : List (Str × ℕ)) where
  -- The mutex that comes back is the one of the table from then on.
  load_or_store-lookup : lookup id (load_or_store id fresh l).1 ≡ some (load_or_store id fresh l).0
  unfolding load_or_store
  load_or_store-lookup = cases (lookup id l) refl
    where
      cases :
          (o : Option ℕ)
          → lookup id l ≡ o
          → lookup id (or_store o id fresh l).1 ≡ some (or_store o id fresh l).0
      cases (some k) e = e
      cases none e = unfold lookup in rw (str_eq_refl id) refl

  -- No entry is lost, and the only new one has the fresh address.
  load_or_store-keeps :
      (j : Str) (k : ℕ) → lookup j l ≡ some k → lookup j (load_or_store id fresh l).1 ≡ some k
  unfolding load_or_store
  load_or_store-keeps j k = cases (lookup id l) refl
    where
      cases :
          (o : Option ℕ)
          → lookup id l ≡ o
          → lookup j l ≡ some k
          → lookup j (or_store o id fresh l).1 ≡ some k
      cases (some x) e h = h
      cases none e h =
          unfold lookup in
          elim (Bool-cases (str_eq id j)) [
            | inl y ↦
                let i : id ≡ j = (str_eq_iff id j).0 y in
                let e' : lookup j l ≡ none = rw (← i) e in cc
            | inr n ↦ rw n h
          ]

  load_or_store-new :
      (j : Str) (k : ℕ)
      → lookup j (load_or_store id fresh l).1 ≡ some k
      → ((j ≡ id) × (k ≡ fresh)) ⊎ (lookup j l ≡ some k)
  unfolding load_or_store
  load_or_store-new j k = cases (lookup id l) refl
    where
      added :
          (b : Bool)
          → str_eq id j ≡ b
          → (if b then some fresh else lookup j l) ≡ some k
          → ((j ≡ id) × (k ≡ fresh)) ⊎ (lookup j l ≡ some k)
      added true y h = inl (sym ((str_eq_iff id j).0 y), cc)
      added false n h = inr h

      cases :
          (o : Option ℕ)
          → lookup id l ≡ o
          → lookup j (or_store o id fresh l).1 ≡ some k
          → ((j ≡ id) × (k ≡ fresh)) ⊎ (lookup j l ≡ some k)
      cases (some x) e h = inr h
      cases none e h = added (str_eq id j) refl (unfold lookup in h)

-- The goroutine is after `LoadOrStore` for the id, with this mutex.
abbrev pub Uses : Phase → Str → ℕ → Type 0
Uses idle id m = ⊥
Uses (loaded i k) id m = (i ≡ id) × (k ≡ m)
Uses (holding i k) id m = (i ≡ id) × (k ≡ m)

pub record IsConsistent (s : VolumeLocks) : Type 0 where
  pub named : (t : ℕ) (id : Str) (m : ℕ) → Uses (s.phase t) id m → lookup id s.mutexes ≡ some m
  pub owned : (t : ℕ) (id : Str) (m : ℕ) → s.phase t ≡ holding id m → s.owner m ≡ some t
  pub held : (t m : ℕ) → s.owner m ≡ some t → (id : Str) × (s.phase t ≡ holding id m)
  pub bounded : (id : Str) (m : ℕ) → lookup id s.mutexes ≡ some m → m < s.fresh
  pub apart :
      (i j : Str) (m : ℕ) → lookup i s.mutexes ≡ some m → lookup j s.mutexes ≡ some m → i ≡ j

module _ {A : Type 0} (t : ℕ) (a : A) (f : ℕ → A) where
  -- An entry of the updated function is the new value or an old one.
  set_cases : (P : A → Type 0) (u : ℕ) → P (set t a f u) → ((u ≡ t) × P a) ⊎ ((u ≢ t) × P (f u))
  set_cases P u = cases (u == t) refl
    where
      cases :
          (b : Bool)
          → (u == t) ≡ b
          → P (if b then a else f u)
          → ((u ≡ t) × P a) ⊎ ((u ≢ t) × P (f u))
      cases true e h = inl ((==_iff u t).0 e, h)
      cases false e h = inr (λ x. cc ((==_iff u t).1 x), h)

  set_same : set t a f t ≡ a
  set_same = rw ((==_iff t t).1 refl) refl

  set_other : (u : ℕ) → u ≢ t → set t a f u ≡ f u
  set_other u n = elim (Bool-cases (u == t)) [
    | inl e ↦ absurd (n ((==_iff u t).0 e))
    | inr e ↦ rw e refl
  ]

pub Uses-holding : (p : Phase) (id : Str) (m : ℕ) → p ≡ holding id m → Uses p id m
Uses-holding idle id m e = cc
Uses-holding (loaded i k) id m e = cc
Uses-holding (holding i k) id m e = (cc, cc)

pub Uses-loaded : (p : Phase) (id : Str) (m : ℕ) → p ≡ loaded id m → Uses p id m
Uses-loaded idle id m e = cc
Uses-loaded (loaded i k) id m e = (cc, cc)
Uses-loaded (holding i k) id m e = cc

new_volume_locks-IsConsistent : IsConsistent new_volume_locks
unfolding new_volume_locks lookup
new_volume_locks-IsConsistent = record {
  named = λ t id m h. absurd h;
  owned = λ t id m h. cc;
  held = λ t m h. cc;
  bounded = λ id m h. cc;
  apart = λ i j m h k. cc;
}

module _ (s : VolumeLocks) (c : IsConsistent s) (t : ℕ) (id : Str) where
  load-IsConsistent : s.phase t ≡ idle → IsConsistent (load t id s)
  unfolding load
  load-IsConsistent e =
      let r = load_or_store id s.fresh s.mutexes in
      record {
        named = λ u i m h. elim (set_cases t (loaded id r.0) s.phase (λ p. Uses p i m) u h) [
          | inl (_, a) ↦ rw (← a.0, ← a.1) (load_or_store-lookup id s.fresh s.mutexes)
          | inr (_, a) ↦ load_or_store-keeps id s.fresh s.mutexes i m (c.named u i m a)
        ];
        owned = λ u i m h. elim (set_cases t (loaded id r.0) s.phase (λ p. p ≡ holding i m) u h) [
          | inl (_, a) ↦ cc
          | inr (_, a) ↦ c.owned u i m a
        ];
        held = λ u m h.
            let (i, a) = c.held u m h in
            (i, set_other t (loaded id r.0) s.phase u (λ x. cc (x, e, a)) ∙ a);
        bounded = λ i m h. elim (load_or_store-new id s.fresh s.mutexes i m h) [
          | inl (_, a) ↦ omega (arith, a)
          | inr a ↦ omega (arith, c.bounded i m a)
        ];
        apart = λ i j m h k. elim (load_or_store-new id s.fresh s.mutexes i m h) [
          | inl (a, a') ↦ elim (load_or_store-new id s.fresh s.mutexes j m k) [
            | inl (b, _) ↦ a ∙ sym b
            | inr b ↦ absurd (not_fresh j m b a')
          ]
          | inr a ↦ elim (load_or_store-new id s.fresh s.mutexes j m k) [
            | inl (_, b') ↦ absurd (not_fresh i m a b')
            | inr b ↦ c.apart i j m a b
          ]
        ];
      }
    where
      not_fresh : (j : Str) (m : ℕ) → lookup j s.mutexes ≡ some m → m ≢ s.fresh
      not_fresh j m h e = omega (arith, c.bounded j m h, e)

  module _ (m : ℕ) where
    acquire-IsConsistent :
        s.phase t ≡ loaded id m → s.owner m ≡ none → IsConsistent (acquire t id m s)
    unfolding acquire
    acquire-IsConsistent e free = record {
      named = λ u i k h. elim (set_cases t (holding id m) s.phase (λ p. Uses p i k) u h) [
        | inl (_, a) ↦ c.named t i k (rw e a)
        | inr (_, a) ↦ c.named u i k a
      ];
      owned = λ u i k h. elim (set_cases t (holding id m) s.phase (λ p. p ≡ holding i k) u h) [
        | inl (a, b) ↦ let q : k ≡ m = cc in rw (q, a) (set_same m (some t) s.owner)
        | inr (_, a) ↦
            set_other m (some t) s.owner k (λ x. cc (x, free, c.owned u i k a)) ∙ c.owned u i k a
      ];
      held = λ u k h. elim (set_cases m (some t) s.owner (λ o. o ≡ some u) k h) [
        | inl (a, b) ↦ let q : u ≡ t = cc in (id, rw (q, a) (set_same t (holding id m) s.phase))
        | inr (_, a) ↦
            let (i, b) = c.held u k a in
            (i, set_other t (holding id m) s.phase u (λ x. cc (x, e, b)) ∙ b)
      ];
      bounded = c.bounded;
      apart = c.apart;
    }

    release-IsConsistent : s.phase t ≡ holding id m → IsConsistent (release t m s)
    unfolding release
    release-IsConsistent e = record {
      named = λ u i k h. elim (set_cases t idle s.phase (λ p. Uses p i k) u h) [
        | inl (_, a) ↦ absurd a
        | inr (_, a) ↦ c.named u i k a
      ];
      owned = λ u i k h. elim (set_cases t idle s.phase (λ p. p ≡ holding i k) u h) [
        | inl (_, a) ↦ cc
        | inr (n, a) ↦
            set_other m none s.owner k
              (λ x. let q : u ≡ t = cc (x, c.owned u i k a, c.owned t id m e) in n q)
            ∙ c.owned u i k a
      ];
      held = λ u k h. elim (set_cases m none s.owner (λ o. o ≡ some u) k h) [
        | inl (_, a) ↦ cc
        | inr (n, a) ↦
            let (i, b) = c.held u k a in
            (i, set_other t idle s.phase u (λ x. let q : k ≡ m = cc (x, b, e) in n q) ∙ b)
      ];
      bounded = c.bounded;
      apart = c.apart;
    }

step-IsConsistent : {s s' : VolumeLocks} → Step s s' → IsConsistent s → IsConsistent s'
step-IsConsistent {s} (loads t id e) c = load-IsConsistent s c t id e
step-IsConsistent {s} (acquires t id m e free) c = acquire-IsConsistent s c t id m e free
step-IsConsistent {s} (releases t id m e) c = release-IsConsistent s c t id m e

pub Reachable-IsConsistent : {s : VolumeLocks} → Reachable s → IsConsistent s
Reachable-IsConsistent initial = new_volume_locks-IsConsistent
Reachable-IsConsistent (then_ r st) = step-IsConsistent st (Reachable-IsConsistent r)
