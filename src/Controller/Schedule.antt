-- ===== src/Controller/Schedule.antt =====
-- `schedule` and its loop over the stores of a node, against the first store that fits.
use mathlib.Core.Path.{subst, sym}
use spdk_csi.Prelude.Int.{ℤ, ltb_ℤ}
use spdk_csi.Prelude.{
  ◌≡◌, ◌≢◌, ◌↔◌, refl, ap, true, false, Option, none, some, List, [], ◌∷◌, All, arith, inl, inr,
  Bool-cases,
}
use spdk_csi.Text.{Str}
use spdk_csi.Effect.{
  Error, Outcome, ok, err, panic, Result, good, bad, Exec, pure, attempt, try_outcome,
}
use spdk_csi.Effect.Triple.{
  Ends, Triple-at, Triple, Triple-attempt, Triple-bind, Triple-raise, Triple-run, Triple-weaken,
  Triple-strengthen,
}
use spdk_csi.Rpc.Message.{Net}
use spdk_csi.Rpc.Client.{Conn, LvStore}
use spdk_csi.Target.Nvmf.{Map}
use spdk_csi.Target.Node.{SpdkNode}
use spdk_csi.Controller.Message.{NodeConfig, Controller}
use spdk_csi.Controller.Server.{SecretsReader, find_space, schedule, get_spdk_node, run_on}

-- `n` names the first store of the list that has more than `size` free.
pub data FirstFit (size : ℤ) (n : Str) : List LvStore → Type 0 where
  fits :
      {l : LvStore} {ls : List LvStore}
      → ltb_ℤ size l.free_size_mib ≡ true
      → l.name ≡ n
      → FirstFit size n (l ∷ ls)
  skip :
      {l : LvStore} {ls : List LvStore}
      → ltb_ℤ size l.free_size_mib ≡ false
      → FirstFit size n ls
      → FirstFit size n (l ∷ ls)

abbrev pub Full : ℤ → LvStore → Type 0
Full size l = ltb_ℤ size l.free_size_mib ≡ false

find_space-FirstFit :
    (size : ℤ) (n : Str) (ls : List LvStore) → find_space size ls ≡ some n → FirstFit size n ls
unfolding find_space
find_space-FirstFit size n [] h = cc
find_space-FirstFit size n (l ∷ ls) h = elim (Bool-cases (ltb_ℤ size l.free_size_mib)) [
  | inl e ↦ fits e (ground arith)
  | inr e ↦ skip e (find_space-FirstFit size n ls (rw e at h))
]

FirstFit-find_space :
    (size : ℤ) (n : Str) (ls : List LvStore) → FirstFit size n ls → find_space size ls ≡ some n
unfolding find_space
FirstFit-find_space size n [] f = elim f [ ]
FirstFit-find_space size n (l ∷ ls) (fits e p) = rw e (ap some p)
FirstFit-find_space size n (l ∷ ls) (skip e f) = rw e (FirstFit-find_space size n ls f)

-- The loop over a node's stores finds a name exactly when it is that of the first store with more
-- free space than asked for, and finds nothing exactly when no store has more.
pub find_space_iff :
    (size : ℤ) (ls : List LvStore)
    → ((n : Str) → (find_space size ls ≡ some n) ↔ FirstFit size n ls)
      × ((find_space size ls ≡ none) ↔ All (Full size) ls)
unfolding find_space
find_space_iff size ls =
    (λ n. (find_space-FirstFit size n ls, FirstFit-find_space size n ls), (full ls, none_of ls))
  where
    full : (l : List LvStore) → find_space size l ≡ none → All (Full size) l
    full [] h = tt
    full (x ∷ l) h = (ground arith, full l (ground arith))

    none_of : (l : List LvStore) → All (Full size) l → find_space size l ≡ none
    none_of [] h = refl
    none_of (x ∷ l) h = rw h.0 (none_of l h.1)

module _ {W : Type 0} (net : Net W) (read : SecretsReader) (cs : Controller) (size : ℤ)
    (secrets : Map) where
  abbrev node_of : NodeConfig → Exec W (Option (SpdkNode W))
  node_of c = get_spdk_node net read cs c.name secrets

  abbrev stores_of : Option (SpdkNode W) → Exec W (Result (List LvStore))
  stores_of n = run_on n (λ m. attempt m.lv_stores)

  -- From the state `w` the node was reached, and its first store with enough space is the one of
  -- the pair.
  pub record Offers (p : Str × Str) (c : NodeConfig) (w w' : W) : Type 0 where
    pub name : c.name ≡ p.0
    pub between : W
    pub node : Option (SpdkNode W)
    pub stores : List LvStore
    pub reached : node_of c w ≡ (ok node, between)
    pub listed : stores_of node between ≡ (ok (good stores), w')
    pub fit : FirstFit size p.1 stores

  -- From the state `w` the node was not reached, or did not list its stores, or all of them are full.
  pub data Refuses (c : NodeConfig) (w w' : W) : Type 0 where
    unreached : (e : Error) → node_of c w ≡ (err e, w') → Refuses c w w'
    unlisted :
        (n : Option (SpdkNode W)) (e : Error) (between : W)
        → node_of c w ≡ (ok n, between)
        → stores_of n between ≡ (ok (bad e), w')
        → Refuses c w w'
    full :
        (n : Option (SpdkNode W)) (l : List LvStore) (between : W)
        → node_of c w ≡ (ok n, between)
        → stores_of n between ≡ (ok (good l), w')
        → All (Full size) l
        → Refuses c w w'

  -- The pair is of the first configuration that offers one, and those before it refuse, each from
  -- the state that the one before it left.
  pub data Scheduled (p : Str × Str) : List NodeConfig → W → W → Type 0 where
    found :
        {c : NodeConfig} {l : List NodeConfig} {w w' : W}
        → Offers p c w w'
        → Scheduled p (c ∷ l) w w'
    pass :
        {c : NodeConfig} {l : List NodeConfig} {w w₁ w' : W}
        → Refuses c w w₁
        → Scheduled p l w₁ w'
        → Scheduled p (c ∷ l) w w'

  -- Every configuration refuses, in turn.
  pub data Exhausted : List NodeConfig → W → W → Type 0 where
    no_more : {w : W} → Exhausted [] w w
    next :
        {c : NodeConfig} {l : List NodeConfig} {w w₁ w' : W}
        → Refuses c w w₁
        → Exhausted l w₁ w'
        → Exhausted (c ∷ l) w w'

  no_failure : (r : Outcome (List LvStore)) (s : Conn W) (e : Error) → (try_outcome r s).0 ≢ err e
  no_failure (ok a) s e h = cc
  no_failure (err x) s e h = cc
  no_failure panic s e h = cc

  -- A failure of `LvStores` is seen as a value.
  attempted : (n : Option (SpdkNode W)) (w : W) (e : Error) → (stores_of n w).0 ≢ err e
  attempted none w e h = cc
  attempted (some node) w e h =
      let c : Conn W = record { rpc_id = 0; trans_created = 0; world = w } in
      no_failure (node.lv_stores c).0 (node.lv_stores c).1 e h

  abbrev Plan : Exec W (Str × Str) → List NodeConfig → W → Type 0
  Plan m visit w =
      Triple (λ s. s ≡ w) m (λ p w'. Scheduled p visit w w') (λ _ w'. Exhausted visit w w')

  later :
      (c : NodeConfig) (l : List NodeConfig) (w s : W) {m : Exec W (Str × Str)}
      → Plan m l s
      → Refuses c w s
      → Ends (λ p w'. Scheduled p (c ∷ l) w w') (λ _ w'. Exhausted (c ∷ l) w w') (m s)
  later c l w s t r =
      (Triple-strengthen (λ _ _ q. pass r q) (Triple-weaken (λ _ _ q. next r q) t)).at s refl

  schedule-Plan :
      (visit : List NodeConfig) (w : W) → Plan (schedule net read cs visit size secrets) visit w
  unfolding schedule
  schedule-Plan [] w = Triple-raise _ (λ s h. subst (λ x. Exhausted [] w x) (sym h) no_more)
  schedule-Plan (c ∷ l) w = Triple-bind _ _ (Triple-attempt _ (Triple-at w (node_of c))) (elim [
    | bad e ↦ record { at = λ s h. later c l w s (schedule-Plan l s) (unreached e h) }
    | good n ↦
        Triple-bind _ _
          (Triple-weaken (λ e t h. absurd (attempted n h.0 e (ap (λ x. x.0) h.2)))
            (Triple-run _ (stores_of n)))
          (elim [
            | bad e ↦ record {
              at = λ s h. later c l w s (schedule-Plan l s) (unlisted n e h.0 h.1 h.2);
            }
            | good ls ↦ offered n ls (schedule-Plan l) (find_space size ls) refl
          ])
  ])
    where
      offered :
          (n : Option (SpdkNode W)) (ls : List LvStore)
          → ((s : W) → Plan (schedule net read cs l size secrets) l s)
          → (o : Option Str) → find_space size ls ≡ o
          → Triple
              (λ s. (s' : W) × (node_of c w ≡ (ok n, s')) × (stores_of n s' ≡ (ok (good ls), s)))
              (elim o [
                | some lvstore ↦ pure (c.name, lvstore)
                | none ↦ schedule net read cs l size secrets
              ])
              (λ p w'. Scheduled p (c ∷ l) w w')
              (λ _ w'. Exhausted (c ∷ l) w w')
      offered n ls rest none e = record {
        at = λ s h. later c l w s (rest s) (full n ls h.0 h.1 h.2 ((find_space_iff size ls).1.0 e));
      }
      offered n ls rest (some lvstore) e = record {
        at = λ s h. found (record {
          name = refl;
          between = h.0;
          node = n;
          stores = ls;
          reached = h.1;
          listed = h.2;
          fit = ((find_space_iff size ls).0 lvstore).0 e;
        });
      }

  -- schedule asks the nodes of the visit in turn, each from the state that the one before it left;
  -- it returns the first that was reached and listed a store with more free space than asked for,
  -- with its first such store, in the state after that, and it fails only if every node, asked in
  -- turn, could not be reached, did not list its stores or is full.
  pub schedule_lem :
      (visit : List NodeConfig) (w : W)
      → Ends
          (λ p w'. Scheduled p visit w w')
          (λ _ w'. Exhausted visit w w')
          (schedule net read cs visit size secrets w)
  schedule_lem visit w = (schedule-Plan visit w).at w refl
