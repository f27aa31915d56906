-- ===== src/Node/Devices.antt =====
-- The polling loops of `waitForDeviceReady` and `waitForDeviceGone`, by the recorded calls.
use spdk_csi.Prelude.{ℕ, zero, suc, ◌+◌, ◌<◌, ◌≡◌, refl, List, [], ◌∷◌, arith}
use mathlib.Core.Path.{subst}
use spdk_csi.Text.{Str}
use spdk_csi.Effect.{Error, Result, good, bad, pure, attempt, ignore}
use spdk_csi.Effect.Triple.{
  Ends, Triple, Either, Triple-attempt, Triple-bind, Triple-pure, Triple-raise, Triple-weaken,
  Triple-strengthen,
}
use spdk_csi.Node.Host.{Op, glob, sleep, Answer, paths_of, Host, answer_in, act, Trace, traced}
use spdk_csi.Node.Initiator.{
  ready_or, ready_loop, wait_for_device_ready, gone_or, gone_loop, wait_for_device_gone,
}

-- The newest call, with the calls before it.
pub record Newest (A : Trace → Type 0) (op : Op) (r : Result Answer) (l : Trace) : Type 0 where
  pub before : Trace
  pub so_far : A before
  pub now : l ≡ record { op = op; result = r } ∷ before

module _ {W : Type 0} (host : Host W) where
  abbrev pub Traced : Type 0
  Traced = W × Trace

  act-Ends :
      (A : Trace → Type 0) (op : Op) (r : Result Answer) (w : W) (l : Trace)
      → A l
      → Ends
          (λ a (s : Traced). Newest A op (good a) s.1)
          (λ e s. Newest A op (bad e) s.1)
          (answer_in r (w, record { op = op; result = r } ∷ l))
  act-Ends A op (good a) w l h = record { before = l; so_far = h; now = refl }
  act-Ends A op (bad e) w l h = record { before = l; so_far = h; now = refl }

  -- A call is recorded with its answer.
  pub act-Triple :
      (A : Trace → Type 0) (op : Op)
      → Triple
          (λ s. A s.1)
          (act (traced host) op)
          (λ a s. Newest A op (good a) s.1)
          (λ e s. Newest A op (bad e) s.1)
  unfolding act
  act-Triple A op = record {
    at = λ s h. act-Ends A op (host.perform op s.0).0 (host.perform op s.0).1 s.1 h;
  }

-- So many rounds of a glob whose matches keep the loop going, each with a sleep after it.
pub data Polled (pattern : Str) (Stay : List Str → Type 0) (start : Trace)
    : ℕ → Trace → Type 0 where
  begin : Polled pattern Stay start 0 start
  round :
      {n : ℕ} {l : Trace} (a : Answer) (r : Result Answer)
      → Polled pattern Stay start n l
      → Stay (paths_of a)
      → Polled pattern Stay start
          (suc n)
          (record { op = sleep 1; result = r } ∷ record { op = glob pattern; result = good a } ∷ l)

-- After fewer than `n` rounds a glob brought matches that end the loop.
pub record Ended (pattern : Str) (Stay Stop : List Str → Type 0) (start : Trace) (n : ℕ) (l : Trace)
    : Type 0 where
  pub rounds : ℕ
  pub fewer : rounds < n
  pub answer : Answer
  pub newest : Newest (Polled pattern Stay start rounds) (glob pattern) (good answer) l
  pub stop : Stop (paths_of answer)

-- A glob failed, or all of the rounds went by.
pub data Unended (pattern : Str) (Stay : List Str → Type 0) (start : Trace) (n : ℕ) (l : Trace)
    : Type 0 where
  failed :
      (k : ℕ) (e : Error)
      → Newest (Polled pattern Stay start k) (glob pattern) (bad e) l
      → Unended pattern Stay start n l
  ran_out : Polled pattern Stay start n l → Unended pattern Stay start n l

abbrev pub IsNone : List Str → Type 0
IsNone l = l ≡ []

abbrev pub IsSome : List Str → Type 0
IsSome l = (p : Str) × (r : List Str) × (l ≡ p ∷ r)

module _ {W : Type 0} (host : Host W) (pattern : Str) (start : Trace) where
  -- The sleep closes the round, whatever it returns.
  sleep-round :
      (Stay : List Str → Type 0) (k : ℕ) (a : Answer) {E : Error → Traced host → Type 0}
      → Stay (paths_of a)
      → Triple
          (λ s. Newest (Polled pattern Stay start k) (glob pattern) (good a) s.1)
          (ignore (act (traced host) (sleep 1)))
          (λ _ s. Polled pattern Stay start (suc k) s.1)
          E
  sleep-round Stay k a {E} h =
      Triple-bind
        {R = Either (λ _ s. Polled pattern Stay start (suc k) s.1)
          (λ _ s. Polled pattern Stay start (suc k) s.1)}
        (attempt (act (traced host) (sleep 1))) (λ _. pure tt)
        (Triple-attempt (act (traced host) (sleep 1)) (
          Triple-strengthen (λ x s n. close (good x) s.1 n)
            (Triple-weaken (λ e s n. close (bad e) s.1 n)
              (act-Triple host (Newest (Polled pattern Stay start k) (glob pattern) (good a))
                (sleep 1)))))
        (elim [ good _ ↦ Triple-pure tt (λ s q. q) | bad _ ↦ Triple-pure tt (λ s q. q) ])
    where
      close :
          (r : Result Answer) (l : Trace)
          → Newest (Newest (Polled pattern Stay start k) (glob pattern) (good a)) (sleep 1) r l
          → Polled pattern Stay start (suc k) l
      close r l n = rw (n.now, n.so_far.now) (round a r n.so_far.so_far h)

  abbrev pub Ready : ℕ → Str → Traced host → Type 0
  Ready n p s = Ended pattern IsNone (λ l. (r : List Str) × (l ≡ p ∷ r)) start n s.1

  ready_loop-Triple :
      (n k total : ℕ)
      → k + n ≡ total
      → Triple
          (λ s. Polled pattern IsNone start k s.1)
          (ready_loop (traced host) n pattern)
          (λ p s. Ready total p s)
          (λ _ s. Unended pattern IsNone start total s.1)
  unfolding ready_loop
  ready_loop-Triple zero k total e =
      Triple-raise _
        (λ s h. ran_out (subst (λ x. Polled pattern IsNone start x s.1) (omega (arith, e)) h))
  ready_loop-Triple (suc n) k total e =
      Triple-bind (act (traced host) (glob pattern)) _
        (Triple-weaken (λ x s q. failed k x q)
          (act-Triple host (Polled pattern IsNone start k) (glob pattern)))
        (λ a. matched (ready_loop-Triple n (suc k) total (omega (arith, e))) a (paths_of a) refl)
    where
      matched :
          Triple
            (λ s. Polled pattern IsNone start (suc k) s.1)
            (ready_loop (traced host) n pattern)
            (λ p s. Ready total p s)
            (λ _ s. Unended pattern IsNone start total s.1)
          → (a : Answer) (l : List Str) → paths_of a ≡ l
          → Triple
              (λ s. Newest (Polled pattern IsNone start k) (glob pattern) (good a) s.1)
              (ready_or (traced host) l (ready_loop (traced host) n pattern))
              (λ p s. Ready total p s)
              (λ _ s. Unended pattern IsNone start total s.1)
      matched rest a [] h =
          Triple-bind (ignore (act (traced host) (sleep 1))) _ (sleep-round IsNone k a h)
            (λ _. rest)
      matched rest a (p ∷ l) h = Triple-pure p λ s q. record {
        rounds = k;
        fewer = omega (arith, e);
        answer = a;
        newest = q;
        stop = (l, h);
      }

  -- waitForDeviceReady runs one glob a second; it returns the first match of the first glob that
  -- has one, after at most the given number of empty rounds, and fails only if a glob fails or all
  -- of its rounds were empty.
  pub wait_for_device_ready_lem :
      (seconds : ℕ)
      → Triple
          (λ s. s.1 ≡ start)
          (wait_for_device_ready (traced host) pattern seconds)
          (λ p s. Ready (suc seconds) p s)
          (λ _ s. Unended pattern IsNone start (suc seconds) s.1)
  unfolding wait_for_device_ready
  wait_for_device_ready_lem seconds = record {
    at = λ s h. (ready_loop-Triple (suc seconds) 0 (suc seconds) (omega arith)).at s (rw h begin);
  }

  abbrev pub Gone : ℕ → Traced host → Type 0
  Gone n s = Ended pattern IsSome IsNone start n s.1

  gone_loop-Triple :
      (n k total : ℕ)
      → k + n ≡ total
      → Triple
          (λ s. Polled pattern IsSome start k s.1)
          (gone_loop (traced host) n pattern)
          (λ _ s. Gone total s)
          (λ _ s. Unended pattern IsSome start total s.1)
  unfolding gone_loop
  gone_loop-Triple zero k total e =
      Triple-raise _
        (λ s h. ran_out (subst (λ x. Polled pattern IsSome start x s.1) (omega (arith, e)) h))
  gone_loop-Triple (suc n) k total e =
      Triple-bind (act (traced host) (glob pattern)) _
        (Triple-weaken (λ x s q. failed k x q)
          (act-Triple host (Polled pattern IsSome start k) (glob pattern)))
        (λ a. matched (gone_loop-Triple n (suc k) total (omega (arith, e))) a (paths_of a) refl)
    where
      matched :
          Triple
            (λ s. Polled pattern IsSome start (suc k) s.1)
            (gone_loop (traced host) n pattern)
            (λ _ s. Gone total s)
            (λ _ s. Unended pattern IsSome start total s.1)
          → (a : Answer) (l : List Str) → paths_of a ≡ l
          → Triple
              (λ s. Newest (Polled pattern IsSome start k) (glob pattern) (good a) s.1)
              (gone_or (traced host) l (gone_loop (traced host) n pattern))
              (λ _ s. Gone total s)
              (λ _ s. Unended pattern IsSome start total s.1)
      matched rest a [] h =
          Triple-pure tt
            λ s q. record { rounds = k; fewer = omega (arith, e); answer = a; newest = q; stop = h }
      matched rest a (p ∷ l) h =
          Triple-bind (ignore (act (traced host) (sleep 1))) _ (sleep-round IsSome k a (p, l, h))
            (λ _. rest)

  -- waitForDeviceGone runs one glob a second; it succeeds with the first glob that has no match,
  -- after at most 20 rounds with matches, and fails only if a glob fails or each of its 21 globs
  -- has a match.
  pub wait_for_device_gone_lem :
      Triple
        (λ s. s.1 ≡ start)
        (wait_for_device_gone (traced host) pattern)
        (λ _ s. Gone 21 s)
        (λ _ s. Unended pattern IsSome start 21 s.1)
  unfolding wait_for_device_gone
  wait_for_device_gone_lem = record {
    at = λ s h. (gone_loop-Triple 21 0 21 (omega arith)).at s (rw h begin);
  }
