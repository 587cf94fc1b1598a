-- ===== src/Workqueue/Timer/Overtaken.antt =====
-- A sleep whose callback ran inside of its first poll.
use mathlib.Core.Path.{subst}
use px4_rs.Prelude.{
  ℕ, ◌+◌, ◌≤◌, ◌≡◌, leb, false, Option, some, List, [], ◌∷◌, arith, refl, ap, sym, if-holds,
}
use px4_rs.Workqueue.AtomicWaker.{WakerState}
use px4_rs.Workqueue.AtomicWaker.Alone.{register_lem}
use px4_rs.Workqueue.Timer.{
  Timers, SleepState, Pending, run_worker, run_queue, run_entry, sleep_callout, enqueue, poll,
  poll_in, arm, call_after, store_armed,
}
use px4_rs.Workqueue.Timer.Turns.{run_queue_fires}
use px4_rs.Workqueue.Timer.Fires.{Unlisted, at_time}

-- What happens to a sleep: the worker passes, the clock moves on, or the sleep is polled.
pub data Happening (W : Type 0) : Type 0 where
  worker_passes : Happening W
  clock_moves : ℕ → Happening W
  is_polled : W → Happening W

module _ {W : Type 0} where
  abbrev pub undergo : ℕ → List (Happening W) → Timers W → Timers W
  undergo i [] t = t
  undergo i (worker_passes ∷ hs) t = undergo i hs (run_worker t).0
  undergo i (clock_moves now ∷ hs) t = undergo i hs (at_time now t)
  undergo i (is_polled w ∷ hs) t = undergo i hs (poll i w t).0

  -- Sleep `i` is armed, but has no entry in the queue.
  abbrev pub Forgotten : ℕ → Timers W → Type 0
  Forgotten i t = ((t.sleeps i).state ≡ SleepState.armed) × Unlisted i t.queue

  Unlisted-pass :
      (i : ℕ) (q : List Pending) (t : Timers W)
      → t.queue ≡ q
      → Unlisted i q
      → (t.sleeps i).state ≡ SleepState.armed
      → Forgotten i (run_queue q t).0
  unfolding run_queue run_entry sleep_callout
  Unlisted-pass i [] t e u a = (a, subst (Unlisted i) (sym e) tt)
  Unlisted-pass i (p ∷ ps) t e (n, u) a = (
    ground arith,
    if-holds (λ (r : Timers W × Option W). Unlisted i r.0.queue) (leb p.deadline t.now)
        (λ y.
          if-holds (λ (r : Timers W × Option W). Unlisted i r.0.queue) (t.cancelled p.entry)
            (λ c. u) (λ c. u))
        (λ y. subst (Unlisted i) (sym e) (n, u)),
  )

  run_worker-Forgotten : (i : ℕ) (t : Timers W) → Forgotten i t → Forgotten i (run_worker t).0
  unfolding run_worker
  run_worker-Forgotten i t (a, u) = Unlisted-pass i t.queue t refl u a

  poll-Forgotten :
      (i : ℕ) (w : W) (t : Timers W)
      → Forgotten i t
      → Forgotten i (poll i w t).0 × ((poll i w t).1 ≡ false)
  unfolding poll poll_in
  poll-Forgotten i w t (a, u) =
      subst (λ s. Forgotten i (poll_in s i w t).0 × ((poll_in s i w t).1 ≡ false)) (sym a)
        (((ground arith), u), (ground arith))

  undergo-Forgotten :
      (i : ℕ) (hs : List (Happening W)) (t : Timers W)
      → Forgotten i t
      → Forgotten i (undergo i hs t)
  undergo-Forgotten i [] t f = f
  undergo-Forgotten i (worker_passes ∷ hs) t f =
      undergo-Forgotten i hs (run_worker t).0 (run_worker-Forgotten i t f)
  undergo-Forgotten i (clock_moves now ∷ hs) t f = undergo-Forgotten i hs (at_time now t) f
  undergo-Forgotten i (is_polled w ∷ hs) t f =
      undergo-Forgotten i hs (poll i w t).0 (poll-Forgotten i w t f).0

  last_pass :
      (p : Pending) (t : Timers W) → p.deadline ≤ t.now → (run_queue (p ∷ []) t).0.queue ≡ []
  unfolding run_queue run_entry sleep_callout
  last_pass p t h = ground arith

  -- For a sleep of no delay, alone in the queue and polled for the first time: if the worker passes
  -- between the call of `call_after` and the store of ARMED, its callback runs and wakes the task, but
  -- after any further passes, moves of the clock and polls, a poll is pending.
  pub overtaken_never_completes :
      (i : ℕ) (w w' : W) (hs : List (Happening W)) (t : Timers W)
      → t.queue ≡ []
      → (t.sleeps i).delay_us ≡ 0
      → (t.sleeps i).waker.state ≡ WakerState.waiting
      → ((run_worker (arm i w t)).1 ≡ some w)
        × ((poll i w' (undergo i hs (store_armed i (run_worker (arm i w t)).0))).1 ≡ false)
  unfolding run_worker arm call_after enqueue
  overtaken_never_completes i w w' hs t e d q =
      let t1 = arm i w t in
      let p : Pending = record { deadline = t.now + (t1.sleeps i).delay_us; entry = i } in
      let one : t1.queue ≡ p ∷ [] = ap (enqueue p) e in
      let due : p.deadline ≤ t1.now = ground arith in
      let f =
        run_queue_fires i w p [] t1 due refl (ground arith)
          (ground (arith, ap (λ r. r.0) (register_lem w (t.sleeps i).waker q))) in
      (
        subst (λ q. (run_queue q t1).1 ≡ some w) (sym one) f.1,
        (poll-Forgotten i w' _ (
            undergo-Forgotten i hs _ (
              subst (λ q. Forgotten i (store_armed i (run_queue q t1).0)) (sym one)
                (ground arith, subst (Unlisted i) (sym (last_pass p t1 due)) tt)))).1,
      )
