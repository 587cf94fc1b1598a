-- ===== src/Workqueue/Timer/Turns.antt =====
-- The passes of the worker of the host timer queue.
use px4_rs.Prelude.{ℕ, zero, suc, ◌≤◌, ◌≡◌, ◌≢◌, false, Option, some, List, [], ◌∷◌, arith, ap}
use px4_rs.Workqueue.AtomicWaker.{WakerState}
use px4_rs.Workqueue.AtomicWaker.Alone.{wake_lem}
use px4_rs.Workqueue.Timer.{
  Timers, SleepState, Pending, run_worker, run_queue, run_entry, sleep_callout,
}

module _ {W : Type 0} where
  -- `n` passes, and what each of them woke.
  unfoldable pub turns : ℕ → Timers W → Timers W × List (Option W)
  turns zero t = (t, [])
  turns (suc n) t = let (t', o) = run_worker t in let (t'', os) = turns n t' in (t'', o ∷ os)

  -- A pass that leaves sleep `i` alone, and the queue `ps`.
  pub record Passed (i : ℕ) (ps : List Pending) (t t' : Timers W) : Type 0 where
    pub queue : t'.queue ≡ ps
    pub now : t'.now ≡ t.now
    pub cancelled : t'.cancelled i ≡ t.cancelled i
    pub sleep : t'.sleeps i ≡ t.sleeps i

  pub run_queue_other :
      (i : ℕ) (p : Pending) (ps : List Pending) (t : Timers W)
      → p.deadline ≤ t.now
      → p.entry ≢ i
      → Passed i ps t (run_queue (p ∷ ps) t).0
  unfolding run_queue run_entry sleep_callout
  run_queue_other i p ps t h n = record {
    queue = ground arith;
    now = ground arith;
    cancelled = ground arith;
    sleep = ground arith;
  }

  -- Sleep `i` has fired.
  pub run_queue_fires :
      (i : ℕ) (w : W) (p : Pending) (ps : List Pending) (t : Timers W)
      → p.deadline ≤ t.now
      → p.entry ≡ i
      → t.cancelled i ≡ false
      → (t.sleeps i).waker ≡ record { state = WakerState.waiting; waker = some w }
      → (((run_queue (p ∷ ps) t).0.sleeps i).state ≡ SleepState.fired)
        × ((run_queue (p ∷ ps) t).1 ≡ some w)
  unfolding run_queue run_entry sleep_callout
  run_queue_fires i w p ps t h n c m = (
    ground arith,
    ground (
      arith,
      ap (λ r. r.1) (wake_lem (t.sleeps i).waker (ap (λ m. m.state) m)),
      ap (λ m. m.waker) m,
    ),
  )

  pub run_queue_fired :
      (i : ℕ) (q : List Pending) (t : Timers W)
      → (t.sleeps i).state ≡ SleepState.fired
      → ((run_queue q t).0.sleeps i).state ≡ SleepState.fired
  unfolding run_queue run_entry sleep_callout
  run_queue_fired i [] t e = e
  run_queue_fired i (p ∷ ps) t e = ground arith
