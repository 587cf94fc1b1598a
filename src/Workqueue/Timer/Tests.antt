-- ===== src/Workqueue/Timer/Tests.antt =====
-- A sleep of 5 microseconds behind another of 3, and one of none.
use native.Mathlib.Decide.{ℕ_discrete}
use mathlib.Core.List.{Mem}
use px4_rs.Prelude.{ℕ, ◌≡◌, refl, true, false, some, [], ◌∷◌, arith}
use px4_rs.Workqueue.AtomicWaker.{new_waker}
use px4_rs.Workqueue.Timer.{
  Timers, new_sleep, poll, arm, store_armed, run_worker, drop_sleep, drop_in, cancel, evict,
  poll_in, call_after, enqueue,
}
use px4_rs.Workqueue.Timer.Turns.{turns}
use px4_rs.Workqueue.Timer.Fires.{at_time, sleep_completes}
use px4_rs.Workqueue.Timer.Overtaken.{
  worker_passes, clock_moves, is_polled, undergo, overtaken_never_completes,
}

abbrev queued : Timers ℕ
queued = record {
  now = 10;
  queue = record { deadline = 13; entry = 1 } ∷ [];
  cancelled = λ _. false;
  sleeps = λ _. new_sleep 5;
}

sleep_completes_example :
    ((poll 0 7 queued).1 ≡ false)
    × Mem (some 7) (turns 2 (at_time 15 (poll 0 7 queued).0)).1
    × ((poll 0 8 (turns 2 (at_time 15 (poll 0 7 queued).0)).0).1 ≡ true)
unfolding new_waker
sleep_completes_example =
    sleep_completes 0 2 15 7 8 queued refl refl (omega arith, tt) (omega arith) (omega arith)

abbrev alone : Timers ℕ
alone = record { now = 10; queue = []; cancelled = λ _. false; sleeps = λ _. new_sleep 0 }

overtaken_never_completes_example :
    ((run_worker (arm 0 7 alone)).1 ≡ some 7)
    × ((poll 0 8 (
          undergo 0
            (is_polled 7 ∷ clock_moves 99 ∷ worker_passes ∷ [])
            (store_armed 0 (run_worker (arm 0 7 alone)).0))).1
        ≡ false)
unfolding new_waker
overtaken_never_completes_example =
    overtaken_never_completes 0 7 8 (is_polled 7 ∷ clock_moves 99 ∷ worker_passes ∷ []) alone refl
      refl refl

-- Dropping a sleep that waits takes its entry out of the queue.
dropped : (drop_sleep 0 (poll 0 7 queued).0).queue ≡ queued.queue
unfolding drop_sleep drop_in cancel evict poll poll_in arm call_after enqueue ℕ_discrete new_waker
dropped = refl
