-- ===== src/Workqueue/Timer/Fires.antt =====
-- A sleep that is polled completes once its time has come, if the worker does not run inside the poll.
use mathlib.Core.Path.{subst}
use mathlib.Core.List.{Mem, mem-cons_self, mem-cons_of_mem}
use px4_rs.Prelude.{
  ℕ, zero, suc, ◌+◌, ◌≤◌, ◌<◌, ◌≡◌, ◌≢◌, ltb, true, false, some, List, [], ◌∷◌, arith, refl, ap,
  ◌∙◌, sym, if-holds, length,
}
use px4_rs.Workqueue.AtomicWaker.{WakerState}
use px4_rs.Workqueue.AtomicWaker.Alone.{register_lem}
use px4_rs.Workqueue.Timer.{
  Timers, SleepState, Pending, run_worker, run_queue, enqueue, poll, poll_in, arm, call_after,
  store_armed,
}
use px4_rs.Workqueue.Timer.Turns.{turns, Passed, run_queue_other, run_queue_fires, run_queue_fired}

-- No entry of the queue is of sleep `i`.
abbrev pub Unlisted : ℕ → List Pending → Type 0
Unlisted i [] = Unit {0}
Unlisted i (p ∷ ps) = (p.entry ≢ i) × Unlisted i ps

-- The first entry of sleep `i` and all before it are due.
data Comes (i now : ℕ) : List Pending → Type 0 where
  first : {p : Pending} {ps : List Pending} → p.deadline ≤ now → p.entry ≡ i → Comes i now (p ∷ ps)
  later :
      {p : Pending} {ps : List Pending}
      → p.deadline ≤ now
      → p.entry ≢ i
      → Comes i now ps
      → Comes i now (p ∷ ps)

enqueue-Comes :
    (i now d : ℕ) (q : List Pending)
    → d ≤ now
    → Unlisted i q
    → Comes i now (enqueue (record { deadline = d; entry = i }) q)
unfolding enqueue
enqueue-Comes i now d [] h u = first h refl
enqueue-Comes i now d (q ∷ qs) h (n, u) =
    if-holds (Comes i now) (ltb d q.deadline) (λ y. first h refl)
      (λ y. later (ground arith) n (enqueue-Comes i now d qs h u))

length-enqueue : (p : Pending) (q : List Pending) → length (enqueue p q) ≡ suc (length q)
unfolding enqueue
length-enqueue p [] = refl
length-enqueue p (q ∷ qs) =
    if-holds (λ (l : List Pending). length l ≡ suc (suc (length qs))) (ltb p.deadline q.deadline)
      (λ y. refl) (λ y. ap suc (length-enqueue p qs))

module _ {W : Type 0} where
  turns_fired :
      (i n : ℕ) (t : Timers W)
      → (t.sleeps i).state ≡ SleepState.fired
      → ((turns n t).0.sleeps i).state ≡ SleepState.fired
  unfolding turns run_worker
  turns_fired i zero t e = e
  turns_fired i (suc n) t e = turns_fired i n (run_worker t).0 (run_queue_fired i t.queue t e)

  turns_fire :
      (i n : ℕ) (w : W) (q : List Pending) (t : Timers W)
      → t.queue ≡ q
      → Comes i t.now q
      → length q ≤ n
      → t.cancelled i ≡ false
      → (t.sleeps i).waker ≡ record { state = WakerState.waiting; waker = some w }
      → (((turns n t).0.sleeps i).state ≡ SleepState.fired) × Mem (some w) (turns n t).1
  unfolding turns run_worker
  turns_fire i zero w [] t e c l k m = elim c [ ]
  turns_fire i (suc n) w [] t e c l k m = elim c [ ]
  turns_fire i zero w (p ∷ ps) t e c l k m = absurd (omega arith)
  turns_fire i (suc n) w (p ∷ ps) t e (first h s) l k m =
      let f = run_queue_fires i w p ps t h s k m in
      let f' =
        subst
          (λ q.
            (((run_queue q t).0.sleeps i).state ≡ SleepState.fired) × ((run_queue q t).1 ≡ some w))
          (sym e) f in
      (
        turns_fired i n (run_worker t).0 f'.0,
        subst (λ o. Mem (some w) (o ∷ (turns n (run_worker t).0).1)) (sym f'.1) mem-cons_self,
      )
  turns_fire i (suc n) w (p ∷ ps) t e (later h s c) l k m =
      let o = subst (λ q. Passed i ps t (run_queue q t).0) (sym e) (run_queue_other i p ps t h s) in
      let r =
        turns_fire i n w ps (run_worker t).0 o.queue (subst (λ k. Comes i k ps) (sym o.now) c)
          (omega arith) (o.cancelled ∙ k) (ap (λ s. s.waker) o.sleep ∙ m) in
      (r.0, mem-cons_of_mem (run_worker t).1 r.1)

  poll_fired :
      (i : ℕ) (w : W) (t : Timers W) → (t.sleeps i).state ≡ SleepState.fired → (poll i w t).1 ≡ true
  unfolding poll poll_in
  poll_fired i w t e = ap (λ s. (poll_in s i w t).1) e

  -- The clock moves on to `now`.
  abbrev pub at_time : ℕ → Timers W → Timers W
  at_time now t = record t { now = now }

  -- For a sleep that is not armed, with no entry in the queue and no call inside its waker: its poll is
  -- pending, and when its delay has passed, as many passes of the worker as there are entries set it
  -- to fired and wake the task of that poll, and the next poll is ready.
  pub sleep_completes :
      (i n now : ℕ) (w w' : W) (t : Timers W)
      → (t.sleeps i).state ≡ SleepState.unarmed
      → (t.sleeps i).waker.state ≡ WakerState.waiting
      → Unlisted i t.queue
      → t.now + (t.sleeps i).delay_us ≤ now
      → length t.queue < n
      → ((poll i w t).1 ≡ false)
        × Mem (some w) (turns n (at_time now (poll i w t).0)).1
        × ((poll i w' (turns n (at_time now (poll i w t).0)).0).1 ≡ true)
  unfolding poll poll_in arm call_after
  sleep_completes i n now w w' t e q u h l =
      let t1 = store_armed i (arm i w t) in
      let same : (poll i w t) ≡ (t1, false) = ap (λ s. poll_in s i w t) e in
      let f =
        turns_fire i n w _ (at_time now t1) refl (enqueue-Comes i now _ t.queue (ground arith) u)
          (subst (λ k. k ≤ n) (sym (length-enqueue _ t.queue)) (omega arith)) (ground arith)
          (ground (arith, ap (λ r. r.0) (register_lem w (t.sleeps i).waker q))) in
      (
        ap (λ r. r.1) same,
        subst (λ r. Mem (some w) (turns n (at_time now r.0)).1) (sym same) f.1,
        subst (λ r. (poll i w' (turns n (at_time now r.0)).0).1 ≡ true) (sym same)
            (poll_fired i w' (turns n (at_time now t1)).0 f.0),
      )
