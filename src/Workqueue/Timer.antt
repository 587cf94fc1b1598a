-- ===== src/Workqueue/Timer.antt =====
-- crates/px4-workqueue/src/timer.rs and the host timer queue of crates/px4-workqueue/src/hrt.rs.
--
-- A sleep is known by its number, which also stands for the address of its timer entry and for the
-- context of its callback. Times are microseconds. The heap of pending timers is a list ordered by
-- deadline; among equal deadlines the heap promises no order, the list keeps the order of arming. A
-- poll is one step, written in two parts around the call of `call_after`, after which the worker may
-- already run.
pub mod Turns
pub mod Fires
pub mod Overtaken
mod Tests
use px4_rs.Prelude.{
  ℕ, zero, suc, ◌+◌, min, ◌==◌, leb, ltb, Bool, true, false, Option, none, some, List, [], ◌∷◌,
  if◌then◌else◌, update,
}
use px4_rs.Workqueue.AtomicWaker.{AtomicWaker, new_waker, register, wake}

-- STATE_IDLE, STATE_ARMED, STATE_FIRED
pub data SleepState : Type 0 where
  unarmed armed fired : SleepState

pub record Sleep (W : Type 0) : Type 0 where
  pub delay_us : ℕ
  pub state : SleepState
  pub waker : AtomicWaker W

pub record Pending : Type 0 where
  pub deadline : ℕ
  pub entry : ℕ

-- The clock, the queue of the worker, the flags of the entries and the sleeps.
pub record Timers (W : Type 0) : Type 0 where
  pub now : ℕ
  pub queue : List Pending
  pub cancelled : ℕ → Bool
  pub sleeps : ℕ → Sleep W

abbrev pub u64_max : ℕ
u64_max = 18446744073709551615

-- The order of the heap.
unfoldable pub enqueue : Pending → List Pending → List Pending
enqueue p [] = p ∷ []
enqueue p (q ∷ qs) = if ltb p.deadline q.deadline then p ∷ q ∷ qs else q ∷ enqueue p qs

-- The filter of `cancel`.
unfoldable pub evict : ℕ → List Pending → List Pending
evict i [] = []
evict i (p ∷ ps) = if p.entry == i then evict i ps else p ∷ evict i ps

abbrev pub is_fired : SleepState → Bool
is_fired SleepState.fired = true
is_fired SleepState.unarmed = false
is_fired SleepState.armed = false

module _ {W : Type 0} where
  -- `Sleep::new`, from the microseconds of a duration.
  abbrev pub new_sleep : ℕ → Sleep W
  new_sleep micros = record {
    delay_us = min micros u64_max;
    state = SleepState.unarmed;
    waker = new_waker;
  }

  abbrev pub with_state : Timers W → ℕ → SleepState → Timers W
  with_state t i s = record t { sleeps = update t.sleeps i (record (t.sleeps i) { state = s }) }

  abbrev pub with_store : Timers W → ℕ → AtomicWaker W → Timers W
  with_store t i m = record t { sleeps = update t.sleeps i (record (t.sleeps i) { waker = m }) }

  -- `hrt::call_after`
  unfoldable pub call_after : ℕ → ℕ → Timers W → Timers W
  call_after i delay t = record t {
    cancelled = update t.cancelled i false;
    queue = enqueue (record { deadline = t.now + delay; entry = i }) t.queue;
  }

  -- `hrt::cancel`
  unfoldable pub cancel : ℕ → Timers W → Timers W
  cancel i t = record t { cancelled = update t.cancelled i true; queue = evict i t.queue }

  -- `sleep_callout`, and the waker that it invoked.
  unfoldable pub sleep_callout : ℕ → Timers W → Timers W × Option W
  sleep_callout i t =
      let (m, o) = wake (t.sleeps i).waker in
      (
        record t {
          sleeps = update t.sleeps i (record (t.sleeps i) { state = SleepState.fired; waker = m });
        },
        o,
      )

  -- The worker, on the entry that it popped.
  unfoldable pub run_entry : Pending → Timers W → Timers W × Option W
  run_entry p t = if t.cancelled p.entry then (t, none) else sleep_callout p.entry t

  -- One pass of the worker: it pops the first entry if that is due.
  unfoldable pub run_queue : List Pending → Timers W → Timers W × Option W
  run_queue [] t = (t, none)
  run_queue (p ∷ ps) t =
      if leb p.deadline t.now then run_entry p (record t { queue = ps }) else (t, none)

  unfoldable pub run_worker : Timers W → Timers W × Option W
  unfolding run_queue
  run_worker t = run_queue t.queue t

  -- `Sleep::poll` on a sleep that has not been armed, up to `call_after`.
  unfoldable pub arm : ℕ → W → Timers W → Timers W
  arm i w t =
      let t' = with_store t i (register w (t.sleeps i).waker).0 in
      call_after i (t'.sleeps i).delay_us t'

  -- The store after it.
  abbrev pub store_armed : ℕ → Timers W → Timers W
  store_armed i t = with_state t i SleepState.armed

  -- `Sleep::poll`, on the state that it loads; the answer is true for Ready.
  unfoldable pub poll_in : SleepState → ℕ → W → Timers W → Timers W × Bool
  poll_in SleepState.fired i w t = (t, true)
  poll_in SleepState.armed i w t =
      let t' = with_store t i (register w (t.sleeps i).waker).0 in
      (t', is_fired (t'.sleeps i).state)
  poll_in SleepState.unarmed i w t = (store_armed i (arm i w t), false)

  unfoldable pub poll : ℕ → W → Timers W → Timers W × Bool
  poll i w t = poll_in (t.sleeps i).state i w t

  -- The drop of a sleep.
  unfoldable pub drop_in : SleepState → ℕ → Timers W → Timers W
  drop_in SleepState.unarmed i t = t
  drop_in SleepState.armed i t = cancel i t
  drop_in SleepState.fired i t = cancel i t

  unfoldable pub drop_sleep : ℕ → Timers W → Timers W
  unfolding drop_in
  drop_sleep i t = drop_in (t.sleeps i).state i t
