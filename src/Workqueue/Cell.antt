-- ===== src/Workqueue/Cell.antt =====
-- crates/px4-workqueue/src/cell.rs, waker.rs and the queue of ffi.rs, for one cell.
--
-- `state` is the `AtomicU8`; only the bits SPAWNED and RUN_QUEUED are ever set, and each atomic
-- operation on it is one function below. `handle` says whether the pointer is non-null. The slot
-- of the future is `none` while it is uninitialised. `queue` counts the `ScheduleNow` requests for
-- this item that the dispatcher has not consumed; it belongs to the work queue, not to the cell.
pub mod Inv
pub mod Wakes
pub mod Yielding
mod Tests
use px4_rs.Prelude.{
  ℕ, zero, suc, ◌+◌, ◌-◌, leb, Bool, true, false, not, ◌&&◌, Option, none, some, if◌then◌else◌,
}

-- The bits SPAWNED and RUN_QUEUED of `TaskStateBits.state`.
pub record StateBits : Type 0 where
  pub spawned : Bool
  pub run_queued : Bool

-- `WorkItemCell<F>`, with the requests that wait in the work queue.
pub record WorkItemCell (F : Type 0) : Type 0 where
  pub state : StateBits
  pub handle : Bool
  pub future : Option F
  pub queue : ℕ

pub data SpawnError : Type 0 where
  busy alloc_failed : SpawnError

-- `Result<SpawnToken, SpawnError>`
pub data Spawned : Type 0 where
  token : Spawned
  refused : SpawnError → Spawned

abbrev pub unwrap_token : Spawned → Option Spawned
unwrap_token token = some token
unwrap_token (refused e) = none

-- What one `Future::poll` does: the future that is left, whether it is `Ready`, and how often the
-- waker of this cell was called while it ran, by the future itself or from another thread.
pub record Polled (F : Type 0) : Type 0 where
  pub next : F
  pub ready : Bool
  pub wakes : ℕ

abbrev pub idle_bits : StateBits
idle_bits = record { spawned = false; run_queued = false }

abbrev pub is_idle : StateBits → Bool
is_idle b = not b.spawned && not b.run_queued

module _ {F : Type 0} where
  -- `WorkItemCell::new`
  pub new_cell : WorkItemCell F
  new_cell = record { state = idle_bits; handle = false; future = none; queue = 0 }

  -- `ffi::wi_schedule_now`
  abbrev pub schedule_now : WorkItemCell F → WorkItemCell F
  schedule_now c = record c { queue = c.queue + 1 }

  -- The compare-exchange from 0 to `SPAWNED | RUN_QUEUED`, when it succeeds.
  abbrev pub claim : WorkItemCell F → WorkItemCell F
  claim c = record c { state = record { spawned = true; run_queued = true } }

  -- The rest of `try_spawn` after the compare-exchange; `alloc` says whether `wi_new` returns a
  -- work item.
  pub fill : Bool → F → WorkItemCell F → WorkItemCell F × Spawned
  fill alloc fut c =
      if c.handle
      then (schedule_now (record c { future = some fut }), token)
      else if alloc
      then (schedule_now (record c { future = some fut; handle = true }), token)
      else (record c { future = none; state = idle_bits }, refused alloc_failed)

  pub try_spawn : Bool → F → WorkItemCell F → WorkItemCell F × Spawned
  unfolding fill
  try_spawn alloc fut c = if is_idle c.state then fill alloc fut (claim c) else (c, refused busy)

  -- `spawn`: `none` is the panic.
  pub spawn : Bool → F → WorkItemCell F → WorkItemCell F × Option Spawned
  unfolding try_spawn
  spawn alloc fut c = let (c', r) = try_spawn alloc fut c in (c', unwrap_token r)

  -- `waker_wake_by_ref`: set RUN_QUEUED, and schedule if the task is live and was not queued.
  pub wake_by_ref : WorkItemCell F → WorkItemCell F
  wake_by_ref c =
      let marked = record c { state = record { spawned = c.state.spawned; run_queued = true } } in
      if c.state.spawned && not c.state.run_queued && c.handle then schedule_now marked else marked

  abbrev pub wake_times : ℕ → WorkItemCell F → WorkItemCell F
  wake_times zero c = c
  wake_times (suc n) c = wake_times n (wake_by_ref c)

  -- `fetch_and(!RUN_QUEUED)`
  abbrev pub clear_run_queued : WorkItemCell F → WorkItemCell F
  clear_run_queued c = record c { state = record { spawned = c.state.spawned; run_queued = false } }

  -- What follows the poll: drop the future and clear the state word, if it is ready.
  pub finish : Polled F → WorkItemCell F → WorkItemCell F
  finish p c =
      let c' = wake_times p.wakes c in
      if p.ready
      then record c' { future = none; state = idle_bits }
      else record c' { future = some p.next }

  module _ (poll : F → Polled F) where
    -- `none` is the poll of an uninitialised slot, which is undefined behaviour.
    pub poll_live : Option F → WorkItemCell F → Option (WorkItemCell F)
    poll_live none c = none
    poll_live (some f) c = some (finish (poll f) c)

    -- `poll_once`
    pub poll_once : WorkItemCell F → Option (WorkItemCell F)
    unfolding poll_live
    poll_once c =
        if c.state.spawned
        then poll_live c.future (clear_run_queued c)
        else some (clear_run_queued c)

    -- One turn of the dispatcher: it takes a request of this item and runs it.
    pub dispatch : WorkItemCell F → Option (WorkItemCell F)
    unfolding poll_once
    dispatch c = if leb c.queue 0 then some c else poll_once (record c { queue = c.queue - 1 })
