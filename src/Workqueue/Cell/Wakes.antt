-- ===== src/Workqueue/Cell/Wakes.antt =====
-- What a wake does, and what it may leave behind: `wake_by_ref` on live, queued and finished tasks.
use px4_rs.Prelude.{
  ◌-◌, ℕ, zero, suc, ◌+◌, ◌≤◌, ◌<◌, ◌≡◌, refl, Bool, true, false, none, some, arith,
}
use px4_rs.Workqueue.Cell.{
  wake_times, clear_run_queued, token, WorkItemCell, busy, refused, Polled, is_idle, new_cell,
  claim, try_spawn, wake_by_ref, finish, dispatch,
}
use px4_rs.Workqueue.Cell.Inv.{IsValid, Step, spawned, woken, ran, Reach, here, next}

-- The cell of a task that has ended, with RUN_QUEUED left set and no request waiting.
pub record IsWedged {F : Type 0} (c : WorkItemCell F) : Type 0 where
  pub ended : c.state.spawned ≡ false
  pub marked : c.state.run_queued ≡ true
  pub unqueued : c.queue ≡ 0

module _ {F : Type 0} where
  -- After a wake a live task of a valid cell has a request waiting, and RUN_QUEUED set; and while
  -- RUN_QUEUED stays set, further wakes add no request.
  pub wake-pending :
      {c : WorkItemCell F}
      → IsValid c
      → c.state.spawned ≡ true
      → (0 < (wake_by_ref c).queue)
        × ((wake_by_ref c).state.run_queued ≡ true)
        × (wake_by_ref (wake_by_ref c) ≡ wake_by_ref c)
        × ((wake_by_ref c).queue ≤ c.queue + 1)
  unfolding wake_by_ref
  wake-pending v live = ground arith

  wake_times-handle : (n : ℕ) (c : WorkItemCell F) → (wake_times n c).handle ≡ c.handle
  unfolding wake_by_ref
  wake_times-handle zero c = refl
  wake_times-handle (suc n) c = ground (arith, wake_times-handle n (wake_by_ref c))

  -- When the future of a queued task becomes ready, its turn empties the slot and frees the cell:
  -- the next spawn succeeds without a new work item, with the new future in the slot and one more
  -- request in the queue.
  pub respawn :
      (poll : F → Polled F) (c : WorkItemCell F) (f : F) (alloc : Bool) (fut : F)
      → IsValid c
      → c.future ≡ some f
      → (poll f).ready ≡ true
      → 0 < c.queue
      → (c' : WorkItemCell F) × (dispatch poll c ≡ some c')
        × (c'.future ≡ none)
        × ((try_spawn alloc fut c').1 ≡ token)
        × ((try_spawn alloc fut c').0.future ≡ some fut)
        × ((try_spawn alloc fut c').0.queue ≡ c'.queue + 1)
  unfolding dispatch try_spawn finish
  respawn poll c f alloc fut v e r q = (
    finish (poll f) (clear_run_queued (record c { queue = c.queue - 1 })),
    ground arith,
    ground arith,
    ground (
      arith,
      wake_times-handle (poll f).wakes (clear_run_queued (record c { queue = c.queue - 1 })),
    ),
    ground (
      arith,
      wake_times-handle (poll f).wakes (clear_run_queued (record c { queue = c.queue - 1 })),
    ),
    ground (
      arith,
      wake_times-handle (poll f).wakes (clear_run_queued (record c { queue = c.queue - 1 })),
    ),
  )

  IsWedged-Step :
      {poll : F → Polled F} {c d : WorkItemCell F} → Step poll c d → IsWedged c → IsWedged d
  unfolding try_spawn wake_by_ref dispatch
  IsWedged-Step (spawned alloc fut) w = ground arith
  IsWedged-Step woken w = ground arith
  IsWedged-Step (ran e) w = ground arith

  IsWedged-Reach :
      {poll : F → Polled F} {c d : WorkItemCell F} → Reach poll c d → IsWedged c → IsWedged d
  IsWedged-Reach here w = w
  IsWedged-Reach (next r s) w = IsWedged-Step s (IsWedged-Reach r w)

  wake-IsWedged :
      (c : WorkItemCell F) → c.state.spawned ≡ false → c.queue ≡ 0 → IsWedged (wake_by_ref c)
  unfolding wake_by_ref
  wake-IsWedged c p q = ground arith

  -- A wake of a task that has ended, with no request left in the queue, wedges its cell: whatever
  -- happens afterwards, every spawn is refused as busy and changes nothing.
  pub stale_wake_wedges :
      {poll : F → Polled F} (c : WorkItemCell F) {d : WorkItemCell F} (alloc : Bool) (fut : F)
      → c.state.spawned ≡ false
      → c.queue ≡ 0
      → Reach poll (wake_by_ref c) d
      → try_spawn alloc fut d ≡ (d, refused busy)
  unfolding try_spawn
  stale_wake_wedges c alloc fut ended unqueued r =
      ground (arith, IsWedged-Reach r (wake-IsWedged c ended unqueued))

  wake_times-queue_le : (n : ℕ) (c : WorkItemCell F) → c.queue ≤ (wake_times n c).queue
  unfolding wake_by_ref
  wake_times-queue_le zero c = omega arith
  wake_times-queue_le (suc n) c = ground (arith, wake_times-queue_le n (wake_by_ref c))

  wake_times-queue :
      (n : ℕ) (c : WorkItemCell F)
      → c.state.spawned ≡ true
      → c.handle ≡ true
      → c.state.run_queued ≡ false
      → 0 < n
      → 0 < (wake_times n c).queue
  unfolding wake_by_ref
  wake_times-queue zero c s h r p = absurd (omega arith)
  wake_times-queue (suc n) c s h r p = ground (arith, wake_times-queue_le n (wake_by_ref c))

  -- The cell after a spawn and a first run of `f`.
  abbrev after_run : (F → Polled F) → F → WorkItemCell F
  after_run poll f = finish (poll f) (
      clear_run_queued (record {
        state = record { spawned = true; run_queued = true };
        handle = true;
        future = some f;
        queue = 0;
      }))

  spawn_then_run : (poll : F → Polled F) (f : F) → Reach poll new_cell (after_run poll f)
  unfolding new_cell try_spawn dispatch
  spawn_then_run poll f = next (next here (spawned true f)) (ran refl)

  -- A future that is woken while it runs to its end leaves a request behind. If another thread then
  -- respawns the task, and the dispatcher runs that request after the compare-exchange of `try_spawn`
  -- and before the write of the future, it polls an uninitialised slot. Such a cell is reachable.
  pub stale_request_race :
      (poll : F → Polled F) (f : F)
      → (poll f).ready ≡ true
      → 0 < (poll f).wakes
      → (c : WorkItemCell F) × Reach poll new_cell c
        × (is_idle c.state ≡ true)
        × (dispatch poll (claim c) ≡ none)
  unfolding finish dispatch
  stale_request_race poll f r w = (
    after_run poll f,
    spawn_then_run poll f,
    ground arith,
    ground (
      arith,
      wake_times-queue (poll f).wakes (
          clear_run_queued (record {
            state = record { spawned = true; run_queued = true };
            handle = true;
            future = some f;
            queue = 0;
          })),
    ),
  )
