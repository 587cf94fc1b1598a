-- ===== src/Workqueue/Cell/Tests.antt =====
-- Runs of a cell whose futures are numbers: `n` is ready after `n` wakes of its own.
use px4_rs.Prelude.{ℕ, ◌+◌, ◌≡◌, refl, true, false, none, some, arith}
use px4_rs.Workqueue.Cell.{
  dispatch, finish, WorkItemCell, busy, token, refused, Polled, is_idle, new_cell, claim, try_spawn,
  wake_by_ref,
}
use px4_rs.Workqueue.Cell.Inv.{
  IsValid, Reach, here, next, spawned, woken, new-IsValid, Reach-IsValid,
}
use px4_rs.Workqueue.Cell.Wakes.{respawn, stale_wake_wedges, stale_request_race}

abbrev once : ℕ → Polled ℕ
once n = record { next = n; ready = true; wakes = n }

-- A cell with a live task that has just been polled and is not queued.
abbrev waiting_cell : WorkItemCell ℕ
waiting_cell = record {
  state = record { spawned = true; run_queued = false };
  handle = true;
  future = some 2;
  queue = 0;
}

waiting-IsValid : IsValid waiting_cell
waiting-IsValid = record { live = refl; bound = λ e. refl; pending = λ e f. absurd (cc f) }

spawn_and_run :
    dispatch once (try_spawn true 0 new_cell).0
    ≡ some (record {
      state = record { spawned = false; run_queued = false };
      handle = true;
      future = none;
      queue = 0;
    })
unfolding dispatch try_spawn new_cell finish
spawn_and_run = refl

Reach-IsValid_example : IsValid (wake_by_ref (try_spawn true 2 (new_cell {F = ℕ})).0)
Reach-IsValid_example =
    Reach-IsValid {poll = once} (next (next here (spawned true 2)) woken) new-IsValid

stale_wake_wedges_example :
    try_spawn true 5 (wake_by_ref (new_cell {F = ℕ})) ≡ (wake_by_ref new_cell, refused busy)
unfolding new_cell
stale_wake_wedges_example = stale_wake_wedges {poll = once} new_cell true 5 refl refl here

stale_request_race_example :
    (c : WorkItemCell ℕ) × Reach once new_cell c
    × (is_idle c.state ≡ true)
    × (dispatch once (claim c) ≡ none)
stale_request_race_example = stale_request_race once 1 refl (omega arith)

-- A live task with one request in the queue.
abbrev queued_cell : WorkItemCell ℕ
queued_cell = record waiting_cell {
  state = record { spawned = true; run_queued = true };
  queue = 1;
}

queued-IsValid : IsValid queued_cell
queued-IsValid = record { live = refl; bound = λ e. refl; pending = λ e f. omega arith }

respawn_example :
    (c : WorkItemCell ℕ) × (dispatch once queued_cell ≡ some c)
    × (c.future ≡ none)
    × ((try_spawn false 9 c).1 ≡ token)
    × ((try_spawn false 9 c).0.future ≡ some 9)
    × ((try_spawn false 9 c).0.queue ≡ c.queue + 1)
respawn_example = respawn once queued_cell 2 false 9 queued-IsValid refl refl (omega arith)
