-- ===== src/Workqueue/Cell/Yielding.antt =====
-- crates/px4-workqueue/src/yield_.rs: `yield_now` in a task of a cell.
use px4_rs.Prelude.{ℕ, ◌+◌, ◌≡◌, Bool, true, false, none, some, arith}
use px4_rs.Workqueue.Cell.{
  WorkItemCell, Polled, idle_bits, dispatch, poll_once, poll_live, finish, wake_by_ref,
}

-- `YieldNow::poll`: the future is whether it has yielded. The first poll wakes its own task once.
abbrev pub yield_poll : Bool → Polled Bool
yield_poll true = record { next = true; ready = true; wakes = 0 }
yield_poll false = record { next = true; ready = false; wakes = 1 }

-- A queued task that is a future which may have yielded, with `n` more requests.
abbrev pub yielding : ℕ → Bool → WorkItemCell Bool
yielding n y = record {
  state = record { spawned = true; run_queued = true };
  handle = true;
  future = some y;
  queue = n + 1;
}

-- The first turn of a queued task that yields leaves it queued, with the requests that there were, and
-- the next turn completes it, empties the slot and takes one request.
pub yields_once :
    (n : ℕ)
    → (dispatch yield_poll (yielding n false) ≡ some (yielding n true))
      × (dispatch yield_poll (yielding n true)
          ≡ some (record { state = idle_bits; handle = true; future = none; queue = n }))
unfolding dispatch poll_once poll_live finish wake_by_ref
yields_once n = (ground arith, ground arith)
