-- ===== src/Uorb/Overlap.antt =====
-- crates/px4-uorb/src/ffi.rs and sub.rs: threads in `publish` and one task that polls `Recv`, which
-- interleave where the locks of a topic let them. The subscription is registered, and a call of
-- `register` or of the callback is one turn. `delivered` is a log of the model.
mod Kept
mod Woken
mod Twice
mod Tests
use px4_rs.Prelude.{
  ℕ, zero, suc, ◌+◌, ◌-◌, ◌%◌, ltb, Bool, true, false, List, [], ◌∷◌, ◌++◌, if◌then◌else◌,
}
use px4_rs.Uorb.Broker.{u64_range, copy, add_lost}
use px4_rs.Workqueue.Channel.Parking.{
  Attempt, resting, first, registering, second, parked, Waiter, wake_up, begin_poll, fail_attempt,
}

-- A thread in `publish`: outside, before the copy of its message, before the sequence number is
-- counted up, before `notify`.
pub data Publishing : Type 0 where
  outside : Publishing
  copying : List ℕ → Publishing
  counting notifying : Publishing

-- The task in `sub_cb_update`: outside, past the read of the sequence number, before the copy of the
-- sample. The lock of `last_seen` is its own.
pub data Updating : Type 0 where
  outside : Updating
  loaded copying : ℕ → Updating

pub record Hub : Type 0 where
  pub size : ℕ
  pub sample : List ℕ
  pub seq : ℕ
  pub last_seen : ℕ
  pub lost : ℕ
  pub update : Updating
  pub task : Waiter (Unit {0})
  pub delivered : List (List ℕ)

-- A thread and what it shares.
unfoldable pub step_publisher : List ℕ → Publishing → Hub → Publishing × Hub
step_publisher d Publishing.outside h = (Publishing.copying d, h)
step_publisher d (Publishing.copying m) h =
    (Publishing.counting, record h { sample = copy h.size m h.sample })
step_publisher d Publishing.counting h =
    (Publishing.notifying, record h { seq = (h.seq + 1) % u64_range })
step_publisher d Publishing.notifying h = (Publishing.outside, record h { task = wake_up h.task })

abbrev pub put_publisher : List Publishing → Publishing × Hub → List Publishing × Hub
put_publisher ps (p, h) = (p ∷ ps, h)

abbrev pub keep_publisher : Publishing → List Publishing × Hub → List Publishing × Hub
keep_publisher p (ps, h) = (p ∷ ps, h)

-- Thread `i` takes a turn, with a message if it begins a call.
unfoldable pub publisher_turn : ℕ → List ℕ → List Publishing → Hub → List Publishing × Hub
unfolding step_publisher
publisher_turn i d [] h = ([], h)
publisher_turn zero d (p ∷ ps) h = put_publisher ps (step_publisher d p h)
publisher_turn (suc i) d (p ∷ ps) h = keep_publisher p (publisher_turn i d ps h)

abbrev pub end_update : Attempt (Unit {0}) → Hub → Hub
end_update a h = record h { update = Updating.outside; task = record h.task { attempt = a } }

-- A turn inside `sub_cb_update`; the poll is ready once the sample is copied.
unfoldable pub step_update : Updating → Hub → Hub
unfolding add_lost
step_update Updating.outside h = record h { update = Updating.loaded h.seq }
step_update (Updating.loaded cur) h =
    if ltb h.last_seen cur
    then record h { update = Updating.copying cur; lost = add_lost (cur - h.last_seen - 1) h.lost }
    else end_update (fail_attempt h.task.attempt) h
step_update (Updating.copying cur) h =
    end_update resting
      (record h { last_seen = cur; delivered = h.delivered ++ (copy h.size h.sample [] ∷ []) })

-- `Recv::poll`
unfoldable pub step_poll : Attempt (Unit {0}) → Hub → Hub
unfolding step_update
step_poll resting h = record h { task = begin_poll tt h.task }
step_poll (first u) h = step_update h.update h
step_poll (registering u) h = record h {
  task = record h.task { attempt = second u; registered = true };
}
step_poll (second u) h = step_update h.update h
step_poll (parked u) h = record h { task = begin_poll u h.task }

pub data HubTurn : Type 0 where
  publisher : ℕ → List ℕ → HubTurn
  poller : HubTurn

unfoldable pub hub_turn : HubTurn → List Publishing → Hub → List Publishing × Hub
unfolding publisher_turn step_poll
hub_turn (publisher i d) ps h = publisher_turn i d ps h
hub_turn poller ps h = (ps, step_poll h.task.attempt h)

unfoldable pub run_hub : List HubTurn → List Publishing → Hub → List Publishing × Hub
unfolding hub_turn
run_hub [] ps h = (ps, h)
run_hub (t ∷ ts) ps h = let r = hub_turn t ps h in run_hub ts r.0 r.1
