-- ===== src/Uorb/Racing.antt =====
-- crates/px4-uorb/src/pub_.rs: threads that publish through one `Publication` and unadvertise it,
-- interleaved. Every atomic operation on the handle and every call of the broker is a turn.
--
-- The handle of the host's broker is an `Arc` of the topic, made raw: `shares` counts those that no
-- call has taken back. A thread carries the message and the number of samples that it has sent.
mod Shares
mod Ends
mod Counts
mod First
mod Settled
mod Tests
use px4_rs.Prelude.{ℕ, zero, suc, ◌+◌, ◌-◌, Bool, true, false, List, [], ◌∷◌, ◌++◌, if◌then◌else◌}
use px4_rs.Uorb.Broker.{Bus, send_sample, publish_status}
use px4_rs.Uorb.Client.{Published, undefined, from_status}

-- Where a thread stands in `publish`: at the first load of the handle, at `ffi::advertise`, at the
-- compare-exchange with its new handle, at `ffi::unadvertise` of it, at the second load, at
-- `ffi::publish`, or at the end. In `unadvertise`: at the swap, at `ffi::unadvertise`, at the end.
pub data Stage : Type 0 where
  starting advertising exchanging losing : List ℕ → Stage
  loading sending : List ℕ → ℕ → Stage
  returned : Published → ℕ → Stage
  swapping releasing unadvertised : Stage

-- What the threads share.
pub record Store (W : Type 0) : Type 0 where
  pub handle : Bool
  pub shares : ℕ
  pub bus : Bus W
  pub woke : List W

pub record Race (W : Type 0) : Type 0 where
  pub threads : List Stage
  pub store : Store W

module _ {W : Type 0} where
  -- A call of the broker sent a sample.
  abbrev pub after_send : Store W → Bus W × List W → Store W
  after_send s (b, ws) = record s { bus = b; woke = s.woke ++ ws }

  -- `ffi::advertise` leaks a share of the topic.
  abbrev pub after_advertise : Store W → Bus W × List W → Store W
  after_advertise s (b, ws) = record s { shares = s.shares + 1; bus = b; woke = s.woke ++ ws }

  abbrev pub after_publish : ℕ → Store W → ℕ × Bus W × List W → Stage × Store W
  after_publish k s (rc, b, ws) = (returned (from_status rc) (k + 1), after_send s (b, ws))

  -- `ffi::unadvertise`
  abbrev pub give_back : Store W → Store W
  give_back s = record s { shares = s.shares - 1 }

  -- One turn of a thread.
  unfoldable pub take_turn : Stage → Store W → Stage × Store W
  take_turn (starting d) s = (if s.handle then loading d 0 else advertising d, s)
  take_turn (advertising d) s = (exchanging d, after_advertise s (send_sample d s.bus))
  take_turn (exchanging d) s =
      (if s.handle then losing d else loading d 1, record s { handle = true })
  take_turn (losing d) s = (loading d 1, give_back s)
  take_turn (loading d k) s = (if s.handle then sending d k else returned undefined k, s)
  take_turn (sending d k) s = after_publish k s (publish_status d s.bus)
  take_turn (returned r k) s = (returned r k, s)
  take_turn swapping s = (if s.handle then releasing else unadvertised, record s { handle = false })
  take_turn releasing s = (unadvertised, give_back s)
  take_turn unadvertised s = (unadvertised, s)

  -- The thread in front takes a turn.
  abbrev pub lead : List Stage → Stage × Store W → Race W
  lead ps (p, s) = record { threads = p ∷ ps; store = s }

  abbrev pub behind : Stage → Race W → Race W
  behind p r = record r { threads = p ∷ r.threads }

  -- Thread `i` takes a turn; past the last thread nothing happens.
  unfoldable pub turn : ℕ → List Stage → Store W → Race W
  turn i [] s = record { threads = []; store = s }
  turn zero (p ∷ ps) s = lead ps (take_turn p s)
  turn (suc i) (p ∷ ps) s = behind p (turn i ps s)

  -- The threads take turns in the order of a schedule.
  unfoldable pub race : List ℕ → List Stage → Store W → Race W
  race [] ps s = record { threads = ps; store = s }
  race (i ∷ is) ps s = let r = turn i ps s in race is r.threads r.store

  -- A publication that has advertised if `h`, on the bus `b`.
  abbrev pub open_store : Bool → Bus W → Store W
  open_store h b = record { handle = h; shares = if h then 1 else 0; bus = b; woke = [] }

-- Threads that call `publish`, each with its message.
abbrev pub publishers : List (List ℕ) → List Stage
publishers [] = []
publishers (d ∷ ds) = starting d ∷ publishers ds
