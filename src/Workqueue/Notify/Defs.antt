-- ===== src/Workqueue/Notify/Defs.antt =====
-- The state of a `Notify` and the steps of its waiter and of the threads that notify.
use px4_rs.Prelude.{ℕ, ◌≡◌, ◌≢◌, Bool, true, false, ◌||◌, Option, none, some, update}
use px4_rs.Workqueue.AtomicWaker.{
  Pc, After, System, put, begin_register, begin_take, advance, fresh,
}

-- Where the waiting task stands: between polls with nothing pending (`away`), before the first swap
-- of the permit, before and inside `register`, before the second swap, or after `Poll::Pending`.
pub data Phase : Type 0 where
  away checking entering registering rechecking parked : Phase

-- No poll is running.
abbrev pub resting : Phase → Bool
resting Phase.away = true
resting Phase.parked = true
resting p = false

pub record Notify (W : Type 0) : Type 0 where
  pub permit : Bool
  pub store : System W
  pub waiter : Phase
  pub marked : ℕ → Bool
  pub woken : Bool

abbrev pub is_some : {A : Type 0} → Option A → Bool
is_some none = false
is_some (some a) = true

-- Thread `i` makes a step of the store; an invoked waker is noted.
abbrev pub with_store : {W : Type 0} → Notify W → ℕ → After W → Notify W
with_store s i a = record s { store = put s.store i a; woken = s.woken || is_some a.woke }

module _ {W : Type 0} where
  -- `Notify::new`
  unfoldable pub new_notify : Notify W
  new_notify = record {
    permit = false;
    store = fresh;
    waiter = Phase.away;
    marked = λ _. false;
    woken = false;
  }

  module _ (w : W) where
    pub data Step (s : Notify W) : Notify W → Type 0 where
      -- `Notified::poll` begins, for the first time or again.
      polls : resting s.waiter ≡ true → Step s (record s { waiter = Phase.checking; woken = false })
      -- The first swap of the permit.
      first_hit :
          s.waiter ≡ Phase.checking
          → s.permit ≡ true
          → Step s (record s { permit = false; waiter = Phase.away })
      first_miss :
          s.waiter ≡ Phase.checking
          → s.permit ≡ false
          → Step s (record s { permit = false; waiter = Phase.entering })
      -- `register`, and its return.
      enters :
          s.waiter ≡ Phase.entering
          → Step s (record (with_store s 0 (begin_register w s.store.cell)) {
            waiter = Phase.registering;
          })
      registered :
          s.waiter ≡ Phase.registering
          → s.store.pc 0 ≡ Pc.idle
          → Step s (record s { waiter = Phase.rechecking })
      -- The second swap of the permit.
      second_hit :
          s.waiter ≡ Phase.rechecking
          → s.permit ≡ true
          → Step s (record s { permit = false; waiter = Phase.away })
      second_miss :
          s.waiter ≡ Phase.rechecking
          → s.permit ≡ false
          → Step s (record s { permit = false; waiter = Phase.parked })
      -- `notify`: the store of the permit, then the `fetch_or` of `wake`.
      marks :
          (i : ℕ)
          → i ≢ 0
          → s.store.pc i ≡ Pc.idle
          → s.marked i ≡ false
          → Step s (record s { permit = true; marked = update s.marked i true })
      takes :
          (i : ℕ)
          → s.marked i ≡ true
          → Step s (record (with_store s i (begin_take s.store.cell)) {
            marked = update s.marked i false;
          })
      -- Any thread goes on inside the store.
      moves : (i : ℕ) → Step s (with_store s i (advance (s.store.pc i) s.store.cell))

    pub data Reach : Notify W → Type 0 where
      start : Reach new_notify
      next : {s t : Notify W} → Reach s → Step s t → Reach t
