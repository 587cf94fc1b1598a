-- ===== src/Workqueue/AtomicWaker.antt =====
-- crates/px4-workqueue/src/atomic_waker.rs: the single-slot store of a waker, one atomic operation
-- or access of the slot at a time. `W` is the type of wakers.
--
-- `WakerState` has the four values of the state word: 0, REGISTERING, WAKING and both. `Pc` is where
-- a thread stands inside `register`, `take` or `wake`, with the locals that are live there. A
-- function below makes one such step and says which waker it invokes, if any.
pub mod Exclusion
pub mod Alone
mod Tests
use px4_rs.Prelude.{zero, suc, ℕ, Option, none, some, Bool, true, false, update, ◌≡◌}

pub data WakerState : Type 0 where
  waiting registering waking registering_waking : WakerState

pub record AtomicWaker (W : Type 0) : Type 0 where
  pub state : WakerState
  pub waker : Option W

pub data Pc (W : Type 0) : Type 0 where
  -- outside of the store
  idle : Pc W
  -- `register`, with REGISTERING just set: before the write of the slot
  store : W → Pc W
  -- before the second compare-exchange of `register`
  commit : Pc W
  -- that failed: before `register` takes the slot
  drain : Pc W
  -- before the swap to WAITING
  clear : Option W → Pc W
  -- `take`, with WAKING just set: before it takes the slot
  grab : Pc W
  -- before the `fetch_and(!WAKING)`
  release : Option W → Pc W
  -- before `w.wake()` on what was taken
  invoke : Option W → Pc W

-- What a step leaves: the store, the thread, and the waker that it invoked.
pub record After (W : Type 0) : Type 0 where
  pub cell : AtomicWaker W
  pub pc : Pc W
  pub woke : Option W

-- `fetch_or(WAKING)` and `fetch_and(!WAKING)`
abbrev pub or_waking : WakerState → WakerState
or_waking WakerState.waiting = WakerState.waking
or_waking WakerState.registering = WakerState.registering_waking
or_waking WakerState.waking = WakerState.waking
or_waking WakerState.registering_waking = WakerState.registering_waking

abbrev pub and_not_waking : WakerState → WakerState
and_not_waking WakerState.waiting = WakerState.waiting
and_not_waking WakerState.registering = WakerState.registering
and_not_waking WakerState.waking = WakerState.waiting
and_not_waking WakerState.registering_waking = WakerState.registering

module _ {W : Type 0} where
  -- `AtomicWaker::new`
  unfoldable pub new_waker : AtomicWaker W
  new_waker = record { state = WakerState.waiting; waker = none }

  -- The first compare-exchange of `register`, on the state that it reads.
  register_in : WakerState → W → AtomicWaker W → After W
  register_in WakerState.waiting w m = record {
    cell = record m { state = WakerState.registering };
    pc = Pc.store w;
    woke = none;
  }
  register_in WakerState.waking w m = record { cell = m; pc = Pc.idle; woke = some w }
  register_in WakerState.registering w m = record { cell = m; pc = Pc.idle; woke = none }
  register_in WakerState.registering_waking w m = record { cell = m; pc = Pc.idle; woke = none }

  unfoldable pub begin_register : W → AtomicWaker W → After W
  unfolding register_in
  begin_register w m = register_in m.state w m

  -- The `fetch_or` of `take`: the slot is taken only if the old state was WAITING.
  take_in : WakerState → Pc W
  take_in WakerState.waiting = Pc.grab
  take_in WakerState.registering = Pc.idle
  take_in WakerState.waking = Pc.idle
  take_in WakerState.registering_waking = Pc.idle

  unfoldable pub begin_take : AtomicWaker W → After W
  unfolding take_in
  begin_take m = record {
    cell = record m { state = or_waking m.state };
    pc = take_in m.state;
    woke = none;
  }

  -- The second compare-exchange of `register`.
  commit_in : WakerState → AtomicWaker W → After W
  commit_in WakerState.registering m = record {
    cell = record m { state = WakerState.waiting };
    pc = Pc.idle;
    woke = none;
  }
  commit_in WakerState.waiting m = record { cell = m; pc = Pc.drain; woke = none }
  commit_in WakerState.waking m = record { cell = m; pc = Pc.drain; woke = none }
  commit_in WakerState.registering_waking m = record { cell = m; pc = Pc.drain; woke = none }

  -- The next step of a thread that is inside.
  unfoldable pub advance : Pc W → AtomicWaker W → After W
  unfolding commit_in
  advance Pc.idle m = record { cell = m; pc = Pc.idle; woke = none }
  advance (Pc.store w) m = record {
    cell = record m { waker = some w };
    pc = Pc.commit;
    woke = none;
  }
  advance Pc.commit m = commit_in m.state m
  advance Pc.drain m = record {
    cell = record m { waker = none };
    pc = Pc.clear m.waker;
    woke = none;
  }
  advance (Pc.clear o) m = record {
    cell = record m { state = WakerState.waiting };
    pc = Pc.invoke o;
    woke = none;
  }
  advance Pc.grab m = record {
    cell = record m { waker = none };
    pc = Pc.release m.waker;
    woke = none;
  }
  advance (Pc.release o) m = record {
    cell = record m { state = and_not_waking m.state };
    pc = Pc.invoke o;
    woke = none;
  }
  advance (Pc.invoke o) m = record { cell = m; pc = Pc.idle; woke = o }

module _ {W : Type 0} where
  -- A thread that no other thread disturbs goes on until it is outside; its last step may invoke a
  -- waker. Four steps are more than any call takes.
  pub run_alone : ℕ → Pc W → AtomicWaker W → Option W → AtomicWaker W × Option W
  run_alone zero p m o = (m, o)
  run_alone (suc n) Pc.idle m o = (m, o)
  run_alone (suc n) p m o = let a = advance p m in run_alone n a.pc a.cell a.woke

  -- `register` and `wake`, undisturbed: the store, and the waker that is invoked.
  unfoldable pub register : W → AtomicWaker W → AtomicWaker W × Option W
  unfolding run_alone begin_register advance
  register w m = let a = begin_register w m in run_alone 4 a.pc a.cell a.woke

  unfoldable pub wake : AtomicWaker W → AtomicWaker W × Option W
  unfolding run_alone begin_take advance
  wake m = let a = begin_take m in run_alone 4 a.pc a.cell a.woke

-- The store and its threads: any number of them, each of which may register or wake.
pub record System (W : Type 0) : Type 0 where
  pub cell : AtomicWaker W
  pub pc : ℕ → Pc W

abbrev pub put : {W : Type 0} → System W → ℕ → After W → System W
put s i a = record { cell = a.cell; pc = update s.pc i a.pc }

pub data Step {W : Type 0} (s : System W) : System W → Type 0 where
  registers : (i : ℕ) (w : W) → s.pc i ≡ Pc.idle → Step s (put s i (begin_register w s.cell))
  takes : (i : ℕ) → s.pc i ≡ Pc.idle → Step s (put s i (begin_take s.cell))
  moves : (i : ℕ) → Step s (put s i (advance (s.pc i) s.cell))

abbrev pub fresh : {W : Type 0} → System W
fresh = record { cell = new_waker; pc = λ _. Pc.idle }

pub data Reach {W : Type 0} : System W → Type 0 where
  start : Reach fresh
  next : {s t : System W} → Reach s → Step s t → Reach t
