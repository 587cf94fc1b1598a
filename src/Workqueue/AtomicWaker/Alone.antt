-- ===== src/Workqueue/AtomicWaker/Alone.antt =====
-- `register` and `wake` when no other thread is inside.
use px4_rs.Prelude.{◌≡◌, none, some}
use px4_rs.Workqueue.AtomicWaker.{WakerState, AtomicWaker, register, wake}

module _ {W : Type 0} where
  -- Undisturbed, `register` stores the waker in place of any other and invokes nothing.
  pub register_lem :
      (w : W) (m : AtomicWaker W)
      → m.state ≡ WakerState.waiting
      → register w m ≡ (record { state = WakerState.waiting; waker = some w }, none)
  unfolding register
  register_lem w m e = rw e

  -- Undisturbed, `wake` empties the slot and invokes what it held.
  pub wake_lem :
      (m : AtomicWaker W)
      → m.state ≡ WakerState.waiting
      → wake m ≡ (record { state = WakerState.waiting; waker = none }, m.waker)
  unfolding wake
  wake_lem m e = rw e
