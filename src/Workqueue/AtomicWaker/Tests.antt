-- ===== src/Workqueue/AtomicWaker/Tests.antt =====
-- Runs of the waker store; wakers are numbers.
use native.Mathlib.Decide.{ℕ_discrete}
use px4_rs.Prelude.{ℕ, ◌≡◌, ◌≢◌, refl, true, some, none}
use px4_rs.Workqueue.AtomicWaker.{
  WakerState, Pc, run_alone, System, new_waker, register, wake, begin_register, begin_take, put,
  Reach, start, next, registers, takes, fresh,
}
use px4_rs.Workqueue.AtomicWaker.Exclusion.{inside, slot_exclusive, never_stuck}

-- Thread 1 is inside `register`; thread 2 then wakes, and leaves the wake to thread 1.
abbrev both : System ℕ
both = let one = put fresh 1 (begin_register 7 new_waker) in put one 2 (begin_take one.cell)

contended : Reach both
unfolding new_waker begin_register ℕ_discrete
contended = next (next start (registers 1 7 refl)) (takes 2 refl)

slot_exclusive_example : ◌≡◌ {A = ℕ} 1 1
unfolding new_waker begin_register ℕ_discrete
slot_exclusive_example = slot_exclusive contended 1 1 refl refl

register_then_wake : (wake (register 5 (new_waker {W = ℕ})).0) ≡ (new_waker, some 5)
unfolding wake register new_waker
register_then_wake = refl

never_stuck_example :
    (both.cell.state ≢ WakerState.waiting
      → (i : ℕ) × (inside (both.pc i) ≡ true)
        × ((run_alone 4 (both.pc i) both.cell none).0.state ≡ WakerState.waiting))
    × ((i : ℕ) → both.pc i ≡ Pc.drain → both.cell.state ≡ WakerState.registering_waking)
    × ((i : ℕ)
        → both.pc i ≡ Pc.commit
        → both.cell.state ≡ WakerState.registering_waking
        → run_alone 4 (both.pc i) both.cell none
          ≡ (record { state = WakerState.waiting; waker = none }, both.cell.waker))
never_stuck_example = never_stuck contended
