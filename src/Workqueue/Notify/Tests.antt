-- ===== src/Workqueue/Notify/Tests.antt =====
-- A run in which `notify` comes between the waiter's `register` and its second look at the permit,
-- and one in which it comes after the waiter parked.
use native.Mathlib.Decide.{ℕ_discrete}
use px4_rs.Prelude.{zero, suc, ℕ, ◌≡◌, refl, true, false, arith}
use px4_rs.Workqueue.AtomicWaker.{Pc, new_waker, begin_register, begin_take, advance}
use px4_rs.Workqueue.Notify.Defs.{
  Phase, Notify, new_notify, polls, first_miss, enters, registered, second_miss, marks, takes,
  moves, Reach, start, next,
}
use px4_rs.Workqueue.Notify.Inv.{Alert}
use px4_rs.Workqueue.Notify.Wakeup.{no_lost_wakeup, parked_is_woken}

-- The waiter parks; thread 1 then stores the permit.
abbrev late : (s : Notify ℕ) × Reach 7 s
unfolding new_notify new_waker begin_register advance ℕ_discrete
late = (
  _,
  next
      (next
        (next
          (next
            (next (next (next (next start (polls refl)) (first_miss refl refl)) (enters refl))
              (moves 0))
            (moves 0))
          (registered refl refl))
        (second_miss refl refl))
      (marks 1 (omega arith) refl refl),
)

late_parked : (late.0.waiter ≡ Phase.parked) × (late.0.permit ≡ true) × (late.0.woken ≡ false)
unfolding late
late_parked = (refl, refl, refl)

no_lost_wakeup_example : Alert late.0
unfolding late
no_lost_wakeup_example = no_lost_wakeup late.1 refl refl

-- Thread 1 then takes the waker and invokes it.
abbrev done : (s : Notify ℕ) × Reach 7 s
unfolding late begin_take
done = (_, next (next (next (next late.1 (takes 1 refl)) (moves 1)) (moves 1)) (moves 1))

done_quiet : (i : ℕ) → (done.0.store.pc i ≡ Pc.idle) × (done.0.marked i ≡ false)
unfolding done
done_quiet zero = (refl, refl)
done_quiet (suc zero) = (refl, refl)
done_quiet (suc (suc i)) = ground arith

parked_is_woken_example : done.0.woken ≡ true
unfolding done
parked_is_woken_example = parked_is_woken done.1 refl refl done_quiet
