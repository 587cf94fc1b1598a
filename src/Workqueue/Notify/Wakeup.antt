-- ===== src/Workqueue/Notify/Wakeup.antt =====
-- No wake-up is lost: the second look at the permit, after `register`, closes the race with a
-- `notify` that comes in between.
use px4_rs.Prelude.{ℕ, ◌≡◌, refl, true, false, arith, inl, inr}
use px4_rs.Workqueue.AtomicWaker.{Pc, new_waker}
use px4_rs.Workqueue.AtomicWaker.Exclusion
use px4_rs.Workqueue.AtomicWaker.Exclusion.{inside, allows}
use px4_rs.Workqueue.Notify.Defs.{
  Phase, Notify, new_notify, Step, polls, first_hit, first_miss, enters, registered, second_hit,
  second_miss, marks, takes, moves, Reach, start, next,
}
use px4_rs.Workqueue.Notify.Inv.{Alert, Inv}
use px4_rs.Workqueue.Notify.Steps.{
  polls-Inv, first_hit-Inv, first_miss-Inv, enters-Inv, registered-Inv, second_hit-Inv,
  second_miss-Inv, marks-Inv, takes-Inv,
}
use px4_rs.Workqueue.Notify.Moves.{moves-Inv}

new-Inv : {W : Type 0} → Inv (new_notify {W = W})
unfolding new_notify new_waker
new-Inv = record {
  base = Exclusion.fresh-Inv;
  others = λ i h. refl;
  first = refl;
  hands = refl;
  quiet = λ h. refl;
  slot = λ i. refl;
  marks_idle = λ i h. cc;
  armed = λ h. cc;
  alert = λ h. cc;
}

module _ {W : Type 0} {w : W} where
  Step-Inv : {s t : Notify W} → Step w s t → Inv s → Inv t
  Step-Inv (polls e) v = polls-Inv v e
  Step-Inv (first_hit e p) v = first_hit-Inv v e
  Step-Inv (first_miss e p) v = first_miss-Inv v e
  Step-Inv (enters e) v = enters-Inv v w e
  Step-Inv (registered e p) v = registered-Inv v e p
  Step-Inv (second_hit e p) v = second_hit-Inv v e
  Step-Inv (second_miss e p) v = second_miss-Inv v e
  Step-Inv (marks i ne e m) v = marks-Inv v i ne e
  Step-Inv (takes i m) v = takes-Inv v i m
  Step-Inv (moves i) v = moves-Inv v i

  Reach-Inv : {s : Notify W} → Reach w s → Inv s
  Reach-Inv start = new-Inv
  Reach-Inv (next r st) = Step-Inv st (Reach-Inv r)

  -- In every interleaving of a waiter's polls with any number of threads that notify: if the last
  -- poll returned `Pending` and the permit is set, then the task was woken since that poll began, or
  -- some thread is on its way to wake it (it has stored the permit and not yet called `wake`, or it
  -- is about to take the slot, or it holds a waker that it will invoke).
  pub no_lost_wakeup :
      {s : Notify W} → Reach w s → s.waiter ≡ Phase.parked → s.permit ≡ true → Alert s
  no_lost_wakeup r = (Reach-Inv r).alert

  -- So, once every call of `notify` has returned, a parked task whose permit is set was woken.
  pub parked_is_woken :
      {s : Notify W}
      → Reach w s
      → s.waiter ≡ Phase.parked
      → s.permit ≡ true
      → ((i : ℕ) → (s.store.pc i ≡ Pc.idle) × (s.marked i ≡ false))
      → s.woken ≡ true
  parked_is_woken r e p quiet = elim (no_lost_wakeup r e p) [
    | inl done ↦ done
    | inr (i, t) ↦ ground (arith, quiet i)
  ]
