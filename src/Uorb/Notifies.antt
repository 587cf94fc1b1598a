-- ===== src/Uorb/Notifies.antt =====
-- What `notify` of the broker does to the subscriptions, and whom it wakes.
use mathlib.Core.List.{Mem, mem-cons_self, mem-cons_of_mem}
use mathlib.Core.Path.{subst}
use px4_rs.Prelude.{
  ℕ, suc, ◌≡◌, ◌≢◌, ◌≤◌, ◌+◌, inl, inr, refl, sym, ap, ◌∙◌, Option, none, some, List, [], ◌∷◌, ◌++◌,
  ◌==◌, arith, Bool-cases, ==_iff, if◌then◌else◌,
}
use px4_rs.Workqueue.AtomicWaker.{WakerState, wake}
use px4_rs.Workqueue.AtomicWaker.Alone.{wake_lem}
use px4_rs.Uorb.Broker.{Subscription, prepend, with_waker, notify, remove}

-- How often `i` is among the callbacks.
abbrev pub count : ℕ → List ℕ → ℕ
count i [] = 0
count i (j ∷ js) = if i == j then suc (count i js) else count i js

pub count-append : (i : ℕ) (xs ys : List ℕ) → count i (xs ++ ys) ≡ count i xs + count i ys
count-append i [] ys = omega arith
count-append i (x ∷ xs) ys = ground (arith, count-append i xs ys)

pub count-remove_self : (i : ℕ) (xs : List ℕ) → count i (remove i xs) ≡ 0
count-remove_self i [] = refl
count-remove_self i (x ∷ xs) = ground (arith, count-remove_self i xs)

pub count-remove_ne : (i j : ℕ) (xs : List ℕ) → i ≢ j → count j (remove i xs) ≡ count j xs
count-remove_ne i j [] h = refl
count-remove_ne i j (x ∷ xs) h = ground (arith, count-remove_ne i j xs h)

module _ {W : Type 0} where
  -- No call is inside the store of any waker.
  abbrev pub Quiet : (ℕ → Subscription W) → Type 0
  Quiet subs = (i : ℕ) → (subs i).waker.state ≡ WakerState.waiting

  wake_state :
      (i : ℕ) (subs : ℕ → Subscription W)
      → Quiet subs
      → (wake (subs i).waker).0.state ≡ WakerState.waiting
  wake_state i subs q = ap (λ r. r.0.state) (wake_lem (subs i).waker (q i))

  pub woken-Quiet :
      (i : ℕ) (subs : ℕ → Subscription W)
      → Quiet subs
      → Quiet (with_waker subs i (wake (subs i).waker).0)
  woken-Quiet i subs q j = ground (arith, wake_state i subs q, q j)

  -- The callbacks leave the handles and the sizes as they are.
  pub notify_cb :
      (is : List ℕ) (subs : ℕ → Subscription W) (j : ℕ) → ((notify is subs).0 j).cb ≡ (subs j).cb
  unfolding notify
  notify_cb [] subs j = refl
  notify_cb (i ∷ is) subs j =
      notify_cb is (with_waker subs i (wake (subs i).waker).0) j ∙ (ground arith)

  pub notify-Quiet :
      (is : List ℕ) (subs : ℕ → Subscription W) → Quiet subs → Quiet (notify is subs).0
  unfolding notify
  notify-Quiet [] subs q = q
  notify-Quiet (i ∷ is) subs q = notify-Quiet is _ (woken-Quiet i subs q)

  mem-prepend_tail : (w : W) (o : Option W) (ws : List W) → Mem w ws → Mem w (prepend o ws)
  mem-prepend_tail w none ws h = h
  mem-prepend_tail w (some v) ws h = mem-cons_of_mem v h

  mem-prepend_head : (w : W) (o : Option W) (ws : List W) → o ≡ some w → Mem w (prepend o ws)
  mem-prepend_head w o ws e = subst (λ v. Mem w (prepend v ws)) (sym e) mem-cons_self

  -- A listed subscription is woken.
  pub notify_wakes :
      (is : List ℕ) (subs : ℕ → Subscription W) (i : ℕ) (w : W)
      → Quiet subs
      → 1 ≤ count i is
      → (subs i).waker.waker ≡ some w
      → Mem w (notify is subs).1
  unfolding notify
  notify_wakes [] subs i w q h e = absurd (omega arith)
  notify_wakes (j ∷ is) subs i w q h e = elim (Bool-cases (i == j)) [
    | inl y ↦ mem-prepend_head w (wake (subs j).waker).1 _ (
        ap (λ r. r.1) (wake_lem (subs j).waker (q j))
        ∙ (ap (λ k. (subs k).waker.waker) (sym ((==_iff i j).0 y)) ∙ e))
    | inr n ↦ mem-prepend_tail w (wake (subs j).waker).1 _ (
        notify_wakes is (with_waker subs j (wake (subs j).waker).0) i w (woken-Quiet j subs q)
          (ground arith) (ground arith))
  ]
