-- ===== src/Workqueue/Notify/Inv.antt =====
-- The invariant of a `Notify`: where the waiter's waker is at each moment.
use px4_rs.Prelude.{ℕ, ◌≡◌, ◌≢◌, Bool, true, false, Option, none, some, ◌⊎◌}
use px4_rs.Workqueue.AtomicWaker.{Pc}
use px4_rs.Workqueue.AtomicWaker.Exclusion
use px4_rs.Workqueue.Notify.Defs.{Phase, Notify, is_some}

-- Inside `register`, or inside `take`.
abbrev pub is_registering : {W : Type 0} → Pc W → Bool
is_registering (Pc.store w) = true
is_registering Pc.commit = true
is_registering Pc.drain = true
is_registering (Pc.clear o) = true
is_registering p = false

abbrev pub is_taking : {W : Type 0} → Pc W → Bool
is_taking Pc.grab = true
is_taking (Pc.release o) = true
is_taking p = false

-- What the slot holds while a thread stands there, and what the waiter has in its hands.
abbrev pub fits : {W : Type 0} → Pc W → Option W → Bool
fits Pc.commit none = false
fits Pc.drain none = false
fits (Pc.release o) (some w) = false
fits p m = true

abbrev pub full_hands : {W : Type 0} → Pc W → Bool
full_hands (Pc.clear none) = false
full_hands (Pc.invoke none) = false
full_hands p = true

-- The thread holds a waker that it will invoke.
abbrev pub holding : {W : Type 0} → Pc W → Bool
holding (Pc.release (some w)) = true
holding (Pc.invoke (some w)) = true
holding p = false

-- The thread is on its way to a wake.
abbrev pub alerting : {W : Type 0} → Bool → Pc W → Bool
alerting true p = true
alerting false Pc.grab = true
alerting false p = holding p

-- The registration of the current poll is done.
abbrev pub is_armed : {W : Type 0} → Phase → Pc W → Bool
is_armed Phase.rechecking p = true
is_armed Phase.parked p = true
is_armed Phase.registering Pc.idle = true
is_armed f p = false

abbrev pub Armed : {W : Type 0} → Notify W → Type 0
Armed s =
    (s.woken ≡ true)
    ⊎ (is_some s.store.cell.waker ≡ true)
    ⊎ ((i : ℕ) × (holding (s.store.pc i) ≡ true))

abbrev pub Alert : {W : Type 0} → Notify W → Type 0
Alert s = (s.woken ≡ true) ⊎ ((i : ℕ) × (alerting (s.marked i) (s.store.pc i) ≡ true))

pub record Inv {W : Type 0} (s : Notify W) : Type 0 where
  pub base : Exclusion.Inv s.store
  pub others : (i : ℕ) → i ≢ 0 → is_registering (s.store.pc i) ≡ false
  pub first : is_taking (s.store.pc 0) ≡ false
  pub hands : full_hands (s.store.pc 0) ≡ true
  pub quiet : s.waiter ≢ Phase.registering → s.store.pc 0 ≡ Pc.idle
  pub slot : (i : ℕ) → fits (s.store.pc i) s.store.cell.waker ≡ true
  pub marks_idle : (i : ℕ) → s.marked i ≡ true → (s.store.pc i ≡ Pc.idle) × (i ≢ 0)
  pub armed : is_armed s.waiter (s.store.pc 0) ≡ true → Armed s
  pub alert : s.waiter ≡ Phase.parked → s.permit ≡ true → Alert s
