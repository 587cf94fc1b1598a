-- ===== src/Workqueue/Notify/Steps.antt =====
-- Every step of the waiter and of the threads that notify keeps the invariant.
use mathlib.Core.Path.{subst}
use px4_rs.Prelude.{ℕ, ◌≡◌, ◌≢◌, refl, sym, Bool, true, false, arith, update, ◌⊎◌, inl, inr}
use px4_rs.Workqueue.AtomicWaker.{WakerState, Pc, begin_register, begin_take}
use px4_rs.Workqueue.AtomicWaker.Exclusion
use px4_rs.Workqueue.AtomicWaker.Exclusion.{inside, allows}
use px4_rs.Workqueue.Notify.Defs.{Phase, resting, Notify, is_some, with_store}
use px4_rs.Workqueue.Notify.Inv.{is_taking, holding, is_armed, Armed, Inv}

module _ {W : Type 0} {s : Notify W} (inv : Inv s) where
  open inv use {base, others, first, hands, quiet, slot, marks_idle, armed, alert}

  -- A step that changes the phase, the permit and `woken` alone.
  phase-Inv :
      (f : Phase) (permit woken : Bool)
      → s.store.pc 0 ≡ Pc.idle
      → (is_armed {W = W} f Pc.idle ≡ true → Armed s × (woken ≡ s.woken))
      → (f ≡ Phase.parked → permit ≡ false)
      → Inv (record s { waiter = f; permit = permit; woken = woken })
  phase-Inv f permit woken p arm park = record {
    base = base;
    others = others;
    first = first;
    hands = hands;
    quiet = λ h. p;
    slot = slot;
    marks_idle = marks_idle;
    armed = λ h.
        let a = arm (ground arith) in
        subst
          (λ b.
            (b ≡ true)
            ⊎ (is_some s.store.cell.waker ≡ true)
            ⊎ ((i : ℕ) × (holding (s.store.pc i) ≡ true)))
          (sym a.1) a.0;
    alert = λ h k. cc (park h);
  }

  pub polls-Inv :
      resting s.waiter ≡ true → Inv (record s { waiter = Phase.checking; woken = false })
  polls-Inv e =
      phase-Inv Phase.checking s.permit false (quiet (λ q. ground arith)) (λ h. cc) (λ h. cc)

  pub first_hit-Inv :
      s.waiter ≡ Phase.checking → Inv (record s { permit = false; waiter = Phase.away })
  first_hit-Inv e = phase-Inv Phase.away false s.woken (quiet (λ q. cc)) (λ h. cc) (λ h. cc)

  pub first_miss-Inv :
      s.waiter ≡ Phase.checking → Inv (record s { permit = false; waiter = Phase.entering })
  first_miss-Inv e = phase-Inv Phase.entering false s.woken (quiet (λ q. cc)) (λ h. cc) (λ h. cc)

  pub registered-Inv :
      s.waiter ≡ Phase.registering
      → s.store.pc 0 ≡ Pc.idle
      → Inv (record s { waiter = Phase.rechecking })
  registered-Inv e p =
      phase-Inv Phase.rechecking s.permit s.woken p (λ h. (armed (ground arith), refl)) (λ h. cc)

  pub second_hit-Inv :
      s.waiter ≡ Phase.rechecking → Inv (record s { permit = false; waiter = Phase.away })
  second_hit-Inv e = phase-Inv Phase.away false s.woken (quiet (λ q. cc)) (λ h. cc) (λ h. cc)

  pub second_miss-Inv :
      s.waiter ≡ Phase.rechecking → Inv (record s { permit = false; waiter = Phase.parked })
  second_miss-Inv e =
      phase-Inv Phase.parked false s.woken (quiet (λ q. cc)) (λ h. (armed (ground arith), refl))
        (λ h. refl)

  pub marks-Inv :
      (i : ℕ)
      → i ≢ 0
      → s.store.pc i ≡ Pc.idle
      → Inv (record s { permit = true; marked = update s.marked i true })
  marks-Inv i ne e = record {
    base = base;
    others = others;
    first = first;
    hands = hands;
    quiet = quiet;
    slot = slot;
    marks_idle = λ j h. ground (arith, marks_idle j);
    armed = armed;
    alert = λ h k. inr (i, ground arith);
  }

  -- While the waiter is outside, the store is free or some other thread is inside `take`.
  calm :
      s.store.pc 0 ≡ Pc.idle
      → (s.store.cell.state ≡ WakerState.waiting)
        ⊎ ((s.store.cell.state ≡ WakerState.waking) × ((j : ℕ) × (is_taking (s.store.pc j) ≡ true)))
  calm p = elim (Exclusion.WakerState-cases s.store.cell.state) [
    | inl w ↦ inl w
    | inr b ↦
        let (j, held) = base.owned b in
        inr (ground (arith, base.agrees j, others j), (j, ground (arith, base.agrees j, others j)))
  ]

  pub enters-Inv :
      (w : W)
      → s.waiter ≡ Phase.entering
      → Inv (record (with_store s 0 (begin_register w s.store.cell)) { waiter = Phase.registering })
  unfolding begin_register
  enters-Inv w e = record {
    base = Exclusion.registers-Inv base 0 w idle;
    others = λ i h. ground (arith, others i);
    first = ground arith;
    hands = ground arith;
    quiet = λ h. absurd (h refl);
    slot = λ i. ground (arith, slot i);
    marks_idle = λ i h. ground (arith, marks_idle i);
    armed = λ h. elim (calm idle) [
      | inl free ↦ ground arith
      | inr taken ↦ inl (ground (arith, taken.0))
    ];
    alert = λ h. cc;
  }
    where
      idle : s.store.pc 0 ≡ Pc.idle
      idle = quiet (λ q. cc)

  pub takes-Inv :
      (i : ℕ)
      → s.marked i ≡ true
      → Inv (record (with_store s i (begin_take s.store.cell)) { marked = update s.marked i false })
  unfolding begin_take
  takes-Inv i e = record {
    base = Exclusion.takes-Inv base i (marks_idle i e).0;
    others = λ j h. ground (arith, others j);
    first = ground (arith, marks_idle i e);
    hands = ground (arith, marks_idle i e);
    quiet = λ h. ground (arith, marks_idle i e, quiet h);
    slot = λ j. ground (arith, slot j);
    marks_idle = λ j h. ground (arith, marks_idle j);
    armed = λ h. elim (armed (ground (arith, marks_idle i e))) [
      | inl done ↦ inl (ground arith)
      | inr (inl full) ↦ inr (inl full)
      | inr (inr (j, held)) ↦ inr (inr (j, ground (arith, marks_idle i e)))
    ];
    alert = λ h k. elim (armed (ground arith)) [
      | inl done ↦ inl (ground arith)
      | inr (inl full) ↦ elim (calm (quiet (λ q. cc))) [
        | inl free ↦ inr (i, ground (arith, marks_idle i e))
        | inr (w, (j, t)) ↦ inr (j, ground (arith, marks_idle i e, slot j))
      ]
      | inr (inr (j, held)) ↦ inr (j, ground (arith, marks_idle i e))
    ];
  }
