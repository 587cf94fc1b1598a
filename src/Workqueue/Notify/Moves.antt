-- ===== src/Workqueue/Notify/Moves.antt =====
-- A step of a thread inside the store keeps the invariant, field by field.
use native.Mathlib.Decide.{ℕ_discrete}
use px4_rs.Prelude.{ℕ, ◌≡◌, ◌≢◌, refl, true, false, some, arith, inl, inr}
use px4_rs.Workqueue.AtomicWaker.{Pc, advance}
use px4_rs.Workqueue.AtomicWaker.Exclusion
use px4_rs.Workqueue.AtomicWaker.Exclusion.{inside, allows}
use px4_rs.Workqueue.Notify.Defs.{Phase, Notify, with_store}
use px4_rs.Workqueue.Notify.Inv.{
  is_registering, is_taking, fits, full_hands, is_armed, Armed, Alert, Inv,
}

module _ {W : Type 0} {s : Notify W} (inv : Inv s) (i : ℕ) where
  open inv use {base, others, first, hands, quiet, slot, marks_idle, armed, alert}

  abbrev pub after : Pc W → Notify W
  after p = with_store s i (advance p s.store.cell)

  others_moves :
      (p : Pc W)
      → s.store.pc i ≡ p
      → (j : ℕ) → j ≢ 0
      → is_registering ((after p).store.pc j) ≡ false
  unfolding advance
  others_moves Pc.idle e j h = ground (arith, others j)
  others_moves p e j h = ground (arith, others j, base.agrees i)

  zero_moves :
      (p : Pc W)
      → s.store.pc i ≡ p
      → (is_taking ((after p).store.pc 0) ≡ false) × (full_hands ((after p).store.pc 0) ≡ true)
  unfolding advance
  zero_moves Pc.idle e = ground (arith, first, hands)
  zero_moves p e = ground (arith, first, hands, slot i, base.agrees i)

  quiet_moves :
      (p : Pc W) → s.store.pc i ≡ p → s.waiter ≢ Phase.registering → (after p).store.pc 0 ≡ Pc.idle
  unfolding advance
  quiet_moves Pc.idle e h = ground (arith, quiet h)
  quiet_moves p e h = ground (arith, quiet h)

  slot_moves :
      (p : Pc W)
      → s.store.pc i ≡ p
      → (j : ℕ) → fits ((after p).store.pc j) (after p).store.cell.waker ≡ true
  unfolding advance
  slot_moves Pc.idle e j = ground (arith, slot j)
  slot_moves p e j = ground (arith, slot j, base.unique i j, slot i, base.agrees i)

  marks_moves :
      (p : Pc W)
      → s.store.pc i ≡ p
      → (j : ℕ) → s.marked j ≡ true
      → ((after p).store.pc j ≡ Pc.idle) × (j ≢ 0)
  unfolding advance
  marks_moves Pc.idle e j h = ground (arith, marks_idle j h)
  marks_moves p e j h = ground (arith, marks_idle j h)

  -- A thread that is not registering leaves the waker in the slot, in some hands, or invoked.
  Armed-keeps : (p : Pc W) → s.store.pc i ≡ p → is_registering p ≡ false → Armed s → Armed (after p)
  unfolding advance
  Armed-keeps p e r (inl done) = inl (ground arith)
  Armed-keeps Pc.grab e r (inr (inl full)) = inr (inr (i, ground arith))
  Armed-keeps p e r (inr (inl full)) = inr (inl (ground arith))
  Armed-keeps (Pc.release (some w)) e r (inr (inr (j, held))) = inr (inr (i, ground arith))
  Armed-keeps (Pc.invoke (some w)) e r (inr (inr (j, held))) = inl (ground arith)
  Armed-keeps p e r (inr (inr (j, held))) = inr (inr (j, ground arith))

  -- While the waiter is armed, or the thread is not the waiter, that thread is not registering.
  Armed-moves :
      (p : Pc W)
      → s.store.pc i ≡ p
      → is_armed s.waiter ((after p).store.pc 0) ≡ true
      → Armed (after p)
  unfolding advance
  Armed-moves Pc.idle e h = Armed-keeps Pc.idle e refl (armed (ground arith))
  Armed-moves (Pc.store w) e h = absurd (ground (arith, others i, quiet))
  Armed-moves Pc.commit e h = inr (inl (ground (arith, others i, quiet, slot i, base.agrees i)))
  Armed-moves Pc.drain e h = absurd (ground (arith, others i, quiet))
  Armed-moves (Pc.clear o) e h = absurd (ground (arith, others i, quiet))
  Armed-moves Pc.grab e h = Armed-keeps Pc.grab e refl (armed (ground (arith, first)))
  Armed-moves (Pc.release o) e h = Armed-keeps (Pc.release o) e refl (armed (ground (arith, first)))
  Armed-moves (Pc.invoke o) e h = elim (ℕ_discrete i 0) [
    | yes z ↦ inl (ground (arith, hands))
    | no z ↦ Armed-keeps (Pc.invoke o) e refl (armed (ground arith))
  ]

  Alert-keeps :
      (p : Pc W) → s.store.pc i ≡ p → is_registering p ≡ false → Armed s → Alert s → Alert (after p)
  unfolding advance
  Alert-keeps p e r (inl done) a = inl (ground arith)
  Alert-keeps (Pc.release (some w)) e r (inr (inr (j, held))) a = inr (i, ground arith)
  Alert-keeps (Pc.invoke (some w)) e r (inr (inr (j, held))) a = inl (ground arith)
  Alert-keeps p e r (inr (inr (j, held))) a = inr (j, ground arith)
  Alert-keeps p e r (inr (inl full)) (inl done) = inl (ground arith)
  Alert-keeps Pc.grab e r (inr (inl full)) (inr (j, t)) = inr (i, ground arith)
  Alert-keeps (Pc.release (some w)) e r (inr (inl full)) (inr (j, t)) = inr (i, ground arith)
  Alert-keeps (Pc.invoke (some w)) e r (inr (inl full)) (inr (j, t)) = inl (ground arith)
  Alert-keeps p e r (inr (inl full)) (inr (j, t)) = inr (j, ground arith)

  Alert-moves :
      (p : Pc W) → s.store.pc i ≡ p → s.waiter ≡ Phase.parked → s.permit ≡ true → Alert (after p)
  Alert-moves p e h k =
      Alert-keeps p e (ground (arith, others i, quiet)) (armed (ground arith)) (alert h k)

  pub moves-Inv : Inv (after (s.store.pc i))
  moves-Inv = record {
    base = Exclusion.moves-Inv base i;
    others = others_moves (s.store.pc i) refl;
    first = (zero_moves (s.store.pc i) refl).0;
    hands = (zero_moves (s.store.pc i) refl).1;
    quiet = quiet_moves (s.store.pc i) refl;
    slot = slot_moves (s.store.pc i) refl;
    marks_idle = marks_moves (s.store.pc i) refl;
    armed = Armed-moves (s.store.pc i) refl;
    alert = Alert-moves (s.store.pc i) refl;
  }
