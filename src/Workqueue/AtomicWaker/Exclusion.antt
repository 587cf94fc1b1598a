-- ===== src/Workqueue/AtomicWaker/Exclusion.antt =====
-- Only one thread at a time is between setting and clearing a bit of the state word, so only one
-- touches the slot.
use px4_rs.Prelude.{ℕ, ◌≡◌, ◌≢◌, refl, Bool, true, false, arith, ◌⊎◌, inl, inr, none}
use px4_rs.Workqueue.AtomicWaker.{
  WakerState, AtomicWaker, Pc, new_waker, begin_register, begin_take, commit_in, advance, run_alone,
  System, put, Step, registers, takes, moves, fresh, Reach, start, next,
}

-- The thread may touch the slot.
abbrev pub inside : {W : Type 0} → Pc W → Bool
inside Pc.idle = false
inside (Pc.invoke o) = false
inside (Pc.store w) = true
inside Pc.commit = true
inside Pc.drain = true
inside (Pc.clear o) = true
inside Pc.grab = true
inside (Pc.release o) = true

-- The states of the word at which a thread can stand there.
abbrev pub allows : {W : Type 0} → Pc W → WakerState → Bool
allows Pc.idle s = true
allows (Pc.invoke o) s = true
allows (Pc.store w) WakerState.registering = true
allows (Pc.store w) WakerState.registering_waking = true
allows Pc.commit WakerState.registering = true
allows Pc.commit WakerState.registering_waking = true
allows Pc.drain WakerState.registering_waking = true
allows (Pc.clear o) WakerState.registering_waking = true
allows Pc.grab WakerState.waking = true
allows (Pc.release o) WakerState.waking = true
allows p s = false

pub record Inv {W : Type 0} (s : System W) : Type 0 where
  pub unique : (i j : ℕ) → inside (s.pc i) ≡ true → inside (s.pc j) ≡ true → i ≡ j
  pub agrees : (i : ℕ) → allows (s.pc i) s.cell.state ≡ true
  pub owned : s.cell.state ≢ WakerState.waiting → (i : ℕ) × (inside (s.pc i) ≡ true)

pub WakerState-cases : (a : WakerState) → (a ≡ WakerState.waiting) ⊎ (a ≢ WakerState.waiting)
WakerState-cases WakerState.waiting = inl refl
WakerState-cases WakerState.registering = inr (λ e. cc)
WakerState-cases WakerState.waking = inr (λ e. cc)
WakerState-cases WakerState.registering_waking = inr (λ e. cc)

module _ {W : Type 0} {s : System W} (inv : Inv s) where
  open inv use {unique, agrees, owned}

  pub registers-Inv : (i : ℕ) (w : W) → s.pc i ≡ Pc.idle → Inv (put s i (begin_register w s.cell))
  unfolding begin_register
  registers-Inv i w e = record {
    unique = λ a b p q. ground (arith, unique a b, agrees a, agrees b, agrees i);
    agrees = λ a. ground (arith, agrees a, agrees i);
    owned = λ h. elim (WakerState-cases s.cell.state) [
      | inl w ↦ (i, ground arith)
      | inr b ↦ let (j, held) = owned b in (j, ground arith)
    ];
  }

  pub takes-Inv : (i : ℕ) → s.pc i ≡ Pc.idle → Inv (put s i (begin_take s.cell))
  unfolding begin_take
  takes-Inv i e = record {
    unique = λ a b p q. ground (arith, unique a b, agrees a, agrees b, agrees i);
    agrees = λ a. ground (arith, agrees a, agrees i);
    owned = λ h. elim (WakerState-cases s.cell.state) [
      | inl w ↦ (i, ground arith)
      | inr b ↦ let (j, held) = owned b in (j, ground arith)
    ];
  }

  moves_unique :
      (i : ℕ) (p : Pc W)
      → s.pc i ≡ p
      → (a b : ℕ) → inside ((put s i (advance p s.cell)).pc a) ≡ true
      → inside ((put s i (advance p s.cell)).pc b) ≡ true
      → a ≡ b
  unfolding advance
  moves_unique i Pc.idle e a b p q = ground (arith, unique a b, unique a i, unique b i)
  moves_unique i p e a b pa pb = ground (arith, unique a b, unique a i, unique b i, agrees i)

  moves_agrees :
      (i : ℕ) (p : Pc W)
      → s.pc i ≡ p
      → (a : ℕ)
      → allows ((put s i (advance p s.cell)).pc a) (put s i (advance p s.cell)).cell.state ≡ true
  unfolding advance
  moves_agrees i Pc.idle e a = ground (arith, agrees a, agrees i, unique a i)
  moves_agrees i p e a = ground (arith, agrees a, agrees i, unique a i)

  moves_owned :
      (i : ℕ) (p : Pc W)
      → s.pc i ≡ p
      → (put s i (advance p s.cell)).cell.state ≢ WakerState.waiting
      → (j : ℕ) × (inside ((put s i (advance p s.cell)).pc j) ≡ true)
  unfolding advance
  moves_owned i Pc.idle e h = let (j, held) = owned h in (j, ground arith)
  moves_owned i (Pc.invoke o) e h = let (j, held) = owned h in (j, ground arith)
  moves_owned i p e h = (i, ground (arith, agrees i))

  pub moves-Inv : (i : ℕ) → Inv (put s i (advance (s.pc i) s.cell))
  moves-Inv i = record {
    unique = moves_unique i (s.pc i) refl;
    agrees = moves_agrees i (s.pc i) refl;
    owned = moves_owned i (s.pc i) refl;
  }

module _ {W : Type 0} where
  pub Step-Inv : {s t : System W} → Step s t → Inv s → Inv t
  Step-Inv (registers i w e) inv = registers-Inv inv i w e
  Step-Inv (takes i e) inv = takes-Inv inv i e
  Step-Inv (moves i) inv = moves-Inv inv i

  pub fresh-Inv : Inv (fresh {W = W})
  unfolding new_waker
  fresh-Inv = record { unique = λ i j p q. cc; agrees = λ i. refl; owned = λ h. absurd (h refl) }

  pub Reach-Inv : {s : System W} → Reach s → Inv s
  Reach-Inv start = fresh-Inv
  Reach-Inv (next r st) = Step-Inv st (Reach-Inv r)

  -- In every reachable state, whatever threads register and wake at once, at most one thread may
  -- touch the slot.
  pub slot_exclusive :
      {s : System W} → Reach s → (i j : ℕ) → inside (s.pc i) ≡ true → inside (s.pc j) ≡ true → i ≡ j
  slot_exclusive r = (Reach-Inv r).unique

  -- A thread inside that goes on alone leaves the word WAITING after at most four steps.
  clears :
      (p : Pc W) (m : AtomicWaker W)
      → allows p m.state ≡ true
      → inside p ≡ true
      → (run_alone 4 p m none).0.state ≡ WakerState.waiting
  unfolding run_alone advance commit_in
  clears Pc.idle m a h = absurd (cc)
  clears (Pc.invoke o) m a h = absurd (cc)
  clears (Pc.store w) m a h = ground arith
  clears Pc.commit m a h = ground arith
  clears Pc.drain m a h = refl
  clears (Pc.clear o) m a h = refl
  clears Pc.grab m a h = ground arith
  clears (Pc.release o) m a h = ground arith

  -- In every reachable state: while the state word is not WAITING, some thread is inside, which leaves
  -- it WAITING if it goes on alone for four steps; the `debug_assert` of `register` holds whenever its
  -- second compare-exchange has failed; and where a wake came while a thread was registering, that
  -- thread, if it goes on alone, empties the slot and invokes the waker in it.
  pub never_stuck :
      {s : System W}
      → Reach s
      → (s.cell.state ≢ WakerState.waiting
          → (i : ℕ) × (inside (s.pc i) ≡ true)
            × ((run_alone 4 (s.pc i) s.cell none).0.state ≡ WakerState.waiting))
        × ((i : ℕ) → s.pc i ≡ Pc.drain → s.cell.state ≡ WakerState.registering_waking)
        × ((i : ℕ)
            → s.pc i ≡ Pc.commit
            → s.cell.state ≡ WakerState.registering_waking
            → run_alone 4 (s.pc i) s.cell none
              ≡ (record { state = WakerState.waiting; waker = none }, s.cell.waker))
  unfolding run_alone advance commit_in
  never_stuck {s} r = (
    λ h.
        let (i, held) = (Reach-Inv r).owned h in
        (i, held, clears (s.pc i) s.cell ((Reach-Inv r).agrees i) held),
    λ i e. ground (arith, (Reach-Inv r).agrees i),
    λ i e w. rw (e, w) refl,
  )
