-- ===== src/Workqueue/Cell/Inv.antt =====
-- The invariant of a cell, and the runs of its owner, its wakers and the dispatcher.
use mathlib.Core.Path.{subst}
use mathlib.Core.Option.{some-injective}
use px4_rs.Prelude.{
  sym, if-true, if-false, Bool-cases, inl, inr, ◌∙◌, leb, ◌-◌, ℕ, zero, suc, ◌<◌, ◌≡◌, refl, Bool,
  true, false, Option, none, some, arith,
}
use px4_rs.Workqueue.Cell.{
  clear_run_queued, WorkItemCell, Polled, new_cell, try_spawn, wake_by_ref, wake_times, finish,
  poll_live, poll_once, dispatch,
}

abbrev pub is_some : {A : Type 0} → Option A → Bool
is_some none = false
is_some (some a) = true

-- The slot is initialised exactly while SPAWNED is set; a live task has a work item; a live task
-- with RUN_QUEUED set has a request in the queue.
pub record IsValid {F : Type 0} (c : WorkItemCell F) : Type 0 where
  pub live : is_some c.future ≡ c.state.spawned
  pub bound : c.state.spawned ≡ true → c.handle ≡ true
  pub pending : c.state.spawned ≡ true → c.state.run_queued ≡ true → 0 < c.queue

module _ {F : Type 0} where
  pub new-IsValid : IsValid (new_cell {F = F})
  unfolding new_cell
  new-IsValid = ground arith

  pub try_spawn-IsValid :
      (alloc : Bool) (fut : F) {c : WorkItemCell F} → IsValid c → IsValid (try_spawn alloc fut c).0
  unfolding try_spawn
  try_spawn-IsValid alloc fut v = ground arith

  pub wake-IsValid : {c : WorkItemCell F} → IsValid c → IsValid (wake_by_ref c)
  unfolding wake_by_ref
  wake-IsValid v = ground arith

  pub wake_times-IsValid : (n : ℕ) {c : WorkItemCell F} → IsValid c → IsValid (wake_times n c)
  wake_times-IsValid zero v = v
  wake_times-IsValid (suc n) v = wake_times-IsValid n (wake-IsValid v)

  wake_times-spawned :
      (n : ℕ) (c : WorkItemCell F) → (wake_times n c).state.spawned ≡ c.state.spawned
  unfolding wake_by_ref
  wake_times-spawned zero c = refl
  wake_times-spawned (suc n) c = ground (arith, wake_times-spawned n (wake_by_ref c))

  -- What is left after the poll is valid, if RUN_QUEUED was cleared before it.
  finish-IsValid :
      (p : Polled F) {c : WorkItemCell F}
      → IsValid c
      → c.state.spawned ≡ true
      → IsValid (finish p c)
  unfolding finish
  finish-IsValid p {c} v live =
      ground (arith, wake_times-IsValid p.wakes v, wake_times-spawned p.wakes c)

  module _ (poll : F → Polled F) where
    poll_live-returns :
        (o : Option F) {c : WorkItemCell F}
        → is_some o ≡ true
        → IsValid c
        → c.state.spawned ≡ true
        → (c' : WorkItemCell F) × (poll_live poll o c ≡ some c') × IsValid c'
    unfolding poll_live
    poll_live-returns none h v live = cc
    poll_live-returns (some f) {c} h v live =
        (finish (poll f) c, refl, finish-IsValid (poll f) v live)

    poll_once-returns :
        (c : WorkItemCell F)
        → is_some c.future ≡ c.state.spawned
        → (c.state.spawned ≡ true → c.handle ≡ true)
        → (c' : WorkItemCell F) × (poll_once poll c ≡ some c') × IsValid c'
    unfolding poll_once
    poll_once-returns c live bound = elim (Bool-cases c.state.spawned) [
      | inl s ↦
          let (c', e, v) =
            poll_live-returns c.future {c = clear_run_queued c} (live ∙ s) (ground arith) s in
          (c', if-true _ _ s ∙ e, v)
      | inr s ↦ (clear_run_queued c, if-false _ _ s, ground arith)
    ]

    -- The dispatcher never polls an uninitialised slot, and its turn keeps the invariant.
    pub dispatch-returns :
        {c : WorkItemCell F}
        → IsValid c
        → (c' : WorkItemCell F) × (dispatch poll c ≡ some c') × IsValid c'
    unfolding dispatch
    dispatch-returns {c} v = elim (Bool-cases (leb c.queue 0)) [
      | inl e ↦ rw e (c, refl, v)
      | inr e ↦ rw e (poll_once-returns (record c { queue = c.queue - 1 }) v.live v.bound)
    ]

-- One step of the world around a cell: its owner spawns, anything wakes, the dispatcher runs.
pub data Step {F : Type 0} (poll : F → Polled F) (c : WorkItemCell F)
    : WorkItemCell F → Type 0 where
  spawned : (alloc : Bool) (fut : F) → Step poll c (try_spawn alloc fut c).0
  woken : Step poll c (wake_by_ref c)
  ran : {c' : WorkItemCell F} → dispatch poll c ≡ some c' → Step poll c c'

pub data Reach {F : Type 0} (poll : F → Polled F) (c : WorkItemCell F)
    : WorkItemCell F → Type 0 where
  here : Reach poll c c
  next : {d e : WorkItemCell F} → Reach poll c d → Step poll d e → Reach poll c e

-- Every step keeps the invariant.
pub Step-IsValid :
    {F : Type 0} {poll : F → Polled F} {c d : WorkItemCell F}
    → Step poll c d
    → IsValid c
    → IsValid d
Step-IsValid (spawned alloc fut) v = try_spawn-IsValid alloc fut v
Step-IsValid woken v = wake-IsValid v
Step-IsValid {poll} {c} {d} (ran e) v =
    let (c', e', v') = dispatch-returns poll v in subst IsValid (some-injective _ _ (sym e' ∙ e)) v'

pub Reach-IsValid :
    {F : Type 0} {poll : F → Polled F} {c d : WorkItemCell F}
    → Reach poll c d
    → IsValid c
    → IsValid d
Reach-IsValid here v = v
Reach-IsValid (next r s) v = Step-IsValid s (Reach-IsValid r v)
