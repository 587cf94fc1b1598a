-- ===== src/Uorb/Overlap/Kept.antt =====
-- What the polling task knows after it has registered, and that the publishers keep it.
use px4_rs.Prelude.{
  ℕ, zero, suc, ◌≤◌, ◌≡◌, ◌⊎◌, inl, inr, refl, arith, ◌||◌, Bool, true, false, List, [], ◌∷◌,
}
use px4_rs.Workqueue.Channel.Parking.{Attempt, resting, first, registering, second, parked}
use px4_rs.Uorb.Overlap.{Publishing, Updating, Hub, step_publisher, publisher_turn}

abbrev pub notifies : Publishing → Bool
notifies Publishing.notifying = true
notifies Publishing.outside = false
notifies (Publishing.copying m) = false
notifies Publishing.counting = false

-- Some thread is before its `notify`.
abbrev pub some_notifies : List Publishing → Bool
some_notifies [] = false
some_notifies (p ∷ ps) = notifies p || some_notifies ps

-- `known`: the task is registered or was woken. `alert`: it was woken or will be.
abbrev pub Ready : Attempt (Unit {0}) → Updating → ℕ → ℕ → Bool → Bool → Type 0
Ready resting u seq last alert known = u ≡ Updating.outside
Ready (first x) u seq last alert known = Unit
Ready (registering x) u seq last alert known = u ≡ Updating.outside
Ready (second x) Updating.outside seq last alert known = known ≡ true
Ready (second x) (Updating.loaded cur) seq last alert known =
    (known ≡ true) × ((seq ≡ cur) ⊎ (alert ≡ true))
Ready (second x) (Updating.copying cur) seq last alert known = known ≡ true
Ready (parked x) u seq last alert known =
    (u ≡ Updating.outside) × (known ≡ true) × ((seq ≤ last) ⊎ (alert ≡ true))

abbrev pub IsReady : List Publishing → Hub → Type 0
IsReady ps h =
    Ready h.task.attempt h.update h.seq h.last_seen (some_notifies ps || h.task.woken)
      (h.task.registered || h.task.woken)

-- What a publisher's turn leaves alone, and what it does for a task that is known.
pub record Quietly (rest : Bool) (ps ps' : List Publishing) (h h' : Hub) : Type 0 where
  pub attempt_same : h'.task.attempt ≡ h.task.attempt
  pub update_same : h'.update ≡ h.update
  pub last_same : h'.last_seen ≡ h.last_seen
  pub knows :
      (h.task.registered || h.task.woken) ≡ true → (h'.task.registered || h'.task.woken) ≡ true
  pub stays :
      (h.task.registered || h.task.woken) ≡ true
      → ((rest || some_notifies ps) || h.task.woken) ≡ true
      → ((rest || some_notifies ps') || h'.task.woken) ≡ true
  pub moved : (h'.seq ≡ h.seq) ⊎ (((rest || some_notifies ps') || h'.task.woken) ≡ true)

publisher_step-Quietly :
    (rest : Bool) (d : List ℕ) (p : Publishing) (ps : List Publishing) (h : Hub)
    → (let (p', h') = step_publisher d p h in Quietly rest (p ∷ ps) (p' ∷ ps) h h')
unfolding step_publisher
publisher_step-Quietly rest d Publishing.outside ps h = record {
  attempt_same = refl;
  update_same = refl;
  last_same = refl;
  knows = λ k. k;
  stays = λ k a. ground arith;
  moved = inl refl;
}
publisher_step-Quietly rest d (Publishing.copying m) ps h = record {
  attempt_same = refl;
  update_same = refl;
  last_same = refl;
  knows = λ k. k;
  stays = λ k a. ground arith;
  moved = inl refl;
}
publisher_step-Quietly rest d Publishing.counting ps h = record {
  attempt_same = refl;
  update_same = refl;
  last_same = refl;
  knows = λ k. k;
  stays = λ k a. ground arith;
  moved = inr (ground arith);
}
publisher_step-Quietly rest d Publishing.notifying ps h = record {
  attempt_same = refl;
  update_same = refl;
  last_same = refl;
  knows = λ k. ground arith;
  stays = λ k a. ground arith;
  moved = inl refl;
}

pub turn-Quietly :
    (rest : Bool) (i : ℕ) (d : List ℕ) (ps : List Publishing) (h : Hub)
    → (let (ps', h') = publisher_turn i d ps h in Quietly rest ps ps' h h')
unfolding publisher_turn
turn-Quietly rest i d [] h = record {
  attempt_same = refl;
  update_same = refl;
  last_same = refl;
  knows = λ k. k;
  stays = λ k a. a;
  moved = inl refl;
}
turn-Quietly rest zero d (p ∷ ps) h = publisher_step-Quietly rest d p ps h
turn-Quietly rest (suc i) d (p ∷ ps) h =
    let q = turn-Quietly (rest || notifies p) i d ps h in
    record {
      attempt_same = q.attempt_same;
      update_same = q.update_same;
      last_same = q.last_same;
      knows = q.knows;
      stays = λ k a. ground (arith, q.stays k);
      moved = ground (arith, q.moved);
    }
