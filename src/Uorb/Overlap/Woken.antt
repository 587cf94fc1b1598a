-- ===== src/Uorb/Overlap/Woken.antt =====
-- Every turn of the publishers and of the polling task keeps the task ready.
use mathlib.Core.Path.{subst}
use px4_rs.Prelude.{
  ℕ, ◌<◌, ◌≡◌, ◌⊎◌, inl, refl, sym, arith, ◌||◌, Bool, true, false, List, [], ◌∷◌, ltb, if-holds,
}
use px4_rs.Workqueue.Channel.Parking.{
  Attempt, resting, first, registering, second, parked, fail_attempt,
}
use px4_rs.Uorb.Overlap.{
  Publishing, Updating, Hub, HubTurn, publisher, poller, publisher_turn, end_update, step_update,
  step_poll, hub_turn, run_hub,
}
use px4_rs.Uorb.Overlap.Kept.{some_notifies, Ready, IsReady, turn-Quietly}

-- Another thread's turn, for any point of the poll.
Ready-kept :
    (a : Attempt (Unit {0})) (u : Updating) (seq seq' last : ℕ) (alert alert' known known' : Bool)
    → (known ≡ true → known' ≡ true)
    → (known ≡ true → alert ≡ true → alert' ≡ true)
    → ((seq' ≡ seq) ⊎ (alert' ≡ true))
    → Ready a u seq last alert known
    → Ready a u seq' last alert' known'
Ready-kept resting u seq seq' last alert alert' known known' knows stays moved h = h
Ready-kept (first x) u seq seq' last alert alert' known known' knows stays moved h = tt
Ready-kept (registering x) u seq seq' last alert alert' known known' knows stays moved h = h
Ready-kept (second x) Updating.outside seq seq' last alert alert' known known' knows stays moved h =
    knows h
Ready-kept (second x) (Updating.loaded cur) seq seq' last alert alert' known known' knows stays
      moved (k, e) =
    (knows k, ground (arith, e, moved, stays k))
Ready-kept (second x) (Updating.copying cur) seq seq' last alert alert' known known' knows stays
      moved h =
    knows h
Ready-kept (parked x) u seq seq' last alert alert' known known' knows stays moved (o, k, e) =
    (o, knows k, ground (arith, e, moved, stays k))

publisher-IsReady :
    (i : ℕ) (d : List ℕ) (ps : List Publishing) (h : Hub)
    → IsReady ps h
    → (let (ps', h') = publisher_turn i d ps h in IsReady ps' h')
publisher-IsReady i d ps h r =
    let (ps', h') = publisher_turn i d ps h in
    let q = turn-Quietly false i d ps h in
    let alert = some_notifies ps' || h'.task.woken in
    let known = h'.task.registered || h'.task.woken in
    subst (λ (a : Attempt (Unit {0})). Ready a h'.update h'.seq h'.last_seen alert known)
      (sym q.attempt_same)
      (subst (λ (u : Updating). Ready h.task.attempt u h'.seq h'.last_seen alert known)
        (sym q.update_same)
        (subst (λ (l : ℕ). Ready h.task.attempt h.update h'.seq l alert known) (sym q.last_same)
          (Ready-kept h.task.attempt h.update h.seq h'.seq h.last_seen
            (some_notifies ps || h.task.woken) alert (h.task.registered || h.task.woken) known
            q.knows q.stays q.moved r)))

-- A turn of the update of the first attempt, and of the second.
first_update-IsReady :
    (x : Unit {0}) (u : Updating) (ps : List Publishing) (h : Hub)
    → h.task.attempt ≡ first x
    → IsReady ps (step_update u h)
unfolding step_update
first_update-IsReady x Updating.outside ps h e =
    subst
      (λ (a : Attempt (Unit {0})).
        Ready a (Updating.loaded h.seq) h.seq h.last_seen (some_notifies ps || h.task.woken)
          (h.task.registered || h.task.woken))
      (sym e) tt
first_update-IsReady x (Updating.loaded cur) ps h e =
    if-holds (IsReady ps) (ltb h.last_seen cur)
      (λ t.
        subst
          (λ (a : Attempt (Unit {0})).
            Ready a (Updating.copying cur) h.seq h.last_seen (some_notifies ps || h.task.woken)
              (h.task.registered || h.task.woken))
          (sym e) tt)
      (λ t.
        subst (λ (a : Attempt (Unit {0})). IsReady ps (end_update (fail_attempt a) h)) (sym e) refl)
first_update-IsReady x (Updating.copying cur) ps h e = refl

second_update-IsReady :
    (x : Unit {0}) (u : Updating) (ps : List Publishing) (h : Hub)
    → h.task.attempt ≡ second x
    → Ready
        (second x)
        u
        h.seq
        h.last_seen
        (some_notifies ps || h.task.woken)
        (h.task.registered || h.task.woken)
    → IsReady ps (step_update u h)
unfolding step_update
second_update-IsReady x Updating.outside ps h e k =
    subst
      (λ (a : Attempt (Unit {0})).
        Ready a (Updating.loaded h.seq) h.seq h.last_seen (some_notifies ps || h.task.woken)
          (h.task.registered || h.task.woken))
      (sym e) (k, inl refl)
second_update-IsReady x (Updating.loaded cur) ps h e (k, w) =
    if-holds (IsReady ps) (ltb h.last_seen cur)
      (λ t.
        subst
          (λ (a : Attempt (Unit {0})).
            Ready a (Updating.copying cur) h.seq h.last_seen (some_notifies ps || h.task.woken)
              (h.task.registered || h.task.woken))
          (sym e) k)
      (λ t.
        subst (λ (a : Attempt (Unit {0})). IsReady ps (end_update (fail_attempt a) h)) (sym e)
          (refl, k, ground (arith, w, t)))
second_update-IsReady x (Updating.copying cur) ps h e k = refl

poll-IsReady :
    (a : Attempt (Unit {0})) (ps : List Publishing) (h : Hub)
    → h.task.attempt ≡ a
    → IsReady ps h
    → IsReady ps (step_poll a h)
unfolding step_poll
poll-IsReady resting ps h e r = tt
poll-IsReady (first x) ps h e r = first_update-IsReady x h.update ps h e
poll-IsReady (registering x) ps h e r =
    let outside =
      subst
        (λ (a : Attempt (Unit {0})).
          Ready a h.update h.seq h.last_seen (some_notifies ps || h.task.woken)
            (h.task.registered || h.task.woken))
        e r in
    subst
      (λ (u : Updating).
        Ready (second x) u h.seq h.last_seen (some_notifies ps || h.task.woken) true)
      (sym outside) refl
poll-IsReady (second x) ps h e r = second_update-IsReady x h.update ps h e (
    subst
      (λ (a : Attempt (Unit {0})).
        Ready a h.update h.seq h.last_seen (some_notifies ps || h.task.woken)
          (h.task.registered || h.task.woken))
      e r)
poll-IsReady (parked x) ps h e r = tt

run_hub-IsReady :
    (ts : List HubTurn) (ps : List Publishing) (h : Hub)
    → IsReady ps h
    → (let (ps', h') = run_hub ts ps h in IsReady ps' h')
unfolding run_hub hub_turn
run_hub-IsReady [] ps h r = r
run_hub-IsReady (publisher i d ∷ ts) ps h r =
    let (ps', h') = publisher_turn i d ps h in
    run_hub-IsReady ts ps' h' (publisher-IsReady i d ps h r)
run_hub-IsReady (poller ∷ ts) ps h r =
    run_hub-IsReady ts ps (step_poll h.task.attempt h) (poll-IsReady h.task.attempt ps h refl r)

parked_alert :
    (x : Unit {0}) (ps : List Publishing) (h : Hub)
    → h.task.attempt ≡ parked x
    → h.last_seen < h.seq
    → IsReady ps h
    → (some_notifies ps || h.task.woken) ≡ true
parked_alert x ps h e l r =
    let k =
      subst
        (λ (a : Attempt (Unit {0})).
          Ready a h.update h.seq h.last_seen (some_notifies ps || h.task.woken)
            (h.task.registered || h.task.woken))
        e r in
    ground (arith, l, k.2)

-- From a hub whose task is in no poll, with any threads in `publish`, after any turns of them and of
-- the task: if the task is parked and has not seen the newest sequence number, then it was woken since
-- its last poll began or some thread is before its `notify`.
pub parked_woken :
    (ts : List HubTurn) (ps : List Publishing) (h : Hub)
    → h.task.attempt ≡ resting
    → h.update ≡ Updating.outside
    → (run_hub ts ps h).1.task.attempt ≡ parked tt
    → (run_hub ts ps h).1.last_seen < (run_hub ts ps h).1.seq
    → (some_notifies (run_hub ts ps h).0 || (run_hub ts ps h).1.task.woken) ≡ true
parked_woken ts ps h e o p l =
    let (ps', h') = run_hub ts ps h in
    parked_alert tt ps' h' p l (
      run_hub-IsReady ts ps h (
        subst
          (λ (a : Attempt (Unit {0})).
            Ready a h.update h.seq h.last_seen (some_notifies ps || h.task.woken)
              (h.task.registered || h.task.woken))
          (sym e) o))
