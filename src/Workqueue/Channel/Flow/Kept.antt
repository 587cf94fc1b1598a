-- ===== src/Workqueue/Channel/Flow/Kept.antt =====
-- Every turn of a producer and a consumer keeps the invariant.
use native.Mathlib.Nat.{zero-mod}
use mathlib.Core.Path.{subst}
use px4_rs.Prelude.{
  suc, ℕ, zero, ◌+◌, ◌%◌, ◌≤◌, ◌<◌, ◌≡◌, refl, sym, ap, ◌∙◌, arith, false, none, List, [], ◌∷◌,
  ◌++◌, append_assoc, length, get_or, length-set, length-append, length-replicate, leb, ◌==◌,
  ==_iff, if◌then◌else◌, if-holds,
}
use px4_rs.Workqueue.Channel.{Received, value, read_slot, wrapping_sub, wrapping_add}
use px4_rs.Workqueue.Channel.Counters.{wrapping_sub_lem, wrapping_add_lem, slot_lem}
use px4_rs.Workqueue.Channel.Fifo.{Stored-set}
use px4_rs.Workqueue.Channel.Flow.{
  Sender, Receiver, Flow, Turn, send_turn, recv_turn, new_flow, step_sender, step_receiver,
  step_flow, run_flow,
}
use px4_rs.Workqueue.Channel.Flow.Stored.{Stored-init}
use px4_rs.Workqueue.Channel.Flow.Invariant.{
  values, values-append, OnRing, AtSender, AtReceiver, Inv, AtReceiver-append, AtSender-tail,
}

module _ (usize_mod capacity : ℕ) {T : Type 0} (divides : usize_mod % capacity ≡ 0)
    (small : capacity < usize_mod) where
  sender_step :
      (v : T) (p : Sender T) (s : Flow T) (h : ℕ) (q : List T)
      → OnRing usize_mod capacity s h q
      → AtSender usize_mod capacity s.slots h q p
      → AtReceiver usize_mod capacity h q s.receiver
      → Inv usize_mod capacity (step_sender usize_mod capacity v p s)
  unfolding step_sender
  sender_step v Sender.away s h q r a c =
      (h, q, r, (h, 0, omega arith, r.head_mod, omega (arith, r.room)), c)
  sender_step v (Sender.loaded u x) s h q r (h0, d, e, e', l) c = (h, q, r, checked, c)
    where
      count : wrapping_sub usize_mod s.tail x ≡ d + length q
      count =
          rw (r.tail_mod, e')
            (ap (λ k. wrapping_sub usize_mod (k % usize_mod) (h0 % usize_mod)) (omega arith)
              ∙ wrapping_sub_lem usize_mod h0 (d + length q) (omega arith))

      checked : AtSender usize_mod capacity s.slots h q (
          if leb capacity (wrapping_sub usize_mod s.tail x)
          then Sender.away
          else Sender.writing u s.tail)
      checked =
          if-holds (AtSender usize_mod capacity s.slots h q)
            (leb capacity (wrapping_sub usize_mod s.tail x)) (λ e. tt)
            (λ e. (r.tail_mod, ground (arith, count, e)))
  sender_step v (Sender.writing u t) s h q r (e, l) c =
      let put =
        Stored-set capacity s.slots h (t % capacity) q u r.sized l
          (ap (λ k. k % capacity) e ∙ slot_lem usize_mod capacity (h + length q) divides)
          r.stored in
      (
        h,
        q,
        record {
          head_mod = r.head_mod;
          tail_mod = r.tail_mod;
          room = r.room;
          sized = length-set s.slots _ _ ∙ r.sized;
          stored = Stored-init capacity _ h q u put;
          logged = r.logged;
        },
        (e, l, put),
        c,
      )
  sender_step v (Sender.written u t) s h q r (e, l, put) c = (
    h,
    q ++ (u ∷ []),
    record {
      head_mod = r.head_mod;
      tail_mod =
          ap (λ k. wrapping_add usize_mod k 1) e
          ∙ (wrapping_add_lem usize_mod (h + length q) 1
              ∙ ap (λ k. k % usize_mod) (omega (arith, length-append q (u ∷ []))));
      room = omega (arith, length-append q (u ∷ []));
      sized = r.sized;
      stored = put;
      logged =
          ap (λ x. s.taken ++ x) (values-append q (u ∷ []))
          ∙ (sym (append_assoc s.taken (values q) (value u ∷ []))
              ∙ (ap (λ x. x ++ (value u ∷ [])) r.logged ∙ sym (values-append s.accepted (u ∷ []))));
    },
    tt,
    AtReceiver-append usize_mod capacity h q u s.receiver c,
  )
  sender_step v Sender.waking s h q r a c = (h, q, r, tt, c)

  -- Two counters that differ are those of a queue that is not empty.
  some_left :
      (h : ℕ) (q : List T) (x k : ℕ)
      → x ≡ (h + k) % usize_mod
      → k ≤ length q
      → (head : ℕ) → head ≡ h % usize_mod
      → (head == x) ≡ false
      → 0 < length q
  some_left h q x zero e l head e' y =
      let z : head ≡ x = e' ∙ (ap (λ j. j % usize_mod) (omega arith) ∙ sym e) in
      absurd (cc ((==_iff head x).1 z, y))
  some_left h q x (suc k) e l head e' y = omega arith

  read_step :
      (x : ℕ) (res : Received T) (s : Flow T) (h : ℕ) (v : T) (vs : List T)
      → x ≡ h % usize_mod
      → res ≡ value v
      → OnRing usize_mod capacity s h (v ∷ vs)
      → AtSender usize_mod capacity s.slots h (v ∷ vs) s.sender
      → Inv usize_mod capacity (step_receiver usize_mod capacity (Receiver.read x res) s)
  unfolding step_receiver
  read_step x res s h v vs e e' r a = (
    h + 1,
    vs,
    record {
      head_mod = ap (λ k. wrapping_add usize_mod k 1) e ∙ wrapping_add_lem usize_mod h 1;
      tail_mod = r.tail_mod ∙ ap (λ k. k % usize_mod) (omega arith);
      room = omega (arith, r.room);
      sized = r.sized;
      stored = r.stored.1;
      logged =
          append_assoc s.taken (res ∷ []) (values vs)
          ∙ (ap (λ o. s.taken ++ (o ∷ values vs)) e' ∙ r.logged);
    },
    AtSender-tail usize_mod capacity s.slots h v vs s.sender a,
    tt,
  )

  receiver_step :
      (p : Receiver T) (s : Flow T) (h : ℕ) (q : List T)
      → OnRing usize_mod capacity s h q
      → AtSender usize_mod capacity s.slots h q s.sender
      → AtReceiver usize_mod capacity h q p
      → Inv usize_mod capacity (step_receiver usize_mod capacity p s)
  unfolding step_receiver
  receiver_step Receiver.away s h q r a c = (h, q, r, a, (length q, r.tail_mod, omega arith))
  receiver_step (Receiver.loaded x) s h q r a (k, e, l) = (
    h,
    q,
    r,
    a,
    if-holds (AtReceiver usize_mod capacity h q) (s.head == x) (λ y. tt)
        (λ y. (r.head_mod, some_left h q x k e l s.head r.head_mod y)),
  )
  receiver_step (Receiver.reading x) s h (v ∷ q) r a (e, l) = (
    h,
    v ∷ q,
    r,
    a,
    (
      e,
      v,
      q,
      refl,
      ap read_slot (
          ap (λ j. get_or s.slots j none)
            (ap (λ j. j % capacity) e ∙ slot_lem usize_mod capacity h divides)
          ∙ r.stored.0),
    ),
  )
  receiver_step (Receiver.reading x) s h [] r a (e, l) = absurd (omega arith)
  receiver_step (Receiver.read x res) s h q r a (e, v, vs, e', e'') =
      subst
        (λ (l : List T).
          OnRing usize_mod capacity s h l
          → AtSender usize_mod capacity s.slots h l s.sender
          → Inv usize_mod capacity (step_receiver usize_mod capacity (Receiver.read x res) s))
        (sym e') (read_step x res s h v vs e e'') r a
  receiver_step Receiver.waking s h q r a c = (h, q, r, a, tt)

  flow_step :
      (t : Turn T) (s : Flow T)
      → Inv usize_mod capacity s
      → Inv usize_mod capacity (step_flow usize_mod capacity t s)
  flow_step (send_turn v) s (h, q, r, a, c) = sender_step v s.sender s h q r a c
  flow_step recv_turn s (h, q, r, a, c) = receiver_step s.receiver s h q r a c

  run-Inv :
      (ts : List (Turn T)) (s : Flow T)
      → Inv usize_mod capacity s
      → Inv usize_mod capacity (run_flow usize_mod capacity ts s)
  run-Inv [] s v = v
  run-Inv (t ∷ ts) s v = run-Inv ts (step_flow usize_mod capacity t s) (flow_step t s v)

  new-Inv : Inv usize_mod capacity {T = T} (new_flow usize_mod capacity)
  unfolding new_flow
  new-Inv = (
    0,
    [],
    record {
      head_mod = sym (zero-mod usize_mod);
      tail_mod = sym (zero-mod usize_mod);
      room = omega arith;
      sized = length-replicate capacity none;
      stored = tt;
      logged = refl;
    },
    tt,
    tt,
  )

  pub flow-Inv :
      (ts : List (Turn T))
      → Inv usize_mod capacity (run_flow usize_mod capacity ts (new_flow usize_mod capacity))
  flow-Inv ts = run-Inv ts (new_flow usize_mod capacity) new-Inv
