-- ===== src/Workqueue/Channel/Flow/Order.antt =====
-- What a producer and a consumer that are interleaved see of the channel, and what a third thread does.
use mathlib.Core.Path.{subst}
use native.Mathlib.Nat.{mod_self}
use px4_rs.Prelude.{
  ℕ, suc, ◌+◌, ◌-◌, ◌%◌, ◌≤◌, ◌<◌, ◌≡◌, ◌≢◌, refl, sym, ap, ◌∙◌, arith, Bool, true, false, ◌==◌,
  if◌then◌else◌, none, some, List, [], ◌∷◌, ◌++◌, length, leb, get_or, set,
}
use px4_rs.Workqueue.Channel.{
  read_slot, wrapping_sub, wrapping_add, unread, measured, step_len, measured_len, is_empty_len,
  is_full_len,
}
use px4_rs.Workqueue.Channel.Counters.{slot_lem, slot_ne, next_ne, next_sub}
use px4_rs.Workqueue.Channel.Flow.{
  Sender, Receiver, Flow, Turn, send_turn, recv_turn, new_flow, step_sender, step_receiver,
  step_flow, run_flow,
}
use px4_rs.Workqueue.Channel.Flow.Invariant.{values, AtSender, AtReceiver}
use px4_rs.Workqueue.Channel.Flow.Kept.{flow-Inv}

module _ (usize_mod capacity : ℕ) {T : Type 0} (divides : usize_mod % capacity ≡ 0)
    (small : capacity < usize_mod) where
  -- If the capacity divides the range of `usize` and is below it, then after any turns of a producer and
  -- a consumer on a new channel, in any order, what was received and at most `capacity` values more are
  -- what was sent, in order: no value is lost, doubled or overtaken, and no uninitialised slot is read.
  pub flow_fifo :
      (ts : List (Turn T))
      → (let s = run_flow usize_mod capacity ts (new_flow usize_mod capacity) in
          (q : List T) × (length q ≤ capacity) × (s.taken ++ values q ≡ values s.accepted))
  flow_fifo ts =
      let (h, q, r, a, c) = flow-Inv usize_mod capacity divides small ts in (q, r.room, r.logged)

  slots_differ :
      (h : ℕ) (q : List T)
      → 0 < length q
      → length q < capacity
      → (h + length q) % usize_mod % capacity ≢ h % usize_mod % capacity
  slots_differ h [] l room e = absurd (omega arith)
  slots_differ h (v ∷ q) some_left room e = slot_ne capacity h (length q) room (
      sym (slot_lem usize_mod capacity (h + suc (length q)) divides)
      ∙ (e ∙ slot_lem usize_mod capacity h divides))

  -- If the capacity divides the range of `usize` and is below it, then after any turns of a producer and
  -- a consumer on a new channel, whenever the producer stands before the write of a slot and the
  -- consumer before the read of one, the two slots are different.
  pub slots_apart :
      (ts : List (Turn T)) (v : T) (t x : ℕ)
      → (let s = run_flow usize_mod capacity ts (new_flow usize_mod capacity) in
          s.sender ≡ Sender.writing v t
          → s.receiver ≡ Receiver.reading x
          → t % capacity ≢ x % capacity)
  slots_apart ts v t x es er =
      let s = run_flow usize_mod capacity ts (new_flow usize_mod capacity) in
      let (h, q, r, a, c) = flow-Inv usize_mod capacity divides small ts in
      let a' = subst (AtSender usize_mod capacity s.slots h q) es a in
      let c' = subst (AtReceiver usize_mod capacity h q) er c in
      λ e.
        slots_differ h q c'.1 a'.1
          (ap (λ k. k % capacity) (sym a'.0) ∙ (e ∙ ap (λ k. k % capacity) c'.0))

-- A whole call of each.
abbrev pub sends : {T : Type 0} → T → List (Turn T)
sends v = send_turn v ∷ send_turn v ∷ send_turn v ∷ send_turn v ∷ send_turn v ∷ []

abbrev pub receives : {T : Type 0} → List (Turn T)
receives = recv_turn ∷ recv_turn ∷ recv_turn ∷ recv_turn ∷ recv_turn ∷ []

-- A send on a channel with room, and a receive from one that is not empty, with nobody beside them.
module _ (usize_mod capacity : ℕ) {T : Type 0} where
  abbrev quiet : Flow T → Flow T
  quiet s = record s { sender = Sender.away; receiver = Receiver.away }

  send_alone :
      (v : T) (s : Flow T)
      → leb capacity (wrapping_sub usize_mod s.tail s.head) ≡ false
      → run_flow usize_mod capacity (sends v) (quiet s) ≡ record (quiet s) {
        slots = set s.slots (s.tail % capacity) (some v);
        tail = wrapping_add usize_mod s.tail 1;
        accepted = s.accepted ++ (v ∷ []);
      }
  unfolding step_sender
  send_alone v s e =
      ap
        (λ (b : Bool).
          run_flow usize_mod capacity (send_turn v ∷ send_turn v ∷ send_turn v ∷ [])
            (record (quiet s) { sender = if b then Sender.away else Sender.writing v s.tail }))
        e

  receive_alone :
      (s : Flow T)
      → (s.head == s.tail) ≡ false
      → run_flow usize_mod capacity receives (quiet s) ≡ record (quiet s) {
        head = wrapping_add usize_mod s.head 1;
        taken = s.taken ++ (read_slot (get_or s.slots (s.head % capacity) none) ∷ []);
      }
  unfolding step_receiver
  receive_alone s e =
      ap
        (λ (b : Bool).
          run_flow usize_mod capacity (recv_turn ∷ recv_turn ∷ recv_turn ∷ [])
            (record (quiet s) { receiver = if b then Receiver.away else Receiver.reading s.head }))
        e

  run-append :
      (ts us : List (Turn T)) (s : Flow T)
      → run_flow usize_mod capacity (ts ++ us) s
        ≡ run_flow usize_mod capacity us (run_flow usize_mod capacity ts s)
  run-append [] us s = refl
  run-append (t ∷ ts) us s = run-append ts us (step_flow usize_mod capacity t s)

  -- On an empty channel whose capacity is above 0 and below the range of `usize`, with counters in that
  -- range, at a time when no call is running, if a third thread makes the first load of `len` before a
  -- value is sent and received and the second after it, then the channel is empty again, but `len`
  -- gives the largest `usize`, so that `is_full` is true, and `is_empty` is false.
  pub len_snapshot :
      (v : T) (s : Flow T)
      → 0 < capacity
      → capacity < usize_mod
      → s.sender ≡ Sender.away
      → s.receiver ≡ Receiver.away
      → s.head ≡ s.tail
      → s.tail < usize_mod
      → (let m = step_len usize_mod unread s.tail s.head in
          let s' = run_flow usize_mod capacity (sends v ++ receives) s in
          let m' = step_len usize_mod m s'.tail s'.head in
          (s'.head ≡ s'.tail)
          × (m' ≡ measured (usize_mod - 1))
          × (is_full_len capacity (measured_len m') ≡ true)
          × (is_empty_len (measured_len m') ≡ false))
  unfolding step_len
  len_snapshot v s some_room small p c e l =
      let head_next = ap (λ (r : Flow T). r.head) after in
      let tail_next = ap (λ (r : Flow T). r.tail) after in
      let d =
        ap (wrapping_sub usize_mod s.tail) (head_next ∙ ap (λ k. wrapping_add usize_mod k 1) e)
        ∙ next_sub usize_mod s.tail (omega arith) l in
      (
        head_next ∙ (ap (λ k. wrapping_add usize_mod k 1) e ∙ sym tail_next),
        ap measured d,
        ground (arith, d),
        ground (arith, d),
      )
    where
      s1 : Flow T
      s1 = record (quiet s) {
        slots = set s.slots (s.tail % capacity) (some v);
        tail = wrapping_add usize_mod s.tail 1;
        accepted = s.accepted ++ (v ∷ []);
      }

      none_left : wrapping_sub usize_mod s.tail s.head ≡ 0
      none_left = ap (λ k. k % usize_mod) (omega arith) ∙ mod_self usize_mod

      after : run_flow usize_mod capacity (sends v ++ receives) s ≡ record (quiet s1) {
        head = wrapping_add usize_mod s1.head 1;
        taken = s1.taken ++ (read_slot (get_or s1.slots (s1.head % capacity) none) ∷ []);
      }
      after =
          run-append (sends v) receives s
          ∙ (ap (run_flow usize_mod capacity receives) (
                ap (run_flow usize_mod capacity (sends v))
                  (λ i. record s { sender = p i; receiver = c i })
                ∙ send_alone v s (ground (arith, none_left)))
              ∙ receive_alone s1 (ground (arith, next_ne usize_mod s.tail)))
