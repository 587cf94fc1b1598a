-- ===== src/Workqueue/Channel/Parking/Parked.antt =====
-- Every turn of two tasks that poll `Send` and `Recv` keeps them ready.
use mathlib.Core.Path.{subst}
use px4_rs.Prelude.{ℕ, ◌≡◌, refl, sym, ◌||◌, true, List, [], ◌∷◌}
use px4_rs.Workqueue.Channel.Flow.{
  Sender, Receiver, Turn, send_turn, recv_turn, new_flow, step_sender, step_receiver,
}
use px4_rs.Workqueue.Channel.Parking.{
  Attempt, resting, first, registering, second, parked, Parties, after_send_turn, after_recv_turn,
  wake_after_send, wake_after_recv, new_parties, send_attempt, recv_attempt, send_part, recv_part,
  step_parties, run_parties,
}
use px4_rs.Workqueue.Channel.Parking.Alert.{
  send_wakes, recv_wakes, RecvReady, SendReady, RecvInv, SendInv, send-Alerts, recv-Alerts,
  RecvReady-kept, SendReady-kept,
}
use px4_rs.Workqueue.Channel.Parking.Turns.{
  first_send_turn, second_send_turn, first_recv_turn, second_recv_turn, receiver_same, sender_same,
  send_wake_attempt, recv_wake_attempt,
}

module _ (usize_mod capacity : ℕ) {T : Type 0} where
  abbrev pub BothReady : Parties T → Type 0
  BothReady s = SendInv usize_mod capacity s × RecvInv usize_mod capacity s

  -- The other task under a turn of an attempt.
  recv_under_send :
      (u : T) (s : Parties T)
      → RecvInv usize_mod capacity s
      → RecvInv usize_mod capacity (send_attempt usize_mod capacity u s.flow.sender s)
  unfolding send_attempt
  recv_under_send u s h =
      let p = s.flow.sender in
      let f' = step_sender usize_mod capacity u p s.flow in
      let r' = wake_after_send p s.receiving in
      subst
        (λ (a : Attempt (Unit {0})).
          RecvReady usize_mod capacity a f'.receiver f'.head f'.tail
            (send_wakes f'.sender || r'.woken) (r'.registered || r'.woken))
        (sym (send_wake_attempt usize_mod capacity p s.receiving))
        (subst
          (λ (c : Receiver T).
            RecvReady usize_mod capacity s.receiving.attempt c f'.head f'.tail
              (send_wakes f'.sender || r'.woken) (r'.registered || r'.woken))
          (sym (receiver_same usize_mod capacity u p s.flow))
          (RecvReady-kept usize_mod capacity s.receiving.attempt s.flow.receiver
            (send-Alerts usize_mod capacity u p s.flow s.receiving) h))

  send_under_recv :
      (s : Parties T)
      → SendInv usize_mod capacity s
      → SendInv usize_mod capacity (recv_attempt usize_mod capacity s.flow.receiver s)
  unfolding recv_attempt
  send_under_recv s h =
      let c = s.flow.receiver in
      let f' = step_receiver usize_mod capacity c s.flow in
      let r' = wake_after_recv c s.sending in
      subst
        (λ (a : Attempt T).
          SendReady usize_mod capacity a f'.sender f'.head f'.tail
            (recv_wakes f'.receiver || r'.woken) (r'.registered || r'.woken))
        (sym (recv_wake_attempt usize_mod capacity c s.sending))
        (subst
          (λ (p : Sender T).
            SendReady usize_mod capacity s.sending.attempt p f'.head f'.tail
              (recv_wakes f'.receiver || r'.woken) (r'.registered || r'.woken))
          (sym (sender_same usize_mod capacity c s.flow))
          (SendReady-kept usize_mod capacity s.sending.attempt s.flow.sender
            (recv-Alerts usize_mod capacity c s.flow s.sending) h))

  send_part-BothReady :
      (v : T) (a : Attempt T) (s : Parties T)
      → s.sending.attempt ≡ a
      → BothReady s
      → BothReady (send_part usize_mod capacity v a s)
  unfolding send_part
  send_part-BothReady v resting s e (h, k) = (tt, k)
  send_part-BothReady v (parked u) s e (h, k) = (tt, k)
  send_part-BothReady v (registering u) s e (h, k) =
      let away =
        subst
          (λ (a : Attempt T).
            SendReady usize_mod capacity a s.flow.sender s.flow.head s.flow.tail
              (recv_wakes s.flow.receiver || s.sending.woken)
              (s.sending.registered || s.sending.woken))
          e h in
      (
        subst
            (λ (p : Sender T).
              SendReady usize_mod capacity (second u) p s.flow.head s.flow.tail
                (recv_wakes s.flow.receiver || s.sending.woken) true)
            (sym away) refl,
        k,
      )
  send_part-BothReady v (first u) s e (h, k) =
      let f' = step_sender usize_mod capacity u s.flow.sender s.flow in
      (
        subst
            (λ (a : Attempt T).
              SendReady usize_mod capacity (after_send_turn s.flow.sender f'.sender a) f'.sender
                f'.head f'.tail (recv_wakes f'.receiver || s.sending.woken)
                (s.sending.registered || s.sending.woken))
            (sym e)
            (first_send_turn usize_mod capacity u u s.flow.sender s.flow
              (recv_wakes f'.receiver || s.sending.woken)
              (s.sending.registered || s.sending.woken)),
        recv_under_send u s k,
      )
  send_part-BothReady v (second u) s e (h, k) =
      let f' = step_sender usize_mod capacity u s.flow.sender s.flow in
      let alert = recv_wakes s.flow.receiver || s.sending.woken in
      let known = s.sending.registered || s.sending.woken in
      let before =
        subst
          (λ (a : Attempt T).
            SendReady usize_mod capacity a s.flow.sender s.flow.head s.flow.tail alert known)
          e h in
      (
        subst
            (λ (a : Attempt T).
              SendReady usize_mod capacity (after_send_turn s.flow.sender f'.sender a) f'.sender
                f'.head f'.tail (recv_wakes f'.receiver || s.sending.woken) known)
            (sym e)
            (subst
              (λ (c : Receiver T).
                SendReady usize_mod capacity (after_send_turn s.flow.sender f'.sender (second u))
                  f'.sender f'.head f'.tail (recv_wakes c || s.sending.woken) known)
              (sym (receiver_same usize_mod capacity u s.flow.sender s.flow))
              (second_send_turn usize_mod capacity u u s.flow.sender s.flow alert known before)),
        recv_under_send u s k,
      )

  recv_part-BothReady :
      (a : Attempt (Unit {0})) (s : Parties T)
      → s.receiving.attempt ≡ a
      → BothReady s
      → BothReady (recv_part usize_mod capacity a s)
  unfolding recv_part
  recv_part-BothReady resting s e (h, k) = (h, tt)
  recv_part-BothReady (parked u) s e (h, k) = (h, tt)
  recv_part-BothReady (registering u) s e (h, k) =
      let away =
        subst
          (λ (a : Attempt (Unit {0})).
            RecvReady usize_mod capacity a s.flow.receiver s.flow.head s.flow.tail
              (send_wakes s.flow.sender || s.receiving.woken)
              (s.receiving.registered || s.receiving.woken))
          e k in
      (
        h,
        subst
            (λ (c : Receiver T).
              RecvReady usize_mod capacity (second u) c s.flow.head s.flow.tail
                (send_wakes s.flow.sender || s.receiving.woken) true)
            (sym away) refl,
      )
  recv_part-BothReady (first u) s e (h, k) =
      let f' = step_receiver usize_mod capacity s.flow.receiver s.flow in
      (
        send_under_recv s h,
        subst
            (λ (a : Attempt (Unit {0})).
              RecvReady usize_mod capacity (after_recv_turn s.flow.receiver f'.receiver a)
                f'.receiver f'.head f'.tail (send_wakes f'.sender || s.receiving.woken)
                (s.receiving.registered || s.receiving.woken))
            (sym e)
            (first_recv_turn usize_mod capacity u s.flow.receiver s.flow
              (send_wakes f'.sender || s.receiving.woken)
              (s.receiving.registered || s.receiving.woken)),
      )
  recv_part-BothReady (second u) s e (h, k) =
      let f' = step_receiver usize_mod capacity s.flow.receiver s.flow in
      let alert = send_wakes s.flow.sender || s.receiving.woken in
      let known = s.receiving.registered || s.receiving.woken in
      let before =
        subst
          (λ (a : Attempt (Unit {0})).
            RecvReady usize_mod capacity a s.flow.receiver s.flow.head s.flow.tail alert known)
          e k in
      (
        send_under_recv s h,
        subst
            (λ (a : Attempt (Unit {0})).
              RecvReady usize_mod capacity (after_recv_turn s.flow.receiver f'.receiver a)
                f'.receiver f'.head f'.tail (send_wakes f'.sender || s.receiving.woken) known)
            (sym e)
            (subst
              (λ (p : Sender T).
                RecvReady usize_mod capacity
                  (after_recv_turn s.flow.receiver f'.receiver (second u)) f'.receiver f'.head
                  f'.tail (send_wakes p || s.receiving.woken) known)
              (sym (sender_same usize_mod capacity s.flow.receiver s.flow))
              (second_recv_turn usize_mod capacity u s.flow.receiver s.flow alert known before)),
      )

  step-BothReady :
      (t : Turn T) (s : Parties T) → BothReady s → BothReady (step_parties usize_mod capacity t s)
  step-BothReady (send_turn v) s h = send_part-BothReady v s.sending.attempt s refl h
  step-BothReady recv_turn s h = recv_part-BothReady s.receiving.attempt s refl h

  run-BothReady :
      (ts : List (Turn T)) (s : Parties T)
      → BothReady s
      → BothReady (run_parties usize_mod capacity ts s)
  run-BothReady [] s h = h
  run-BothReady (t ∷ ts) s h =
      run-BothReady ts (step_parties usize_mod capacity t s) (step-BothReady t s h)

  -- The two tasks, after any turns.
  pub parties-BothReady :
      (ts : List (Turn T))
      → BothReady (run_parties usize_mod capacity ts (new_parties usize_mod capacity))
  unfolding new_parties new_flow
  parties-BothReady ts = run-BothReady ts (new_parties usize_mod capacity) (refl, refl)
