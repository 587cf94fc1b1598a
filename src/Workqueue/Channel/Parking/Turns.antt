-- ===== src/Workqueue/Channel/Parking/Turns.antt =====
-- One turn of an attempt, for the task that makes it.
use px4_rs.Prelude.{ℕ, ◌≡◌, inl, inr, refl, sym, ap, ◌∙◌, ◌==◌, ==_iff, Bool, leb, if-holds}
use px4_rs.Workqueue.Channel.{wrapping_sub}
use px4_rs.Workqueue.Channel.Flow.{Sender, Receiver, Flow, step_sender, step_receiver}
use px4_rs.Workqueue.Channel.Parking.{
  first, second, Waiter, after_send_turn, after_recv_turn, wake_after_send, wake_after_recv,
}
use px4_rs.Workqueue.Channel.Parking.Alert.{RecvReady, SendReady}

module _ (usize_mod capacity : ℕ) {T : Type 0} where
  pub first_send_turn :
      (u x : T) (p : Sender T) (f : Flow T) (alert known : Bool)
      → (let f' = step_sender usize_mod capacity u p f in
          SendReady usize_mod capacity
            (after_send_turn p f'.sender (first x))
            f'.sender
            f'.head
            f'.tail
            alert
            known)
  unfolding step_sender
  first_send_turn u x Sender.away f alert known = tt
  first_send_turn u x (Sender.loaded v h) f alert known =
      if-holds
        (λ (q : Sender T).
          SendReady usize_mod capacity (after_send_turn (Sender.loaded v h) q (first x)) q f.head
            f.tail alert known)
        (leb capacity (wrapping_sub usize_mod f.tail h)) (λ e. refl) (λ e. tt)
  first_send_turn u x (Sender.writing v t) f alert known = tt
  first_send_turn u x (Sender.written v t) f alert known = tt
  first_send_turn u x Sender.waking f alert known = refl

  pub second_send_turn :
      (u x : T) (p : Sender T) (f : Flow T) (alert known : Bool)
      → SendReady usize_mod capacity (second x) p f.head f.tail alert known
      → (let f' = step_sender usize_mod capacity u p f in
          SendReady usize_mod capacity
            (after_send_turn p f'.sender (second x))
            f'.sender
            f'.head
            f'.tail
            alert
            known)
  unfolding step_sender
  second_send_turn u x Sender.away f alert known k = (k, inl refl)
  second_send_turn u x (Sender.loaded v h) f alert known (k, w) =
      if-holds
        (λ (q : Sender T).
          SendReady usize_mod capacity (after_send_turn (Sender.loaded v h) q (second x)) q f.head
            f.tail alert known)
        (leb capacity (wrapping_sub usize_mod f.tail h))
        (λ e. (
          refl,
          k,
          elim w [
            | inl q ↦ inl (ap (λ j. leb capacity (wrapping_sub usize_mod f.tail j)) (sym q) ∙ e)
            | inr a ↦ inr a
          ],
        ))
        (λ e. k)
  second_send_turn u x (Sender.writing v t) f alert known k = k
  second_send_turn u x (Sender.written v t) f alert known k = k
  second_send_turn u x Sender.waking f alert known k = refl

  pub first_recv_turn :
      (x : Unit {0}) (c : Receiver T) (f : Flow T) (alert known : Bool)
      → (let f' = step_receiver usize_mod capacity c f in
          RecvReady usize_mod capacity
            (after_recv_turn c f'.receiver (first x))
            f'.receiver
            f'.head
            f'.tail
            alert
            known)
  unfolding step_receiver
  first_recv_turn x Receiver.away f alert known = tt
  first_recv_turn x (Receiver.loaded t) f alert known =
      if-holds
        (λ (q : Receiver T).
          RecvReady usize_mod capacity (after_recv_turn (Receiver.loaded t) q (first x)) q f.head
            f.tail alert known)
        (f.head == t) (λ e. refl) (λ e. tt)
  first_recv_turn x (Receiver.reading h) f alert known = tt
  first_recv_turn x (Receiver.read h r) f alert known = tt
  first_recv_turn x Receiver.waking f alert known = refl

  pub second_recv_turn :
      (x : Unit {0}) (c : Receiver T) (f : Flow T) (alert known : Bool)
      → RecvReady usize_mod capacity (second x) c f.head f.tail alert known
      → (let f' = step_receiver usize_mod capacity c f in
          RecvReady usize_mod capacity
            (after_recv_turn c f'.receiver (second x))
            f'.receiver
            f'.head
            f'.tail
            alert
            known)
  unfolding step_receiver
  second_recv_turn x Receiver.away f alert known k = (k, inl refl)
  second_recv_turn x (Receiver.loaded t) f alert known (k, w) =
      if-holds
        (λ (q : Receiver T).
          RecvReady usize_mod capacity (after_recv_turn (Receiver.loaded t) q (second x)) q f.head
            f.tail alert known)
        (f.head == t)
        (λ e. (refl, k, elim w [ inl q ↦ inl ((==_iff f.head t).0 e ∙ q) | inr a ↦ inr a ]))
        (λ e. k)
  second_recv_turn x (Receiver.reading h) f alert known k = k
  second_recv_turn x (Receiver.read h r) f alert known k = k
  second_recv_turn x Receiver.waking f alert known k = refl

  pub receiver_same :
      (u : T) (p : Sender T) (f : Flow T)
      → (step_sender usize_mod capacity u p f).receiver ≡ f.receiver
  unfolding step_sender
  receiver_same u Sender.away f = refl
  receiver_same u (Sender.loaded v h) f = refl
  receiver_same u (Sender.writing v t) f = refl
  receiver_same u (Sender.written v t) f = refl
  receiver_same u Sender.waking f = refl

  pub sender_same :
      (c : Receiver T) (f : Flow T) → (step_receiver usize_mod capacity c f).sender ≡ f.sender
  unfolding step_receiver
  sender_same Receiver.away f = refl
  sender_same (Receiver.loaded t) f = refl
  sender_same (Receiver.reading h) f = refl
  sender_same (Receiver.read h r) f = refl
  sender_same Receiver.waking f = refl

  pub send_wake_attempt :
      (p : Sender T) (r : Waiter (Unit {0})) → (wake_after_send p r).attempt ≡ r.attempt
  send_wake_attempt Sender.away r = refl
  send_wake_attempt (Sender.loaded v h) r = refl
  send_wake_attempt (Sender.writing v t) r = refl
  send_wake_attempt (Sender.written v t) r = refl
  send_wake_attempt Sender.waking r = refl

  pub recv_wake_attempt :
      (c : Receiver T) (r : Waiter T) → (wake_after_recv c r).attempt ≡ r.attempt
  recv_wake_attempt Receiver.away r = refl
  recv_wake_attempt (Receiver.loaded t) r = refl
  recv_wake_attempt (Receiver.reading h) r = refl
  recv_wake_attempt (Receiver.read h x) r = refl
  recv_wake_attempt Receiver.waking r = refl
