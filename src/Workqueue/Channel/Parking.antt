-- ===== src/Workqueue/Channel/Parking.antt =====
-- crates/px4-workqueue/src/channel.rs: a task that polls `Send` and one that polls `Recv`, interleaved.
-- The attempts are `try_send` and `try_recv` of Flow in their turns. A call of `register` or `wake` of
-- an AtomicWaker is one turn.
mod Alert
mod Turns
mod Parked
mod Progress
mod Tests
use px4_rs.Prelude.{ℕ, ◌||◌, Bool, true, false, List, [], ◌∷◌}
use px4_rs.Workqueue.Channel.Flow.{
  Sender, Receiver, Flow, Turn, send_turn, recv_turn, new_flow, step_sender, step_receiver,
}

-- Where a poll stands: none runs, in the first attempt, before `register`, in the second attempt, or
-- none runs since one returned `Pending`. `Send` keeps its value in `V`.
pub data Attempt (V : Type 0) : Type 0 where
  resting : Attempt V
  first registering second parked : V → Attempt V

-- A task: its poll, whether its waker is in the channel, and whether it was woken since its last poll
-- began.
pub record Waiter (V : Type 0) : Type 0 where
  pub attempt : Attempt V
  pub registered : Bool
  pub woken : Bool

pub record Parties (T : Type 0) : Type 0 where
  pub flow : Flow T
  pub sending : Waiter T
  pub receiving : Waiter (Unit {0})

abbrev pub wake_up : {V : Type 0} → Waiter V → Waiter V
wake_up w = record w { registered = false; woken = w.woken || w.registered }

abbrev pub begin_poll : {V : Type 0} → V → Waiter V → Waiter V
begin_poll v w = record w { attempt = first v; woken = false }

-- An attempt that finds the channel full, or empty.
abbrev pub fail_attempt : {V : Type 0} → Attempt V → Attempt V
fail_attempt resting = resting
fail_attempt (first v) = registering v
fail_attempt (registering v) = registering v
fail_attempt (second v) = parked v
fail_attempt (parked v) = parked v

abbrev pub with_attempt : {V : Type 0} → Attempt V → Waiter V → Waiter V
with_attempt a w = record w { attempt = a }

-- What a turn inside `try_send` makes of the poll: from where it stood to where it stands.
abbrev pub after_send_turn : {T : Type 0} → Sender T → Sender T → Attempt T → Attempt T
after_send_turn (Sender.loaded v h) Sender.away a = fail_attempt a
after_send_turn (Sender.loaded v h) p a = a
after_send_turn Sender.waking p a = resting
after_send_turn Sender.away p a = a
after_send_turn (Sender.writing v t) p a = a
after_send_turn (Sender.written v t) p a = a

abbrev pub after_recv_turn : {T V : Type 0} → Receiver T → Receiver T → Attempt V → Attempt V
after_recv_turn (Receiver.loaded t) Receiver.away a = fail_attempt a
after_recv_turn (Receiver.loaded t) c a = a
after_recv_turn Receiver.waking c a = resting
after_recv_turn Receiver.away c a = a
after_recv_turn (Receiver.reading h) c a = a
after_recv_turn (Receiver.read h r) c a = a

-- `recv_waker.wake()` and `send_waker.wake()` are the last turns of the calls.
abbrev pub wake_after_send : {T V : Type 0} → Sender T → Waiter V → Waiter V
wake_after_send Sender.waking w = wake_up w
wake_after_send Sender.away w = w
wake_after_send (Sender.loaded v h) w = w
wake_after_send (Sender.writing v t) w = w
wake_after_send (Sender.written v t) w = w

abbrev pub wake_after_recv : {T V : Type 0} → Receiver T → Waiter V → Waiter V
wake_after_recv Receiver.waking w = wake_up w
wake_after_recv Receiver.away w = w
wake_after_recv (Receiver.loaded t) w = w
wake_after_recv (Receiver.reading h) w = w
wake_after_recv (Receiver.read h r) w = w

abbrev pub no_poll : {V : Type 0} → Waiter V
no_poll = record { attempt = resting; registered = false; woken = false }

module _ (usize_mod capacity : ℕ) {T : Type 0} where
  unfoldable pub new_parties : Parties T
  new_parties = record {
    flow = new_flow usize_mod capacity;
    sending = no_poll;
    receiving = no_poll;
  }

  -- A turn inside an attempt.
  unfoldable pub send_attempt : T → Sender T → Parties T → Parties T
  unfolding step_sender
  send_attempt v p s =
      let f = step_sender usize_mod capacity v p s.flow in
      record {
        flow = f;
        sending = with_attempt (after_send_turn p f.sender s.sending.attempt) s.sending;
        receiving = wake_after_send p s.receiving;
      }

  unfoldable pub recv_attempt : Receiver T → Parties T → Parties T
  unfolding step_receiver
  recv_attempt c s =
      let f = step_receiver usize_mod capacity c s.flow in
      record {
        flow = f;
        sending = wake_after_recv c s.sending;
        receiving = with_attempt (after_recv_turn c f.receiver s.receiving.attempt) s.receiving;
      }

  -- `Send::poll`; a task whose poll is over begins to send the value, and one that is parked is polled
  -- again.
  unfoldable pub send_part : T → Attempt T → Parties T → Parties T
  unfolding send_attempt
  send_part v resting s = record s { sending = begin_poll v s.sending }
  send_part v (first u) s = send_attempt u s.flow.sender s
  send_part v (registering u) s = record s {
    sending = record s.sending { attempt = second u; registered = true };
  }
  send_part v (second u) s = send_attempt u s.flow.sender s
  send_part v (parked u) s = record s { sending = begin_poll u s.sending }

  -- `Recv::poll`
  unfoldable pub recv_part : Attempt (Unit {0}) → Parties T → Parties T
  unfolding recv_attempt
  recv_part resting s = record s { receiving = begin_poll tt s.receiving }
  recv_part (first u) s = recv_attempt s.flow.receiver s
  recv_part (registering u) s = record s {
    receiving = record s.receiving { attempt = second u; registered = true };
  }
  recv_part (second u) s = recv_attempt s.flow.receiver s
  recv_part (parked u) s = record s { receiving = begin_poll u s.receiving }

  abbrev pub step_parties : Turn T → Parties T → Parties T
  step_parties (send_turn v) s = send_part v s.sending.attempt s
  step_parties recv_turn s = recv_part s.receiving.attempt s

  abbrev pub run_parties : List (Turn T) → Parties T → Parties T
  run_parties [] s = s
  run_parties (t ∷ ts) s = run_parties ts (step_parties t s)
