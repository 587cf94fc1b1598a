-- ===== src/Workqueue/Channel/Flow.antt =====
-- crates/px4-workqueue/src/channel.rs: one producer in `try_send` and one consumer in `try_recv`,
-- interleaved. Each load and store of a counter, each access to a slot and each wake is a turn, and
-- memory is sequentially consistent. The wakers are left out here; the logs are of the model.
mod Stored
mod Invariant
mod Kept
mod Order
mod Tests
use px4_rs.Prelude.{
  ℕ, ◌%◌, ◌==◌, leb, Bool, true, false, Option, none, some, List, [], ◌∷◌, ◌++◌, if◌then◌else◌,
  get_or, set, replicate,
}
use px4_rs.Workqueue.Channel.{Received, read_slot, wrapping_sub, wrapping_add}

-- Where the producer stands: outside, past the load of `head`, before the write of its slot, before
-- the store of `tail`, before the wake of the consumer.
pub data Sender (T : Type 0) : Type 0 where
  away : Sender T
  loaded writing written : T → ℕ → Sender T
  waking : Sender T

-- Where the consumer stands: outside, past the load of `tail`, before the read of its slot, before the
-- store of `head`, before the wake of the producer.
pub data Receiver (T : Type 0) : Type 0 where
  away : Receiver T
  loaded reading : ℕ → Receiver T
  read : ℕ → Received T → Receiver T
  waking : Receiver T

-- `accepted` are the values of the sends that stored `tail`, and `taken` the results of the receives
-- that stored `head`, oldest first.
pub record Flow (T : Type 0) : Type 0 where
  pub slots : List (Option T)
  pub head : ℕ
  pub tail : ℕ
  pub sender : Sender T
  pub receiver : Receiver T
  pub accepted : List T
  pub taken : List (Received T)

-- Whose turn it is; a producer that is outside begins to send the value.
pub data Turn (T : Type 0) : Type 0 where
  send_turn : T → Turn T
  recv_turn : Turn T

module _ (usize_mod capacity : ℕ) {T : Type 0} where
  unfoldable pub new_flow : Flow T
  new_flow = record {
    slots = replicate capacity none;
    head = 0;
    tail = 0;
    sender = Sender.away;
    receiver = Receiver.away;
    accepted = [];
    taken = [];
  }

  -- `try_send`
  unfoldable pub step_sender : T → Sender T → Flow T → Flow T
  step_sender v Sender.away s = record s { sender = Sender.loaded v s.head }
  step_sender v (Sender.loaded u h) s = record s {
    sender =
        if leb capacity (wrapping_sub usize_mod s.tail h)
        then Sender.away
        else Sender.writing u s.tail;
  }
  step_sender v (Sender.writing u t) s = record s {
    slots = set s.slots (t % capacity) (some u);
    sender = Sender.written u t;
  }
  step_sender v (Sender.written u t) s = record s {
    tail = wrapping_add usize_mod t 1;
    sender = Sender.waking;
    accepted = s.accepted ++ (u ∷ []);
  }
  step_sender v Sender.waking s = record s { sender = Sender.away }

  -- `try_recv`
  unfoldable pub step_receiver : Receiver T → Flow T → Flow T
  step_receiver Receiver.away s = record s { receiver = Receiver.loaded s.tail }
  step_receiver (Receiver.loaded t) s = record s {
    receiver = if s.head == t then Receiver.away else Receiver.reading s.head;
  }
  step_receiver (Receiver.reading h) s = record s {
    receiver = Receiver.read h (read_slot (get_or s.slots (h % capacity) none));
  }
  step_receiver (Receiver.read h r) s = record s {
    head = wrapping_add usize_mod h 1;
    receiver = Receiver.waking;
    taken = s.taken ++ (r ∷ []);
  }
  step_receiver Receiver.waking s = record s { receiver = Receiver.away }

  abbrev pub step_flow : Turn T → Flow T → Flow T
  step_flow (send_turn v) s = step_sender v s.sender s
  step_flow recv_turn s = step_receiver s.receiver s

  abbrev pub run_flow : List (Turn T) → Flow T → Flow T
  run_flow [] s = s
  run_flow (t ∷ ts) s = run_flow ts (step_flow t s)
