-- ===== src/Workqueue/Channel.antt =====
-- crates/px4-workqueue/src/channel.rs: the bounded single-producer single-consumer channel.
--
-- `usize_mod` is 2 to the width of `usize`, and `capacity` the const parameter `N`. A slot of the
-- buffer is `none` while it is uninitialised; a value that was read out stays in its slot, as in
-- memory. `W` is the type of wakers. Each call is one step, and the stores of the wakers are free when a
-- call begins; the calls in smaller steps are in Flow.
pub mod Counters
pub mod Fifo
pub mod Runs
pub mod Futures
pub mod Wrap
mod Flow
pub mod Parking
mod Tests
use px4_rs.Prelude.{
  ℕ, zero, suc, ◌+◌, ◌-◌, ◌%◌, ◌==◌, leb, Bool, true, false, Option, none, some, List, [], ◌∷◌,
  if◌then◌else◌, get_or, set, replicate,
}
use px4_rs.Workqueue.AtomicWaker.{AtomicWaker, new_waker, register, wake}

pub record Channel (T W : Type 0) : Type 0 where
  pub buf : List (Option T)
  pub head : ℕ
  pub tail : ℕ
  pub recv_waker : AtomicWaker W
  pub send_waker : AtomicWaker W

-- `Result<(), T>` of `try_send`.
pub data Sent (T : Type 0) : Type 0 where
  ok : Sent T
  full : T → Sent T

-- `Option<T>` of `try_recv`; `undefined` is the read of an uninitialised slot.
pub data Received (T : Type 0) : Type 0 where
  empty : Received T
  value : T → Received T
  undefined : Received T

abbrev pub read_slot : {T : Type 0} → Option T → Received T
read_slot none = undefined
read_slot (some v) = value v

-- What a call leaves: the channel, its result, and the waker that it invoked.
pub record Outcome (T W R : Type 0) : Type 0 where
  pub chan : Channel T W
  pub result : R
  pub woke : Option W

-- `Poll`; `panicked` is a `Send` polled after `Ready`.
pub data Poll (R : Type 0) : Type 0 where
  ready : R → Poll R
  pending : Poll R
  panicked : Poll R

-- What `Send::poll` leaves: the channel, the value that the future keeps, the answer, and the wakers
-- invoked by the registration or the first attempt, and by the second attempt.
abbrev pub SendPolled : Type 0 → Type 0 → Type 0
SendPolled T W = Channel T W × Option T × Poll (Unit {0}) × Option W × Option W

-- What `Recv::poll` leaves, likewise.
abbrev pub RecvPolled : Type 0 → Type 0 → Type 0
RecvPolled T W = Channel T W × Poll (Received T) × Option W × Option W

module _ (usize_mod : ℕ) where
  abbrev pub wrapping_sub : ℕ → ℕ → ℕ
  wrapping_sub a b = (a + usize_mod - b) % usize_mod

  abbrev pub wrapping_add : ℕ → ℕ → ℕ
  wrapping_add a b = (a + b) % usize_mod

-- Where a call of `len` stands: before its load of `tail`, before that of `head`, or past both.
pub data Measure : Type 0 where
  unread : Measure
  tail_loaded : ℕ → Measure
  measured : ℕ → Measure

-- A load of `len`, on what the counters hold at that time.
unfoldable pub step_len : ℕ → Measure → ℕ → ℕ → Measure
step_len usize_mod unread tail head = tail_loaded tail
step_len usize_mod (tail_loaded t) tail head = measured (wrapping_sub usize_mod t head)
step_len usize_mod (measured n) tail head = measured n

abbrev pub measured_len : Measure → ℕ
measured_len unread = 0
measured_len (tail_loaded t) = 0
measured_len (measured n) = n

-- `is_empty` and `is_full`, on the answer of `len`.
abbrev pub is_empty_len : ℕ → Bool
is_empty_len n = n == 0

abbrev pub is_full_len : ℕ → ℕ → Bool
is_full_len capacity n = leb capacity n

module _ (usize_mod capacity : ℕ) {T W : Type 0} where
  -- `Channel::new`
  pub new_channel : Channel T W
  new_channel = record {
    buf = replicate capacity none;
    head = 0;
    tail = 0;
    recv_waker = new_waker;
    send_waker = new_waker;
  }

  -- `len` while nothing changes.
  pub len : Channel T W → ℕ
  unfolding step_len
  len c =
      let m = step_len usize_mod unread c.tail c.head in
      measured_len (step_len usize_mod m c.tail c.head)

  pub is_empty : Channel T W → Bool
  unfolding len
  is_empty c = is_empty_len (len c)

  pub is_full : Channel T W → Bool
  unfolding len
  is_full c = is_full_len capacity (len c)

  -- `try_send` with a free slot.
  pub push : T → Channel T W → Outcome T W (Sent T)
  push v c =
      let (recv_waker', woke) = wake c.recv_waker in
      record {
        chan = record c {
          buf = set c.buf (c.tail % capacity) (some v);
          tail = wrapping_add usize_mod c.tail 1;
          recv_waker = recv_waker';
        };
        result = ok;
        woke = woke;
      }

  pub try_send : T → Channel T W → Outcome T W (Sent T)
  unfolding push
  try_send v c =
      if leb capacity (wrapping_sub usize_mod c.tail c.head)
      then record { chan = c; result = full v; woke = none }
      else push v c

  -- `try_recv` with a value present.
  pub pop : Channel T W → Outcome T W (Received T)
  pop c =
      let (send_waker', woke) = wake c.send_waker in
      record {
        chan = record c { head = wrapping_add usize_mod c.head 1; send_waker = send_waker' };
        result = read_slot (get_or c.buf (c.head % capacity) none);
        woke = woke;
      }

  pub try_recv : Channel T W → Outcome T W (Received T)
  unfolding pop
  try_recv c = if c.head == c.tail then record { chan = c; result = empty; woke = none } else pop c

  -- The loop of `Drop`: it receives until nothing is left. `drained` says that it ended by that.
  pub drain : ℕ → Channel T W → Channel T W × Bool
  drain zero c = (c, false)
  drain (suc fuel) c =
      let o = try_recv c in
      let rest = drain fuel o.chan in elim o.result [ empty ↦ (o.chan, true) | _ ↦ rest ]

  -- What follows the second attempt, and the first.
  pub second_send : Option W → Outcome T W (Sent T) → Sent T → SendPolled T W
  second_send woke o ok = (o.chan, none, ready tt, woke, o.woke)
  second_send woke o (full v) = (o.chan, some v, pending, woke, none)

  pub first_send : W → Outcome T W (Sent T) → Sent T → SendPolled T W
  unfolding second_send
  first_send w o ok = (o.chan, none, ready tt, o.woke, none)
  first_send w o (full v) =
      let m = register w o.chan.send_waker in
      let o' = try_send v (record o.chan { send_waker = m.0 }) in second_send m.1 o' o'.result

  pub send_poll : W → Option T → Channel T W → SendPolled T W
  unfolding first_send
  send_poll w none c = (c, none, panicked, none, none)
  send_poll w (some v) c = let o = try_send v c in first_send w o o.result

  -- `Recv::poll`, likewise.
  pub second_recv : Option W → Outcome T W (Received T) → Received T → RecvPolled T W
  second_recv woke o empty = (o.chan, pending, woke, none)
  second_recv woke o r = (o.chan, ready r, woke, o.woke)

  pub first_recv : W → Outcome T W (Received T) → Received T → RecvPolled T W
  unfolding second_recv
  first_recv w o empty =
      let m = register w o.chan.recv_waker in
      let o' = try_recv (record o.chan { recv_waker = m.0 }) in second_recv m.1 o' o'.result
  first_recv w o r = (o.chan, ready r, o.woke, none)

  pub recv_poll : W → Channel T W → RecvPolled T W
  unfolding first_recv
  recv_poll w c = let o = try_recv c in first_recv w o o.result
