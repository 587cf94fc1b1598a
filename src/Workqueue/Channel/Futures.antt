-- ===== src/Workqueue/Channel/Futures.antt =====
-- The polls of `Send` and `Recv`: they complete when they can, and a task that parks is the one that
-- the other side wakes.
use px4_rs.Prelude.{
  ℕ, ◌+◌, ◌%◌, ◌<◌, ◌≡◌, refl, sym, ap, ◌∙◌, arith, ◌≢◌, true, false, none, some, List, [], ◌∷◌,
  ◌++◌, length, leb, ◌==◌, if-true, if-false, ==_iff,
}
use px4_rs.Workqueue.AtomicWaker.{WakerState}
use px4_rs.Workqueue.AtomicWaker.Alone.{register_lem, wake_lem}
use px4_rs.Workqueue.Channel.{
  Channel, full, empty, value, ready, pending, push, pop, first_send, second_send, first_recv,
  second_recv, try_send, try_recv, send_poll, recv_poll,
}
use px4_rs.Workqueue.Channel.Fifo.{Holds, push-Holds, pop-Holds, counters_eq, count_lem}

module _ {T W : Type 0} (usize_mod capacity : ℕ) (divides : usize_mod % capacity ≡ 0)
    (small : capacity < usize_mod) where
  send_full :
      {c : Channel T W} {h : ℕ} {q : List T} (v : T)
      → Holds usize_mod capacity c h q
      → leb capacity (length q) ≡ true
      → try_send usize_mod capacity v c ≡ record { chan = c; result = full v; woke = none }
  unfolding try_send
  send_full v s e = rw (count_lem usize_mod capacity divides small s, e)

  recv_empty :
      {c : Channel T W} {h : ℕ}
      → Holds usize_mod capacity c h []
      → try_recv usize_mod capacity c ≡ record { chan = c; result = empty; woke = none }
  unfolding try_recv
  recv_empty {c} s = if-true _ _ (
      (==_iff c.head c.tail).1
        (s.head_mod ∙ (ap (λ k. k % usize_mod) (omega arith) ∙ sym s.tail_mod)))

  -- The channel with `w` parked on its sending side, or on its receiving side.
  abbrev parked_sender : W → Channel T W → Channel T W
  parked_sender w c = record c {
    send_waker = record { state = WakerState.waiting; waker = some w };
  }

  abbrev parked_receiver : W → Channel T W → Channel T W
  parked_receiver w c = record c {
    recv_waker = record { state = WakerState.waiting; waker = some w };
  }

  parked_sender-Holds :
      {c : Channel T W} {h : ℕ} {q : List T} (w : W)
      → Holds usize_mod capacity c h q
      → Holds usize_mod capacity (parked_sender w c) h q
  parked_sender-Holds w s = record {
    head_mod = s.head_mod;
    tail_mod = s.tail_mod;
    room = s.room;
    slots = s.slots;
    stored = s.stored;
  }

  parked_receiver-Holds :
      {c : Channel T W} {h : ℕ} {q : List T} (w : W)
      → Holds usize_mod capacity c h q
      → Holds usize_mod capacity (parked_receiver w c) h q
  parked_receiver-Holds w s = record {
    head_mod = s.head_mod;
    tail_mod = s.tail_mod;
    room = s.room;
    slots = s.slots;
    stored = s.stored;
  }

  send_poll_full :
      {c : Channel T W} {h : ℕ} {q : List T} (w : W) (v : T)
      → Holds usize_mod capacity c h q
      → leb capacity (length q) ≡ true
      → c.send_waker.state ≡ WakerState.waiting
      → send_poll usize_mod capacity w (some v) c ≡ (parked_sender w c, some v, pending, none, none)
  unfolding send_poll
  send_poll_full {c} w v s e free =
      ap (λ o. first_send usize_mod capacity w o o.result) (send_full v s e)
      ∙ (ap
            (λ m.
              let o = try_send usize_mod capacity v (record c { send_waker = m.0 }) in
              second_send usize_mod capacity m.1 o o.result)
            (register_lem w c.send_waker free)
          ∙ ap (λ o. second_send usize_mod capacity none o o.result)
              (send_full v (parked_sender-Holds w s) e))

  recv_poll_empty :
      {c : Channel T W} {h : ℕ} (w : W)
      → Holds usize_mod capacity c h []
      → c.recv_waker.state ≡ WakerState.waiting
      → recv_poll usize_mod capacity w c ≡ (parked_receiver w c, pending, none, none)
  unfolding recv_poll
  recv_poll_empty {c} w s free =
      ap (λ o. first_recv usize_mod capacity w o o.result) (recv_empty s)
      ∙ (ap
            (λ m.
              let o = try_recv usize_mod capacity (record c { recv_waker = m.0 }) in
              second_recv usize_mod capacity m.1 o o.result)
            (register_lem w c.recv_waker free)
          ∙ ap (λ o. second_recv usize_mod capacity none o o.result)
              (recv_empty (parked_receiver-Holds w s)))

  -- `try_send` with room, and `try_recv` with a value.
  send_room :
      {c : Channel T W} {h : ℕ} {q : List T} (v : T)
      → Holds usize_mod capacity c h q
      → leb capacity (length q) ≡ false
      → try_send usize_mod capacity v c ≡ push usize_mod capacity v c
  unfolding try_send
  send_room v s e = rw (count_lem usize_mod capacity divides small s, e)

  recv_value :
      {c : Channel T W} {h : ℕ} {q : List T} (x : T)
      → Holds usize_mod capacity c h (x ∷ q)
      → try_recv usize_mod capacity c ≡ pop usize_mod capacity c
  unfolding try_recv
  recv_value x s = if-false _ _ (differ s)
    where
      differ :
          {c : Channel T W} {h : ℕ} {q : List T}
          → Holds usize_mod capacity c h (x ∷ q)
          → (c.head == c.tail) ≡ false
      differ {c} s =
          let ne : c.head ≢ c.tail =
            λ e. cc ((counters_eq usize_mod capacity divides small s).0 e) in
          ground arith

  -- `Send::poll` with a free slot: ready, with the value in the queue.
  pub send_poll_ready :
      {c : Channel T W} {h : ℕ} {q : List T} (w : W) (v : T)
      → Holds usize_mod capacity c h q
      → length q < capacity
      → Holds usize_mod capacity (send_poll usize_mod capacity w (some v) c).0 h (q ++ v ∷ [])
        × ((send_poll usize_mod capacity w (some v) c).1 ≡ none)
        × ((send_poll usize_mod capacity w (some v) c).2 ≡ ready tt)
  unfolding send_poll push
  send_poll_ready w v s room =
      rw (send_room v s (ground arith))
        (push-Holds usize_mod capacity divides small v s room, refl, refl)

  -- `Send::poll` on a full channel: pending, the value kept in the future, the queue unchanged, and
  -- the next value that is received wakes this task.
  pub send_poll_parks :
      {c : Channel T W} {h : ℕ} (x : T) (q : List T) (w : W) (v : T)
      → Holds usize_mod capacity c h (x ∷ q)
      → capacity ≡ length (x ∷ q)
      → c.send_waker.state ≡ WakerState.waiting
      → let p = send_poll usize_mod capacity w (some v) c in
        Holds usize_mod capacity p.0 h (x ∷ q)
        × (p.1 ≡ some v)
        × (p.2 ≡ pending)
        × ((try_recv usize_mod capacity p.0).woke ≡ some w)
  unfolding pop
  send_poll_parks x q w v s e free = rw (send_poll_full w v s (ground arith) free) (
    parked_sender-Holds w s,
    refl,
    refl,
    ap (λ o. o.woke) (recv_value x (parked_sender-Holds w s))
        ∙ ap (λ m. m.1) (wake_lem (record { state = WakerState.waiting; waker = some w }) refl),
  )

  -- `Recv::poll` on an empty channel: pending, the channel still empty, and the next value that is
  -- sent wakes this task.
  pub recv_poll_parks :
      {c : Channel T W} {h : ℕ} (w : W) (v : T)
      → Holds usize_mod capacity c h []
      → 0 < capacity
      → c.recv_waker.state ≡ WakerState.waiting
      → let p = recv_poll usize_mod capacity w c in
        Holds usize_mod capacity p.0 h []
        × (p.1 ≡ pending)
        × ((try_send usize_mod capacity v p.0).woke ≡ some w)
  unfolding push
  recv_poll_parks w v s pos free = rw (recv_poll_empty w s free) (
    parked_receiver-Holds w s,
    refl,
    ap (λ o. o.woke) (send_room v (parked_receiver-Holds w s) (ground arith))
        ∙ ap (λ m. m.1) (wake_lem (record { state = WakerState.waiting; waker = some w }) refl),
  )

  -- `Recv::poll` with a value: ready with the oldest one, which leaves the queue.
  pub recv_poll_ready :
      {c : Channel T W} {h : ℕ} {q : List T} (w : W) (x : T)
      → Holds usize_mod capacity c h (x ∷ q)
      → let p = recv_poll usize_mod capacity w c in
        Holds usize_mod capacity p.0 (h + 1) q × (p.1 ≡ ready (value x))
  unfolding recv_poll
  recv_poll_ready {c} w x s =
      let (s', r) = pop-Holds usize_mod capacity divides small x s in
      rw (recv_value x s, r) (s', refl)
