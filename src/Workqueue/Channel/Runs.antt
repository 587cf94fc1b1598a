-- ===== src/Workqueue/Channel/Runs.antt =====
-- Whole runs of a producer and a consumer, the length, and the loop of `Drop`.
use px4_rs.Prelude.{
  ℕ, zero, suc, ◌%◌, ◌<◌, ◌≡◌, refl, ap, ap₂, arith, true, List, [], ◌∷◌, length, leb, ◌==◌,
}
use px4_rs.Workqueue.Channel.{
  Channel, Sent, Received, new_channel, len, step_len, is_empty, is_full, try_send, try_recv, drain,
}
use px4_rs.Workqueue.Channel.Fifo.{
  enqueue, dequeue, Holds, count_lem, try_send_refines, try_recv_refines, new-Holds,
}

-- A client's call, and its answer.
pub data Op (T : Type 0) : Type 0 where
  send : T → Op T
  recv : Op T

pub data Reply (T : Type 0) : Type 0 where
  sent : Sent T → Reply T
  received : Received T → Reply T

module _ {T W : Type 0} (usize_mod capacity : ℕ) where
  -- The answers of a channel to a sequence of calls.
  unfoldable pub run : Channel T W → List (Op T) → List (Reply T)
  run c [] = []
  run c (send v ∷ ops) = let o = try_send usize_mod capacity v c in sent o.result ∷ run o.chan ops
  run c (recv ∷ ops) = let o = try_recv usize_mod capacity c in received o.result ∷ run o.chan ops

-- The answers of the queue.
pub run_queue : {T : Type 0} → ℕ → List T → List (Op T) → List (Reply T)
run_queue capacity q [] = []
run_queue capacity q (send v ∷ ops) =
    sent (enqueue capacity v q).1 ∷ run_queue capacity (enqueue capacity v q).0 ops
run_queue capacity q (recv ∷ ops) = received (dequeue q).1 ∷ run_queue capacity (dequeue q).0 ops

module _ {T : Type 0} (W : Type 0) (usize_mod capacity : ℕ) (divides : usize_mod % capacity ≡ 0)
    (small : capacity < usize_mod) where
  run-Holds :
      (ops : List (Op T)) {c : Channel T W} {h : ℕ} {q : List T}
      → Holds {W = W} usize_mod capacity c h q
      → run usize_mod capacity c ops ≡ run_queue capacity q ops
  unfolding run run_queue
  run-Holds [] s = refl
  run-Holds (send v ∷ ops) s =
      let (s', e) = try_send_refines usize_mod capacity divides small v s in
      ap₂ ◌∷◌ (ap sent e) (run-Holds ops s')
  run-Holds (recv ∷ ops) s =
      let ((k, s'), e) = try_recv_refines usize_mod capacity divides small s in
      ap₂ ◌∷◌ (ap received e) (run-Holds ops s')

  -- No sequence of calls tells a new channel from an empty queue of the same capacity, however often
  -- the counters wrap, if the capacity divides the range of `usize`.
  pub run_refines :
      (ops : List (Op T))
      → run usize_mod capacity (new_channel usize_mod capacity {W = W}) ops
        ≡ run_queue capacity [] ops
  run_refines ops = run-Holds ops (new-Holds usize_mod capacity divides small)

  -- `len`, `is_empty` and `is_full` are those of the queue that the channel holds.
  pub len_refines :
      {c : Channel T W} {h : ℕ} (q : List T)
      → Holds {W = W} usize_mod capacity c h q
      → (len usize_mod capacity c ≡ length q)
        × (is_empty usize_mod capacity c ≡ (length q == 0))
        × (is_full usize_mod capacity c ≡ leb capacity (length q))
  unfolding len is_empty is_full step_len
  len_refines q s = let e = count_lem usize_mod capacity divides small s in rw e (refl, refl, refl)

  -- `Drop` receives every value that is left, and ends because the channel is empty.
  pub drain_empties :
      (q : List T) {c : Channel T W} {h fuel : ℕ}
      → Holds {W = W} usize_mod capacity c h q
      → length q < fuel
      → (k : ℕ) × Holds usize_mod capacity (drain usize_mod capacity fuel c).0 k []
        × ((drain usize_mod capacity fuel c).1 ≡ true)
  unfolding drain dequeue
  drain_empties q {fuel = zero} s h = absurd (omega arith)
  drain_empties [] {fuel = suc fuel} s h =
      let ((k, s'), e) = try_recv_refines usize_mod capacity divides small s in
      (k, rw (e, drain) s', rw (e, drain) refl)
  drain_empties (v ∷ q) {fuel = suc fuel} s h =
      let ((k, s'), e) = try_recv_refines usize_mod capacity divides small s in
      rw (e, drain) (drain_empties q s' (omega arith))
