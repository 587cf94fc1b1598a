-- ===== src/Workqueue/Channel/Flow/Tests.antt =====
-- A producer and a consumer of a channel of two values, on counters of three bits.
use px4_rs.Prelude.{ℕ, ◌%◌, ◌≤◌, ◌≡◌, ◌≢◌, refl, true, false, List, [], ◌∷◌, ◌++◌, length, arith}
use px4_rs.Workqueue.Channel.{
  tail_loaded, measured, step_len, measured_len, is_empty_len, is_full_len,
}
use px4_rs.Workqueue.Channel.Flow.{
  Flow, Turn, send_turn, recv_turn, new_flow, step_sender, step_receiver, run_flow,
}
use px4_rs.Workqueue.Channel.Flow.Invariant.{values}
use px4_rs.Workqueue.Channel.Flow.Order.{flow_fifo, slots_apart, len_snapshot, sends, receives}

-- The producer is before its second write while the consumer is before its first read.
abbrev overlapping : List (Turn ℕ)
overlapping =
    send_turn 7
    ∷ send_turn 7
    ∷ send_turn 7
    ∷ send_turn 7
    ∷ recv_turn
    ∷ send_turn 7
    ∷ send_turn 9
    ∷ recv_turn
    ∷ send_turn 9
    ∷ []

abbrev overlap : Flow ℕ
overlap = run_flow 8 2 overlapping (new_flow 8 2)

flow_fifo_example :
    (q : List ℕ) × (length q ≤ 2) × (overlap.taken ++ values q ≡ values overlap.accepted)
flow_fifo_example = flow_fifo 8 2 (omega arith) (omega arith) overlapping

slots_apart_example : ◌%◌ 1 2 ≢ ◌%◌ 0 2
unfolding new_flow step_sender step_receiver
slots_apart_example = slots_apart 8 2 (omega arith) (omega arith) overlapping 9 1 0 refl refl

abbrev empty_flow : Flow ℕ
empty_flow = new_flow 8 2

len_snapshot_example :
    (let s' = run_flow 8 2 (sends 5 ++ receives) empty_flow in
      let m' = step_len 8 (tail_loaded 0) s'.tail s'.head in
      (s'.head ≡ s'.tail)
      × (m' ≡ measured 7)
      × (is_full_len 2 (measured_len m') ≡ true)
      × (is_empty_len (measured_len m') ≡ false))
unfolding new_flow step_len
len_snapshot_example =
    len_snapshot 8 2 5 empty_flow (omega arith) (omega arith) refl refl refl (omega arith)
