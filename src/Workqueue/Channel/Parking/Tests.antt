-- ===== src/Workqueue/Channel/Parking/Tests.antt =====
-- A channel of one value, on counters of three bits.
use px4_rs.Prelude.{ℕ, ◌≡◌, refl, ◌||◌, true, List, ◌++◌, replicate, arith}
use px4_rs.Workqueue.Channel.{value}
use px4_rs.Workqueue.Channel.Flow.{
  Receiver, Turn, send_turn, recv_turn, new_flow, step_sender, step_receiver,
}
use px4_rs.Workqueue.Channel.Parking.{
  Parties, new_parties, send_attempt, recv_attempt, send_part, recv_part, run_parties,
}
use px4_rs.Workqueue.Channel.Parking.Alert.{send_wakes}
use px4_rs.Workqueue.Channel.Parking.Progress.{receiver_alert, no_deadlock}

-- Six turns of a poll of `Recv` that finds nothing, and five of a poll of `Send`, before its wake.
abbrev before_wake : List (Turn ℕ)
before_wake = replicate 6 recv_turn ++ replicate 5 (send_turn 7)

abbrev waiting : Parties ℕ
waiting = run_parties 8 1 before_wake (new_parties 8 1)

receiver_alert_example : (send_wakes waiting.flow.sender || waiting.receiving.woken) ≡ true
unfolding new_parties new_flow send_part recv_part send_attempt recv_attempt step_sender
    step_receiver
receiver_alert_example = receiver_alert 8 1 before_wake tt refl (omega arith)

-- The sender wakes the receiver and parks with a second value before the receiver runs.
abbrev both_parked : List (Turn ℕ)
both_parked = replicate 6 recv_turn ++ replicate 12 (send_turn 7)

abbrev blocked : Parties ℕ
blocked = run_parties 8 1 both_parked (new_parties 8 1)

no_deadlock_example : (blocked.receiving.woken || blocked.sending.woken) ≡ true
unfolding new_parties new_flow send_part recv_part send_attempt recv_attempt step_sender
    step_receiver
no_deadlock_example = no_deadlock 8 1 both_parked tt 7 (omega arith) (omega arith) refl refl

-- The receiver that was woken takes the value.
resumed :
    (run_parties 8 1 (both_parked ++ replicate 4 recv_turn) (new_parties 8 1)).flow.receiver
    ≡ Receiver.read 0 (value 7)
unfolding new_parties new_flow send_part recv_part send_attempt recv_attempt step_sender
    step_receiver
resumed = refl
