-- ===== src/Uorb/Tests.antt =====
-- Runs of a topic of two bytes.
use native.Mathlib.Decide.{ℕ_discrete}
use mathlib.Core.List.{Mem}
use px4_rs.Prelude.{ℕ, ◌≡◌, ◌+◌, refl, true, false, some, List, [], ◌∷◌, arith}
use px4_rs.Uorb.Broker.{Bus, notify, send_sample, sub_cb_register, sub_cb_update}
use px4_rs.Uorb.Client.{
  new_bus, new_publication, publish, publish_loaded, ensure_advertised, raw_publish, ok, try_recv,
  recv_poll, ensure_registered, ensure_cb, update_cb, first_try, park, raw_try_recv, size_mismatch,
}
use px4_rs.Uorb.Handles.{IsValid, Call, publishes, receives, polls, drops, run, run-IsValid}
use px4_rs.Uorb.Delivery.{missed}
use px4_rs.Uorb.Wakeup.{pending-woken}
use px4_rs.Uorb.Account.{sending, receiving, asking, happen, happens, tally, nothing_unaccounted}

abbrev first_message : List ℕ
first_message = 1 ∷ 2 ∷ []

abbrev second_message : List ℕ
second_message = 3 ∷ 4 ∷ []

abbrev calls : List (Call ℕ)
calls =
    publishes first_message false
    ∷ receives 0
    ∷ polls 1 7
    ∷ drops 0
    ∷ publishes second_message true
    ∷ []

run-IsValid_example : IsValid (run calls (new_bus 2))
run-IsValid_example = run-IsValid 2 calls

abbrev quiet_bus : Bus ℕ
quiet_bus = new_bus 2

pending-woken_example :
    ((publish first_message (new_publication 2) (recv_poll 0 5 quiet_bus).0).result ≡ ok)
    × Mem 5 (publish first_message (new_publication 2) (recv_poll 0 5 quiet_bus).0).woke
    × ((recv_poll 0 6 (publish first_message (new_publication 2) (recv_poll 0 5 quiet_bus).0).bus).1
        ≡ some first_message)
unfolding recv_poll first_try park try_recv ensure_registered ensure_cb sub_cb_register update_cb
    sub_cb_update ℕ_discrete
pending-woken_example =
    pending-woken 0 5 6 quiet_bus first_message (new_publication 2) (run-IsValid 2 []) refl
      (omega arith) (omega arith) refl

nothing_unaccounted_example :
    (let t = happen 0 receiving (
        happens 0
          (receiving ∷ sending first_message ∷ sending second_message ∷ asking ∷ [])
          (tally quiet_bus)) in
      t.delivered + t.reported + missed (t.bus.subs 0).cb)
    ≡ 2
nothing_unaccounted_example =
    nothing_unaccounted 0 (receiving ∷ sending first_message ∷ sending second_message ∷ asking ∷ [])
      quiet_bus (omega arith) (omega arith)

wrong_size : (raw_publish (1 ∷ []) (new_publication 2) quiet_bus).result ≡ size_mismatch
unfolding raw_publish
wrong_size = refl

-- A longer buffer keeps its tail.
long_buffer :
    (raw_try_recv 0 (9 ∷ 9 ∷ 9 ∷ []) (publish first_message (new_publication 2) quiet_bus).bus).1
    ≡ some (1 ∷ 2 ∷ 9 ∷ [])
unfolding raw_try_recv publish publish_loaded ensure_advertised send_sample notify ensure_registered
    ensure_cb sub_cb_register update_cb sub_cb_update ℕ_discrete
long_buffer = refl
