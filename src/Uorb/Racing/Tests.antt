-- ===== src/Uorb/Racing/Tests.antt =====
-- Two threads that race for the first publish, and one that unadvertises.
use px4_rs.Prelude.{
  ℕ, zero, suc, ◌+◌, ◌%◌, ◌≤◌, ◌<◌, ◌≡◌, refl, true, false, none, some, List, [], ◌∷◌, replicate,
  arith,
}
use px4_rs.Uorb.Broker.{Bus, send_sample, notify, u64_range}
use px4_rs.Uorb.Client.{new_bus, undefined, ok}
use px4_rs.Uorb.Racing.{
  starting, sending, swapping, unadvertised, turn, take_turn, race, publishers, open_store,
}
use px4_rs.Uorb.Racing.Ends.{count}
use px4_rs.Uorb.Racing.Counts.{outcomes}
use px4_rs.Uorb.Racing.First.{publishes_race}

abbrev samples : List (List ℕ)
samples = (1 ∷ []) ∷ (2 ∷ []) ∷ []

abbrev byte_bus : Bus ℕ
byte_bus = new_bus 1

-- The threads alternate, so that both find the handle null.
abbrev alternating : List ℕ
alternating = 0 ∷ 1 ∷ 0 ∷ 1 ∷ 0 ∷ 1 ∷ 0 ∷ 1 ∷ 0 ∷ 1 ∷ 0 ∷ 1 ∷ []

abbrev fair : (i : ℕ) → i < 2 → 6 ≤ count i alternating
fair zero h = omega arith
fair (suc zero) h = omega arith
fair (suc (suc i)) h = absurd (omega arith)

-- Four samples are counted, and the last is that of the second thread.
both_advertise :
    ((race alternating (publishers samples) (open_store false byte_bus)).store.bus.topic.seq ≡ 4)
    × ((race alternating (publishers samples) (open_store false byte_bus)).store.bus.topic.sample
        ≡ 2 ∷ [])
unfolding race turn take_turn send_sample notify
both_advertise = (refl, refl)

publishes_race_example :
    (outcomes (race alternating (publishers samples) (open_store false byte_bus)).threads
      ≡ replicate 2 (some ok))
    × ((race alternating (publishers samples) (open_store false byte_bus)).store.handle ≡ true)
    × ((race alternating (publishers samples) (open_store false byte_bus)).store.shares ≡ 1)
    × (m : ℕ) × ((race alternating
          (publishers samples)
          (open_store false byte_bus)).store.bus.topic.seq
        ≡ (0 + (2 + m)) % u64_range)
    × ((1 ≤ m) × (m ≤ 2))
publishes_race_example =
    publishes_race false byte_bus samples alternating (omega arith) (omega arith) fair

-- The publisher loads the handle, and the other thread gives back the only share of it.
released_handle :
    ((race
        (0 ∷ 0 ∷ 1 ∷ 1 ∷ [])
        (starting (1 ∷ []) ∷ swapping ∷ [])
        (open_store true byte_bus)).threads
      ≡ sending (1 ∷ []) 0 ∷ unadvertised ∷ [])
    × ((race
          (0 ∷ 0 ∷ 1 ∷ 1 ∷ [])
          (starting (1 ∷ []) ∷ swapping ∷ [])
          (open_store true byte_bus)).store.shares
        ≡ 0)
unfolding race turn take_turn
released_handle = (refl, refl)

-- It loads the handle after the swap.
null_handle :
    outcomes
      (race (0 ∷ 1 ∷ 0 ∷ []) (starting (1 ∷ []) ∷ swapping ∷ []) (open_store true byte_bus)).threads
    ≡ some undefined ∷ none ∷ []
unfolding race turn take_turn
null_handle = refl
