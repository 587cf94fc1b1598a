-- ===== src/Uorb/Overlap/Tests.antt =====
-- A topic of one byte.
use px4_rs.Prelude.{◌≡◌, refl, arith, ◌||◌, true, List, [], ◌∷◌, ◌++◌, replicate}
use px4_rs.Uorb.Overlap.{
  Publishing, Hub, HubTurn, publisher, poller, publisher_turn, step_publisher, step_update,
  step_poll, hub_turn, run_hub,
}
use px4_rs.Uorb.Overlap.Kept.{some_notifies}
use px4_rs.Uorb.Overlap.Woken.{parked_woken}
use px4_rs.Uorb.Overlap.Twice.{idle_hub}

abbrev one_outside : List Publishing
one_outside = Publishing.outside ∷ []

abbrev two_outside : List Publishing
two_outside = Publishing.outside ∷ one_outside

abbrev byte_hub : Hub
byte_hub = idle_hub 1 (0 ∷ []) 4 0 []

-- The second attempt reads the sequence number just before a message is counted, and parks.
abbrev late : List HubTurn
late = replicate 2 (publisher 0 (7 ∷ [])) ++ replicate 5 poller ++ publisher 0 [] ∷ poller ∷ []

parked_woken_example :
    (some_notifies (run_hub late one_outside byte_hub).0
      || (run_hub late one_outside byte_hub).1.task.woken)
    ≡ true
unfolding run_hub hub_turn publisher_turn step_publisher step_poll step_update
parked_woken_example = parked_woken late one_outside byte_hub refl refl refl (omega arith)

-- The task that is woken takes the message.
resumed :
    (run_hub (late ++ publisher 0 [] ∷ replicate 4 poller) one_outside byte_hub).1.delivered
    ≡ (7 ∷ []) ∷ []
unfolding run_hub hub_turn publisher_turn step_publisher step_poll step_update
resumed = refl
