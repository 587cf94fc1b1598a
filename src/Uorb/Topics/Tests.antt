-- ===== src/Uorb/Topics/Tests.antt =====
-- Two topics of one broker, and one that two metadata name.
use px4_rs.Prelude.{ℕ, zero, suc, ◌≡◌, refl, false, none, List, [], ◌∷◌}
use px4_rs.Text.{codes, equal}
use px4_rs.Uorb.Topics.{OrbMetadata, lookup, new_broker, topic_for, advertise, reset_broker}
use px4_rs.Uorb.Topics.Apart.{view}
use px4_rs.Uorb.Topics.Clients.{
  Client, publication, subscription, ClientCall, publishes, receives, counts, drops, polls, access,
  call_with, client_call, run_clients, no_clients,
}
use px4_rs.Uorb.Topics.Calls.{promised_run, calls_apart}

abbrev gyro : OrbMetadata
gyro = record { o_name = codes "gyro"; o_size = 2 }

abbrev status : OrbMetadata
status = record { o_name = codes "status"; o_size = 1 }

-- The name of `gyro` with another size.
abbrev wide_gyro : OrbMetadata
wide_gyro = record { o_name = codes "gyro"; o_size = 8 }

-- Two clients of `gyro` and two of `status`.
abbrev metas : Client → OrbMetadata
metas (publication zero) = gyro
metas (subscription zero) = gyro
metas (publication (suc k)) = status
metas (subscription (suc k)) = status

abbrev mixed : List (ClientCall ℕ)
mixed =
    publishes 0 (1 ∷ 2 ∷ [])
    ∷ counts 1
    ∷ polls 1 7
    ∷ receives 0
    ∷ publishes 1 (3 ∷ [])
    ∷ publishes 1 (3 ∷ 4 ∷ [])
    ∷ []

status_size : (c : Client) → (metas c).o_name ≡ codes "status" → (metas c).o_size ≡ 1
status_size (publication zero) e = absurd (cc e)
status_size (subscription zero) e = absurd (cc e)
status_size (publication (suc k)) e = refl
status_size (subscription (suc k)) e = refl

calls_apart_example :
    view (codes "status") (run_clients metas mixed no_clients).broker
    ≡ promised_run metas 1
        (counts 1 ∷ polls 1 7 ∷ publishes 1 (3 ∷ []) ∷ publishes 1 (3 ∷ 4 ∷ []) ∷ [])
        (λ c. false)
        none
unfolding equal
calls_apart_example = calls_apart metas mixed (codes "status") 1 status_size

-- Nothing that is refused or early makes a topic.
no_topic :
    (let s =
        run_clients metas
          (counts 1 ∷ drops 1 ∷ publishes 1 (3 ∷ 4 ∷ []) ∷ [])
          (no_clients {W = ℕ}) in
      view (codes "status") s.broker)
    ≡ none
unfolding run_clients client_call call_with access lookup
no_topic = refl

-- The first size is kept, so that a later publication of 8 bytes has a topic of 2.
first_size : (topic_for wide_gyro (topic_for {W = ℕ} gyro new_broker).1).0 ≡ 0
unfolding topic_for lookup
first_size = refl

-- After a reset a name has a new topic, and the old handle keeps the old one.
after_reset :
    let b = (advertise {W = ℕ} gyro (1 ∷ 2 ∷ []) new_broker).1 in
    (advertise gyro (3 ∷ 4 ∷ []) (reset_broker b)).0 ≡ 1
unfolding advertise topic_for lookup
after_reset = refl
