-- ===== src/Uorb/Topics.antt =====
-- crates/px4-uorb/src/ffi.rs, module `mock`: the map of the broker, from names to topics.
--
-- A topic is shared by the map and the handles, so the topics stand in a list and the map and the
-- handles hold places in it. A topic is kept with its subscriptions, as in Uorb.Broker.
pub mod Clients
mod Apart
mod Stepped
mod Calls
mod Tests
use px4_rs.Prelude.{ℕ, zero, suc, Option, none, some, List, [], ◌∷◌, ◌++◌, if◌then◌else◌, length}
use px4_rs.Text.{equal}
use px4_rs.Uorb.Broker.{Bus, send_sample, publish_status}
use px4_rs.Uorb.Client.{new_bus}

-- What the broker reads of an `orb_metadata`.
pub record OrbMetadata : Type 0 where
  pub o_name : List ℕ
  pub o_size : ℕ

pub record Broker (W : Type 0) : Type 0 where
  pub names : List (List ℕ × ℕ)
  pub topics : List (Bus W)

unfoldable pub lookup : List ℕ → List (List ℕ × ℕ) → Option ℕ
unfolding equal
lookup n [] = none
lookup n ((k, i) ∷ ks) = let rest = lookup n ks in if equal k n then some i else rest

module _ {W : Type 0} where
  abbrev pub new_broker : Broker W
  new_broker = record { names = []; topics = [] }

  -- The branches of `or_insert_with`.
  abbrev pub or_insert : OrbMetadata → Broker W → Option ℕ → ℕ × Broker W
  or_insert m b (some i) = (i, b)
  or_insert m b none = (
    length b.topics,
    record {
      names = b.names ++ ((m.o_name, length b.topics) ∷ []);
      topics = b.topics ++ (new_bus m.o_size ∷ []);
    },
  )

  -- `topic_for`: the place of the topic, and the broker.
  unfoldable pub topic_for : OrbMetadata → Broker W → ℕ × Broker W
  unfolding lookup
  topic_for m b = or_insert m b (lookup m.o_name b.names)

  -- A call on the topic behind a handle.
  unfoldable pub modify : ℕ → (Bus W → Bus W) → List (Bus W) → List (Bus W)
  modify i f [] = []
  modify zero f (t ∷ ts) = f t ∷ ts
  modify (suc i) f (t ∷ ts) = t ∷ modify i f ts

  abbrev pub through : ℕ → (Bus W → Bus W) → Broker W → Broker W
  through i f b = record b { topics = modify i f b.topics }

  -- `advertise` and `sub_cb_new`, which look for the topic of their metadata: with what the call then does
  -- with the topic.
  unfoldable pub open_topic : OrbMetadata → (Bus W → Bus W) → Broker W → Broker W
  unfolding topic_for modify
  open_topic m f b = let (i, b') = topic_for m b in through i f b'

  -- `advertise`: the handle that it returns, and the broker.
  unfoldable pub advertise : OrbMetadata → List ℕ → Broker W → ℕ × Broker W
  unfolding topic_for modify send_sample
  advertise m d b = let (i, b') = topic_for m b in (i, through i (λ t. (send_sample d t).0) b')

  -- `_reset_broker`: the topics live on behind their handles.
  abbrev pub reset_broker : Broker W → Broker W
  reset_broker b = record b { names = [] }
