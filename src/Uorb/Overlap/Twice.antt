-- ===== src/Uorb/Overlap/Twice.antt =====
-- Two publishers whose messages the polling task mixes up.
use px4_rs.Prelude.{ℕ, List, [], ◌∷◌, ◌++◌, replicate}
use px4_rs.Workqueue.Channel.Parking.{no_poll}
use px4_rs.Uorb.Overlap.{Publishing, Updating, Hub, HubTurn, publisher, poller}

-- Thread 0 writes and counts its message; the task reads the sequence number; thread 1 writes its
-- message; the task copies the sample. The threads are in `publish` already, so that no turn carries
-- a message.
abbrev pub mixed : List HubTurn
mixed = replicate 2 (publisher 0 []) ++ replicate 3 poller ++ (publisher 1 [] ∷ poller ∷ [])

-- Both threads finish, and the task polls again.
abbrev pub finished : List HubTurn
finished = publisher 1 [] ∷ publisher 0 [] ∷ publisher 1 [] ∷ replicate 4 poller

abbrev pub in_publish : List ℕ → List ℕ → List Publishing
in_publish d₁ d₂ = Publishing.copying d₁ ∷ Publishing.copying d₂ ∷ []

abbrev pub idle_hub : ℕ → List ℕ → ℕ → ℕ → List (List ℕ) → Hub
idle_hub size sample seq lost delivered = record {
  size = size;
  sample = sample;
  seq = seq;
  last_seen = seq;
  lost = lost;
  update = Updating.outside;
  task = no_poll;
  delivered = delivered;
}
