-- ===== src/Uorb/Topics/Clients.antt =====
-- crates/px4-uorb/src/raw.rs, pub_.rs and sub.rs over the topics of one broker: any number of publications
-- and subscriptions, each with its raw handle. A handle is null or holds the place of its topic.
use px4_rs.Prelude.{
  ℕ, ◌==◌, ltb, Bool, true, false, Option, none, some, List, [], ◌∷◌, if◌then◌else◌, length,
}
use px4_rs.Uorb.Broker.{Bus}
use px4_rs.Uorb.Client.{
  publish, try_recv, raw_try_recv, recv_poll, register_waker, missed_count, drop_subscription,
}
use px4_rs.Uorb.Topics.{OrbMetadata, Broker, new_broker, topic_for, through}

pub data Client : Type 0 where
  publication subscription : ℕ → Client

abbrev pub same_client : Client → Client → Bool
same_client (publication i) (publication j) = i == j
same_client (subscription i) (subscription j) = i == j
same_client (publication i) (subscription j) = false
same_client (subscription i) (publication j) = false

pub data ClientCall (W : Type 0) : Type 0 where
  publishes : ℕ → List ℕ → ClientCall W
  unadvertises receives counts drops : ℕ → ClientCall W
  receives_into : ℕ → List ℕ → ClientCall W
  polls registers : ℕ → W → ClientCall W

abbrev pub client_of : {W : Type 0} → ClientCall W → Client
client_of (publishes k d) = publication k
client_of (unadvertises k) = publication k
client_of (receives k) = subscription k
client_of (receives_into k buf) = subscription k
client_of (polls k w) = subscription k
client_of (registers k w) = subscription k
client_of (counts k) = subscription k
client_of (drops k) = subscription k

-- How a call reaches its topic: it opens the handle if it is null, and is told whether it was not; it
-- returns early if it is null; it does that and then forgets the handle; or it does not reach it.
pub data Access (W : Type 0) : Type 0 where
  opening : (Bool → Bus W → Bus W) → Access W
  using ending : (Bus W → Bus W) → Access W
  returning : Access W

pub record Clients (W : Type 0) : Type 0 where
  pub broker : Broker W
  pub held : Client → Option ℕ

abbrev pub put_handle : (Client → Option ℕ) → Client → Option ℕ → Client → Option ℕ
put_handle held c h c' = if same_client c c' then h else held c'

module _ {W : Type 0} where
  -- `RawPublication::publish` and `RawSubscription::try_recv` compare the size first.
  unfoldable pub access : OrbMetadata → ClientCall W → Access W
  access m (publishes k d) =
      if length d == m.o_size
      then opening (λ h b. (publish d (record { handle = h; o_size = m.o_size }) b).bus)
      else returning
  access m (unadvertises k) = ending (λ b. b)
  access m (receives k) = opening (λ h b. (try_recv k b).0)
  access m (receives_into k buf) =
      if ltb (length buf) m.o_size then returning else opening (λ h b. (raw_try_recv k buf b).0)
  access m (polls k w) = opening (λ h b. (recv_poll k w b).0)
  access m (registers k w) = opening (λ h b. (register_waker k w b).0)
  access m (counts k) = using (λ b. (missed_count k b).0)
  access m (drops k) = ending (λ b. drop_subscription k b)

  -- The handle and the broker after a call, from the handle and the broker before it.
  unfoldable pub call_with : Access W → Option ℕ → OrbMetadata → Broker W → Option ℕ × Broker W
  unfolding topic_for
  call_with (opening f) none m b = let (i, b') = topic_for m b in (some i, through i (f false) b')
  call_with (opening f) (some i) m b = (some i, through i (f true) b)
  call_with (using f) none m b = (none, b)
  call_with (using f) (some i) m b = (some i, through i f b)
  call_with (ending f) none m b = (none, b)
  call_with (ending f) (some i) m b = (none, through i f b)
  call_with returning h m b = (h, b)

  unfoldable pub client_call : (Client → OrbMetadata) → ClientCall W → Clients W → Clients W
  unfolding access call_with
  client_call metas x s =
      let c = client_of x in
      let r = call_with (access (metas c) x) (s.held c) (metas c) s.broker in
      record { broker = r.1; held = put_handle s.held c r.0 }

  unfoldable pub run_clients : (Client → OrbMetadata) → List (ClientCall W) → Clients W → Clients W
  unfolding client_call
  run_clients metas [] s = s
  run_clients metas (x ∷ xs) s = run_clients metas xs (client_call metas x s)

  abbrev pub no_clients : Clients W
  no_clients = record { broker = new_broker; held = λ c. none }
