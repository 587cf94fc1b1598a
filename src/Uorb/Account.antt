-- ===== src/Uorb/Account.antt =====
-- Every message is delivered or counted as lost: `try_recv` and `missed_count` of one subscription.
use native.Mathlib.Nat.{mod-eq_of_lt}
use mathlib.Core.Path.{subst}
use px4_rs.Prelude.{
  ℕ, suc, ◌≡◌, ◌≤◌, ◌<◌, ◌+◌, ◌-◌, ◌%◌, refl, sym, ap, ◌∙◌, Option, none, some, List, [], ◌∷◌, ltb,
  arith, Bool-cases, inl, inr, if-true, if-false, length, ltb→lt, lt→ltb,
}
use px4_rs.Uorb.Broker.{SubCb, Bus, send_sample, add_lost, u32_range, u64_range}
use px4_rs.Uorb.Handles.{IsValid}
use px4_rs.Uorb.Wakeup.{send_sample_lem}
use px4_rs.Uorb.Client.{
  ensure_advertised, publish_loaded, try_recv, missed_count, take_lost, publish, new_publication,
}
use px4_rs.Uorb.Notifies.{notify_cb}
use px4_rs.Uorb.Delivery.{seen, missed, try_recv_lem}

-- What happens to one subscription.
pub data Event : Type 0 where
  sending : List ℕ → Event
  receiving : Event
  asking : Event

-- The bus, how many messages `try_recv` delivered, and the sum of what `missed_count` returned.
pub record Tally (W : Type 0) : Type 0 where
  pub bus : Bus W
  pub delivered : ℕ
  pub reported : ℕ

abbrev pub tick : Option (List ℕ) → ℕ
tick none = 0
tick (some d) = 1

-- How many samples were sent.
abbrev pub sent_in : List Event → ℕ
sent_in [] = 0
sent_in (sending d ∷ es) = suc (sent_in es)
sent_in (receiving ∷ es) = sent_in es
sent_in (asking ∷ es) = sent_in es

pub add_lost_lem : (k n : ℕ) → n + k < u32_range → add_lost k n ≡ n + k
unfolding add_lost
add_lost_lem k n h = elim (Bool-cases (ltb 0 k)) [
  | inl y ↦ if-true _ _ y ∙ (ap (λ m. (n + m) % u32_range) (omega arith) ∙ mod-eq_of_lt h)
  | inr y ↦ if-false _ _ y ∙ (ground arith)
]

module _ {W : Type 0} where
  -- The next event of subscription `i`; a send is one sample of the broker.
  abbrev pub happen : ℕ → Event → Tally W → Tally W
  happen i (sending d) t = record t { bus = (send_sample d t.bus).0 }
  happen i receiving t =
      let (b', got) = try_recv i t.bus in record t { bus = b'; delivered = t.delivered + tick got }
  happen i asking t =
      let (b', n) = missed_count i t.bus in record t { bus = b'; reported = t.reported + n }

  abbrev pub happens : ℕ → List Event → Tally W → Tally W
  happens i [] t = t
  happens i (e ∷ es) t = happens i es (happen i e t)

  -- Of `q` messages sent, the handle had seen `a` and lost `z` at the start: what it has seen since
  -- was delivered, reported as lost, or is counted as lost.
  record Balanced (i a z q : ℕ) (t : Tally W) : Type 0 where
    sent : t.bus.topic.seq ≡ q
    behind : seen (t.bus.subs i).cb ≤ q
    balance : a + t.delivered + t.reported + missed (t.bus.subs i).cb ≡ z + seen (t.bus.subs i).cb

  receives_all :
      (i a z q : ℕ) (t : Tally W)
      → z + q < u32_range
      → Balanced i a z q t
      → Balanced i a z q (happen i receiving t) × (seen ((happen i receiving t).bus.subs i).cb ≡ q)
  receives_all i a z q t h s =
      let r = try_recv_lem i t.bus in
      elim (Bool-cases (ltb (seen (t.bus.subs i).cb) t.bus.topic.seq)) [
        | inl y ↦
            let new = r.sees ∙ if-true _ _ y in
            let one = ap tick (r.result ∙ if-true _ _ y) in
            let lost =
              r.misses
              ∙ (if-true _ _ y
                  ∙ add_lost_lem _ _ (omega (arith, s.sent, s.behind, s.balance, ltb→lt _ _ y))) in
            (
              record {
                sent = r.same_seq ∙ s.sent;
                behind = omega (arith, new, s.sent);
                balance = omega (arith, new, one, lost, s.balance, s.sent, ltb→lt _ _ y);
              },
              new ∙ s.sent,
            )
        | inr n ↦
            let same = r.sees ∙ if-false _ _ n in
            let no_one = ap tick (r.result ∙ if-false _ _ n) in
            let kept = r.misses ∙ if-false _ _ n in
            (
              record {
                sent = r.same_seq ∙ s.sent;
                behind = omega (arith, same, s.behind);
                balance = omega (arith, same, no_one, kept, s.balance);
              },
              ground (arith, same, n, s.sent, s.behind),
            )
      ]

  take_lost_lem :
      (i : ℕ) (b : Bus W) (o : Option SubCb)
      → (b.subs i).cb ≡ o
      → ((take_lost i o b).1 ≡ missed o)
        × (missed ((take_lost i o b).0.subs i).cb ≡ 0)
        × (seen ((take_lost i o b).0.subs i).cb ≡ seen o)
        × ((take_lost i o b).0.topic ≡ b.topic)
  take_lost_lem i b none e = (refl, ap missed e, ap seen e, refl)
  take_lost_lem i b (some c) e = (refl, ground arith, ground arith, refl)

  asking-Balanced :
      (i a z q : ℕ) (t : Tally W) → Balanced i a z q t → Balanced i a z q (happen i asking t)
  asking-Balanced i a z q t s =
      let l = take_lost_lem i t.bus (t.bus.subs i).cb refl in
      record {
        sent = ap (λ t. t.seq) l.3 ∙ s.sent;
        behind = omega (arith, l.2, s.behind);
        balance = omega (arith, l.0, l.1, l.2, s.balance);
      }

  sending-Balanced :
      (i a z q : ℕ) (d : List ℕ) (t : Tally W)
      → q + 1 < u32_range
      → Balanced i a z q t
      → Balanced i a z (q + 1) (happen i (sending d) t)
  unfolding send_sample
  sending-Balanced i a z q d t h s =
      let c = notify_cb t.bus.topic.callbacks t.bus.subs i in
      record {
        sent = ap (λ k. (k + 1) % u64_range) s.sent ∙ mod-eq_of_lt (omega arith);
        behind = omega (arith, ap seen c, s.behind);
        balance = omega (arith, ap seen c, ap missed c, s.balance);
      }

  happens-Balanced :
      (i a z q : ℕ) (es : List Event) (t : Tally W)
      → z + q + sent_in es < u32_range
      → Balanced i a z q t
      → Balanced i a z (q + sent_in es) (happens i es t)
  happens-Balanced i a z q [] t h s = subst (λ k. Balanced i a z k t) (omega arith) s
  happens-Balanced i a z q (sending d ∷ es) t h s =
      subst (λ k. Balanced i a z k (happens i es (happen i (sending d) t))) (omega arith)
        (happens-Balanced i a z (q + 1) es _ (omega arith)
          (sending-Balanced i a z q d t (omega arith) s))
  happens-Balanced i a z q (receiving ∷ es) t h s =
      happens-Balanced i a z q es _ h (receives_all i a z q t (omega arith) s).0
  happens-Balanced i a z q (asking ∷ es) t h s =
      happens-Balanced i a z q es _ h (asking-Balanced i a z q t s)

  abbrev pub tally : Bus W → Tally W
  tally b = record { bus = b; delivered = 0; reported = 0 }

  -- For a subscription that has not seen more than was sent, while the counters fit in 32 bits:
  -- after any samples sent, receiving and questions for the lost count, and one more receive, what
  -- was delivered, what was reported as lost and what is still counted as lost add up to the count of
  -- lost messages before, the messages not seen before, and the messages sent.
  pub nothing_unaccounted :
      (i : ℕ) (es : List Event) (b : Bus W)
      → seen (b.subs i).cb ≤ b.topic.seq
      → missed (b.subs i).cb + b.topic.seq + sent_in es < u32_range
      → (let t = happen i receiving (happens i es (tally b)) in
          t.delivered + t.reported + missed (t.bus.subs i).cb)
        ≡ missed (b.subs i).cb + (b.topic.seq - seen (b.subs i).cb) + sent_in es
  nothing_unaccounted i es b h k =
      let start : Balanced i (seen (b.subs i).cb) (missed (b.subs i).cb) b.topic.seq (tally b) =
        record { sent = refl; behind = h; balance = omega arith } in
      let r =
        receives_all i (seen (b.subs i).cb) (missed (b.subs i).cb) (b.topic.seq + sent_in es)
          (happens i es (tally b)) (omega arith)
          (happens-Balanced i (seen (b.subs i).cb) (missed (b.subs i).cb) b.topic.seq es (tally b) k
            start) in
      omega (arith, r.1, r.0.balance)

  -- For a subscription that has seen all that was sent, on a valid topic, while the counters fit in
  -- 32 bits: after one publish by a publication that has not advertised yet, and one receive, one more
  -- message is counted as lost.
  pub first_publish_counts :
      (i n : ℕ) (d : List ℕ) (b : Bus W)
      → IsValid b
      → length d ≡ b.topic.size
      → seen (b.subs i).cb ≡ b.topic.seq
      → missed (b.subs i).cb + b.topic.seq + 2 < u32_range
      → (missed_count i (try_recv i (publish d (new_publication n) b).bus).0).1
        ≡ missed (b.subs i).cb + 1
  unfolding publish publish_loaded ensure_advertised
  first_publish_counts i n d b v e h k =
      let b1 = (send_sample d b).0 in
      let b2 = (send_sample d b1).0 in
      let t = send_sample_lem d i b v e (omega arith) in
      let t' = send_sample_lem d i b1 t.valid (e ∙ sym t.same_size) (omega (arith, t.seq)) in
      let r = try_recv_lem i b2 in
      let l = take_lost_lem i (try_recv i b2).0 ((try_recv i b2).0.subs i).cb refl in
      let y =
        lt→ltb (seen (b2.subs i).cb) b2.topic.seq
          (omega (arith, t.seq, t'.seq, ap seen t.same_cb, ap seen t'.same_cb)) in
      l.0
      ∙ (r.misses
          ∙ (if-true _ _ y
              ∙ (add_lost_lem _ _ (
                    omega (
                      arith,
                      t.seq,
                      t'.seq,
                      ap seen t.same_cb,
                      ap seen t'.same_cb,
                      ap missed t.same_cb,
                      ap missed t'.same_cb,
                    ))
                  ∙ omega (
                    arith,
                    t.seq,
                    t'.seq,
                    ap seen t.same_cb,
                    ap seen t'.same_cb,
                    ap missed t.same_cb,
                    ap missed t'.same_cb,
                  ))))
