-- ===== src/Uorb/Racing/First.antt =====
-- Threads that publish at once through a new publication, or through one that has advertised.
use native.Mathlib.Decide.{dec_lt}
use mathlib.Core.Path.{subst}
use px4_rs.Prelude.{
  ℕ, zero, suc, ◌+◌, ◌%◌, ◌≤◌, ◌<◌, ◌≡◌, ◌⊎◌, inl, inr, refl, ap, Bool, true, if◌then◌else◌, some,
  List, [], ◌∷◌, length, replicate, arith,
}
use px4_rs.Uorb.Broker.{Bus, send_sample, u64_range}
use px4_rs.Uorb.Client.{ok}
use px4_rs.Uorb.Racing.{
  Stage, starting, advertising, exchanging, losing, loading, sending, returned, swapping, releasing,
  unadvertised, Store, take_turn, turn, race, publishers, open_store,
}
use px4_rs.Uorb.Racing.Shares.{flag, owned, race-shares}
use px4_rs.Uorb.Racing.Ends.{left_at, count, race_left}
use px4_rs.Uorb.Racing.Counts.{
  sent, extra, sum, outcomes, AllFine, publishers-AllFine, race-AllFine,
}

module _ {W : Type 0} where
  -- The samples sent and the extra ones, in one turn, beside `r` of the other threads.
  take_turn-seq :
      (p : Stage) (s : Store W) (q r : ℕ)
      → s.bus.topic.seq ≡ (q + (sent p + r)) % u64_range
      → (let (p', s') = take_turn p s in s'.bus.topic.seq ≡ (q + (sent p' + r)) % u64_range)
  unfolding take_turn send_sample
  take_turn-seq (starting d) s q r e = ground arith
  take_turn-seq (advertising d) s q r e = ground arith
  take_turn-seq (exchanging d) s q r e = ground arith
  take_turn-seq (losing d) s q r e = ground arith
  take_turn-seq (loading d k) s q r e = ground arith
  take_turn-seq (sending d k) s q r e = ground arith
  take_turn-seq (returned o k) s q r e = ground arith
  take_turn-seq swapping s q r e = ground arith
  take_turn-seq releasing s q r e = ground arith
  take_turn-seq unadvertised s q r e = ground arith

  take_turn-extra :
      (o : Bool) (p : Stage) (s : Store W) (r : ℕ)
      → flag s.handle ≤ flag o + (extra p + r)
      → (let (p', s') = take_turn p s in flag s'.handle ≤ flag o + (extra p' + r))
  unfolding take_turn
  take_turn-extra o (starting d) s r e = ground arith
  take_turn-extra o (advertising d) s r e = ground arith
  take_turn-extra o (exchanging d) s r e = ground arith
  take_turn-extra o (losing d) s r e = ground arith
  take_turn-extra o (loading d k) s r e = ground arith
  take_turn-extra o (sending d k) s r e = ground arith
  take_turn-extra o (returned x k) s r e = ground arith
  take_turn-extra o swapping s r e = ground arith
  take_turn-extra o releasing s r e = ground arith
  take_turn-extra o unadvertised s r e = ground arith

  turn-seq :
      (i : ℕ) (ps : List Stage) (s : Store W) (q r : ℕ)
      → s.bus.topic.seq ≡ (q + (sum sent ps + r)) % u64_range
      → (let t = turn i ps s in t.store.bus.topic.seq ≡ (q + (sum sent t.threads + r)) % u64_range)
  unfolding turn
  turn-seq i [] s q r e = e
  turn-seq zero (p ∷ ps) s q r e =
      omega (arith, take_turn-seq p s q (sum sent ps + r) (omega arith))
  turn-seq (suc i) (p ∷ ps) s q r e = omega (arith, turn-seq i ps s q (sent p + r) (omega arith))

  turn-extra :
      (o : Bool) (i : ℕ) (ps : List Stage) (s : Store W) (r : ℕ)
      → flag s.handle ≤ flag o + (sum extra ps + r)
      → (let t = turn i ps s in flag t.store.handle ≤ flag o + (sum extra t.threads + r))
  unfolding turn
  turn-extra o i [] s r e = e
  turn-extra o zero (p ∷ ps) s r e =
      omega (arith, take_turn-extra o p s (sum extra ps + r) (omega arith))
  turn-extra o (suc i) (p ∷ ps) s r e =
      omega (arith, turn-extra o i ps s (extra p + r) (omega arith))

  turn-length : (i : ℕ) (ps : List Stage) (s : Store W) → length (turn i ps s).threads ≡ length ps
  unfolding turn
  turn-length i [] s = refl
  turn-length zero (p ∷ ps) s = refl
  turn-length (suc i) (p ∷ ps) s = ap suc (turn-length i ps s)

  -- After the turns of a schedule: the sequence number, the handle and the number of threads.
  race-counts :
      (o : Bool) (is : List ℕ) (ps : List Stage) (s : Store W) (q : ℕ)
      → s.bus.topic.seq ≡ (q + (sum sent ps + 0)) % u64_range
      → flag s.handle ≤ flag o + (sum extra ps + 0)
      → (let t = race is ps s in
          (t.store.bus.topic.seq ≡ (q + (sum sent t.threads + 0)) % u64_range)
          × (flag t.store.handle ≤ flag o + (sum extra t.threads + 0))
          × (length t.threads ≡ length ps))
  unfolding race
  race-counts o [] ps s q e f = (e, f, refl)
  race-counts o (i ∷ is) ps s q e f =
      let t = turn i ps s in
      let (e', f', l) =
        race-counts o is t.threads t.store q (turn-seq i ps s q 0 e) (turn-extra o i ps s 0 f) in
      (e', f', omega (arith, l, turn-length i ps s))

-- What is left when no thread has a turn left.
record IsOver (o h : Bool) (ps : List Stage) : Type 0 where
  all_ok : outcomes ps ≡ replicate (length ps) (some ok)
  none_owned : owned ps ≡ 0
  once_more : sum sent ps ≡ length ps + sum extra ps
  few : sum extra ps ≤ (if o then 0 else length ps)
  advertised : length ps ≡ 0 ⊎ h ≡ true

fine-IsOver :
    (o h : Bool) (ps : List Stage) → AllFine o h ps → ((i : ℕ) → left_at i ps ≡ 0) → IsOver o h ps
fine-IsOver o h [] f e = record {
  all_ok = refl;
  none_owned = refl;
  once_more = refl;
  few = omega arith;
  advertised = inl refl;
}
fine-IsOver o h (returned r k ∷ ps) (f, fs) e =
    let over = fine-IsOver o h ps fs (λ i. e (suc i)) in
    record {
      all_ok = ground (arith, over.all_ok);
      none_owned = omega (arith, over.none_owned);
      once_more = omega (arith, over.once_more, f);
      few = ground (arith, over.few);
      advertised = inr f.3;
    }
fine-IsOver o h (starting d ∷ ps) f e = absurd (omega (arith, e 0))
fine-IsOver o h (advertising d ∷ ps) f e = absurd (omega (arith, e 0))
fine-IsOver o h (exchanging d ∷ ps) f e = absurd (omega (arith, e 0))
fine-IsOver o h (losing d ∷ ps) f e = absurd (omega (arith, e 0))
fine-IsOver o h (loading d k ∷ ps) f e = absurd (omega (arith, e 0))
fine-IsOver o h (sending d k ∷ ps) f e = absurd (omega (arith, e 0))
fine-IsOver o h (swapping ∷ ps) f e = absurd f.0
fine-IsOver o h (releasing ∷ ps) f e = absurd f.0
fine-IsOver o h (unadvertised ∷ ps) f e = absurd f.0

-- The start of the race.
start_left : (i : ℕ) (ds : List (List ℕ)) → left_at i (publishers ds) ≤ 6
start_left i [] = omega arith
start_left zero (d ∷ ds) = omega arith
start_left (suc i) (d ∷ ds) = start_left i ds

start_past : (i : ℕ) (ds : List (List ℕ)) → length ds ≤ i → left_at i (publishers ds) ≡ 0
start_past i [] h = refl
start_past zero (d ∷ ds) h = absurd (omega arith)
start_past (suc i) (d ∷ ds) h = start_past i ds (omega arith)

start_counts :
    (ds : List (List ℕ))
    → (owned (publishers ds) ≡ 0)
      × (sum sent (publishers ds) ≡ 0)
      × (sum extra (publishers ds) ≡ 0)
      × (length (publishers ds) ≡ length ds)
start_counts [] = (refl, refl, refl, refl)
start_counts (d ∷ ds) =
    let (a, b, c, l) = start_counts ds in
    (omega (arith, a), omega (arith, b), omega (arith, c), omega (arith, l))

module _ {W : Type 0} where
  race-IsOver :
      (h : Bool) (b : Bus W) (ds : List (List ℕ)) (is : List ℕ)
      → ((i : ℕ) → i < length ds → 6 ≤ count i is)
      → (let t = race is (publishers ds) (open_store h b) in IsOver h t.store.handle t.threads)
  race-IsOver h b ds is fair =
      let t = race is (publishers ds) (open_store h b) in
      fine-IsOver h t.store.handle t.threads
        (race-AllFine h is (publishers ds) (open_store h b) (publishers-AllFine h ds))
        (λ i. elim (dec_lt i (length ds)) [
          | yes l ↦
              omega
                (arith, race_left i is (publishers ds) (open_store h b), start_left i ds, fair i l)
          | no m ↦ omega (
            arith,
            race_left i is (publishers ds) (open_store h b),
            start_past i ds (omega arith),
          )
        ])

  -- If at least one thread publishes through a publication on a topic whose sequence number is below
  -- 2^64, by any schedule that gives each of them six turns, then all have returned `Ok`, the
  -- publication has its handle, and one share of the topic is left, its own. Modulo 2^64 one sample
  -- was counted for each thread, and if the publication had no handle at first, at least one more and
  -- at most one more for each.
  pub publishes_race :
      (h : Bool) (b : Bus W) (ds : List (List ℕ)) (is : List ℕ)
      → b.topic.seq < u64_range
      → 0 < length ds
      → ((i : ℕ) → i < length ds → 6 ≤ count i is)
      → (let t = race is (publishers ds) (open_store h b) in
          (outcomes t.threads ≡ replicate (length ds) (some ok))
          × (t.store.handle ≡ true)
          × (t.store.shares ≡ 1)
          × (m : ℕ) × (t.store.bus.topic.seq ≡ (b.topic.seq + (length ds + m)) % u64_range)
          × (if h then m ≡ 0 else (1 ≤ m) × (m ≤ length ds)))
  publishes_race h b ds is small some_one fair =
      let s = open_store h b in
      let t = race is (publishers ds) s in
      let over = race-IsOver h b ds is fair in
      let (none_owned, none_sent, no_extra, size) = start_counts ds in
      let shares = race-shares is (publishers ds) s (ground arith) in
      let (seq, found, size') =
        race-counts h is (publishers ds) s b.topic.seq (omega arith) (ground arith) in
      let l : length t.threads ≡ length ds = omega arith in
      let e : t.store.handle ≡ true = ground (arith, over.advertised) in
      (
        subst (λ (n : ℕ). outcomes t.threads ≡ replicate n (some ok)) l over.all_ok,
        e,
        ground (arith, over.none_owned),
        sum extra t.threads,
        omega (arith, over.once_more),
        ground (arith, over.few),
      )
