-- ===== src/Uorb/Racing/Settled.antt =====
-- When all calls have returned; and one call with no other beside it.
use native.Mathlib.Decide.{dec_lt}
use px4_rs.Prelude.{
  ℕ, zero, suc, ◌≤◌, ◌<◌, ◌≡◌, refl, Bool, some, List, [], ◌∷◌, length, replicate, arith,
}
use px4_rs.Uorb.Broker.{Bus}
use px4_rs.Uorb.Client.{Publication, publish, publish_loaded, ensure_advertised, unadvertise}
use px4_rs.Uorb.Racing.{
  Stage, starting, advertising, exchanging, losing, loading, sending, returned, swapping, releasing,
  unadvertised, take_turn, turn, race, open_store,
}
use px4_rs.Uorb.Racing.Shares.{flag, owned, race-shares}
use px4_rs.Uorb.Racing.Ends.{left_at, count, race_left}
use px4_rs.Uorb.Racing.Counts.{outcomes}

left_small : (i : ℕ) (ps : List Stage) → left_at i ps ≤ 6
left_small i [] = omega arith
left_small zero (starting d ∷ ps) = omega arith
left_small zero (advertising d ∷ ps) = omega arith
left_small zero (exchanging d ∷ ps) = omega arith
left_small zero (losing d ∷ ps) = omega arith
left_small zero (loading d k ∷ ps) = omega arith
left_small zero (sending d k ∷ ps) = omega arith
left_small zero (returned r k ∷ ps) = omega arith
left_small zero (swapping ∷ ps) = omega arith
left_small zero (releasing ∷ ps) = omega arith
left_small zero (unadvertised ∷ ps) = omega arith
left_small (suc i) (p ∷ ps) = left_small i ps

left_past : (i : ℕ) (ps : List Stage) → length ps ≤ i → left_at i ps ≡ 0
left_past i [] h = refl
left_past zero (p ∷ ps) h = absurd (omega arith)
left_past (suc i) (p ∷ ps) h = left_past i ps (omega arith)

none_owned : (ps : List Stage) → ((i : ℕ) → left_at i ps ≡ 0) → owned ps ≡ 0
none_owned [] e = refl
none_owned (exchanging d ∷ ps) e = absurd (omega (arith, e 0))
none_owned (losing d ∷ ps) e = absurd (omega (arith, e 0))
none_owned (releasing ∷ ps) e = absurd (omega (arith, e 0))
none_owned (starting d ∷ ps) e = omega (arith, none_owned ps (λ i. e (suc i)))
none_owned (advertising d ∷ ps) e = omega (arith, none_owned ps (λ i. e (suc i)))
none_owned (loading d k ∷ ps) e = omega (arith, none_owned ps (λ i. e (suc i)))
none_owned (sending d k ∷ ps) e = omega (arith, none_owned ps (λ i. e (suc i)))
none_owned (returned r k ∷ ps) e = omega (arith, none_owned ps (λ i. e (suc i)))
none_owned (swapping ∷ ps) e = omega (arith, none_owned ps (λ i. e (suc i)))
none_owned (unadvertised ∷ ps) e = omega (arith, none_owned ps (λ i. e (suc i)))

module _ {W : Type 0} where
  -- If threads that own no share publish through a publication and unadvertise it, and a schedule
  -- gives each of them six turns, then the shares left are one if the publication has a handle in the
  -- end and none otherwise: no share is leaked or given back twice, whoever wins.
  pub shares_settle :
      (h : Bool) (b : Bus W) (ps : List Stage) (is : List ℕ)
      → owned ps ≡ 0
      → ((i : ℕ) → i < length ps → 6 ≤ count i is)
      → (let t = race is ps (open_store h b) in t.store.shares ≡ flag t.store.handle)
  shares_settle h b ps is e fair =
      let s = open_store h b in
      let over = none_owned (race is ps s).threads (λ i. elim (dec_lt i (length ps)) [
        | yes l ↦ omega (arith, race_left i is ps s, left_small i ps, fair i l)
        | no m ↦ omega (arith, race_left i is ps s, left_past i ps (omega arith))
      ]) in
      let kept = race-shares is ps s (ground arith) in omega (arith, over, kept)

  -- A publish whose six turns no other thread interrupts leaves the handle, the bus and the wakers as
  -- the one step `publish` does, with its result; so does an `unadvertise` of two turns.
  pub alone_lem :
      (d : List ℕ) (p : Publication) (b : Bus W)
      → (let t = race (replicate 6 0) (starting d ∷ []) (open_store p.handle b) in
          let o = publish d p b in
          (outcomes t.threads ≡ some o.result ∷ [])
          × (t.store.handle ≡ o.publication.handle)
          × (t.store.bus ≡ o.bus)
          × (t.store.woke ≡ o.woke))
        × (let t = race (replicate 2 0) (swapping ∷ []) (open_store p.handle b) in
            (t.store.handle ≡ (unadvertise p).handle) × (t.store.bus ≡ b))
  unfolding race turn take_turn publish publish_loaded ensure_advertised
  alone_lem d p b = (ground arith, ground arith)
