-- ===== src/Uorb/Racing/Shares.antt =====
-- Every share of the topic that `advertise` leaks is owned by the publication or by one thread.
use px4_rs.Prelude.{ℕ, zero, suc, ◌+◌, ◌≡◌, Bool, true, false, List, [], ◌∷◌, arith}
use px4_rs.Uorb.Racing.{
  Stage, starting, advertising, exchanging, losing, loading, sending, returned, swapping, releasing,
  unadvertised, Store, take_turn, turn, race,
}

-- The shares that a thread owns.
abbrev pub owns : Stage → ℕ
owns (exchanging d) = 1
owns (losing d) = 1
owns releasing = 1
owns p = 0

abbrev pub owned : List Stage → ℕ
owned [] = 0
owned (p ∷ ps) = owns p + owned ps

abbrev pub flag : Bool → ℕ
flag true = 1
flag false = 0

module _ {W : Type 0} where
  take_turn-shares :
      (p : Stage) (s : Store W) (r : ℕ)
      → s.shares ≡ flag s.handle + (owns p + r)
      → (let (p', s') = take_turn p s in s'.shares ≡ flag s'.handle + (owns p' + r))
  unfolding take_turn
  take_turn-shares (starting d) s r h = ground arith
  take_turn-shares (advertising d) s r h = ground arith
  take_turn-shares (exchanging d) s r h = ground arith
  take_turn-shares (losing d) s r h = ground arith
  take_turn-shares (loading d k) s r h = ground arith
  take_turn-shares (sending d k) s r h = ground arith
  take_turn-shares (returned o k) s r h = ground arith
  take_turn-shares swapping s r h = ground arith
  take_turn-shares releasing s r h = ground arith
  take_turn-shares unadvertised s r h = ground arith

  turn-shares :
      (i : ℕ) (ps : List Stage) (s : Store W) (r : ℕ)
      → s.shares ≡ flag s.handle + (owned ps + r)
      → (let t = turn i ps s in t.store.shares ≡ flag t.store.handle + (owned t.threads + r))
  unfolding turn
  turn-shares i [] s r h = h
  turn-shares zero (p ∷ ps) s r h = omega (arith, take_turn-shares p s (owned ps + r) (omega arith))
  turn-shares (suc i) (p ∷ ps) s r h = omega (arith, turn-shares i ps s (owns p + r) (omega arith))

  -- If at first the shares are those of the publication and of the threads, so they are after any
  -- turns of threads that publish and unadvertise: none is leaked or given back twice.
  pub race-shares :
      (is : List ℕ) (ps : List Stage) (s : Store W)
      → s.shares ≡ flag s.handle + owned ps
      → (let t = race is ps s in t.store.shares ≡ flag t.store.handle + owned t.threads)
  unfolding race
  race-shares [] ps s h = h
  race-shares (i ∷ is) ps s h =
      let t = turn i ps s in
      race-shares is t.threads t.store (omega (arith, turn-shares i ps s 0 (omega arith)))
