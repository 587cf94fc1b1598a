-- ===== src/Uorb/Racing/Ends.antt =====
-- A thread that is given its turns returns, whatever the others do.
use px4_rs.Prelude.{ℕ, zero, suc, ◌+◌, ◌-◌, ◌≤◌, ◌==◌, if◌then◌else◌, List, [], ◌∷◌, arith}
use px4_rs.Uorb.Racing.{
  Stage, starting, advertising, exchanging, losing, loading, sending, returned, swapping, releasing,
  unadvertised, Store, take_turn, turn, race,
}

-- An upper bound on the turns that a thread has left.
abbrev pub turns_left : Stage → ℕ
turns_left (starting d) = 6
turns_left (advertising d) = 5
turns_left (exchanging d) = 4
turns_left (losing d) = 3
turns_left (loading d k) = 2
turns_left (sending d k) = 1
turns_left (returned r k) = 0
turns_left swapping = 2
turns_left releasing = 1
turns_left unadvertised = 0

abbrev pub left_at : ℕ → List Stage → ℕ
left_at i [] = 0
left_at zero (p ∷ ps) = turns_left p
left_at (suc i) (p ∷ ps) = left_at i ps

-- How often a schedule names a thread.
abbrev pub count : ℕ → List ℕ → ℕ
count i [] = 0
count i (j ∷ js) = (if i == j then 1 else 0) + count i js

module _ {W : Type 0} where
  take_turn_left : (p : Stage) (s : Store W) → turns_left (take_turn p s).0 ≤ turns_left p - 1
  unfolding take_turn
  take_turn_left (starting d) s = ground arith
  take_turn_left (advertising d) s = ground arith
  take_turn_left (exchanging d) s = ground arith
  take_turn_left (losing d) s = ground arith
  take_turn_left (loading d k) s = ground arith
  take_turn_left (sending d k) s = ground arith
  take_turn_left (returned o k) s = ground arith
  take_turn_left swapping s = ground arith
  take_turn_left releasing s = ground arith
  take_turn_left unadvertised s = ground arith

  turn_left :
      (i j : ℕ) (ps : List Stage) (s : Store W)
      → left_at i (turn j ps s).threads ≤ left_at i ps - (if i == j then 1 else 0)
  unfolding turn
  turn_left i j [] s = omega arith
  turn_left zero zero (p ∷ ps) s = take_turn_left p s
  turn_left zero (suc j) (p ∷ ps) s = ground arith
  turn_left (suc i) zero (p ∷ ps) s = ground arith
  turn_left (suc i) (suc j) (p ∷ ps) s = ground (arith, turn_left i j ps s)

  -- A thread has at most the turns left that it had, less those that it was given.
  pub race_left :
      (i : ℕ) (is : List ℕ) (ps : List Stage) (s : Store W)
      → left_at i (race is ps s).threads ≤ left_at i ps - count i is
  unfolding race
  race_left i [] ps s = omega arith
  race_left i (j ∷ js) ps s =
      let t = turn j ps s in ground (arith, turn_left i j ps s, race_left i js t.threads t.store)
