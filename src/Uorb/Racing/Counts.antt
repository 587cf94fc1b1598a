-- ===== src/Uorb/Racing/Counts.antt =====
-- Threads that only publish: they never find the handle null again, and the sequence number counts
-- the samples that they have sent.
use px4_rs.Prelude.{
  ℕ, zero, suc, ◌+◌, ◌-◌, ◌≤◌, ◌≡◌, Bool, true, false, Option, none, some, List, [], ◌∷◌, arith,
}
use px4_rs.Uorb.Client.{Published, ok}
use px4_rs.Uorb.Racing.{
  Stage, starting, advertising, exchanging, losing, loading, sending, returned, swapping, releasing,
  unadvertised, Store, take_turn, turn, race, publishers,
}
use px4_rs.Uorb.Racing.Shares.{flag}

-- The samples that a thread has sent, and those of them that advertised.
abbrev pub sent : Stage → ℕ
sent (exchanging d) = 1
sent (losing d) = 1
sent (loading d k) = k
sent (sending d k) = k
sent (returned r k) = k
sent p = 0

abbrev pub extra : Stage → ℕ
extra (returned r k) = k - 1
extra (exchanging d) = 1
extra (losing d) = 1
extra (loading d k) = k
extra (sending d k) = k
extra p = 0

abbrev pub sum : (Stage → ℕ) → List Stage → ℕ
sum f [] = 0
sum f (p ∷ ps) = f p + sum f ps

abbrev pub outcome : Stage → Option Published
outcome (returned r k) = some r
outcome p = none

abbrev pub outcomes : List Stage → List (Option Published)
outcomes [] = []
outcomes (p ∷ ps) = outcome p ∷ outcomes ps

-- What holds of a publishing thread, where `o` and `h` say whether the publication had a handle at
-- first and whether it has one now.
abbrev pub IsFine : Bool → Bool → Stage → Type 0
IsFine o h (starting d) = flag o ≤ flag h
IsFine o h (advertising d) = o ≡ false
IsFine o h (exchanging d) = o ≡ false
IsFine o h (losing d) = (o ≡ false) × (h ≡ true)
IsFine o h (loading d k) = (k + flag o ≤ 1) × (h ≡ true)
IsFine o h (sending d k) = (k + flag o ≤ 1) × (h ≡ true)
IsFine o h (returned r k) = (r ≡ ok) × (1 ≤ k) × (k + flag o ≤ 2) × (h ≡ true)
IsFine o h swapping = ⊥
IsFine o h releasing = ⊥
IsFine o h unadvertised = ⊥

abbrev pub AllFine : Bool → Bool → List Stage → Type 0
AllFine o h [] = Unit
AllFine o h (p ∷ ps) = IsFine o h p × AllFine o h ps

IsFine-mono : (o h h' : Bool) (p : Stage) → flag h ≤ flag h' → IsFine o h p → IsFine o h' p
IsFine-mono o false false p m f = f
IsFine-mono o true true p m f = f
IsFine-mono o true false p m f = absurd (omega arith)
IsFine-mono o false true (starting d) m f = ground arith
IsFine-mono o false true (advertising d) m f = f
IsFine-mono o false true (exchanging d) m f = f
IsFine-mono o false true (losing d) m f = ground arith
IsFine-mono o false true (loading d k) m f = ground arith
IsFine-mono o false true (sending d k) m f = ground arith
IsFine-mono o false true (returned r k) m f = ground arith
IsFine-mono o false true swapping m f = absurd f
IsFine-mono o false true releasing m f = absurd f
IsFine-mono o false true unadvertised m f = absurd f

AllFine-mono :
    (o h h' : Bool) (ps : List Stage) → flag h ≤ flag h' → AllFine o h ps → AllFine o h' ps
AllFine-mono o h h' [] m f = tt
AllFine-mono o h h' (p ∷ ps) m f = (IsFine-mono o h h' p m f.0, AllFine-mono o h h' ps m f.1)

pub publishers-AllFine : (o : Bool) (ds : List (List ℕ)) → AllFine o o (publishers ds)
publishers-AllFine o [] = tt
publishers-AllFine o (d ∷ ds) = (omega arith, publishers-AllFine o ds)

module _ {W : Type 0} (o : Bool) where
  take_turn-IsFine :
      (p : Stage) (s : Store W)
      → IsFine o s.handle p
      → (let (p', s') = take_turn p s in IsFine o s'.handle p' × (flag s.handle ≤ flag s'.handle))
  unfolding take_turn
  take_turn-IsFine (starting d) s f = ground arith
  take_turn-IsFine (advertising d) s f = ground arith
  take_turn-IsFine (exchanging d) s f = ground arith
  take_turn-IsFine (losing d) s f = ground arith
  take_turn-IsFine (loading d k) s f = ground arith
  take_turn-IsFine (sending d k) s f = ground arith
  take_turn-IsFine (returned r k) s f = ground arith
  take_turn-IsFine swapping s f = absurd f
  take_turn-IsFine releasing s f = absurd f
  take_turn-IsFine unadvertised s f = absurd f

  turn-AllFine :
      (i : ℕ) (ps : List Stage) (s : Store W)
      → AllFine o s.handle ps
      → (let t = turn i ps s in
          AllFine o t.store.handle t.threads × (flag s.handle ≤ flag t.store.handle))
  unfolding turn
  turn-AllFine i [] s f = (tt, omega arith)
  turn-AllFine zero (p ∷ ps) s (f, fs) =
      let (g, m) = take_turn-IsFine p s f in
      ((g, AllFine-mono o s.handle (take_turn p s).1.handle ps m fs), m)
  turn-AllFine (suc i) (p ∷ ps) s (f, fs) =
      let (gs, m) = turn-AllFine i ps s fs in
      ((IsFine-mono o s.handle (turn i ps s).store.handle p m f, gs), m)

  pub race-AllFine :
      (is : List ℕ) (ps : List Stage) (s : Store W)
      → AllFine o s.handle ps
      → (let t = race is ps s in AllFine o t.store.handle t.threads)
  unfolding race
  race-AllFine [] ps s f = f
  race-AllFine (i ∷ is) ps s f =
      let t = turn i ps s in race-AllFine is t.threads t.store (turn-AllFine i ps s f).0
