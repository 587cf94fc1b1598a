-- ===== src/Log/Args/Iteration.antt =====
-- The iteration over the arguments.
use mathlib.Core.Path.{subst}
use px4_rs.Prelude.{
  ℕ, zero, suc, ◌+◌, ◌≤◌, ◌<◌, ◌≡◌, leb, Option, none, some, List, [], ◌∷◌, get_elem?, take, drop,
  length, arith, refl, sym, ap, ◌∙◌, if-holds, if-false, leb→le, length-take,
}
use px4_rs.Log.Args.{Args, arg_count, slots, join, get, found_or, next, collect}

-- The arguments that are not null.
abbrev pub somes : List (Option (List ℕ)) → List (List ℕ)
somes [] = []
somes (none ∷ os) = somes os
somes (some s ∷ os) = s ∷ somes os

abbrev head_of : List (List ℕ) → Option (List ℕ)
head_of [] = none
head_of (s ∷ ss) = some s

abbrev tail_of : List (List ℕ) → List (List ℕ)
tail_of [] = []
tail_of (s ∷ ss) = ss

length-somes : (os : List (Option (List ℕ))) → length (somes os) ≤ length os
length-somes [] = omega arith
length-somes (none ∷ os) = omega (arith, length-somes os)
length-somes (some s ∷ os) = omega (arith, length-somes os)

nil_lem : (ss : List (List ℕ)) → length ss ≤ 0 → [] ≡ ss
nil_lem [] h = refl
nil_lem (s ∷ ss) h = absurd (omega arith)

length-tail_of : (n : ℕ) (ss : List (List ℕ)) → length ss ≤ suc n → length (tail_of ss) ≤ n
length-tail_of n [] h = omega arith
length-tail_of n (s ∷ ss) h = omega arith

assemble :
    (o : Option (List ℕ)) (ss rest : List (List ℕ))
    → o ≡ head_of ss
    → rest ≡ tail_of ss
    → elim o [ none ↦ [] | some s ↦ s ∷ rest ] ≡ ss
assemble none [] rest e f = refl
assemble none (x ∷ ss) rest e f = absurd (ground arith)
assemble (some s) [] rest e f = absurd (ground arith)
assemble (some s) (x ∷ ss) rest e f = ground arith

drop_past : (i : ℕ) (xs : List (Option (List ℕ))) → length xs ≤ i → drop i xs ≡ []
drop_past zero [] h = refl
drop_past zero (x ∷ xs) h = absurd (omega arith)
drop_past (suc i) [] h = refl
drop_past (suc i) (x ∷ xs) h = drop_past i xs (omega arith)

-- The element at `i` is the first after `i` are dropped.
drop_step :
    (i n : ℕ) (xs : List (Option (List ℕ)))
    → i < length (take n xs)
    → drop i (take n xs) ≡ join (get_elem? xs i) ∷ drop (suc i) (take n xs)
drop_step i zero xs h = absurd (omega arith)
drop_step i (suc n) [] h = absurd (omega arith)
drop_step zero (suc n) (x ∷ xs) h = refl
drop_step (suc i) (suc n) (x ∷ xs) h = drop_step i n xs (omega arith)

module _ (a : Args) (enough : arg_count a ≤ length (slots a.argv)) where
  abbrev args_from : ℕ → List (Option (List ℕ))
  args_from i = drop i (take (arg_count a) (slots a.argv))

  count_lem : length (take (arg_count a) (slots a.argv)) ≡ arg_count a
  count_lem = omega (arith, enough, length-take (arg_count a) (slots a.argv))

  abbrev IsNext : (os : List (Option (List ℕ))) → Option (List ℕ) × ℕ → Type 0
  IsNext os r = (r.0 ≡ head_of (somes os)) × (somes (args_from r.1) ≡ tail_of (somes os))

  found_case :
      (o : Option (List ℕ)) (i : ℕ) (r : Option (List ℕ) × ℕ)
      → IsNext (args_from (suc i)) r
      → IsNext (o ∷ args_from (suc i)) (found_or o (suc i) r)
  found_case none i r n = n
  found_case (some s) i r n = (refl, refl)

  past-IsNext : (i : ℕ) → arg_count a ≤ i → IsNext (args_from i) (none, i)
  past-IsNext i h =
      let e = drop_past i (take (arg_count a) (slots a.argv)) (omega (arith, count_lem)) in
      (sym (ap (λ os. head_of (somes os)) e), ap somes e ∙ sym (ap (λ os. tail_of (somes os)) e))

  next-IsNext : (fuel i : ℕ) → arg_count a ≤ i + fuel → IsNext (args_from i) (next fuel a i)
  unfolding next
  next-IsNext zero i h = past-IsNext i (omega arith)
  next-IsNext (suc fuel) i h =
      if-holds (IsNext (args_from i)) (leb (arg_count a) i) (λ y. past-IsNext i (leb→le _ _ y))
        (λ y.
          let e = drop_step i (arg_count a) (slots a.argv) (ground (arith, count_lem, y)) in
          let g : get a i ≡ join (get_elem? (slots a.argv) i) = if-false _ _ y in
          subst (λ os. IsNext os (found_or (get a i) (suc i) (next fuel a (suc i))))
            (ap (λ o. o ∷ args_from (suc i)) g ∙ sym e)
            (found_case (get a i) i (next fuel a (suc i)) (next-IsNext fuel (suc i) (omega arith))))

  collect_lem :
      (fuel i : ℕ) → length (somes (args_from i)) ≤ fuel → collect fuel a i ≡ somes (args_from i)
  unfolding collect
  collect_lem zero i h = nil_lem (somes (args_from i)) h
  collect_lem (suc fuel) i h =
      let n = next-IsNext (arg_count a) i (omega arith) in
      let j = (next (arg_count a) a i).1 in
      let l = ap length n.1 in
      assemble (next (arg_count a) a i).0 (somes (args_from i)) (collect fuel a j) n.0
        (collect_lem fuel j (omega (arith, l, length-tail_of fuel (somes (args_from i)) h)) ∙ n.1)

-- If there are as many slots as `argc` says, an iteration ends after at most that many arguments, and
-- yields those of the first `argc` slots that are not null, in order.
pub collect_all :
    (a : Args) (fuel : ℕ)
    → arg_count a ≤ length (slots a.argv)
    → arg_count a ≤ fuel
    → collect fuel a 0 ≡ somes (take (arg_count a) (slots a.argv))
collect_all a fuel h k =
    collect_lem a h fuel 0
      (omega (arith, k, count_lem a h, length-somes (take (arg_count a) (slots a.argv))))
