-- ===== src/Codegen/Resolver/Cached.antt =====
-- A resolver with a cache answers as one without.
use mathlib.Core.Path.{subst}
use px4_rs.Prelude.{
  ℕ, zero, suc, ◌+◌, ◌≡◌, ◌<◌, ltb, Bool, true, false, Option, none, some, List, [], ◌∷◌,
  if◌then◌else◌, arith, refl, Bool-cases, inl, inr, ap, ap₂, ◌∙◌, sym,
}
use px4_rs.Text.{equal}
use px4_rs.Codegen.{
  Field, FieldType, LaidOutField, Result, ok, unresolved, too_deep, scalar, scalar_array, nested,
  nested_array, is_nested, align_gap, align_to, sort, close, and_then, field_total_size, place_one,
  place, layout, found, size_by_name,
}
use px4_rs.Codegen.Depth.{NestsOnly, AllNest, AllNest-map, sort-AllNest, Ranked}
use px4_rs.Codegen.Resolver.{
  Cache, cached_size, Run, then_with, place_one_with, total_size_with, place_with, layout_with,
  or_cached, found_with, by_name_with, calls_with,
}
use px4_rs.Text.Words.{equal_sound}
use px4_rs.Codegen.Resolver.Fuel.{Names, layout_same, fuel_same}

total_of_close :
    (p : Result Names (List (LaidOutField Names) × ℕ × ℕ))
    → and_then p (λ r. ok (close r).total)
      ≡ and_then (and_then p (λ r. ok (close r))) (λ l. ok l.total)
total_of_close (ok r) = refl
total_of_close (unresolved n) = refl
total_of_close too_deep = refl

-- Every name has a rank below the fuel.
abbrev pub AllBelow : (Names → ℕ) → ℕ → List Names → Type 0
AllBelow rank fuel [] = Unit
AllBelow rank fuel (n ∷ ns) = (rank n < fuel) × AllBelow rank fuel ns

-- The answers without a cache.
abbrev pub direct_calls :
    (Names → Option (List (Field Names))) → ℕ → List Names → List (Result Names ℕ)
direct_calls files fuel [] = []
direct_calls files fuel (n ∷ ns) = size_by_name files fuel n ∷ direct_calls files fuel ns

module _ (files : Names → Option (List (Field Names))) (rank : Names → ℕ)
    (ranked : Ranked files rank) where
  -- The size of a message, found without a cache.
  abbrev direct : Names → Result Names ℕ
  direct n = size_by_name files (suc (rank n)) n

  -- Each entry of the cache is the size found without one.
  abbrev Good : Cache → Type 0
  Good [] = Unit
  Good ((n, k) ∷ c) = (direct n ≡ ok k) × Good c

  abbrev Agrees : {A : Type 0} → Run A → Result Names A → Type 0
  Agrees r s = (r.0 ≡ s) × Good r.1

  then_with-Agrees :
      {A B : Type 0} (r : Run A) (s : Result Names A) (f : A → Cache → Run B)
      (g : A → Result Names B)
      → Agrees r s
      → ((a : A) (c : Cache) → s ≡ ok a → Good c → Agrees (f a c) (g a))
      → Agrees (then_with r f) (and_then s g)
  then_with-Agrees (ok a, c) s f g (e, good) h =
      subst (λ x. Agrees (f a c) (and_then x g)) e (h a c (sym e) good)
  then_with-Agrees (unresolved n, c) s f g (e, good) h = (ap (λ x. and_then x g) e, good)
  then_with-Agrees (too_deep, c) s f g (e, good) h = (ap (λ x. and_then x g) e, good)

  if-Agrees :
      {A : Type 0} (b : Bool) (r r' : Run A) (s s' : Result Names A)
      → Agrees r s
      → Agrees r' s'
      → Agrees (if b then r else r') (if b then s else s')
  if-Agrees true r r' s s' h k = h
  if-Agrees false r r' s s' h k = k

  module _ (size_with : Names → Cache → Run ℕ) where
    abbrev Follows : Names → Type 0
    Follows m = (c : Cache) → Good c → Agrees (size_with m c) (direct m)

    total-Agrees :
        (t : FieldType Names) (c : Cache)
        → NestsOnly Follows t
        → Good c
        → Agrees (total_size_with size_with t c) (field_total_size direct t)
    total-Agrees (scalar s) c h good = (refl, good)
    total-Agrees (scalar_array s n) c h good = (refl, good)
    total-Agrees (nested m) c h good = h c good
    total-Agrees (nested_array m n) c h good =
        then_with-Agrees (size_with m c) (direct m) _ _ (h c good) (λ k c' e good'. (refl, good'))

    place_one-Agrees :
        (f : Field Names) (pos idx k : ℕ) (c : Cache)
        (rest_with : ℕ → ℕ → Cache → Run (List (LaidOutField Names) × ℕ × ℕ))
        (rest : ℕ → ℕ → Result Names (List (LaidOutField Names) × ℕ × ℕ))
        → ((p i : ℕ) → Agrees (rest_with p i c) (rest p i))
        → Agrees (place_one_with f pos idx k rest_with c) (place_one f pos idx k rest)
    place_one-Agrees f pos idx k c rest_with rest h =
        let n : ℕ = if is_nested f.ty then align_gap pos align_to else 0 in
        if-Agrees (ltb 0 n) _ _ _ _
          (then_with-Agrees (rest_with (pos + n + k) (idx + 1) c) (rest (pos + n + k) (idx + 1)) _ _
            (h (pos + n + k) (idx + 1)) (λ r c' e good. (refl, good)))
          (then_with-Agrees (rest_with (pos + k) idx c) (rest (pos + k) idx) _ _ (h (pos + k) idx)
            (λ r c' e good. (refl, good)))

    place-Agrees :
        (fs : List (Field Names)) (pos idx : ℕ) (c : Cache)
        → AllNest Follows fs
        → Good c
        → Agrees (place_with size_with fs pos idx c) (place direct fs pos idx)
    unfolding place_with place
    place-Agrees [] pos idx c h good = (refl, good)
    place-Agrees (f ∷ fs) pos idx c (h, hs) good =
        then_with-Agrees (total_size_with size_with f.ty c) (field_total_size direct f.ty) _ _
          (total-Agrees f.ty c h good)
          (λ k c' e good'.
            place_one-Agrees f pos idx k c' (place_with size_with fs) (place direct fs)
              (λ p i. place-Agrees fs p i c' hs good'))

    layout-Agrees :
        (n : Names) (fs : List (Field Names)) (c : Cache)
        → AllNest Follows fs
        → Good c
        → ((k : ℕ) → and_then (layout direct fs) (λ l. ok l.total) ≡ ok k → direct n ≡ ok k)
        → Agrees (layout_with size_with n fs c) (and_then (layout direct fs) (λ l. ok l.total))
    unfolding layout_with layout
    layout-Agrees n fs c h good own =
        let p : Result Names (List (LaidOutField Names) × ℕ × ℕ) = place direct (sort fs) 0 0 in
        subst (Agrees (layout_with size_with n fs c)) (total_of_close p) (
          then_with-Agrees (place_with size_with (sort fs) 0 0 c) p _ (λ r. ok (close r).total)
            (place-Agrees (sort fs) 0 0 c (sort-AllNest Follows fs h) good)
            (λ r c' e good'. (
              refl,
              (
                own (close r).total
                    (ap (λ q. and_then (and_then q (λ x. ok (close x))) (λ l. ok l.total)) e),
                good',
              ),
            )))

  direct_lem :
      (n : Names) (fs : List (Field Names))
      → files n ≡ some fs
      → direct n ≡ and_then (layout direct fs) (λ l. ok l.total)
  unfolding size_by_name
  direct_lem n fs e =
      ap
        (λ o.
          found n o (λ gs. and_then (layout (size_by_name files (rank n)) gs) (λ l. ok l.total)))
        e
      ∙ ap (λ r. and_then r (λ l. ok l.total))
          (layout_same files rank ranked (size_by_name files (rank n)) direct n fs e
            (λ m l. fuel_same files rank ranked (rank n) (suc (rank m)) m l (omega arith)))

  direct_missing : (n : Names) → files n ≡ none → direct n ≡ unresolved n
  unfolding size_by_name
  direct_missing n e =
      ap
        (λ o.
          found n o (λ gs. and_then (layout (size_by_name files (rank n)) gs) (λ l. ok l.total)))
        e

  cached-Good :
      (n : Names) (k : ℕ) (c : Cache) → Good c → cached_size n c ≡ some k → direct n ≡ ok k
  unfolding cached_size
  cached-Good n k [] good e = absurd (cc)
  cached-Good n k ((m, j) ∷ c) (h, good) e = elim (Bool-cases (equal n m)) [
    | inl same ↦ ap direct (equal_sound n m same) ∙ h ∙ ap ok (ground (arith, same))
    | inr other ↦ cached-Good n k c good (ground (arith, other))
  ]

  by_name-Agrees :
      (fuel : ℕ) (n : Names) (c : Cache)
      → rank n < fuel
      → Good c
      → Agrees (by_name_with files fuel n c) (direct n)
  unfolding by_name_with
  by_name-Agrees zero n c l good = absurd (omega arith)
  by_name-Agrees (suc fuel) n c l good =
      cached-Agrees (cached_size n c) refl (found-Agrees (files n) refl (by_name-Agrees fuel))
    where
      found-Agrees :
          (o : Option (List (Field Names)))
          → files n ≡ o
          → ((m : Names) (c' : Cache)
              → rank m < fuel
              → Good c'
              → Agrees (by_name_with files fuel m c') (direct m))
          → Agrees (found_with n o c (layout_with (by_name_with files fuel) n)) (direct n)
      found-Agrees none e h = (sym (direct_missing n e), good)
      found-Agrees (some fs) e h =
          subst (Agrees (layout_with (by_name_with files fuel) n fs c)) (sym (direct_lem n fs e)) (
            layout-Agrees (by_name_with files fuel) n fs c
              (AllNest-map (λ m. rank m < rank n) (Follows (by_name_with files fuel)) fs
                (λ m k c' good'. h m c' (omega arith) good') (ranked n fs e))
              good (λ k d. direct_lem n fs e ∙ d))

      cached-Agrees :
          (o : Option ℕ)
          → cached_size n c ≡ o
          → Agrees (found_with n (files n) c (layout_with (by_name_with files fuel) n)) (direct n)
          → Agrees
              (or_cached o c
                (λ c'. found_with n (files n) c' (layout_with (by_name_with files fuel) n)))
              (direct n)
      cached-Agrees none e h = h
      cached-Agrees (some k) e h = (sym (cached-Good n k c good e), good)

  calls-Good :
      (fuel : ℕ) (ns : List Names) (c : Cache)
      → AllBelow rank fuel ns
      → Good c
      → calls_with files fuel ns c ≡ direct_calls files fuel ns
  unfolding calls_with
  calls-Good fuel [] c h good = refl
  calls-Good fuel (n ∷ ns) c (l, h) good =
      let agrees = by_name-Agrees fuel n c l good in
      ap₂ (λ r rs. r ∷ rs)
        (agrees.0 ∙ fuel_same files rank ranked (suc (rank n)) fuel n (omega arith) l)
        (calls-Good fuel ns (by_name_with files fuel n c).1 h agrees.1)

  -- If each message nests only messages of lower rank, then any calls of one new resolver, one after
  -- the other with its cache, for messages of a rank below the fuel, answer each what a resolver
  -- without a cache answers.
  pub cached_same :
      (fuel : ℕ) (ns : List Names)
      → AllBelow rank fuel ns
      → calls_with files fuel ns [] ≡ direct_calls files fuel ns
  cached_same fuel ns h = calls-Good fuel ns [] h tt
