-- ===== src/Codegen/Resolver/Fuel.antt =====
-- Without a cache, fuel above the rank of a message makes no difference to its size.
use px4_rs.Prelude.{ℕ, zero, suc, ◌*◌, ◌≡◌, ◌<◌, Option, none, some, List, [], ◌∷◌, arith, refl, ap}
use px4_rs.Codegen.{
  Field, FieldType, Result, ok, scalar, scalar_array, nested, nested_array, sort, close, and_then,
  field_total_size, place_one, place, layout, found, size_by_name,
}
use px4_rs.Codegen.Depth.{NestsOnly, AllNest, AllNest-map, sort-AllNest, Ranked}

abbrev pub Names : Type 0
Names = List ℕ

-- Sizes that agree on the nested messages give the same layout.
module _ (f g : Names → Result Names ℕ) where
  total_same :
      (t : FieldType Names)
      → NestsOnly (λ m. f m ≡ g m) t
      → field_total_size f t ≡ field_total_size g t
  total_same (scalar s) h = refl
  total_same (scalar_array s n) h = refl
  total_same (nested m) h = h
  total_same (nested_array m n) h = ap (λ r. and_then r (λ k. ok (k * n))) h

  place_same : (fs : List (Field Names)) → AllNest (λ m. f m ≡ g m) fs → place f fs ≡ place g fs
  unfolding place
  place_same [] h = refl
  place_same (x ∷ fs) (h, hs) =
      λ i pos idx. and_then (total_same x.ty h i) (λ k. place_one x pos idx k (place_same fs hs i))

module _ (files : Names → Option (List (Field Names))) (rank : Names → ℕ)
    (ranked : Ranked files rank) where
  pub layout_same :
      (f g : Names → Result Names ℕ) (n : Names) (fs : List (Field Names))
      → files n ≡ some fs
      → ((m : Names) → rank m < rank n → f m ≡ g m)
      → layout f fs ≡ layout g fs
  unfolding layout
  layout_same f g n fs e h =
      ap (λ p. and_then (p 0 0) (λ r. ok (close r)))
        (place_same f g (sort fs) (
          sort-AllNest (λ m. f m ≡ g m) fs
            (AllNest-map (λ m. rank m < rank n) (λ m. f m ≡ g m) fs h (ranked n fs e))))

  pub found_same :
      (n : Names) (o : Option (List (Field Names))) (j k : List (Field Names) → Result Names ℕ)
      → ((fs : List (Field Names)) → o ≡ some fs → j fs ≡ k fs)
      → found n o j ≡ found n o k
  found_same n none j k h = refl
  found_same n (some fs) j k h = h fs refl

  -- Fuel above the rank makes no difference.
  pub fuel_same :
      (a b : ℕ) (n : Names)
      → rank n < a
      → rank n < b
      → size_by_name files a n ≡ size_by_name files b n
  unfolding size_by_name
  fuel_same zero b n p q = absurd (omega arith)
  fuel_same (suc a) zero n p q = absurd (omega arith)
  fuel_same (suc a) (suc b) n p q = found_same n (files n) _ _ (λ fs e.
      ap (λ r. and_then r (λ l. ok l.total))
        (layout_same (size_by_name files a) (size_by_name files b) n fs e
          (λ m l. fuel_same a b m (omega arith) (omega arith))))
