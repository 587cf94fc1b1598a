-- ===== src/Codegen/Depth.antt =====
-- The recursion of the resolver over nested messages.
use px4_rs.Prelude.{
  ℕ, zero, suc, ◌≡◌, ◌<◌, ◌+◌, ◌*◌, ltb, leb, Bool, true, false, Option, none, some, List, [], ◌∷◌,
  if◌then◌else◌, arith, refl, if-holds,
}
use px4_rs.Codegen.{
  Field, FieldType, Result, LaidOutField, ok, unresolved, too_deep, scalar, scalar_array, nested,
  nested_array, and_then, field_total_size, place, sort, insert, sort_size, layout, is_nested,
  align_gap, align_to, found, size_by_name,
}

module _ {Name : Type 0} where
  abbrev pub is_too_deep : {A : Type 0} → Result Name A → Bool
  is_too_deep (ok a) = false
  is_too_deep (unresolved n) = false
  is_too_deep too_deep = true

  -- Every message that a field nests satisfies `P`.
  abbrev pub NestsOnly : (Name → Type 0) → FieldType Name → Type 0
  NestsOnly P (scalar s) = Unit {0}
  NestsOnly P (scalar_array s n) = Unit {0}
  NestsOnly P (nested m) = P m
  NestsOnly P (nested_array m n) = P m

  abbrev pub AllNest : (Name → Type 0) → List (Field Name) → Type 0
  AllNest P [] = Unit {0}
  AllNest P (f ∷ fs) = NestsOnly P f.ty × AllNest P fs

  insert-AllNest :
      (P : Name → Type 0) (f : Field Name) (fs : List (Field Name))
      → NestsOnly P f.ty
      → AllNest P fs
      → AllNest P (insert f fs)
  unfolding insert
  insert-AllNest P f [] h a = (h, tt)
  insert-AllNest P f (g ∷ gs) h (k, a) =
      if-holds (AllNest P) (leb (sort_size g) (sort_size f)) (λ e. (h, (k, a)))
        (λ e. (k, insert-AllNest P f gs h a))

  pub sort-AllNest :
      (P : Name → Type 0) (fs : List (Field Name)) → AllNest P fs → AllNest P (sort fs)
  unfolding sort
  sort-AllNest P [] a = tt
  sort-AllNest P (f ∷ fs) (h, a) = insert-AllNest P f (sort fs) h (sort-AllNest P fs a)

  and_then_lem :
      {A B : Type 0} (r : Result Name A) (f : A → Result Name B)
      → is_too_deep r ≡ false
      → ((a : A) → is_too_deep (f a) ≡ false)
      → is_too_deep (and_then r f) ≡ false
  and_then_lem (ok a) f h k = k a
  and_then_lem (unresolved n) f h k = refl
  and_then_lem too_deep f h k = h

  module _ (size_of : Name → Result Name ℕ) where
    abbrev Known : Name → Type 0
    Known n = is_too_deep (size_of n) ≡ false

    total_lem :
        (t : FieldType Name) → NestsOnly Known t → is_too_deep (field_total_size size_of t) ≡ false
    total_lem (scalar s) h = refl
    total_lem (scalar_array s n) h = refl
    total_lem (nested m) h = h
    total_lem (nested_array m n) h = and_then_lem (size_of m) (λ k. ok (k * n)) h (λ a. refl)

    place-Known :
        (fs : List (Field Name)) (pos idx : ℕ)
        → AllNest Known fs
        → is_too_deep (place size_of fs pos idx) ≡ false
    unfolding place
    place-Known [] pos idx a = refl
    place-Known (f ∷ fs) pos idx (h, a) =
        and_then_lem (field_total_size size_of f.ty) _ (total_lem f.ty h) (λ k.
          let g = if is_nested f.ty then align_gap pos align_to else 0 in
          if-holds (λ (r : Result Name (List (LaidOutField Name) × ℕ × ℕ)). is_too_deep r ≡ false)
            (ltb 0 g)
            (λ y.
              and_then_lem (place size_of fs (pos + g + k) (idx + 1)) _
                (place-Known fs (pos + g + k) (idx + 1) a) (λ r. refl))
            (λ y.
              and_then_lem (place size_of fs (pos + k) idx) _ (place-Known fs (pos + k) idx a)
                (λ r. refl)))

  pub AllNest-map :
      (P Q : Name → Type 0) (fs : List (Field Name))
      → ((n : Name) → P n → Q n)
      → AllNest P fs
      → AllNest Q fs
  AllNest-map P Q [] h a = tt
  AllNest-map P Q (f ∷ fs) h (k, a) = (nests f.ty k, AllNest-map P Q fs h a)
    where
      nests : (t : FieldType Name) → NestsOnly P t → NestsOnly Q t
      nests (scalar s) k = tt
      nests (scalar_array s n) k = tt
      nests (nested m) k = h m k
      nests (nested_array m n) k = h m k

  module _ (files : Name → Option (List (Field Name))) (rank : Name → ℕ) where
    -- Each message nests only messages of lower rank.
    abbrev pub Ranked : Type 0
    Ranked =
        (n : Name) (fs : List (Field Name)) → files n ≡ some fs → AllNest (λ m. rank m < rank n) fs

    found_lem :
        (n : Name) (o : Option (List (Field Name))) (k : List (Field Name) → Result Name ℕ)
        → files n ≡ o
        → ((fs : List (Field Name)) → files n ≡ some fs → is_too_deep (k fs) ≡ false)
        → is_too_deep (found n o k) ≡ false
    found_lem n none k e h = refl
    found_lem n (some fs) k e h = h fs e

    -- If each message nests only messages of lower rank, fuel above the rank of a message is enough:
    -- its layout gives a size or names a message that is not found.
    pub enough_fuel :
        (fuel : ℕ) (n : Name)
        → Ranked
        → rank n < fuel
        → is_too_deep (size_by_name files fuel n) ≡ false
    unfolding size_by_name layout
    enough_fuel zero n h l = absurd (omega arith)
    enough_fuel (suc fuel) n h l = found_lem n (files n) _ refl (λ fs e.
        let below =
          AllNest-map (λ m. rank m < rank n) (Known (size_by_name files fuel)) fs
            (λ m k. enough_fuel fuel m h (omega arith)) (h n fs e) in
        and_then_lem (layout (size_by_name files fuel) fs) _
          (and_then_lem (place (size_by_name files fuel) (sort fs) 0 0) _
            (place-Known (size_by_name files fuel) (sort fs) 0 0
              (sort-AllNest (Known (size_by_name files fuel)) fs below))
            (λ r. refl))
          (λ r. refl))
