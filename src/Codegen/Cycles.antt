-- ===== src/Codegen/Cycles.antt =====
-- Messages that nest each other in a circle.
use mathlib.Core.Path.{subst}
use px4_rs.Prelude.{
  ℕ, zero, suc, ◌≡◌, ◌⊎◌, inl, inr, ◌+◌, ◌*◌, ltb, leb, Bool, true, false, Option, some, List, [],
  ◌∷◌, if◌then◌else◌, refl, if-holds, ap, sym,
}
use px4_rs.Codegen.{
  Field, FieldType, Result, LaidOutField, ok, unresolved, too_deep, scalar, scalar_array, nested,
  nested_array, and_then, field_total_size, place_one, place, close, sort, insert, sort_size,
  layout, is_nested, align_gap, align_to, found, size_by_name,
}
use px4_rs.Codegen.Depth.{NestsOnly, AllNest, AllNest-map, sort-AllNest}

module _ {Name : Type 0} where
  -- Some field nests a message that satisfies `P`.
  abbrev pub Nests : (Name → Type 0) → FieldType Name → Type 0
  Nests P (scalar s) = ⊥
  Nests P (scalar_array s n) = ⊥
  Nests P (nested m) = P m
  Nests P (nested_array m n) = P m

  abbrev pub SomeNest : (Name → Type 0) → List (Field Name) → Type 0
  SomeNest P [] = ⊥
  SomeNest P (f ∷ fs) = Nests P f.ty ⊎ SomeNest P fs

  SomeNest-map :
      (P Q : Name → Type 0) (fs : List (Field Name))
      → ((n : Name) → P n → Q n)
      → SomeNest P fs
      → SomeNest Q fs
  SomeNest-map P Q [] h k = absurd k
  SomeNest-map P Q (f ∷ fs) h (inl k) = inl (nests f.ty k)
    where
      nests : (t : FieldType Name) → Nests P t → Nests Q t
      nests (scalar s) k = absurd k
      nests (scalar_array s n) k = absurd k
      nests (nested m) k = h m k
      nests (nested_array m n) k = h m k
  SomeNest-map P Q (f ∷ fs) h (inr k) = inr (SomeNest-map P Q fs h k)

  insert-SomeNest :
      (P : Name → Type 0) (f : Field Name) (fs : List (Field Name))
      → SomeNest P (f ∷ fs)
      → SomeNest P (insert f fs)
  unfolding insert
  insert-SomeNest P f [] h = h
  insert-SomeNest P f (g ∷ gs) h =
      if-holds (SomeNest P) (leb (sort_size g) (sort_size f)) (λ e. h)
        (λ e. elim h [
          | inl k ↦ inr (insert-SomeNest P f gs (inl k))
          | inr r ↦ elim r [ inl k ↦ inl k | inr k ↦ inr (insert-SomeNest P f gs (inr k)) ]
        ])

  sort-SomeNest :
      (P : Name → Type 0) (fs : List (Field Name)) → SomeNest P fs → SomeNest P (sort fs)
  unfolding sort
  sort-SomeNest P [] h = absurd h
  sort-SomeNest P (f ∷ fs) (inl k) = insert-SomeNest P f (sort fs) (inl k)
  sort-SomeNest P (f ∷ fs) (inr k) = insert-SomeNest P f (sort fs) (inr (sort-SomeNest P fs k))

  abbrev pub is_missing : {A : Type 0} → Result Name A → Bool
  is_missing (ok a) = false
  is_missing (unresolved n) = true
  is_missing too_deep = false

  and_then-present :
      {A B : Type 0} (r : Result Name A) (f : A → Result Name B)
      → is_missing r ≡ false
      → ((a : A) → is_missing (f a) ≡ false)
      → is_missing (and_then r f) ≡ false
  and_then-present (ok a) f h k = k a
  and_then-present too_deep f h k = refl
  and_then-present (unresolved n) f h k = h

  and_then-stuck :
      {A B : Type 0} (r : Result Name A) (f : A → Result Name B)
      → r ≡ too_deep
      → and_then r f ≡ too_deep
  and_then-stuck (ok a) f h = cc
  and_then-stuck too_deep f h = refl
  and_then-stuck (unresolved n) f h = cc

  and_then-deep :
      {A B : Type 0} (r : Result Name A) (f : A → Result Name B)
      → is_missing r ≡ false
      → ((a : A) → f a ≡ too_deep)
      → and_then r f ≡ too_deep
  and_then-deep (ok a) f h k = k a
  and_then-deep too_deep f h k = refl
  and_then-deep (unresolved n) f h k = cc

  place_one-Present :
      (f : Field Name) (pos idx k : ℕ)
      (rest : ℕ → ℕ → Result Name (List (LaidOutField Name) × ℕ × ℕ))
      → ((p i : ℕ) → is_missing (rest p i) ≡ false)
      → is_missing (place_one f pos idx k rest) ≡ false
  place_one-Present f pos idx k rest h =
      let pad = if is_nested f.ty then align_gap pos align_to else 0 in
      if-holds (λ (r : Result Name (List (LaidOutField Name) × ℕ × ℕ)). is_missing r ≡ false)
        (ltb 0 pad) (λ e. and_then-present (rest (pos + pad + k) (idx + 1)) _ (h _ _) (λ r. refl))
        (λ e. and_then-present (rest (pos + k) idx) _ (h _ _) (λ r. refl))

  place_one-Deep :
      (f : Field Name) (pos idx k : ℕ)
      (rest : ℕ → ℕ → Result Name (List (LaidOutField Name) × ℕ × ℕ))
      → ((p i : ℕ) → rest p i ≡ too_deep)
      → place_one f pos idx k rest ≡ too_deep
  place_one-Deep f pos idx k rest h =
      let pad = if is_nested f.ty then align_gap pos align_to else 0 in
      if-holds (λ (r : Result Name (List (LaidOutField Name) × ℕ × ℕ)). r ≡ too_deep) (ltb 0 pad)
        (λ e. and_then-stuck (rest (pos + pad + k) (idx + 1)) _ (h _ _))
        (λ e. and_then-stuck (rest (pos + k) idx) _ (h _ _))

  module _ (size_of : Name → Result Name ℕ) where
    abbrev Present : Name → Type 0
    Present n = is_missing (size_of n) ≡ false

    abbrev Deep : Name → Type 0
    Deep n = size_of n ≡ too_deep

    total-Present :
        (t : FieldType Name) → NestsOnly Present t → is_missing (field_total_size size_of t) ≡ false
    total-Present (scalar s) h = refl
    total-Present (scalar_array s n) h = refl
    total-Present (nested m) h = h
    total-Present (nested_array m n) h =
        and_then-present (size_of m) (λ k. ok (k * n)) h (λ a. refl)

    total-Deep : (t : FieldType Name) → Nests Deep t → field_total_size size_of t ≡ too_deep
    total-Deep (nested m) h = h
    total-Deep (nested_array m n) h = ap (λ r. and_then r (λ k. ok (k * n))) h
    total-Deep (scalar s) h = absurd h
    total-Deep (scalar_array s n) h = absurd h

    place-Present :
        (fs : List (Field Name)) (pos idx : ℕ)
        → AllNest Present fs
        → is_missing (place size_of fs pos idx) ≡ false
    unfolding place
    place-Present [] pos idx a = refl
    place-Present (f ∷ fs) pos idx (h, a) =
        and_then-present (field_total_size size_of f.ty) _ (total-Present f.ty h)
          (λ k. place_one-Present f pos idx k (place size_of fs) (λ p i. place-Present fs p i a))

    place-Deep :
        (fs : List (Field Name)) (pos idx : ℕ)
        → AllNest Present fs
        → SomeNest Deep fs
        → place size_of fs pos idx ≡ too_deep
    unfolding place
    place-Deep [] pos idx a s = absurd s
    place-Deep (f ∷ fs) pos idx (h, a) (inl k) =
        and_then-stuck (field_total_size size_of f.ty) _ (total-Deep f.ty k)
    place-Deep (f ∷ fs) pos idx (h, a) (inr s) =
        and_then-deep (field_total_size size_of f.ty) _ (total-Present f.ty h)
          (λ k. place_one-Deep f pos idx k (place size_of fs) (λ p i. place-Deep fs p i a s))

  module _ (files : Name → Option (List (Field Name))) (Reached : Name → Type 0) where
    -- Each reached message has a file, which nests reached messages only.
    abbrev pub HasFiles : Type 0
    HasFiles =
        (n : Name) → Reached n → (fs : List (Field Name)) × (files n ≡ some fs) × AllNest Reached fs

    module _ (has_files : HasFiles) where
      size-Present :
          (fuel : ℕ) (n : Name) → Reached n → is_missing (size_by_name files fuel n) ≡ false
      unfolding size_by_name layout
      size-Present zero n r = refl
      size-Present (suc fuel) n r =
          let size_of = size_by_name files fuel in
          let (fs, e, a) = has_files n r in
          let b = AllNest-map Reached (Present size_of) fs (λ m k. size-Present fuel m k) a in
          subst
            (λ (o : Option (List (Field Name))).
              is_missing (found n o (λ gs. and_then (layout size_of gs) (λ l. ok l.total))) ≡ false)
            (sym e)
            (and_then-present (layout size_of fs) _
              (and_then-present (place size_of (sort fs) 0 0) _
                (place-Present size_of (sort fs) 0 0 (sort-AllNest (Present size_of) fs b))
                (λ r. refl))
              (λ r. refl))

    module _ (Circular : Name → Type 0) where
      -- Each circular message has a file, which nests some circular message and reached ones only.
      abbrev pub IsCircle : Type 0
      IsCircle =
          (n : Name)
          → Circular n
          → (fs : List (Field Name)) × (files n ≡ some fs)
            × AllNest Reached fs
            × SomeNest Circular fs

      -- If each message that is reached has a file and nests only messages that are reached, and each of
      -- some of them, the circular ones, nests one of these, then no fuel is enough for the size of a
      -- circular message.
      pub circle_too_deep :
          HasFiles
          → IsCircle
          → (fuel : ℕ) (n : Name) → Circular n
          → size_by_name files fuel n ≡ too_deep
      unfolding size_by_name layout
      circle_too_deep has_files circle zero n c = refl
      circle_too_deep has_files circle (suc fuel) n c =
          let size_of = size_by_name files fuel in
          let (fs, e, a, s) = circle n c in
          let b =
            AllNest-map Reached (Present size_of) fs (λ m k. size-Present has_files fuel m k) a in
          let d =
            SomeNest-map Circular (Deep size_of) fs
              (λ m k. circle_too_deep has_files circle fuel m k) s in
          subst
            (λ (o : Option (List (Field Name))).
              found n o (λ gs. and_then (layout size_of gs) (λ l. ok l.total)) ≡ too_deep)
            (sym e)
            (ap (λ r. and_then (and_then r (λ q. ok (close q))) (λ l. ok l.total))
              (place-Deep size_of (sort fs) 0 0 (sort-AllNest (Present size_of) fs b)
                (sort-SomeNest (Deep size_of) fs d)))
