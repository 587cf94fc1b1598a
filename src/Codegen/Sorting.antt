-- ===== src/Codegen/Sorting.antt =====
-- The order of the fields: descending by size, and stable.
use mathlib.Core.Path.{subst}
use px4_rs.Prelude.{
  ◌+◌, ◌++◌, ltb, ℕ, ◌≡◌, ◌≤◌, ◌==◌, leb, List, [], ◌∷◌, if◌then◌else◌, arith, refl, ap, ◌∙◌, sym,
  if-holds, leb→le,
}
use px4_rs.Codegen.{
  LaidOutField, LaidOut, Result, ok, unresolved, too_deep, real, padding, and_then, place,
  place_one, close, layout, is_nested, align_gap, align_to, field_total_size, Field, FieldType,
  Scalar, scalar, scalar_array, nested, nested_array, size, field_sort_size, sort_size, insert,
  sort,
}

module _ {Name : Type 0} where
  -- The sizes go down from at most `b`.
  abbrev pub Descending : ℕ → List (Field Name) → Type 0
  Descending b [] = Unit {0}
  Descending b (f ∷ fs) = (sort_size f ≤ b) × Descending (sort_size f) fs

  -- The fields of size `k`, in order.
  abbrev pub of_size : ℕ → List (Field Name) → List (Field Name)
  of_size k [] = []
  of_size k (f ∷ fs) = if sort_size f == k then f ∷ of_size k fs else of_size k fs

  insert-Descending :
      (b : ℕ) (f : Field Name) (fs : List (Field Name))
      → sort_size f ≤ b
      → Descending b fs
      → Descending b (insert f fs)
  unfolding insert
  insert-Descending b f [] h d = (h, tt)
  insert-Descending b f (g ∷ gs) h (l, d) =
      if-holds (Descending b) (leb (sort_size g) (sort_size f)) (λ e. (h, (leb→le _ _ e, d)))
        (λ e. (l, insert-Descending (sort_size g) f gs (ground arith) d))

  insert-of_size :
      (k : ℕ) (f : Field Name) (fs : List (Field Name))
      → of_size k (insert f fs) ≡ of_size k (f ∷ fs)
  unfolding insert
  insert-of_size k f [] = refl
  insert-of_size k f (g ∷ gs) =
      if-holds (λ l. of_size k l ≡ of_size k (f ∷ g ∷ gs)) (leb (sort_size g) (sort_size f))
        (λ e. refl) (λ e. ground (arith, insert-of_size k f gs, e))

  size_bound : (t : FieldType Name) → field_sort_size t ≤ 8
  size_bound (scalar s) = scalar_bound s
    where
      scalar_bound : (s : Scalar) → size s ≤ 8
      scalar_bound s = ground arith
  size_bound (scalar_array s n) = ground arith
  size_bound (nested m) = omega arith
  size_bound (nested_array m n) = omega arith

  -- The sorted fields go down in size from at most 8 bytes, and the fields of each size stand in the
  -- order in which they were declared: none is lost or added.
  pub sort_lem :
      (fs : List (Field Name))
      → Descending 8 (sort fs) × ((k : ℕ) → of_size k (sort fs) ≡ of_size k fs)
  unfolding sort
  sort_lem [] = (tt, λ k. refl)
  sort_lem (f ∷ fs) = (
    insert-Descending 8 f (sort fs) (size_bound f.ty) (sort_lem fs).0,
    λ k. insert-of_size k f (sort fs) ∙ (ground (arith, (sort_lem fs).1 k)),
  )

-- The fields that are not padding.
abbrev pub reals : {Name : Type 0} → List (LaidOutField Name) → List (Field Name)
reals [] = []
reals (real f ∷ fs) = f ∷ reals fs
reals (padding i n ∷ fs) = reals fs

module _ {Name : Type 0} (size_of : Name → Result Name ℕ) where
  abbrev Keeps : List (Field Name) → Result Name (List (LaidOutField Name) × ℕ × ℕ) → Type 0
  Keeps fs (ok (out, pos, idx)) = reals out ≡ fs
  Keeps fs (unresolved n) = Unit {0}
  Keeps fs too_deep = Unit {0}

  one-Keeps :
      (f : Field Name) (fs : List (Field Name)) (r : Result Name (List (LaidOutField Name) × ℕ × ℕ))
      → Keeps fs r
      → Keeps
          (f ∷ fs)
          (and_then r (λ x. let (out, pos', idx') = x in ok (real f ∷ out, pos', idx')))
  one-Keeps f fs (ok r) e = ap (λ l. f ∷ l) e
  one-Keeps f fs (unresolved n) e = tt
  one-Keeps f fs too_deep e = tt

  padded-Keeps :
      (f : Field Name) (fs : List (Field Name)) (i n : ℕ)
      (r : Result Name (List (LaidOutField Name) × ℕ × ℕ))
      → Keeps fs r
      → Keeps (f ∷ fs) (
          and_then r
            (λ x. let (out, pos', idx') = x in ok (padding i n ∷ real f ∷ out, pos', idx')))
  padded-Keeps f fs i n (ok r) e = ap (λ l. f ∷ l) e
  padded-Keeps f fs i n (unresolved m) e = tt
  padded-Keeps f fs i n too_deep e = tt

  first-Keeps :
      (f : Field Name) (fs : List (Field Name)) (pos idx : ℕ) (r : Result Name ℕ)
      → ((p i : ℕ) → Keeps fs (place size_of fs p i))
      → Keeps (f ∷ fs) (and_then r (λ k. place_one f pos idx k (place size_of fs)))
  first-Keeps f fs pos idx (unresolved m) h = tt
  first-Keeps f fs pos idx too_deep h = tt
  first-Keeps f fs pos idx (ok k) h =
      let g = if is_nested f.ty then align_gap pos align_to else 0 in
      if-holds (Keeps (f ∷ fs)) (ltb 0 g)
        (λ y. padded-Keeps f fs idx g _ (h (pos + g + k) (idx + 1)))
        (λ y. one-Keeps f fs _ (h (pos + k) idx))

  place-Keeps : (fs : List (Field Name)) (pos idx : ℕ) → Keeps fs (place size_of fs pos idx)
  unfolding place
  place-Keeps [] pos idx = refl
  place-Keeps (f ∷ fs) pos idx =
      first-Keeps f fs pos idx (field_total_size size_of f.ty) (place-Keeps fs)

  reals-snoc :
      (fs : List (LaidOutField Name)) (i n : ℕ) → reals (fs ++ (padding i n ∷ [])) ≡ reals fs
  reals-snoc [] i n = refl
  reals-snoc (real f ∷ fs) i n = ap (λ l. f ∷ l) (reals-snoc fs i n)
  reals-snoc (padding j m ∷ fs) i n = reals-snoc fs i n

  reals-close :
      (out : List (LaidOutField Name)) (pos idx : ℕ)
      → reals (close (out, pos, idx)).fields ≡ reals out
  reals-close out pos idx =
      if-holds (λ (l : LaidOut Name). reals l.fields ≡ reals out) (ltb 0 (align_gap pos align_to))
        (λ y. reals-snoc out idx (align_gap pos align_to)) (λ y. refl)

  closed_reals :
      (fs : List (Field Name)) (r : Result Name (List (LaidOutField Name) × ℕ × ℕ))
      (l : LaidOut Name)
      → Keeps fs r
      → and_then r (λ x. ok (close x)) ≡ ok l
      → reals l.fields ≡ fs
  closed_reals fs (ok (out, pos, idx)) l p e =
      let same : close (out, pos, idx) ≡ l = ground arith in
      subst (λ (l : LaidOut Name). reals l.fields ≡ fs) same (reals-close out pos idx ∙ p)
  closed_reals fs (unresolved n) l p e = absurd (ground arith)
  closed_reals fs too_deep l p e = absurd (ground arith)

  pub layout-reals :
      (fs : List (Field Name)) (l : LaidOut Name)
      → layout size_of fs ≡ ok l
      → reals l.fields ≡ sort fs
  unfolding layout
  layout-reals fs l e =
      closed_reals (sort fs) (place size_of (sort fs) 0 0) l (place-Keeps (sort fs) 0 0) e

  -- If the layout succeeds, its fields without the padding go down in size from at most 8 bytes, with
  -- nested messages last, and those of each size are the declared ones in their order.
  pub layout_order :
      (fs : List (Field Name)) (l : LaidOut Name)
      → layout size_of fs ≡ ok l
      → Descending 8 (reals l.fields) × ((k : ℕ) → of_size k (reals l.fields) ≡ of_size k fs)
  layout_order fs l e =
      subst (λ gs. Descending 8 gs × ((k : ℕ) → of_size k gs ≡ of_size k fs))
        (sym (layout-reals fs l e)) (sort_lem fs)
