-- ===== src/Codegen/Emit/ReprC.antt =====
-- The size of a `repr(C)` struct with the fields of a layout: the layout leaves the compiler nothing to
-- insert.
use px4_rs.Prelude.{
  ℕ, ◌+◌, ◌-◌, ◌*◌, ◌/◌, ◌%◌, ◌≡◌, ltb, List, [], ◌∷◌, if◌then◌else◌, if-holds, arith, refl, ap,
  ap₂, ◌∙◌, ◌⊎◌, inl, inr,
}
use px4_rs.Codegen.{
  Scalar, Field, FieldType, LaidOutField, LaidOut, Result, ok, unresolved, too_deep, real, padding,
  scalar, scalar_array, nested, nested_array, size, field_total_size, and_then, layout,
}
use px4_rs.Codegen.Alignment.{Packed, finished, field, pad, alignment, layout-Packed}

-- The multiple of `a` at or after `pos`.
abbrev pub round_up : ℕ → ℕ → ℕ
round_up pos a = (pos + a - 1) / a * a

abbrev pub IsAlignment : ℕ → Type 0
IsAlignment a = (a ≡ 1) ⊎ (a ≡ 2) ⊎ (a ≡ 4) ⊎ (a ≡ 8)

-- The sizes and alignments of the structs of nested messages are given.
module _ {Name : Type 0} (size_of align_of : Name → ℕ) where
  abbrev pub rust_size : FieldType Name → ℕ
  rust_size (scalar s) = size s
  rust_size (scalar_array s n) = size s * n
  rust_size (nested m) = size_of m
  rust_size (nested_array m n) = size_of m * n

  abbrev pub rust_align : FieldType Name → ℕ
  rust_align (scalar s) = size s
  rust_align (scalar_array s n) = size s
  rust_align (nested m) = align_of m
  rust_align (nested_array m n) = align_of m

  -- Where the last field ends, if each goes to the next multiple of its alignment; a padding is an
  -- array of bytes.
  abbrev pub end_of : List (LaidOutField Name) → ℕ → ℕ
  end_of [] pos = pos
  end_of (real f ∷ fs) pos = end_of fs (round_up pos (rust_align f.ty) + rust_size f.ty)
  end_of (padding i n ∷ fs) pos = end_of fs (pos + n)

  abbrev pub struct_align : List (LaidOutField Name) → ℕ
  struct_align [] = 1
  struct_align (real f ∷ fs) =
      let a = struct_align fs in if ltb a (rust_align f.ty) then rust_align f.ty else a
  struct_align (padding i n ∷ fs) = struct_align fs

  -- The size of a `repr(C)` struct.
  abbrev pub repr_c_size : List (LaidOutField Name) → ℕ
  repr_c_size fs = round_up (end_of fs 0) (struct_align fs)

size-IsAlignment : (s : Scalar) → IsAlignment (size s)
size-IsAlignment Scalar.bool = inl refl
size-IsAlignment Scalar.char = inl refl
size-IsAlignment Scalar.i8 = inl refl
size-IsAlignment Scalar.u8 = inl refl
size-IsAlignment Scalar.i16 = inr (inl refl)
size-IsAlignment Scalar.u16 = inr (inl refl)
size-IsAlignment Scalar.i32 = inr (inr (inl refl))
size-IsAlignment Scalar.u32 = inr (inr (inl refl))
size-IsAlignment Scalar.f32 = inr (inr (inl refl))
size-IsAlignment Scalar.i64 = inr (inr (inr refl))
size-IsAlignment Scalar.u64 = inr (inr (inr refl))
size-IsAlignment Scalar.f64 = inr (inr (inr refl))

round_up_same : (pos a : ℕ) → IsAlignment a → pos % a ≡ 0 → round_up pos a ≡ pos
round_up_same pos a (inl e) h = ground arith
round_up_same pos a (inr (inl e)) h = ground arith
round_up_same pos a (inr (inr (inl e))) h = ground arith
round_up_same pos a (inr (inr (inr e))) h = ground arith

eight_divides : (pos a : ℕ) → IsAlignment a → pos % 8 ≡ 0 → pos % a ≡ 0
eight_divides pos a (inl e) h = ground arith
eight_divides pos a (inr (inl e)) h = ground arith
eight_divides pos a (inr (inr (inl e))) h = ground arith
eight_divides pos a (inr (inr (inr e))) h = ground arith

module _ {Name : Type 0} (result : Name → Result Name ℕ) (size_of align_of : Name → ℕ)
    (sizes : (n : Name) (k : ℕ) → result n ≡ ok k → size_of n ≡ k)
    (aligns : (n : Name) → IsAlignment (align_of n)) where
  rust_align-IsAlignment : (t : FieldType Name) → IsAlignment (rust_align size_of align_of t)
  rust_align-IsAlignment (scalar s) = size-IsAlignment s
  rust_align-IsAlignment (scalar_array s n) = size-IsAlignment s
  rust_align-IsAlignment (nested m) = aligns m
  rust_align-IsAlignment (nested_array m n) = aligns m

  array_size :
      (m : Name) (n k : ℕ) (r : Result Name ℕ)
      → result m ≡ r
      → and_then r (λ k. ok (k * n)) ≡ ok k
      → size_of m * n ≡ k
  array_size m n k (ok j) e h =
      let total : j * n ≡ k = ground arith in ap (λ x. x * n) (sizes m j e) ∙ total
  array_size m n k (unresolved x) e h = absurd (ground arith)
  array_size m n k too_deep e h = absurd (ground arith)

  rust_size_lem :
      (t : FieldType Name) (k : ℕ)
      → field_total_size result t ≡ ok k
      → rust_size size_of align_of t ≡ k
  rust_size_lem (scalar s) k h = ground arith
  rust_size_lem (scalar_array s n) k h = ground arith
  rust_size_lem (nested m) k h = sizes m k h
  rust_size_lem (nested_array m n) k h = array_size m n k (result m) refl h

  -- The layout's alignment is a multiple of the compiler's.
  aligned :
      (t : FieldType Name) (pos : ℕ)
      → pos % alignment t ≡ 0
      → pos % rust_align size_of align_of t ≡ 0
  aligned (scalar s) pos h = h
  aligned (scalar_array s n) pos h = h
  aligned (nested m) pos h = eight_divides pos (align_of m) (aligns m) h
  aligned (nested_array m n) pos h = eight_divides pos (align_of m) (aligns m) h

  Packed-end_of :
      {pos end : ℕ} {fs : List (LaidOutField Name)}
      → Packed result pos fs end
      → end_of size_of align_of fs pos ≡ end
  Packed-end_of finished = refl
  Packed-end_of (field {f} {pos} {k} {end} {fs} total h rest) =
      ap₂ (λ a b. end_of size_of align_of fs (a + b))
        (round_up_same pos (rust_align size_of align_of f.ty) (rust_align-IsAlignment f.ty)
          (aligned f.ty pos h))
        (rust_size_lem f.ty k total)
      ∙ Packed-end_of rest
  Packed-end_of (pad rest) = Packed-end_of rest

  pub struct_align-IsAlignment :
      (fs : List (LaidOutField Name)) → IsAlignment (struct_align size_of align_of fs)
  struct_align-IsAlignment [] = inl refl
  struct_align-IsAlignment (real f ∷ fs) =
      if-holds IsAlignment
        (ltb (struct_align size_of align_of fs) (rust_align size_of align_of f.ty))
        (λ e. rust_align-IsAlignment f.ty) (λ e. struct_align-IsAlignment fs)
  struct_align-IsAlignment (padding i n ∷ fs) = struct_align-IsAlignment fs

  pub layout-repr_c_size :
      (fs : List (Field Name)) (l : LaidOut Name)
      → layout result fs ≡ ok l
      → repr_c_size size_of align_of l.fields ≡ l.total
  layout-repr_c_size fs l e =
      let packed = layout-Packed result fs l e in
      let a = struct_align size_of align_of l.fields in
      let ok_align = struct_align-IsAlignment l.fields in
      ap (λ n. round_up n a) (Packed-end_of packed.0)
      ∙ round_up_same l.total a ok_align (eight_divides l.total a ok_align packed.1)
