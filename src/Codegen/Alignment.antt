-- ===== src/Codegen/Alignment.antt =====
-- The layout agrees with `repr(C)`: every field starts at a multiple of its own alignment, so the
-- compiler inserts no padding of its own, and the size is a multiple of 8.
use mathlib.Core.Path.{subst}
use px4_rs.Prelude.{
  ℕ, ◌+◌, ◌*◌, ◌%◌, ◌≡◌, ◌≤◌, ◌<◌, ltb, true, false, List, [], ◌∷◌, ◌++◌, if◌then◌else◌, arith,
  refl, ap, ◌∙◌, if-true, if-false, if-holds, ltb→lt,
}
use px4_rs.Codegen.{
  Field, FieldType, Scalar, LaidOutField, LaidOut, Result, ok, unresolved, too_deep, real, padding,
  scalar, scalar_array, nested, nested_array, size, field_sort_size, is_nested, align_gap, align_to,
  and_then, field_total_size, place_one, place, close, sort, layout,
}
use px4_rs.Codegen.Sorting.{Descending, sort_lem}

-- The alignment of a field; a nested message may need any, so 8.
abbrev pub alignment : {Name : Type 0} → FieldType Name → ℕ
alignment (scalar s) = size s
alignment (scalar_array s n) = size s
alignment (nested m) = 8
alignment (nested_array m n) = 8

-- `pos` suits every scalar of at most `b` bytes.
record Suits (b pos : ℕ) : Type 0 where
  eights : 4 < b → pos % 8 ≡ 0
  fours : 2 < b → pos % 4 ≡ 0
  twos : 1 < b → pos % 2 ≡ 0

Suits-eight : (b pos k : ℕ) → 8 ≤ b → Suits b pos → (pos % 8 ≡ 0) × Suits 8 (pos + 8 * k)
Suits-eight b pos k h s =
    let e = s.eights (omega arith) in
    (
      e,
      record {
        eights = λ _. omega (arith, e);
        fours = λ _. omega (arith, e);
        twos = λ _. omega (arith, e);
      },
    )

Suits-four : (b pos k : ℕ) → 4 ≤ b → Suits b pos → (pos % 4 ≡ 0) × Suits 4 (pos + 4 * k)
Suits-four b pos k h s =
    let e = s.fours (omega arith) in
    (
      e,
      record {
        eights = λ i. absurd (omega (arith, i));
        fours = λ _. omega (arith, e);
        twos = λ _. omega (arith, e);
      },
    )

Suits-two : (b pos k : ℕ) → 2 ≤ b → Suits b pos → (pos % 2 ≡ 0) × Suits 2 (pos + 2 * k)
Suits-two b pos k h s =
    let e = s.twos (omega arith) in
    (
      e,
      record {
        eights = λ i. absurd (omega (arith, i));
        fours = λ i. absurd (omega (arith, i));
        twos = λ _. omega (arith, e);
      },
    )

Suits-one : (b pos k : ℕ) → (pos % 1 ≡ 0) × Suits 1 (pos + 1 * k)
Suits-one b pos k = (
  omega arith,
  record {
    eights = λ i. absurd (omega (arith, i));
    fours = λ i. absurd (omega (arith, i));
    twos = λ i. absurd (omega (arith, i));
  },
)

-- A scalar, or an array of `k` of them, at a position that suits it.
Suits-scalar :
    (s : Scalar) (b pos k : ℕ)
    → size s ≤ b
    → Suits b pos
    → (pos % size s ≡ 0) × Suits (size s) (pos + size s * k)
Suits-scalar Scalar.bool b pos k h s = Suits-one b pos k
Suits-scalar Scalar.char b pos k h s = Suits-one b pos k
Suits-scalar Scalar.i8 b pos k h s = Suits-one b pos k
Suits-scalar Scalar.u8 b pos k h s = Suits-one b pos k
Suits-scalar Scalar.i16 b pos k h s = Suits-two b pos k h s
Suits-scalar Scalar.u16 b pos k h s = Suits-two b pos k h s
Suits-scalar Scalar.i32 b pos k h s = Suits-four b pos k h s
Suits-scalar Scalar.u32 b pos k h s = Suits-four b pos k h s
Suits-scalar Scalar.f32 b pos k h s = Suits-four b pos k h s
Suits-scalar Scalar.i64 b pos k h s = Suits-eight b pos k h s
Suits-scalar Scalar.u64 b pos k h s = Suits-eight b pos k h s
Suits-scalar Scalar.f64 b pos k h s = Suits-eight b pos k h s

Suits-none : (pos : ℕ) → Suits 0 pos
Suits-none pos = record {
  eights = λ i. absurd (omega (arith, i));
  fours = λ i. absurd (omega (arith, i));
  twos = λ i. absurd (omega (arith, i));
}

gap_lem : (pos : ℕ) → (pos + align_gap pos align_to) % 8 ≡ 0
gap_lem pos = ground arith

module _ {Name : Type 0} (size_of : Name → Result Name ℕ) where
  -- The fields follow each other without a gap from `pos` to `end`, each real one at a multiple of its
  -- alignment.
  pub data Packed : ℕ → List (LaidOutField Name) → ℕ → Type 0 where
    finished : {pos : ℕ} → Packed pos [] pos
    field :
        {f : Field Name} {pos k end : ℕ} {fs : List (LaidOutField Name)}
        → field_total_size size_of f.ty ≡ ok k
        → pos % alignment f.ty ≡ 0
        → Packed (pos + k) fs end
        → Packed pos (real f ∷ fs) end
    pad :
        {idx n pos end : ℕ} {fs : List (LaidOutField Name)}
        → Packed (pos + n) fs end
        → Packed pos (padding idx n ∷ fs) end

  Packed-snoc :
      {pos end : ℕ} (idx n : ℕ) {fs : List (LaidOutField Name)}
      → Packed pos fs end
      → Packed pos (fs ++ (padding idx n ∷ [])) (end + n)
  Packed-snoc idx n finished = pad finished
  Packed-snoc idx n (field e a p) = field e a (Packed-snoc idx n p)
  Packed-snoc idx n (pad p) = pad (Packed-snoc idx n p)

  -- What a placed list is.
  abbrev Placed : ℕ → Result Name (List (LaidOutField Name) × ℕ × ℕ) → Type 0
  Placed pos (ok (out, pos', idx')) = Packed pos out pos'
  Placed pos (unresolved n) = Unit {0}
  Placed pos too_deep = Unit {0}

  abbrev Rest : Type 0
  Rest = Result Name (List (LaidOutField Name) × ℕ × ℕ)

  cons-Placed :
      (f : Field Name) (pos k : ℕ) (r : Rest)
      → field_total_size size_of f.ty ≡ ok k
      → pos % alignment f.ty ≡ 0
      → Placed (pos + k) r
      → Placed pos (and_then r (λ x. let (out, pos', idx') = x in ok (real f ∷ out, pos', idx')))
  cons-Placed f pos k (ok (out, pos', idx')) e a p = field e a p
  cons-Placed f pos k (unresolved n) e a p = tt
  cons-Placed f pos k too_deep e a p = tt

  padded-Placed :
      (f : Field Name) (pos idx n k : ℕ) (r : Rest)
      → field_total_size size_of f.ty ≡ ok k
      → (pos + n) % alignment f.ty ≡ 0
      → Placed (pos + n + k) r
      → Placed pos (
          and_then r
            (λ x. let (out, pos', idx') = x in ok (padding idx n ∷ real f ∷ out, pos', idx')))
  padded-Placed f pos idx n k (ok (out, pos', idx')) e a p = pad (field e a p)
  padded-Placed f pos idx n k (unresolved m) e a p = tt
  padded-Placed f pos idx n k too_deep e a p = tt

  flat-Placed :
      (f : Field Name) (pos idx k : ℕ) (rest : ℕ → ℕ → Rest)
      → is_nested f.ty ≡ false
      → field_total_size size_of f.ty ≡ ok k
      → pos % alignment f.ty ≡ 0
      → Placed (pos + k) (rest (pos + k) idx)
      → Placed pos (place_one f pos idx k rest)
  flat-Placed f pos idx k rest n e a p =
      if-holds (Placed pos) (ltb 0 (if is_nested f.ty then align_gap pos align_to else 0))
        (λ y. absurd (omega (arith, ltb→lt _ _ y, if-false (align_gap pos align_to) 0 n)))
        (λ y. cons-Placed f pos k (rest (pos + k) idx) e a p)

  nested-Placed :
      (f : Field Name) (pos idx k : ℕ) (rest : ℕ → ℕ → Rest)
      → is_nested f.ty ≡ true
      → alignment f.ty ≡ 8
      → field_total_size size_of f.ty ≡ ok k
      → ((p i : ℕ) → Placed p (rest p i))
      → Placed pos (place_one f pos idx k rest)
  nested-Placed f pos idx k rest n eight e p =
      let gap = if-true (align_gap pos align_to) 0 n in
      let g = if is_nested f.ty then align_gap pos align_to else 0 in
      if-holds (Placed pos) (ltb 0 g)
        (λ y.
          padded-Placed f pos idx g k (rest (pos + g + k) (idx + 1)) e
            (ap (λ m. (pos + g) % m) eight ∙ (ap (λ m. (pos + m) % 8) gap ∙ gap_lem pos))
            (p (pos + g + k) (idx + 1)))
        (λ y.
          cons-Placed f pos k (rest (pos + k) idx) e
            (ap (λ m. pos % m) eight ∙ (ground (arith, y, gap, gap_lem pos))) (p (pos + k) idx))

  -- A nested field whose size may not be known.
  sized-Placed :
      (f : Field Name) (pos idx : ℕ) (r : Result Name ℕ) (rest : ℕ → ℕ → Rest)
      → is_nested f.ty ≡ true
      → alignment f.ty ≡ 8
      → field_total_size size_of f.ty ≡ r
      → ((p i : ℕ) → Placed p (rest p i))
      → Placed pos (and_then r (λ k. place_one f pos idx k rest))
  sized-Placed f pos idx (ok k) rest n a e p = nested-Placed f pos idx k rest n a e p
  sized-Placed f pos idx (unresolved m) rest n a e p = tt
  sized-Placed f pos idx too_deep rest n a e p = tt

  -- A field before fields that are placed well wherever they suit.
  first-Placed :
      (name : Name) (t : FieldType Name) (fs : List (Field Name)) (b pos idx : ℕ)
      → ((c p i : ℕ) → Descending c fs → Suits c p → Placed p (place size_of fs p i))
      → field_sort_size t ≤ b
      → Descending (field_sort_size t) fs
      → Suits b pos
      → Placed pos (place size_of (record { name = name; ty = t } ∷ fs) pos idx)
  unfolding place
  first-Placed name (scalar s) fs b pos idx ih h d u =
      let (a, v) = Suits-scalar s b pos 1 h u in
      flat-Placed (record { name = name; ty = scalar s }) pos idx (size s) (place size_of fs) refl
        refl a
        (ih (size s) (pos + size s) idx d (subst (λ k. Suits (size s) (pos + k)) (omega arith) v))
  first-Placed name (scalar_array s n) fs b pos idx ih h d u =
      let (a, v) = Suits-scalar s b pos n h u in
      flat-Placed (record { name = name; ty = scalar_array s n }) pos idx (size s * n)
        (place size_of fs) refl refl a (ih (size s) (pos + size s * n) idx d v)
  first-Placed name (nested m) fs b pos idx ih h d u =
      sized-Placed (record { name = name; ty = nested m }) pos idx (size_of m) (place size_of fs)
        refl refl refl (λ p i. ih 0 p i d (Suits-none p))
  first-Placed name (nested_array m n) fs b pos idx ih h d u =
      sized-Placed (record { name = name; ty = nested_array m n }) pos idx
        (and_then (size_of m) (λ k. ok (k * n))) (place size_of fs) refl refl refl
        (λ p i. ih 0 p i d (Suits-none p))

  place-Placed :
      (fs : List (Field Name)) (b pos idx : ℕ)
      → Descending b fs
      → Suits b pos
      → Placed pos (place size_of fs pos idx)
  unfolding place
  place-Placed [] b pos idx d s = finished
  place-Placed (f ∷ fs) b pos idx d s =
      first-Placed f.name f.ty fs b pos idx (place-Placed fs) d.0 d.1 s

  close-Packed :
      (out : List (LaidOutField Name)) (pos idx : ℕ)
      → Packed 0 out pos
      → Packed 0 (close (out, pos, idx)).fields (close (out, pos, idx)).total
        × ((close (out, pos, idx)).total % 8 ≡ 0)
  close-Packed out pos idx p =
      if-holds (λ (l : LaidOut Name). Packed 0 l.fields l.total × (l.total % 8 ≡ 0))
        (ltb 0 (align_gap pos align_to))
        (λ y. (Packed-snoc idx (align_gap pos align_to) p, gap_lem pos))
        (λ y. (p, ground (arith, y, gap_lem pos)))

  closed :
      (r : Rest) (l : LaidOut Name)
      → Placed 0 r
      → and_then r (λ x. ok (close x)) ≡ ok l
      → Packed 0 l.fields l.total × (l.total % 8 ≡ 0)
  closed (ok (out, pos, idx)) l p e =
      subst (λ (l : LaidOut Name). Packed 0 l.fields l.total × (l.total % 8 ≡ 0)) (ground arith)
        (close-Packed out pos idx p)
  closed (unresolved n) l p e = absurd (ground arith)
  closed too_deep l p e = absurd (ground arith)

  -- If the sizes of the nested messages are known, the fields of a layout follow each other without a
  -- gap up to its size, each at a multiple of its own alignment, and the size is a multiple of 8.
  pub layout-Packed :
      (fs : List (Field Name)) (l : LaidOut Name)
      → layout size_of fs ≡ ok l
      → Packed 0 l.fields l.total × (l.total % 8 ≡ 0)
  unfolding layout
  layout-Packed fs l e =
      closed (place size_of (sort fs) 0 0) l
        (place-Placed (sort fs) 8 0 0 (sort_lem fs).0
          (record { eights = λ _. refl; fours = λ _. refl; twos = λ _. refl }))
        e
