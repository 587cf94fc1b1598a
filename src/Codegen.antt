-- ===== src/Codegen.antt =====
-- crates/px4-msg-codegen/src/model.rs and layout.rs: the fields of a message and their layout.
--
-- `Name` is the type of names, and `files` what the search path finds under a name, parsed: the file
-- system is a parameter. The resolver here has no cache; Resolver.antt has the one with it.
-- `layout_by_name` runs on fuel, one unit for each level of nesting.
pub mod Sorting
pub mod Alignment
pub mod Depth
mod Cycles
pub mod Naming
pub mod Resolver
pub mod Types
pub mod Parser
pub mod Hash
pub mod Emit
pub mod Generate
mod Tests
use px4_rs.Prelude.{
  ℕ, zero, suc, ◌+◌, ◌-◌, ◌*◌, ◌%◌, ◌==◌, leb, ltb, Bool, true, false, Option, none, some, List, [],
  ◌∷◌, ◌++◌, if◌then◌else◌,
}

pub data Scalar : Type 0 where
  bool char i8 i16 i32 i64 u8 u16 u32 u64 f32 f64 : Scalar

-- `Scalar::size`
abbrev pub size : Scalar → ℕ
size Scalar.bool = 1
size Scalar.char = 1
size Scalar.i8 = 1
size Scalar.u8 = 1
size Scalar.i16 = 2
size Scalar.u16 = 2
size Scalar.i32 = 4
size Scalar.u32 = 4
size Scalar.f32 = 4
size Scalar.i64 = 8
size Scalar.u64 = 8
size Scalar.f64 = 8

pub data FieldType (Name : Type 0) : Type 0 where
  scalar : Scalar → FieldType Name
  scalar_array : Scalar → ℕ → FieldType Name
  nested : Name → FieldType Name
  nested_array : Name → ℕ → FieldType Name

pub record Field (Name : Type 0) : Type 0 where
  pub name : Name
  pub ty : FieldType Name

pub data LaidOutField (Name : Type 0) : Type 0 where
  real : Field Name → LaidOutField Name
  padding : ℕ → ℕ → LaidOutField Name

-- `LaidOutMsg`: its fields and its size.
pub record LaidOut (Name : Type 0) : Type 0 where
  pub fields : List (LaidOutField Name)
  pub total : ℕ

-- `Result<_, ParseError>`; `too_deep` is a run out of fuel.
pub data Result (Name A : Type 0) : Type 0 where
  ok : A → Result Name A
  unresolved : Name → Result Name A
  too_deep : Result Name A

abbrev pub align_to : ℕ
align_to = 8

abbrev pub align_gap : ℕ → ℕ → ℕ
align_gap pos align = if pos % align == 0 then 0 else align - pos % align

module _ {Name : Type 0} where
  -- `?`
  abbrev pub and_then : {A B : Type 0} → Result Name A → (A → Result Name B) → Result Name B
  and_then (ok a) f = f a
  and_then (unresolved n) f = unresolved n
  and_then too_deep f = too_deep

  -- `field_sort_size`
  abbrev pub field_sort_size : FieldType Name → ℕ
  field_sort_size (scalar s) = size s
  field_sort_size (scalar_array s n) = size s
  field_sort_size (nested m) = 0
  field_sort_size (nested_array m n) = 0

  abbrev pub is_nested : FieldType Name → Bool
  is_nested (scalar s) = false
  is_nested (scalar_array s n) = false
  is_nested (nested m) = true
  is_nested (nested_array m n) = true

  abbrev pub sort_size : Field Name → ℕ
  sort_size f = field_sort_size f.ty

  -- The stable sort by size, descending: a field goes before those that come after it and are not
  -- larger.
  unfoldable pub insert : Field Name → List (Field Name) → List (Field Name)
  insert f [] = f ∷ []
  insert f (g ∷ gs) = if leb (sort_size g) (sort_size f) then f ∷ g ∷ gs else g ∷ insert f gs

  unfoldable pub sort : List (Field Name) → List (Field Name)
  unfolding insert
  sort [] = []
  sort (f ∷ fs) = insert f (sort fs)

  -- A field of size `k` after `pos` bytes, with the padding before it; `rest` places what follows.
  abbrev pub place_one :
      Field Name
      → ℕ
      → ℕ
      → ℕ
      → (ℕ → ℕ → Result Name (List (LaidOutField Name) × ℕ × ℕ))
      → Result Name (List (LaidOutField Name) × ℕ × ℕ)
  place_one f pos idx k rest =
      let pad = if is_nested f.ty then align_gap pos align_to else 0 in
      if ltb 0 pad
      then and_then (rest (pos + pad + k) (idx + 1))
          (λ r. let (out, pos', idx') = r in ok (padding idx pad ∷ real f ∷ out, pos', idx'))
      else and_then (rest (pos + k) idx)
          (λ r. let (out, pos', idx') = r in ok (real f ∷ out, pos', idx'))

  -- The tail padding.
  abbrev pub close : List (LaidOutField Name) × ℕ × ℕ → LaidOut Name
  close (out, pos, idx) =
      let tail = align_gap pos align_to in
      if ltb 0 tail
      then record { fields = out ++ (padding idx tail ∷ []); total = pos + tail }
      else record { fields = out; total = pos }

  -- `size_of` stands for the size of `layout_by_name`.
  module _ (size_of : Name → Result Name ℕ) where
    abbrev pub field_total_size : FieldType Name → Result Name ℕ
    field_total_size (scalar s) = ok (size s)
    field_total_size (scalar_array s n) = ok (size s * n)
    field_total_size (nested m) = size_of m
    field_total_size (nested_array m n) = and_then (size_of m) (λ k. ok (k * n))

    -- The loop over the sorted fields.
    unfoldable pub place :
        List (Field Name) → ℕ → ℕ → Result Name (List (LaidOutField Name) × ℕ × ℕ)
    place [] pos idx = ok ([], pos, idx)
    place (f ∷ fs) pos idx =
        and_then (field_total_size f.ty) (λ k. place_one f pos idx k (place fs))

    -- `layout`, without the message hash.
    unfoldable pub layout : List (Field Name) → Result Name (LaidOut Name)
    unfolding place sort
    layout fs = and_then (place (sort fs) 0 0) (λ r. ok (close r))

  -- What follows `find`.
  abbrev pub found :
      {A : Type 0}
      → Name
      → Option (List (Field Name))
      → (List (Field Name) → Result Name A)
      → Result Name A
  found n none k = unresolved n
  found n (some fs) k = k fs

  -- The size of `layout_by_name`; `files` stands for `find` and `parse_file`.
  module _ (files : Name → Option (List (Field Name))) where
    unfoldable pub size_by_name : ℕ → Name → Result Name ℕ
    unfolding layout
    size_by_name zero n = too_deep
    size_by_name (suc fuel) n =
        found n (files n) (λ fs. and_then (layout (size_by_name fuel) fs) (λ l. ok l.total))
