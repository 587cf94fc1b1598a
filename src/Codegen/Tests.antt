-- ===== src/Codegen/Tests.antt =====
-- The layouts of `SensorGyro` and of a message with nested ones; names are numbers.
use mathlib.Core.Path.{subst}
use px4_rs.Codegen.Cycles.{HasFiles, IsCircle, circle_too_deep}
use px4_rs.Codegen.Naming.{camel_to_snake}
use px4_rs.Codegen.Depth.{Ranked, AllNest, is_too_deep, enough_fuel}
use px4_rs.Prelude.{
  inl, inr, ap, zero, suc, ◌<◌, ℕ, ◌≡◌, ◌%◌, refl, false, Option, some, none, List, [], ◌∷◌, arith,
}
use px4_rs.Codegen.{
  Scalar, Field, FieldType, LaidOut, Result, ok, unresolved, too_deep, real, padding, scalar,
  scalar_array, nested, nested_array, layout, size_by_name,
}
use px4_rs.Codegen.Sorting.{Descending, of_size, reals, layout_order}
use px4_rs.Codegen.Alignment.{Packed, layout-Packed}

abbrev field_of : ℕ → FieldType ℕ → Field ℕ
field_of n t = record { name = n; ty = t }

abbrev sensor_gyro : List (Field ℕ)
sensor_gyro =
    field_of 0 (scalar Scalar.u64)
    ∷ field_of 1 (scalar Scalar.u64)
    ∷ field_of 2 (scalar Scalar.u32)
    ∷ field_of 3 (scalar Scalar.f32)
    ∷ field_of 4 (scalar Scalar.f32)
    ∷ field_of 5 (scalar Scalar.f32)
    ∷ field_of 6 (scalar Scalar.f32)
    ∷ field_of 7 (scalar Scalar.u32)
    ∷ field_of 8 (scalar_array Scalar.u8 3)
    ∷ field_of 9 (scalar Scalar.u8)
    ∷ []

abbrev total_or_zero : Result ℕ (LaidOut ℕ) → ℕ
total_or_zero (ok l) = l.total
total_or_zero (unresolved n) = 0
total_or_zero too_deep = 0

sensor_gyro_size : total_or_zero (layout unresolved sensor_gyro) ≡ 48
unfolding layout
sensor_gyro_size = refl

-- A flag, two nested messages of 24 bytes, a counter.
abbrev mixed : List (Field ℕ)
mixed =
    field_of 0 (nested_array 7 2)
    ∷ field_of 1 (scalar Scalar.bool)
    ∷ field_of 2 (scalar Scalar.u16)
    ∷ []

abbrev mixed_layout : LaidOut ℕ
mixed_layout = record {
  fields =
      real (field_of 2 (scalar Scalar.u16))
      ∷ real (field_of 1 (scalar Scalar.bool))
      ∷ padding 0 5
      ∷ real (field_of 0 (nested_array 7 2))
      ∷ [];
  total = 56;
}

abbrev twenty_four : ℕ → Result ℕ ℕ
twenty_four n = ok 24

mixed_lem : layout twenty_four mixed ≡ ok mixed_layout
unfolding layout
mixed_lem = refl

layout-Packed_example : Packed twenty_four 0 mixed_layout.fields 56 × (56 % 8 ≡ 0)
layout-Packed_example = layout-Packed twenty_four mixed mixed_layout mixed_lem

layout_order_example :
    Descending 8 (reals mixed_layout.fields)
    × ((k : ℕ) → of_size k (reals mixed_layout.fields) ≡ of_size k mixed)
layout_order_example = layout_order twenty_four mixed mixed_layout mixed_lem

-- Message 2 nests two of message 1, which nests message 0, of one `u64`.
abbrev tower : ℕ → Option (List (Field ℕ))
tower zero = some (field_of 0 (scalar Scalar.u64) ∷ [])
tower (suc zero) = some (field_of 1 (nested 0) ∷ field_of 2 (scalar Scalar.u8) ∷ [])
tower (suc (suc zero)) = some (field_of 3 (nested_array 1 2) ∷ [])
tower (suc (suc (suc n))) = none

tower_size : size_by_name tower 3 2 ≡ ok 32
unfolding size_by_name
tower_size = refl

abbrev fields_or_none : Option (List (Field ℕ)) → List (Field ℕ)
fields_or_none none = []
fields_or_none (some fs) = fs

tower-Ranked : Ranked tower (λ n. n)
tower-Ranked zero fs e = subst (AllNest (λ m. m < 0)) (ap fields_or_none e) (tt, tt)
tower-Ranked (suc zero) fs e =
    subst (AllNest (λ m. m < 1)) (ap fields_or_none e) (omega arith, (tt, tt))
tower-Ranked (suc (suc zero)) fs e =
    subst (AllNest (λ m. m < 2)) (ap fields_or_none e) (omega arith, tt)
tower-Ranked (suc (suc (suc n))) fs e = absurd (ground arith)

enough_fuel_example : is_too_deep (size_by_name tower 3 2) ≡ false
enough_fuel_example = enough_fuel tower (λ n. n) 3 2 tower-Ranked (omega arith)

-- `GpsInfo` and `gps_info`, `HTTPd` and `htt_pd`.
abbrev gps_info : List ℕ
gps_info = 71 ∷ 112 ∷ 115 ∷ 73 ∷ 110 ∷ 102 ∷ 111 ∷ []

gps_info_name : camel_to_snake gps_info ≡ 103 ∷ 112 ∷ 115 ∷ 95 ∷ 105 ∷ 110 ∷ 102 ∷ 111 ∷ []
unfolding camel_to_snake
gps_info_name = refl

acronym_name : camel_to_snake (72 ∷ 84 ∷ 84 ∷ 80 ∷ 100 ∷ []) ≡ 104 ∷ 116 ∷ 116 ∷ 95 ∷ 112 ∷ 100 ∷ []
unfolding camel_to_snake
acronym_name = refl

-- Message 0 nests itself, behind a number.
abbrev looping : List (Field ℕ)
looping = field_of 1 (scalar Scalar.u8) ∷ field_of 2 (nested_array 0 3) ∷ []

abbrev looping_files : ℕ → Option (List (Field ℕ))
looping_files zero = some looping
looping_files (suc n) = none

abbrev IsZero : ℕ → Type 0
IsZero zero = Unit
IsZero (suc n) = ⊥

looping-HasFiles : HasFiles looping_files IsZero
looping-HasFiles zero z = (looping, refl, (tt, (tt, tt)))
looping-HasFiles (suc n) z = absurd z

looping-IsCircle : IsCircle looping_files IsZero IsZero
looping-IsCircle zero z = (looping, refl, (tt, (tt, tt)), inr (inl tt))
looping-IsCircle (suc n) z = absurd z

circle_too_deep_example : size_by_name looping_files 100 0 ≡ too_deep
circle_too_deep_example =
    circle_too_deep looping_files IsZero IsZero looping-HasFiles looping-IsCircle 100 0 tt
