-- ===== src/Codegen/Types.antt =====
-- crates/px4-msg-codegen/src/model.rs, parser.rs and layout.rs: the types of fields, read and written.
-- A name is the list of its characters. `usize` has 64 bits, as on the hosts where the generator runs.
pub mod Tokens
use px4_rs.Prelude.{
  ℕ, ◌==◌, ◌-◌, ◌^◌, Bool, false, ◌&&◌, ◌||◌, Option, none, some, List, [], ◌∷◌, ◌++◌, leb,
  if◌then◌else◌,
}
use px4_rs.Text.{codes, equal, all, split_once, strip_last, parse_uint, format_uint}
use px4_rs.Codegen.{Scalar, FieldType, scalar, scalar_array, nested, nested_array}
use px4_rs.Codegen.Naming.{is_upper, is_lower}

abbrev pub usize_max : ℕ
usize_max = 18446744073709551615

-- `Scalar::px4_name`
abbrev pub px4_name : Scalar → List ℕ
px4_name Scalar.bool = codes "bool"
px4_name Scalar.char = codes "char"
px4_name Scalar.i8 = codes "int8"
px4_name Scalar.i16 = codes "int16"
px4_name Scalar.i32 = codes "int32"
px4_name Scalar.i64 = codes "int64"
px4_name Scalar.u8 = codes "uint8"
px4_name Scalar.u16 = codes "uint16"
px4_name Scalar.u32 = codes "uint32"
px4_name Scalar.u64 = codes "uint64"
px4_name Scalar.f32 = codes "float32"
px4_name Scalar.f64 = codes "float64"

-- `Scalar::rust_type`
abbrev pub rust_type : Scalar → List ℕ
rust_type Scalar.bool = codes "bool"
rust_type Scalar.char = codes "u8"
rust_type Scalar.i8 = codes "i8"
rust_type Scalar.i16 = codes "i16"
rust_type Scalar.i32 = codes "i32"
rust_type Scalar.i64 = codes "i64"
rust_type Scalar.u8 = codes "u8"
rust_type Scalar.u16 = codes "u16"
rust_type Scalar.u32 = codes "u32"
rust_type Scalar.u64 = codes "u64"
rust_type Scalar.f32 = codes "f32"
rust_type Scalar.f64 = codes "f64"

-- `Scalar::parse`
unfoldable pub scalar_of : List ℕ → Option Scalar
unfolding equal
scalar_of s =
    if equal s (codes "bool")
    then some Scalar.bool
    else if equal s (codes "char")
    then some Scalar.char
    else if equal s (codes "int8")
    then some Scalar.i8
    else if equal s (codes "int16")
    then some Scalar.i16
    else if equal s (codes "int32")
    then some Scalar.i32
    else if equal s (codes "int64")
    then some Scalar.i64
    else if equal s (codes "uint8")
    then some Scalar.u8
    else if equal s (codes "uint16")
    then some Scalar.u16
    else if equal s (codes "uint32")
    then some Scalar.u32
    else if equal s (codes "uint64")
    then some Scalar.u64
    else if equal s (codes "float32")
    then some Scalar.f32
    else if equal s (codes "float64")
    then some Scalar.f64
    else none

-- `is_ascii_alphanumeric`, or an underscore
abbrev pub is_word_character : ℕ → Bool
is_word_character c = is_upper c || is_lower c || (leb b'0' c && leb c b'9') || c == b'_'

-- `is_camel_case`
abbrev pub is_camel_case : List ℕ → Bool
is_camel_case [] = false
is_camel_case (c ∷ cs) = is_upper c && all is_word_character (c ∷ cs)

-- `parse_field_type`: the type without an array length, and the one with the length `n`.
abbrev pub plain_type : Option Scalar → List ℕ → Option (FieldType (List ℕ))
plain_type (some s) tok = some (scalar s)
plain_type none tok = if is_camel_case tok then some (nested tok) else none

abbrev pub array_type : Option Scalar → List ℕ → ℕ → Option (FieldType (List ℕ))
array_type (some s) base n = some (scalar_array s n)
array_type none base n = if is_camel_case base then some (nested_array base n) else none

-- The array type, from what stands before the first bracket and the number after it.
abbrev pub sized_type : List ℕ → Option ℕ → Option (FieldType (List ℕ))
sized_type base none = none
sized_type base (some n) = array_type (scalar_of base) base n

abbrev pub bracket_type : List ℕ → Option (List ℕ) → Option (FieldType (List ℕ))
bracket_type base none = none
bracket_type base (some digits) = sized_type base (parse_uint usize_max digits)

-- `tok.find('[')`
abbrev pub split_type : List ℕ → Option (List ℕ × List ℕ) → Option (FieldType (List ℕ))
split_type tok none = plain_type (scalar_of tok) tok
split_type tok (some (base, rest)) = bracket_type base (strip_last b']' rest)

unfoldable pub parse_field_type : List ℕ → Option (FieldType (List ℕ))
unfolding split_once scalar_of strip_last parse_uint
parse_field_type tok = split_type tok (split_once b'[' tok)

-- The type in a line of the text that is hashed, the match of `message_hash_fields`.
unfoldable pub token : FieldType (List ℕ) → List ℕ
unfolding format_uint
token (scalar s) = px4_name s
token (scalar_array s n) = px4_name s ++ (b'[' ∷ (format_uint n ++ b']' ∷ []))
token (nested name) = name
token (nested_array name n) = name ++ (b'[' ∷ (format_uint n ++ b']' ∷ []))

-- `rust_type_for`
unfoldable pub rust_type_for : FieldType (List ℕ) → List ℕ
unfolding format_uint
rust_type_for (scalar s) = rust_type s
rust_type_for (scalar_array s n) =
    codes "[" ++ (rust_type s ++ (codes "; " ++ (format_uint n ++ codes "]")))
rust_type_for (nested name) = name
rust_type_for (nested_array name n) =
    codes "[" ++ (name ++ (codes "; " ++ (format_uint n ++ codes "]")))
