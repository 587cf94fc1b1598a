-- ===== src/Codegen/Types/Tokens.antt =====
-- The type of a field survives the text that is hashed: what `token` writes, `parse_field_type` reads.
use px4_rs.Prelude.{
  ℕ, ◌≡◌, ◌≤◌, ◌==◌, Bool, true, not, none, some, List, [], ◌∷◌, ◌++◌, arith, refl, ap, ◌∙◌,
}
use px4_rs.Text.{all, format_uint}
use px4_rs.Text.Words.{all_weaken, split_once_at, split_once-none, strip_last-append}
use px4_rs.Text.Decimal.{parse-format}
use px4_rs.Codegen.{Scalar, FieldType, scalar, scalar_array, nested, nested_array}
use px4_rs.Codegen.Types.{
  usize_max, px4_name, scalar_of, is_word_character, is_camel_case, plain_type, array_type,
  bracket_type, sized_type, split_type, parse_field_type, token,
}

pub scalar_of-px4_name : (s : Scalar) → scalar_of (px4_name s) ≡ some s
unfolding scalar_of
scalar_of-px4_name Scalar.bool = refl
scalar_of-px4_name Scalar.char = refl
scalar_of-px4_name Scalar.i8 = refl
scalar_of-px4_name Scalar.i16 = refl
scalar_of-px4_name Scalar.i32 = refl
scalar_of-px4_name Scalar.i64 = refl
scalar_of-px4_name Scalar.u8 = refl
scalar_of-px4_name Scalar.u16 = refl
scalar_of-px4_name Scalar.u32 = refl
scalar_of-px4_name Scalar.u64 = refl
scalar_of-px4_name Scalar.f32 = refl
scalar_of-px4_name Scalar.f64 = refl

-- No scalar has a name in camel case.
pub scalar_of_camel : (m : List ℕ) → is_camel_case m ≡ true → scalar_of m ≡ none
unfolding scalar_of
scalar_of_camel [] h = refl
scalar_of_camel (c ∷ m) h = ground arith

abbrev pub is_not : ℕ → ℕ → Bool
is_not d c = not (c == d)

scalar_no_bracket : (s : Scalar) → all (is_not b'[') (px4_name s) ≡ true
scalar_no_bracket Scalar.bool = refl
scalar_no_bracket Scalar.char = refl
scalar_no_bracket Scalar.i8 = refl
scalar_no_bracket Scalar.i16 = refl
scalar_no_bracket Scalar.i32 = refl
scalar_no_bracket Scalar.i64 = refl
scalar_no_bracket Scalar.u8 = refl
scalar_no_bracket Scalar.u16 = refl
scalar_no_bracket Scalar.u32 = refl
scalar_no_bracket Scalar.u64 = refl
scalar_no_bracket Scalar.f32 = refl
scalar_no_bracket Scalar.f64 = refl

pub camel-word : (m : List ℕ) → is_camel_case m ≡ true → all is_word_character m ≡ true
camel-word [] h = refl
camel-word (c ∷ m) h = ground arith

camel_no_bracket : (m : List ℕ) → is_camel_case m ≡ true → all (is_not b'[') m ≡ true
camel_no_bracket m h =
    all_weaken is_word_character (is_not b'[') m (λ c w. ground arith) (camel-word m h)

-- A nested name is in camel case, and a length fits in `usize`.
abbrev pub IsWellNamed : FieldType (List ℕ) → Type 0
IsWellNamed (scalar s) = Unit {0}
IsWellNamed (scalar_array s n) = n ≤ usize_max
IsWellNamed (nested m) = is_camel_case m ≡ true
IsWellNamed (nested_array m n) = (is_camel_case m ≡ true) × (n ≤ usize_max)

-- A base with a bracketed length is read as the array type of the base.
parse_array :
    (base : List ℕ) (n : ℕ)
    → all (is_not b'[') base ≡ true
    → n ≤ usize_max
    → parse_field_type (base ++ (b'[' ∷ (format_uint n ++ b']' ∷ [])))
      ≡ array_type (scalar_of base) base n
unfolding parse_field_type
parse_array base n h k =
    ap (split_type (base ++ (b'[' ∷ (format_uint n ++ b']' ∷ []))))
      (split_once_at b'[' base (format_uint n ++ b']' ∷ []) h)
    ∙ ap (bracket_type base) (strip_last-append b']' (format_uint n))
    ∙ ap (sized_type base) (parse-format usize_max n k)

parse_plain :
    (tok : List ℕ)
    → all (is_not b'[') tok ≡ true
    → parse_field_type tok ≡ plain_type (scalar_of tok) tok
unfolding parse_field_type
parse_plain tok h = ap (split_type tok) (split_once-none b'[' tok h)

-- The name that the text for the hash gives a type is read back as the same type, if nested names are
-- in camel case and the length of an array fits in 64 bits.
pub parse-token : (t : FieldType (List ℕ)) → IsWellNamed t → parse_field_type (token t) ≡ some t
unfolding token
parse-token (scalar s) w =
    parse_plain (px4_name s) (scalar_no_bracket s) ∙ rw (scalar_of-px4_name s) refl
parse-token (scalar_array s n) w =
    parse_array (px4_name s) n (scalar_no_bracket s) w ∙ rw (scalar_of-px4_name s) refl
parse-token (nested m) w = parse_plain m (camel_no_bracket m w) ∙ rw (scalar_of_camel m w, w) refl
parse-token (nested_array m n) (w, k) =
    parse_array m n (camel_no_bracket m w) k ∙ rw (scalar_of_camel m w, w) refl
