-- ===== src/Codegen/Parser/Lines.antt =====
-- What the parser reads in a line of each kind, however it is indented and commented.
use px4_rs.Prelude.{
  ℕ, ◌≡◌, ◌≤◌, ◌==◌, true, false, Option, none, some, List, [], ◌∷◌, ◌++◌, if◌then◌else◌, arith,
  refl, Bool-cases, inl, inr, ap, ◌∙◌, sym, append-nil, append_assoc,
}
use px4_rs.Text.{
  codes, all, is_nil, is_whitespace, trim_start, trim_end, trim, split_once, strip_prefix,
  format_uint,
}
use px4_rs.Text.Words.{
  all-append, all_weaken, split_once_at, split_once-none, trim_start-blanks, trim_end-blanks,
  trim_end-at, is_plain, IsWord,
}
use px4_rs.Text.Decimal.{is_digit, all-format_uint}
use px4_rs.Codegen.{Scalar, FieldType, scalar, scalar_array, nested, nested_array}
use px4_rs.Codegen.Types.{px4_name, is_word_character, is_camel_case, token}
use px4_rs.Codegen.Types.Tokens.{is_not, camel-word, IsWellNamed}
use px4_rs.Codegen.Parser.{Line, nothing, trimmed_line, before_comment, code_line, read_line}

printable : (c : ℕ) → 33 ≤ c → c ≤ 126 → is_whitespace c ≡ false
unfolding is_whitespace
printable c h k = ground arith

digit-plain : (c : ℕ) → is_digit c ≡ true → is_plain c ≡ true
digit-plain c h = ground (arith, printable c)

word_character-plain : (c : ℕ) → is_word_character c ≡ true → is_plain c ≡ true
word_character-plain c h = ground (arith, printable c)

bracket-plain : (is_plain b'[' ≡ true) × (is_plain b']' ≡ true)
unfolding is_whitespace
bracket-plain = (refl, refl)

pub px4_name-IsWord : (s : Scalar) → IsWord (px4_name s)
unfolding is_whitespace
px4_name-IsWord Scalar.bool = (refl, refl)
px4_name-IsWord Scalar.char = (refl, refl)
px4_name-IsWord Scalar.i8 = (refl, refl)
px4_name-IsWord Scalar.i16 = (refl, refl)
px4_name-IsWord Scalar.i32 = (refl, refl)
px4_name-IsWord Scalar.i64 = (refl, refl)
px4_name-IsWord Scalar.u8 = (refl, refl)
px4_name-IsWord Scalar.u16 = (refl, refl)
px4_name-IsWord Scalar.u32 = (refl, refl)
px4_name-IsWord Scalar.u64 = (refl, refl)
px4_name-IsWord Scalar.f32 = (refl, refl)
px4_name-IsWord Scalar.f64 = (refl, refl)

camel-IsWord : (m : List ℕ) → is_camel_case m ≡ true → IsWord m
camel-IsWord [] h = absurd (cc)
camel-IsWord (c ∷ m) h = (
  refl,
  all_weaken is_word_character is_plain (c ∷ m) word_character-plain (camel-word (c ∷ m) h),
)

array-IsWord :
    (base : List ℕ) (n : ℕ) → IsWord base → IsWord (base ++ (b'[' ∷ (format_uint n ++ b']' ∷ [])))
array-IsWord [] n (e, p) = absurd (cc)
array-IsWord (c ∷ base) n (e, p) = (
  refl,
  all-append is_plain (c ∷ base) (b'[' ∷ (format_uint n ++ b']' ∷ [])) p (
      rw (bracket-plain.0) (
        all-append is_plain (format_uint n) (b']' ∷ [])
          (all_weaken is_digit is_plain (format_uint n) digit-plain (all-format_uint n))
          (rw (bracket-plain.1) refl))),
)

pub token-IsWord : (t : FieldType (List ℕ)) → IsWellNamed t → IsWord (token t)
unfolding token
token-IsWord (scalar s) w = px4_name-IsWord s
token-IsWord (scalar_array s n) w = array-IsWord (px4_name s) n (px4_name-IsWord s)
token-IsWord (nested m) w = camel-IsWord m w
token-IsWord (nested_array m n) (w, k) = array-IsWord m n (camel-IsWord m w)

-- A comment behind the code of a line, or none.
abbrev pub comment_text : Option (List ℕ) → List ℕ
comment_text none = []
comment_text (some text) = b'#' ∷ text

-- A line with code: indentation, the code, a gap and maybe a comment.
abbrev pub code_text : List ℕ → List ℕ → List ℕ → Option (List ℕ) → List ℕ
code_text indent code gap comment = indent ++ (code ++ (gap ++ comment_text comment))

starts-is_not : (c : ℕ) (cs : List ℕ) → all (is_not b'#') (c ∷ cs) ≡ true → (c == b'#') ≡ false
starts-is_not c cs h = ground arith

no_prefix : (c : ℕ) (cs : List ℕ) → (c == b'#') ≡ false → strip_prefix (codes "#") (c ∷ cs) ≡ none
unfolding strip_prefix
no_prefix c cs h = rw h refl

pub trim_indent :
    (indent : List ℕ) (c : ℕ) (s : List ℕ)
    → all is_whitespace indent ≡ true
    → is_whitespace c ≡ false
    → trim (indent ++ c ∷ s) ≡ trim_end (c ∷ s)
unfolding trim trim_start
trim_indent indent c s i h =
    let solid_start : trim_start (c ∷ s) ≡ c ∷ s = rw h refl in
    ap trim_end (trim_start-blanks indent (c ∷ s) i ∙ solid_start)

pub hash_solid : is_whitespace b'#' ≡ false
unfolding is_whitespace
hash_solid = refl

blank-is_not_hash : (c : ℕ) → is_whitespace c ≡ true → is_not b'#' c ≡ true
blank-is_not_hash c h = elim (Bool-cases (c == b'#')) [
  | inl e ↦ absurd (ground (arith, hash_solid))
  | inr n ↦ rw n refl
]

-- The line, once it is trimmed.
abbrev pub read_trimmed : List ℕ → Line
read_trimmed s = trimmed_line s (strip_prefix (codes "#") s)

abbrev read_code : List ℕ → Line
read_code code = if is_nil code then nothing else code_line code (split_once b'=' code)

module _ (c : ℕ) (cs : List ℕ) (solid : is_whitespace c ≡ false) (ends : trim_end (c ∷ cs) ≡ c ∷ cs)
    (no_hash : all (is_not b'#') (c ∷ cs) ≡ true) where
  trim_code : (gap : List ℕ) → all is_whitespace gap ≡ true → trim ((c ∷ cs) ++ gap) ≡ c ∷ cs
  trim_code gap g = trim_indent [] c (cs ++ gap) refl solid ∙ trim_end-blanks (c ∷ cs) gap g ∙ ends

  -- What is left of the line is the code.
  code_left :
      (gap : List ℕ) (comment : Option (List ℕ))
      → all is_whitespace gap ≡ true
      → read_trimmed (trim_end ((c ∷ cs) ++ (gap ++ comment_text comment)))
        ≡ code_line (c ∷ cs) (split_once b'=' (c ∷ cs))
  code_left gap none g =
      ap read_trimmed (
        ap (λ b. trim_end ((c ∷ cs) ++ b)) (append-nil gap) ∙ trim_end-blanks (c ∷ cs) gap g ∙ ends)
      ∙ ap (trimmed_line (c ∷ cs)) (no_prefix c cs (starts-is_not c cs no_hash))
      ∙ ap (λ o. read_code (before_comment (c ∷ cs) o)) (split_once-none b'#' (c ∷ cs) no_hash)
  code_left gap (some t) g =
      let line : List ℕ = ((c ∷ cs) ++ gap) ++ b'#' ∷ trim_end t in
      let code_no_hash : all (is_not b'#') ((c ∷ cs) ++ gap) ≡ true =
        all-append (is_not b'#') (c ∷ cs) gap no_hash
          (all_weaken is_whitespace (is_not b'#') gap blank-is_not_hash g) in
      ap read_trimmed (
        ap trim_end (sym (append_assoc (c ∷ cs) gap (b'#' ∷ t)))
        ∙ trim_end-at ((c ∷ cs) ++ gap) b'#' t hash_solid)
      ∙ ap (trimmed_line line)
          (no_prefix c ((cs ++ gap) ++ b'#' ∷ trim_end t) (starts-is_not c cs no_hash))
      ∙ ap (λ o. read_code (before_comment line o))
          (split_once_at b'#' ((c ∷ cs) ++ gap) (trim_end t) code_no_hash)
      ∙ ap read_code (trim_code gap g)

  pub read_line-code :
      (indent gap : List ℕ) (comment : Option (List ℕ))
      → all is_whitespace indent ≡ true
      → all is_whitespace gap ≡ true
      → read_line (code_text indent (c ∷ cs) gap comment)
        ≡ code_line (c ∷ cs) (split_once b'=' (c ∷ cs))
  unfolding read_line
  read_line-code indent gap comment i g =
      ap read_trimmed (trim_indent indent c (cs ++ (gap ++ comment_text comment)) i solid)
      ∙ code_left gap comment g
