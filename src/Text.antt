-- ===== src/Text.antt =====
-- What crates/px4-msg-codegen uses of Rust's `str`: a text is the list of the codes of its characters.
--
-- `lines`, `trim`, `split_whitespace`, `split_once` in the place of `find` with slices,
-- `strip_suffix`, `parse` of the unsigned integers and their `Display`.
pub mod Decimal
pub mod Words
use Prim.Native.Char.{code}
use Prim.Native.String.{String}
use px4_rs.Prelude.{
  ℕ, zero, suc, ◌+◌, ◌-◌, ◌*◌, ◌/◌, ◌%◌, ◌==◌, leb, ltb, Bool, true, false, not, ◌&&◌, ◌||◌, Option,
  none, some, List, [], ◌∷◌, ◌++◌, if◌then◌else◌,
}

abbrev pub codes : String → List ℕ
codes String.[] = []
codes (String.◌∷◌ c s) = code c ∷ codes s

unfoldable pub equal : List ℕ → List ℕ → Bool
equal [] [] = true
equal [] (d ∷ ds) = false
equal (c ∷ cs) [] = false
equal (c ∷ cs) (d ∷ ds) = c == d && equal cs ds

abbrev pub all : (ℕ → Bool) → List ℕ → Bool
all p [] = true
all p (c ∷ cs) = p c && all p cs

abbrev pub is_nil : List ℕ → Bool
is_nil [] = true
is_nil (c ∷ cs) = false

-- `char::is_whitespace`: the characters with the property White_Space.
unfoldable pub is_whitespace : ℕ → Bool
is_whitespace c =
    (leb 9 c && leb c 13)
    || c == 32
    || c == 133
    || c == 160
    || c == 5760
    || (leb 8192 c && leb c 8202)
    || c == 8232
    || c == 8233
    || c == 8239
    || c == 8287
    || c == 12288

unfoldable pub trim_start : List ℕ → List ℕ
trim_start [] = []
trim_start (c ∷ cs) = if is_whitespace c then trim_start cs else c ∷ cs

unfoldable pub trim_end : List ℕ → List ℕ
trim_end [] = []
trim_end (c ∷ cs) =
    let rest = trim_end cs in if is_whitespace c && is_nil rest then [] else c ∷ rest

unfoldable pub trim : List ℕ → List ℕ
unfolding trim_start trim_end
trim s = trim_end (trim_start s)

-- A word and the words after it; a word that is empty is none.
abbrev pub push_word : List ℕ × List (List ℕ) → List (List ℕ)
push_word ([], ws) = ws
push_word (c ∷ w, ws) = (c ∷ w) ∷ ws

unfoldable pub split_words : List ℕ → List ℕ × List (List ℕ)
split_words [] = ([], [])
split_words (c ∷ cs) =
    let r = split_words cs in if is_whitespace c then ([], push_word r) else (c ∷ r.0, r.1)

unfoldable pub split_whitespace : List ℕ → List (List ℕ)
unfolding split_words
split_whitespace s = push_word (split_words s)

-- What stands before the first `d`, and after it.
unfoldable pub split_once : ℕ → List ℕ → Option (List ℕ × List ℕ)
split_once d [] = none
split_once d (c ∷ cs) =
    let rest = split_once d cs in
    if c == d then some ([], cs) else elim rest [ none ↦ none | some (a, b) ↦ some (c ∷ a, b) ]

-- `strip_suffix` of one character.
unfoldable pub strip_last : ℕ → List ℕ → Option (List ℕ)
strip_last d [] = none
strip_last d (c ∷ cs) =
    let rest = strip_last d cs in
    if is_nil cs
    then (if c == d then some [] else none)
    else elim rest [ none ↦ none | some s ↦ some (c ∷ s) ]

-- `strip_prefix`
unfoldable pub strip_prefix : List ℕ → List ℕ → Option (List ℕ)
strip_prefix [] s = some s
strip_prefix (d ∷ ds) [] = none
strip_prefix (d ∷ ds) (c ∷ cs) = let rest = strip_prefix ds cs in if c == d then rest else none

-- `lines`: a line ends at a line feed, or at a carriage return and a line feed, or at the end.
abbrev pub next_is : ℕ → List ℕ → Bool
next_is d [] = false
next_is d (c ∷ cs) = c == d

abbrev pub onto_first : ℕ → List (List ℕ) → List (List ℕ)
onto_first c [] = (c ∷ []) ∷ []
onto_first c (l ∷ ls) = (c ∷ l) ∷ ls

unfoldable pub lines : List ℕ → List (List ℕ)
lines [] = []
lines (c ∷ cs) =
    let rest = lines cs in
    if c == b'\n'
    then [] ∷ rest
    else if c == b'\r' && next_is b'\n' cs
    then rest
    else onto_first c rest

-- The digits of a number that is read up to here as `n`; `none` where it passes `max`.
unfoldable pub scan : ℕ → List ℕ → ℕ → Option ℕ
scan max [] n = some n
scan max (c ∷ cs) n =
    let m = n * 10 + (c - b'0') in
    let rest = scan max cs m in if leb b'0' c && leb c b'9' && leb m max then rest else none

-- `parse` of an unsigned integer of at most `max`: digits, maybe behind a plus sign.
unfoldable pub parse_digits : ℕ → List ℕ → Option ℕ
unfolding scan
parse_digits max [] = none
parse_digits max (c ∷ cs) = scan max (c ∷ cs) 0

unfoldable pub parse_uint : ℕ → List ℕ → Option ℕ
unfolding parse_digits
parse_uint max [] = none
parse_uint max (c ∷ cs) = if c == b'+' then parse_digits max cs else parse_digits max (c ∷ cs)

-- `Display` of an unsigned integer, before `out`; a number needs no more rounds than it counts.
unfoldable pub format_onto : ℕ → ℕ → List ℕ → List ℕ
format_onto zero n out = (b'0' + n % 10) ∷ out
format_onto (suc fuel) n out =
    let rest = format_onto fuel (n / 10) ((b'0' + n % 10) ∷ out) in
    if ltb n 10 then (b'0' + n) ∷ out else rest

unfoldable pub format_uint : ℕ → List ℕ
unfolding format_onto
format_uint n = format_onto n n []
