-- ===== src/Text/Decimal.antt =====
-- Numbers that are printed and read back.
use px4_rs.Prelude.{
  ℕ, zero, suc, ◌+◌, ◌/◌, ◌%◌, ◌≤◌, ◌≡◌, leb, Bool, true, false, ◌&&◌, some, List, [], ◌∷◌, arith,
  refl, ◌∙◌,
}
use px4_rs.Text.{all, scan, parse_uint, format_onto, format_uint}

abbrev pub is_digit : ℕ → Bool
is_digit c = leb b'0' c && leb c b'9'

scan-format_onto :
    (max fuel n : ℕ) (out : List ℕ)
    → n ≤ max
    → n ≤ fuel
    → scan max (format_onto fuel n out) 0 ≡ scan max out n
unfolding scan format_onto
scan-format_onto max zero n out h k = ground arith
scan-format_onto max (suc fuel) n out h k =
    ground (arith, scan-format_onto max fuel (n / 10) ((b'0' + n % 10) ∷ out))

-- The first character of a printed number is a digit, and so are the others.
abbrev digits_then : List ℕ → List ℕ → Bool
digits_then [] out = false
digits_then (c ∷ s) out = is_digit c

format_onto_first :
    (fuel n : ℕ) (out : List ℕ) → n ≤ fuel → digits_then (format_onto fuel n out) out ≡ true
unfolding format_onto
format_onto_first zero n out k = ground arith
format_onto_first (suc fuel) n out k =
    ground (arith, format_onto_first fuel (n / 10) ((b'0' + n % 10) ∷ out))

all-format_onto :
    (fuel n : ℕ) (out : List ℕ)
    → n ≤ fuel
    → all is_digit out ≡ true
    → all is_digit (format_onto fuel n out) ≡ true
unfolding format_onto
all-format_onto zero n out k h = ground arith
all-format_onto (suc fuel) n out k h =
    ground (arith, all-format_onto fuel (n / 10) ((b'0' + n % 10) ∷ out))

pub all-format_uint : (n : ℕ) → all is_digit (format_uint n) ≡ true
unfolding format_uint
all-format_uint n = all-format_onto n n [] (omega arith) refl

parse-scan : (max : ℕ) (s : List ℕ) → digits_then s [] ≡ true → parse_uint max s ≡ scan max s 0
unfolding parse_uint
parse-scan max [] h = ground arith
parse-scan max (c ∷ s) h = ground arith

-- A number of at most `max` is read back from its print.
pub parse-format : (max n : ℕ) → n ≤ max → parse_uint max (format_uint n) ≡ some n
unfolding format_uint scan
parse-format max n h =
    parse-scan max (format_onto n n []) (format_onto_first n n [] (omega arith))
    ∙ scan-format_onto max n n [] h (omega arith)
