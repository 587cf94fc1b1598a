-- ===== src/Codegen/Parser/Failing.antt =====
-- Where the parser fails, and the version of a message.
use px4_rs.Prelude.{
  ℕ, suc, ◌+◌, ◌*◌, ◌-◌, ◌^◌, ◌≡◌, ◌≤◌, ◌<◌, Bool, true, false, Option, none, some, List, [], ◌∷◌,
  ◌++◌, length, arith, refl, ap,
}
use px4_rs.Text.{codes, lines, scan, parse_uint, trim}
use px4_rs.Codegen.Parser.{
  MsgDef, Parse, parsed, syntax, Line, nothing, topics_are, constant_is, field_is, wrong, Reason,
  Draft, new_draft, add_line, read_line, parse_lines, finish_def, finish_parse, parse_str,
  version_of, u32_max, find_value,
}

abbrev pub is_wrong : Line → Bool
is_wrong nothing = false
is_wrong (topics_are ws) = false
is_wrong (constant_is c) = false
is_wrong (field_is f) = false
is_wrong (wrong r) = true

abbrev pub AllRight : List (List ℕ) → Type 0
AllRight [] = Unit
AllRight (l ∷ ls) = (is_wrong (read_line l) ≡ false) × AllRight ls

-- The line with number `n` is the first that is wrong.
abbrev pub FirstWrong : ℕ → List (List ℕ) → ℕ → Reason → Type 0
FirstWrong start ls n r =
    (before : List (List ℕ)) × (l : List ℕ) × (after : List (List ℕ)) × (ls ≡ before ++ l ∷ after)
    × AllRight before
    × (read_line l ≡ wrong r)
    × (n ≡ start + length before)

abbrev pub Explains : {A : Type 0} → ℕ → List (List ℕ) → Parse A → Type 0
Explains start ls (parsed a) = AllRight ls
Explains start ls (syntax n r) = FirstWrong start ls n r

-- A line that is right, before lines that are explained.
Explains-cons :
    (start : ℕ) (l : List ℕ) (ls : List (List ℕ)) (p : Parse Draft)
    → is_wrong (read_line l) ≡ false
    → Explains (suc start) ls p
    → Explains start (l ∷ ls) p
Explains-cons start l ls (parsed d) h e = (h, e)
Explains-cons start l ls (syntax n r) h (before, k, after, split, right, reason, number) =
    (l ∷ before, k, after, ap (λ t. l ∷ t) split, (h, right), reason, omega arith)

add_line-Explains :
    (start : ℕ) (l : List ℕ) (ls : List (List ℕ)) (line : Line) (d : Draft)
    → read_line l ≡ line
    → ((d' : Draft) → Explains (suc start) ls (parse_lines (suc start) ls d'))
    → Explains start (l ∷ ls) (add_line start line d (parse_lines (suc start) ls))
add_line-Explains start l ls nothing d e rest =
    Explains-cons start l ls (parse_lines (suc start) ls d) (ap is_wrong e) (rest d)
add_line-Explains start l ls (topics_are ws) d e rest =
    let d' : Draft = record d { topics = some ws } in
    Explains-cons start l ls (parse_lines (suc start) ls d') (ap is_wrong e) (rest d')
add_line-Explains start l ls (constant_is c) d e rest =
    let d' : Draft = record d { constants = d.constants ++ (c ∷ []) } in
    Explains-cons start l ls (parse_lines (suc start) ls d') (ap is_wrong e) (rest d')
add_line-Explains start l ls (field_is f) d e rest =
    let d' : Draft = record d { fields = d.fields ++ (f ∷ []) } in
    Explains-cons start l ls (parse_lines (suc start) ls d') (ap is_wrong e) (rest d')
add_line-Explains start l ls (wrong r) d e rest = ([], l, ls, refl, tt, e, omega arith)

parse_lines-Explains :
    (start : ℕ) (ls : List (List ℕ)) (d : Draft) → Explains start ls (parse_lines start ls d)
unfolding parse_lines
parse_lines-Explains start [] d = tt
parse_lines-Explains start (l ∷ ls) d =
    add_line-Explains start l ls (read_line l) d refl (parse_lines-Explains (suc start) ls)

finish_def-Explains :
    (name : List ℕ) (ls : List (List ℕ)) (p : Parse Draft)
    → Explains 1 ls p
    → Explains 1 ls (finish_parse name p)
finish_def-Explains name ls (parsed d) h = h
finish_def-Explains name ls (syntax n r) h = h

-- A file is parsed only if each of its lines is right by itself; a syntax error carries the number of
-- the first line that is wrong, counted from 1, and the reason why that line is wrong.
pub parse-Explains : (name text : List ℕ) → Explains 1 (lines text) (parse_str name text)
unfolding parse_str
parse-Explains name text =
    finish_def-Explains name (lines text) (parse_lines 1 (lines text) new_draft)
      (parse_lines-Explains 1 (lines text) new_draft)

scan-le : (max : ℕ) (s : List ℕ) (n k : ℕ) → n ≤ max → scan max s n ≡ some k → k ≤ max
unfolding scan
scan-le max [] n k h e = ground arith
scan-le max (c ∷ s) n k h e = ground (arith, scan-le max s (n * 10 + (c - b'0')) k)

parse_uint-le : (max : ℕ) (s : List ℕ) (k : ℕ) → parse_uint max s ≡ some k → k ≤ max
unfolding parse_uint
parse_uint-le max [] k e = ground arith
parse_uint-le max (c ∷ []) k e = ground (arith, scan-le max (c ∷ []) 0 k)
parse_uint-le max (c ∷ d ∷ s) k e =
    ground (arith, scan-le max (d ∷ s) 0 k, scan-le max (c ∷ d ∷ s) 0 k)

version_of-le : (value : Option (List ℕ)) (v : ℕ) → version_of value ≡ some v → v ≤ u32_max
version_of-le none v e = absurd (cc)
version_of-le (some value) v e = parse_uint-le u32_max (trim value) v e

abbrev pub VersionFits : Parse MsgDef → Type 0
VersionFits (parsed m) = (v : ℕ) → m.message_version ≡ some v → v < 2 ^ 32
VersionFits (syntax n r) = Unit

finish_def-VersionFits : (name : List ℕ) (p : Parse Draft) → VersionFits (finish_parse name p)
unfolding finish_def
finish_def-VersionFits name (parsed d) =
    λ v e. omega (arith, version_of-le (find_value (codes "MESSAGE_VERSION") d.constants) v e)
finish_def-VersionFits name (syntax n r) = tt

-- The version of a message that is parsed is below 2^32.
pub parse-VersionFits : (name text : List ℕ) → VersionFits (parse_str name text)
unfolding parse_str
parse-VersionFits name text = finish_def-VersionFits name (parse_lines 1 (lines text) new_draft)
