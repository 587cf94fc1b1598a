-- ===== src/Codegen/Parser/RoundTrip.antt =====
-- Whole files: what is written line by line is parsed to the message that it says.
use px4_rs.Prelude.{
  ℕ, suc, ◌≡◌, ◌==◌, true, Option, none, some, List, [], ◌∷◌, ◌++◌, arith, refl, Bool-cases, inl,
  inr, ap, ap₂, ◌∙◌, sym, append-nil, append_assoc,
}
use px4_rs.Text.{codes, all, is_whitespace, lines}
use px4_rs.Text.Words.{all-append, all_weaken, is_plain}
use px4_rs.Codegen.{Field}
use px4_rs.Codegen.Naming.{camel_to_snake}
use px4_rs.Codegen.Types.{px4_name, token}
use px4_rs.Codegen.Parser.{
  Constant, MsgDef, Parse, parsed, Draft, new_draft, add_line, read_line, parse_lines, finish_parse,
  parse_str, find_value, version_of, topics_or,
}
use px4_rs.Codegen.Parser.Lines.{comment_text, px4_name-IsWord, token-IsWord}
use px4_rs.Codegen.Parser.Written.{
  Body, field, constant, Written, blank, remark, topics, code, body_text, topics_text, write,
  meaning, not_line_end, is_gap, is_value, IsBody, AllWords, IsWritten, comment_or_none,
}
use px4_rs.Codegen.Parser.Reading.{read_line-write}

abbrev pub AllWritten : List Written → Type 0
AllWritten [] = Unit
AllWritten (w ∷ ws) = IsWritten w × AllWritten ws

-- The text of a file.
abbrev pub write_all : List Written → List ℕ
write_all [] = []
write_all (w ∷ ws) = write w ++ (b'\n' ∷ write_all ws)

-- The fields and constants in the order of their lines, and the last list of topics.
abbrev pub fields_of : List Written → List (Field (List ℕ))
fields_of [] = []
fields_of (blank b ∷ ws) = fields_of ws
fields_of (remark i t ∷ ws) = fields_of ws
fields_of (topics i ts ∷ ws) = fields_of ws
fields_of (code i (constant c) g t ∷ ws) = fields_of ws
fields_of (code i (field f) g t ∷ ws) = f ∷ fields_of ws

abbrev pub constants_of : List Written → List Constant
constants_of [] = []
constants_of (blank b ∷ ws) = constants_of ws
constants_of (remark i t ∷ ws) = constants_of ws
constants_of (topics i ts ∷ ws) = constants_of ws
constants_of (code i (field f) g t ∷ ws) = constants_of ws
constants_of (code i (constant c) g t ∷ ws) = c ∷ constants_of ws

abbrev pub topics_of : Option (List (List ℕ)) → List Written → Option (List (List ℕ))
topics_of before [] = before
topics_of before (blank b ∷ ws) = topics_of before ws
topics_of before (remark i t ∷ ws) = topics_of before ws
topics_of before (topics i ts ∷ ws) = topics_of (some ts) ws
topics_of before (code i b g t ∷ ws) = topics_of before ws

line-then :
    (l rest : List ℕ) → all not_line_end l ≡ true → lines (l ++ (b'\n' ∷ rest)) ≡ l ∷ lines rest
unfolding lines
line-then [] rest h = refl
line-then (c ∷ l) rest h = ground (arith, line-then l rest)

gap_no_end : (g : List ℕ) → all is_gap g ≡ true → all not_line_end g ≡ true
gap_no_end g h = all_weaken is_gap not_line_end g (λ c k. ground arith) h

value_no_end : (v : List ℕ) → all is_value v ≡ true → all not_line_end v ≡ true
value_no_end v h = all_weaken is_value not_line_end v (λ c k. ground arith) h

ends_blank : (is_whitespace b'\n' ≡ true) × (is_whitespace b'\r' ≡ true)
unfolding is_whitespace
ends_blank = (refl, refl)

plain-not_line_end : (c : ℕ) → is_plain c ≡ true → not_line_end c ≡ true
plain-not_line_end c h = elim (Bool-cases (c == b'\n')) [
  | inl e ↦ absurd (ground (arith, ends_blank))
  | inr n ↦ elim (Bool-cases (c == b'\r')) [
    | inl e ↦ absurd (ground (arith, ends_blank))
    | inr m ↦ rw (n, m) refl
  ]
]

word_no_end : (w : List ℕ) → all is_plain w ≡ true → all not_line_end w ≡ true
word_no_end w h = all_weaken is_plain not_line_end w plain-not_line_end h

no_end_append :
    (s t : List ℕ)
    → all not_line_end s ≡ true
    → all not_line_end t ≡ true
    → all not_line_end (s ++ t) ≡ true
no_end_append = all-append not_line_end

topics_no_end : (ws : List (List ℕ)) → AllWords ws → all not_line_end (topics_text ws) ≡ true
topics_no_end [] h = refl
topics_no_end (w ∷ ws) ((n, p), hs) =
    no_end_append w (topics_text ws) (word_no_end w p) (topics_no_end ws hs)

body_no_end : (b : Body) → IsBody b → all not_line_end (body_text b) ≡ true
body_no_end (field f) (t, (n, p)) =
    no_end_append (token f.ty) (b' ' ∷ f.name) (word_no_end (token f.ty) (token-IsWord f.ty t).1)
      (word_no_end f.name p)
body_no_end (constant c) ((n, p), full, trimmed, vs) =
    no_end_append (px4_name c.ty) ((b' ' ∷ (c.name ++ codes " ")) ++ b'=' ∷ b' ' ∷ c.value)
      (word_no_end (px4_name c.ty) (px4_name-IsWord c.ty).1)
      (no_end_append (b' ' ∷ (c.name ++ codes " ")) (b'=' ∷ b' ' ∷ c.value)
        (no_end_append c.name (codes " ") (word_no_end c.name p) refl) (value_no_end c.value vs))

comment_no_end :
    (t : Option (List ℕ))
    → all not_line_end (comment_or_none t) ≡ true
    → all not_line_end (comment_text t) ≡ true
comment_no_end none h = refl
comment_no_end (some t) h = h

write_no_end : (w : Written) → IsWritten w → all not_line_end (write w) ≡ true
write_no_end (blank b) h = gap_no_end b h
write_no_end (remark i t) (g, e, h) = no_end_append i (b'#' ∷ t) (gap_no_end i g) e
write_no_end (topics i []) h = elim h [ ]
write_no_end (topics i (w ∷ ws)) (g, h, hs) =
    no_end_append i (codes "# TOPICS" ++ topics_text (w ∷ ws)) (gap_no_end i g)
      (topics_no_end (w ∷ ws) (h, hs))
write_no_end (code i b g t) (ig, h, gg, e) =
    no_end_append i (body_text b ++ (g ++ comment_text t)) (gap_no_end i ig) (
      no_end_append (body_text b) (g ++ comment_text t) (body_no_end b h)
        (no_end_append g (comment_text t) (gap_no_end g gg) (comment_no_end t e)))

abbrev all_text : List Written → List (List ℕ)
all_text [] = []
all_text (w ∷ ws) = write w ∷ all_text ws

lines-write_all : (ws : List Written) → AllWritten ws → lines (write_all ws) ≡ all_text ws
lines-write_all [] h = unfold lines in refl
lines-write_all (w ∷ ws) (h, hs) =
    line-then (write w) (write_all ws) (write_no_end w h)
    ∙ ap (λ ls. write w ∷ ls) (lines-write_all ws hs)

-- What the loop gathers, after what it had.
abbrev gathered : Draft → List Written → Draft
gathered d ws = record {
  fields = d.fields ++ fields_of ws;
  constants = d.constants ++ constants_of ws;
  topics = topics_of d.topics ws;
}

add_line-write :
    (n : ℕ) (w : Written) (d : Draft) (rest : Draft → Parse Draft)
    → IsWritten w
    → add_line n (read_line (write w)) d rest ≡ add_line n (meaning w) d rest
add_line-write n w d rest h = ap (λ l. add_line n l d rest) (read_line-write w h)

parse_lines-write :
    (n : ℕ) (ws : List Written) (d : Draft)
    → AllWritten ws
    → parse_lines n (all_text ws) d ≡ parsed (gathered d ws)
unfolding parse_lines
parse_lines-write n [] d h =
    ap₂ (λ fs cs. parsed record { fields = fs; constants = cs; topics = d.topics })
      (sym (append-nil d.fields)) (sym (append-nil d.constants))
parse_lines-write n (blank b ∷ ws) d (h, hs) =
    add_line-write n (blank b) d (parse_lines (suc n) (all_text ws)) h
    ∙ parse_lines-write (suc n) ws d hs
parse_lines-write n (remark i t ∷ ws) d (h, hs) =
    add_line-write n (remark i t) d (parse_lines (suc n) (all_text ws)) h
    ∙ parse_lines-write (suc n) ws d hs
parse_lines-write n (topics i ts ∷ ws) d (h, hs) =
    add_line-write n (topics i ts) d (parse_lines (suc n) (all_text ws)) h
    ∙ parse_lines-write (suc n) ws (record d { topics = some ts }) hs
parse_lines-write n (code i (field f) g t ∷ ws) d (h, hs) =
    add_line-write n (code i (field f) g t) d (parse_lines (suc n) (all_text ws)) h
    ∙ parse_lines-write (suc n) ws (record d { fields = d.fields ++ (f ∷ []) }) hs
    ∙ ap
        (λ fs. parsed record {
          fields = fs;
          constants = d.constants ++ constants_of ws;
          topics = topics_of d.topics ws;
        })
        (append_assoc d.fields (f ∷ []) (fields_of ws))
parse_lines-write n (code i (constant c) g t ∷ ws) d (h, hs) =
    add_line-write n (code i (constant c) g t) d (parse_lines (suc n) (all_text ws)) h
    ∙ parse_lines-write (suc n) ws (record d { constants = d.constants ++ (c ∷ []) }) hs
    ∙ ap
        (λ cs. parsed record {
          fields = d.fields ++ fields_of ws;
          constants = cs;
          topics = topics_of d.topics ws;
        })
        (append_assoc d.constants (c ∷ []) (constants_of ws))

-- The message that the lines of a file say.
abbrev pub message : List ℕ → List Written → MsgDef
message name ws = record {
  name = name;
  snake_name = camel_to_snake name;
  fields = fields_of ws;
  constants = constants_of ws;
  topics = topics_or (topics_of none ws) (camel_to_snake name);
  message_version = version_of (find_value (codes "MESSAGE_VERSION") (constants_of ws));
}

-- A file that is written line by line by the grammar, each line with any indentation, gap and comment,
-- is parsed to the fields and constants in the order of their lines and the last list of topics, if
-- names are words, lists of topics and values are not empty, values are trimmed and without `#`, a
-- remark that is trimmed does not begin with TOPICS, array lengths fit in 64 bits and no line holds a
-- line end.
pub parse-write :
    (name : List ℕ) (ws : List Written)
    → AllWritten ws
    → parse_str name (write_all ws) ≡ parsed (message name ws)
unfolding parse_str
parse-write name ws h =
    ap (λ ls. finish_parse name (parse_lines 1 ls new_draft)) (lines-write_all ws h)
    ∙ ap (finish_parse name) (parse_lines-write 1 ws new_draft h)
