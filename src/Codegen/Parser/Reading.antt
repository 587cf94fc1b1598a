-- ===== src/Codegen/Parser/Reading.antt =====
-- How the parser reads the lines that are written by the grammar.
use px4_rs.Prelude.{
  ℕ, ◌≡◌, true, false, Option, none, List, [], ◌∷◌, ◌++◌, arith, refl, ap, ap₂, ◌∙◌, sym,
  append-nil, append_assoc,
}
use px4_rs.Text.{
  codes, all, is_nil, is_whitespace, trim_start, trim_end, trim, split_whitespace, split_once,
  strip_prefix,
}
use px4_rs.Text.Words.{
  all-append, all_weaken, split_once_at, split_once-none, trim_end-blanks, trim_end-at,
  trim-trim_end, trim_end_idem, is_plain, IsWord, trim_end_word, trim_blank, trim_end-word,
  split_space, word_then, last_word, two_words, plain-not_blank, space_blank,
}
use px4_rs.Codegen.{Field}
use px4_rs.Codegen.Types.{px4_name, token}
use px4_rs.Codegen.Types.Tokens.{is_not, parse-token, scalar_of-px4_name}
use px4_rs.Codegen.Parser.{
  Constant, nothing, topics_are, constant_is, field_is, code_line, comment_line, read_line,
  typed_field, typed_constant, field_line, constant_line, topic_line,
}
use px4_rs.Codegen.Parser.Lines.{
  code_text, read_line-code, px4_name-IsWord, token-IsWord, trim_indent, hash_solid, read_trimmed,
}
use px4_rs.Codegen.Parser.Written.{
  field, constant, Written, blank, remark, topics, code, body_text, topics_text, write, meaning,
  is_gap, is_value, IsBody, AllWords, IsWritten,
}

gap-blank : (g : List ℕ) → all is_gap g ≡ true → all is_whitespace g ≡ true
gap-blank g h = all_weaken is_gap is_whitespace g (λ c k. ground arith) h

plain-is_not :
    (w : List ℕ)
    → all is_plain w ≡ true
    → (all (is_not b'#') w ≡ true) × (all (is_not b'=') w ≡ true)
plain-is_not w h = (
  all_weaken is_plain (is_not b'#') w (λ c p. ground arith) h,
  all_weaken is_plain (is_not b'=') w (λ c p. ground arith) h,
)

-- A line whose code begins with a word.
read_line-word :
    (w s indent gap : List ℕ) (comment : Option (List ℕ))
    → IsWord w
    → trim_end (w ++ s) ≡ w ++ s
    → all (is_not b'#') s ≡ true
    → all is_gap indent ≡ true
    → all is_gap gap ≡ true
    → read_line (code_text indent (w ++ s) gap comment)
      ≡ code_line (w ++ s) (split_once b'=' (w ++ s))
read_line-word [] s indent gap comment (n, p) ends h i g = absurd (cc)
read_line-word (c ∷ w) s indent gap comment (n, p) ends h i g =
    read_line-code c (w ++ s) (ground arith) ends
      (all-append (is_not b'#') (c ∷ w) s (plain-is_not (c ∷ w) p).0 h) indent gap comment
      (gap-blank indent i) (gap-blank gap g)

ends_with_word : (v w : List ℕ) → IsWord w → trim_end (v ++ b' ' ∷ w) ≡ v ++ b' ' ∷ w
ends_with_word v w (n, p) =
    ap trim_end (sym (append_assoc v (b' ' ∷ []) w))
    ∙ trim_end_word (v ++ b' ' ∷ []) w n (plain-not_blank w p)
    ∙ append_assoc v (b' ' ∷ []) w

read_line-field :
    (f : Field (List ℕ)) (indent gap : List ℕ) (comment : Option (List ℕ))
    → IsBody (field f)
    → all is_gap indent ≡ true
    → all is_gap gap ≡ true
    → read_line (code_text indent (body_text (field f)) gap comment) ≡ field_is f
read_line-field f indent gap comment (t, w) i g =
    let v : List ℕ = token f.ty in
    let v_word : IsWord v = token-IsWord f.ty t in
    let no_equals : all (is_not b'=') (v ++ b' ' ∷ f.name) ≡ true =
      all-append (is_not b'=') v (b' ' ∷ f.name) (plain-is_not v v_word.1).1
        (plain-is_not f.name w.1).1 in
    read_line-word v (b' ' ∷ f.name) indent gap comment v_word (ends_with_word v f.name w)
      (plain-is_not f.name w.1).0 i g
    ∙ ap (code_line (v ++ b' ' ∷ f.name)) (split_once-none b'=' (v ++ b' ' ∷ f.name) no_equals)
    ∙ ap field_line (two_words v f.name v_word w)
    ∙ ap (typed_field v f.name) (parse-token f.ty t)

value_ends : (v : List ℕ) → is_nil v ≡ false → trim v ≡ v → trim_end (b' ' ∷ v) ≡ b' ' ∷ v
unfolding trim trim_end
value_ends v n t =
    let e : trim_end v ≡ v = ap trim_end (sym t) ∙ trim_end_idem (trim_start v) ∙ t in
    rw (space_blank, e, n) refl

trim-space : (v : List ℕ) → trim (b' ' ∷ v) ≡ trim v
unfolding trim trim_start
trim-space v = rw space_blank refl

trim-head :
    (v w : List ℕ) → IsWord v → IsWord w → trim (v ++ b' ' ∷ (w ++ codes " ")) ≡ v ++ b' ' ∷ w
trim-head [] w p q = absurd (cc)
trim-head (c ∷ v) w p q =
    trim_indent [] c (v ++ b' ' ∷ (w ++ codes " ")) refl (ground arith)
    ∙ ap trim_end (sym (append_assoc (c ∷ v) (b' ' ∷ w) (codes " ")))
    ∙ trim_end-blanks ((c ∷ v) ++ b' ' ∷ w) (codes " ") (rw space_blank refl)
    ∙ ends_with_word (c ∷ v) w q

equals_solid : is_whitespace b'=' ≡ false
unfolding is_whitespace
equals_solid = refl

value-is_not : (v : List ℕ) → all is_value v ≡ true → all (is_not b'#') v ≡ true
value-is_not v h = all_weaken is_value (is_not b'#') v (λ c k. ground arith) h

read_line-constant :
    (c : Constant) (indent gap : List ℕ) (comment : Option (List ℕ))
    → IsBody (constant c)
    → all is_gap indent ≡ true
    → all is_gap gap ≡ true
    → read_line (code_text indent (body_text (constant c)) gap comment) ≡ constant_is c
read_line-constant c indent gap comment (w, full, trimmed, vs) i g =
    let v : List ℕ = px4_name c.ty in
    let v_word : IsWord v = px4_name-IsWord c.ty in
    let name_text : List ℕ = b' ' ∷ (c.name ++ codes " ") in
    let value_text : List ℕ = b' ' ∷ c.value in
    let split : List ℕ = v ++ name_text in
    let whole : v ++ (name_text ++ b'=' ∷ value_text) ≡ split ++ b'=' ∷ value_text =
      sym (append_assoc v name_text (b'=' ∷ value_text)) in
    let ends : trim_end (v ++ (name_text ++ b'=' ∷ value_text))
        ≡ v ++ (name_text ++ b'=' ∷ value_text) =
      ap trim_end whole
      ∙ trim_end-at split b'=' value_text equals_solid
      ∙ ap (λ t. split ++ b'=' ∷ t) (value_ends c.value full trimmed)
      ∙ sym whole in
    let no_hash : all (is_not b'#') (name_text ++ b'=' ∷ value_text) ≡ true =
      all-append (is_not b'#') name_text (b'=' ∷ value_text)
        (all-append (is_not b'#') c.name (codes " ") (plain-is_not c.name w.1).0 refl)
        (value-is_not c.value vs) in
    let no_equals : all (is_not b'=') split ≡ true =
      all-append (is_not b'=') v name_text (plain-is_not v v_word.1).1
        (all-append (is_not b'=') c.name (codes " ") (plain-is_not c.name w.1).1 refl) in
    read_line-word v (name_text ++ b'=' ∷ value_text) indent gap comment v_word ends no_hash i g
    ∙ ap (λ t. code_line (v ++ (name_text ++ b'=' ∷ value_text)) (split_once b'=' t)) whole
    ∙ ap (code_line (v ++ (name_text ++ b'=' ∷ value_text)))
        (split_once_at b'=' split value_text no_equals)
    ∙ ap₂ constant_line
        (ap split_whitespace (trim-head v c.name v_word w) ∙ two_words v c.name v_word w)
        (trim-space c.value ∙ trimmed)
    ∙ ap (typed_constant v c.name c.value) (scalar_of-px4_name c.ty)

words-topics_text :
    (w : List ℕ) (ws : List (List ℕ))
    → IsWord w
    → AllWords ws
    → split_whitespace (w ++ topics_text ws) ≡ w ∷ ws
words-topics_text w [] h hs = ap split_whitespace (append-nil w) ∙ last_word w h
words-topics_text w (v ∷ ws) h (k, hs) =
    word_then w (v ++ topics_text ws) h ∙ ap (λ vs. w ∷ vs) (words-topics_text v ws k hs)

trim_end-topics_text :
    (ws : List (List ℕ)) → AllWords ws → trim_end (topics_text ws) ≡ topics_text ws
unfolding trim_end
trim_end-topics_text [] h = refl
trim_end-topics_text ([] ∷ ws) (h, hs) = absurd (cc)
trim_end-topics_text ((c ∷ w) ∷ ws) ((n, p), hs) =
    trim_end-at (b' ' ∷ []) c (w ++ topics_text ws) (ground arith)
    ∙ ap (λ t. b' ' ∷ c ∷ t)
        (trim_end-word w (topics_text ws) (plain-not_blank w (ground arith))
          ∙ ap (λ t. w ++ t) (trim_end-topics_text ws hs))

letter_solid : is_whitespace b'S' ≡ false
unfolding is_whitespace
letter_solid = refl

first_letter_solid : is_whitespace b'T' ≡ false
unfolding is_whitespace
first_letter_solid = refl

read_line-topics :
    (indent w : List ℕ) (ws : List (List ℕ))
    → all is_gap indent ≡ true
    → IsWord w
    → AllWords ws
    → read_line (write (topics indent (w ∷ ws))) ≡ topics_are (w ∷ ws)
unfolding read_line
read_line-topics indent w ws i h hs =
    let names : List ℕ = topics_text (w ∷ ws) in
    let ends : trim_end names ≡ names = trim_end-topics_text (w ∷ ws) (h, hs) in
    ap read_trimmed (
      trim_indent indent b'#' (codes " TOPICS" ++ names) (gap-blank indent i) hash_solid
      ∙ trim_end-at (codes "# TOPIC") b'S' names letter_solid
      ∙ ap (λ t. codes "# TOPICS" ++ t) ends)
    ∙ ap (λ t. comment_line (strip_prefix (codes "TOPICS") t))
        (trim-space (codes "TOPICS" ++ names)
          ∙ trim_indent [] b'T' (codes "OPICS" ++ names) refl first_letter_solid
          ∙ trim_end-at (codes "TOPIC") b'S' names letter_solid
          ∙ ap (λ t. codes "TOPICS" ++ t) ends)
    ∙ ap topic_line (split_space (w ++ topics_text ws) ∙ words-topics_text w ws h hs)

read_line-remark :
    (indent text : List ℕ)
    → all is_gap indent ≡ true
    → strip_prefix (codes "TOPICS") (trim text) ≡ none
    → read_line (write (remark indent text)) ≡ nothing
unfolding read_line
read_line-remark indent text i h =
    ap read_trimmed (
      trim_indent indent b'#' text (gap-blank indent i) hash_solid
      ∙ trim_end-at [] b'#' text hash_solid)
    ∙ ap (λ o. comment_line (strip_prefix (codes "TOPICS") o)) (trim-trim_end text)
    ∙ ap comment_line h

read_line-blank : (b : List ℕ) → all is_gap b ≡ true → read_line b ≡ nothing
unfolding read_line
read_line-blank b h = ap read_trimmed (trim_blank b (gap-blank b h))

-- Each line is read as what it says.
pub read_line-write : (w : Written) → IsWritten w → read_line (write w) ≡ meaning w
read_line-write (blank b) h = read_line-blank b h
read_line-write (remark indent text) (i, e, h) = read_line-remark indent text i h
read_line-write (topics indent []) h = elim h [ ]
read_line-write (topics indent (w ∷ ws)) (i, h, hs) = read_line-topics indent w ws i h hs
read_line-write (code indent (field f) gap comment) (i, h, g, e) =
    read_line-field f indent gap comment h i g
read_line-write (code indent (constant c) gap comment) (i, h, g, e) =
    read_line-constant c indent gap comment h i g
