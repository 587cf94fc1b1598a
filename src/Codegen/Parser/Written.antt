-- ===== src/Codegen/Parser/Written.antt =====
-- Lines written by the grammar at the head of the parser: with any indentation, one space between
-- words, any gap before a comment.
use px4_rs.Prelude.{
  ℕ, ◌≡◌, ◌==◌, Bool, true, false, not, ◌&&◌, Option, none, some, List, [], ◌∷◌, ◌++◌,
}
use px4_rs.Text.{codes, all, is_nil, is_whitespace, trim, strip_prefix}
use px4_rs.Text.Words.{IsWord}
use px4_rs.Codegen.{Field}
use px4_rs.Codegen.Types.{px4_name, token}
use px4_rs.Codegen.Types.Tokens.{IsWellNamed}
use px4_rs.Codegen.Parser.{Constant, Line, nothing, topics_are, constant_is, field_is}
use px4_rs.Codegen.Parser.Lines.{code_text}

-- The code of a line.
pub data Body : Type 0 where
  field : Field (List ℕ) → Body
  constant : Constant → Body

pub data Written : Type 0 where
  blank : List ℕ → Written
  remark : List ℕ → List ℕ → Written
  topics : List ℕ → List (List ℕ) → Written
  code : List ℕ → Body → List ℕ → Option (List ℕ) → Written

abbrev pub body_text : Body → List ℕ
body_text (field f) = token f.ty ++ b' ' ∷ f.name
body_text (constant c) = px4_name c.ty ++ ((b' ' ∷ (c.name ++ codes " ")) ++ b'=' ∷ b' ' ∷ c.value)

abbrev pub topics_text : List (List ℕ) → List ℕ
topics_text [] = []
topics_text (w ∷ ws) = b' ' ∷ (w ++ topics_text ws)

abbrev pub write : Written → List ℕ
write (blank b) = b
write (remark indent text) = indent ++ b'#' ∷ text
write (topics indent ws) = indent ++ (codes "# TOPICS" ++ topics_text ws)
write (code indent body gap comment) = code_text indent (body_text body) gap comment

-- What a line says.
abbrev pub body_line : Body → Line
body_line (field f) = field_is f
body_line (constant c) = constant_is c

abbrev pub meaning : Written → Line
meaning (blank b) = nothing
meaning (remark indent text) = nothing
meaning (topics indent ws) = topics_are ws
meaning (code indent body gap comment) = body_line body

abbrev pub not_line_end : ℕ → Bool
not_line_end c = not (c == b'\n') && not (c == b'\r')

abbrev pub is_gap : ℕ → Bool
is_gap c = is_whitespace c && not_line_end c

abbrev pub is_value : ℕ → Bool
is_value c = not_line_end c && not (c == b'#')

abbrev pub IsBody : Body → Type 0
IsBody (field f) = IsWellNamed f.ty × IsWord f.name
IsBody (constant c) =
    IsWord c.name
    × (is_nil c.value ≡ false)
    × (trim c.value ≡ c.value)
    × (all is_value c.value ≡ true)

abbrev pub AllWords : List (List ℕ) → Type 0
AllWords [] = Unit
AllWords (w ∷ ws) = IsWord w × AllWords ws

abbrev pub comment_or_none : Option (List ℕ) → List ℕ
comment_or_none none = []
comment_or_none (some text) = text

-- Names are words, values are trimmed, gaps are blank, a remark does not begin like the topics, and
-- no line holds a line end.
abbrev pub IsWritten : Written → Type 0
IsWritten (blank b) = all is_gap b ≡ true
IsWritten (remark indent text) =
    (all is_gap indent ≡ true)
    × (all not_line_end text ≡ true)
    × (strip_prefix (codes "TOPICS") (trim text) ≡ none)
IsWritten (topics indent []) = ⊥
IsWritten (topics indent (w ∷ ws)) = (all is_gap indent ≡ true) × IsWord w × AllWords ws
IsWritten (code indent body gap comment) =
    (all is_gap indent ≡ true)
    × IsBody body
    × (all is_gap gap ≡ true)
    × (all not_line_end (comment_or_none comment) ≡ true)
