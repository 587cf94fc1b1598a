-- ===== src/Codegen/Parser.antt =====
-- crates/px4-msg-codegen/src/parser.rs and `MsgDef` of model.rs: a .msg file is read line by line.
pub mod Lines
pub mod Written
pub mod Reading
pub mod RoundTrip
pub mod Failing
mod Tests
use px4_rs.Prelude.{
  ℕ, suc, ◌==◌, Bool, true, false, Option, none, some, List, [], ◌∷◌, ◌++◌, if◌then◌else◌,
}
use px4_rs.Text.{
  codes, equal, is_nil, trim, split_whitespace, split_once, strip_prefix, lines, parse_uint,
}
use px4_rs.Codegen.{Scalar, FieldType, Field}
use px4_rs.Codegen.Naming.{camel_to_snake}
use px4_rs.Codegen.Types.{scalar_of, parse_field_type}

pub record Constant : Type 0 where
  pub ty : Scalar
  pub name : List ℕ
  pub value : List ℕ

pub record MsgDef : Type 0 where
  pub name : List ℕ
  pub snake_name : List ℕ
  pub fields : List (Field (List ℕ))
  pub constants : List Constant
  pub topics : List (List ℕ)
  pub message_version : Option ℕ

-- The messages of `ParseError::Syntax`.
pub data Reason : Type 0 where
  no_topic_names : Reason
  no_constant_type : Reason
  no_constant_name : Reason
  tokens_before_equals : Reason
  not_a_scalar : List ℕ → Reason
  empty_line : Reason
  no_field_name : Reason
  extra_field_tokens : Reason
  bad_field_type : List ℕ → Reason

-- The result, with the number of the line that is wrong.
pub data Parse (A : Type 0) : Type 0 where
  parsed : A → Parse A
  syntax : ℕ → Reason → Parse A

-- What one line says.
pub data Line : Type 0 where
  nothing : Line
  topics_are : List (List ℕ) → Line
  constant_is : Constant → Line
  field_is : Field (List ℕ) → Line
  wrong : Reason → Line

abbrev pub topic_line : List (List ℕ) → Line
topic_line [] = wrong no_topic_names
topic_line (w ∷ ws) = topics_are (w ∷ ws)

-- A line that begins with `#`, by what follows.
abbrev pub comment_line : Option (List ℕ) → Line
comment_line none = nothing
comment_line (some names) = topic_line (split_whitespace names)

abbrev pub typed_constant : List ℕ → List ℕ → List ℕ → Option Scalar → Line
typed_constant tok name value none = wrong (not_a_scalar tok)
typed_constant tok name value (some s) = constant_is record { ty = s; name = name; value = value }

-- The words before the `=`, and the value.
abbrev pub constant_line : List (List ℕ) → List ℕ → Line
constant_line [] value = wrong no_constant_type
constant_line (tok ∷ []) value = wrong no_constant_name
constant_line (tok ∷ name ∷ []) value = typed_constant tok name value (scalar_of tok)
constant_line (tok ∷ name ∷ w ∷ ws) value = wrong tokens_before_equals

abbrev pub typed_field : List ℕ → List ℕ → Option (FieldType (List ℕ)) → Line
typed_field tok name none = wrong (bad_field_type tok)
typed_field tok name (some t) = field_is record { name = name; ty = t }

abbrev pub field_line : List (List ℕ) → Line
field_line [] = wrong empty_line
field_line (tok ∷ []) = wrong no_field_name
field_line (tok ∷ name ∷ []) = typed_field tok name (parse_field_type tok)
field_line (tok ∷ name ∷ w ∷ ws) = wrong extra_field_tokens

abbrev pub code_line : List ℕ → Option (List ℕ × List ℕ) → Line
code_line code none = field_line (split_whitespace code)
code_line code (some (lhs, rhs)) = constant_line (split_whitespace (trim lhs)) (trim rhs)

-- The line without a comment behind it.
abbrev pub before_comment : List ℕ → Option (List ℕ × List ℕ) → List ℕ
before_comment trimmed none = trimmed
before_comment trimmed (some (code, comment)) = trim code

-- The line, trimmed, and what follows a `#` at its start.
abbrev pub trimmed_line : List ℕ → Option (List ℕ) → Line
trimmed_line trimmed (some rest) = comment_line (strip_prefix (codes "TOPICS") (trim rest))
trimmed_line trimmed none =
    let code = before_comment trimmed (split_once b'#' trimmed) in
    if is_nil code then nothing else code_line code (split_once b'=' code)

-- One round of the loop, as far as it reads.
unfoldable pub read_line : List ℕ → Line
unfolding trim strip_prefix split_once split_whitespace scalar_of parse_field_type
read_line raw = trimmed_line (trim raw) (strip_prefix (codes "#") (trim raw))

-- What the loop has gathered.
pub record Draft : Type 0 where
  pub fields : List (Field (List ℕ))
  pub constants : List Constant
  pub topics : Option (List (List ℕ))

abbrev pub new_draft : Draft
new_draft = record { fields = []; constants = []; topics = none }

-- One round of the loop, as far as it writes; `rest` runs the rounds after it.
abbrev pub add_line : ℕ → Line → Draft → (Draft → Parse Draft) → Parse Draft
add_line n nothing d rest = rest d
add_line n (topics_are ws) d rest = rest (record d { topics = some ws })
add_line n (constant_is c) d rest = rest (record d { constants = d.constants ++ (c ∷ []) })
add_line n (field_is f) d rest = rest (record d { fields = d.fields ++ (f ∷ []) })
add_line n (wrong r) d rest = syntax n r

-- The loop, from the line with number `n`.
unfoldable pub parse_lines : ℕ → List (List ℕ) → Draft → Parse Draft
unfolding read_line
parse_lines n [] d = parsed d
parse_lines n (l ∷ ls) d = add_line n (read_line l) d (parse_lines (suc n) ls)

unfoldable pub find_value : List ℕ → List Constant → Option (List ℕ)
unfolding equal
find_value name [] = none
find_value name (c ∷ cs) = if equal c.name name then some c.value else find_value name cs

abbrev pub u32_max : ℕ
u32_max = 4294967295

abbrev pub version_of : Option (List ℕ) → Option ℕ
version_of none = none
version_of (some value) = parse_uint u32_max (trim value)

abbrev pub topics_or : Option (List (List ℕ)) → List ℕ → List (List ℕ)
topics_or none name = name ∷ []
topics_or (some ws) name = ws

-- What follows the loop.
unfoldable pub finish_def : List ℕ → Draft → MsgDef
unfolding camel_to_snake find_value parse_uint trim
finish_def name d = record {
  name = name;
  snake_name = camel_to_snake name;
  fields = d.fields;
  constants = d.constants;
  topics = topics_or d.topics (camel_to_snake name);
  message_version = version_of (find_value (codes "MESSAGE_VERSION") d.constants);
}

abbrev pub finish_parse : List ℕ → Parse Draft → Parse MsgDef
finish_parse name (parsed d) = parsed (finish_def name d)
finish_parse name (syntax n r) = syntax n r

unfoldable pub parse_str : List ℕ → List ℕ → Parse MsgDef
unfolding lines parse_lines finish_def
parse_str name text = finish_parse name (parse_lines 1 (lines text) new_draft)
