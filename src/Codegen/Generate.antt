-- ===== src/Codegen/Generate.antt =====
-- crates/px4-msg-codegen/src/lib.rs, `generate`: a .msg file is parsed, laid out and generated. The
-- reading of the file and the search path are in `text` and `files`.
pub mod Sound
mod Tests
use px4_rs.Prelude.{ℕ, Bool, Option, none, some, List}
use px4_rs.Codegen.{Field, Result, ok, unresolved, too_deep}
use px4_rs.Codegen.Parser.{MsgDef, Reason, Parse, parsed, syntax, parse_str}
use px4_rs.Codegen.Emit.{LaidOutMsg, lay_out, Emitted, emit}

-- The tokens, an error, a panic of the generator, or a run out of fuel.
pub data Generated (Token : Type 0) : Type 0 where
  generated : Emitted Token → Generated Token
  bad_syntax : ℕ → Reason → Generated Token
  missing : List ℕ → Generated Token
  panicked : Generated Token
  out_of_fuel : Generated Token

abbrev pub tokens_or_panic : {Token : Type 0} → Option (Emitted Token) → Generated Token
tokens_or_panic none = panicked
tokens_or_panic (some e) = generated e

module _ {Token : Type 0} (tokenize : List ℕ → Option Token) (accepts accepts_raw : List ℕ → Bool)
    (files : List ℕ → Option (List (Field (List ℕ)))) (fuel : ℕ) where
  abbrev pub generate_laid : Result (List ℕ) LaidOutMsg → Generated Token
  generate_laid (ok l) = tokens_or_panic (emit tokenize accepts accepts_raw l)
  generate_laid (unresolved n) = missing n
  generate_laid too_deep = out_of_fuel

  abbrev pub generate_parsed : Parse MsgDef → Generated Token
  generate_parsed (parsed d) = generate_laid (lay_out files fuel d)
  generate_parsed (syntax n r) = bad_syntax n r

  unfoldable pub generate : List ℕ → List ℕ → Generated Token
  unfolding emit lay_out parse_str
  generate name text = generate_parsed (parse_str name text)
