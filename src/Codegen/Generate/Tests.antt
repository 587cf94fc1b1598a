-- ===== src/Codegen/Generate/Tests.antt =====
-- A small file that nests another, generated; a token is its text, and every name is accepted.
use px4_rs.Prelude.{
  ℕ, ◌≡◌, Bool, true, Option, none, some, List, [], ◌∷◌, ◌++◌, if◌then◌else◌, if-holds, refl, arith,
  inr, sym, ap, ◌∙◌,
}
use mathlib.Core.Path.{subst}
use px4_rs.Text.{codes, equal, is_whitespace}
use px4_rs.Codegen.{
  Field, Result, ok, unresolved, too_deep, Scalar, scalar, nested, real, padding, size_by_name,
  and_then, found, layout,
}
use px4_rs.Codegen.Types.{token, rust_type_for}
use px4_rs.Codegen.Parser.{MsgDef, Parse, parsed, syntax, parse_str}
use px4_rs.Codegen.Emit.{LaidOutMsg, Emitted, bare, raw, written, bytes, given, lay_out}
use px4_rs.Codegen.Emit.Struct.{Compiled, emitted_size}
use px4_rs.Codegen.Emit.{emit}
use px4_rs.Codegen.Emit.Names.{Distinct, NoPadding, field_names}
use px4_rs.Codegen.Emit.Distinct.{emitted_names, emitted-Distinct}
use px4_rs.Codegen.Generate.{generated, generate}
use px4_rs.Codegen.Generate.Sound.{generate_asserted}

abbrev as_text : List ℕ → Option (List ℕ)
as_text s = some s

abbrev any_name : List ℕ → Bool
any_name s = true

-- `Point` is the only other file.
abbrev point : List (Field (List ℕ))
point = record { name = codes "x"; ty = scalar Scalar.f32 } ∷ []

abbrev point_file : List ℕ → Option (List (Field (List ℕ)))
point_file n = if equal n (codes "Point") then some point else none

abbrev text : List ℕ
text =
    codes "uint16 type"
    ++ (b'\n' ∷ (codes "Point at" ++ (b'\n' ∷ codes "uint8 ORB_QUEUE_LENGTH = 4")))

-- Three bytes are added before the nested field and none behind it.
abbrev emitted : Emitted (List ℕ)
emitted = record {
  ident = bare (codes "Mark");
  fields =
      record { ident = raw (codes "type"); ty = written (codes "u16") }
      ∷ record { ident = bare (codes "_padding0"); ty = bytes 6 }
      ∷ record { ident = bare (codes "at"); ty = written (codes "Point") }
      ∷ [];
  consts =
      record { ident = bare (codes "ORB_QUEUE_LENGTH"); ty = codes "u8"; value = codes "4" } ∷ [];
  topics = codes "mark" ∷ [];
  asserted = 16;
  topic_items =
      record {
        topic = bare (codes "mark");
        msg = bare (codes "Mark");
        cname = bare (codes "__ORB_NAME_MARK");
        meta = bare (codes "__ORB_META_MARK");
        resolved = bare (codes "__ORB_META_MARK_RESOLVED");
        metadata = record {
          o_name = codes "mark" ++ (0 ∷ []);
          o_size = 16;
          o_size_no_padding = 16;
          hash = 3720109720;
          o_id = 65535;
          o_queue = given (codes "4");
        };
      }
      ∷ [];
}

mark_generated :
    generate as_text any_name any_name point_file 2 (codes "Mark") text ≡ generated emitted
unfolding generate is_whitespace token equal
mark_generated = refl

abbrev eight : List ℕ → ℕ
eight n = 8

-- The size of `Point` is 8, and no other message has one.
point_file_sizes : (n : List ℕ) (k : ℕ) → size_by_name point_file 2 n ≡ ok k → eight n ≡ k
unfolding size_by_name
point_file_sizes n k =
    if-holds
      (λ (o : Option (List (Field (List ℕ)))).
        found n o (λ fs. and_then (layout (size_by_name point_file 1) fs) (λ l. ok l.total)) ≡ ok k
        → eight n ≡ k)
      (equal n (codes "Point")) (λ y e. ground arith) (λ y e. absurd (ground arith))

abbrev mark_fields : List (Field (List ℕ))
mark_fields =
    record { name = codes "type"; ty = scalar Scalar.u16 }
    ∷ record { name = codes "at"; ty = nested (codes "Point") }
    ∷ []

abbrev mark : MsgDef
mark = record {
  name = codes "Mark";
  snake_name = codes "mark";
  fields = mark_fields;
  constants = record { ty = Scalar.u8; name = codes "ORB_QUEUE_LENGTH"; value = codes "4" } ∷ [];
  topics = codes "mark" ∷ [];
  message_version = none;
}

abbrev mark_laid : LaidOutMsg
mark_laid = record {
  name = codes "Mark";
  snake_name = codes "mark";
  fields =
      real record { name = codes "type"; ty = scalar Scalar.u16 }
      ∷ padding 0 6
      ∷ real record { name = codes "at"; ty = nested (codes "Point") }
      ∷ [];
  constants = mark.constants;
  topics = codes "mark" ∷ [];
  size = 16;
  hash = 3720109720;
}

mark_laid_lem : lay_out point_file 2 mark ≡ ok mark_laid
unfolding lay_out equal token
mark_laid_lem = refl

mark_emitted : emit as_text any_name any_name mark_laid ≡ some emitted
unfolding emit
mark_emitted = refl

abbrev text_or : Option (List ℕ) → List ℕ
text_or none = []
text_or (some s) = s

-- A type of two bytes, and the others of eight.
abbrev text_size : List ℕ → ℕ
text_size t = if equal t (codes "u16") then 2 else 8

abbrev parsed_or : Parse MsgDef → MsgDef
parsed_or (parsed d) = d
parsed_or (syntax n r) = mark

abbrev laid_or : Result (List ℕ) LaidOutMsg → LaidOutMsg
laid_or (ok l) = l
laid_or (unresolved n) = mark_laid
laid_or too_deep = mark_laid

mark_parsed : parse_str (codes "Mark") text ≡ parsed mark
unfolding parse_str is_whitespace equal
mark_parsed = refl

mark_Compiled : Compiled text_size text_size as_text eight eight mark_laid.fields
unfolding equal rust_type_for
mark_Compiled = (
  λ t e.
      let q : codes "u16" ≡ t = ap text_or e in
      subst (λ x. (text_size x ≡ 2) × (text_size x ≡ 2)) q (refl, refl),
  (
    λ t e.
        let q : codes "Point" ≡ t = ap text_or e in
        subst (λ x. (text_size x ≡ 8) × (text_size x ≡ 8)) q (refl, refl),
    tt,
  ),
)

mark_types :
    (d : MsgDef) (l : LaidOutMsg)
    → parse_str (codes "Mark") text ≡ parsed d
    → lay_out point_file 2 d ≡ ok l
    → Compiled text_size text_size as_text eight eight l.fields
mark_types d l read laid =
    let same : mark ≡ d = ap parsed_or (sym mark_parsed ∙ read) in
    let same_laid : mark_laid ≡ l =
      ap laid_or (sym mark_laid_lem ∙ (ap (lay_out point_file 2) same ∙ laid)) in
    subst (λ (x : LaidOutMsg). Compiled text_size text_size as_text eight eight x.fields) same_laid
      mark_Compiled

generate_asserted_example :
    (d : MsgDef) × (l : LaidOutMsg) × (parse_str (codes "Mark") text ≡ parsed d)
    × (lay_out point_file 2 d ≡ ok l)
    × (16 ≡ emitted_size text_size text_size emitted.fields)
generate_asserted_example =
    generate_asserted as_text any_name any_name text_size text_size point_file 2 eight eight
      (codes "Mark") text emitted point_file_sizes (λ n. inr (inr (inr refl))) mark_types
      mark_generated

mark_NoPadding : NoPadding (field_names mark.fields)
mark_NoPadding = (λ i e. absurd (ground arith), (λ i e. absurd (ground arith), tt))

emitted-Distinct_example : Distinct (emitted_names emitted.fields)
emitted-Distinct_example =
    emitted-Distinct as_text any_name any_name point_file 2 mark mark_laid emitted mark_laid_lem
      mark_emitted ((λ e. absurd (ground arith), tt), (tt, tt)) mark_NoPadding
