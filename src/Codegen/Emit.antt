-- ===== src/Codegen/Emit.antt =====
-- crates/px4-msg-codegen/src/emit.rs, layout.rs and lib.rs: a message laid out in full, and the items
-- that are generated for it.
--
-- The tokens of Rust are those of proc_macro2: `tokenize` stands for `parse` into tokens, `accepts` and
-- `accepts_raw` for the texts of which `Ident::new` and `Ident::new_raw` make a name. Where the source
-- would panic the result is `none`. The crate paths are left out.
pub mod ReprC
pub mod Struct
pub mod Assertion
pub mod Numbering
pub mod Names
pub mod Distinct
use px4_rs.Prelude.{
  ℕ, ◌+◌, ◌-◌, ◌%◌, ◌^◌, leb, Bool, true, false, ◌&&◌, ◌||◌, Option, none, some, List, [], ◌∷◌,
  ◌++◌, if◌then◌else◌,
}
use px4_rs.Text.{codes, equal, format_uint}
use px4_rs.Codegen.{
  Field, FieldType, LaidOutField, LaidOut, Result, ok, unresolved, too_deep, real, padding,
  and_then, layout, size_by_name,
}
use px4_rs.Codegen.Naming.{is_lower}
use px4_rs.Codegen.Types.{rust_type, rust_type_for}
use px4_rs.Codegen.Parser.{Constant, MsgDef, Reason, Parse, parsed, syntax, parse_str, find_value}
use px4_rs.Codegen.Hash.{message_hash}

pub record LaidOutMsg : Type 0 where
  pub name : List ℕ
  pub snake_name : List ℕ
  pub fields : List (LaidOutField (List ℕ))
  pub constants : List Constant
  pub topics : List (List ℕ)
  pub size : ℕ
  pub hash : ℕ

abbrev pub laid_out_msg : MsgDef → LaidOut (List ℕ) → ℕ → LaidOutMsg
laid_out_msg d l h = record {
  name = d.name;
  snake_name = d.snake_name;
  fields = l.fields;
  constants = d.constants;
  topics = d.topics;
  size = l.total;
  hash = h;
}

-- `Resolver::layout`
unfoldable pub lay_out :
    (List ℕ → Option (List (Field (List ℕ)))) → ℕ → MsgDef → Result (List ℕ) LaidOutMsg
unfolding layout size_by_name message_hash
lay_out files fuel d =
    and_then (layout (size_by_name files fuel) d.fields)
      (λ l. and_then (message_hash files fuel d.fields) (λ h. ok (laid_out_msg d l h)))

-- `is_rust_keyword`
abbrev pub keywords : List (List ℕ)
keywords =
    codes "as"
    ∷ codes "break"
    ∷ codes "const"
    ∷ codes "continue"
    ∷ codes "crate"
    ∷ codes "else"
    ∷ codes "enum"
    ∷ codes "extern"
    ∷ codes "false"
    ∷ codes "fn"
    ∷ codes "for"
    ∷ codes "if"
    ∷ codes "impl"
    ∷ codes "in"
    ∷ codes "let"
    ∷ codes "loop"
    ∷ codes "match"
    ∷ codes "mod"
    ∷ codes "move"
    ∷ codes "mut"
    ∷ codes "pub"
    ∷ codes "ref"
    ∷ codes "return"
    ∷ codes "self"
    ∷ codes "static"
    ∷ codes "struct"
    ∷ codes "super"
    ∷ codes "trait"
    ∷ codes "true"
    ∷ codes "type"
    ∷ codes "unsafe"
    ∷ codes "use"
    ∷ codes "where"
    ∷ codes "while"
    ∷ codes "async"
    ∷ codes "await"
    ∷ codes "dyn"
    ∷ []

unfoldable pub is_one_of : List ℕ → List (List ℕ) → Bool
unfolding equal
is_one_of s [] = false
is_one_of s (w ∷ ws) = equal s w || is_one_of s ws

unfoldable pub is_rust_keyword : List ℕ → Bool
unfolding is_one_of
is_rust_keyword s = is_one_of s keywords

-- A name of Rust, with `r#` or without.
pub data Ident : Type 0 where
  bare : List ℕ → Ident
  raw : List ℕ → Ident

abbrev pub or_panic : {A B : Type 0} → Option A → (A → Option B) → Option B
or_panic none f = none
or_panic (some a) f = f a

abbrev pub to_upper : ℕ → ℕ
to_upper c = if is_lower c then c - 32 else c

-- `to_uppercase` of ASCII
unfoldable pub to_uppercase : List ℕ → List ℕ
to_uppercase [] = []
to_uppercase (c ∷ cs) = to_upper c ∷ to_uppercase cs

-- The type of a field: tokens, or an array of bytes.
pub data RustType (Token : Type 0) : Type 0 where
  written : Token → RustType Token
  bytes : ℕ → RustType Token

pub record EmittedField (Token : Type 0) : Type 0 where
  pub ident : Ident
  pub ty : RustType Token

pub record EmittedConstant (Token : Type 0) : Type 0 where
  pub ident : Ident
  pub ty : Token
  pub value : Token

-- The depth of the queue: 1, or the value of the constant.
pub data Queue (Token : Type 0) : Type 0 where
  one : Queue Token
  given : Token → Queue Token

-- The initialiser of `orb_metadata`.
pub record Metadata (Token : Type 0) : Type 0 where
  pub o_name : List ℕ
  pub o_size : ℕ
  pub o_size_no_padding : ℕ
  pub hash : ℕ
  pub o_id : ℕ
  pub o_queue : Queue Token

-- The items of one topic.
pub record EmittedTopic (Token : Type 0) : Type 0 where
  pub topic : Ident
  pub msg : Ident
  pub cname : Ident
  pub meta : Ident
  pub resolved : Ident
  pub metadata : Metadata Token

-- The items of a message; `asserted` is the size that the compile-time assertion compares with.
pub record Emitted (Token : Type 0) : Type 0 where
  pub ident : Ident
  pub fields : List (EmittedField Token)
  pub consts : List (EmittedConstant Token)
  pub topics : List (List ℕ)
  pub asserted : ℕ
  pub topic_items : List (EmittedTopic Token)

abbrev pub all_or_panic : {A B : Type 0} → (A → Option B) → List A → Option (List B)
all_or_panic f [] = some []
all_or_panic f (a ∷ rest) =
    or_panic (f a) (λ b. or_panic (all_or_panic f rest) (λ bs. some (b ∷ bs)))

module _ {Token : Type 0} (tokenize : List ℕ → Option Token)
    (accepts accepts_raw : List ℕ → Bool) where
  -- `Ident::new` and `format_ident!`
  abbrev pub new_ident : List ℕ → Option Ident
  new_ident s = if accepts s then some (bare s) else none

  abbrev pub sanitize_ident : List ℕ → Option Ident
  unfolding is_rust_keyword
  sanitize_ident s =
      if is_rust_keyword s then (if accepts_raw s then some (raw s) else none) else new_ident s

  abbrev pub emit_field : LaidOutField (List ℕ) → Option (EmittedField Token)
  unfolding rust_type_for format_uint
  emit_field (real f) = or_panic (sanitize_ident f.name) (λ i.
      or_panic (tokenize (rust_type_for f.ty)) (λ t. some record { ident = i; ty = written t }))
  emit_field (padding index size) =
      or_panic (new_ident (codes "_padding" ++ format_uint index))
        (λ i. some record { ident = i; ty = bytes size })

  abbrev pub emit_constant : Constant → Option (EmittedConstant Token)
  emit_constant c = or_panic (new_ident c.name) (λ i.
      or_panic (tokenize (rust_type c.ty))
        (λ t. or_panic (tokenize c.value) (λ v. some record { ident = i; ty = t; value = v })))

  -- Without the constant, or where its value is no tokens, the depth is 1.
  abbrev pub queue_value : Option Token → Queue Token
  queue_value none = one
  queue_value (some t) = given t

  abbrev pub queue_of : Option (List ℕ) → Queue Token
  queue_of none = one
  queue_of (some value) = queue_value (tokenize value)

  abbrev pub metadata_of : LaidOutMsg → List ℕ → Metadata Token
  unfolding find_value
  metadata_of l topic = record {
    o_name = topic ++ (0 ∷ []);
    o_size = l.size % 2 ^ 16;
    o_size_no_padding = l.size % 2 ^ 16;
    hash = l.hash;
    o_id = 65535;
    o_queue = queue_of (find_value (codes "ORB_QUEUE_LENGTH") l.constants);
  }

  abbrev pub emit_topic : LaidOutMsg → List ℕ → Option (EmittedTopic Token)
  unfolding to_uppercase
  emit_topic l topic =
      let upper : List ℕ = to_uppercase topic in
      or_panic (new_ident l.name) (λ msg. or_panic (new_ident topic) (λ name.
        or_panic (new_ident (codes "__ORB_META_" ++ upper)) (λ meta.
          or_panic (new_ident (codes "__ORB_NAME_" ++ upper)) (λ cname.
            or_panic (new_ident (codes "__ORB_META_" ++ (upper ++ codes "_RESOLVED"))) (λ resolved.
              some record {
                topic = name;
                msg = msg;
                cname = cname;
                meta = meta;
                resolved = resolved;
                metadata = metadata_of l topic;
              })))))

  -- `emit_with_paths`
  unfoldable pub emit : LaidOutMsg → Option (Emitted Token)
  unfolding is_rust_keyword rust_type_for format_uint find_value to_uppercase
  emit l = or_panic (new_ident l.name) (λ i. or_panic (all_or_panic emit_field l.fields) (λ fields.
      or_panic (all_or_panic emit_constant l.constants) (λ consts.
        or_panic (all_or_panic (emit_topic l) l.topics) (λ items. some record {
          ident = i;
          fields = fields;
          consts = consts;
          topics = l.topics;
          asserted = l.size;
          topic_items = items;
        }))))
