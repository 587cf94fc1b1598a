-- ===== src/Codegen/Generate/Sound.antt =====
-- What is generated fits what is laid out.
use px4_rs.Prelude.{ℕ, ◌≡◌, Bool, Option, none, some, List, ◌<◌, refl, sym, ◌∙◌, arith}
use px4_rs.Codegen.{Field, LaidOutField, Result, ok, unresolved, too_deep, size_by_name}
use px4_rs.Codegen.Parser.{MsgDef, Parse, parsed, syntax, parse_str}
use px4_rs.Codegen.Emit.{LaidOutMsg, lay_out, Emitted, emit}
use px4_rs.Codegen.Emit.ReprC.{IsAlignment, struct_align, struct_align-IsAlignment}
use px4_rs.Codegen.Emit.Struct.{Compiled, emitted_size, emitted-repr_c_size}
use px4_rs.Codegen.Emit.Assertion.{assertion_holds, emit-fields}
use px4_rs.Codegen.Generate.{generated, tokens_or_panic, generate_laid, generate_parsed, generate}

tokens-generated :
    {Token : Type 0} (o : Option (Emitted Token)) (e : Emitted Token)
    → tokens_or_panic o ≡ generated e
    → o ≡ some e
tokens-generated none e h = absurd (ground arith)
tokens-generated (some x) e h = ground arith

module _ {Token : Type 0} (tokenize : List ℕ → Option Token) (accepts accepts_raw : List ℕ → Bool)
    (files : List ℕ → Option (List (Field (List ℕ)))) (fuel : ℕ) where
  laid-generated :
      (r : Result (List ℕ) LaidOutMsg) (e : Emitted Token)
      → generate_laid tokenize accepts accepts_raw files fuel r ≡ generated e
      → (l : LaidOutMsg) × (r ≡ ok l) × (emit tokenize accepts accepts_raw l ≡ some e)
  laid-generated (ok l) e h = (l, refl, tokens-generated (emit tokenize accepts accepts_raw l) e h)
  laid-generated (unresolved n) e h = absurd (ground arith)
  laid-generated too_deep e h = absurd (ground arith)

  parsed-generated :
      (p : Parse MsgDef) (e : Emitted Token)
      → generate_parsed tokenize accepts accepts_raw files fuel p ≡ generated e
      → (d : MsgDef) × (l : LaidOutMsg) × (p ≡ parsed d)
        × (lay_out files fuel d ≡ ok l)
        × (emit tokenize accepts accepts_raw l ≡ some e)
  parsed-generated (parsed d) e h =
      let (l, laid, emitted) = laid-generated (lay_out files fuel d) e h in
      (d, l, refl, laid, emitted)
  parsed-generated (syntax n r) e h = absurd (ground arith)

-- If a file is generated, it was parsed and laid out, and its assertion holds: the number that it
-- compares with is the size that `repr(C)` gives the generated struct, all of its fields with the
-- paddings among them. The conditions: the compiler gives a type that is written for a field of the
-- message the size and alignment of that type, the structs of nested messages have the sizes of their
-- own layouts, and their alignments are 1, 2, 4 or 8.
pub generate_asserted :
    {Token : Type 0} (tokenize : List ℕ → Option Token) (accepts accepts_raw : List ℕ → Bool)
    (token_size token_align : Token → ℕ) (files : List ℕ → Option (List (Field (List ℕ))))
    (fuel : ℕ) (size_of align_of : List ℕ → ℕ) (name text : List ℕ) (e : Emitted Token)
    → ((n : List ℕ) (k : ℕ) → size_by_name files fuel n ≡ ok k → size_of n ≡ k)
    → ((n : List ℕ) → IsAlignment (align_of n))
    → ((d : MsgDef) (l : LaidOutMsg)
        → parse_str name text ≡ parsed d
        → lay_out files fuel d ≡ ok l
        → Compiled token_size token_align tokenize size_of align_of l.fields)
    → generate tokenize accepts accepts_raw files fuel name text ≡ generated e
    → (d : MsgDef) × (l : LaidOutMsg) × (parse_str name text ≡ parsed d)
      × (lay_out files fuel d ≡ ok l)
      × (e.asserted ≡ emitted_size token_size token_align e.fields)
unfolding generate
generate_asserted tokenize accepts accepts_raw token_size token_align files fuel size_of align_of
      name text e sizes aligns compiled h =
    let (d, l, read, laid, emitted) =
      parsed-generated tokenize accepts accepts_raw files fuel (parse_str name text) e h in
    let positive : (fs : List (LaidOutField (List ℕ))) → 0 < struct_align size_of align_of fs =
      λ fs. omega (
        arith,
        struct_align-IsAlignment (size_by_name files fuel) size_of align_of sizes aligns fs,
      ) in
    (
      d,
      l,
      read,
      laid,
      assertion_holds tokenize accepts accepts_raw files fuel size_of align_of d l e sizes aligns
            laid emitted
          ∙ sym (
              emitted-repr_c_size tokenize accepts accepts_raw token_size token_align size_of
                align_of positive l.fields e.fields
                (emit-fields tokenize accepts accepts_raw l e emitted) (compiled d l read laid)),
    )
