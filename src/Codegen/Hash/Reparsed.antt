-- ===== src/Codegen/Hash/Reparsed.antt =====
-- The text that is hashed, read back.
use px4_rs.Prelude.{
  ℕ, zero, suc, ◌≡◌, ◌<◌, Option, none, some, List, [], ◌∷◌, ◌++◌, refl, ap, ap₂, ◌∙◌, sym, arith,
}
use px4_rs.Codegen.{
  Field, FieldType, Result, ok, unresolved, too_deep, and_then, scalar, scalar_array, nested,
  nested_array, found,
}
use px4_rs.Codegen.Depth.{NestsOnly, AllNest, AllNest-map, Ranked}
use px4_rs.Codegen.Hash.{field_text, nested_text, fields_text, text_by_name, message_text}
use px4_rs.Codegen.Parser.{parsed, parse_str}
use px4_rs.Codegen.Parser.Written.{write}
use px4_rs.Codegen.Parser.RoundTrip.{write_all, parse-write}
use px4_rs.Codegen.Hash.Flat.{
  inner_fields, flat_fields, fields_or_none, flat_by_name, AllNamed, line, lines_of,
  lines_of-AllWritten, write_all-append, field_text-write, NamedFiles, flat-AllNamed,
  by_name-AllNamed, bare_message, message-lines_of,
}

module _ (files : List ℕ → Option (List (Field (List ℕ)))) where
  -- The text of a result is that of the fields, or it names a message that is not found.
  abbrev TextOf : Result (List ℕ) (List ℕ) → List (Field (List ℕ)) → Type 0
  TextOf (ok s) fs = s ≡ write_all (lines_of fs)
  TextOf (unresolved n) fs = files n ≡ none
  TextOf too_deep fs = ⊥

  cons-TextOf :
      (f : Field (List ℕ)) (gs fs : List (Field (List ℕ))) (r q : Result (List ℕ) (List ℕ))
      → TextOf r gs
      → TextOf q fs
      → TextOf
          (and_then r (λ inner. and_then q (λ rest. ok (field_text f ++ (inner ++ rest)))))
          (f ∷ (gs ++ fs))
  cons-TextOf f gs fs (ok s) (ok t) e d =
      field_text-write f (s ++ t)
      ∙ ap (λ u. write (line f) ++ b'\n' ∷ u)
          (ap₂ (λ a b. a ++ b) e d ∙ sym (write_all-append gs fs))
  cons-TextOf f gs fs (ok s) (unresolved n) e d = d
  cons-TextOf f gs fs (ok s) too_deep e d = d
  cons-TextOf f gs fs (unresolved n) q e d = e
  cons-TextOf f gs fs too_deep q e d = absurd e

  module _ (text_of : List ℕ → Result (List ℕ) (List ℕ))
      (flat_of : List ℕ → List (Field (List ℕ))) where
    abbrev GivesText : List ℕ → Type 0
    GivesText n = TextOf (text_of n) (flat_of n)

    nested-TextOf :
        (t : FieldType (List ℕ))
        → NestsOnly GivesText t
        → TextOf (nested_text text_of t) (inner_fields flat_of t)
    nested-TextOf (scalar s) h = refl
    nested-TextOf (scalar_array s n) h = refl
    nested-TextOf (nested m) h = h
    nested-TextOf (nested_array m n) h = h

    fields-TextOf :
        (fs : List (Field (List ℕ)))
        → AllNest GivesText fs
        → TextOf (fields_text text_of fs) (flat_fields flat_of fs)
    unfolding fields_text
    fields-TextOf [] h = refl
    fields-TextOf (f ∷ fs) (h, hs) =
        cons-TextOf f (inner_fields flat_of f.ty) (flat_fields flat_of fs)
          (nested_text text_of f.ty) (fields_text text_of fs) (nested-TextOf f.ty h)
          (fields-TextOf fs hs)

  module _ (rank : List ℕ → ℕ) (ranked : Ranked files rank) where
    by_name-TextOf :
        (fuel : ℕ) (n : List ℕ)
        → rank n < fuel
        → TextOf (text_by_name files fuel n) (flat_by_name files fuel n)
    unfolding text_by_name
    by_name-TextOf zero n l = absurd (omega arith)
    by_name-TextOf (suc fuel) n l = found-TextOf (files n) refl (by_name-TextOf fuel)
      where
        found-TextOf :
            (o : Option (List (Field (List ℕ))))
            → files n ≡ o
            → ((m : List ℕ)
                → rank m < fuel
                → TextOf (text_by_name files fuel m) (flat_by_name files fuel m))
            → TextOf
                (found n o (fields_text (text_by_name files fuel)))
                (flat_fields (flat_by_name files fuel) (fields_or_none o))
        found-TextOf none e h = e
        found-TextOf (some fs) e h =
            fields-TextOf (text_by_name files fuel) (flat_by_name files fuel) fs (
              AllNest-map (λ m. rank m < rank n)
                (λ m. TextOf (text_by_name files fuel m) (flat_by_name files fuel m)) fs
                (λ m k. h m (omega arith)) (ranked n fs e))

-- What the text parses to, or the name of a message that is not found.
abbrev pub Reparses :
    (List ℕ → Option (List (Field (List ℕ))))
    → List (Field (List ℕ))
    → Result (List ℕ) (List ℕ)
    → Type 0
Reparses files flat (ok s) = (name : List ℕ) → parse_str name s ≡ parsed (bare_message name flat)
Reparses files flat (unresolved n) = files n ≡ none
Reparses files flat too_deep = ⊥

TextOf-Reparses :
    (files : List ℕ → Option (List (Field (List ℕ)))) (flat : List (Field (List ℕ)))
    (r : Result (List ℕ) (List ℕ))
    → AllNamed flat
    → TextOf files r flat
    → Reparses files flat r
TextOf-Reparses files flat (ok s) k e = λ name.
    ap (parse_str name) e
    ∙ parse-write name (lines_of flat) (lines_of-AllWritten flat k)
    ∙ ap parsed (message-lines_of name flat)
TextOf-Reparses files flat (unresolved n) k e = e
TextOf-Reparses files flat too_deep k e = absurd e

-- If the names in a message and in all files are words, nested types are in camel case, array lengths
-- fit in 64 bits, each file nests only messages of lower rank and the message only those of a rank
-- below the fuel, then either a message that is named is not found, or the text that is hashed
-- parses, under any name, to the message whose fields are those of the message, each followed by the
-- fields that its type nests.
pub text_reparsed :
    (files : List ℕ → Option (List (Field (List ℕ)))) (rank : List ℕ → ℕ) (fuel : ℕ)
    (fs : List (Field (List ℕ)))
    → NamedFiles files
    → AllNamed fs
    → Ranked files rank
    → AllNest (λ m. rank m < fuel) fs
    → Reparses files (flat_fields (flat_by_name files fuel) fs) (message_text files fuel fs)
unfolding message_text
text_reparsed files rank fuel fs h k ranked below =
    let flat_of : List ℕ → List (Field (List ℕ)) = flat_by_name files fuel in
    TextOf-Reparses files (flat_fields flat_of fs) (fields_text (text_by_name files fuel) fs)
      (flat-AllNamed flat_of (λ n. by_name-AllNamed files fuel n h) fs k)
      (fields-TextOf files (text_by_name files fuel) flat_of fs (
        AllNest-map (λ m. rank m < fuel) (λ m. TextOf files (text_by_name files fuel m) (flat_of m))
          fs (by_name-TextOf files rank ranked fuel) below))
