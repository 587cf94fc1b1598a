-- ===== src/Codegen/Hash/Flat.antt =====
-- The fields of a message with those that it nests, and the lines that they are written on.
use px4_rs.Prelude.{
  ℕ, zero, suc, ◌≡◌, Option, none, some, List, [], ◌∷◌, ◌++◌, refl, ap, ◌∙◌, sym, append-nil,
  append_assoc,
}
use px4_rs.Text.{codes}
use px4_rs.Text.Words.{IsWord}
use px4_rs.Codegen.{Field, FieldType, scalar, scalar_array, nested, nested_array}
use px4_rs.Codegen.Naming.{camel_to_snake}
use px4_rs.Codegen.Types.{token}
use px4_rs.Codegen.Types.Tokens.{IsWellNamed}
use px4_rs.Codegen.Hash.{field_text}
use px4_rs.Codegen.Parser.{MsgDef, find_value}
use px4_rs.Codegen.Parser.Written.{Written, code, field, write}
use px4_rs.Codegen.Parser.RoundTrip.{
  AllWritten, write_all, fields_of, constants_of, topics_of, message,
}

-- A field, and the fields that its type nests; `flat_of` gives those of a message.
module _ (flat_of : List ℕ → List (Field (List ℕ))) where
  abbrev pub inner_fields : FieldType (List ℕ) → List (Field (List ℕ))
  inner_fields (scalar s) = []
  inner_fields (scalar_array s n) = []
  inner_fields (nested m) = flat_of m
  inner_fields (nested_array m n) = flat_of m

  abbrev pub flat_fields : List (Field (List ℕ)) → List (Field (List ℕ))
  flat_fields [] = []
  flat_fields (f ∷ fs) = f ∷ (inner_fields f.ty ++ flat_fields fs)

abbrev pub fields_or_none : Option (List (Field (List ℕ))) → List (Field (List ℕ))
fields_or_none none = []
fields_or_none (some fs) = fs

-- The fields of a message and all that it nests, each followed by those of its own type.
module _ (files : List ℕ → Option (List (Field (List ℕ)))) where
  abbrev pub flat_by_name : ℕ → List ℕ → List (Field (List ℕ))
  flat_by_name zero n = []
  flat_by_name (suc fuel) n = flat_fields (flat_by_name fuel) (fields_or_none (files n))

abbrev pub AllNamed : List (Field (List ℕ)) → Type 0
AllNamed [] = Unit
AllNamed (f ∷ fs) = (IsWellNamed f.ty × IsWord f.name) × AllNamed fs

pub AllNamed-append :
    (fs gs : List (Field (List ℕ))) → AllNamed fs → AllNamed gs → AllNamed (fs ++ gs)
AllNamed-append [] gs h k = k
AllNamed-append (f ∷ fs) gs (h, hs) k = (h, AllNamed-append fs gs hs k)

-- The line of a field by the grammar.
abbrev pub line : Field (List ℕ) → Written
line f = code [] (field f) [] none

abbrev pub lines_of : List (Field (List ℕ)) → List Written
lines_of [] = []
lines_of (f ∷ fs) = line f ∷ lines_of fs

pub lines_of-AllWritten : (fs : List (Field (List ℕ))) → AllNamed fs → AllWritten (lines_of fs)
lines_of-AllWritten [] h = tt
lines_of-AllWritten (f ∷ fs) (h, hs) = ((refl, h, refl, refl), lines_of-AllWritten fs hs)

pub write_all-append :
    (fs gs : List (Field (List ℕ)))
    → write_all (lines_of (fs ++ gs)) ≡ write_all (lines_of fs) ++ write_all (lines_of gs)
write_all-append [] gs = refl
write_all-append (f ∷ fs) gs =
    ap (λ t. write (line f) ++ b'\n' ∷ t) (write_all-append fs gs)
    ∙ sym
        (append_assoc (write (line f)) (b'\n' ∷ write_all (lines_of fs)) (write_all (lines_of gs)))

pub field_text-write :
    (f : Field (List ℕ)) (rest : List ℕ) → field_text f ++ rest ≡ write (line f) ++ b'\n' ∷ rest
field_text-write f rest =
    append_assoc (token f.ty) (b' ' ∷ (f.name ++ codes "\n")) rest
    ∙ ap (λ t. token f.ty ++ b' ' ∷ t) (append_assoc f.name (codes "\n") rest)
    ∙ sym (append_assoc (token f.ty) (b' ' ∷ f.name) (b'\n' ∷ rest))
    ∙ ap (λ t. t ++ b'\n' ∷ rest) (sym (append-nil (token f.ty ++ b' ' ∷ f.name)))

-- Every file on the search path has well-named fields.
abbrev pub NamedFiles : (List ℕ → Option (List (Field (List ℕ)))) → Type 0
NamedFiles files = (n : List ℕ) → AllNamed (fields_or_none (files n))

module _ (flat_of : List ℕ → List (Field (List ℕ))) (h : (n : List ℕ) → AllNamed (flat_of n)) where
  inner-AllNamed : (t : FieldType (List ℕ)) → AllNamed (inner_fields flat_of t)
  inner-AllNamed (scalar s) = tt
  inner-AllNamed (scalar_array s n) = tt
  inner-AllNamed (nested m) = h m
  inner-AllNamed (nested_array m n) = h m

  pub flat-AllNamed : (fs : List (Field (List ℕ))) → AllNamed fs → AllNamed (flat_fields flat_of fs)
  flat-AllNamed [] k = tt
  flat-AllNamed (f ∷ fs) (k, ks) = (
    k,
    AllNamed-append (inner_fields flat_of f.ty) (flat_fields flat_of fs) (inner-AllNamed f.ty)
        (flat-AllNamed fs ks),
  )

pub by_name-AllNamed :
    (files : List ℕ → Option (List (Field (List ℕ)))) (fuel : ℕ) (n : List ℕ)
    → NamedFiles files
    → AllNamed (flat_by_name files fuel n)
by_name-AllNamed files zero n h = tt
by_name-AllNamed files (suc fuel) n h =
    flat-AllNamed (flat_by_name files fuel) (λ m. by_name-AllNamed files fuel m h)
      (fields_or_none (files n)) (h n)

fields_of-lines_of : (fs : List (Field (List ℕ))) → fields_of (lines_of fs) ≡ fs
fields_of-lines_of [] = refl
fields_of-lines_of (f ∷ fs) = ap (λ gs. f ∷ gs) (fields_of-lines_of fs)

constants_of-lines_of : (fs : List (Field (List ℕ))) → constants_of (lines_of fs) ≡ []
constants_of-lines_of [] = refl
constants_of-lines_of (f ∷ fs) = constants_of-lines_of fs

topics_of-lines_of : (fs : List (Field (List ℕ))) → topics_of none (lines_of fs) ≡ none
topics_of-lines_of [] = refl
topics_of-lines_of (f ∷ fs) = topics_of-lines_of fs

-- A message of these fields and nothing else.
abbrev pub bare_message : List ℕ → List (Field (List ℕ)) → MsgDef
bare_message name fs = record {
  name = name;
  snake_name = camel_to_snake name;
  fields = fs;
  constants = [];
  topics = camel_to_snake name ∷ [];
  message_version = none;
}

pub message-lines_of :
    (name : List ℕ) (fs : List (Field (List ℕ))) → message name (lines_of fs) ≡ bare_message name fs
unfolding find_value
message-lines_of name fs =
    rw (fields_of-lines_of fs, constants_of-lines_of fs, topics_of-lines_of fs) refl
