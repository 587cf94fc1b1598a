-- ===== src/Codegen/Hash/Tests.antt =====
-- The hash on the texts of the tests of the source, and a message that nests another.
use mathlib.Core.Path.{subst}
use px4_rs.Prelude.{
  ◌≡◌, ◌≢◌, ◌<◌, ℕ, refl, ap, arith, Option, some, none, List, [], ◌∷◌, ◌++◌, if◌then◌else◌,
  if-holds,
}
use px4_rs.Text.{codes, equal, is_whitespace}
use px4_rs.Codegen.{Field, Scalar, scalar, nested_array, ok}
use px4_rs.Codegen.Depth.{Ranked, AllNest}
use px4_rs.Codegen.Types.{token}
use px4_rs.Codegen.Hash.{fnv1a_32, message_text}
use px4_rs.Codegen.Hash.Collisions.{fnv1a_32_apart}
use px4_rs.Codegen.Hash.Flat.{NamedFiles, AllNamed, flat_fields, flat_by_name, fields_or_none}
use px4_rs.Codegen.Hash.Reparsed.{Reparses, text_reparsed}

empty_hash : fnv1a_32 (codes "") ≡ 0x811c9dc5
unfolding fnv1a_32
empty_hash = refl

letter_hash : fnv1a_32 (codes "a") ≡ 0xe40c292c
unfolding fnv1a_32
letter_hash = refl

word_hash : fnv1a_32 (codes "foobar") ≡ 0xbf9cf968
unfolding fnv1a_32
word_hash = refl

fnv1a_32_apart_example :
    fnv1a_32 (codes "uint" ++ b'8' ∷ codes " x") ≢ fnv1a_32 (codes "uint" ++ b'6' ∷ codes " x")
fnv1a_32_apart_example =
    fnv1a_32_apart (codes "uint") (codes " x") b'8' b'6' (omega arith) (omega arith) (omega arith)
      (omega arith)

-- `Point` is the only file.
abbrev point : List (Field (List ℕ))
point = record { name = codes "x"; ty = scalar Scalar.f32 } ∷ []

abbrev point_file : List ℕ → Option (List (Field (List ℕ)))
point_file n = if equal n (codes "Point") then some point else none

abbrev path_fields : List (Field (List ℕ))
path_fields =
    record { name = codes "time"; ty = scalar Scalar.u64 }
    ∷ record { name = codes "points"; ty = nested_array (codes "Point") 2 }
    ∷ []

path_text :
    message_text point_file 1 path_fields
    ≡ ok (
        codes "uint64 time"
        ++ b'\n' ∷ (codes "Point[2] points" ++ b'\n' ∷ (codes "float32 x" ++ b'\n' ∷ [])))
unfolding message_text equal token
path_text = refl

point_file-NamedFiles : NamedFiles point_file
unfolding is_whitespace
point_file-NamedFiles n =
    if-holds (λ (o : Option (List (Field (List ℕ)))). AllNamed (fields_or_none o))
      (equal n (codes "Point")) (λ e. ((tt, (refl, refl)), tt)) (λ e. tt)

point_file-Ranked : Ranked point_file (λ n. 0)
point_file-Ranked n fs e = subst (AllNest (λ m. 0 < 0)) (ap fields_or_none e) (
    if-holds
      (λ (o : Option (List (Field (List ℕ)))). AllNest (λ (m : List ℕ). 0 < 0) (fields_or_none o))
      (equal n (codes "Point")) (λ y. (tt, tt)) (λ y. tt))

text_reparsed_example :
    Reparses point_file
      (flat_fields (flat_by_name point_file 1) path_fields)
      (message_text point_file 1 path_fields)
unfolding is_whitespace
text_reparsed_example =
    text_reparsed point_file (λ n. 0) 1 path_fields point_file-NamedFiles
      ((tt, (refl, refl)), (((refl, omega arith), (refl, refl)), tt)) point_file-Ranked
      (tt, (omega arith, tt))
