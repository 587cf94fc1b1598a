-- ===== src/Codegen/Resolver/Tests.antt =====
-- Calls of one resolver for a message, one that nests it, and one that is not found.
use mathlib.Core.Path.{subst}
use px4_rs.Prelude.{
  ℕ, ◌≡◌, ◌<◌, Option, none, some, List, [], ◌∷◌, if◌then◌else◌, if-holds, refl, ap, arith,
}
use px4_rs.Text.{codes, equal}
use px4_rs.Codegen.{Field, Scalar, scalar, nested, nested_array, ok, unresolved}
use px4_rs.Codegen.Depth.{Ranked, AllNest}
use px4_rs.Codegen.Resolver.{calls_with}
use px4_rs.Codegen.Resolver.Cached.{direct_calls, cached_same}

abbrev point : List (Field (List ℕ))
point = record { name = codes "x"; ty = scalar Scalar.f32 } ∷ []

abbrev path : List (Field (List ℕ))
path =
    record { name = codes "points"; ty = nested_array (codes "Point") 2 }
    ∷ record { name = codes "last"; ty = nested (codes "Point") }
    ∷ []

abbrev two_files : List ℕ → Option (List (Field (List ℕ)))
two_files n =
    if equal n (codes "Point")
    then some point
    else if equal n (codes "Path")
    then some path
    else none

abbrev depth : List ℕ → ℕ
depth n = if equal n (codes "Point") then 0 else 1

abbrev names : List (List ℕ)
names = codes "Path" ∷ codes "Point" ∷ codes "Pose" ∷ []

three_calls : calls_with two_files 2 names [] ≡ ok 24 ∷ ok 8 ∷ unresolved (codes "Pose") ∷ []
unfolding calls_with equal
three_calls = refl

abbrev fields_or_none : Option (List (Field (List ℕ))) → List (Field (List ℕ))
fields_or_none none = []
fields_or_none (some fs) = fs

two_files-Ranked : Ranked two_files depth
unfolding equal
two_files-Ranked n fs =
    let Nests : List (Field (List ℕ)) → Type 0 = AllNest (λ m. depth m < depth n) in
    if-holds (λ (o : Option (List (Field (List ℕ)))). o ≡ some fs → Nests fs)
      (equal n (codes "Point")) (λ y e. subst Nests (ap fields_or_none e) (tt, tt))
      (λ y.
        if-holds (λ (o : Option (List (Field (List ℕ)))). o ≡ some fs → Nests fs)
          (equal n (codes "Path"))
          (λ z e. subst Nests (ap fields_or_none e) (ground (arith, y), (ground (arith, y), tt)))
          (λ z e. absurd (ground arith)))

cached_same_example : calls_with two_files 2 names [] ≡ direct_calls two_files 2 names
unfolding equal
cached_same_example =
    cached_same two_files depth two_files-Ranked 2 names
      (omega arith, (omega arith, (omega arith, tt)))
