-- ===== src/Codegen/Naming.antt =====
-- crates/px4-msg-codegen/src/model.rs, `camel_to_snake`: the snake case of a message's name. A character
-- is its code.
use px4_rs.Prelude.{
  ℕ, ◌+◌, ◌≡◌, leb, Bool, false, ◌&&◌, ◌||◌, Option, none, some, List, [], ◌∷◌, if◌then◌else◌,
  arith, refl, ap, if-holds,
}

-- `is_ascii_uppercase`, `is_ascii_lowercase` and `to_ascii_lowercase` of an upper-case letter
abbrev pub is_upper : ℕ → Bool
is_upper c = leb 65 c && leb c 90

abbrev pub is_lower : ℕ → Bool
is_lower c = leb 97 c && leb c 122

abbrev pub to_lower : ℕ → ℕ
to_lower c = c + 32

abbrev pub next_is_lower : List ℕ → Bool
next_is_lower [] = false
next_is_lower (d ∷ ds) = is_lower d

-- `needs_underscore`, from the character before and what follows.
abbrev pub needs_underscore : Option ℕ → List ℕ → Bool
needs_underscore none ds = false
needs_underscore (some p) ds = is_lower p || (is_upper p && next_is_lower ds)

unfoldable pub snake_from : Option ℕ → List ℕ → List ℕ
snake_from prev [] = []
snake_from prev (c ∷ cs) =
    let rest = snake_from (some c) cs in
    if is_upper c
    then if needs_underscore prev cs then 95 ∷ to_lower c ∷ rest else to_lower c ∷ rest
    else c ∷ rest

unfoldable pub camel_to_snake : List ℕ → List ℕ
unfolding snake_from
camel_to_snake s = snake_from none s

-- No upper-case letter is among the characters.
abbrev pub NoUpper : List ℕ → Type 0
NoUpper [] = Unit {0}
NoUpper (c ∷ cs) = (is_upper c ≡ false) × NoUpper cs

snake_from-NoUpper : (prev : Option ℕ) (s : List ℕ) → NoUpper (snake_from prev s)
unfolding snake_from
snake_from-NoUpper prev [] = tt
snake_from-NoUpper prev (c ∷ cs) =
    let rest = snake_from-NoUpper (some c) cs in
    if-holds NoUpper (is_upper c)
      (λ u.
        if-holds NoUpper (needs_underscore prev cs) (λ n. (refl, (ground arith, rest)))
          (λ n. (ground arith, rest)))
      (λ l. (l, rest))

snake_from-same : (prev : Option ℕ) (s : List ℕ) → NoUpper s → snake_from prev s ≡ s
unfolding snake_from
snake_from-same prev [] n = refl
snake_from-same prev (c ∷ cs) (n, ns) =
    if-holds (λ l. l ≡ c ∷ cs) (is_upper c) (λ u. absurd (ground arith))
      (λ l. ap (λ t. c ∷ t) (snake_from-same (some c) cs ns))

-- The snake case of a name has no upper-case letter, and is its own snake case.
pub camel_to_snake_idem :
    (s : List ℕ)
    → NoUpper (camel_to_snake s) × (camel_to_snake (camel_to_snake s) ≡ camel_to_snake s)
unfolding camel_to_snake
camel_to_snake_idem s = (
  snake_from-NoUpper none s,
  snake_from-same none (snake_from none s) (snake_from-NoUpper none s),
)
