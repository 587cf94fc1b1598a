-- ===== src/Codegen/Resolver.antt =====
-- crates/px4-msg-codegen/src/layout.rs, `Resolver` with its cache. Of a laid-out message the resolver
-- reads back the size, so that the cache keeps that. `files` stands for `find` and `parse_file`; the
-- calls run on fuel, one unit for each level of nesting.
pub mod Fuel
pub mod Cached
mod Tests
use px4_rs.Prelude.{
  ℕ, zero, suc, ◌+◌, ◌*◌, ltb, Bool, Option, none, some, List, [], ◌∷◌, if◌then◌else◌,
}
use px4_rs.Text.{equal}
use px4_rs.Codegen.{
  Field, FieldType, LaidOutField, LaidOut, Result, ok, unresolved, too_deep, real, padding, scalar,
  scalar_array, nested, nested_array, size, is_nested, align_gap, align_to, sort, close,
}

-- The cache, with the newest entry first.
abbrev pub Cache : Type 0
Cache = List (List ℕ × ℕ)

unfoldable pub cached_size : List ℕ → Cache → Option ℕ
unfolding equal
cached_size n [] = none
cached_size n ((m, k) ∷ c) = if equal n m then some k else cached_size n c

-- A result and the cache after it.
abbrev pub Run : Type 0 → Type 0
Run A = Result (List ℕ) A × Cache

-- `?`
abbrev pub then_with : {A B : Type 0} → Run A → (A → Cache → Run B) → Run B
then_with (ok a, c) f = f a c
then_with (unresolved n, c) f = (unresolved n, c)
then_with (too_deep, c) f = (too_deep, c)

-- A field of size `k`, with the padding before it; `rest` places what follows.
abbrev pub place_one_with :
    Field (List ℕ)
    → ℕ
    → ℕ
    → ℕ
    → (ℕ → ℕ → Cache → Run (List (LaidOutField (List ℕ)) × ℕ × ℕ))
    → Cache
    → Run (List (LaidOutField (List ℕ)) × ℕ × ℕ)
place_one_with f pos idx k rest c =
    let pad = if is_nested f.ty then align_gap pos align_to else 0 in
    if ltb 0 pad
    then then_with (rest (pos + pad + k) (idx + 1) c)
        (λ r c'. let (out, pos', idx') = r in (ok (padding idx pad ∷ real f ∷ out, pos', idx'), c'))
    else then_with (rest (pos + k) idx c)
        (λ r c'. let (out, pos', idx') = r in (ok (real f ∷ out, pos', idx'), c'))

-- `size_with` stands for the size of `layout_by_name`.
module _ (size_with : List ℕ → Cache → Run ℕ) where
  abbrev pub total_size_with : FieldType (List ℕ) → Cache → Run ℕ
  total_size_with (scalar s) c = (ok (size s), c)
  total_size_with (scalar_array s n) c = (ok (size s * n), c)
  total_size_with (nested m) c = size_with m c
  total_size_with (nested_array m n) c = then_with (size_with m c) (λ k c'. (ok (k * n), c'))

  -- The loop over the sorted fields.
  unfoldable pub place_with :
      List (Field (List ℕ)) → ℕ → ℕ → Cache → Run (List (LaidOutField (List ℕ)) × ℕ × ℕ)
  place_with [] pos idx c = (ok ([], pos, idx), c)
  place_with (f ∷ fs) pos idx c =
      then_with (total_size_with f.ty c) (λ k c'. place_one_with f pos idx k (place_with fs) c')

  -- `layout`, which enters the message in the cache.
  unfoldable pub layout_with : List ℕ → List (Field (List ℕ)) → Cache → Run ℕ
  unfolding place_with sort
  layout_with n fs c =
      then_with (place_with (sort fs) 0 0 c)
        (λ r c'. (ok (close r).total, (n, (close r).total) ∷ c'))

-- A call that is answered from the cache, or by `rest`.
abbrev pub or_cached : Option ℕ → Cache → (Cache → Run ℕ) → Run ℕ
or_cached none c rest = rest c
or_cached (some k) c rest = (ok k, c)

abbrev pub found_with :
    List ℕ
    → Option (List (Field (List ℕ)))
    → Cache
    → (List (Field (List ℕ)) → Cache → Run ℕ)
    → Run ℕ
found_with n none c rest = (unresolved n, c)
found_with n (some fs) c rest = rest fs c

module _ (files : List ℕ → Option (List (Field (List ℕ)))) where
  -- `layout_by_name`
  unfoldable pub by_name_with : ℕ → List ℕ → Cache → Run ℕ
  unfolding cached_size layout_with
  by_name_with zero n c = or_cached (cached_size n c) c (λ c'. (too_deep, c'))
  by_name_with (suc fuel) n c =
      or_cached (cached_size n c) c
        (λ c'. found_with n (files n) c' (layout_with (by_name_with fuel) n))

  -- Several calls of one resolver, one after the other.
  unfoldable pub calls_with : ℕ → List (List ℕ) → Cache → List (Result (List ℕ) ℕ)
  unfolding by_name_with
  calls_with fuel [] c = []
  calls_with fuel (n ∷ ns) c = let r = by_name_with fuel n c in r.0 ∷ calls_with fuel ns r.1
