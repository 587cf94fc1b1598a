-- ===== src/Codegen/Emit/Names.antt =====
-- The names of the fields of a layout: those of the message, sorted, and those of the paddings.
use px4_rs.Prelude.{
  ℕ, suc, ◌+◌, ◌≡◌, ◌≢◌, ◌<◌, leb, some, List, [], ◌∷◌, ◌++◌, if-holds, ap, ◌∙◌, sym, arith, drop,
}
use px4_rs.Text.{codes, format_uint, parse_uint}
use px4_rs.Text.Decimal.{parse-format}
use px4_rs.Codegen.{Field, LaidOutField, real, padding, insert, sort, sort_size}
use px4_rs.Codegen.Sorting.{reals}
use px4_rs.Codegen.Emit.Numbering.{Numbered}

abbrev pub Absent : List ℕ → List (List ℕ) → Type 0
Absent n [] = Unit
Absent n (m ∷ ms) = (m ≢ n) × Absent n ms

-- No name stands twice.
abbrev pub Distinct : List (List ℕ) → Type 0
Distinct [] = Unit
Distinct (n ∷ ns) = Absent n ns × Distinct ns

abbrev pub field_names : List (Field (List ℕ)) → List (List ℕ)
field_names [] = []
field_names (f ∷ fs) = f.name ∷ field_names fs

abbrev pub padding_name : ℕ → List ℕ
padding_name i = codes "_padding" ++ format_uint i

-- No name is that of a padding.
abbrev pub NoPadding : List (List ℕ) → Type 0
NoPadding [] = Unit
NoPadding (n ∷ ns) = ((i : ℕ) → n ≢ padding_name i) × NoPadding ns

insert-Absent :
    (n : List ℕ) (f : Field (List ℕ)) (fs : List (Field (List ℕ)))
    → f.name ≢ n
    → Absent n (field_names fs)
    → Absent n (field_names (insert f fs))
unfolding insert
insert-Absent n f [] h k = (h, tt)
insert-Absent n f (g ∷ gs) h (k, ks) =
    if-holds (λ l. Absent n (field_names l)) (leb (sort_size g) (sort_size f)) (λ e. (h, (k, ks)))
      (λ e. (k, insert-Absent n f gs h ks))

insert-Distinct :
    (f : Field (List ℕ)) (fs : List (Field (List ℕ)))
    → Absent f.name (field_names fs)
    → Distinct (field_names fs)
    → Distinct (field_names (insert f fs))
unfolding insert
insert-Distinct f [] h d = (tt, tt)
insert-Distinct f (g ∷ gs) (h, hs) (a, d) =
    if-holds (λ l. Distinct (field_names l)) (leb (sort_size g) (sort_size f))
      (λ e. ((h, hs), (a, d)))
      (λ e. (insert-Absent g.name f gs (λ s. h (sym s)) a, insert-Distinct f gs hs d))

insert-NoPadding :
    (f : Field (List ℕ)) (fs : List (Field (List ℕ)))
    → ((i : ℕ) → f.name ≢ padding_name i)
    → NoPadding (field_names fs)
    → NoPadding (field_names (insert f fs))
unfolding insert
insert-NoPadding f [] h k = (h, tt)
insert-NoPadding f (g ∷ gs) h (k, ks) =
    if-holds (λ l. NoPadding (field_names l)) (leb (sort_size g) (sort_size f)) (λ e. (h, (k, ks)))
      (λ e. (k, insert-NoPadding f gs h ks))

sort-Absent :
    (n : List ℕ) (fs : List (Field (List ℕ)))
    → Absent n (field_names fs)
    → Absent n (field_names (sort fs))
unfolding sort
sort-Absent n [] h = tt
sort-Absent n (f ∷ fs) (h, hs) = insert-Absent n f (sort fs) h (sort-Absent n fs hs)

pub sort-Distinct :
    (fs : List (Field (List ℕ))) → Distinct (field_names fs) → Distinct (field_names (sort fs))
unfolding sort
sort-Distinct [] d = tt
sort-Distinct (f ∷ fs) (a, d) =
    insert-Distinct f (sort fs) (sort-Absent f.name fs a) (sort-Distinct fs d)

pub sort-NoPadding :
    (fs : List (Field (List ℕ))) → NoPadding (field_names fs) → NoPadding (field_names (sort fs))
unfolding sort
sort-NoPadding [] h = tt
sort-NoPadding (f ∷ fs) (h, hs) = insert-NoPadding f (sort fs) h (sort-NoPadding fs hs)

-- Paddings with different numbers have different names.
padding_name_injective : (i j : ℕ) → padding_name i ≡ padding_name j → i ≡ j
padding_name_injective i j e =
    let digits : format_uint i ≡ format_uint j = ap (drop 8) e in
    let same : some i ≡ some j =
      sym (parse-format (i + j) i (omega arith))
      ∙ ap (parse_uint (i + j)) digits
      ∙ parse-format (i + j) j (omega arith) in
    cc

abbrev pub laid_name : LaidOutField (List ℕ) → List ℕ
laid_name (real f) = f.name
laid_name (padding i n) = padding_name i

abbrev pub laid_names : List (LaidOutField (List ℕ)) → List (List ℕ)
laid_names [] = []
laid_names (x ∷ xs) = laid_name x ∷ laid_names xs

real-Absent :
    (n : List ℕ) (xs : List (LaidOutField (List ℕ)))
    → ((i : ℕ) → n ≢ padding_name i)
    → Absent n (field_names (reals xs))
    → Absent n (laid_names xs)
real-Absent n [] h a = tt
real-Absent n (real f ∷ xs) h (a, rest) = (a, real-Absent n xs h rest)
real-Absent n (padding i k ∷ xs) h a = (λ e. h i (sym e), real-Absent n xs h a)

padding-Absent :
    (i start stop : ℕ) (xs : List (LaidOutField (List ℕ)))
    → i < start
    → Numbered start xs stop
    → NoPadding (field_names (reals xs))
    → Absent (padding_name i) (laid_names xs)
padding-Absent i start stop [] l h p = tt
padding-Absent i start stop (real f ∷ xs) l h (p, ps) = (p i, padding-Absent i start stop xs l h ps)
padding-Absent i start stop (padding j k ∷ xs) l (e, a, b, h) p = (
  λ s. absurd (omega (arith, padding_name_injective j i s)),
  padding-Absent i (suc start) stop xs (omega arith) h p,
)

pub laid-Distinct :
    (start stop : ℕ) (xs : List (LaidOutField (List ℕ)))
    → Numbered start xs stop
    → Distinct (field_names (reals xs))
    → NoPadding (field_names (reals xs))
    → Distinct (laid_names xs)
laid-Distinct start stop [] h d p = tt
laid-Distinct start stop (real f ∷ xs) h (a, d) (p, ps) =
    (real-Absent f.name xs p a, laid-Distinct start stop xs h d ps)
laid-Distinct start stop (padding i k ∷ xs) (e, a, b, h) d p = (
  padding-Absent i (suc start) stop xs (omega arith) h p,
  laid-Distinct (suc start) stop xs h d p,
)
