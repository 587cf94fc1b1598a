-- ===== src/Codegen/Emit/Numbering.antt =====
-- The paddings of a layout: their numbers, which name them in the generated struct, and their sizes.
use px4_rs.Prelude.{
  ℕ, suc, ◌+◌, ◌≡◌, ◌<◌, ltb, List, [], ◌∷◌, ◌++◌, if◌then◌else◌, if-holds, ltb→lt, arith, refl, ap,
  sym,
}
use mathlib.Core.Path.{subst}
use px4_rs.Codegen.{
  Field, LaidOutField, LaidOut, Result, ok, unresolved, too_deep, real, padding, is_nested,
  align_gap, align_to, and_then, field_total_size, place_one, place, close, sort, layout,
}

gap-lt : (pos : ℕ) → align_gap pos align_to < 8
gap-lt pos = ground arith

module _ {Name : Type 0} where
  -- The paddings have the numbers from `start` up to `stop`, in order, and from 1 to 7 bytes.
  abbrev pub Numbered : ℕ → List (LaidOutField Name) → ℕ → Type 0
  Numbered start [] stop = start ≡ stop
  Numbered start (real f ∷ fs) stop = Numbered start fs stop
  Numbered start (padding i n ∷ fs) stop =
      (i ≡ start) × (0 < n) × (n < 8) × Numbered (suc start) fs stop

  Numbered-snoc :
      (fs : List (LaidOutField Name)) (start stop n : ℕ)
      → Numbered start fs stop
      → 0 < n
      → n < 8
      → Numbered start (fs ++ padding stop n ∷ []) (suc stop)
  Numbered-snoc [] start stop n h p q = (sym h, p, q, ap suc h)
  Numbered-snoc (real f ∷ fs) start stop n h p q = Numbered-snoc fs start stop n h p q
  Numbered-snoc (padding i m ∷ fs) start stop n (e, a, b, h) p q =
      (e, a, b, Numbered-snoc fs (suc start) stop n h p q)

  abbrev PlacedFrom : ℕ → Result Name (List (LaidOutField Name) × ℕ × ℕ) → Type 0
  PlacedFrom idx (ok (out, pos, stop)) = Numbered idx out stop
  PlacedFrom idx (unresolved n) = Unit
  PlacedFrom idx too_deep = Unit

  padded :
      (f : Field Name) (idx n : ℕ) (r : Result Name (List (LaidOutField Name) × ℕ × ℕ))
      → 0 < n
      → n < 8
      → PlacedFrom (idx + 1) r
      → PlacedFrom idx (
          and_then r
            (λ q. let (out, pos', idx') = q in ok (padding idx n ∷ real f ∷ out, pos', idx')))
  padded f idx n (ok (out, pos, stop)) p q h =
      (refl, p, q, subst (λ k. Numbered k out stop) add_one h)
    where
      add_one : idx + 1 ≡ suc idx
      add_one = omega arith
  padded f idx n (unresolved x) p q h = tt
  padded f idx n too_deep p q h = tt

  unpadded :
      (f : Field Name) (idx : ℕ) (r : Result Name (List (LaidOutField Name) × ℕ × ℕ))
      → PlacedFrom idx r
      → PlacedFrom idx
          (and_then r (λ q. let (out, pos', idx') = q in ok (real f ∷ out, pos', idx')))
  unpadded f idx (ok (out, pos, stop)) h = h
  unpadded f idx (unresolved x) h = tt
  unpadded f idx too_deep h = tt

  gap_or_none-lt :
      (f : Field Name) (pos : ℕ) → (if is_nested f.ty then align_gap pos align_to else 0) < 8
  gap_or_none-lt f pos = ground (arith, gap-lt pos)

  place_one-PlacedFrom :
      (f : Field Name) (pos idx k : ℕ)
      (rest : ℕ → ℕ → Result Name (List (LaidOutField Name) × ℕ × ℕ))
      → ((p i : ℕ) → PlacedFrom i (rest p i))
      → PlacedFrom idx (place_one f pos idx k rest)
  place_one-PlacedFrom f pos idx k rest h =
      let n : ℕ = if is_nested f.ty then align_gap pos align_to else 0 in
      if-holds (λ (r : Result Name (List (LaidOutField Name) × ℕ × ℕ)). PlacedFrom idx r) (ltb 0 n)
        (λ e.
          padded f idx n (rest (pos + n + k) (idx + 1)) (ltb→lt 0 n e) (gap_or_none-lt f pos)
            (h (pos + n + k) (idx + 1)))
        (λ e. unpadded f idx (rest (pos + k) idx) (h (pos + k) idx))

  module _ (size_of : Name → Result Name ℕ) where
    and_then-PlacedFrom :
        (idx : ℕ) (r : Result Name ℕ) (g : ℕ → Result Name (List (LaidOutField Name) × ℕ × ℕ))
        → ((k : ℕ) → PlacedFrom idx (g k))
        → PlacedFrom idx (and_then r g)
    and_then-PlacedFrom idx (ok k) g h = h k
    and_then-PlacedFrom idx (unresolved n) g h = tt
    and_then-PlacedFrom idx too_deep g h = tt

    place-PlacedFrom :
        (fs : List (Field Name)) (pos idx : ℕ) → PlacedFrom idx (place size_of fs pos idx)
    unfolding place
    place-PlacedFrom [] pos idx = refl
    place-PlacedFrom (f ∷ fs) pos idx =
        and_then-PlacedFrom idx (field_total_size size_of f.ty) _
          (λ k. place_one-PlacedFrom f pos idx k (place size_of fs) (place-PlacedFrom fs))

    abbrev NumberedAll : LaidOut Name → Type 0
    NumberedAll l = (stop : ℕ) × Numbered 0 l.fields stop

    close-Numbered :
        (out : List (LaidOutField Name)) (pos idx : ℕ)
        → Numbered 0 out idx
        → NumberedAll (close (out, pos, idx))
    close-Numbered out pos idx h =
        if-holds NumberedAll (ltb 0 (align_gap pos align_to))
          (λ e. (
            suc idx,
            Numbered-snoc out 0 idx (align_gap pos align_to) h (ltb→lt 0 (align_gap pos align_to) e)
                (gap-lt pos),
          ))
          (λ e. (idx, h))

    closed :
        (r : Result Name (List (LaidOutField Name) × ℕ × ℕ)) (l : LaidOut Name)
        → PlacedFrom 0 r
        → and_then r (λ x. ok (close x)) ≡ ok l
        → NumberedAll l
    closed (ok (out, pos, idx)) l h e =
        subst NumberedAll {x = close (out, pos, idx)} {y = l} (ground arith)
          (close-Numbered out pos idx h)
    closed (unresolved n) l h e = absurd (ground arith)
    closed too_deep l h e = absurd (ground arith)

    -- The paddings of a layout, by which the generated struct names them, are numbered 0, 1, 2 and so on
    -- in order, and each has from 1 to 7 bytes.
    pub layout-Numbered :
        (fs : List (Field Name)) (l : LaidOut Name)
        → layout size_of fs ≡ ok l
        → (stop : ℕ) × Numbered 0 l.fields stop
    unfolding layout
    layout-Numbered fs l e =
        closed (place size_of (sort fs) 0 0) l (place-PlacedFrom (sort fs) 0 0) e
