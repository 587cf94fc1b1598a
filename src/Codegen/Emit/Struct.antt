-- ===== src/Codegen/Emit/Struct.antt =====
-- The size that a compiler gives the struct that is generated, from the sizes and alignments of the types
-- of its fields.
use px4_rs.Prelude.{
  ℕ, ◌+◌, ◌≡◌, ◌<◌, ltb, Bool, Option, none, some, List, [], ◌∷◌, if◌then◌else◌, arith, refl, false,
  if-false, ap, ap₂, ◌∙◌, sym,
}
use px4_rs.Text.{format_uint}
use px4_rs.Codegen.{Field, LaidOutField, real, padding}
use px4_rs.Codegen.Types.{rust_type_for}
use px4_rs.Codegen.Emit.{
  all_or_panic, RustType, written, bytes, EmittedField, new_ident, sanitize_ident, emit_field,
}
use px4_rs.Codegen.Emit.Assertion.{or_panic-some}
use mathlib.Core.Path.{subst}
use px4_rs.Codegen.Emit.ReprC.{round_up, rust_size, rust_align, end_of, struct_align, repr_c_size}

-- The sizes and alignments of types that are written as tokens are given.
module _ {Token : Type 0} (token_size token_align : Token → ℕ) where
  abbrev pub type_size : RustType Token → ℕ
  type_size (written t) = token_size t
  type_size (bytes n) = n

  abbrev pub type_align : RustType Token → ℕ
  type_align (written t) = token_align t
  type_align (bytes n) = 1

  abbrev pub emitted_end : List (EmittedField Token) → ℕ → ℕ
  emitted_end [] pos = pos
  emitted_end (f ∷ fs) pos = emitted_end fs (round_up pos (type_align f.ty) + type_size f.ty)

  abbrev pub emitted_align : List (EmittedField Token) → ℕ
  emitted_align [] = 1
  emitted_align (f ∷ fs) =
      let a = emitted_align fs in if ltb a (type_align f.ty) then type_align f.ty else a

  -- The size of a `repr(C)` struct with these fields, in this order.
  abbrev pub emitted_size : List (EmittedField Token) → ℕ
  emitted_size fs = round_up (emitted_end fs 0) (emitted_align fs)

  -- The compiler gives the type of each field that the message names its size and alignment.
  abbrev pub Compiled :
      (List ℕ → Option Token) → (List ℕ → ℕ) → (List ℕ → ℕ) → List (LaidOutField (List ℕ)) → Type 0
  Compiled tokenize size_of align_of [] = Unit
  Compiled tokenize size_of align_of (padding i n ∷ fs) = Compiled tokenize size_of align_of fs
  Compiled tokenize size_of align_of (real f ∷ fs) =
      ((t : Token)
        → tokenize (rust_type_for f.ty) ≡ some t
        → (token_size t ≡ rust_size size_of align_of f.ty)
          × (token_align t ≡ rust_align size_of align_of f.ty))
      × Compiled tokenize size_of align_of fs

abbrev type_or : {Token : Type 0} → Option (EmittedField Token) → RustType Token
type_or none = bytes 0
type_or (some f) = f.ty

abbrev fields_or : {Token : Type 0} → Option (List (EmittedField Token)) → List (EmittedField Token)
fields_or none = []
fields_or (some fs) = fs

round_up_bytes : (pos : ℕ) → round_up pos 1 ≡ pos
round_up_bytes pos = ground arith

module _ {Token : Type 0} (tokenize : List ℕ → Option Token) (accepts accepts_raw : List ℕ → Bool)
    (token_size token_align : Token → ℕ) (size_of align_of : List ℕ → ℕ)
    (positive : (fs : List (LaidOutField (List ℕ))) → 0 < struct_align size_of align_of fs) where
  real-type :
      (g : Field (List ℕ)) (f : EmittedField Token)
      → emit_field tokenize accepts accepts_raw (real g) ≡ some f
      → (t : Token) × (tokenize (rust_type_for g.ty) ≡ some t) × (f.ty ≡ written t)
  unfolding rust_type_for
  real-type g f h =
      let (i, made, h1) =
        or_panic-some (sanitize_ident tokenize accepts accepts_raw g.name) _ f h in
      let (t, typed, h2) = or_panic-some (tokenize (rust_type_for g.ty)) _ f h1 in
      (t, typed, sym (ap type_or h2))

  padding-type :
      (i n : ℕ) (f : EmittedField Token)
      → emit_field tokenize accepts accepts_raw (padding i n) ≡ some f
      → f.ty ≡ bytes n
  unfolding format_uint emit_field
  padding-type i n f h =
      let (j, made, h1) = or_panic-some (new_ident tokenize accepts accepts_raw _) _ f h in
      sym (ap type_or h1)

  abbrev LiesAs : List (LaidOutField (List ℕ)) → List (EmittedField Token) → Type 0
  LiesAs fs es =
      ((pos : ℕ) → emitted_end token_size token_align es pos ≡ end_of size_of align_of fs pos)
      × (emitted_align token_size token_align es ≡ struct_align size_of align_of fs)

  padding-LiesAs :
      (i n : ℕ) (f : EmittedField Token) (fs : List (LaidOutField (List ℕ)))
      (es : List (EmittedField Token))
      → f.ty ≡ bytes n
      → LiesAs fs es
      → LiesAs (padding i n ∷ fs) (f ∷ es)
  padding-LiesAs i n f fs es e (ends, aligns) = (
    λ pos.
        ap
          (λ (t : RustType Token). emitted_end token_size token_align es (
            round_up pos (type_align token_size token_align t)
            + type_size token_size token_align t))
          e
        ∙ (ap (λ p. emitted_end token_size token_align es (p + n)) (round_up_bytes pos)
            ∙ ends (pos + n)),
    let a = emitted_align token_size token_align es in
        let low : ltb a 1 ≡ false = ground (arith, positive fs, aligns) in
        ap
          (λ (t : RustType Token).
            if ltb a (type_align token_size token_align t)
            then type_align token_size token_align t
            else a)
          e
        ∙ (if-false _ _ low ∙ aligns),
  )

  real-LiesAs :
      (g : Field (List ℕ)) (f : EmittedField Token) (t : Token) (fs : List (LaidOutField (List ℕ)))
      (es : List (EmittedField Token))
      → f.ty ≡ written t
      → token_size t ≡ rust_size size_of align_of g.ty
      → token_align t ≡ rust_align size_of align_of g.ty
      → LiesAs fs es
      → LiesAs (real g ∷ fs) (f ∷ es)
  real-LiesAs g f t fs es e size_ok align_ok (ends, aligns) =
      let type_size_ok = ap (type_size token_size token_align) e ∙ size_ok in
      let type_align_ok = ap (type_align token_size token_align) e ∙ align_ok in
      (
        λ pos.
            ap₂ (λ a b. emitted_end token_size token_align es (round_up pos a + b)) type_align_ok
              type_size_ok
            ∙ ends _,
        ap₂ (λ a b. if ltb a b then b else a) aligns type_align_ok,
      )

  -- The fields that are emitted lie where the layout says.
  emitted-LiesAs :
      (fs : List (LaidOutField (List ℕ))) (es : List (EmittedField Token))
      → all_or_panic (emit_field tokenize accepts accepts_raw) fs ≡ some es
      → Compiled token_size token_align tokenize size_of align_of fs
      → LiesAs fs es
  emitted-LiesAs [] es h k = subst (LiesAs []) (ap fields_or h) (λ pos. refl, refl)
  emitted-LiesAs (real g ∷ fs) es h (known, ks) =
      let (f, made, h1) = or_panic-some (emit_field tokenize accepts accepts_raw (real g)) _ es h in
      let (rest, all_made, h2) =
        or_panic-some (all_or_panic (emit_field tokenize accepts accepts_raw) fs) _ es h1 in
      let (t, typed, ty) = real-type g f made in
      let (a, b) = known t typed in
      subst (LiesAs (real g ∷ fs)) (ap fields_or h2)
        (real-LiesAs g f t fs rest ty a b (emitted-LiesAs fs rest all_made ks))
  emitted-LiesAs (padding i n ∷ fs) es h ks =
      let (f, made, h1) =
        or_panic-some (emit_field tokenize accepts accepts_raw (padding i n)) _ es h in
      let (rest, all_made, h2) =
        or_panic-some (all_or_panic (emit_field tokenize accepts accepts_raw) fs) _ es h1 in
      subst (LiesAs (padding i n ∷ fs)) (ap fields_or h2) (
        padding-LiesAs i n f fs rest (padding-type i n f made) (emitted-LiesAs fs rest all_made ks))

  pub emitted-repr_c_size :
      (fs : List (LaidOutField (List ℕ))) (es : List (EmittedField Token))
      → all_or_panic (emit_field tokenize accepts accepts_raw) fs ≡ some es
      → Compiled token_size token_align tokenize size_of align_of fs
      → emitted_size token_size token_align es ≡ repr_c_size size_of align_of fs
  emitted-repr_c_size fs es h k =
      let (ends, aligns) = emitted-LiesAs fs es h k in ap₂ round_up (ends 0) aligns
