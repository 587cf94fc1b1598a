-- ===== src/Codegen/Emit/Assertion.antt =====
-- The compile-time assertion on the size of the generated struct.
use px4_rs.Prelude.{ℕ, ◌≡◌, Bool, Option, some, none, List, arith, refl, ap, ◌∙◌, sym}
use px4_rs.Codegen.{
  Field, LaidOut, Result, ok, unresolved, too_deep, and_then, layout, size_by_name,
}
use px4_rs.Codegen.Parser.{MsgDef}
use px4_rs.Codegen.Emit.{
  LaidOutMsg, laid_out_msg, lay_out, or_panic, all_or_panic, EmittedField, Emitted, new_ident,
  emit_field, emit_constant, emit_topic, emit,
}
use px4_rs.Codegen.Hash.{message_hash}
use px4_rs.Codegen.Emit.ReprC.{IsAlignment, repr_c_size, layout-repr_c_size}

pub or_panic-some :
    {A B : Type 0} (o : Option A) (f : A → Option B) (b : B)
    → or_panic o f ≡ some b
    → (a : A) × (o ≡ some a) × (f a ≡ some b)
or_panic-some none f b h = absurd (cc)
or_panic-some (some a) f b h = (a, refl, h)

-- What is laid out in full has the fields and the size of the layout.
pub lay_out_fields :
    (d : MsgDef) (r : Result (List ℕ) (LaidOut (List ℕ))) (q : Result (List ℕ) ℕ) (l : LaidOutMsg)
    → and_then r (λ o. and_then q (λ h. ok (laid_out_msg d o h))) ≡ ok l
    → (o : LaidOut (List ℕ)) × (r ≡ ok o) × (o.fields ≡ l.fields) × (o.total ≡ l.size)
lay_out_fields d (ok o) (ok h) l e = (o, refl, ground arith, ground arith)
lay_out_fields d (ok o) (unresolved n) l e = absurd (ground arith)
lay_out_fields d (ok o) too_deep l e = absurd (ground arith)
lay_out_fields d (unresolved n) q l e = absurd (ground arith)
lay_out_fields d too_deep q l e = absurd (ground arith)

abbrev emitted_fields_or :
    {Token : Type 0}
    → List (EmittedField Token)
    → Option (Emitted Token)
    → List (EmittedField Token)
emitted_fields_or fs none = fs
emitted_fields_or fs (some e) = e.fields

module _ {Token : Type 0} (tokenize : List ℕ → Option Token)
    (accepts accepts_raw : List ℕ → Bool) where
  emit-asserted :
      (l : LaidOutMsg) (e : Emitted Token)
      → emit tokenize accepts accepts_raw l ≡ some e
      → e.asserted ≡ l.size
  unfolding emit
  emit-asserted l e h =
      let (i, name, h1) = or_panic-some (new_ident tokenize accepts accepts_raw l.name) _ e h in
      let (fields, fields_ok, h2) =
        or_panic-some (all_or_panic (emit_field tokenize accepts accepts_raw) l.fields) _ e h1 in
      let (consts, consts_ok, h3) =
        or_panic-some (all_or_panic (emit_constant tokenize accepts accepts_raw) l.constants) _ e
          h2 in
      let (items, items_ok, h4) =
        or_panic-some (all_or_panic (emit_topic tokenize accepts accepts_raw l) l.topics) _ e h3 in
      ground arith

  pub emit-fields :
      (l : LaidOutMsg) (e : Emitted Token)
      → emit tokenize accepts accepts_raw l ≡ some e
      → all_or_panic (emit_field tokenize accepts accepts_raw) l.fields ≡ some e.fields
  unfolding emit
  emit-fields l e h =
      let (i, name, h1) = or_panic-some (new_ident tokenize accepts accepts_raw l.name) _ e h in
      let (fields, fields_ok, h2) =
        or_panic-some (all_or_panic (emit_field tokenize accepts accepts_raw) l.fields) _ e h1 in
      let (consts, consts_ok, h3) =
        or_panic-some (all_or_panic (emit_constant tokenize accepts accepts_raw) l.constants) _ e
          h2 in
      let (items, items_ok, h4) =
        or_panic-some (all_or_panic (emit_topic tokenize accepts accepts_raw l) l.topics) _ e h3 in
      fields_ok ∙ ap some (ap (emitted_fields_or fields) h4)

-- If a message is laid out and generated, the size that the assertion of the generated struct compares
-- with is the size of its fields under `repr(C)`, so that the assertion holds, if the structs of nested
-- messages have the sizes of their own layouts and alignments of 1, 2, 4 or 8.
pub assertion_holds :
    {Token : Type 0} (tokenize : List ℕ → Option Token) (accepts accepts_raw : List ℕ → Bool)
    (files : List ℕ → Option (List (Field (List ℕ)))) (fuel : ℕ) (size_of align_of : List ℕ → ℕ)
    (d : MsgDef) (l : LaidOutMsg) (e : Emitted Token)
    → ((n : List ℕ) (k : ℕ) → size_by_name files fuel n ≡ ok k → size_of n ≡ k)
    → ((n : List ℕ) → IsAlignment (align_of n))
    → lay_out files fuel d ≡ ok l
    → emit tokenize accepts accepts_raw l ≡ some e
    → e.asserted ≡ repr_c_size size_of align_of l.fields
unfolding lay_out
assertion_holds tokenize accepts accepts_raw files fuel size_of align_of d l e sizes aligns laid
      emitted =
    let (o, laid_ok, fields, total) =
      lay_out_fields d (layout (size_by_name files fuel) d.fields)
        (message_hash files fuel d.fields) l laid in
    emit-asserted tokenize accepts accepts_raw l e emitted
    ∙ sym total
    ∙ sym (
        layout-repr_c_size (size_by_name files fuel) size_of align_of sizes aligns d.fields o
          laid_ok)
    ∙ ap (repr_c_size size_of align_of) fields
