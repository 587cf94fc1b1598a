-- ===== src/Codegen/Emit/Distinct.antt =====
-- The names of the fields of the generated struct.
use mathlib.Core.Path.{subst}
use px4_rs.Prelude.{ℕ, ◌≡◌, Bool, Option, none, some, List, [], ◌∷◌, if-holds, ap, ap₂, ◌∙◌, sym}
use px4_rs.Text.{format_uint}
use px4_rs.Codegen.{Field, LaidOutField, ok, real, padding, sort, layout, size_by_name}
use px4_rs.Codegen.Sorting.{reals, layout-reals}
use px4_rs.Codegen.Types.{rust_type_for}
use px4_rs.Codegen.Hash.{message_hash}
use px4_rs.Codegen.Parser.{MsgDef}
use px4_rs.Codegen.Emit.{
  Ident, bare, raw, all_or_panic, EmittedField, Emitted, new_ident, sanitize_ident, emit_field,
  emit_constant, emit_topic, emit, LaidOutMsg, lay_out, is_rust_keyword,
}
use px4_rs.Codegen.Emit.Assertion.{or_panic-some, lay_out_fields}
use px4_rs.Codegen.Emit.Numbering.{layout-Numbered}
use px4_rs.Codegen.Emit.Names.{
  Distinct, field_names, padding_name, NoPadding, sort-Distinct, sort-NoPadding, laid_name,
  laid_names, laid-Distinct,
}

-- The text of a name of Rust: `r#x` and `x` are one name.
abbrev pub ident_text : Ident → List ℕ
ident_text (bare s) = s
ident_text (raw s) = s

abbrev pub emitted_names : {Token : Type 0} → List (EmittedField Token) → List (List ℕ)
emitted_names [] = []
emitted_names (f ∷ fs) = ident_text f.ident ∷ emitted_names fs

abbrev ident_text_or : Option Ident → List ℕ
ident_text_or none = []
ident_text_or (some i) = ident_text i

abbrev field_text_or : {Token : Type 0} → Option (EmittedField Token) → List ℕ
field_text_or none = []
field_text_or (some f) = ident_text f.ident

abbrev names_or : {Token : Type 0} → Option (List (EmittedField Token)) → List (List ℕ)
names_or none = []
names_or (some fs) = emitted_names fs

abbrev emitted_names_or : {Token : Type 0} → Option (Emitted Token) → List (List ℕ)
emitted_names_or none = []
emitted_names_or (some e) = emitted_names e.fields

module _ {Token : Type 0} (tokenize : List ℕ → Option Token)
    (accepts accepts_raw : List ℕ → Bool) where
  new_ident-text :
      (s : List ℕ) (i : Ident)
      → new_ident tokenize accepts accepts_raw s ≡ some i
      → ident_text i ≡ s
  new_ident-text s i =
      if-holds (λ (o : Option Ident). o ≡ some i → ident_text i ≡ s) (accepts s)
        (λ a h. sym (ap ident_text_or h)) (λ a h. absurd (cc))

  sanitize-text :
      (s : List ℕ) (i : Ident)
      → sanitize_ident tokenize accepts accepts_raw s ≡ some i
      → ident_text i ≡ s
  unfolding is_rust_keyword
  sanitize-text s i =
      if-holds (λ (o : Option Ident). o ≡ some i → ident_text i ≡ s) (is_rust_keyword s)
        (λ k.
          if-holds (λ (o : Option Ident). o ≡ some i → ident_text i ≡ s) (accepts_raw s)
            (λ a h. sym (ap ident_text_or h)) (λ a h. absurd (cc)))
        (λ k. new_ident-text s i)

  emit_field-name :
      (x : LaidOutField (List ℕ)) (f : EmittedField Token)
      → emit_field tokenize accepts accepts_raw x ≡ some f
      → ident_text f.ident ≡ laid_name x
  unfolding rust_type_for format_uint
  emit_field-name (real g) f h =
      let (i, made, h1) =
        or_panic-some (sanitize_ident tokenize accepts accepts_raw g.name) _ f h in
      let (t, typed, h2) = or_panic-some (tokenize (rust_type_for g.ty)) _ f h1 in
      sym (ap field_text_or h2) ∙ sanitize-text g.name i made
  emit_field-name (padding i n) f h =
      let (j, made, h1) =
        or_panic-some (new_ident tokenize accepts accepts_raw (padding_name i)) _ f h in
      sym (ap field_text_or h1) ∙ new_ident-text (padding_name i) j made

  emitted-laid :
      (xs : List (LaidOutField (List ℕ))) (fs : List (EmittedField Token))
      → all_or_panic (emit_field tokenize accepts accepts_raw) xs ≡ some fs
      → emitted_names fs ≡ laid_names xs
  emitted-laid [] fs h = sym (ap names_or h)
  emitted-laid (x ∷ xs) fs h =
      let (f, made, h1) = or_panic-some (emit_field tokenize accepts accepts_raw x) _ fs h in
      let (gs, rest, h2) =
        or_panic-some (all_or_panic (emit_field tokenize accepts accepts_raw) xs) _ fs h1 in
      sym (ap names_or h2)
      ∙ ap₂ (λ n ns. n ∷ ns) (emit_field-name x f made) (emitted-laid xs gs rest)

  emit-names :
      (l : LaidOutMsg) (e : Emitted Token)
      → emit tokenize accepts accepts_raw l ≡ some e
      → emitted_names e.fields ≡ laid_names l.fields
  unfolding emit
  emit-names l e h =
      let (i, name, h1) = or_panic-some (new_ident tokenize accepts accepts_raw l.name) _ e h in
      let (fields, made, h2) =
        or_panic-some (all_or_panic (emit_field tokenize accepts accepts_raw) l.fields) _ e h1 in
      let (consts, consts_ok, h3) =
        or_panic-some (all_or_panic (emit_constant tokenize accepts accepts_raw) l.constants) _ e
          h2 in
      let (items, items_ok, h4) =
        or_panic-some (all_or_panic (emit_topic tokenize accepts accepts_raw l) l.topics) _ e h3 in
      sym (ap emitted_names_or h4) ∙ emitted-laid l.fields fields made

-- If a message is laid out and generated, no field of it is named like a padding and no two have the
-- same name, then no two fields of the generated struct have the same name.
pub emitted-Distinct :
    {Token : Type 0} (tokenize : List ℕ → Option Token) (accepts accepts_raw : List ℕ → Bool)
    (files : List ℕ → Option (List (Field (List ℕ)))) (fuel : ℕ) (d : MsgDef) (l : LaidOutMsg)
    (e : Emitted Token)
    → lay_out files fuel d ≡ ok l
    → emit tokenize accepts accepts_raw l ≡ some e
    → Distinct (field_names d.fields)
    → NoPadding (field_names d.fields)
    → Distinct (emitted_names e.fields)
unfolding lay_out
emitted-Distinct tokenize accepts accepts_raw files fuel d l e laid emitted distinct no_padding =
    let (o, laid_ok, fields, total) =
      lay_out_fields d (layout (size_by_name files fuel) d.fields)
        (message_hash files fuel d.fields) l laid in
    let (stop, numbered) = layout-Numbered (size_by_name files fuel) d.fields o laid_ok in
    let sorted : reals o.fields ≡ sort d.fields =
      layout-reals (size_by_name files fuel) d.fields o laid_ok in
    subst Distinct
      (ap laid_names fields ∙ sym (emit-names tokenize accepts accepts_raw l e emitted))
      (laid-Distinct 0 stop o.fields numbered
        (subst (λ fs. Distinct (field_names fs)) (sym sorted) (sort-Distinct d.fields distinct))
        (subst (λ fs. NoPadding (field_names fs)) (sym sorted)
          (sort-NoPadding d.fields no_padding)))
