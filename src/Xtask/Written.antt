-- ===== src/Xtask/Written.antt =====
-- What the build tool leaves behind: every message is written or listed as skipped.
use px4_rs.Prelude.{
  ℕ, ◌+◌, ◌≡◌, refl, sym, ap, ◌∙◌, Bool, true, Option, none, some, List, [], ◌∷◌, ◌++◌,
  if◌then◌else◌, length, length-append, append_assoc, append-nil, arith, Bool-cases, inl, inr,
  if-true, if-false,
}
use mathlib.Core.Path.{subst}
use px4_rs.Text.{codes, equal}
use px4_rs.Text.Words.{equal_refl, equal_sound}
use px4_rs.Codegen.Naming.{camel_to_snake}
use px4_rs.Codegen.Emit.{Emitted}
use px4_rs.Codegen.Generate.{
  Generated, generated, bad_syntax, missing, panicked, out_of_fuel, generate,
}
use px4_rs.Xtask.{File, Output, files_of, write_file, add_generated, then_output, gen_dir, gen_dirs}

-- The files that are messages.
abbrev pub messages : List File → List File
messages [] = []
messages (f ∷ fs) =
    let rest = messages fs in if equal f.extension (codes "msg") then f ∷ rest else rest

abbrev pub all_messages : List (List File) → List File
all_messages [] = []
all_messages (d ∷ ds) = messages d ++ all_messages ds

-- The later of two, if it is there.
abbrev pub latest : {A : Type 0} → Option A → Option A → Option A
latest none o = o
latest (some a) o = some a

pub latest-none : {A : Type 0} (o : Option A) → latest o none ≡ o
latest-none none = refl
latest-none (some a) = refl

some-inj : {A : Type 0} {a b : A} → some a ≡ some b → a ≡ b
some-inj e = cc

latest_assoc : {A : Type 0} (o p q : Option A) → latest (latest o p) q ≡ latest o (latest p q)
latest_assoc none p q = refl
latest_assoc (some a) p q = refl

equal_trans : (m n k : List ℕ) → equal m n ≡ true → equal m k ≡ equal n k
equal_trans m n k e = ap (λ s. equal s k) (equal_sound m n e)

module _ {Token : Type 0} where
  -- What a file holds.
  abbrev pub contents : List ℕ → List (List ℕ × Emitted Token) → Option (Emitted Token)
  contents name [] = none
  contents name ((m, e) ∷ files) =
      let rest = contents name files in if equal m name then some e else rest

  contents-write :
      (name m : List ℕ) (e : Emitted Token) (files : List (List ℕ × Emitted Token))
      → contents name (write_file m e files)
        ≡ (if equal m name then some e else contents name files)
  unfolding write_file
  contents-write name m e [] = refl
  contents-write name m e ((k, d) ∷ files) = ground (
    arith,
    contents-write name m e files,
    equal_trans k m name,
    equal_sound k name,
    equal_refl m,
    equal_sound k m,
    equal_sound m name,
  )

  abbrev pub emitted : Generated Token → Option (Emitted Token)
  emitted (generated e) = some e
  emitted (bad_syntax n r) = none
  emitted (missing n) = none
  emitted panicked = none
  emitted out_of_fuel = none

  abbrev pub named : List ℕ → List ℕ → Option (Emitted Token) → Option (Emitted Token)
  named name stem o = if equal (camel_to_snake stem ++ codes ".rs") name then o else none

  abbrev pub failure : List ℕ → Option (Emitted Token) → List (List ℕ)
  failure stem none = stem ∷ []
  failure stem (some e) = []

  module _ (tokenize : List ℕ → Option Token) (accepts accepts_raw : List ℕ → Bool) (fuel : ℕ)
      (dirs : List (List File)) where
    abbrev pub result : File → Option (Emitted Token)
    result f = emitted (generate tokenize accepts accepts_raw (files_of dirs) fuel f.stem f.text)

    -- The stems of the messages for which nothing is generated.
    abbrev pub failures : List File → List (List ℕ)
    failures [] = []
    failures (f ∷ fs) = failure f.stem (result f) ++ failures fs

    -- What the last message with this file name generates.
    abbrev pub last_result : List ℕ → List File → Option (Emitted Token)
    last_result name [] = none
    last_result name (f ∷ fs) = latest (last_result name fs) (named name f.stem (result f))

    -- What the files `fs` add to an output.
    pub record Adds (fs : List File) (o o' : Output Token) : Type 0 where
      pub counted : o'.count + length o'.skipped ≡ o.count + length o.skipped + length fs
      pub skips : o'.skipped ≡ o.skipped ++ failures fs
      pub writes :
          (name : List ℕ)
          → contents name o'.written ≡ latest (last_result name fs) (contents name o.written)

    Adds-refl : (o : Output Token) → Adds [] o o
    Adds-refl o = record {
      counted = omega arith;
      skips = sym (append-nil o.skipped);
      writes = λ name. refl;
    }

    skip_one :
        (f : File) (o o' : Output Token)
        → result f ≡ none
        → some (record o { skipped = o.skipped ++ (f.stem ∷ []) }) ≡ some o'
        → Adds (f ∷ []) o o'
    skip_one f o o' k h = record {
      counted = ground (arith, h, length-append o.skipped (f.stem ∷ []));
      skips = rw k (ground (arith, h));
      writes = λ name. rw k (ground (arith, h));
    }

    add_one :
        (f : File) (g : Generated Token) (o o' : Output Token)
        → generate tokenize accepts accepts_raw (files_of dirs) fuel f.stem f.text ≡ g
        → add_generated tokenize accepts accepts_raw fuel f.stem g o ≡ some o'
        → Adds (f ∷ []) o o'
    add_one f (generated d) o o' e h =
        let k : result f ≡ some d = ap emitted e in
        record {
          counted = ground (arith, h);
          skips = rw k (ground (arith, h, append-nil o.skipped));
          writes = λ name. rw k (
              ground
                (arith, h, contents-write name (camel_to_snake f.stem ++ codes ".rs") d o.written));
        }
    add_one f (bad_syntax n r) o o' e h = skip_one f o o' (ap emitted e) h
    add_one f (missing n) o o' e h = skip_one f o o' (ap emitted e) h
    add_one f panicked o o' e h = cc
    add_one f out_of_fuel o o' e h = cc

    failures-append : (fs gs : List File) → failures (fs ++ gs) ≡ failures fs ++ failures gs
    failures-append [] gs = refl
    failures-append (f ∷ fs) gs =
        ap (λ x. failure f.stem (result f) ++ x) (failures-append fs gs)
        ∙ sym (append_assoc (failure f.stem (result f)) (failures fs) (failures gs))

    last-append :
        (name : List ℕ) (fs gs : List File)
        → last_result name (fs ++ gs) ≡ latest (last_result name gs) (last_result name fs)
    last-append name [] gs = sym (latest-none (last_result name gs))
    last-append name (f ∷ fs) gs =
        ap (λ x. latest x (named name f.stem (result f))) (last-append name fs gs)
        ∙ latest_assoc (last_result name gs) (last_result name fs) (named name f.stem (result f))

    Adds-append :
        (fs gs : List File) (o o' o'' : Output Token)
        → Adds fs o o'
        → Adds gs o' o''
        → Adds (fs ++ gs) o o''
    Adds-append fs gs o o' o'' a b = record {
      counted = omega (arith, a.counted, b.counted, length-append fs gs);
      skips =
          b.skips
          ∙ (ap (λ x. x ++ failures gs) a.skips
              ∙ (append_assoc o.skipped (failures fs) (failures gs)
                  ∙ ap (λ x. o.skipped ++ x) (sym (failures-append fs gs))));
      writes = λ name.
          b.writes name
          ∙ (ap (latest (last_result name gs)) (a.writes name)
              ∙ (sym (
                    latest_assoc (last_result name gs) (last_result name fs)
                      (contents name o.written))
                  ∙ ap (λ x. latest x (contents name o.written)) (sym (last-append name fs gs))));
    }

    then_output-some :
        (m : Option (Output Token)) (k : Output Token → Option (Output Token)) (o' : Output Token)
        → then_output tokenize accepts accepts_raw fuel m k ≡ some o'
        → (o : Output Token) × (m ≡ some o) × (k o ≡ some o')
    then_output-some none k o' h = cc
    then_output-some (some o) k o' h = (o, refl, h)

    dir-Adds :
        (fs : List File) (o o' : Output Token)
        → gen_dir tokenize accepts accepts_raw fuel dirs fs o ≡ some o'
        → Adds (messages fs) o o'
    unfolding gen_dir
    dir-Adds [] o o' h = subst (Adds [] o) (some-inj h) (Adds-refl o)
    dir-Adds (f ∷ fs) o o' h = elim (Bool-cases (equal f.extension (codes "msg"))) [
      | inl e ↦
          let g = generate tokenize accepts accepts_raw (files_of dirs) fuel f.stem f.text in
          let (p, a, b) =
            then_output-some (add_generated tokenize accepts accepts_raw fuel f.stem g o)
              (gen_dir tokenize accepts accepts_raw fuel dirs fs) o' (sym (if-true _ _ e) ∙ h) in
          subst (λ (x : List File). Adds x o o') (sym (if-true _ _ e))
            (Adds-append (f ∷ []) (messages fs) o p o' (add_one f g o p refl a)
              (dir-Adds fs p o' b))
      | inr e ↦
          subst (λ (x : List File). Adds x o o') (sym (if-false _ _ e))
            (dir-Adds fs o o' (sym (if-false _ _ e) ∙ h))
    ]

    pub dirs-Adds :
        (ds : List (List File)) (o o' : Output Token)
        → gen_dirs tokenize accepts accepts_raw fuel dirs ds o ≡ some o'
        → Adds (all_messages ds) o o'
    unfolding gen_dirs
    dirs-Adds [] o o' h = subst (Adds [] o) (some-inj h) (Adds-refl o)
    dirs-Adds (d ∷ ds) o o' h =
        let (p, a, b) =
          then_output-some (gen_dir tokenize accepts accepts_raw fuel dirs d o)
            (gen_dirs tokenize accepts accepts_raw fuel dirs ds) o' h in
        Adds-append (messages d) (all_messages ds) o p o' (dir-Adds d o p a) (dirs-Adds ds p o' b)
