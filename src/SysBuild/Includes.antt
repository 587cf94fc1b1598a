-- ===== src/SysBuild/Includes.antt =====
-- The search paths that the compiler is given.
use px4_rs.Prelude.{
  ℕ, ◌≡◌, ◌⊎◌, inl, inr, refl, Bool, true, false, Option, none, some, List, [], ◌∷◌, ◌++◌, ap,
  Bool-cases, if-holds, if-true, if-false, sym, ◌∙◌,
}
use px4_rs.Text.{codes}
use mathlib.Core.Path.{subst}
use px4_rs.SysBuild.Answers.{and_then_build-built}
use px4_rs.SysBuild.{
  Build, built, stopped, Environment, World, Setting, cpp, std_flag, cpp_file, include_dir,
  if_supported, flag, define, join_path, below, common_includes, posix_includes,
}
use px4_rs.SysBuild.Compile.{
  vendor, include_existing, system_existing, nuttx_includes, nuttx_system_includes, board_define,
  posix_flags, nuttx_flags, posix_settings, nuttx_settings, is_posix, platform_settings,
  build_settings, trampoline_settings,
}

-- A search path is a directory, or the crate's own, or one of the two of the build directory.
abbrev pub IsKnown : World → Environment → List ℕ → Setting → Type 0
IsKnown w e crate_dir (include_dir p) =
    (w.is_dir p ≡ true)
    ⊎ (p ≡ crate_dir)
    ⊎ ((d : List ℕ) × (e.build_dir ≡ some d)
        × ((p ≡ d) ⊎ (p ≡ join_path (join_path d (codes "src")) (codes "lib"))))
IsKnown w e crate_dir cpp = Unit
IsKnown w e crate_dir (std_flag s) = Unit
IsKnown w e crate_dir (cpp_file p) = Unit
IsKnown w e crate_dir (if_supported s) = Unit
IsKnown w e crate_dir (flag s) = Unit
IsKnown w e crate_dir (define n v) = Unit

abbrev pub AllKnown : World → Environment → List ℕ → List Setting → Type 0
AllKnown w e crate_dir [] = Unit
AllKnown w e crate_dir (s ∷ ss) = IsKnown w e crate_dir s × AllKnown w e crate_dir ss

-- None of the settings is a search path.
abbrev pub are_plain : List Setting → Bool
are_plain [] = true
are_plain (include_dir p ∷ ss) = false
are_plain (cpp ∷ ss) = are_plain ss
are_plain (std_flag s ∷ ss) = are_plain ss
are_plain (cpp_file s ∷ ss) = are_plain ss
are_plain (if_supported s ∷ ss) = are_plain ss
are_plain (flag s ∷ ss) = are_plain ss
are_plain (define n v ∷ ss) = are_plain ss

abbrev settings_or : Build (List Setting) → List Setting
settings_or (built ss) = ss
settings_or (stopped r) = []

module _ (w : World) (e : Environment) (crate_dir : List ℕ) where
  AllKnown-append :
      (ss ts : List Setting)
      → AllKnown w e crate_dir ss
      → AllKnown w e crate_dir ts
      → AllKnown w e crate_dir (ss ++ ts)
  AllKnown-append [] ts h k = k
  AllKnown-append (s ∷ ss) ts (h, hs) k = (h, AllKnown-append ss ts hs k)

  existing-AllKnown : (ps : List (List ℕ)) → AllKnown w e crate_dir (include_existing w.is_dir ps)
  unfolding include_existing
  existing-AllKnown [] = tt
  existing-AllKnown (p ∷ ps) =
      if-holds (AllKnown w e crate_dir) (w.is_dir p) (λ h. (inl h, existing-AllKnown ps))
        (λ h. existing-AllKnown ps)

  system-AllKnown :
      (ps : List (List ℕ)) (ss : List Setting)
      → system_existing w.is_dir w.is_unicode ps ≡ built ss
      → AllKnown w e crate_dir ss
  unfolding system_existing
  system-AllKnown [] ss h = subst (AllKnown w e crate_dir) (ap settings_or h) tt
  system-AllKnown (p ∷ ps) ss h = elim (Bool-cases (w.is_dir p)) [
    | inr n ↦ system-AllKnown ps ss (sym (if-false _ _ n) ∙ h)
    | inl y ↦ elim (Bool-cases (w.is_unicode p)) [
      | inr n ↦ absurd (cc (sym (if-false _ _ n) ∙ (sym (if-true _ _ y) ∙ h)))
      | inl u ↦
          let (rest, found, last) =
            and_then_build-built (system_existing w.is_dir w.is_unicode ps) _
              (sym (if-true _ _ u) ∙ (sym (if-true _ _ y) ∙ h)) in
          subst (AllKnown w e crate_dir) (ap settings_or last)
            (tt, (tt, system-AllKnown ps rest found))
    ]
  ]

  board-AllKnown : (o : Option (List ℕ)) → AllKnown w e crate_dir (board_define o)
  board-AllKnown none = tt
  board-AllKnown (some name) = (tt, tt)

  build-AllKnown :
      (o : Option (List ℕ)) → e.build_dir ≡ o → AllKnown w e crate_dir (build_settings o)
  build-AllKnown none h = tt
  build-AllKnown (some d) h = (inr (inr (d, h, inl refl)), (inr (inr (d, h, inr refl)), tt))

  plain-AllKnown : (ss : List Setting) → are_plain ss ≡ true → AllKnown w e crate_dir ss
  plain-AllKnown [] h = tt
  plain-AllKnown (cpp ∷ ss) h = (tt, plain-AllKnown ss h)
  plain-AllKnown (std_flag s ∷ ss) h = (tt, plain-AllKnown ss h)
  plain-AllKnown (cpp_file p ∷ ss) h = (tt, plain-AllKnown ss h)
  plain-AllKnown (if_supported s ∷ ss) h = (tt, plain-AllKnown ss h)
  plain-AllKnown (flag s ∷ ss) h = (tt, plain-AllKnown ss h)
  plain-AllKnown (define n v ∷ ss) h = (tt, plain-AllKnown ss h)
  plain-AllKnown (include_dir p ∷ ss) h = cc

  posix-AllKnown : (px4 : List ℕ) → AllKnown w e crate_dir (posix_settings w px4)
  unfolding posix_flags
  posix-AllKnown px4 =
      AllKnown-append posix_flags _ (plain-AllKnown posix_flags refl)
        (existing-AllKnown (below px4 posix_includes))

  nuttx-AllKnown :
      (px4 : List ℕ) (ss : List Setting)
      → nuttx_settings w e px4 ≡ built ss
      → AllKnown w e crate_dir ss
  unfolding nuttx_flags
  nuttx-AllKnown px4 ss h =
      let (qs, found, last) =
        and_then_build-built (system_existing w.is_dir w.is_unicode (nuttx_system_includes px4)) _
          h in
      subst (AllKnown w e crate_dir) (ap settings_or last) (
        AllKnown-append nuttx_flags _ (plain-AllKnown nuttx_flags refl) (
          AllKnown-append (board_define e.board_name) _ (board-AllKnown e.board_name) (
            AllKnown-append (include_existing w.is_dir (nuttx_includes w e px4)) _
              (existing-AllKnown (nuttx_includes w e px4))
              (system-AllKnown (nuttx_system_includes px4) qs found))))

  platform-AllKnown :
      (px4 : List ℕ) (ss : List Setting)
      → platform_settings w e px4 ≡ built ss
      → AllKnown w e crate_dir ss
  platform-AllKnown px4 ss h = elim (Bool-cases (is_posix e.platform)) [
    | inl y ↦
        subst (AllKnown w e crate_dir) (ap settings_or (sym (if-true _ _ y) ∙ h))
          (posix-AllKnown px4)
    | inr n ↦ nuttx-AllKnown px4 ss (sym (if-false _ _ n) ∙ h)
  ]

  -- Every search path that the compiler of the trampolines is given is a directory, but for that of the
  -- crate and the two of the build directory, which are given as they are.
  pub trampoline-AllKnown :
      (px4 : List ℕ) (ss : List Setting)
      → trampoline_settings w e crate_dir px4 ≡ built ss
      → AllKnown w e crate_dir ss
  unfolding trampoline_settings
  trampoline-AllKnown px4 ss h =
      let (qs, found, last) = and_then_build-built (platform_settings w e px4) _ h in
      let own : IsKnown w e crate_dir (include_dir crate_dir) = inr (inl refl) in
      let rest = AllKnown-append qs _ (platform-AllKnown px4 qs found) (
        AllKnown-append (include_existing w.is_dir (below px4 common_includes)) _
          (existing-AllKnown (below px4 common_includes)) (build-AllKnown e.build_dir refl)) in
      subst (AllKnown w e crate_dir) (ap settings_or last) (tt, (tt, (tt, (own, (tt, (tt, rest))))))

-- The vendor of a chip is its longest beginning without a digit.
abbrev pub AllPlain : (ℕ → Bool) → List ℕ → Type 0
AllPlain numeric [] = Unit
AllPlain numeric (c ∷ cs) = (numeric c ≡ false) × AllPlain numeric cs

abbrev pub StartsNumeric : (ℕ → Bool) → List ℕ → Type 0
StartsNumeric numeric [] = Unit
StartsNumeric numeric (c ∷ cs) = numeric c ≡ true

pub vendor_lem :
    (numeric : ℕ → Bool) (chip : List ℕ)
    → AllPlain numeric (vendor numeric chip)
      × ((rest : List ℕ) × (chip ≡ vendor numeric chip ++ rest) × StartsNumeric numeric rest)
unfolding vendor
vendor_lem numeric [] = (tt, ([], refl, tt))
vendor_lem numeric (c ∷ cs) = elim (Bool-cases (numeric c)) [
  | inl e ↦ rw e (tt, (c ∷ cs, refl, e))
  | inr e ↦
      let (plain, (rest, split, starts)) = vendor_lem numeric cs in
      rw e ((e, plain), (rest, ap (λ s. c ∷ s) split, starts))
]
