-- ===== src/Xtask/Finished.antt =====
-- The build tool finishes, and what it leaves behind.
use mathlib.Core.Path.{subst}
use px4_rs.Prelude.{
  ℕ, ◌+◌, ◌≡◌, refl, ap, ◌∙◌, Bool, true, false, Option, some, List, [], ◌∷◌, ◌++◌, length, arith,
  Bool-cases, inl, inr, if-true, if-false,
}
use px4_rs.Text.{codes, equal}
use px4_rs.Codegen.Generate.{
  Generated, generated, bad_syntax, missing, panicked, out_of_fuel, generate,
}
use px4_rs.Xtask.{
  File, Output, files_of, add_generated, then_output, gen_dir, gen_dirs, msg_dirs, gen_msgs,
}
use px4_rs.Xtask.Written.{
  messages, all_messages, latest-none, contents, failures, last_result, dirs-Adds,
}

module _ {Token : Type 0} where
  -- A panic of the generator, or a run out of fuel.
  abbrev pub crashes : Generated Token → Bool
  crashes (generated e) = false
  crashes (bad_syntax n r) = false
  crashes (missing n) = false
  crashes panicked = true
  crashes out_of_fuel = true

  module _ (tokenize : List ℕ → Option Token) (accepts accepts_raw : List ℕ → Bool) (fuel : ℕ)
      (dirs : List (List File)) where
    abbrev pub NoneCrashes : List File → Type 0
    NoneCrashes [] = Unit
    NoneCrashes (f ∷ fs) =
        (crashes (generate tokenize accepts accepts_raw (files_of dirs) fuel f.stem f.text) ≡ false)
        × NoneCrashes fs

    NoneCrashes-append :
        (fs gs : List File) → NoneCrashes (fs ++ gs) → NoneCrashes fs × NoneCrashes gs
    NoneCrashes-append [] gs h = (tt, h)
    NoneCrashes-append (f ∷ fs) gs (h, k) = let (a, b) = NoneCrashes-append fs gs k in ((h, a), b)

    add_finishes :
        (stem : List ℕ) (g : Generated Token) (o : Output Token)
        → crashes g ≡ false
        → (o' : Output Token) × (add_generated tokenize accepts accepts_raw fuel stem g o ≡ some o')
    add_finishes stem (generated e) o h = (_, refl)
    add_finishes stem (bad_syntax n r) o h = (_, refl)
    add_finishes stem (missing n) o h = (_, refl)
    add_finishes stem panicked o h = cc
    add_finishes stem out_of_fuel o h = cc

    dir_finishes :
        (fs : List File) (o : Output Token)
        → NoneCrashes (messages fs)
        → (o' : Output Token) × (gen_dir tokenize accepts accepts_raw fuel dirs fs o ≡ some o')
    unfolding gen_dir
    dir_finishes [] o h = (o, refl)
    dir_finishes (f ∷ fs) o h = elim (Bool-cases (equal f.extension (codes "msg"))) [
      | inl e ↦
          let g = generate tokenize accepts accepts_raw (files_of dirs) fuel f.stem f.text in
          let (a, b) = subst NoneCrashes (if-true _ _ e) h in
          let (p, q) = add_finishes f.stem g o a in
          let (o', r) = dir_finishes fs p b in
          (
            o',
            if-true _ _ e
                ∙ (ap
                      (λ x.
                        then_output tokenize accepts accepts_raw fuel x
                          (gen_dir tokenize accepts accepts_raw fuel dirs fs))
                      q
                    ∙ r),
          )
      | inr e ↦
          let (o', r) = dir_finishes fs o (subst NoneCrashes (if-false _ _ e) h) in
          (o', if-false _ _ e ∙ r)
    ]

    dirs_finish :
        (ds : List (List File)) (o : Output Token)
        → NoneCrashes (all_messages ds)
        → (o' : Output Token) × (gen_dirs tokenize accepts accepts_raw fuel dirs ds o ≡ some o')
    unfolding gen_dirs
    dirs_finish [] o h = (o, refl)
    dirs_finish (d ∷ ds) o h =
        let (a, b) = NoneCrashes-append (messages d) (all_messages ds) h in
        let (p, q) = dir_finishes d o a in
        let (o', r) = dirs_finish ds p b in
        (
          o',
          ap
                (λ x.
                  then_output tokenize accepts accepts_raw fuel x
                    (gen_dirs tokenize accepts accepts_raw fuel dirs ds))
                q
              ∙ r,
        )

  -- If the generator panics on no message of the directories and has fuel enough, the tool finishes: the
  -- messages that it counts and those that it skips are together as many as the messages, those it
  -- skips are the ones for which nothing is generated, in order, and a file that it leaves holds what
  -- the last message of its name generated, the messages of `msg/versioned` being the last.
  pub gen_msgs_lem :
      (tokenize : List ℕ → Option Token) (accepts accepts_raw : List ℕ → Bool) (fuel : ℕ)
      (msg : List File) (versioned : Option (List File))
      → NoneCrashes tokenize accepts accepts_raw fuel
          (msg_dirs tokenize accepts accepts_raw fuel msg versioned)
          (all_messages (msg_dirs tokenize accepts accepts_raw fuel msg versioned))
      → (o : Output Token) × (gen_msgs tokenize accepts accepts_raw fuel msg versioned ≡ some o)
        × (let dirs = msg_dirs tokenize accepts accepts_raw fuel msg versioned in
            let fs = all_messages dirs in
            (o.count + length o.skipped ≡ length fs)
            × (o.skipped ≡ failures tokenize accepts accepts_raw fuel dirs fs)
            × ((name : List ℕ)
                → contents name o.written
                  ≡ last_result tokenize accepts accepts_raw fuel dirs name fs))
  unfolding gen_msgs
  gen_msgs_lem tokenize accepts accepts_raw fuel msg versioned h =
      let dirs = msg_dirs tokenize accepts accepts_raw fuel msg versioned in
      let (o, e) = dirs_finish tokenize accepts accepts_raw fuel dirs dirs _ h in
      let a = dirs-Adds tokenize accepts accepts_raw fuel dirs dirs _ o e in
      (
        o,
        e,
        (
          omega (arith, a.counted),
          a.skips,
          λ name.
              a.writes name
              ∙ latest-none
                  (last_result tokenize accepts accepts_raw fuel dirs name (all_messages dirs)),
        ),
      )
