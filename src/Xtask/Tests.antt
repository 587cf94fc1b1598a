-- ===== src/Xtask/Tests.antt =====
-- The build tool on small trees; a token is its text, and every name is accepted.
use px4_rs.Xtask.Written.{messages, contents, failures, last_result}
use px4_rs.Xtask.Finished.{gen_msgs_lem}
use px4_rs.Codegen.Generate.{generate}
use px4_rs.Prelude.{
  ℕ, ◌+◌, length, ◌≡◌, Bool, true, false, Option, none, some, List, [], ◌∷◌, ◌++◌, refl,
}
use px4_rs.Text.{codes, equal, is_whitespace}
use px4_rs.Codegen.Types.{token}
use px4_rs.Codegen.Emit.{Emitted}
use px4_rs.Xtask.{File, Output, files_of, parse_px4_flag, parse_flag, gen_sys, gen_msgs, main_code}

abbrev as_text : List ℕ → Option (List ℕ)
as_text s = some s

abbrev any_name : List ℕ → Bool
any_name s = true

abbrev rest : List (List ℕ)
rest = codes "--out" ∷ codes "gen" ∷ codes "--px4" ∷ codes "tree" ∷ []

flag_value : parse_px4_flag (some (codes "home")) rest ≡ some (codes "tree")
unfolding parse_px4_flag
flag_value = refl

-- The flag without a value hides the environment.
bare_flag : parse_px4_flag (some (codes "home")) (codes "--px4" ∷ []) ≡ none
unfolding parse_px4_flag
bare_flag = refl

out_value : parse_flag (codes "--out") rest ≡ some (codes "gen")
unfolding parse_flag
out_value = refl

old_tree : gen_sys none (λ dir. some (codes "int orb_id;")) true rest ≡ false
unfolding gen_sys
old_tree = refl

unknown_command : main_code (λ r. true) (λ r. true) (codes "gen" ∷ []) ≡ 1
unfolding main_code
unknown_command = refl

-- `Point` stands in both directories, with 4 bytes and with 16, and `Path` nests it.
abbrev msg_files : List File
msg_files =
    record { stem = codes "Point"; extension = codes "msg"; text = codes "float32 x" }
    ∷ record { stem = codes "Path"; extension = codes "msg"; text = codes "Point last" }
    ∷ record { stem = codes "Bad"; extension = codes "msg"; text = codes "uint8" }
    ∷ record { stem = codes "README"; extension = codes "md"; text = codes "text" }
    ∷ []

abbrev versioned_files : List File
versioned_files =
    record {
      stem = codes "Point";
      extension = codes "msg";
      text = codes "float64 x" ++ (b'\n' ∷ codes "float64 y");
    }
    ∷ []

abbrev sizes : List (List ℕ × Emitted (List ℕ)) → List (List ℕ × ℕ)
sizes [] = []
sizes ((name, e) ∷ files) = (name, e.asserted) ∷ sizes files

abbrev summary : Option (Output (List ℕ)) → List (List ℕ × ℕ) × ℕ × List (List ℕ)
summary none = ([], 0, [])
summary (some o) = (sizes o.written, o.count, o.skipped)

-- The versioned message is written, but the one that nests it has the size of the other.
shadowed :
    summary (gen_msgs as_text any_name any_name 3 msg_files (some versioned_files))
    ≡ ((codes "point.rs", 16) ∷ (codes "path.rs", 8) ∷ [], 3, codes "Bad" ∷ [])
unfolding gen_msgs is_whitespace token
shadowed = refl

gen_msgs_lem_example :
    (o : Output (List ℕ)) × (gen_msgs as_text any_name any_name 3 msg_files (some versioned_files)
      ≡ some o)
    × ((o.count + length o.skipped ≡ 4)
        × (o.skipped
            ≡ failures as_text any_name any_name 3
                (msg_files ∷ versioned_files ∷ [])
                (messages msg_files ++ messages versioned_files))
        × ((name : List ℕ)
            → contents name o.written
              ≡ last_result as_text any_name any_name 3
                  (msg_files ∷ versioned_files ∷ [])
                  name
                  (messages msg_files ++ messages versioned_files)))
unfolding equal is_whitespace token generate files_of
gen_msgs_lem_example =
    gen_msgs_lem as_text any_name any_name 3 msg_files (some versioned_files)
      (refl, (refl, (refl, (refl, tt))))
