-- ===== src/Xtask.antt =====
-- xtask/src/main.rs: the build tool. What it reads of the file system and of its environment is given:
-- a file is its stem, its extension and its text, and a directory the list of its files in the order
-- of `read_dir`. The messages it prints are left out, but for the lists that they show.
mod Written
mod Finished
mod Tests
use px4_rs.Prelude.{
  ℕ, suc, ◌+◌, ◌&&◌, ◌||◌, Bool, true, false, Option, none, some, List, [], ◌∷◌, ◌++◌,
  if◌then◌else◌,
}
use px4_rs.Text.{codes, equal, strip_prefix}
use px4_rs.Codegen.{Field}
use px4_rs.Codegen.Naming.{camel_to_snake}
use px4_rs.Codegen.Parser.{MsgDef, Parse, parsed, syntax, parse_str}
use px4_rs.Codegen.Emit.{Emitted}
use px4_rs.Codegen.Generate.{
  Generated, generated, bad_syntax, missing, panicked, out_of_fuel, generate,
}

abbrev pub next_arg : List (List ℕ) → Option (List ℕ)
next_arg [] = none
next_arg (a ∷ args) = some a

-- `parse_flag`: what stands behind the first `key`.
unfoldable pub parse_flag : List ℕ → List (List ℕ) → Option (List ℕ)
unfolding equal
parse_flag key [] = none
parse_flag key (a ∷ rest) =
    let later = parse_flag key rest in if equal a key then next_arg rest else later

-- `parse_px4_flag`; `env` is PX4_AUTOPILOT_DIR, which is read only if the flag is not there.
unfoldable pub parse_px4_flag : Option (List ℕ) → List (List ℕ) → Option (List ℕ)
unfolding equal
parse_px4_flag env [] = env
parse_px4_flag env (a ∷ rest) =
    let later = parse_px4_flag env rest in if equal a (codes "--px4") then next_arg rest else later

abbrev pub is_found : Option (List ℕ) → Bool
is_found none = false
is_found (some rest) = true

-- `str::contains`
unfoldable pub contains : List ℕ → List ℕ → Bool
unfolding strip_prefix
contains word [] = is_found (strip_prefix word [])
contains word (c ∷ cs) =
    let later = contains word cs in is_found (strip_prefix word (c ∷ cs)) || later

-- `gen_sys`: whether it succeeds. `marker` is the text of uORB.h under a PX4 tree, `bindgen` whether
-- the bindings are made and written.
abbrev pub is_recent : Option (List ℕ) → Bool
unfolding contains
is_recent none = true
is_recent (some body) = contains (codes "orb_id_size_t") body

abbrev pub checked_version : (List ℕ → Option (List ℕ)) → Option (List ℕ) → Bool
checked_version marker none = true
checked_version marker (some px4) = is_recent (marker px4)

unfoldable pub gen_sys : Option (List ℕ) → (List ℕ → Option (List ℕ)) → Bool → List (List ℕ) → Bool
unfolding parse_px4_flag contains
gen_sys env marker bindgen rest = checked_version marker (parse_px4_flag env rest) && bindgen

pub record File : Type 0 where
  pub stem : List ℕ
  pub extension : List ℕ
  pub text : List ℕ

-- The text of the message `name` in a directory.
unfoldable pub find_in : List ℕ → List File → Option (List ℕ)
unfolding equal
find_in name [] = none
find_in name (f ∷ fs) =
    let later = find_in name fs in
    if equal f.stem name && equal f.extension (codes "msg") then some f.text else later

abbrev pub or_later : Option (List ℕ) → Option (List ℕ) → Option (List ℕ)
or_later none later = later
or_later (some text) later = some text

-- `Resolver::find` along the search path.
unfoldable pub find_along : List ℕ → List (List File) → Option (List ℕ)
unfolding find_in
find_along name [] = none
find_along name (d ∷ dirs) = or_later (find_in name d) (find_along name dirs)

-- The fields of a message that is nested; one that does not parse is taken for one that is missing,
-- which is skipped as well.
abbrev pub fields_or_missing : Parse MsgDef → Option (List (Field (List ℕ)))
fields_or_missing (parsed d) = some d.fields
fields_or_missing (syntax n r) = none

abbrev pub parsed_fields : List ℕ → Option (List ℕ) → Option (List (Field (List ℕ)))
unfolding parse_str
parsed_fields name none = none
parsed_fields name (some text) = fields_or_missing (parse_str name text)

abbrev pub files_of : List (List File) → List ℕ → Option (List (Field (List ℕ)))
unfolding find_along parse_str
files_of dirs name = parsed_fields name (find_along name dirs)

-- The files that are written, each under its name, and the stems of those that are skipped.
pub record Output (Token : Type 0) : Type 0 where
  pub written : List (List ℕ × Emitted Token)
  pub count : ℕ
  pub skipped : List (List ℕ)

-- `fs::write`: a file that is there already is replaced.
unfoldable pub write_file :
    {Token : Type 0}
    → List ℕ
    → Emitted Token
    → List (List ℕ × Emitted Token)
    → List (List ℕ × Emitted Token)
unfolding equal
write_file name e [] = (name, e) ∷ []
write_file name e ((m, d) ∷ files) =
    let later = write_file name e files in
    if equal m name then (name, e) ∷ files else (m, d) ∷ later

module _ {Token : Type 0} (tokenize : List ℕ → Option Token) (accepts accepts_raw : List ℕ → Bool)
    (fuel : ℕ) where
  -- What becomes of one message; `none` is a panic, or a run out of fuel.
  abbrev pub add_generated : List ℕ → Generated Token → Output Token → Option (Output Token)
  add_generated stem (generated e) o = some record {
    written = write_file (camel_to_snake stem ++ codes ".rs") e o.written;
    count = suc o.count;
    skipped = o.skipped;
  }
  add_generated stem (bad_syntax n r) o = some (record o { skipped = o.skipped ++ (stem ∷ []) })
  add_generated stem (missing n) o = some (record o { skipped = o.skipped ++ (stem ∷ []) })
  add_generated stem panicked o = none
  add_generated stem out_of_fuel o = none

  abbrev pub then_output :
      Option (Output Token) → (Output Token → Option (Output Token)) → Option (Output Token)
  then_output none f = none
  then_output (some o) f = f o

  -- The loop over one directory; `dirs` is the search path.
  unfoldable pub gen_dir : List (List File) → List File → Output Token → Option (Output Token)
  unfolding generate write_file camel_to_snake files_of equal
  gen_dir dirs [] o = some o
  gen_dir dirs (f ∷ fs) o =
      let others = gen_dir dirs fs o in
      if equal f.extension (codes "msg")
      then then_output
          (add_generated f.stem
            (generate tokenize accepts accepts_raw (files_of dirs) fuel f.stem f.text) o)
          (gen_dir dirs fs)
      else others

  unfoldable pub gen_dirs :
      List (List File) → List (List File) → Output Token → Option (Output Token)
  unfolding gen_dir
  gen_dirs dirs [] o = some o
  gen_dirs dirs (d ∷ ds) o = then_output (gen_dir dirs d o) (gen_dirs dirs ds)

  abbrev pub msg_dirs : List File → Option (List File) → List (List File)
  msg_dirs msg none = msg ∷ []
  msg_dirs msg (some versioned) = msg ∷ versioned ∷ []

  -- The messages of `gen_msgs`, from the files of `msg` and of `msg/versioned` where that is there.
  unfoldable pub gen_msgs : List File → Option (List File) → Option (Output Token)
  unfolding gen_dirs
  gen_msgs msg versioned =
      gen_dirs (msg_dirs msg versioned) (msg_dirs msg versioned)
        (record { written = []; count = 0; skipped = [] })

-- `main`: the exit code, from whether a subcommand succeeds.
abbrev pub exit_of : Bool → ℕ
exit_of true = 0
exit_of false = 1

unfoldable pub main_code : (List (List ℕ) → Bool) → (List (List ℕ) → Bool) → List (List ℕ) → ℕ
unfolding equal
main_code run_gen_sys run_gen_msgs [] = 2
main_code run_gen_sys run_gen_msgs (cmd ∷ rest) =
    if equal cmd (codes "gen-sys")
    then exit_of (run_gen_sys rest)
    else if equal cmd (codes "gen-msgs")
    then exit_of (run_gen_msgs rest)
    else if equal cmd (codes "help") || equal cmd (codes "-h") || equal cmd (codes "--help")
    then 0
    else 1
