-- ===== src/Macros/Main/Entry.antt =====
-- Which functions the macro takes, and what the entry point does that it generates.
use px4_rs.Prelude.{
  ℕ, ◌<◌, ◌≡◌, ltb, Bool, true, false, Option, none, some, List, [], ◌∷◌, ◌++◌, if◌then◌else◌,
  length, take,
}
use px4_rs.Text.{codes, equal}
use px4_rs.Log.{concat}
use px4_rs.Log.Args.{Args, ℤ, pos}
use px4_rs.Log.Contents.{NoNul}
use px4_rs.Log.Records.{LogCall, ModuleValue, unit, code, ok, err}
use px4_rs.Macros.{Signature, NamedArg}
use px4_rs.Macros.Main.{done, MainItems, module_name_of, has_receiver, returns_impl, entry_call}

-- A function that is not async, takes one argument at most and no `self`, and returns no `impl Trait`;
-- a name that is given or that of the package; and an entry point whose name is accepted.
abbrev pub Accepted :
    (List ℕ → Bool) → Option (List ℕ) → Option (List ℕ) → Signature → List ℕ → Type 0
Accepted accepts pkg name s n =
    (s.is_async ≡ false)
    × (length s.inputs < 2)
    × (has_receiver s.inputs ≡ false)
    × (module_name_of name pkg ≡ done n)
    × (accepts (n ++ codes "_main") ≡ true)
    × (returns_impl s.output ≡ false)

-- The text of the error that a value ends with, if it does, and its exit code.
abbrev pub error_writes : ModuleValue → Option (List (List ℕ))
error_writes unit = none
error_writes (code c) = none
error_writes (ok v) = error_writes v
error_writes (err writes) = some writes

abbrev pub exit_code : ModuleValue → ℤ
exit_code unit = pos 0
exit_code (code c) = c
exit_code (ok v) = exit_code v
exit_code (err writes) = pos 1

-- The report of an error: level 3, the name of the module, the first 255 bytes of the text.
abbrev pub report : List ℕ → Option (List (List ℕ)) → List LogCall
report name none = []
report name (some writes) =
    record { level = 3; module_name = name; message = take 255 (concat writes) } ∷ []

abbrev pub error_text : Option (List (List ℕ)) → List ℕ
error_text none = []
error_text (some writes) = concat writes

-- What the entry point `m`, for a module `n`, does with any function that gives `()`, a `c_int` or a
-- `Result` of such (the trait is open, and other types are left out): it calls it, with the arguments
-- if it takes one, gives its exit code, and reports its error and nothing else.
abbrev pub IsEntryOf : List ℕ → Signature → MainItems → Type 0
IsEntryOf n s m =
    (m.entry ≡ n ++ codes "_main")
    × (m.callee ≡ s.ident)
    × ((function : Option Args → ModuleValue) (args : Args) (v : ModuleValue)
        → v ≡ function (if ltb 0 (length s.inputs) then some args else none)
        → NoNul n
        → NoNul (error_text (error_writes v))
        → entry_call m function args ≡ (exit_code v, report n (error_writes v)))

-- Every key is `name`.
abbrev pub AllName : List NamedArg → Type 0
AllName [] = Unit
AllName (p ∷ ps) = (equal p.key (codes "name") ≡ true) × AllName ps

-- The value of the last argument, or `name`.
abbrev pub last_name : Option (List ℕ) → List NamedArg → Option (List ℕ)
last_name name [] = name
last_name name (p ∷ ps) = last_name (some p.value) ps
