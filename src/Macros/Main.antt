-- ===== src/Macros/Main.antt =====
-- crates/px4-macros/src/lib.rs: `#[px4::main]`. `pkg` is the environment's CARGO_PKG_NAME, and
-- `accepts` stands for the texts that `format_ident!` takes, where it panics on others.
pub mod Entry
use px4_rs.Prelude.{
  ℕ, ◌==◌, ltb, Bool, true, false, Option, none, some, List, [], ◌∷◌, ◌++◌, if◌then◌else◌, length,
}
use px4_rs.Text.{codes, equal}
use px4_rs.Log.{c_string}
use px4_rs.Log.Args.{Args, ℤ}
use px4_rs.Log.Records.{LogCall, ModuleValue, into_c_int}
use px4_rs.Macros.{
  FnArg, receiver, typed, ReturnType, no_type, impl_trait, some_type, Signature, NamedArg,
}

-- The errors of the macro.
pub data MainError : Type 0 where
  unknown_argument : List ℕ → MainError
  is_async_fn : MainError
  too_many_arguments : MainError
  takes_self : MainError
  no_package_name : MainError
  bad_entry_name : MainError
  returns_impl_trait : MainError

pub data Expanded (A : Type 0) : Type 0 where
  done : A → Expanded A
  refused : MainError → Expanded A

abbrev pub then_expand : {A B : Type 0} → Expanded A → (A → Expanded B) → Expanded B
then_expand (done a) f = f a
then_expand (refused e) f = refused e

-- `Args::parse`: the last name counts.
unfoldable pub parse_main_args : Option (List ℕ) → List NamedArg → Expanded (Option (List ℕ))
unfolding equal
parse_main_args name [] = done name
parse_main_args name (p ∷ ps) =
    let rest = parse_main_args (some p.value) ps in
    if equal p.key (codes "name") then rest else refused (unknown_argument p.key)

-- `s.replace('-', "_")`
unfoldable pub underscored : List ℕ → List ℕ
underscored [] = []
underscored (c ∷ cs) = (if c == b'-' then b'_' else c) ∷ underscored cs

abbrev pub module_name_of : Option (List ℕ) → Option (List ℕ) → Expanded (List ℕ)
module_name_of (some name) pkg = done name
module_name_of none none = refused no_package_name
module_name_of none (some pkg) = done (underscored pkg)

abbrev pub has_receiver : List FnArg → Bool
has_receiver [] = false
has_receiver (receiver ∷ rest) = true
has_receiver (typed p ∷ rest) = has_receiver rest

abbrev pub returns_impl : ReturnType → Bool
returns_impl no_type = false
returns_impl (impl_trait t) = true
returns_impl (some_type t) = false

-- The items: the C string of MODULE_NAME, and the entry point, which calls the function with the
-- arguments or without.
pub record MainItems : Type 0 where
  pub module_name : List ℕ
  pub entry : List ℕ
  pub callee : List ℕ
  pub takes_args : Bool

abbrev pub main_items : List ℕ → Signature → MainItems
main_items name s = record {
  module_name = name ++ (0 ∷ []);
  entry = name ++ codes "_main";
  callee = s.ident;
  takes_args = ltb 0 (length s.inputs);
}

module _ (accepts : List ℕ → Bool) where
  -- What follows the checks of the arguments.
  abbrev pub expand_named : Signature → List ℕ → Expanded MainItems
  expand_named s name =
      if accepts (name ++ codes "_main")
      then (if returns_impl s.output then refused returns_impl_trait else done (main_items name s))
      else refused bad_entry_name

  unfoldable pub expand_main : Option (List ℕ) → Option (List ℕ) → Signature → Expanded MainItems
  unfolding underscored
  expand_main pkg name s =
      if s.is_async
      then refused is_async_fn
      else if ltb 1 (length s.inputs)
      then refused too_many_arguments
      else if has_receiver s.inputs
      then refused takes_self
      else then_expand (module_name_of name pkg) (expand_named s)

  -- `main`
  unfoldable pub main_macro : Option (List ℕ) → List NamedArg → Signature → Expanded MainItems
  unfolding parse_main_args expand_main
  main_macro pkg args s = then_expand (parse_main_args none args) (λ name. expand_main pkg name s)

-- The generated entry point: `function` is the function below the attribute.
unfoldable pub entry_call : MainItems → (Option Args → ModuleValue) → Args → ℤ × List LogCall
unfolding into_c_int
entry_call m function args =
    into_c_int (function (if m.takes_args then some args else none)) (c_string m.module_name)
