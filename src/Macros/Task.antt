-- ===== src/Macros/Task.antt =====
-- crates/px4-workqueue-macros/src/lib.rs: `#[task(wq = "...")]`. `found_crate` stands for
-- `proc_macro_crate::crate_name`, `accepts` for the texts that `Ident::new` takes, where it panics on
-- others; a type is its text.
pub mod Expansion
use px4_rs.Prelude.{
  ℕ, ◌==◌, Bool, true, false, not, ◌||◌, Option, none, some, List, [], ◌∷◌, ◌++◌, if◌then◌else◌,
}
use px4_rs.Text.{codes, equal}
use px4_rs.Macros.{
  FnArg, receiver, typed, ReturnType, no_type, impl_trait, some_type, Signature, NamedArg,
}

pub data FoundCrate : Type 0 where
  itself : FoundCrate
  crate_named : List ℕ → FoundCrate

-- `workqueue_path`
abbrev pub path_to : FoundCrate → List ℕ
path_to itself = codes "crate"
path_to (crate_named name) = codes "::" ++ name

abbrev pub umbrella_path : Option FoundCrate → List ℕ
umbrella_path none = codes "::px4_workqueue"
umbrella_path (some c) = path_to c

abbrev pub path_or : Option FoundCrate → Option FoundCrate → List ℕ
path_or none umbrella = umbrella_path umbrella
path_or (some c) umbrella = path_to c

abbrev pub workqueue_path : (List ℕ → Option FoundCrate) → List ℕ
workqueue_path found_crate =
    path_or (found_crate (codes "px4-workqueue")) (found_crate (codes "px4"))

pub data TaskError : Type 0 where
  unknown_argument : List ℕ → TaskError
  missing_wq : TaskError
  not_async : TaskError
  bad_return : TaskError
  bad_wq_name : TaskError
  takes_self : TaskError

pub data TaskExpanded (A : Type 0) : Type 0 where
  done : A → TaskExpanded A
  refused : TaskError → TaskExpanded A

abbrev pub then_task : {A B : Type 0} → TaskExpanded A → (A → TaskExpanded B) → TaskExpanded B
then_task (done a) f = f a
then_task (refused e) f = refused e

abbrev pub required : Option (List ℕ) → TaskExpanded (List ℕ)
required none = refused missing_wq
required (some wq) = done wq

-- `Args::parse`: the last `wq` counts, and one is required.
unfoldable pub parse_task_args : Option (List ℕ) → List NamedArg → TaskExpanded (List ℕ)
unfolding equal
parse_task_args wq [] = required wq
parse_task_args wq (p ∷ ps) =
    let rest = parse_task_args (some p.value) ps in
    if equal p.key (codes "wq") then rest else refused (unknown_argument p.key)

-- `replace(' ', "")`
unfoldable pub without_spaces : List ℕ → List ℕ
without_spaces [] = []
without_spaces (c ∷ cs) = let rest = without_spaces cs in if c == b' ' then rest else c ∷ rest

abbrev pub is_unit_or_never : List ℕ → Bool
unfolding equal
is_unit_or_never t = equal t (codes "()") || equal t (codes "!")

abbrev pub returns_nothing : ReturnType → Bool
unfolding is_unit_or_never without_spaces
returns_nothing no_type = true
returns_nothing (impl_trait t) = is_unit_or_never (without_spaces t)
returns_nothing (some_type t) = is_unit_or_never (without_spaces t)

-- The patterns of the arguments, by which they are passed on.
unfoldable pub arg_patterns : List FnArg → TaskExpanded (List (List ℕ))
arg_patterns [] = done []
arg_patterns (receiver ∷ rest) = refused takes_self
arg_patterns (typed p ∷ rest) = then_task (arg_patterns rest) (λ ps. done (p ∷ ps))

-- The module that is generated: its name, the C string that names the task, the path of the work
-- queue crate, the queue's configuration and the arguments passed on.
pub record TaskItems : Type 0 where
  pub mod_name : List ℕ
  pub task_name : List ℕ
  pub crate_path : List ℕ
  pub wq : List ℕ
  pub forwarded : List (List ℕ)

module _ (found_crate : List ℕ → Option FoundCrate) (accepts : List ℕ → Bool) where
  abbrev pub task_items : List ℕ → Signature → List (List ℕ) → TaskItems
  task_items wq s ps = record {
    mod_name = s.ident;
    task_name = s.ident ++ (0 ∷ []);
    crate_path = workqueue_path found_crate;
    wq = wq;
    forwarded = ps;
  }

  unfoldable pub expand_task : List ℕ → Signature → TaskExpanded TaskItems
  unfolding arg_patterns returns_nothing
  expand_task wq s =
      if not s.is_async
      then refused not_async
      else if not (returns_nothing s.output)
      then refused bad_return
      else if accepts wq
      then then_task (arg_patterns s.inputs) (λ ps. done (task_items wq s ps))
      else refused bad_wq_name

  -- `task`
  unfoldable pub task_macro : List NamedArg → Signature → TaskExpanded TaskItems
  unfolding parse_task_args expand_task
  task_macro args s = then_task (parse_task_args none args) (λ wq. expand_task wq s)
