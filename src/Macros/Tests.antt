-- ===== src/Macros/Tests.antt =====
-- The macros on small functions; every name is accepted and no crate is renamed.
use px4_rs.Prelude.{ℕ, ◌≡◌, ◌↔◌, Bool, true, false, Option, none, some, List, [], ◌∷◌, ◌++◌, refl}
use px4_rs.Text.{codes}
use px4_rs.Macros.{typed, no_type, some_type, Signature, NamedArg}
use px4_rs.Macros.Main
use px4_rs.Macros.Main.{expand_main, main_macro}
use px4_rs.Macros.Main.Entry
use px4_rs.Macros.Task
use px4_rs.Macros.Task.{FoundCrate, crate_named, TaskItems, task_items, task_macro}
use px4_rs.Macros.Task.Expansion
use px4_rs.Macros.Task.Expansion.{task_macro_iff}

abbrev any_name : List ℕ → Bool
any_name s = true

abbrev entry_function : Signature
entry_function = record {
  is_async = false;
  ident = codes "run";
  inputs = typed (codes "args") ∷ [];
  output = no_type;
}

default_name :
    main_macro any_name (some (codes "gyro-watch")) [] entry_function
    ≡ Main.done record {
      module_name = codes "gyro_watch" ++ (0 ∷ []);
      entry = codes "gyro_watch_main";
      callee = codes "run";
      takes_args = true;
    }
unfolding main_macro
default_name = refl

unknown_key :
    main_macro any_name none (record { key = codes "nam"; value = codes "x" } ∷ []) entry_function
    ≡ Main.refused (Main.unknown_argument (codes "nam"))
unfolding main_macro
unknown_key = refl

abbrev named_gyro : List NamedArg
named_gyro = record { key = codes "name"; value = codes "gyro" } ∷ []

abbrev umbrella_only : List ℕ → Option FoundCrate
umbrella_only s = none

abbrev watch : Signature
watch = record {
  is_async = true;
  ident = codes "watch";
  inputs = typed (codes "rate") ∷ [];
  output = some_type (codes "( )");
}

abbrev on_rate_ctrl : List NamedArg
on_rate_ctrl = record { key = codes "wq"; value = codes "rate_ctrl" } ∷ []

abbrev watch_items : TaskItems
watch_items = record {
  mod_name = codes "watch";
  task_name = codes "watch" ++ (0 ∷ []);
  crate_path = codes "::px4_workqueue";
  wq = codes "rate_ctrl";
  forwarded = codes "rate" ∷ [];
}

watch_task : task_macro umbrella_only any_name on_rate_ctrl watch ≡ Task.done watch_items
unfolding task_macro
watch_task = refl

task_macro_iff_example :
    (task_macro umbrella_only any_name on_rate_ctrl watch ≡ Task.done watch_items) ↔ (
      (q : List ℕ) × (ps : List (List ℕ)) × Expansion.Accepted umbrella_only any_name on_rate_ctrl
        watch q ps
      × (watch_items.mod_name ≡ watch.ident)
      × (watch_items.task_name ≡ watch.ident ++ (0 ∷ []))
      × (watch_items.crate_path ≡ codes "::px4_workqueue")
      × (watch_items.wq ≡ q)
      × (watch_items.forwarded ≡ ps))
task_macro_iff_example = task_macro_iff umbrella_only any_name on_rate_ctrl watch watch_items
