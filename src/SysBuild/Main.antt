-- ===== src/SysBuild/Main.antt =====
-- crates/px4-sys/build.rs: `main`.
use px4_rs.Prelude.{ℕ, Option, none, some, List, [], ◌∷◌, ◌++◌, if◌then◌else◌}
use px4_rs.Text.{codes}
use px4_rs.SysBuild.{
  Environment, World, Printed, rerun_if_changed, rerun_if_env_changed, check_cfg, cfg_trampolines,
  Build, built, stopped, no_out_dir, compile_failed, and_then_build, generate_bindings,
  verify_px4_version,
}
use px4_rs.SysBuild.Compile.{trampoline_settings, trampoline_lines}

-- What is printed before anything is made.
abbrev pub first_lines : List Printed
first_lines =
    rerun_if_changed (codes "wrapper.h")
    ∷ rerun_if_changed (codes "wrapper.cpp")
    ∷ rerun_if_env_changed (codes "PX4_AUTOPILOT_DIR")
    ∷ rerun_if_env_changed (codes "PX4_RS_BUILD_TRAMPOLINES")
    ∷ check_cfg
    ∷ []

-- `compile_trampolines`, and the line that tells the crate of it.
unfoldable pub with_trampolines : World → Environment → List ℕ → List ℕ → Build (List Printed)
with_trampolines w e crate_dir px4 = and_then_build (trampoline_settings w e crate_dir px4) (λ ss.
    if w.compiles ss
    then built (trampoline_lines e px4 ++ (cfg_trampolines ∷ []))
    else stopped compile_failed)

-- What follows once the tree is new enough.
unfoldable pub verified : World → Environment → List ℕ → List ℕ → Build (List Printed)
verified w e crate_dir px4 =
    if e.build_trampolines then with_trampolines w e crate_dir px4 else built []

unfoldable pub with_px4 : World → Environment → List ℕ → Option (List ℕ) → Build (List Printed)
with_px4 w e crate_dir none = built []
with_px4 w e crate_dir (some px4) =
    and_then_build (verify_px4_version w px4)
      (λ ls. and_then_build (verified w e crate_dir px4) (λ ms. built (ls ++ ms)))

-- `main`: the lines that the script prints, if it succeeds.
unfoldable pub main : World → Environment → List ℕ → Build (List Printed)
main w e crate_dir =
    if e.out_dir
    then and_then_build (generate_bindings w crate_dir) (λ ls.
      and_then_build (with_px4 w e crate_dir e.px4_autopilot_dir)
        (λ ms. built (first_lines ++ (ls ++ ms))))
    else stopped no_out_dir
