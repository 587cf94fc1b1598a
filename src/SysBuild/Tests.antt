-- ===== src/SysBuild/Tests.antt =====
-- The build script in a few environments.
use px4_rs.Prelude.{ℕ, ◌≡◌, ◌↔◌, refl, true, false, ◌&&◌, leb, none, some, List}
use px4_rs.Text.{codes}
use px4_rs.Xtask.{contains}
use px4_rs.SysBuild.{
  Environment, World, Printed, built, stopped, too_old, not_unicode, no_snapshot, join_path,
  generate_bindings, verify_px4_version,
}
use px4_rs.SysBuild.Compile.{vendor, trampoline_settings, system_existing, nuttx_system_includes}
use px4_rs.SysBuild.Main.{main, with_px4, verified, with_trampolines}
use px4_rs.SysBuild.Answers.{Succeeds}
use px4_rs.SysBuild.Outcomes.{HasBindings, IsSupported, is_set, has_cfg, main-Succeeds}

-- A tree in which every file holds this text.
abbrev world_of : List ℕ → World
world_of text = record {
  is_dir = λ p. true;
  exists = λ p. true;
  read = λ p. some text;
  bindgen = false;
  writes = true;
  copies = true;
  compiles = λ s. true;
  is_numeric = λ c. leb 48 c && leb c 57;
  is_unicode = λ p. true;
}

abbrev new_tree : World
new_tree = world_of (codes "orb_id_size_t o_id;")

abbrev old_tree : World
old_tree = world_of (codes "message_hash")

abbrev cmake : Environment
cmake = record {
  out_dir = true;
  px4_autopilot_dir = some (codes "/px4");
  build_trampolines = true;
  platform = some (codes "posix");
  build_dir = none;
  board_name = none;
  board_dir = none;
  chip = none;
  arch_family = none;
}

main-Succeeds_example :
    (Succeeds (main new_tree cmake (codes "sys")) ↔ (
      (true ≡ true)
      × HasBindings new_tree (codes "sys")
      × IsSupported new_tree cmake (codes "sys") (some (codes "/px4"))))
    × ((ls : List Printed)
        → main new_tree cmake (codes "sys") ≡ built ls
        → has_cfg ls ≡ (is_set (some (codes "/px4")) && true))
main-Succeeds_example = main-Succeeds new_tree cmake (codes "sys")

too_old_tree : main old_tree cmake (codes "sys") ≡ stopped too_old
unfolding main generate_bindings with_px4 verify_px4_version contains
too_old_tree = refl

-- A tree for NuttX below a path that is not UTF-8.
not_utf8 :
    main
      (record new_tree { is_unicode = λ p. false })
      (record cmake { platform = none })
      (codes "sys")
    ≡ stopped not_unicode
unfolding main generate_bindings with_px4 verify_px4_version contains verified with_trampolines
    trampoline_settings system_existing nuttx_system_includes
not_utf8 = refl

no_bindings :
    main (record new_tree { exists = λ p. false }) cmake (codes "sys") ≡ stopped no_snapshot
unfolding main generate_bindings
no_bindings = refl

chip_vendor : vendor new_tree.is_numeric (codes "stm32h7") ≡ codes "stm"
unfolding vendor
chip_vendor = refl

join_relative : join_path (codes "/px4") (codes "msg") ≡ codes "/px4/msg"
unfolding join_path
join_relative = refl

join_absolute : join_path (codes "/px4") (codes "/opt") ≡ codes "/opt"
unfolding join_path
join_absolute = refl
