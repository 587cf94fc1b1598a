-- ===== src/SysBuild.antt =====
-- crates/px4-sys/build.rs: the build script of the bindings. Its environment, the file system, and
-- what bindgen and the C++ compiler answer are given; a path is its bytes, which `is_unicode` says to be
-- UTF-8 or not, and a variable that is read as text is not set where it is not UTF-8. A printed line is a value of
-- `Printed`, and `compile` is told the calls that were made on `cc::Build`.
pub mod Compile
pub mod Main
mod Answers
mod Includes
mod Outcomes
mod Tests
use px4_rs.Prelude.{
  ℕ, ◌==◌, Bool, true, false, Option, none, some, List, [], ◌∷◌, ◌++◌, if◌then◌else◌,
}
use px4_rs.Text.{codes, equal}
use px4_rs.Xtask.{contains}

-- The variables that it reads.
pub record Environment : Type 0 where
  pub out_dir : Bool
  pub px4_autopilot_dir : Option (List ℕ)
  pub build_trampolines : Bool
  pub platform : Option (List ℕ)
  pub build_dir : Option (List ℕ)
  pub board_name : Option (List ℕ)
  pub board_dir : Option (List ℕ)
  pub chip : Option (List ℕ)
  pub arch_family : Option (List ℕ)

pub data Printed : Type 0 where
  rerun_if_changed rerun_if_env_changed : List ℕ → Printed
  check_cfg cfg_trampolines : Printed
  warn_snapshot : List ℕ → Printed
  warn_no_build_dir : Printed

-- The calls on `cc::Build`.
pub data Setting : Type 0 where
  cpp : Setting
  std_flag cpp_file include_dir if_supported flag : List ℕ → Setting
  define : List ℕ → Option (List ℕ) → Setting

-- What it asks the file system, bindgen and the compiler.
pub record World : Type 0 where
  pub is_dir : List ℕ → Bool
  pub exists : List ℕ → Bool
  pub read : List ℕ → Option (List ℕ)
  pub bindgen : Bool
  pub writes : Bool
  pub copies : Bool
  pub compiles : List Setting → Bool
  pub is_numeric : ℕ → Bool
  pub is_unicode : List ℕ → Bool

-- How the script ends without success.
pub data Stop : Type 0 where
  no_out_dir unwritable no_snapshot uncopied no_marker too_old not_unicode compile_failed : Stop

pub data Build {ℓ} (A : Type ℓ) : Type ℓ where
  built : A → Build A
  stopped : Stop → Build A

abbrev pub and_then_build : {A B : Type 0} → Build A → (A → Build B) → Build B
and_then_build (built a) f = f a
and_then_build (stopped s) f = stopped s

-- `Path::join`
abbrev pub starts_absolute : List ℕ → Bool
starts_absolute [] = false
starts_absolute (c ∷ cs) = c == b'/'

unfoldable pub with_slash : List ℕ → List ℕ
with_slash [] = []
with_slash (c ∷ []) = if c == b'/' then c ∷ [] else c ∷ b'/' ∷ []
with_slash (c ∷ d ∷ cs) = c ∷ with_slash (d ∷ cs)

unfoldable pub join_path : List ℕ → List ℕ → List ℕ
unfolding with_slash
join_path base rel = if starts_absolute rel then rel else with_slash base ++ rel

-- `generate_bindings`
unfoldable pub generate_bindings : World → List ℕ → Build (List Printed)
generate_bindings w crate_dir =
    let snapshot = join_path (join_path crate_dir (codes "bindings")) (codes "bindings.rs") in
    if w.bindgen
    then if w.writes then built [] else stopped unwritable
    else if w.exists snapshot
    then if w.copies then built (warn_snapshot snapshot ∷ []) else stopped uncopied
    else stopped no_snapshot

-- `verify_px4_version`, on the text of the marker file.
abbrev pub judge : List ℕ → Option (List ℕ) → Build (List Printed)
judge marker none = stopped no_marker
judge marker (some body) =
    if contains (codes "orb_id_size_t") body
    then built (rerun_if_changed marker ∷ [])
    else stopped too_old

unfoldable pub verify_px4_version : World → List ℕ → Build (List Printed)
verify_px4_version w px4_dir =
    let marker = join_path px4_dir (codes "platforms/common/uORB/uORB.h") in
    judge marker (w.read marker)

-- The paths below a directory.
abbrev pub below : List ℕ → List (List ℕ) → List (List ℕ)
below base [] = []
below base (p ∷ ps) = join_path base p ∷ below base ps

unfoldable pub common_includes : List (List ℕ)
common_includes =
    codes "platforms/common/include"
    ∷ codes "platforms/common"
    ∷ codes "src"
    ∷ codes "src/lib"
    ∷ codes "src/lib/matrix"
    ∷ codes "src/include"
    ∷ codes "src/modules"
    ∷ codes "msg"
    ∷ []

unfoldable pub posix_includes : List (List ℕ)
posix_includes =
    codes "platforms/posix/include"
    ∷ codes "platforms/posix/src/px4/common/include"
    ∷ codes "platforms/posix/src/px4/generic/generic/include"
    ∷ codes "boards/px4/sitl/src"
    ∷ []
