-- ===== src/SysBuild/Compile.antt =====
-- crates/px4-sys/build.rs: `compile_trampolines` and the search paths of a NuttX build. The
-- preprocessor symbols stand in the order of the source.
use px4_rs.Prelude.{ℕ, Bool, true, false, Option, none, some, List, [], ◌∷◌, ◌++◌, if◌then◌else◌}
use px4_rs.Text.{codes, equal}
use px4_rs.SysBuild.{
  Environment, World, Printed, rerun_if_changed, rerun_if_env_changed, warn_no_build_dir, Setting,
  Build, built, stopped, not_unicode, and_then_build, cpp, std_flag, cpp_file, include_dir,
  if_supported, flag, define, join_path, below, common_includes, posix_includes,
}

-- The chip up to its first digit.
unfoldable pub vendor : (ℕ → Bool) → List ℕ → List ℕ
vendor numeric [] = []
vendor numeric (c ∷ cs) = if numeric c then [] else c ∷ vendor numeric cs

abbrev pub board_path : Option (List ℕ) → List (List ℕ)
board_path none = []
board_path (some d) = join_path d (codes "src") ∷ []

abbrev pub chip_path : (ℕ → Bool) → List ℕ → Option (List ℕ) → List (List ℕ)
chip_path numeric px4 none = []
chip_path numeric px4 (some chip) =
    let base = join_path px4 (codes "platforms/nuttx/src/px4") in
    join_path (join_path (join_path base (vendor numeric chip)) chip) (codes "include") ∷ []

abbrev pub arch_path : List ℕ → Option (List ℕ) → List (List ℕ)
arch_path px4 none = []
arch_path px4 (some arch) =
    join_path (join_path px4 (codes "platforms/nuttx/NuttX/nuttx/arch/arm/src")) arch ∷ []

abbrev pub install_path : Option (List ℕ) → List (List ℕ)
install_path none = []
install_path (some d) = join_path d (codes "external/Install/include") ∷ []

unfoldable pub nuttx_includes : World → Environment → List ℕ → List (List ℕ)
nuttx_includes w e px4 =
    board_path e.board_dir
    ++ (join_path px4 (codes "platforms/nuttx/src/px4/common/include")
        ∷ (chip_path w.is_numeric px4 e.chip
            ++ (arch_path px4 e.arch_family
                ++ (join_path px4 (codes "platforms/nuttx/NuttX/nuttx/arch/arm/src/chip")
                    ∷ join_path px4 (codes "platforms/nuttx/NuttX/nuttx/arch/arm/src/common")
                    ∷ join_path px4 (codes "platforms/nuttx/NuttX/apps/include")
                    ∷ install_path e.build_dir))))

unfoldable pub nuttx_system_includes : List ℕ → List (List ℕ)
nuttx_system_includes px4 =
    join_path px4 (codes "platforms/nuttx/NuttX/include/cxx")
    ∷ join_path px4 (codes "platforms/nuttx/NuttX/nuttx/include/cxx")
    ∷ join_path px4 (codes "platforms/nuttx/NuttX/nuttx/include")
    ∷ []

-- The loops over the search paths, of which those that are directories are given to the compiler.
unfoldable pub include_existing : (List ℕ → Bool) → List (List ℕ) → List Setting
include_existing is_dir [] = []
include_existing is_dir (p ∷ ps) =
    let rest = include_existing is_dir ps in if is_dir p then include_dir p ∷ rest else rest

-- `to_str().unwrap()` panics on a path that is not UTF-8.
unfoldable pub system_existing :
    (List ℕ → Bool) → (List ℕ → Bool) → List (List ℕ) → Build (List Setting)
system_existing is_dir is_unicode [] = built []
system_existing is_dir is_unicode (p ∷ ps) =
    let rest = system_existing is_dir is_unicode ps in
    if is_dir p
    then (if is_unicode p
        then and_then_build rest (λ ss. built (flag (codes "-isystem") ∷ flag p ∷ ss))
        else stopped not_unicode)
    else rest

unfoldable pub posix_flags : List Setting
posix_flags =
    define (codes "__PX4_POSIX") none
    ∷ define (codes "__PX4_LINUX") none
    ∷ define (codes "CONFIG_ARCH_BOARD_PX4_SITL") none
    ∷ define (codes "ENABLE_LOCKSTEP_SCHEDULER") none
    ∷ define (codes "__STDC_FORMAT_MACROS") none
    ∷ define (codes "__CUSTOM_FILE_IO__") none
    ∷ define (codes "noreturn_function") (some (codes "__attribute__((noreturn))"))
    ∷ define (codes "MODULE_NAME") (some (codes "\"px4_rs_wrapper\""))
    ∷ flag (codes "-includevisibility.h")
    ∷ flag (codes "-fno-exceptions")
    ∷ []

abbrev pub posix_settings : World → List ℕ → List Setting
posix_settings w px4 = posix_flags ++ include_existing w.is_dir (below px4 posix_includes)

abbrev pub board_define : Option (List ℕ) → List Setting
board_define none = []
board_define (some name) = define (codes "CONFIG_ARCH_BOARD_" ++ name) none ∷ []

unfoldable pub nuttx_flags : List Setting
nuttx_flags =
    define (codes "__PX4_NUTTX") none
    ∷ define (codes "__STDC_FORMAT_MACROS") none
    ∷ define (codes "__CUSTOM_FILE_IO__") none
    ∷ define (codes "_SYS_CDEFS_H_") none
    ∷ define (codes "_SYS_REENT_H_") none
    ∷ define (codes "NDEBUG") none
    ∷ define (codes "MODULE_NAME") (some (codes "\"px4_rs_wrapper\""))
    ∷ flag (codes "-includevisibility.h")
    ∷ flag (codes "-nostdinc++")
    ∷ flag (codes "-fno-exceptions")
    ∷ flag (codes "-fno-rtti")
    ∷ flag (codes "-fno-sized-deallocation")
    ∷ flag (codes "-fno-threadsafe-statics")
    ∷ flag (codes "-fcheck-new")
    ∷ []

abbrev pub nuttx_settings : World → Environment → List ℕ → Build (List Setting)
nuttx_settings w e px4 =
    and_then_build (system_existing w.is_dir w.is_unicode (nuttx_system_includes px4)) (λ ss.
      built (
        nuttx_flags
        ++ (board_define e.board_name
            ++ (include_existing w.is_dir (nuttx_includes w e px4) ++ ss))))

-- `PX4_RS_PLATFORM`, which is "nuttx" when it is not set.
abbrev pub is_posix : Option (List ℕ) → Bool
is_posix none = false
is_posix (some p) = equal p (codes "posix")

abbrev pub platform_settings : World → Environment → List ℕ → Build (List Setting)
platform_settings w e px4 =
    if is_posix e.platform then built (posix_settings w px4) else nuttx_settings w e px4

abbrev pub build_settings : Option (List ℕ) → List Setting
build_settings none = []
build_settings (some d) =
    include_dir d ∷ include_dir (join_path (join_path d (codes "src")) (codes "lib")) ∷ []

-- With the settings of the platform.
abbrev pub all_settings : World → Environment → List ℕ → List ℕ → List Setting → List Setting
all_settings w e crate_dir px4 platform =
    cpp
    ∷ std_flag (codes "gnu++17")
    ∷ cpp_file (join_path crate_dir (codes "wrapper.cpp"))
    ∷ include_dir crate_dir
    ∷ if_supported (codes "-Wno-unused-parameter")
    ∷ if_supported (codes "-Wno-address-of-packed-member")
    ∷ (platform
        ++ (include_existing w.is_dir (below px4 common_includes) ++ build_settings e.build_dir))

unfoldable pub trampoline_settings : World → Environment → List ℕ → List ℕ → Build (List Setting)
trampoline_settings w e crate_dir px4 =
    and_then_build (platform_settings w e px4) (λ ss. built (all_settings w e crate_dir px4 ss))

-- The lines that `compile_trampolines` prints.
abbrev pub platform_lines : Bool → List Printed
platform_lines true = []
platform_lines false =
    rerun_if_env_changed (codes "PX4_RS_BOARD_NAME")
    ∷ rerun_if_env_changed (codes "PX4_RS_BOARD_DIR")
    ∷ rerun_if_env_changed (codes "PX4_RS_CHIP")
    ∷ rerun_if_env_changed (codes "PX4_RS_ARCH_FAMILY")
    ∷ []

abbrev pub build_dir_lines : Option (List ℕ) → List Printed
build_dir_lines none = warn_no_build_dir ∷ []
build_dir_lines (some d) = []

abbrev pub changed_below : List ℕ → List (List ℕ) → List Printed
changed_below px4 [] = []
changed_below px4 (p ∷ ps) = rerun_if_changed (join_path px4 p) ∷ changed_below px4 ps

unfoldable pub watched_headers : List (List ℕ)
watched_headers =
    codes "platforms/common/uORB/uORB.h"
    ∷ codes "platforms/common/uORB/SubscriptionCallback.hpp"
    ∷ codes "platforms/common/include/px4_platform_common/px4_work_queue/WorkItem.hpp"
    ∷ codes "platforms/common/include/px4_platform_common/px4_work_queue/ScheduledWorkItem.hpp"
    ∷ codes "platforms/common/include/px4_platform_common/px4_work_queue/WorkQueueManager.hpp"
    ∷ codes "src/drivers/drv_hrt.h"
    ∷ []

unfoldable pub trampoline_lines : Environment → List ℕ → List Printed
trampoline_lines e px4 =
    platform_lines (is_posix e.platform)
    ++ (build_dir_lines e.build_dir
        ++ (changed_below px4 watched_headers
            ++ (rerun_if_env_changed (codes "PX4_RS_PLATFORM")
                ∷ rerun_if_env_changed (codes "PX4_RS_BUILD_DIR")
                ∷ [])))
