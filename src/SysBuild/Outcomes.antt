-- ===== src/SysBuild/Outcomes.antt =====
-- When the build script succeeds, and what it then tells the crate of the trampolines.
use px4_rs.Prelude.{
  ℕ, ◌≡◌, ◌↔◌, refl, sym, ap, ◌∙◌, Bool, true, false, ◌||◌, ◌&&◌, Option, none, some, List, [], ◌∷◌,
  ◌++◌, if◌then◌else◌, arith, Bool-cases, inl, inr, if-true, if-false,
}
use px4_rs.Text.{codes}
use px4_rs.Xtask.{contains}
use px4_rs.SysBuild.{
  Environment, World, Setting, flag, compile_failed, Printed, rerun_if_changed,
  rerun_if_env_changed, check_cfg, cfg_trampolines, warn_snapshot, warn_no_build_dir, Build, built,
  stopped, and_then_build, join_path, generate_bindings, verify_px4_version, judge,
}
use px4_rs.SysBuild.Compile.{
  system_existing, nuttx_system_includes, posix_settings, platform_settings, all_settings,
  trampoline_settings, trampoline_lines, changed_below, watched_headers, platform_lines,
  build_dir_lines, is_posix,
}
use px4_rs.SysBuild.Answers.{Succeeds, and_then_build-built, and_then_build-Succeeds}
use px4_rs.SysBuild.Main.{first_lines, with_trampolines, verified, with_px4, main}

-- Whether the crate is told that the trampolines are linked in.
abbrev pub is_cfg : Printed → Bool
is_cfg cfg_trampolines = true
is_cfg (rerun_if_changed p) = false
is_cfg (rerun_if_env_changed p) = false
is_cfg check_cfg = false
is_cfg (warn_snapshot p) = false
is_cfg warn_no_build_dir = false

unfoldable pub has_cfg : List Printed → Bool
has_cfg [] = false
has_cfg (l ∷ ls) = is_cfg l || has_cfg ls

has_cfg-append : (ls ms : List Printed) → has_cfg (ls ++ ms) ≡ (has_cfg ls || has_cfg ms)
unfolding has_cfg
has_cfg-append [] ms = refl
has_cfg-append (l ∷ ls) ms = ground (arith, has_cfg-append ls ms)

has_cfg-changed : (px4 : List ℕ) (ps : List (List ℕ)) → has_cfg (changed_below px4 ps) ≡ false
unfolding has_cfg
has_cfg-changed px4 [] = refl
has_cfg-changed px4 (p ∷ ps) = has_cfg-changed px4 ps

has_cfg-platform : (b : Bool) → has_cfg (platform_lines b) ≡ false
unfolding has_cfg
has_cfg-platform true = refl
has_cfg-platform false = refl

has_cfg-build_dir : (o : Option (List ℕ)) → has_cfg (build_dir_lines o) ≡ false
unfolding has_cfg
has_cfg-build_dir none = refl
has_cfg-build_dir (some d) = refl

has_cfg_tail :
    has_cfg (
      rerun_if_env_changed (codes "PX4_RS_PLATFORM")
      ∷ rerun_if_env_changed (codes "PX4_RS_BUILD_DIR")
      ∷ [])
    ≡ false
unfolding has_cfg
has_cfg_tail = refl

has_cfg-trampolines : (e : Environment) (px4 : List ℕ) → has_cfg (trampoline_lines e px4) ≡ false
unfolding trampoline_lines
has_cfg-trampolines e px4 =
    let tail =
      rerun_if_env_changed (codes "PX4_RS_PLATFORM")
      ∷ rerun_if_env_changed (codes "PX4_RS_BUILD_DIR")
      ∷ [] in
    ground (
      arith,
      has_cfg-platform (is_posix e.platform),
      has_cfg-build_dir e.build_dir,
      has_cfg-changed px4 watched_headers,
      has_cfg-append (platform_lines (is_posix e.platform))
          (build_dir_lines e.build_dir ++ (changed_below px4 watched_headers ++ tail)),
      has_cfg-append (build_dir_lines e.build_dir) (changed_below px4 watched_headers ++ tail),
      has_cfg-append (changed_below px4 watched_headers) tail,
      has_cfg_tail,
    )

-- The two ways to bindings.
abbrev pub HasBindings : World → List ℕ → Type 0
HasBindings w crate_dir =
    if w.bindgen
    then (w.writes ≡ true)
    else ((w.exists (join_path (join_path crate_dir (codes "bindings")) (codes "bindings.rs"))
          ≡ true)
        × (w.copies ≡ true))

-- Those that are directories are UTF-8.
abbrev pub UnicodeDirs : World → List (List ℕ) → Type 0
UnicodeDirs w [] = Unit
UnicodeDirs w (p ∷ ps) = (w.is_dir p ≡ true → w.is_unicode p ≡ true) × UnicodeDirs w ps

-- The paths of the system headers of NuttX can be given to the compiler, which then succeeds.
abbrev pub Compiles : World → Environment → List ℕ → List ℕ → Type 0
Compiles w e crate_dir px4 =
    (is_posix e.platform ≡ false → UnicodeDirs w (nuttx_system_includes px4))
    × ((ss : List Setting)
        → trampoline_settings w e crate_dir px4 ≡ built ss
        → w.compiles ss ≡ true)

-- The tree, if one is named, is of PX4 1.15 or later, and the trampolines compile if they are wanted.
abbrev pub IsSupported : World → Environment → List ℕ → Option (List ℕ) → Type 0
IsSupported w e crate_dir none = Unit
IsSupported w e crate_dir (some px4) =
    (body : List ℕ) × (w.read (join_path px4 (codes "platforms/common/uORB/uORB.h")) ≡ some body)
    × (contains (codes "orb_id_size_t") body ≡ true)
    × (e.build_trampolines ≡ true → Compiles w e crate_dir px4)

abbrev settings_or : List Setting → Build (List Setting) → List Setting
settings_or ss (built ts) = ts
settings_or ss (stopped r) = ss

system_built :
    (w : World) (ps : List (List ℕ)) {ss : List Setting}
    → system_existing w.is_dir w.is_unicode ps ≡ built ss
    → UnicodeDirs w ps
unfolding system_existing
system_built w [] h = tt
system_built w (p ∷ ps) h = elim (Bool-cases (w.is_dir p)) [
  | inr n ↦ (λ y. cc, system_built w ps (sym (if-false _ _ n) ∙ h))
  | inl y ↦ elim (Bool-cases (w.is_unicode p)) [
    | inr n ↦ absurd (cc (sym (if-false _ _ n) ∙ (sym (if-true _ _ y) ∙ h)))
    | inl u ↦
        let (rest, found, e) =
          and_then_build-built (system_existing w.is_dir w.is_unicode ps) _
            (sym (if-true _ _ u) ∙ (sym (if-true _ _ y) ∙ h)) in
        (λ z. u, system_built w ps found)
  ]
]

system-Succeeds :
    (w : World) (ps : List (List ℕ))
    → UnicodeDirs w ps
    → Succeeds (system_existing w.is_dir w.is_unicode ps)
unfolding system_existing
system-Succeeds w [] h = ([], refl)
system-Succeeds w (p ∷ ps) (u, us) = elim (Bool-cases (w.is_dir p)) [
  | inr n ↦ let (ss, e) = system-Succeeds w ps us in (ss, if-false _ _ n ∙ e)
  | inl y ↦
      let (ss, e) =
        and_then_build-Succeeds (system_existing w.is_dir w.is_unicode ps)
          (λ ss. built (flag (codes "-isystem") ∷ flag p ∷ ss)) (system-Succeeds w ps us)
          (λ ss. (flag (codes "-isystem") ∷ flag p ∷ ss, refl)) in
      (ss, if-true _ _ y ∙ (if-true _ _ (u y) ∙ e))
]

settings_built :
    (w : World) (e : Environment) (crate_dir px4 : List ℕ) {ss : List Setting}
    → trampoline_settings w e crate_dir px4 ≡ built ss
    → is_posix e.platform ≡ false
    → UnicodeDirs w (nuttx_system_includes px4)
unfolding trampoline_settings
settings_built w e crate_dir px4 h n =
    let (ps, a, h') = and_then_build-built (platform_settings w e px4) _ h in
    let (qs, b, h'') =
      and_then_build-built (system_existing w.is_dir w.is_unicode (nuttx_system_includes px4)) _
        (sym (if-false _ _ n) ∙ a) in
    system_built w (nuttx_system_includes px4) b

settings-Succeeds :
    (w : World) (e : Environment) (crate_dir px4 : List ℕ)
    → (is_posix e.platform ≡ false → UnicodeDirs w (nuttx_system_includes px4))
    → Succeeds (trampoline_settings w e crate_dir px4)
unfolding trampoline_settings
settings-Succeeds w e crate_dir px4 u =
    and_then_build-Succeeds (platform_settings w e px4)
      (λ ss. built (all_settings w e crate_dir px4 ss))
      (elim (Bool-cases (is_posix e.platform)) [
        | inl y ↦ (posix_settings w px4, if-true _ _ y)
        | inr n ↦
            let (ss, a) =
              and_then_build-Succeeds
                (system_existing w.is_dir w.is_unicode (nuttx_system_includes px4)) _
                (system-Succeeds w (nuttx_system_includes px4) (u n)) (λ ss. (_, refl)) in
            (ss, if-false _ _ n ∙ a)
      ])
      (λ ss. (all_settings w e crate_dir px4 ss, refl))

bindings_built :
    (w : World) (crate_dir : List ℕ) {ls : List Printed}
    → generate_bindings w crate_dir ≡ built ls
    → HasBindings w crate_dir × (has_cfg ls ≡ false)
unfolding generate_bindings has_cfg
bindings_built w crate_dir e = ground arith

bindings-Succeeds :
    (w : World) (crate_dir : List ℕ)
    → HasBindings w crate_dir
    → Succeeds (generate_bindings w crate_dir)
unfolding generate_bindings
bindings-Succeeds w crate_dir h = (
  if w.bindgen
      then []
      else warn_snapshot (join_path (join_path crate_dir (codes "bindings")) (codes "bindings.rs"))
        ∷ [],
  ground arith,
)

judge_built :
    (marker : List ℕ) (o : Option (List ℕ)) {ls : List Printed}
    → judge marker o ≡ built ls
    → (body : List ℕ) × (o ≡ some body)
      × (contains (codes "orb_id_size_t") body ≡ true)
      × (ls ≡ rerun_if_changed marker ∷ [])
judge_built marker none e = cc
judge_built marker (some body) e = (body, refl, ground arith, ground arith)

has_cfg_end :
    (e : Environment) (px4 : List ℕ)
    → has_cfg (trampoline_lines e px4 ++ (cfg_trampolines ∷ [])) ≡ true
unfolding has_cfg
has_cfg_end e px4 = ground (
  arith,
  has_cfg-append (trampoline_lines e px4) (cfg_trampolines ∷ []),
  has_cfg-trampolines e px4,
)

compiled_built :
    (w : World) (e : Environment) (px4 : List ℕ) (ss : List Setting) {ls : List Printed}
    → (if w.compiles ss
        then built (trampoline_lines e px4 ++ (cfg_trampolines ∷ []))
        else stopped compile_failed)
      ≡ built ls
    → (w.compiles ss ≡ true) × (has_cfg ls ≡ true)
compiled_built w e px4 ss h = ground (arith, has_cfg_end e px4)

trampolines_built :
    (w : World) (e : Environment) (crate_dir px4 : List ℕ) {ls : List Printed}
    → with_trampolines w e crate_dir px4 ≡ built ls
    → Compiles w e crate_dir px4 × (has_cfg ls ≡ true)
unfolding with_trampolines
trampolines_built w e crate_dir px4 h =
    let (ss, a, h') = and_then_build-built (trampoline_settings w e crate_dir px4) _ h in
    let (fits, c) = compiled_built w e px4 ss h' in
    (
      (
        settings_built w e crate_dir px4 a,
        λ ts b. ap w.compiles (ap (settings_or ss) (sym b ∙ a)) ∙ fits,
      ),
      c,
    )

trampolines-Succeeds :
    (w : World) (e : Environment) (crate_dir px4 : List ℕ)
    → Compiles w e crate_dir px4
    → Succeeds (with_trampolines w e crate_dir px4)
unfolding with_trampolines
trampolines-Succeeds w e crate_dir px4 (u, fits) =
    let (ss, a) = settings-Succeeds w e crate_dir px4 u in
    (
      trampoline_lines e px4 ++ (cfg_trampolines ∷ []),
      ap
            (λ r. and_then_build r (λ ss.
              if w.compiles ss
              then built (trampoline_lines e px4 ++ (cfg_trampolines ∷ []))
              else stopped compile_failed))
            a
          ∙ if-true _ _ (fits ss a),
    )

verified_built :
    (w : World) (e : Environment) (crate_dir px4 : List ℕ) {ls : List Printed}
    → verified w e crate_dir px4 ≡ built ls
    → (e.build_trampolines ≡ true → Compiles w e crate_dir px4) × (has_cfg ls ≡ e.build_trampolines)
unfolding verified has_cfg
verified_built w e crate_dir px4 h = elim (Bool-cases e.build_trampolines) [
  | inl y ↦
      let (fits, c) = trampolines_built w e crate_dir px4 (sym (if-true _ _ y) ∙ h) in
      (λ z. fits, c ∙ sym y)
  | inr n ↦ (λ y. cc, ground (arith, n))
]

verified-Succeeds :
    (w : World) (e : Environment) (crate_dir px4 : List ℕ)
    → (e.build_trampolines ≡ true → Compiles w e crate_dir px4)
    → Succeeds (verified w e crate_dir px4)
unfolding verified
verified-Succeeds w e crate_dir px4 h = elim (Bool-cases e.build_trampolines) [
  | inl y ↦ let (ls, a) = trampolines-Succeeds w e crate_dir px4 (h y) in (ls, if-true _ _ y ∙ a)
  | inr n ↦ ([], if-false _ _ n)
]

abbrev pub is_set : Option (List ℕ) → Bool
is_set none = false
is_set (some p) = true

px4_built :
    (w : World) (e : Environment) (crate_dir : List ℕ) (o : Option (List ℕ)) {ls : List Printed}
    → with_px4 w e crate_dir o ≡ built ls
    → IsSupported w e crate_dir o × (has_cfg ls ≡ (is_set o && e.build_trampolines))
unfolding with_px4 verify_px4_version has_cfg
px4_built w e crate_dir none h = (tt, ground arith)
px4_built w e crate_dir (some px4) h =
    let marker = join_path px4 (codes "platforms/common/uORB/uORB.h") in
    let (ls, a, h') = and_then_build-built (judge marker (w.read marker)) _ h in
    let (ms, b, h'') = and_then_build-built (verified w e crate_dir px4) _ h' in
    let (body, found, new, le) = judge_built marker (w.read marker) a in
    let (fits, c) = verified_built w e crate_dir px4 b in
    ((body, found, new, fits), ground (arith, has_cfg-append ls ms))

px4-Succeeds :
    (w : World) (e : Environment) (crate_dir : List ℕ) (o : Option (List ℕ))
    → IsSupported w e crate_dir o
    → Succeeds (with_px4 w e crate_dir o)
unfolding with_px4 verify_px4_version
px4-Succeeds w e crate_dir none h = ([], refl)
px4-Succeeds w e crate_dir (some px4) (body, found, new, fits) =
    let (ms, b) = verified-Succeeds w e crate_dir px4 fits in
    (
      rerun_if_changed (join_path px4 (codes "platforms/common/uORB/uORB.h")) ∷ ms,
      rw found (rw (new, b) refl),
    )

has_cfg-first : has_cfg first_lines ≡ false
unfolding has_cfg
has_cfg-first = refl

main_built :
    (w : World) (e : Environment) (crate_dir : List ℕ) (ls : List Printed)
    → main w e crate_dir ≡ built ls
    → (e.out_dir ≡ true)
      × HasBindings w crate_dir
      × IsSupported w e crate_dir e.px4_autopilot_dir
      × (has_cfg ls ≡ (is_set e.px4_autopilot_dir && e.build_trampolines))
unfolding main
main_built w e crate_dir all h = elim (Bool-cases e.out_dir) [
  | inr t ↦ absurd (cc (sym (if-false _ _ t) ∙ h))
  | inl t ↦
      let (ls, a, h') =
        and_then_build-built (generate_bindings w crate_dir) _ (sym (if-true _ _ t) ∙ h) in
      let (ms, b, h'') = and_then_build-built (with_px4 w e crate_dir e.px4_autopilot_dir) _ h' in
      let (bound, c) = bindings_built w crate_dir a in
      let (supported, d) = px4_built w e crate_dir e.px4_autopilot_dir b in
      (
        t,
        bound,
        supported,
        ground (
          arith,
          h'',
          c,
          d,
          has_cfg-append first_lines (ls ++ ms),
          has_cfg-append ls ms,
          has_cfg-first,
        ),
      )
]

-- The build script succeeds exactly if OUT_DIR is set, the bindings are generated and written, or else
-- the snapshot is there and copied, and, where PX4_AUTOPILOT_DIR is set, its uORB.h is read and
-- contains `orb_id_size_t` and, if the trampolines are wanted, the paths of NuttX's system headers that
-- are directories are UTF-8, unless the platform is posix, and the trampolines compile. If it succeeds,
-- it tells the crate that the trampolines are linked in exactly if the directory is set and they are
-- wanted.
pub main-Succeeds :
    (w : World) (e : Environment) (crate_dir : List ℕ)
    → (Succeeds (main w e crate_dir) ↔ (
        (e.out_dir ≡ true)
        × HasBindings w crate_dir
        × IsSupported w e crate_dir e.px4_autopilot_dir))
      × ((ls : List Printed)
          → main w e crate_dir ≡ built ls
          → has_cfg ls ≡ (is_set e.px4_autopilot_dir && e.build_trampolines))
unfolding main
main-Succeeds w e crate_dir = (
  (
    λ (ls, h). let (a, b, c, d) = main_built w e crate_dir ls h in (a, b, c),
    λ (a, b, c).
        let r =
          and_then_build-Succeeds (generate_bindings w crate_dir) _
            (bindings-Succeeds w crate_dir b)
            (λ ls.
              and_then_build-Succeeds (with_px4 w e crate_dir e.px4_autopilot_dir)
                (λ ms. built (first_lines ++ (ls ++ ms)))
                (px4-Succeeds w e crate_dir e.px4_autopilot_dir c)
                (λ ms. (first_lines ++ (ls ++ ms), refl))) in
        (r.0, if-true _ _ a ∙ r.1),
  ),
  λ ls h. (main_built w e crate_dir ls h).3,
)
