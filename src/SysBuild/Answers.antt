-- ===== src/SysBuild/Answers.antt =====
-- What follows a step of the build script that went well.
use px4_rs.Prelude.{◌≡◌, refl}
use px4_rs.SysBuild.{Build, built, stopped, and_then_build}

abbrev pub Succeeds : {A : Type 0} → Build A → Type 0
Succeeds {A} r = (a : A) × (r ≡ built a)

pub and_then_build-built :
    {A B : Type 0} (m : Build A) (f : A → Build B) {b : B}
    → and_then_build m f ≡ built b
    → (a : A) × (m ≡ built a) × (f a ≡ built b)
and_then_build-built (built a) f e = (a, refl, e)
and_then_build-built (stopped s) f e = cc

pub and_then_build-Succeeds :
    {A B : Type 0} (m : Build A) (f : A → Build B)
    → Succeeds m
    → ((a : A) → Succeeds (f a))
    → Succeeds (and_then_build m f)
and_then_build-Succeeds (built a) f h k = k a
and_then_build-Succeeds (stopped s) f (a, e) k = cc
