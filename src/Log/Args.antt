-- ===== src/Log/Args.antt =====
-- crates/px4-log/src/args.rs: the arguments of a module. `slots` are the pointers of `argv`, each null
-- or a C string; `argv` itself may be null, and `argc` is any C int. The contract of `from_raw` is that
-- there are at least `argc` slots.
pub mod Iteration
use px4_rs.Prelude.{
  ℕ, zero, suc, ◌==◌, leb, Bool, true, false, Option, none, some, List, [], ◌∷◌, if◌then◌else◌,
  get_elem?,
}

pub data ℤ : Type 0 where
  pos : ℕ → ℤ
  negsuc : ℕ → ℤ

pub record Args : Type 0 where
  pub argc : ℤ
  pub argv : Option (List (Option (List ℕ)))

abbrev pub len_in : ℤ → Option (List (Option (List ℕ))) → ℕ
len_in (pos n) none = 0
len_in (pos n) (some slots) = n
len_in (negsuc n) v = 0

-- `Args::len` and `is_empty`
abbrev pub arg_count : Args → ℕ
arg_count a = len_in a.argc a.argv

abbrev pub has_no_args : Args → Bool
has_no_args a = arg_count a == 0

abbrev pub slots : Option (List (Option (List ℕ))) → List (Option (List ℕ))
slots none = []
slots (some s) = s

abbrev pub join : Option (Option (List ℕ)) → Option (List ℕ)
join none = none
join (some o) = o

-- `Args::get`
abbrev pub get : Args → ℕ → Option (List ℕ)
get a n = if leb (arg_count a) n then none else join (get_elem? (slots a.argv) n)

-- `Args::subcommand`
abbrev pub subcommand : Args → Option (List ℕ)
subcommand a = get a 1

abbrev pub found_or : Option (List ℕ) → ℕ → Option (List ℕ) × ℕ → Option (List ℕ) × ℕ
found_or (some s) i rest = (some s, i)
found_or none i rest = rest

-- `Iter::next`, from index `i`: the argument and the next index. The loop runs on fuel.
unfoldable pub next : ℕ → Args → ℕ → Option (List ℕ) × ℕ
next zero a i = (none, i)
next (suc fuel) a i =
    let rest = next fuel a (suc i) in
    if leb (arg_count a) i then (none, i) else found_or (get a i) (suc i) rest

-- A whole iteration.
unfoldable pub collect : ℕ → Args → ℕ → List (List ℕ)
collect zero a i = []
collect (suc fuel) a i =
    let (o, j) = next (arg_count a) a i in
    let rest = collect fuel a j in elim o [ none ↦ [] | some s ↦ s ∷ rest ]
