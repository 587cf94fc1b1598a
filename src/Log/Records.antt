-- ===== src/Log/Records.antt =====
-- crates/px4-log/src/lib.rs, result.rs and log_backend.rs: the calls of PX4's logger, and what a module
-- returns to PX4. A formatted message is the writes that formatting makes; `valid` stands for
-- `from_utf8`, and the line of the host build is what it prints.
use px4_rs.Prelude.{
  ℕ, ◌-◌, min, Bool, List, [], ◌∷◌, ◌++◌, if◌then◌else◌, length, take, drop, replicate,
}
use px4_rs.Text.{codes}
use px4_rs.Log.{new_buf, as_c_str, c_string, write_all, write_str}
use px4_rs.Log.Args.{ℤ, pos}

pub data Level : Type 0 where
  debug info warn error panic : Level

-- `level as c_int`
abbrev pub level_code : Level → ℕ
level_code debug = 0
level_code info = 1
level_code warn = 2
level_code error = 3
level_code panic = 4

-- The arguments of `px4_log_modulename`, the strings as a reader in C sees them.
pub record LogCall : Type 0 where
  pub level : ℕ
  pub module_name : List ℕ
  pub message : List ℕ

-- `__log_impl` on the target; a C string is its bytes before the NUL.
unfoldable pub log_impl : Level → List ℕ → List (List ℕ) → LogCall
unfolding as_c_str write_str new_buf
log_impl level name writes = record {
  level = level_code level;
  module_name = name;
  message = c_string (as_c_str (write_all writes new_buf));
}

abbrev pub tag : Level → List ℕ
tag debug = codes "DEBUG"
tag info = codes "INFO"
tag warn = codes "WARN"
tag error = codes "ERROR"
tag panic = codes "PANIC"

-- `__log_impl` on the host: the line that is printed.
unfoldable pub log_line : (List ℕ → Bool) → Level → List ℕ → List (List ℕ) → List ℕ
unfolding write_str new_buf
log_line valid level name writes =
    let b = write_all writes new_buf in
    let msg = take b.pos b.buf in
    codes "["
    ++ (tag level
        ++ (codes "] "
            ++ ((if valid name then name else codes "?")
                ++ (codes ": " ++ (if valid msg then msg else codes "<non-utf8>")))))

-- The levels of the `log` crate.
pub data FacadeLevel : Type 0 where
  error warn info debug trace : FacadeLevel

abbrev pub facade_level : FacadeLevel → Level
facade_level FacadeLevel.error = error
facade_level FacadeLevel.warn = warn
facade_level FacadeLevel.info = info
facade_level FacadeLevel.debug = debug
facade_level FacadeLevel.trace = debug

abbrev pub name_len : ℕ
name_len = 32

-- The buffer for the name of the target.
unfoldable pub name_buf : List ℕ → List ℕ
name_buf target =
    let n = min (length target) (name_len - 1) in take n target ++ drop n (replicate name_len 0)

-- `PX4Logger::log`
unfoldable pub facade_log : FacadeLevel → List ℕ → List (List ℕ) → LogCall
unfolding log_impl name_buf
facade_log level target writes = log_impl (facade_level level) (c_string (name_buf target)) writes

-- The types with `ModuleResult`: `()`, `c_int` and a result of one of these.
pub data ModuleValue : Type 0 where
  unit : ModuleValue
  code : ℤ → ModuleValue
  ok : ModuleValue → ModuleValue
  err : List (List ℕ) → ModuleValue

-- `into_c_int`: the exit code, and the calls of the logger.
unfoldable pub into_c_int : ModuleValue → List ℕ → ℤ × List LogCall
unfolding log_impl
into_c_int unit name = (pos 0, [])
into_c_int (code c) name = (c, [])
into_c_int (ok v) name = into_c_int v name
into_c_int (err writes) name = (pos 1, log_impl error name writes ∷ [])
