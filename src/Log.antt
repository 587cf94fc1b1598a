-- ===== src/Log.antt =====
-- crates/px4-log/src/lib.rs: the buffer that a message is formatted into. A byte is a number.
pub mod Contents
pub mod Args
pub mod Records
mod Tests
use px4_rs.Prelude.{
  ℕ, zero, suc, ◌+◌, ◌-◌, ◌==◌, min, List, [], ◌∷◌, ◌++◌, if◌then◌else◌, length, take, drop,
  replicate, set,
}

abbrev pub buf_len : ℕ
buf_len = 256

pub record StackBuf : Type 0 where
  pub buf : List ℕ
  pub pos : ℕ

-- `StackBuf::new`
unfoldable pub new_buf : StackBuf
new_buf = record { buf = replicate buf_len 0; pos = 0 }

-- How many bytes of a string still fit.
abbrev pub fitting : List ℕ → StackBuf → ℕ
fitting s b = min (length s) (buf_len - 1 - b.pos)

-- `write_str`, which never fails.
unfoldable pub write_str : List ℕ → StackBuf → StackBuf
write_str s b =
    let n = fitting s b in
    record { buf = take b.pos b.buf ++ (take n s ++ drop (b.pos + n) b.buf); pos = b.pos + n }

-- `as_c_str`: the buffer that the pointer is to.
unfoldable pub as_c_str : StackBuf → List ℕ
as_c_str b = set b.buf (min b.pos (buf_len - 1)) 0

-- What a reader of a C string sees.
abbrev pub c_string : List ℕ → List ℕ
c_string [] = []
c_string (x ∷ xs) = if x == 0 then [] else x ∷ c_string xs

-- The writes that formatting makes, in order.
abbrev pub write_all : List (List ℕ) → StackBuf → StackBuf
write_all [] b = b
write_all (s ∷ ss) b = write_all ss (write_str s b)

abbrev pub concat : List (List ℕ) → List ℕ
concat [] = []
concat (s ∷ ss) = s ++ concat ss
