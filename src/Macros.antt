-- ===== src/Macros.antt =====
-- crates/px4-macros/src/lib.rs and crates/px4-workqueue-macros/src/lib.rs: the attribute macros, from the
-- signature that `syn` gives them to the items that they generate.
pub mod Main
pub mod Task
mod Tests
use px4_rs.Prelude.{ℕ, Bool, List}

-- `FnArg`: `self`, or a pattern with its type.
pub data FnArg : Type 0 where
  receiver : FnArg
  typed : List ℕ → FnArg

-- `ReturnType`: none, or a type by its text, which may begin with `impl`.
pub data ReturnType : Type 0 where
  no_type : ReturnType
  impl_trait : List ℕ → ReturnType
  some_type : List ℕ → ReturnType

-- What the macros read of an `ItemFn`.
pub record Signature : Type 0 where
  pub is_async : Bool
  pub ident : List ℕ
  pub inputs : List FnArg
  pub output : ReturnType

-- `NamedArg`
pub record NamedArg : Type 0 where
  pub key : List ℕ
  pub value : List ℕ
