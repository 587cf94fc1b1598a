-- ===== src/Codegen/Hash.antt =====
-- crates/px4-msg-codegen/src/layout.rs, `fnv1a_32` and `message_hash`. The text is ASCII, so that its
-- bytes are its characters; `files` is what the search path finds under a name, parsed.
-- `text_by_name` runs on fuel, one unit for each level of nesting.
pub mod Collisions
pub mod Flat
pub mod Reparsed
mod Tests
use Prim.Native.Nat.{bit_xor}
use px4_rs.Prelude.{ℕ, zero, suc, ◌*◌, ◌%◌, ◌^◌, Option, List, [], ◌∷◌, ◌++◌}
use px4_rs.Text.{codes}
use px4_rs.Codegen.{
  Field, FieldType, Result, ok, too_deep, and_then, scalar, scalar_array, nested, nested_array,
  found,
}
use px4_rs.Codegen.Types.{token}

-- One byte of the hash: `hash ^= b` and `hash.wrapping_mul`.
abbrev pub hash_byte : ℕ → ℕ → ℕ
hash_byte hash b = (bit_xor hash b * 0x01000193) % 2 ^ 32

unfoldable pub hash_from : ℕ → List ℕ → ℕ
hash_from hash [] = hash
hash_from hash (b ∷ bs) = hash_from (hash_byte hash b) bs

unfoldable pub fnv1a_32 : List ℕ → ℕ
unfolding hash_from
fnv1a_32 s = hash_from 0x811c9dc5 s

-- The line of one field.
abbrev pub field_text : Field (List ℕ) → List ℕ
field_text f = token f.ty ++ b' ' ∷ (f.name ++ codes "\n")

-- `text_of` stands for what a nested message adds.
module _ (text_of : List ℕ → Result (List ℕ) (List ℕ)) where
  abbrev pub nested_text : FieldType (List ℕ) → Result (List ℕ) (List ℕ)
  nested_text (scalar s) = ok []
  nested_text (scalar_array s n) = ok []
  nested_text (nested m) = text_of m
  nested_text (nested_array m n) = text_of m

  -- The loop of `message_hash_fields`.
  unfoldable pub fields_text : List (Field (List ℕ)) → Result (List ℕ) (List ℕ)
  fields_text [] = ok []
  fields_text (f ∷ fs) =
      and_then (nested_text f.ty)
        (λ inner. and_then (fields_text fs) (λ rest. ok (field_text f ++ (inner ++ rest))))

module _ (files : List ℕ → Option (List (Field (List ℕ)))) where
  unfoldable pub text_by_name : ℕ → List ℕ → Result (List ℕ) (List ℕ)
  unfolding fields_text
  text_by_name zero n = too_deep
  text_by_name (suc fuel) n = found n (files n) (fields_text (text_by_name fuel))

  -- `message_hash_fields` of the fields of a message.
  unfoldable pub message_text : ℕ → List (Field (List ℕ)) → Result (List ℕ) (List ℕ)
  unfolding text_by_name
  message_text fuel fs = fields_text (text_by_name fuel) fs

  unfoldable pub message_hash : ℕ → List (Field (List ℕ)) → Result (List ℕ) ℕ
  unfolding message_text fnv1a_32
  message_hash fuel fs = and_then (message_text fuel fs) (λ s. ok (fnv1a_32 s))
