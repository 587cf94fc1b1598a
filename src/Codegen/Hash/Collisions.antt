-- ===== src/Codegen/Hash/Collisions.antt =====
-- Texts of the same length that differ in one byte have different hashes.
use Prim.Native.Nat.{bit_xor}
use px4_rs.Prelude.{ℕ, ◌*◌, ◌%◌, ◌^◌, ◌<◌, ◌≡◌, ◌≢◌, List, [], ◌∷◌, ◌++◌, arith}
use px4_rs.Bits.{bit_xor-lt, bit_xor_injective, bit_xor_injective_right}
use px4_rs.Codegen.Hash.{hash_byte, hash_from, fnv1a_32}

-- The factor is odd, so that no product is lost.
product_injective :
    (x y : ℕ)
    → x < 2 ^ 32
    → y < 2 ^ 32
    → (x * 0x01000193) % 2 ^ 32 ≡ (y * 0x01000193) % 2 ^ 32
    → x ≡ y
product_injective x y p q e = omega arith

abbrev pub AllBytes : List ℕ → Type 0
AllBytes [] = Unit {0}
AllBytes (b ∷ bs) = (b < 256) × AllBytes bs

hash_byte-lt : (h b : ℕ) → hash_byte h b < 2 ^ 32
hash_byte-lt h b = omega arith

hash_byte_injective :
    (h k b : ℕ) → h < 2 ^ 32 → k < 2 ^ 32 → b < 256 → hash_byte h b ≡ hash_byte k b → h ≡ k
hash_byte_injective h k b p q r e = bit_xor_injective h k b (
    product_injective (bit_xor h b) (bit_xor k b) (bit_xor-lt 32 h b p (omega arith))
      (bit_xor-lt 32 k b q (omega arith)) e)

hash_byte_apart :
    (h a b : ℕ) → h < 2 ^ 32 → a < 256 → b < 256 → hash_byte h a ≡ hash_byte h b → a ≡ b
hash_byte_apart h a b p q r e = bit_xor_injective_right h a b (
    product_injective (bit_xor h a) (bit_xor h b) (bit_xor-lt 32 h a p (omega arith))
      (bit_xor-lt 32 h b p (omega arith)) e)

hash_from_injective :
    (h k : ℕ) (s : List ℕ)
    → h < 2 ^ 32
    → k < 2 ^ 32
    → AllBytes s
    → hash_from h s ≡ hash_from k s
    → h ≡ k
unfolding hash_from
hash_from_injective h k [] p q r e = e
hash_from_injective h k (b ∷ s) p q (r, rs) e = hash_byte_injective h k b p q r (
    hash_from_injective (hash_byte h b) (hash_byte k b) s (hash_byte-lt h b) (hash_byte-lt k b) rs
      e)

hash_from_apart :
    (h : ℕ) (s t : List ℕ) (a b : ℕ)
    → h < 2 ^ 32
    → a < 256
    → b < 256
    → AllBytes t
    → hash_from h (s ++ a ∷ t) ≡ hash_from h (s ++ b ∷ t)
    → a ≡ b
unfolding hash_from
hash_from_apart h [] t a b p q r bytes e = hash_byte_apart h a b p q r (
    hash_from_injective (hash_byte h a) (hash_byte h b) t (hash_byte-lt h a) (hash_byte-lt h b)
      bytes e)
hash_from_apart h (c ∷ s) t a b p q r bytes e =
    hash_from_apart (hash_byte h c) s t a b (hash_byte-lt h c) q r bytes e

-- Two texts of bytes that differ in one byte only have different hashes.
pub fnv1a_32_apart :
    (s t : List ℕ) (a b : ℕ)
    → a < 256
    → b < 256
    → AllBytes t
    → a ≢ b
    → fnv1a_32 (s ++ a ∷ t) ≢ fnv1a_32 (s ++ b ∷ t)
unfolding fnv1a_32
fnv1a_32_apart s t a b q r bytes apart e =
    apart (hash_from_apart 0x811c9dc5 s t a b (omega arith) q r bytes e)
