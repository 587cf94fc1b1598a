-- ===== src/Bits.antt =====
-- The exclusive or of numbers, digit by digit: what it preserves and what it keeps apart.
use Prim.Native.Nat.{bit_xor, bit_xor-bitwise, digits, differ}
use px4_rs.Prelude.{ℕ, zero, suc, ◌+◌, ◌*◌, ◌/◌, ◌%◌, ◌^◌, ◌≤◌, ◌<◌, ◌≡◌, refl, arith}

abbrev xor_digits : ℕ → ℕ → ℕ → ℕ
xor_digits n a b = digits (λ b. b) differ n a b

-- Any count of rounds that the first number does not pass gives the same digits.
xor_digits_enough : (n m a b : ℕ) → a ≤ n → a ≤ m → xor_digits n a b ≡ xor_digits m a b
xor_digits_enough zero zero a b p q = refl
xor_digits_enough zero (suc m) zero b p q = refl
xor_digits_enough zero (suc m) (suc a) b p q = absurd (omega arith)
xor_digits_enough (suc n) zero zero b p q = refl
xor_digits_enough (suc n) zero (suc a) b p q = absurd (omega arith)
xor_digits_enough (suc n) (suc m) zero b p q = refl
xor_digits_enough (suc n) (suc m) (suc a) b p q =
    omega (arith, xor_digits_enough n m (suc a / 2) (b / 2) (omega arith) (omega arith))

differ_digits : (x y : ℕ) → x < 2 → y < 2 → differ x y ≡ (x + y) % 2
differ_digits zero y p q = omega arith
differ_digits (suc zero) zero p q = omega arith
differ_digits (suc zero) (suc zero) p q = omega arith
differ_digits (suc zero) (suc (suc y)) p q = absurd (omega arith)
differ_digits (suc (suc x)) y p q = absurd (omega arith)

-- The lowest digit, and the digits above it.
pub bit_xor_lem : (a b : ℕ) → bit_xor a b ≡ bit_xor (a / 2) (b / 2) * 2 + (a + b) % 2
bit_xor_lem zero b = omega (arith, bit_xor-bitwise 0 b, bit_xor-bitwise 0 (b / 2))
bit_xor_lem (suc a) b = omega (
  arith,
  bit_xor-bitwise (suc a) b,
  bit_xor-bitwise (suc a / 2) (b / 2),
  xor_digits_enough a (suc a / 2) (suc a / 2) (b / 2) (omega arith) (omega arith),
  differ_digits (suc a % 2) (b % 2) (omega arith) (omega arith),
)

pub bit_xor-lt : (w a b : ℕ) → a < 2 ^ w → b < 2 ^ w → bit_xor a b < 2 ^ w
bit_xor-lt zero zero b p q = omega (arith, bit_xor-bitwise 0 b)
bit_xor-lt zero (suc a) b p q = absurd (omega arith)
bit_xor-lt (suc w) a b p q =
    omega (arith, bit_xor_lem a b, bit_xor-lt w (a / 2) (b / 2) (omega arith) (omega arith))

-- `c` cannot make different numbers the same.
xor_same : (n a b c : ℕ) → a ≤ n → b ≤ n → bit_xor a c ≡ bit_xor b c → a ≡ b
xor_same zero a b c p q e = omega arith
xor_same (suc n) a b c p q e =
    let lows : (a + c) % 2 ≡ (b + c) % 2 = omega (arith, bit_xor_lem a c, bit_xor_lem b c) in
    let highs : a / 2 ≡ b / 2 =
      xor_same n (a / 2) (b / 2) (c / 2) (omega arith) (omega arith)
        (omega (arith, bit_xor_lem a c, bit_xor_lem b c)) in
    omega arith

pub bit_xor_injective : (a b c : ℕ) → bit_xor a c ≡ bit_xor b c → a ≡ b
bit_xor_injective a b c e = xor_same (a + b) a b c (omega arith) (omega arith) e

xor_same_right : (n c a b : ℕ) → a ≤ n → b ≤ n → bit_xor c a ≡ bit_xor c b → a ≡ b
xor_same_right zero c a b p q e = omega arith
xor_same_right (suc n) c a b p q e =
    let lows : (c + a) % 2 ≡ (c + b) % 2 = omega (arith, bit_xor_lem c a, bit_xor_lem c b) in
    let highs : a / 2 ≡ b / 2 =
      xor_same_right n (c / 2) (a / 2) (b / 2) (omega arith) (omega arith)
        (omega (arith, bit_xor_lem c a, bit_xor_lem c b)) in
    omega arith

pub bit_xor_injective_right : (c a b : ℕ) → bit_xor c a ≡ bit_xor c b → a ≡ b
bit_xor_injective_right c a b e = xor_same_right (a + b) c a b (omega arith) (omega arith) e
