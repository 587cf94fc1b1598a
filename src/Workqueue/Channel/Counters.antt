-- ===== src/Workqueue/Channel/Counters.antt =====
-- The counters of a channel: `head` and `tail` run modulo the width of `usize`.
use native.Mathlib.Decide.{dec_lt}
use native.Mathlib.Nat.{
  add-mod_right, mod-lt, mod-eq_of_lt, mod-add-mod, mod-eq-sub-mod, mod-mod_of_dvd, mod_self,
  dvd_of_mod-eq-zero,
}
use px4_rs.Prelude.{◌⊎◌, inl, inr, ℕ, suc, ◌+◌, ◌-◌, ◌%◌, ◌≤◌, ◌<◌, ◌≡◌, ◌≢◌, sym, ap, ◌∙◌, arith}
use px4_rs.Workqueue.Channel.{wrapping_sub, wrapping_add}

-- `(a + n) % m` for a step `n` below `m`, by whether it passes `m`.
add-mod_cases :
    (m a n : ℕ)
    → n < m
    → (((a + n) % m ≡ a % m + n) × (a % m + n < m))
      ⊎ (((a + n) % m + m ≡ a % m + n) × (m ≤ a % m + n))
add-mod_cases m a n h = elim (dec_lt (a % m + n) m) [
  | yes p ↦ inl (sym (mod-add-mod a m n) ∙ mod-eq_of_lt p, p)
  | no p ↦ inr (
    omega (
      arith,
      mod-add-mod a m n,
      mod-lt a {m = m} (omega arith),
      mod-eq-sub-mod {n = a % m + n} {m = m} (omega arith),
      mod-eq_of_lt {n = a % m + n - m} {m = m} (omega (arith, mod-lt a {m = m} (omega arith))),
    ),
    omega arith,
  )
]

-- The difference of two counters that are `n` apart.
pub wrapping_sub_lem : (m a n : ℕ) → n < m → wrapping_sub m ((a + n) % m) (a % m) ≡ n
wrapping_sub_lem m a n h = elim (add-mod_cases m a n h) [
  | inl (e, p) ↦
      ap (λ k. k % m) (omega (arith, mod-lt a {m = m} (omega arith)))
      ∙ (add-mod_right n m ∙ mod-eq_of_lt h)
  | inr (e, p) ↦ ap (λ k. k % m) (omega (arith, mod-lt a {m = m} (omega arith))) ∙ mod-eq_of_lt h
]

pub wrapping_add_lem : (m a n : ℕ) → wrapping_add m (a % m) n ≡ (a + n) % m
wrapping_add_lem m a n = mod-add-mod a m n

-- A counter that wraps at a multiple of the capacity still names the right slot.
pub slot_lem : (m cap a : ℕ) → m % cap ≡ 0 → a % m % cap ≡ a % cap
slot_lem m cap a h = mod-mod_of_dvd cap a (dvd_of_mod-eq-zero cap h)

-- Fewer than `cap` steps round the buffer do not come back to the start.
pub slot_ne : (cap a k : ℕ) → suc k < cap → (a + suc k) % cap ≢ a % cap
slot_ne cap a k h = elim (add-mod_cases cap a (suc k) h) [
  | inl (e, p) ↦ omega arith
  | inr (e, p) ↦ omega arith
]

-- The counter past `a`, which is not `a`, and what a stale `a` makes of it.
pub next_ne : (usize_mod a : ℕ) → 1 < usize_mod → a < usize_mod → a ≢ wrapping_add usize_mod a 1
next_ne usize_mod a m l e = elim (dec_lt (a + 1) usize_mod) [
  | yes p ↦ omega (arith, e, mod-eq_of_lt p)
  | no p ↦
      let w : a + 1 ≡ usize_mod = omega arith in
      let z : wrapping_add usize_mod a 1 ≡ 0 = ap (λ k. k % usize_mod) w ∙ mod_self usize_mod in
      omega (arith, e, z)
]

pub next_sub :
    (usize_mod a : ℕ)
    → 1 < usize_mod
    → a < usize_mod
    → wrapping_sub usize_mod a (wrapping_add usize_mod a 1) ≡ usize_mod - 1
next_sub usize_mod a m l = elim (dec_lt (a + 1) usize_mod) [
  | yes p ↦
      ap (λ k. (a + usize_mod - k) % usize_mod) (mod-eq_of_lt p)
      ∙ (ap (λ k. k % usize_mod) (omega arith) ∙ mod-eq_of_lt {n = usize_mod - 1} (omega arith))
  | no p ↦
      let w : a + 1 ≡ usize_mod = omega arith in
      let z : wrapping_add usize_mod a 1 ≡ 0 = ap (λ k. k % usize_mod) w ∙ mod_self usize_mod in
      ap (λ k. (a + usize_mod - k) % usize_mod) z
      ∙ (ap (λ k. k % usize_mod) (omega arith)
          ∙ (add-mod_right a usize_mod ∙ (mod-eq_of_lt l ∙ omega arith)))
]
