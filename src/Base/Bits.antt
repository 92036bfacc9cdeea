-- ===== src/Base/Bits.antt =====
-- `&` with a mask of ones is a remainder, and the power-of-two test `(c & (c - 1)) == 0`.
use Prim.Native.Nat.{
  ℕ, zero, suc, ◌+◌, ◌-◌, ◌*◌, ◌/◌, ◌%◌, ◌^◌, ◌≤◌, ◌<◌, min, bit_and, digits, bit_and-bitwise,
}
use mathlib.Core.Path.{◌≡◌, refl, ap, ◌∙◌, sym}
use mathlib.Core.Logic.{◌⊎◌, inl, inr}
use native.Mathlib.Nat.{pow-suc, mod-lt, div-add-mod}
use native.Mathlib.Omega.{arith}

-- A remainder is determined by its equation.
pub mod_unique : (m q r n : ℕ) → r < m → n ≡ m * q + r → n % m ≡ r
mod_unique m q r n h e = grind arith

pub pow_pos : (k : ℕ) → 0 < 2 ^ k
pow_pos zero = omega arith
pow_pos (suc k) = omega (arith, pow-suc 2 k, pow_pos k)

mod_double : (a m : ℕ) → 0 < m → a % (m * 2) ≡ a / 2 % m * 2 + a % 2
mod_double a m h =
    mod_unique (m * 2) (a / 2 / m) (a / 2 % m * 2 + a % 2) a (omega (arith, mod-lt (a / 2) h))
      (omega (arith, div-add-mod (a / 2) m, ap (λ (t : ℕ). t * 2) (div-add-mod (a / 2) m)))

module _ (z : ℕ → ℕ) (f : ℕ → ℕ → ℕ) where
  -- Any count of digits that is large enough gives the same result.
  pub digits_enough : (a b n m : ℕ) → a ≤ n → a ≤ m → digits z f n a b ≡ digits z f m a b
  digits_enough zero b zero zero p q = refl
  digits_enough zero b zero (suc m) p q = refl
  digits_enough zero b (suc n) zero p q = refl
  digits_enough zero b (suc n) (suc m) p q = refl
  digits_enough (suc a) b zero m p q = absurd (omega arith)
  digits_enough (suc a) b (suc n) zero p q = absurd (omega arith)
  digits_enough (suc a) b (suc n) (suc m) p q =
      ap (λ t. t * 2 + f (suc a % 2) (b % 2))
        (digits_enough (suc a / 2) (b / 2) n m (omega arith) (omega arith))

-- The lowest digit of `&`.
pub bit_and-digit : (a b : ℕ) → bit_and a b ≡ bit_and (a / 2) (b / 2) * 2 + min (a % 2) (b % 2)
bit_and-digit zero b = omega (arith, bit_and-bitwise 0 b, bit_and-bitwise 0 (b / 2))
bit_and-digit (suc a) b =
    bit_and-bitwise (suc a) b
    ∙ ap (λ t. t * 2 + min (suc a % 2) (b % 2))
        (digits_enough (λ _. 0) min (suc a / 2) (b / 2) a (suc a / 2) (omega arith) (omega arith)
          ∙ sym (bit_and-bitwise (suc a / 2) (b / 2)))

bit_and-zero_right : (n a : ℕ) → a ≤ n → bit_and a 0 ≡ 0
bit_and-zero_right n zero h = refl
bit_and-zero_right zero (suc a) h = absurd (omega arith)
bit_and-zero_right (suc n) (suc a) h =
    omega (arith, bit_and-digit (suc a) 0, bit_and-zero_right n (suc a / 2) (omega arith))

-- A mask of `k` ones keeps the remainder by `2 ^ k`.
pub bit_and-mask : (k a : ℕ) → bit_and a (2 ^ k - 1) ≡ a % 2 ^ k
bit_and-mask zero a = omega (arith, bit_and-zero_right a a (omega arith))
bit_and-mask (suc k) a = omega (
  arith,
  bit_and-digit a (2 ^ suc k - 1),
  half,
  ones,
  bit_and-mask k (a / 2),
  mod_double a (2 ^ k) (pow_pos k),
  ap (λ (m : ℕ). a % m) (pow-suc 2 k),
)
  where
    half : bit_and (a / 2) ((2 ^ suc k - 1) / 2) ≡ bit_and (a / 2) (2 ^ k - 1)
    half = ap (bit_and (a / 2)) (omega (arith, pow-suc 2 k, pow_pos k))

    ones : (2 ^ suc k - 1) % 2 ≡ 1
    ones = omega (arith, pow-suc 2 k, pow_pos k)

bit_and_self : (n a : ℕ) → a ≤ n → bit_and a a ≡ a
bit_and_self n zero h = refl
bit_and_self zero (suc a) h = absurd (omega arith)
bit_and_self (suc n) (suc a) h =
    omega (arith, bit_and-digit (suc a) (suc a), bit_and_self n (suc a / 2) (omega arith))

-- A power of two has no digit in common with its predecessor.
pub bit_and-pow_pred : (k : ℕ) → bit_and (2 ^ k) (2 ^ k - 1) ≡ 0
bit_and-pow_pred k =
    bit_and-mask k (2 ^ k) ∙ mod_unique (2 ^ k) 1 0 (2 ^ k) (pow_pos k) (omega arith)

even_or_odd : (c : ℕ) → ((c % 2 ≡ 0) ⊎ (c % 2 ≡ 1))
even_or_odd c = omega arith

-- The converse: only powers of two pass.
pow_of_test_fuel : (n c : ℕ) → c ≤ n → 0 < c → bit_and c (c - 1) ≡ 0 → (k : ℕ) × (c ≡ 2 ^ k)
pow_of_test_fuel zero c le pos t = absurd (omega arith)
pow_of_test_fuel (suc n) c le pos t = elim (even_or_odd c) [
  | inl even ↦
      let (k, e) =
        pow_of_test_fuel n (c / 2) (omega arith) (omega arith)
          (omega (arith, t, bit_and-digit c (c - 1), ap (bit_and (c / 2)) (half even))) in
      (suc k, omega (arith, pow-suc 2 k, e))
  | inr odd ↦ (
    0,
    omega (
      arith,
      t,
      bit_and-digit c (c - 1),
      ap (bit_and (c / 2)) (same odd),
      bit_and_self (c / 2) (c / 2) (omega arith),
    ),
  )
]
  where
    half : c % 2 ≡ 0 → (c - 1) / 2 ≡ c / 2 - 1
    half e = omega arith

    same : c % 2 ≡ 1 → (c - 1) / 2 ≡ c / 2
    same e = omega arith

pub pow_of_test : (c : ℕ) → 0 < c → bit_and c (c - 1) ≡ 0 → (k : ℕ) × (c ≡ 2 ^ k)
pow_of_test c pos t = pow_of_test_fuel c c (omega arith) pos t
