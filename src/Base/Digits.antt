-- ===== src/Base/Digits.antt =====
-- The binary digits of a number, and of `|`.
use Prim.Native.Nat.{
  ℕ, zero, suc, ◌+◌, ◌-◌, ◌*◌, ◌/◌, ◌%◌, ◌^◌, ◌≤◌, ◌<◌, max, bit_or, bit_or-bitwise,
}
use mathlib.Core.Path.{◌≡◌, ap, ap₂, ◌∙◌, sym}
use native.Mathlib.Nat.{pow-suc, mod-lt, div-add-mod}
use native.Mathlib.Omega.{arith}
use video_player_core.Base.Bits.{pow_pos, digits_enough}

-- The lowest digit of `|`.
bit_or-digit : (a b : ℕ) → bit_or a b ≡ bit_or (a / 2) (b / 2) * 2 + max (a % 2) (b % 2)
bit_or-digit zero b = omega (arith, bit_or-bitwise 0 b, bit_or-bitwise 0 (b / 2))
bit_or-digit (suc a) b =
    bit_or-bitwise (suc a) b
    ∙ ap (λ t. t * 2 + max (suc a % 2) (b % 2))
        (digits_enough (λ b. b) max (suc a / 2) (b / 2) a (suc a / 2) (omega arith) (omega arith)
          ∙ sym (bit_or-bitwise (suc a / 2) (b / 2)))

-- The digit of weight `2 ^ j`.
pub digit : ℕ → ℕ → ℕ
digit zero a = a % 2
digit (suc j) a = digit j (a / 2)

pub digit-bit_or : (j a b : ℕ) → digit j (bit_or a b) ≡ max (digit j a) (digit j b)
unfolding digit
digit-bit_or zero a b = omega (arith, bit_or-digit a b)
digit-bit_or (suc j) a b =
    let half : bit_or a b / 2 ≡ bit_or (a / 2) (b / 2) = omega (arith, bit_or-digit a b) in
    ap (digit j) half ∙ digit-bit_or j (a / 2) (b / 2)

div_unique : (m q r n : ℕ) → r < m → n ≡ m * q + r → n / m ≡ q
div_unique m q r n h e = grind arith

div_double : (a m : ℕ) → 0 < m → a / (m * 2) ≡ a / 2 / m
div_double a m h =
    div_unique (m * 2) (a / 2 / m) (a / 2 % m * 2 + a % 2) a (omega (arith, mod-lt (a / 2) h))
      (omega (arith, div-add-mod (a / 2) m, ap (λ (t : ℕ). t * 2) (div-add-mod (a / 2) m)))

-- A shift to the right moves the digits.
pub digit-shift : (s j a : ℕ) → digit j (a / 2 ^ s) ≡ digit (s + j) a
unfolding digit
digit-shift zero j a =
    let whole : a / 2 ^ 0 ≡ a = omega arith in
    let same : 0 + j ≡ j = omega arith in ap (digit j) whole ∙ ap (λ i. digit i a) (sym same)
digit-shift (suc s) j a =
    let halves : a / 2 ^ suc s ≡ a / 2 / 2 ^ s =
      ap (λ (m : ℕ). a / m) (omega (arith, pow-suc 2 s)) ∙ div_double a (2 ^ s) (pow_pos s) in
    let next : suc s + j ≡ suc (s + j) = omega arith in
    ap (digit j) halves ∙ digit-shift s j (a / 2) ∙ ap (λ i. digit i a) (sym next)

pub shift-le : (n a : ℕ) → a / 2 ^ n ≤ a
shift-le zero a = omega arith
shift-le (suc n) a =
    let halves : a / 2 ^ suc n ≡ a / 2 / 2 ^ n =
      ap (λ (m : ℕ). a / m) (omega (arith, pow-suc 2 n)) ∙ div_double a (2 ^ n) (pow_pos n) in
    omega (arith, halves, shift-le n (a / 2))

pub pow_mono : (k n : ℕ) → k ≤ n → 2 ^ k ≤ 2 ^ n
pow_mono zero n le = pow_pos n
pow_mono (suc k) zero le = absurd (omega arith)
pow_mono (suc k) (suc n) le = omega (arith, pow-suc 2 k, pow-suc 2 n, pow_mono k n (omega arith))

pub digit-le : (j a : ℕ) → digit j a ≤ 1
unfolding digit
digit-le zero a = omega arith
digit-le (suc j) a = digit-le j (a / 2)

-- `|` needs no more digits than the larger of the two.
pub bit_or-lt : (k a b : ℕ) → a < 2 ^ k → b < 2 ^ k → bit_or a b < 2 ^ k
bit_or-lt zero a b lt lt' =
    omega (arith, bit_or-bitwise 0 0, ap₂ bit_or (zero_of a lt) (zero_of b lt'))
  where
    zero_of : (a : ℕ) → a < 1 → a ≡ 0
    zero_of a lt = omega arith
bit_or-lt (suc k) a b lt lt' = omega (
  arith,
  bit_or-digit a b,
  pow-suc 2 k,
  bit_or-lt k (a / 2) (b / 2) (omega (arith, pow-suc 2 k)) (omega (arith, pow-suc 2 k)),
)

-- A number whose lowest `k` digits are ones and which has no others.
pub all_ones : (k a : ℕ) → a < 2 ^ k → ((j : ℕ) → j < k → digit j a ≡ 1) → a ≡ 2 ^ k - 1
unfolding digit
all_ones zero a lt ones = omega arith
all_ones (suc k) a lt ones =
    let rest =
      all_ones k (a / 2) (omega (arith, pow-suc 2 k)) (λ j l. ones (suc j) (omega arith)) in
    omega (arith, pow-suc 2 k, pow_pos k, rest, ones 0 (omega arith))

pub top_digit : (k a : ℕ) → 2 ^ k ≤ a → a < 2 ^ suc k → digit k a ≡ 1
unfolding digit
top_digit zero a le lt = omega arith
top_digit (suc k) a le lt =
    top_digit k (a / 2) (omega (arith, pow-suc 2 k)) (omega (arith, pow-suc 2 k, pow-suc 2 (suc k)))
