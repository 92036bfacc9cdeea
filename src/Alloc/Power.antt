-- ===== src/Alloc/Power.antt =====
-- `next_pow2`: the least power of two that is not below the argument.
use video_player_core.Base.{
  ℕ, zero, suc, ◌+◌, ◌-◌, ◌/◌, ◌^◌, ◌≤◌, ◌<◌, ◌≡◌, refl, ap, ◌∙◌, arith, add_size, size_mod,
}
use native.Mathlib.Decide.{dec_le, dec_lt}
use native.Mathlib.Nat.{pow-suc}
use video_player_core.Base.Bits.{pow_pos}
use video_player_core.Base.Digits.{
  digit, digit-bit_or, bit_or-lt, digit-shift, digit-le, all_ones, top_digit, shift-le, pow_mono,
}
use video_player_core.Alloc.{smear, next_pow2}

-- A number below `2 ^ (k + 1)` whose upper `n` of `k + 1` digits are ones.
record Filled (k n w : ℕ) : Type 0 where
  below : w < 2 ^ suc k
  ones : (j : ℕ) → j ≤ k → k < j + n → digit j w ≡ 1

smear-Filled : (k n w : ℕ) → Filled k n w → Filled k (n + n) (smear n w)
smear-Filled k n w f = record {
  below = bit_or-lt (suc k) w (w / 2 ^ n) f.below (omega (arith, shift-le n w, f.below));
  ones = λ j le lt. elim (dec_lt k (j + n)) [
    | yes near ↦
        omega (arith, digit-bit_or j w (w / 2 ^ n), f.ones j le near, digit-le j (w / 2 ^ n))
    | no far ↦ omega (
      arith,
      digit-bit_or j w (w / 2 ^ n),
      digit-shift n j w,
      digit-le j w,
      f.ones (n + j) (omega arith) (omega arith),
    )
  ];
}

-- The place of the highest one.
high : (n w : ℕ) → w ≤ n → 0 < w → (k : ℕ) × (2 ^ k ≤ w) × (w < 2 ^ suc k)
high zero w le pos = absurd (omega arith)
high (suc n) w le pos = elim (dec_lt 1 w) [
  | no one ↦ (0, omega arith, omega arith)
  | yes more ↦
      let (k, low, up) = high n (w / 2) (omega arith) (omega arith) in
      (suc k, omega (arith, pow-suc 2 k), omega (arith, pow-suc 2 (suc k)))
]

all_smears : ℕ → ℕ
all_smears w = smear 32 (smear 16 (smear 8 (smear 4 (smear 2 (smear 1 w)))))

smears_lem : (k w : ℕ) → 2 ^ k ≤ w → w < 2 ^ suc k → k < 64 → all_smears w ≡ 2 ^ suc k - 1
unfolding all_smears
smears_lem k w low up small =
    let f1 : Filled k 1 w = record {
      below = up;
      ones = λ j le lt. ap (λ i. digit i w) (omega arith) ∙ top_digit k w low up;
    } in
    let f2 = smear-Filled k 1 w f1 in
    let f4 = smear-Filled k 2 (smear 1 w) f2 in
    let f8 = smear-Filled k 4 (smear 2 (smear 1 w)) f4 in
    let f16 = smear-Filled k 8 (smear 4 (smear 2 (smear 1 w))) f8 in
    let f32 = smear-Filled k 16 (smear 8 (smear 4 (smear 2 (smear 1 w)))) f16 in
    let f64 = smear-Filled k 32 (smear 16 (smear 8 (smear 4 (smear 2 (smear 1 w))))) f32 in
    all_ones (suc k) (all_smears w) f64.below (λ j lt. f64.ones j (omega arith) (omega arith))

next_pow2_step : (w : ℕ) → next_pow2 (suc w) ≡ add_size (all_smears w) 1
unfolding next_pow2 all_smears
next_pow2_step w =
    let before : suc w - 1 ≡ w = omega arith in
    ground (arith, ap (λ u. smear 32 (smear 16 (smear 8 (smear 4 (smear 2 (smear 1 u)))))) before)

-- What `next_pow2` gives for every `size_t`: the least power of two that is not below the argument,
-- and 0, where that power is not a `size_t`.
pub next_pow2_lem :
    (v : ℕ)
    → v < size_mod
    → (v ≤ 2 ^ 63
        → (k : ℕ) × (next_pow2 v ≡ 2 ^ k) × (v ≤ 2 ^ k) × ((j : ℕ) → v ≤ 2 ^ j → 2 ^ k ≤ 2 ^ j))
      × (2 ^ 63 < v → next_pow2 v ≡ 0)
unfolding next_pow2
next_pow2_lem zero fits =
    (λ le. (0, refl, omega arith, λ j le'. pow_pos j), λ lt. absurd (omega arith))
next_pow2_lem (suc zero) fits =
    (λ le. (0, refl, omega arith, λ j le'. pow_pos j), λ lt. absurd (omega arith))
next_pow2_lem (suc (suc n)) fits =
    let (k, low, up) = high (suc n) (suc n) (omega arith) (omega arith) in
    let small : k < 64 = elim (dec_lt k 64) [
      | yes lt ↦ lt
      | no ge ↦ absurd (omega (arith, pow_mono 64 k (omega arith)))
    ] in
    let filled = smears_lem k (suc n) low up small in
    let value = next_pow2_step (suc n) in
    (
      λ le.
          let small' : suc k ≤ 63 = elim (dec_le (suc k) 63) [
            | yes fit ↦ fit
            | no over ↦ absurd (omega (arith, pow_mono 63 k (omega arith)))
          ] in
          (
            suc k,
            omega (arith, value, filled, pow_mono (suc k) 63 small', pow_pos (suc k)),
            omega arith,
            λ j le'. elim (dec_le (suc k) j) [
              | yes above ↦ pow_mono (suc k) j above
              | no below ↦ absurd (omega (arith, pow_mono j k (omega arith)))
            ],
          ),
      λ lt.
          let top : k ≡ 63 = elim (dec_le 63 k) [
            | yes ge ↦ omega arith
            | no below ↦ absurd (omega (arith, pow_mono (suc k) 63 (omega arith)))
          ] in
          omega (arith, value, filled, ap (λ (i : ℕ). 2 ^ suc i) top),
    )
