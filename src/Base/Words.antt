-- ===== src/Base/Words.antt =====
-- `size_t`: 64 bits, every operation wraps. Differences of two positions in a buffer whose capacity
-- is a power of two, as the masks of the ring buffers take them.
use Prim.Native.Nat.{ℕ, zero, suc, ◌+◌, ◌-◌, ◌*◌, ◌%◌, ◌^◌, ◌≤◌, ◌<◌, bit_and}
use mathlib.Core.Path.{◌≡◌, refl, ap, ◌∙◌}
use native.Mathlib.Nat.{pow-suc, mod-eq_of_lt}
use native.Mathlib.Decide.{dec_le, ℕ_discrete}
use native.Mathlib.Omega.{arith}
use video_player_core.Base.Bits.{bit_and-mask, mod_unique, pow_pos}
use video_player_core.Base.Tests.{leb, ◌==◌, if◌then◌else◌}

abbrev pub size_mod : ℕ
size_mod = 2 ^ 64

abbrev pub add_size : ℕ → ℕ → ℕ
add_size a b = (a + b) % size_mod

abbrev pub sub_size : ℕ → ℕ → ℕ
sub_size a b = (a + size_mod - b) % size_mod

abbrev pub mul_size : ℕ → ℕ → ℕ
mul_size a b = a * b % size_mod

-- A smaller power of two divides a larger one.
pow_split : (n k : ℕ) → k ≤ n → (q : ℕ) × (2 ^ n ≡ 2 ^ k * suc q)
pow_split zero zero h = (0, refl)
pow_split zero (suc k) h = absurd (omega arith)
pow_split (suc n) k h = elim (dec_le k n) [
  | yes le ↦ let (q, e) = pow_split n k le in (2 * q + 1, omega (arith, pow-suc 2 n, e))
  | no gt ↦ (0, let e : k ≡ suc n = omega arith in omega (arith, ap (λ (t : ℕ). 2 ^ t) e))
]

-- Positions of a buffer of `2 ^ k` elements, with `mask = 2 ^ k - 1`.
module _ (k : ℕ) (small : k < 64) where
  pub pow-le : 2 ^ k ≤ 2 ^ 63
  pow-le = let (q, e) = pow_split 63 k (omega arith) in omega (arith, e, pow_pos k)

  below_end : (d : ℕ) → 0 < d → d ≤ 2 ^ k → (size_mod - d) % 2 ^ k ≡ 2 ^ k - d
  below_end d pos le =
      let (q, e) = pow_split 64 k (omega arith) in
      mod_unique (2 ^ k) q (2 ^ k - d) (size_mod - d) (omega arith) (omega (arith, e))

  -- `(w - r) & mask`
  pub mask-sub :
      (w r : ℕ)
      → w < 2 ^ k
      → r < 2 ^ k
      → bit_and (sub_size w r) (2 ^ k - 1) ≡ (if leb r w then w - r else w + 2 ^ k - r)
  mask-sub w r hw hr = bit_and-mask k (sub_size w r) ∙ split
    where
      ahead : r ≤ w → sub_size w r % 2 ^ k ≡ w - r
      ahead le =
          let e : sub_size w r ≡ w - r = omega (arith, pow-le) in
          ap (λ (t : ℕ). t % 2 ^ k) e ∙ mod-eq_of_lt (omega arith)

      behind : w < r → sub_size w r % 2 ^ k ≡ w + 2 ^ k - r
      behind lt =
          let e : sub_size w r ≡ size_mod - (r - w) = omega (arith, pow-le) in
          ap (λ (t : ℕ). t % 2 ^ k) e ∙ below_end (r - w) (omega arith) (omega arith) ∙ omega arith

      split : sub_size w r % 2 ^ k ≡ (if leb r w then w - r else w + 2 ^ k - r)
      split = elim (dec_le r w) [
        | yes le ↦ ground (arith, ahead le)
        | no gt ↦ ground (arith, behind (omega arith))
      ]

  -- `(r - w - 1) & mask`
  pub mask-sub_pred :
      (w r : ℕ)
      → w < 2 ^ k
      → r < 2 ^ k
      → bit_and (sub_size (sub_size r w) 1) (2 ^ k - 1)
        ≡ (if leb r w then 2 ^ k - 1 - (w - r) else r - w - 1)
  mask-sub_pred w r hw hr = bit_and-mask k (sub_size (sub_size r w) 1) ∙ split
    where
      ahead : r ≤ w → sub_size (sub_size r w) 1 % 2 ^ k ≡ 2 ^ k - 1 - (w - r)
      ahead le =
          let e : sub_size (sub_size r w) 1 ≡ size_mod - (w - r + 1) = omega (arith, pow-le) in
          ap (λ (t : ℕ). t % 2 ^ k) e
          ∙ below_end (w - r + 1) (omega arith) (omega arith)
          ∙ omega arith

      behind : w < r → sub_size (sub_size r w) 1 % 2 ^ k ≡ r - w - 1
      behind lt =
          let e : sub_size (sub_size r w) 1 ≡ r - w - 1 = omega (arith, pow-le) in
          ap (λ (t : ℕ). t % 2 ^ k) e ∙ mod-eq_of_lt (omega arith)

      split :
          sub_size (sub_size r w) 1 % 2 ^ k ≡ (if leb r w then 2 ^ k - 1 - (w - r) else r - w - 1)
      split = elim (dec_le r w) [
        | yes le ↦ ground (arith, ahead le)
        | no gt ↦ ground (arith, behind (omega arith))
      ]

  -- `(p + n) & mask`, for a step that does not pass the end
  pub mask-add :
      (p n : ℕ)
      → p + n ≤ 2 ^ k
      → bit_and (add_size p n) (2 ^ k - 1) ≡ (if p + n == 2 ^ k then 0 else p + n)
  mask-add p n h = bit_and-mask k (add_size p n) ∙ split
    where
      plain : add_size p n ≡ p + n
      plain = omega (arith, pow-le)

      split : add_size p n % 2 ^ k ≡ (if p + n == 2 ^ k then 0 else p + n)
      split = elim (ℕ_discrete (p + n) (2 ^ k)) [
        | yes e ↦ ground (arith, plain, mod_unique (2 ^ k) 1 0 (p + n) (pow_pos k))
        | no ne ↦ ground (arith, plain, mod-eq_of_lt {n = p + n} {m = 2 ^ k})
      ]
