-- ===== src/Alloc/Rounding.antt =====
-- `(size + align - 1) & ~(align - 1)` at the alignment of a cache line.
use video_player_core.Base.{
  ℕ, ◌+◌, ◌-◌, ◌*◌, ◌/◌, ◌%◌, ◌^◌, ◌≤◌, ◌<◌, ◌≡◌, ap, arith, bit_and, add_size, sub_size, size_mod,
}
use video_player_core.Base.Bits.{bit_and-digit, bit_and-mask}
use video_player_core.Alloc.{cache_line, round_size}

-- A mask whose lowest digit is 0.
bit_and-even : (a b : ℕ) → bit_and a (b * 2) ≡ bit_and (a / 2) b * 2
bit_and-even a b = omega (arith, bit_and-digit a (b * 2), ap (bit_and (a / 2)) (half b))
  where
    half : (b : ℕ) → b * 2 / 2 ≡ b
    half b = omega arith

-- The mask `~63` clears six digits.
bit_and_clear : (a : ℕ) → a < size_mod → bit_and a (size_mod - 64) ≡ a / 64 * 64
bit_and_clear a h = omega (
  arith,
  bit_and-even a (2 ^ 63 - 32),
  bit_and-even (a / 2) (2 ^ 62 - 16),
  bit_and-even (a / 2 / 2) (2 ^ 61 - 8),
  bit_and-even (a / 2 / 2 / 2) (2 ^ 60 - 4),
  bit_and-even (a / 2 / 2 / 2 / 2) (2 ^ 59 - 2),
  bit_and-even (a / 2 / 2 / 2 / 2 / 2) (2 ^ 58 - 1),
  bit_and-mask 58 (a / 2 / 2 / 2 / 2 / 2 / 2),
)

-- The size asked for is the next multiple of the cache line, as long as the sum does not wrap.
pub round_size_bounds :
    (size : ℕ)
    → size + 63 < size_mod
    → (size ≤ round_size cache_line size)
      × (round_size cache_line size < size + cache_line)
      × (round_size cache_line size % cache_line ≡ 0)
unfolding round_size
round_size_bounds size h =
    omega (arith, bit_and_clear (size + 63) h, ap (λ (t : ℕ). bit_and t (size_mod - 64)) plain)
  where
    plain : sub_size (add_size size 64) 1 ≡ size + 63
    plain = omega arith
