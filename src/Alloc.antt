-- ===== src/Alloc.antt =====
-- include/audioringbuffer.h, namespace `detail_ring` and `next_pow2`: the sizes that the dynamic
-- ring buffer asks memory for. The platform's allocator is an argument: it is given an alignment
-- and a size in bytes, and answers with the storage, seen as its elements, or with a null pointer.
pub mod Rounding
pub mod Power
mod Examples
use Prim.Native.Nat.{bit_or}
use video_player_core.Base.{
  ℕ, ◌-◌, ◌/◌, ◌^◌, Option, List, if◌then◌else◌, ◌==◌, add_size, sub_size, size_mod, bit_and,
}

-- `kCacheLine`, where the library does not name the interference size.
abbrev pub cache_line : ℕ
cache_line = 64

-- `~x`
abbrev pub bit_not : ℕ → ℕ
bit_not x = size_mod - 1 - x

-- `(size + align - 1) & ~(align - 1)`
unfoldable pub round_size : ℕ → ℕ → ℕ
round_size align size = bit_and (sub_size (add_size size align) 1) (bit_not (sub_size align 1))

unfoldable pub aligned_alloc_safe {ℓ} :
    {A : Type ℓ} → (ℕ → ℕ → Option (List A)) → ℕ → ℕ → Option (List A)
aligned_alloc_safe aligned_alloc align size = aligned_alloc align (round_size align size)

-- `v |= v >> s`
abbrev pub smear : ℕ → ℕ → ℕ
smear s v = bit_or v (v / 2 ^ s)

-- On a platform with 64-bit `size_t`, where the sixth step is compiled in.
unfoldable pub next_pow2 : ℕ → ℕ
next_pow2 v =
    if v == 0
    then 1
    else add_size (smear 32 (smear 16 (smear 8 (smear 4 (smear 2 (smear 1 (v - 1))))))) 1
