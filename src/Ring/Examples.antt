-- ===== src/Ring/Examples.antt =====
-- A ring of four slots whose two elements lie across the end, and the theorems at it.
use video_player_core.Base.{
  ℕ, ◌*◌, ◌≤◌, ◌≡◌, refl, true, false, Option, none, some, List, [], ◌∷◌, arith, if◌then◌else◌,
  length, zero, replicate, length-replicate, ap, ◌++◌,
}
use video_player_core.Fifo
use video_player_core.Fifo.{Op, put, get, Reply, accepted, got}
use video_player_core.Ring.{
  Ring, made, init, begin_write, begin_read, end_write, end_read, write, read, run,
}
use video_player_core.Ring.Bounds.{IsValid}
use video_player_core.Ring.Refine.{contents, contents-write, Reads, read-Reads, run_refines}
use video_player_core.Ring.Blocks.{IsAligned}
use video_player_core.Alloc.{aligned_alloc_safe, round_size}
use mathlib.Core.Option.{some-injective}
use video_player_core.Ring.Threads.{
  Move, write_begins, write_copies, write_ends, read_begins, read_copies, read_ends, advance,
  advance_all,
}
use video_player_core.Ring.Interleave.{idle, races, advance_all_lem}

abbrev across : Ring ℕ
across = record { write_pos = 1; read_pos = 3; buf = 9 ∷ 7 ∷ 5 ∷ 8 ∷ []; cap = 4; mask = 3 }

abbrev script : List (Op ℕ)
script = put 1 ∷ put 2 ∷ get ∷ get ∷ get ∷ get ∷ []

across-IsValid : IsValid 2 across
across-IsValid = omega arith

contents-across : contents across ≡ 8 ∷ 9 ∷ []
contents-across = refl

run-across :
    run across script
    ≡ accepted true ∷ accepted false ∷ got (some 8) ∷ got (some 9) ∷ got (some 1) ∷ got none ∷ []
unfolding run write read begin_write begin_read end_write end_read
run-across = refl

run_refines_example : run across script ≡ Fifo.run 3 (8 ∷ 9 ∷ []) script
run_refines_example = run_refines script across-IsValid

-- Two elements find two free slots, but not before the end.
contents-write_example :
    ((write across (1 ∷ 2 ∷ [])).0 ≡ false)
    × (contents (write across (1 ∷ 2 ∷ [])).1
        ≡ (if (write across (1 ∷ 2 ∷ [])).0 then 8 ∷ 9 ∷ 1 ∷ 2 ∷ [] else 8 ∷ 9 ∷ []))
    × ((write across (1 ∷ 2 ∷ [])).0 ≡ false → (write across (1 ∷ 2 ∷ [])).1 ≡ across)
contents-write_example = contents-write (1 ∷ 2 ∷ []) across-IsValid

read-Reads_example : Reads across 2 (read across 2)
read-Reads_example = read-Reads 2 across-IsValid

abbrev empty_ring : Ring ℕ
empty_ring = record { write_pos = 3; read_pos = 3; buf = 9 ∷ 7 ∷ 5 ∷ 8 ∷ []; cap = 4; mask = 3 }

-- A read begins while the second block is half copied, and is over before that block is.
abbrev interleaved : List (Move ℕ)
interleaved =
    write_begins (1 ∷ [])
    ∷ write_copies
    ∷ write_ends
    ∷ write_begins (2 ∷ 3 ∷ [])
    ∷ write_copies
    ∷ read_begins 1
    ∷ write_copies
    ∷ read_copies
    ∷ read_ends
    ∷ write_ends
    ∷ []

interleaved_taken :
    ((advance_all interleaved (idle empty_ring)).taken ≡ 1 ∷ [])
    × ((advance_all interleaved (idle empty_ring)).sent ≡ 1 ∷ 2 ∷ 3 ∷ [])
unfolding advance_all advance begin_write begin_read end_write end_read
interleaved_taken = (refl, refl)

empty-IsValid : IsValid 2 empty_ring
empty-IsValid = omega arith

advance_all_example :
    ((advance_all interleaved (idle empty_ring)).taken
        ++ contents (advance_all interleaved (idle empty_ring)).ring
      ≡ (advance_all interleaved (idle empty_ring)).sent)
    × (races (advance_all interleaved (idle empty_ring)) ≡ false)
advance_all_example = advance_all_lem interleaved empty-IsValid refl

-- An allocator of byte arrays with no limit.
abbrev all_zeros : ℕ → ℕ → Option (List ℕ)
all_zeros align n = some (replicate n 0)

-- A fresh buffer of eight bytes, out of an allocation of a cache line.
abbrev eight : Ring ℕ
eight = record { write_pos = 0; read_pos = 0; buf = replicate 64 0; cap = 8; mask = 7 }

init-eight : init all_zeros 1 8 ≡ made eight
unfolding init aligned_alloc_safe round_size
init-eight = refl

all_zeros_enough : (align n : ℕ) (s : List ℕ) → all_zeros align n ≡ some s → n ≤ length s * 1
all_zeros_enough align n s e =
    omega
      (arith, length-replicate {A = ℕ} n zero, ap length (some-injective (replicate n zero) s e))

-- Two blocks of two bytes in a buffer of four, the second one after the end.
abbrev two_blocks : Ring ℕ
two_blocks = record {
  write_pos = 2;
  read_pos = 6;
  buf = 3 ∷ 4 ∷ 0 ∷ 0 ∷ 0 ∷ 0 ∷ 1 ∷ 2 ∷ [];
  cap = 8;
  mask = 7;
}

two_blocks-IsValid : IsValid 3 two_blocks
two_blocks-IsValid = omega arith

two_blocks-IsAligned : IsAligned 2 two_blocks
two_blocks-IsAligned = record {
  pos = omega arith;
  write_block = 1;
  read_block = 3;
  blocks = 4;
  write_eq = refl;
  read_eq = refl;
  cap_eq = refl;
}
