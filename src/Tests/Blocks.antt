-- ===== src/Tests/Blocks.antt =====
-- libs/anvil/section.c: block states of five bits, as in tests/write_blockstate.h.
use chowder.Prelude.{
  bit_or, ℕ, zero, suc, ◌/◌, ◌%◌, ◌^◌, ◌≡◌, refl, [], ◌∷◌, replicate, ok, ◌>>=◌, arith,
  length-replicate,
}
use chowder.Prelude.Int.{pos}
use chowder.Section.{Section, read_blockstate_at, write_blockstate_at}
use chowder.Section.Words.{packed, IsWords}
use chowder.Section.Store.{Stored, write_blockstate_at-packed}
use chowder.Section.ReadWrite.{read_blockstate_at-write_blockstate_at}
use chowder.Section.Laws.{IsPacked, read_blockstate_at-packed}

abbrev five_bits : Section
five_bits = record { bits_per_block = 5; blockstates = replicate 320 0x1b }

replicate-IsWords : (n : ℕ) → IsWords (replicate n 0x1b)
replicate-IsWords zero = tt
replicate-IsWords (suc n) = (omega arith, replicate-IsWords n)

five_bits-IsPacked : IsPacked five_bits
five_bits-IsPacked = record {
  positive = omega arith;
  narrow = omega arith;
  size = length-replicate {A = ℕ} 320 0x1b;
  words = replicate-IsWords 320;
}

read_blockstate_at-packed_example :
    read_blockstate_at five_bits (pos 28) (pos 0) (pos 0)
    ≡ ok (packed (replicate 320 0x1b) / 2 ^ 60 % 2 ^ 5)
read_blockstate_at-packed_example = read_blockstate_at-packed five_bits 28 0 0 five_bits-IsPacked

write_blockstate_at-packed_example :
    (s : Section) × (write_blockstate_at five_bits (pos 12) (pos 0) (pos 0) 0x24 ≡ ok s)
    × Stored five_bits 60 4 s
write_blockstate_at-packed_example =
    write_blockstate_at-packed five_bits 12 0 0 0x24 five_bits-IsPacked

-- Block 28 of the world is block 12 of its section.
read_blockstate_at-write_blockstate_at_example :
    (s : Section) × (old : ℕ) × (write_blockstate_at five_bits (pos 12) (pos 0) (pos 0) 4 ≡ ok s)
    × (read_blockstate_at five_bits (pos 28) (pos 0) (pos 0) ≡ ok old)
    × (read_blockstate_at s (pos 28) (pos 0) (pos 0) ≡ ok (bit_or old 4))
read_blockstate_at-write_blockstate_at_example =
    read_blockstate_at-write_blockstate_at five_bits 12 0 0 28 0 0 4 five_bits-IsPacked

-- Block 12 lies in two words. A block state that is written over another keeps the bits of both.
write_twice :
    (write_blockstate_at
        (record { bits_per_block = 5; blockstates = 0 ∷ 0 ∷ [] })
        (pos 12)
        (pos 0)
        (pos 0)
        0x13
      >>= λ s. write_blockstate_at s (pos 12) (pos 0) (pos 0) 0x8 >>= λ t.
          read_blockstate_at t (pos 12) (pos 0) (pos 0))
    ≡ ok 0x1b
unfolding read_blockstate_at write_blockstate_at
write_twice = refl
