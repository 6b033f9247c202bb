-- ===== src/Section.antt =====
-- libs/anvil/section.c, libs/anvil/include/section.h: the block states of a section, packed into
-- 64-bit words. The other fields of the section play no part here. `bits_per_block` is positive
-- wherever these functions are called, and is below 64.
pub mod Words
pub mod Laws
pub mod Write
pub mod Store
pub mod ReadWrite
use chowder.Prelude.{
  ℕ, zero, suc, ◌+◌, ◌-◌, ◌*◌, ◌/◌, ◌%◌, ◌^◌, Bool, true, false, List, if◌then◌else◌, ltb, ◌==◌,
  bit_or, bit_and, get_elem?, set, [], ◌∷◌, ◌≡◌, refl, Option, none, some, Run, ok, need,
  out_of_bounds, ◌>>=◌,
}
use chowder.Prelude.Int.{ℤ, pos, negsuc, ◌+ℤ◌, ◌*ℤ◌, rem}

pub record Section : Type 0 where
  pub bits_per_block : ℕ
  pub blockstates : List ℕ

-- The shift is by at most 8.
unfoldable pub bitmask : ℕ → ℕ
bitmask size = if ltb 8 size then 0xff else 2 ^ size - 1

pub record BlockPos : Type 0 where
  pub mask : ℕ
  pub offset : ℕ
  pub start_long : ℕ
  pub end_long : ℕ

-- A block index below zero is a negative index or a shift by a huge number for both callers.
abbrev block_number : ℤ → Option ℕ
block_number (pos n) = some n
block_number (negsuc n) = none

abbrev pub pos_of : ℕ → ℕ → BlockPos
pos_of bits block_index =
    let offset = block_index * bits % 64 in
    let start_long = block_index * bits / 64 in
    record {
      mask = bitmask bits;
      offset = offset;
      start_long = start_long;
      end_long = if 64 - offset == bits then start_long else (block_index + 1) * bits / 64;
    }

unfoldable pub block_pos : Section → ℤ → ℤ → ℤ → Run BlockPos
unfolding bitmask ◌+ℤ◌ ◌*ℤ◌ rem
block_pos s x y z = do
  block_index ←
      need out_of_bounds (block_number (rem x 16 +ℤ (rem y 16 *ℤ pos 16 +ℤ rem z 16) *ℤ pos 16))
  ok (pos_of s.bits_per_block block_index)

-- `palette_index` is the pattern of an `int`; the mask has no more than 8 bits.
unfoldable pub read_blockstate_at : Section → ℤ → ℤ → ℤ → Run ℕ
unfolding block_pos
read_blockstate_at s x y z = do
  p ← block_pos s x y z
  first ← need out_of_bounds (get_elem? s.blockstates p.start_long)
  let palette_index = first / 2 ^ p.offset % 2 ^ 32
  let crossing = do
    second ← need out_of_bounds (get_elem? s.blockstates p.end_long)
    ok (bit_and (bit_or palette_index (second * 2 ^ (64 - p.offset) % 2 ^ 64) % 2 ^ 32) p.mask)
  if p.start_long == p.end_long then ok (bit_and palette_index p.mask) else crossing

-- `value` is the pattern of an `int`.
unfoldable pub write_blockstate_at : Section → ℤ → ℤ → ℤ → ℕ → Run Section
unfolding block_pos
write_blockstate_at s x y z value = do
  p ← block_pos s x y z
  let v = bit_and value p.mask
  first ← need out_of_bounds (get_elem? s.blockstates p.start_long)
  let started = set s.blockstates p.start_long (bit_or first (v * 2 ^ p.offset % 2 ^ 64))
  let crossing = do
    second ← need out_of_bounds (get_elem? started p.end_long)
    ok (record s { blockstates = set started p.end_long (bit_or second (v / 2 ^ (64 - p.offset))) })
  if p.start_long == p.end_long then ok (record s { blockstates = started }) else crossing
