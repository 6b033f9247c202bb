-- ===== src/Packet/Varint/Encoding.antt =====
-- The byte string that stands for a number: seven bits a byte, lowest first, with the top bit set
-- on all but the last.
use chowder.Prelude.{
  ℕ, zero, suc, ◌+◌, ◌*◌, ◌/◌, ◌%◌, ◌^◌, ◌≤◌, ◌<◌, ◌≡◌, List, [], ◌∷◌, if◌then◌else◌, ltb, length,
  arith, bit_and, bit_or,
}
use chowder.Prelude.Bits.{bit_and_mask, bit_and_single, bit_or_comm, bit_or_disjoint}
use chowder.Prelude.Bytes.{IsBytes}

-- `varint k i` is right for `i` below 128 ^ (k + 1).
unfoldable pub varint : ℕ → ℕ → List ℕ
varint zero i = i ∷ []
varint (suc k) i =
    let rest = varint k (i / 128) in if ltb i 128 then i ∷ [] else (i % 128 + 128) ∷ rest

pub length-varint : (k i : ℕ) → (1 ≤ length (varint k i)) × (length (varint k i) ≤ k + 1)
unfolding varint
length-varint zero i = omega arith
length-varint (suc k) i = ground (arith, length-varint k (i / 128))

pub varint-IsBytes : (k i : ℕ) → i < 128 ^ suc k → IsBytes (varint k i)
unfolding varint
varint-IsBytes zero i h = (omega arith, tt)
varint-IsBytes (suc k) i h = ground (arith, varint-IsBytes k (i / 128) (omega arith))

pub low_group : (i : ℕ) → bit_and i 0x7f ≡ i % 128
low_group i = bit_and_mask 7 i

pub set_top_bit : (i : ℕ) → i < 128 → bit_or i 0x80 ≡ i + 128
set_top_bit i h = omega (arith, bit_or_comm i 0x80, bit_or_disjoint 7 1 i h)

pub top_bit : (b : ℕ) → b < 256 → bit_and b 0x80 ≡ b / 128 * 128
top_bit b h = omega (arith, bit_and_single 7 b)
