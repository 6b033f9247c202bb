-- ===== src/Section/Laws.antt =====
-- libs/anvil/section.c: a block state is a digit of the number that the words stand for.
use chowder.Prelude.{
  ℕ, zero, suc, ◌+◌, ◌-◌, ◌*◌, ◌/◌, ◌%◌, ◌^◌, ◌≤◌, ◌<◌, ◌≡◌, refl, sym, ap, ◌∙◌, List, [], ◌∷◌,
  length, drop, get_elem?, some, ok, ◌>>=◌, arith, bit_or, bit_and, get_elem?-some, ◌⊎◌, inl, inr,
  All-get_elem?,
}
use mathlib.Core.Path.{ap₂}
use mathlib.Core.Option.{some-injective}
use native.Mathlib.Nat.{div-lt_iff_lt-mul, mod-add-div, mul-le-mul_right}
use chowder.Prelude.Int.{pos, ◌+ℤ◌, ◌*ℤ◌, rem}
use chowder.Prelude.Bits.{two_pow_pos, bit_or_disjoint, bit_or-mod, bit_or_comm, bit_and_mask}
use chowder.Section.{Section, bitmask, pos_of, block_pos, read_blockstate_at}
use chowder.Section.Words.{
  packed, cut_above, two_pow_split, IsWords, packed_inside, packed_crossing,
}

-- A section as one of up to 8 bits a block is allocated.
pub record IsPacked (s : Section) : Type 0 where
  pub positive : 1 ≤ s.bits_per_block
  pub narrow : s.bits_per_block ≤ 8
  pub size : length s.blockstates ≡ s.bits_per_block * 64
  pub words : IsWords s.blockstates

-- The place of a block in its section.
abbrev pub block_index : ℕ → ℕ → ℕ → ℕ
block_index x y z = x % 16 + (y % 16 * 16 + z % 16) * 16

number :
    (x y z : ℕ)
    → rem (pos x) 16 +ℤ (rem (pos y) 16 *ℤ pos 16 +ℤ rem (pos z) 16) *ℤ pos 16
      ≡ pos (block_index x y z)
unfolding ◌+ℤ◌ ◌*ℤ◌ rem
number x y z = ground arith

pub block_pos_lem :
    (s : Section) (x y z : ℕ)
    → block_pos s (pos x) (pos y) (pos z) ≡ ok (pos_of s.bits_per_block (block_index x y z))
unfolding block_pos
block_pos_lem s x y z = rw (number x y z) refl

pub mask_of : (b : ℕ) → b ≤ 8 → bitmask b ≡ 2 ^ b - 1
unfolding bitmask
mask_of b h = ground arith

-- `drop` and the item it starts with.
pub drop-get_elem? :
    (n : ℕ) (xs : List ℕ) (v : ℕ) → get_elem? xs n ≡ some v → drop n xs ≡ v ∷ drop (suc n) xs
drop-get_elem? n [] v e = cc
drop-get_elem? zero (x ∷ xs) v e = ap (λ (u : ℕ). u ∷ xs) (some-injective _ _ e)
drop-get_elem? (suc n) (x ∷ xs) v e = drop-get_elem? n xs v e

-- The bits below `b` of a number that was cut off at `c`.
mod_lower : (b c n : ℕ) → b ≤ c → n % 2 ^ c % 2 ^ b ≡ n % 2 ^ b
mod_lower b c n h =
    sym (cut_above b c (n % 2 ^ c) (n / 2 ^ c) h)
    ∙ ap (λ (t : ℕ). t % 2 ^ b) {x = n % 2 ^ c + n / 2 ^ c * 2 ^ c} {y = n}
        (omega (arith, mod-add-div n (2 ^ c)))

one_word : (b o w : ℕ) → b ≤ 8 → bit_and (w / 2 ^ o % 2 ^ 32) (bitmask b) ≡ w / 2 ^ o % 2 ^ b
one_word b o w h =
    rw (mask_of b h, bit_and_mask b (w / 2 ^ o % 2 ^ 32)) (mod_lower b 32 (w / 2 ^ o) (omega arith))

two_words :
    (b o w w' : ℕ)
    → b ≤ 8
    → o ≤ 64
    → w < 2 ^ 64
    → bit_and (bit_or (w / 2 ^ o % 2 ^ 32) (w' * 2 ^ (64 - o) % 2 ^ 64) % 2 ^ 32) (bitmask b)
      ≡ (w / 2 ^ o + w' * 2 ^ (64 - o)) % 2 ^ b
two_words b o w w' h ho small =
    rw
      (
        mask_of b h,
        bit_and_mask b (bit_or (w / 2 ^ o % 2 ^ 32) (w' * 2 ^ (64 - o) % 2 ^ 64) % 2 ^ 32),
      )
      (mod_lower b 32 (bit_or (w / 2 ^ o % 2 ^ 32) (w' * 2 ^ (64 - o) % 2 ^ 64)) (omega arith)
        ∙ bit_or-mod b (w / 2 ^ o % 2 ^ 32) (w' * 2 ^ (64 - o) % 2 ^ 64)
        ∙ ap₂ bit_or (mod_lower b 32 (w / 2 ^ o) (omega arith))
            (mod_lower b 64 (w' * 2 ^ (64 - o)) (omega arith))
        ∙ sym (bit_or-mod b (w / 2 ^ o) (w' * 2 ^ (64 - o)))
        ∙ ap (λ (t : ℕ). t % 2 ^ b) sum)
  where
    low : w / 2 ^ o < 2 ^ (64 - o)
    low =
        (div-lt_iff_lt-mul {x = w} {y = 2 ^ (64 - o)} (two_pow_pos o)).1
          (rw (← two_pow_split o 64 ho) small)

    sum : bit_or (w / 2 ^ o) (w' * 2 ^ (64 - o)) ≡ w / 2 ^ o + w' * 2 ^ (64 - o)
    sum =
        bit_or_comm (w / 2 ^ o) (w' * 2 ^ (64 - o))
        ∙ bit_or_disjoint (64 - o) w' (w / 2 ^ o) low
        ∙ omega arith

-- The block after block `i` starts `b` bits further.
pub next_start : (i b : ℕ) → (i + 1) * b ≡ i * b + b
next_start i b = omega arith

pub end_inside : (i b : ℕ) → i * b % 64 + b ≤ 64 → (pos_of b i).end_long ≡ i * b / 64
end_inside i b h = ground (arith, next_start i b)

pub end_crossing : (i b : ℕ) → b ≤ 64 → 64 < i * b % 64 + b → (pos_of b i).end_long ≡ i * b / 64 + 1
end_crossing i b h cross = ground (arith, next_start i b)

-- All bits of a block lie in the words.
pub last_bit : (i b : ℕ) → i < 4096 → i * b + b ≤ b * 64 * 64
last_bit i b h =
    let up : i + 1 ≤ 4096 = omega arith in omega (arith, mul-le-mul_right b up, next_start i b)

pub block_index-lt : (x y z : ℕ) → block_index x y z < 4096
block_index-lt x y z = omega arith

-- The bit where block `i` starts, by its word.
start_bit :
    (ws : List ℕ) (n b : ℕ)
    → packed ws / 2 ^ (n / 64 * 64 + n % 64) % 2 ^ b ≡ packed ws / 2 ^ n % 2 ^ b
start_bit ws n b =
    ap (λ (t : ℕ). packed ws / 2 ^ t % 2 ^ b) {x = n / 64 * 64 + n % 64} {y = n} (omega arith)

read_inside :
    (s : Section) (x y z i w : ℕ)
    → IsPacked s
    → block_index x y z ≡ i
    → i * s.bits_per_block % 64 + s.bits_per_block ≤ 64
    → get_elem? s.blockstates (i * s.bits_per_block / 64) ≡ some w
    → read_blockstate_at s (pos x) (pos y) (pos z)
      ≡ ok (packed s.blockstates / 2 ^ (i * s.bits_per_block) % 2 ^ s.bits_per_block)
unfolding read_blockstate_at
read_inside s x y z i w p at fits e =
    rw (block_pos_lem s x y z, ◌>>=◌, at, e, ◌>>=◌, end_inside i s.bits_per_block fits)
      (ground (arith, digit))
  where
    digit :
        bit_and (w / 2 ^ (i * s.bits_per_block % 64) % 2 ^ 32) (bitmask s.bits_per_block)
        ≡ packed s.blockstates / 2 ^ (i * s.bits_per_block) % 2 ^ s.bits_per_block
    digit =
        one_word s.bits_per_block (i * s.bits_per_block % 64) w p.narrow
        ∙ sym (
            packed_inside (i * s.bits_per_block / 64) (i * s.bits_per_block % 64) s.bits_per_block w
              s.blockstates _ p.words (drop-get_elem? (i * s.bits_per_block / 64) s.blockstates w e)
              fits)
        ∙ start_bit s.blockstates (i * s.bits_per_block) s.bits_per_block

read_crossing :
    (s : Section) (x y z i w w' : ℕ)
    → IsPacked s
    → block_index x y z ≡ i
    → 64 < i * s.bits_per_block % 64 + s.bits_per_block
    → get_elem? s.blockstates (i * s.bits_per_block / 64) ≡ some w
    → get_elem? s.blockstates (i * s.bits_per_block / 64 + 1) ≡ some w'
    → w < 2 ^ 64
    → read_blockstate_at s (pos x) (pos y) (pos z)
      ≡ ok (packed s.blockstates / 2 ^ (i * s.bits_per_block) % 2 ^ s.bits_per_block)
unfolding read_blockstate_at
read_crossing s x y z i w w' p at cross e e' small =
    rw
      (
        block_pos_lem s x y z,
        ◌>>=◌,
        at,
        e,
        ◌>>=◌,
        end_crossing i s.bits_per_block (omega (arith, p.narrow)) cross,
        e',
      )
      (ground (arith, digit))
  where
    digit :
        bit_and
          (bit_or
              (w / 2 ^ (i * s.bits_per_block % 64) % 2 ^ 32)
              (w' * 2 ^ (64 - i * s.bits_per_block % 64) % 2 ^ 64)
            % 2 ^ 32)
          (bitmask s.bits_per_block)
        ≡ packed s.blockstates / 2 ^ (i * s.bits_per_block) % 2 ^ s.bits_per_block
    digit =
        two_words s.bits_per_block (i * s.bits_per_block % 64) w w' p.narrow (omega arith) small
        ∙ sym (
            packed_crossing (i * s.bits_per_block / 64) (i * s.bits_per_block % 64) s.bits_per_block
              w w' s.blockstates _ p.words
              (drop-get_elem? (i * s.bits_per_block / 64) s.blockstates w e
                ∙ ap (λ t. w ∷ t)
                    (ap (λ (n : ℕ). drop n s.blockstates) {x = suc (i * s.bits_per_block / 64)}
                        {y = i * s.bits_per_block / 64 + 1} (omega arith)
                      ∙ drop-get_elem? (i * s.bits_per_block / 64 + 1) s.blockstates w' e'))
              (omega arith) (omega (arith, p.narrow)))
        ∙ start_bit s.blockstates (i * s.bits_per_block) s.bits_per_block

-- In a section of 1 to 8 bits a block that has 64 words of 64 bits for each of these bits, and at
-- coordinates that are not negative, `read_blockstate_at` returns the digit of the block in the
-- number that all words stand for, lowest word first, whether the block lies in one word or in two.
pub read_blockstate_at-packed :
    (s : Section) (x y z : ℕ)
    → IsPacked s
    → read_blockstate_at s (pos x) (pos y) (pos z)
      ≡ ok
          (packed s.blockstates / 2 ^ (block_index x y z * s.bits_per_block) % 2 ^ s.bits_per_block)
read_blockstate_at-packed s x y z p =
    let i = block_index x y z in
    let n = i * s.bits_per_block in
    let inside = last_bit i s.bits_per_block (block_index-lt x y z) in
    let (w, e) = get_elem?-some s.blockstates (n / 64) (omega (arith, p.size, p.positive)) in
    let split : (n % 64 + s.bits_per_block ≤ 64) ⊎ (64 < n % 64 + s.bits_per_block) = omega arith in
    elim split [
      | inl fits ↦ read_inside s x y z i w p refl fits e
      | inr cross ↦
          let (w', e') =
            get_elem?-some s.blockstates (n / 64 + 1) (omega (arith, p.size, p.positive)) in
          read_crossing s x y z i w w' p refl cross e e'
            (All-get_elem? (λ (v : ℕ). v < 2 ^ 64) s.blockstates (n / 64) w p.words e)
    ]
