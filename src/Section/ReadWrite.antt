-- ===== src/Section/ReadWrite.antt =====
-- libs/anvil/section.c: `read_blockstate_at` after `write_blockstate_at`.
use chowder.Prelude.{
  ℕ, ◌+◌, ◌-◌, ◌*◌, ◌/◌, ◌%◌, ◌^◌, ◌≤◌, ◌<◌, ◌≡◌, sym, ap, ◌∙◌, ◌⊎◌, inl, inr, ok, ◌==◌,
  if◌then◌else◌, arith, bit_or,
}
use native.Mathlib.Nat.{
  mod-eq_of_lt, mul_assoc, mul-le-mul_right, mul-div_left, div-eq_of_lt, pow-le-pow_right, mod-lt,
}
use chowder.Prelude.Int.{pos}
use chowder.Prelude.Bits.{two_pow_pos, bit_or-shift, bit_or-mod, bit_or-zero}
use chowder.Section.{Section, read_blockstate_at, write_blockstate_at}
use chowder.Section.Words.{packed, two_pow_add, two_pow_split, cut_above}
use chowder.Section.Laws.{IsPacked, next_start, block_index, read_blockstate_at-packed}
use chowder.Section.Store.{write_blockstate_at-packed}

digit_same : (n b v : ℕ) → v < 2 ^ b → v * 2 ^ n / 2 ^ n % 2 ^ b ≡ v
digit_same n b v h = ap (λ (t : ℕ). t % 2 ^ b) (mul-div_left v (two_pow_pos n)) ∙ mod-eq_of_lt h

digit_above : (n m b v : ℕ) → v < 2 ^ b → n + b ≤ m → v * 2 ^ n / 2 ^ m % 2 ^ b ≡ 0
digit_above n m b v h le =
    ap (λ (t : ℕ). t % 2 ^ b) (div-eq_of_lt below) ∙ mod-eq_of_lt (two_pow_pos b)
  where
    below : v * 2 ^ n < 2 ^ m
    below =
        let up : v + 1 ≤ 2 ^ b = omega (arith, h) in
        let top : 2 ^ (b + n) ≤ 2 ^ m = pow-le-pow_right (omega arith) {j = m} (omega arith) in
        omega (arith, two_pow_pos n, mul-le-mul_right (2 ^ n) up, two_pow_add b n, top)

digit_below : (n m b v : ℕ) → m + b ≤ n → v * 2 ^ n / 2 ^ m % 2 ^ b ≡ 0
digit_below n m b v le =
    ap (λ (t : ℕ). t / 2 ^ m % 2 ^ b)
      (ap (λ (t : ℕ). v * t) (two_pow_split m n (omega arith))
        ∙ sym (mul_assoc v (2 ^ (n - m)) (2 ^ m)))
    ∙ ap (λ (t : ℕ). t % 2 ^ b) (mul-div_left (v * 2 ^ (n - m)) (two_pow_pos m))
    ∙ ap (λ (t : ℕ). t % 2 ^ b) {x = v * 2 ^ (n - m)} {y = 0 + v * 2 ^ (n - m)} (omega arith)
    ∙ cut_above b (n - m) 0 v (omega arith)
    ∙ mod-eq_of_lt (two_pow_pos b)

next_block : (i k b : ℕ) → i < k → i * b + b ≤ k * b
next_block i k b h =
    let up : i + 1 ≤ k = omega (arith, h) in omega (arith, mul-le-mul_right b up, next_start i b)

digit-bit_or :
    (m b p w : ℕ) → bit_or p w / 2 ^ m % 2 ^ b ≡ bit_or (p / 2 ^ m % 2 ^ b) (w / 2 ^ m % 2 ^ b)
digit-bit_or m b p w =
    ap (λ (t : ℕ). t % 2 ^ b) (bit_or-shift m p w) ∙ bit_or-mod b (p / 2 ^ m) (w / 2 ^ m)

-- What a value at digit `i` adds to digit `k`.
digit_of :
    (i k b v old : ℕ)
    → v < 2 ^ b
    → bit_or old (v * 2 ^ (i * b) / 2 ^ (k * b) % 2 ^ b) ≡ (if i == k then bit_or old v else old)
digit_of i k b v old h =
    let split : (i ≡ k) ⊎ ((i < k) ⊎ (k < i)) = omega arith in
    elim split [
      | inl e ↦
          let d : v * 2 ^ (i * b) / 2 ^ (k * b) % 2 ^ b ≡ v =
            ap (λ (t : ℕ). v * 2 ^ (i * b) / 2 ^ (t * b) % 2 ^ b) (sym e)
            ∙ digit_same (i * b) b v h in
          rw d (ground arith)
      | inr (inl lt) ↦
          rw (digit_above (i * b) (k * b) b v h (next_block i k b lt), bit_or-zero old)
            (ground arith)
      | inr (inr gt) ↦
          rw (digit_below (i * b) (k * b) b v (next_block k i b gt), bit_or-zero old) (ground arith)
    ]

-- In a section of 1 to 8 bits a block that has 64 words of 64 bits for each of these bits, and at
-- coordinates that are not negative: after `write_blockstate_at`, `read_blockstate_at` at
-- coordinates with the same place in the section returns the old state or-ed with the masked value,
-- and at all other coordinates the old state.
pub read_blockstate_at-write_blockstate_at :
    (s : Section) (x y z x' y' z' value : ℕ)
    → IsPacked s
    → (s' : Section) × (old : ℕ) × (write_blockstate_at s (pos x) (pos y) (pos z) value ≡ ok s')
      × (read_blockstate_at s (pos x') (pos y') (pos z') ≡ ok old)
      × (read_blockstate_at s' (pos x') (pos y') (pos z')
          ≡ ok (
              if block_index x y z == block_index x' y' z'
              then bit_or old (value % 2 ^ s.bits_per_block)
              else old))
read_blockstate_at-write_blockstate_at s x y z x' y' z' value p =
    let b = s.bits_per_block in
    let (s', wrote, st) = write_blockstate_at-packed s x y z value p in
    (
      s',
      packed s.blockstates / 2 ^ (block_index x' y' z' * b) % 2 ^ b,
      wrote,
      read_blockstate_at-packed s x' y' z' p,
      read_blockstate_at-packed s' x' y' z' st.still
          ∙ ap (λ (c : ℕ). ok (packed s'.blockstates / 2 ^ (block_index x' y' z' * c) % 2 ^ c))
              st.bits
          ∙ ap (λ (t : ℕ). ok (t / 2 ^ (block_index x' y' z' * b) % 2 ^ b)) st.total
          ∙ ap (λ (t : ℕ). ok t)
              (digit-bit_or (block_index x' y' z' * b) b (packed s.blockstates)
                  (value % 2 ^ b * 2 ^ (block_index x y z * b))
                ∙ digit_of (block_index x y z) (block_index x' y' z') b (value % 2 ^ b)
                    (packed s.blockstates / 2 ^ (block_index x' y' z' * b) % 2 ^ b)
                    (mod-lt value (two_pow_pos b))),
    )
