-- ===== src/Section/Store.antt =====
-- libs/anvil/section.c: `write_blockstate_at` sets bits of the number that the words stand for.
use chowder.Prelude.{
  ℕ, ◌+◌, ◌-◌, ◌*◌, ◌/◌, ◌%◌, ◌^◌, ◌≤◌, ◌<◌, ◌≡◌, refl, sym, ap, ◌∙◌, ◌⊎◌, inl, inr, get_elem?, set,
  some, ok, ◌>>=◌, arith, bit_or, bit_and, get_elem?-some, length-set, All-get_elem?,
}
use native.Mathlib.Nat.{
  mod-lt, mod-eq_of_lt, mul_assoc, mul-le-mul_right, div-le_self, pow-le-pow_right,
}
use chowder.Prelude.Int.{pos}
use chowder.Prelude.Bits.{two_pow_pos, bit_and_mask, bit_or-lt}
use chowder.Section.{Section, bitmask, write_blockstate_at}
use chowder.Section.Words.{packed, two_pow_add}
use chowder.Section.Write.{packed-set, set-IsWords, get_elem?-set_next, both_parts}
use chowder.Section.Laws.{
  IsPacked, block_index, block_index-lt, block_pos_lem, mask_of, end_inside, end_crossing, last_bit,
}

-- `s'` is `s` with the bits of `v` set from bit `n` on.
pub record Stored (s : Section) (n v : ℕ) (s' : Section) : Type 0 where
  pub still : IsPacked s'
  pub bits : s'.bits_per_block ≡ s.bits_per_block
  pub total : packed s'.blockstates ≡ bit_or (packed s.blockstates) (v * 2 ^ n)

-- The value that the mask leaves fits into the word.
fits_word : (o b v : ℕ) → o + b ≤ 64 → v < 2 ^ b → v * 2 ^ o < 2 ^ 64
fits_word o b v h hv =
    let up : v + 1 ≤ 2 ^ b = omega (arith, hv) in
    let top : 2 ^ (b + o) ≤ 2 ^ 64 = pow-le-pow_right (omega arith) {j = 64} (omega arith) in
    omega (arith, two_pow_pos o, mul-le-mul_right (2 ^ o) up, two_pow_add b o, top)

small_carry : (o b v : ℕ) → b ≤ 8 → v < 2 ^ b → v / 2 ^ (64 - o) < 2 ^ 64
small_carry o b v h hv =
    let top : 2 ^ b ≤ 2 ^ 64 = pow-le-pow_right (omega arith) {j = 64} (omega arith) in
    omega (arith, hv, div-le_self v (2 ^ (64 - o)), top)

masked : (b value : ℕ) → b ≤ 8 → bit_and value (bitmask b) ≡ value % 2 ^ b
masked b value h = rw (mask_of b h) (bit_and_mask b value)

-- The value in one word, by the bit where it starts.
placed :
    (n b v : ℕ)
    → n % 64 + b ≤ 64
    → v < 2 ^ b
    → v * 2 ^ (n % 64) % 2 ^ 64 * 2 ^ (n / 64 * 64) ≡ v * 2 ^ n
placed n b v fits hv =
    ap (λ (t : ℕ). t * 2 ^ (n / 64 * 64)) (mod-eq_of_lt (fits_word (n % 64) b v fits hv))
    ∙ mul_assoc v (2 ^ (n % 64)) (2 ^ (n / 64 * 64))
    ∙ ap (λ (t : ℕ). v * t)
        (sym (two_pow_add (n % 64) (n / 64 * 64))
          ∙ ap (λ (t : ℕ). 2 ^ t) {x = n % 64 + n / 64 * 64} {y = n} (omega arith))

Stored-inside :
    (s : Section) (n w v : ℕ)
    → IsPacked s
    → n % 64 + s.bits_per_block ≤ 64
    → v < 2 ^ s.bits_per_block
    → get_elem? s.blockstates (n / 64) ≡ some w
    → w < 2 ^ 64
    → Stored s n v (record s {
      blockstates = set s.blockstates (n / 64) (bit_or w (v * 2 ^ (n % 64) % 2 ^ 64));
    })
Stored-inside s n w v p fits hv e hw = record {
  still = record {
    positive = p.positive;
    narrow = p.narrow;
    size = length-set s.blockstates (n / 64) (bit_or w (v * 2 ^ (n % 64) % 2 ^ 64)) ∙ p.size;
    words =
        set-IsWords (n / 64) (bit_or w (v * 2 ^ (n % 64) % 2 ^ 64)) s.blockstates p.words
          (bit_or-lt 64 w (v * 2 ^ (n % 64) % 2 ^ 64) hw (omega arith));
  };
  bits = refl;
  total =
      packed-set (n / 64) w (v * 2 ^ (n % 64) % 2 ^ 64) s.blockstates p.words (omega arith) e
      ∙ ap (bit_or (packed s.blockstates)) (placed n s.bits_per_block v fits hv);
}

Stored-crossing :
    (s : Section) (n w w' v : ℕ)
    → IsPacked s
    → v < 2 ^ s.bits_per_block
    → get_elem? s.blockstates (n / 64) ≡ some w
    → get_elem? s.blockstates (n / 64 + 1) ≡ some w'
    → w < 2 ^ 64
    → w' < 2 ^ 64
    → Stored s n v (record s {
      blockstates =
          set
            (set s.blockstates (n / 64) (bit_or w (v * 2 ^ (n % 64) % 2 ^ 64)))
            (n / 64 + 1)
            (bit_or w' (v / 2 ^ (64 - n % 64)));
    })
Stored-crossing s n w w' v p hv e e' hw hw' =
    let low = v * 2 ^ (n % 64) % 2 ^ 64 in
    let high = v / 2 ^ (64 - n % 64) in
    let started = set s.blockstates (n / 64) (bit_or w low) in
    let low_word : low < 2 ^ 64 = omega arith in
    let high_word = small_carry (n % 64) s.bits_per_block v p.narrow hv in
    let words =
      set-IsWords (n / 64) (bit_or w low) s.blockstates p.words (bit_or-lt 64 w low hw low_word) in
    record {
      still = record {
        positive = p.positive;
        narrow = p.narrow;
        size =
            length-set started (n / 64 + 1) (bit_or w' high)
            ∙ length-set s.blockstates (n / 64) (bit_or w low)
            ∙ p.size;
        words =
            set-IsWords (n / 64 + 1) (bit_or w' high) started words
              (bit_or-lt 64 w' high hw' high_word);
      };
      bits = refl;
      total =
          packed-set (n / 64 + 1) w' high started words high_word
            (get_elem?-set_next (n / 64) (bit_or w low) s.blockstates ∙ e')
          ∙ ap (λ (t : ℕ). bit_or t (high * 2 ^ ((n / 64 + 1) * 64)))
              (packed-set (n / 64) w low s.blockstates p.words low_word e)
          ∙ both_parts (n / 64) (n % 64) v (packed s.blockstates) (omega arith)
          ∙ ap (λ (t : ℕ). bit_or (packed s.blockstates) (v * 2 ^ t)) {x = n / 64 * 64 + n % 64}
              {y = n} (omega arith);
    }

write_inside :
    (s : Section) (x y z i w value : ℕ)
    → s.bits_per_block ≤ 8
    → block_index x y z ≡ i
    → i * s.bits_per_block % 64 + s.bits_per_block ≤ 64
    → get_elem? s.blockstates (i * s.bits_per_block / 64) ≡ some w
    → write_blockstate_at s (pos x) (pos y) (pos z) value
      ≡ ok (record s {
        blockstates =
            set s.blockstates
              (i * s.bits_per_block / 64)
              (bit_or w (value % 2 ^ s.bits_per_block * 2 ^ (i * s.bits_per_block % 64) % 2 ^ 64));
      })
unfolding write_blockstate_at
write_inside s x y z i w value narrow at fits e =
    rw
      (
        block_pos_lem s x y z,
        ◌>>=◌,
        at,
        masked s.bits_per_block value narrow,
        e,
        ◌>>=◌,
        end_inside i s.bits_per_block fits,
      )
      (ground arith)

write_crossing :
    (s : Section) (x y z i w w' value : ℕ)
    → s.bits_per_block ≤ 8
    → block_index x y z ≡ i
    → 64 < i * s.bits_per_block % 64 + s.bits_per_block
    → get_elem? s.blockstates (i * s.bits_per_block / 64) ≡ some w
    → get_elem? s.blockstates (i * s.bits_per_block / 64 + 1) ≡ some w'
    → write_blockstate_at s (pos x) (pos y) (pos z) value
      ≡ ok (record s {
        blockstates =
            set
              (set s.blockstates (i * s.bits_per_block / 64) (
                bit_or w (value % 2 ^ s.bits_per_block * 2 ^ (i * s.bits_per_block % 64) % 2 ^ 64)))
              (i * s.bits_per_block / 64 + 1)
              (bit_or w' (value % 2 ^ s.bits_per_block / 2 ^ (64 - i * s.bits_per_block % 64)));
      })
unfolding write_blockstate_at
write_crossing s x y z i w w' value narrow at cross e e' =
    rw
      (
        block_pos_lem s x y z,
        ◌>>=◌,
        at,
        masked s.bits_per_block value narrow,
        e,
        ◌>>=◌,
        end_crossing i s.bits_per_block (omega arith) cross,
        get_elem?-set_next (i * s.bits_per_block / 64)
            (bit_or w (value % 2 ^ s.bits_per_block * 2 ^ (i * s.bits_per_block % 64) % 2 ^ 64))
            s.blockstates,
        e',
      )
      (ground arith)

-- In a section of 1 to 8 bits a block that has 64 words of 64 bits for each of these bits, and at
-- coordinates that are not negative, `write_blockstate_at` succeeds, leaves such a section with as
-- many bits, and sets the bits of the masked value at the digit of the block in the number that all
-- words stand for, by a bitwise or with what was there.
pub write_blockstate_at-packed :
    (s : Section) (x y z value : ℕ)
    → IsPacked s
    → (s' : Section) × (write_blockstate_at s (pos x) (pos y) (pos z) value ≡ ok s')
      × Stored s (block_index x y z * s.bits_per_block) (value % 2 ^ s.bits_per_block) s'
write_blockstate_at-packed s x y z value p =
    let b = s.bits_per_block in
    let i = block_index x y z in
    let n = i * b in
    let v = value % 2 ^ b in
    let hv : v < 2 ^ b = mod-lt value (two_pow_pos b) in
    let inside = last_bit i b (block_index-lt x y z) in
    let (w, e) = get_elem?-some s.blockstates (n / 64) (omega (arith, p.size, p.positive)) in
    let hw = All-get_elem? (λ (u : ℕ). u < 2 ^ 64) s.blockstates (n / 64) w p.words e in
    let split : (n % 64 + b ≤ 64) ⊎ (64 < n % 64 + b) = omega arith in
    elim split [
      | inl fits ↦ (
        _,
        write_inside s x y z i w value p.narrow refl fits e,
        Stored-inside s n w v p fits hv e hw,
      )
      | inr cross ↦
          let (w', e') =
            get_elem?-some s.blockstates (n / 64 + 1) (omega (arith, p.size, p.positive)) in
          let hw' =
            All-get_elem? (λ (u : ℕ). u < 2 ^ 64) s.blockstates (n / 64 + 1) w' p.words e' in
          (
            _,
            write_crossing s x y z i w w' value p.narrow refl cross e e',
            Stored-crossing s n w w' v p hv e e' hw hw',
          )
    ]
