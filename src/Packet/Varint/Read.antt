-- ===== src/Packet/Varint/Read.antt =====
-- src/packet.c: `read_varint_gen` on a source that delivers an encoded number.
use chowder.Prelude.{
  ℕ, zero, suc, ◌+◌, ◌*◌, ◌/◌, ◌%◌, ◌^◌, ◌≤◌, ◌<◌, ◌≡◌, refl, ap, ◌∙◌, true, List, [], ◌∷◌, not,
  ◌&&◌, inl, inr, ltb, leb, ◌==◌, length, ok, ◌>>=◌, arith, bit_and, bit_or, Bool-cases,
}
use native.Mathlib.Numerals.{towards_suc}
use native.Mathlib.Nat.{div-add-mod}
use chowder.Prelude.Int.{pos}
use chowder.Prelude.Bits.{bit_or_comm, bit_or_disjoint, bit_and_mask}
use chowder.Packet.Varint.{ReadByte, varint_group, read_varint_loop, read_varint_gen}
use chowder.Packet.Varint.Encoding.{varint, top_bit}

-- The source `s` delivers `bytes`, one a call, and is then `t`.
abbrev pub Delivers {ℓ} : {S : Type ℓ} → ReadByte S → S → List ℕ → S → Type ℓ
Delivers rb s [] t = s ≡ t
Delivers {S} rb s (b ∷ bs) t = (s' : S) × (rb s ≡ ok (true, b, s')) × Delivers rb s' bs t

seven_more : (n : ℕ) → 2 ^ (7 * (n + 1)) ≡ 128 * 2 ^ (7 * n)
seven_more n = ap (λ (e : ℕ). 2 ^ e) split ∙ shift (7 * n)
  where
    split : 7 * (n + 1) ≡ 7 * n + 7
    split = omega arith

    shift : (s : ℕ) → 2 ^ (s + 7) ≡ 128 * 2 ^ s
    shift s = simp towards_suc (omega arith)

-- `*v |= …` puts the group above what was read.
add_group :
    (b n v : ℕ)
    → n < 5
    → v < 2 ^ (7 * n)
    → b % 128 * 2 ^ (7 * n) < 2 ^ 32
    → bit_or v (varint_group b n) ≡ v + b % 128 * 2 ^ (7 * n)
add_group b n v five low fits =
    ap (bit_or v) group ∙ bit_or_comm v _ ∙ bit_or_disjoint (7 * n) (b % 128) v low ∙ omega arith
  where
    group : varint_group b n ≡ b % 128 * 2 ^ (7 * n)
    group = ground (arith, bit_and_mask 7 b)

-- The lowest group of `w` and the groups above it, from bit `7 * n` on.
split_group : (n w : ℕ) → w % 128 * 2 ^ (7 * n) + w / 128 * 2 ^ (7 * (n + 1)) ≡ w * 2 ^ (7 * n)
split_group n w = omega (
  arith,
  ap (λ (t : ℕ). w / 128 * t) (seven_more n),
  ap (λ (t : ℕ). t * 2 ^ (7 * n)) (div-add-mod w 128),
)

group-lt : (n v w : ℕ) → v < 2 ^ (7 * n) → v + w % 128 * 2 ^ (7 * n) < 2 ^ (7 * (n + 1))
group-lt n v w low = omega (arith, seven_more n, top)
  where
    le : w % 128 ≤ 127
    le = omega arith

    top : w % 128 * 2 ^ (7 * n) ≤ 127 * 2 ^ (7 * n)
    top = grind arith

module _ {ℓ} {S : Type ℓ} (rb : ReadByte S) where
  final_byte :
      (f n v b : ℕ) (s t : S)
      → n < 5
      → b < 128
      → v < 2 ^ (7 * n)
      → b * 2 ^ (7 * n) < 2 ^ 32
      → rb s ≡ ok (true, b, t)
      → read_varint_loop rb (suc f) s n v ≡ ok (t, v + b * 2 ^ (7 * n), pos (n + 1))
  unfolding read_varint_loop
  final_byte f n v b s t five small low fits e = rw e (ground (arith, top_bit b, sum))
    where
      same : b % 128 ≡ b
      same = omega arith

      sum : bit_or v (varint_group b n) ≡ v + b * 2 ^ (7 * n)
      sum = add_group b n v five low (rw same fits) ∙ ap (λ (g : ℕ). v + g * 2 ^ (7 * n)) same

  inner_byte :
      (f n v b : ℕ) (s t : S)
      → n < 4
      → v < 2 ^ (7 * n)
      → b % 128 * 2 ^ (7 * n) < 2 ^ 32
      → 128 ≤ b
      → b < 256
      → rb s ≡ ok (true, b, t)
      → read_varint_loop rb (suc f) s n v
        ≡ read_varint_loop rb f t (n + 1) (v + b % 128 * 2 ^ (7 * n))
  unfolding read_varint_loop
  inner_byte f n v b s t few low fits big byte e =
      rw (e, ◌>>=◌, continues, add_group b n v (omega arith) low fits)
    where
      continues : not (bit_and b 0x80 == 0) && leb (n + 1) 5 ≡ true
      continues = ground (arith, top_bit b)

  -- `w` is what is still to come, above the `n` groups in `v`.
  read_varint_loop-varint :
      (k n v w : ℕ) (s t : S)
      → n + k ≡ 4
      → v < 2 ^ (7 * n)
      → w < 128 ^ suc k
      → v + w * 2 ^ (7 * n) < 2 ^ 32
      → Delivers rb s (varint k w) t
      → read_varint_loop rb (suc (suc k)) s n v
        ≡ ok (t, v + w * 2 ^ (7 * n), pos (n + length (varint k w)))
  unfolding varint
  read_varint_loop-varint zero n v w s t hn low small fits = λ (s', e, r).
      rw (← r) (final_byte 1 n v w s s' (omega arith) (omega arith) low (omega arith) e)
  read_varint_loop-varint (suc k) n v w s t hn low small fits = elim (Bool-cases (ltb w 128)) [
    | inl last ↦ rw last λ (s', e, r).
        rw (← r)
          (final_byte (suc (suc k)) n v w s s' (omega arith) (ground arith) low (omega arith) e)
    | inr more ↦ rw more λ (s', e, r).
        let v' = v + w % 128 * 2 ^ (7 * n) in
        let same : (w % 128 + 128) % 128 ≡ w % 128 = omega arith in
        let below : w % 128 * 2 ^ (7 * n) < 2 ^ 32 = omega (arith, split_group n w) in
        let first =
          inner_byte (suc (suc k)) n v (w % 128 + 128) s s' (omega arith) low (rw same below)
            (omega arith) (omega arith) e in
        let rest =
          read_varint_loop-varint k (n + 1) v' (w / 128) s' t (omega arith) (group-lt n v w low)
            (omega arith) (omega (arith, split_group n w)) r in
        (rw same at first)
        ∙ rest
        ∙ ap (λ (m : ℕ). ok (t, m, pos (n + 1 + length (varint k (w / 128)))))
            (omega (arith, split_group n w))
        ∙ ap (λ (m : ℕ). ok (t, v + w * 2 ^ (7 * n), pos m)) (omega arith)
  ]

  -- From any source that delivers the encoding of a number below 2 ^ 32, `read_varint_gen` returns
  -- the number and the length of the encoding, and takes no byte more.
  pub read_varint_gen-varint :
      (i : ℕ) (s t : S)
      → i < 2 ^ 32
      → Delivers rb s (varint 4 i) t
      → read_varint_gen rb s ≡ ok (t, i, pos (length (varint 4 i)))
  unfolding read_varint_gen
  read_varint_gen-varint i s t h d =
      read_varint_loop-varint 4 0 0 i s t refl (omega arith) (omega arith) (omega arith) d
      ∙ ground arith
