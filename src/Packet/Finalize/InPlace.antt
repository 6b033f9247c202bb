-- ===== src/Packet/Finalize/InPlace.antt =====
-- src/packet.c: `packet_write_varint` over bytes that are in the block already.
use chowder.Prelude.{
  ℕ, zero, suc, ◌+◌, ◌/◌, ◌%◌, ◌^◌, ◌≤◌, ◌<◌, ◌≡◌, sym, ap, ◌∙◌, List, [], ◌∷◌, inl, inr, ltb,
  length, set, splice, ok, arith, Bool-cases, length-set, splice-set, splice_nil,
}
use mathlib.Core.Path.{ap₂}
use chowder.Prelude.Int.{pos}
use chowder.Packet.Buffer.{
  Packet, Heap, packet_mode_write, max_packet_len, packet_try_resize, packet_write_byte,
}
use chowder.Packet.Varint.{write_varint_loop, packet_write_varint}
use chowder.Packet.Varint.Encoding.{varint}
use chowder.Packet.Varint.Write.{last_round, inner_round}

-- `n` bytes fit behind `packet_len` and at `index`, with no call of `realloc`.
pub record Fits (p : Packet) (n : ℕ) : Type 0 where
  pub mode : p.packet_mode ≡ packet_mode_write
  pub block : length p.buf ≡ p.data_len
  pub inside : p.packet_len + n ≤ p.data_len
  pub small : p.packet_len + n ≤ max_packet_len
  pub before : p.index ≤ p.packet_len

abbrev pub overwritten : Packet → List ℕ → Packet
overwritten p bytes = record p {
  packet_len = p.packet_len + length bytes;
  buf = splice p.buf p.index bytes;
  index = p.index + length bytes;
}

abbrev byte_over : Packet → ℕ → Packet
byte_over p b = record p {
  packet_len = p.packet_len + 1;
  buf = set p.buf p.index b;
  index = p.index + 1;
}

write_byte_over :
    (h : Heap) (p : Packet) (b n : ℕ)
    → Fits p (suc n)
    → (packet_write_byte h p b ≡ ok (byte_over p b, pos 1)) × Fits (byte_over p b) n
unfolding packet_write_byte packet_try_resize
write_byte_over h p b n f = (
  ground arith,
  record {
    mode = f.mode;
    block = length-set p.buf p.index b ∙ f.block;
    inside = omega arith;
    small = omega arith;
    before = omega arith;
  },
)

byte_over-overwritten :
    (p : Packet) (b : ℕ) (bytes : List ℕ)
    → p.index < length p.buf
    → overwritten (byte_over p b) bytes ≡ overwritten p (b ∷ bytes)
byte_over-overwritten p b bytes h =
    λ i. record p { packet_len = len i; buf = splice-set p.buf p.index b bytes h i; index = idx i }
  where
    len : p.packet_len + 1 + length bytes ≡ p.packet_len + suc (length bytes)
    len = omega arith

    idx : p.index + 1 + length bytes ≡ p.index + suc (length bytes)
    idx = omega arith

overwritten_nil : (p : Packet) → overwritten p [] ≡ p
overwritten_nil p = λ i. record p {
  packet_len = add_nothing p.packet_len i;
  buf = splice_nil p.buf p.index i;
  index = add_nothing p.index i;
}
  where
    add_nothing : (n : ℕ) → n + 0 ≡ n
    add_nothing n = omega arith

one_byte : (p : Packet) (b : ℕ) → p.index < length p.buf → byte_over p b ≡ overwritten p (b ∷ [])
one_byte p b h = sym (overwritten_nil (byte_over p b)) ∙ byte_over-overwritten p b [] h

-- The last byte, at any number of rounds left.
final_over :
    (h : Heap) (k : ℕ) (p : Packet) (i n : ℕ)
    → i < 128
    → Fits p 1
    → write_varint_loop h (suc k) p i n ≡ ok (overwritten p (i ∷ []), pos (n + 1))
final_over h k p i n small f =
    let (wrote, f') = write_byte_over h p i 0 f in
    last_round h k p (byte_over p i) i n small wrote
    ∙ ap (λ q. ok (q, pos (n + 1))) (one_byte p i (omega arith))

write_varint_loop_over :
    (h : Heap) (k : ℕ) (p : Packet) (i n : ℕ)
    → i < 128 ^ suc k
    → Fits p (length (varint k i))
    → write_varint_loop h (suc k) p i n
      ≡ ok (overwritten p (varint k i), pos (n + length (varint k i)))
unfolding varint
write_varint_loop_over h zero p i n small = λ f. final_over h 0 p i n (omega arith) f
write_varint_loop_over h (suc k) p i n small = elim (Bool-cases (ltb i 128)) [
  | inl last ↦ rw last λ f. final_over h (suc k) p i n (ground arith) f
  | inr more ↦ rw more λ f.
      let b : ℕ = i % 128 + 128 in
      let (wrote, f') = write_byte_over h p b (length (varint k (i / 128))) f in
      let rest = write_varint_loop_over h k (byte_over p b) (i / 128) (n + 1) (omega arith) f' in
      inner_round h (suc k) p (byte_over p b) i n (ground arith) wrote
      ∙ rest
      ∙ ap₂ (λ (q : Packet) (m : ℕ). ok (q, pos m))
          (byte_over-overwritten p b (varint k (i / 128)) (omega arith)) (omega arith)
]

-- `packet_write_varint` overwrites the bytes at `index` with the encoding of its number.
pub packet_write_varint_over :
    (h : Heap) (p : Packet) (i : ℕ)
    → i < 2 ^ 32
    → Fits p (length (varint 4 i))
    → packet_write_varint h p i ≡ ok (overwritten p (varint 4 i), pos (length (varint 4 i)))
unfolding packet_write_varint
packet_write_varint_over h p i small f =
    write_varint_loop_over h 4 p i 0 (omega arith) f
    ∙ ap (λ (m : ℕ). ok (overwritten p (varint 4 i), pos m)) (omega arith)
