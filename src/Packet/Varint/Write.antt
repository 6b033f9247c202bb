-- ===== src/Packet/Varint/Write.antt =====
-- src/packet.c: what `packet_write_varint` writes.
use chowder.Prelude.{
  ℕ, zero, suc, ◌+◌, ◌/◌, ◌%◌, ◌^◌, ◌≤◌, ◌<◌, ◌≡◌, ap, ◌∙◌, true, inl, inr, ltb, length, ok, arith,
  Bool-cases,
}
use chowder.Prelude.Int.{pos}
use chowder.Packet.Buffer.{Packet, Heap, max_packet_len, packet_write_byte}
use chowder.Packet.Buffer.Laws.{
  IsWriting, HasRoom, Appended, Appended-trans, packet_write_byte_room,
}
use chowder.Packet.Varint.{write_varint_loop, packet_write_varint}
use chowder.Packet.Varint.Encoding.{varint, low_group, set_top_bit}

-- `realloc` never refuses.
abbrev pub Plenty : Heap → Type 0
Plenty h = (n : ℕ) → h.grants n ≡ true

pub Plenty-HasRoom :
    (h : Heap) (p : Packet) (n : ℕ) → Plenty h → p.packet_len + n ≤ max_packet_len → HasRoom h p n
Plenty-HasRoom h p n plenty fits = record { fits = fits; granted = λ _. plenty _ }

pub last_round :
    (h : Heap) (f : ℕ) (p q : Packet) (i n : ℕ)
    → i < 128
    → packet_write_byte h p i ≡ ok (q, pos 1)
    → write_varint_loop h (suc f) p i n ≡ ok (q, pos (n + 1))
unfolding write_varint_loop
last_round h f p q i n small e = ground (arith, low_group i)

pub inner_round :
    (h : Heap) (f : ℕ) (p q : Packet) (i n : ℕ)
    → 128 ≤ i
    → packet_write_byte h p (i % 128 + 128) ≡ ok (q, pos 1)
    → write_varint_loop h (suc f) p i n ≡ write_varint_loop h f q (i / 128) (n + 1)
unfolding write_varint_loop
inner_round h f p q i n big e = ground (arith, low_group i, set_top_bit (i % 128))

module _ (h : Heap) (plenty : Plenty h) where
  write_varint_loop-Appended :
      (k : ℕ) (p : Packet) (i n : ℕ)
      → IsWriting p
      → i < 128 ^ suc k
      → p.packet_len + length (varint k i) ≤ max_packet_len
      → (q : Packet) × (write_varint_loop h (suc k) p i n ≡ ok (q, pos (n + length (varint k i))))
        × Appended p (varint k i) q
  unfolding varint
  write_varint_loop-Appended zero p i n w small fits =
      let (q, e, a) = packet_write_byte_room h p i w (Plenty-HasRoom h p 1 plenty fits) in
      (q, last_round h zero p q i n small e, a)
  write_varint_loop-Appended (suc k) p i n w small fits = elim (Bool-cases (ltb i 128)) [
    | inl last ↦ rw last (
        let (q, e, a) =
          packet_write_byte_room h p i w (Plenty-HasRoom h p 1 plenty (ground arith)) in
        (q, last_round h (suc k) p q i n (ground arith) e, a))
    | inr more ↦ rw more (
        let byte : ℕ = i % 128 + 128 in
        let (q, e, a) =
          packet_write_byte_room h p byte w (Plenty-HasRoom h p 1 plenty (ground arith)) in
        let (r, e', b) =
          write_varint_loop-Appended k q (i / 128) (n + 1) a.writing (omega arith)
            (ground (arith, a.len)) in
        (
          r,
          inner_round h (suc k) p q i n (ground arith) e
              ∙ e'
              ∙ ap (λ (m : ℕ). ok (r, pos m)) (omega arith),
          Appended-trans a b,
        ))
  ]

  -- `packet_write_varint` appends the encoding of its number and returns the number of bytes.
  pub packet_write_varint-Appended :
      (p : Packet) (i : ℕ)
      → IsWriting p
      → i < 2 ^ 32
      → p.packet_len + length (varint 4 i) ≤ max_packet_len
      → (q : Packet) × (packet_write_varint h p i ≡ ok (q, pos (length (varint 4 i))))
        × Appended p (varint 4 i) q
  unfolding packet_write_varint
  packet_write_varint-Appended p i w small fits =
      let (q, e, a) = write_varint_loop-Appended 4 p i 0 w (omega arith) fits in
      (q, e ∙ ap (λ (m : ℕ). ok (q, pos m)) (omega arith), a)
