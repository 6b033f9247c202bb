-- ===== src/Packet/Finalize/Laws.antt =====
-- src/packet.c: what `finalize_packet` makes of a packet that was written.
use chowder.Prelude.{
  ℕ, zero, suc, ◌+◌, ◌/◌, ◌^◌, ◌≤◌, ◌<◌, ◌≡◌, ◌≢◌, refl, ap, ◌∙◌, List, ◌++◌, inl, inr, ltb, length,
  take, drop, splice, none, some, ok, fault, out_of_bounds, arith, Bool-cases, length-take_le,
  length-splice, take-length-append, drop-take_append, take-take_append,
}
use chowder.Prelude.Int.{pos}
use chowder.Packet.Buffer.{Packet, Heap, max_packet_len}
use chowder.Packet.Buffer.Laws.{contents, IsWriting}
use chowder.Packet.Varint.{packet_write_varint}
use chowder.Packet.Varint.Encoding.{varint}
use chowder.Packet.Finalize.{finished_packet_id, count_len_bytes, move_up, finalize_packet}
use chowder.Packet.Finalize.InPlace.{overwritten, packet_write_varint_over}

-- The loop counts the bytes of the encoding of a length that is not 0.
count_len_bytes-varint :
    (k len n : ℕ)
    → 0 < len
    → len < 128 ^ suc k
    → count_len_bytes (suc (suc k)) len n ≡ ok (n + length (varint k len))
unfolding count_len_bytes varint
count_len_bytes-varint zero len n pos' h = ground arith
count_len_bytes-varint (suc k) len n pos' h = elim (Bool-cases (ltb len 128)) [
  | inl last ↦ rw last (ground arith)
  | inr more ↦ rw more (ground (arith, count_len_bytes-varint k (len / 128) (n + 1)))
]

abbrev length_bytes : Packet → ℕ
length_bytes p = length (varint 4 p.packet_len)

-- A packet that was written and is not yet finished.
pub record IsReady (p : Packet) : Type 0 where
  pub writing : IsWriting p
  pub unfinished : p.packet_id ≢ finished_packet_id
  pub filled : 0 < p.packet_len

counted : (p : Packet) → IsReady p → count_len_bytes 6 p.packet_len 0 ≡ ok (length_bytes p)
counted p r =
    count_len_bytes-varint 4 p.packet_len 0 r.filled (omega (arith, r.writing.small))
    ∙ ap (λ (n : ℕ). ok n) (omega arith)

-- Over the limit `finalize_packet` returns a null pointer.
pub finalize_packet_too_big :
    (h : Heap) (p : Packet)
    → IsReady p
    → max_packet_len < p.packet_len + length (varint 4 p.packet_len)
    → finalize_packet h p ≡ ok none
unfolding finalize_packet
finalize_packet_too_big h p r big = rw (counted p r) (ground (arith, r.unfinished))

-- A packet that was written, is not empty, does not have the id 255 and is within the limit
-- together with its encoded length, where the length does not fit behind the bytes in the block:
-- the `memmove` of `finalize_packet` writes behind the end of the block.
pub finalize_packet_overflow :
    (h : Heap) (p : Packet)
    → IsReady p
    → p.packet_len + length (varint 4 p.packet_len) ≤ max_packet_len
    → p.data_len < p.packet_len + length (varint 4 p.packet_len)
    → finalize_packet h p ≡ fault out_of_bounds
unfolding finalize_packet
finalize_packet_overflow h p r small over =
    rw (counted p r) (ground (arith, r.unfinished, r.writing))

-- A finished packet: its length stands before its bytes.
pub record Framed (p q : Packet) : Type 0 where
  pub finished : q.packet_id ≡ finished_packet_id
  pub len : q.packet_len ≡ p.packet_len + length (varint 4 p.packet_len)
  pub bytes : contents q ≡ varint 4 p.packet_len ++ contents p

-- The block after the `memmove`.
module _ (p : Packet) (r : IsReady p)
    (fits : p.packet_len + length (varint 4 p.packet_len) ≤ p.data_len) where
  moved : List ℕ
  moved = splice p.buf (length_bytes p) (contents p)

  payload : length (contents p) ≡ p.packet_len
  payload = length-take_le p.packet_len p.buf (omega (arith, r.writing.block, r.writing.inside))

  moves : move_up p.buf (length_bytes p) p.packet_len ≡ ok moved
  unfolding moved
  moves = ground (arith, r.writing.block)

  moved-length : length moved ≡ p.data_len
  unfolding moved
  moved-length =
      length-splice p.buf (length_bytes p) (contents p) (omega (arith, payload, r.writing.block))
      ∙ r.writing.block

  -- The bytes stand behind the place of the length.
  moved-bytes : take p.packet_len (drop (length_bytes p) moved) ≡ contents p
  unfolding moved
  moved-bytes =
      rw (drop-take_append (length_bytes p) p.buf _ (omega (arith, r.writing.block)))
        (take-take_append p.packet_len p.buf _ (omega (arith, r.writing.block)))

  framed : Packet
  framed = record p {
    packet_len = p.packet_len + length_bytes p;
    packet_id = finished_packet_id;
    buf = splice moved 0 (varint 4 p.packet_len);
    index = 0 + length_bytes p;
  }

  framed-bytes : contents framed ≡ varint 4 p.packet_len ++ contents p
  unfolding framed
  framed-bytes =
      ap (λ (n : ℕ). take n framed.buf) {y = length_bytes p + p.packet_len} (omega arith)
      ∙ take-length-append (varint 4 p.packet_len) (drop (0 + length_bytes p) moved) p.packet_len
      ∙ ap (λ t. varint 4 p.packet_len ++ t) (at_zero ∙ moved-bytes)
    where
      at_zero :
          take p.packet_len (drop (0 + length_bytes p) moved)
          ≡ take p.packet_len (drop (length_bytes p) moved)
      at_zero = ap (λ (n : ℕ). take p.packet_len (drop n moved)) (omega arith)

  module _ (h : Heap) (small : p.packet_len + length (varint 4 p.packet_len) ≤ max_packet_len) where
    wrote :
        packet_write_varint h (record p { buf = moved; index = 0 }) p.packet_len
        ≡ ok (
          overwritten (record p { buf = moved; index = 0 }) (varint 4 p.packet_len),
          pos (length_bytes p),
        )
    wrote =
        packet_write_varint_over h (record p { buf = moved; index = 0 }) p.packet_len
          (omega (arith, r.writing.small))
          (record {
            mode = r.writing.mode;
            block = moved-length;
            inside = fits;
            small = small;
            before = omega arith;
          })

    runs : finalize_packet h p ≡ ok (some framed)
    unfolding finalize_packet framed
    runs = rw (counted p r) (ground (arith, r.unfinished, moves, wrote))

    -- A packet that was written, is not empty and does not have the id 255, with space in its block
    -- for the encoded length, and within the limit with it: `finalize_packet` succeeds, sets the id
    -- to 255, and the bytes of the packet are the encoded length followed by the bytes that were
    -- written, for any answer of the allocator.
    pub finalize_packet-Framed : (q : Packet) × (finalize_packet h p ≡ ok (some q)) × Framed p q
    unfolding framed
    finalize_packet-Framed =
        (framed, runs, record { finished = refl; len = refl; bytes = framed-bytes })
