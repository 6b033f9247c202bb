-- ===== src/Packet/Write/Laws.antt =====
-- src/packet.c: `make_packet` and `packet_write_string`.
use chowder.Prelude.{
  ℕ, ◌+◌, ◌%◌, ◌^◌, ◌≤◌, ◌<◌, ◌≡◌, refl, sym, ap, List, [], ◌∷◌, ◌++◌, length, drop, ◌==◌, true,
  false, ok, ◌>>=◌, arith, get_elem?-cons-drop,
}
use mathlib.Core.List.{append-nil}
use mathlib.Core.Path.{ap₂}
use chowder.Prelude.Int.{pos, ◌+ℤ◌, ltb_ℤ}
use chowder.Packet.Buffer.{Packet, Heap, packet_mode_write, max_packet_len}
use chowder.Packet.Buffer.Laws.{
  contents, IsWriting, HasRoom, Appended, Appended-trans, packet_write_byte_room,
}
use chowder.Packet.Varint.Encoding.{varint}
use chowder.Packet.Varint.Write.{Plenty, Plenty-HasRoom, packet_write_varint-Appended}
use chowder.Packet.Write.{write_string_loop, packet_write_string, make_packet}

-- A packet with its block of bytes, whatever was done with it before.
pub record HasBlock (p : Packet) : Type 0 where
  pub block : length p.buf ≡ p.data_len
  pub some_byte : 0 < p.data_len

abbrev started : Packet → ℕ → Packet
started p id = record p {
  packet_id = id;
  packet_len = 0;
  index = 0;
  packet_mode = packet_mode_write;
}

started-IsWriting : (p : Packet) (id : ℕ) → HasBlock p → IsWriting (started p id)
started-IsWriting p id b = record {
  mode = refl;
  at_end = refl;
  block = b.block;
  inside = omega arith;
  small = omega arith;
}

-- `make_packet` starts a packet over: its id is the one byte that is written.
pub make_packet-IsWriting :
    (h : Heap) (p : Packet) (id : ℕ)
    → HasBlock p
    → (q : Packet) × (make_packet h p id ≡ ok q)
      × IsWriting q
      × (q.packet_id ≡ id)
      × (contents q ≡ (id % 256) ∷ [])
unfolding make_packet
make_packet-IsWriting h p id b =
    let room : HasRoom h (started p id) 1 = record {
      fits = omega arith;
      granted = λ full. absurd (omega arith);
    } in
    let (q, wrote, a) =
      packet_write_byte_room h (started p id) (id % 256) (started-IsWriting p id b) room in
    (q, rw (wrote, ◌>>=◌), a.writing, a.same_id, a.bytes)

add_pos : (a b : ℕ) → pos a +ℤ pos b ≡ pos (a + b)
unfolding ◌+ℤ◌
add_pos a b = ground arith

module _ (h : Heap) (plenty : Plenty h) where
  write_string_loop-Appended :
      (cs s : List ℕ) (p : Packet) (i n_bytes : ℕ)
      → IsWriting p
      → drop i s ≡ cs
      → p.packet_len + length cs ≤ max_packet_len
      → (q : Packet) × (write_string_loop h s (length cs) p i (pos 1) (pos n_bytes)
          ≡ ok (q, i + length cs, pos 1, pos (n_bytes + length cs)))
        × Appended p cs q
  unfolding write_string_loop
  write_string_loop-Appended [] s p i n_bytes w e fits = (
    p,
    ap₂ (λ (a b : ℕ). ok (p, a, pos 1, pos b)) (omega arith) (omega arith),
    record {
      writing = w;
      same_id = refl;
      len = omega arith;
      bytes = sym (append-nil (contents p));
    },
  )
  write_string_loop-Appended (c ∷ cs) s p i n_bytes w e fits =
      let (here, behind) = get_elem?-cons-drop i s e in
      let (q, wrote, a) =
        packet_write_byte_room h p c w (Plenty-HasRoom h p 1 plenty (omega arith)) in
      let (r, run, b) =
        write_string_loop-Appended cs s q (i + 1) (n_bytes + 1) a.writing behind
          (omega (arith, a.len)) in
      (
        r,
        rw (here, ◌>>=◌, wrote, add_pos n_bytes 1, run)
            (ap₂ (λ (m k : ℕ). ok (r, m, pos 1, pos k)) (omega arith) (omega arith)),
        Appended-trans a b,
      )

  -- `packet_write_string` appends the length of its string and then the string, and returns the
  -- number of bytes.
  pub packet_write_string-Appended :
      (p : Packet) (s : List ℕ)
      → IsWriting p
      → length s < 2 ^ 31
      → p.packet_len + (length (varint 4 (length s)) + length s) ≤ max_packet_len
      → (q : Packet) × (packet_write_string h p (length s) s
          ≡ ok (q, pos (length (varint 4 (length s)) + length s)))
        × Appended p (varint 4 (length s) ++ s) q
  unfolding packet_write_string
  packet_write_string-Appended p s w small fits =
      let (q, wrote, a) =
        packet_write_varint-Appended h plenty p (length s) w (omega arith) (omega arith) in
      let (r, run, b) =
        write_string_loop-Appended s s q 0 0 a.writing refl (omega (arith, a.len)) in
      let (whole, sum) = finish (length (varint 4 (length s))) (length s) in
      (
        r,
        rw (wrote, ◌>>=◌, nonneg (length (varint 4 (length s))), run, whole, add_pos, sum),
        Appended-trans a b,
      )
    where
      nonneg : (n : ℕ) → ltb_ℤ (pos n) (pos 0) ≡ false
      nonneg n = ground arith

      finish : (n len : ℕ) → ((0 + len == len) ≡ true) × (pos (n + (0 + len)) ≡ pos (n + len))
      finish n len = (ground arith, ap pos (omega arith))
