-- ===== src/Tests/Wire.antt =====
-- src/packet.c: small packets, written, finished and read.
use chowder.Prelude.{
  take, length-replicate, ℕ, ◌+◌, ◌-◌, ◌^◌, ◌≤◌, ◌≡◌, refl, true, false, List, [], ◌∷◌, ◌++◌, some,
  ok, fault, out_of_bounds, replicate, arith, ◌>>=◌,
}
use chowder.Prelude.Int.{pos}
use chowder.Prelude.Bytes.{be_bytes}
use chowder.Packet.Buffer.{
  Packet, Heap, packet_mode_write, packet_write_byte, packet_write_bytes, packet_try_resize,
  grow_len,
}
use chowder.Packet.Buffer.Laws.{IsWriting, HasRoom, contents}
use chowder.Packet.Buffer.Refusals.{Outcome, packet_write_bytes-Outcome}
use chowder.Packet.Varint.{
  read_varint_gen, packet_read_varint, packet_read_byte, packet_write_varint,
}
use chowder.Packet.Varint.Encoding.{varint}
use chowder.Packet.Varint.Read.{read_varint_gen-varint}
use chowder.Packet.Unread.{unread, received, received-IsReading, skip}
use chowder.Packet.Write.{packet_write_int, packet_write_long}
use chowder.Packet.Read.{packet_read_bytes, packet_read_int, packet_read_long, packet_read_position}
use chowder.Packet.Read.Short.{packet_read_bytes_over_read, packet_read_bytes_missing}
use chowder.Packet.Read.Long.{mc_xyz_to_position, packet_read_position-mc_xyz_to_position}
use chowder.Packet.Finalize.{finalize_packet}
use chowder.Packet.Finalize.Laws.{IsReady, Framed, finalize_packet-Framed, finalize_packet_overflow}
use chowder.Packet.Write.{packet_write_string}
use chowder.Packet.Read.{packet_read_string}
use chowder.Packet.Read.Text.{packet_read_string-packet_write_string}
use chowder.Packet.RoundTrip.{
  received_behind, packet_read_varint-packet_write_varint, packet_read_int-packet_write_int,
  packet_read_long-packet_write_long, packet_read_varint-finalize_packet,
}

abbrev generous : Heap
generous = record { grants = λ _. true; stale = 0xcd }

-- Two bytes are written, and `room` are left.
abbrev two_written : ℕ → Packet
two_written room = record {
  packet_id = 7;
  packet_len = 2;
  data_len = room + 2;
  buf = 7 ∷ 8 ∷ replicate room 0xcd;
  index = 2;
  packet_mode = packet_mode_write;
}

two_written-IsWriting : (room : ℕ) → room ≤ 100 → IsWriting (two_written room)
two_written-IsWriting room h = record {
  mode = refl;
  at_end = refl;
  block = rw length-replicate (omega arith);
  inside = omega arith;
  small = omega arith;
}

two_written-IsReady : (room : ℕ) → room ≤ 100 → IsReady (two_written room)
two_written-IsReady room h = record {
  writing = two_written-IsWriting room h;
  unfinished = omega arith;
  filled = omega arith;
}

packet_write_bytes-Outcome_example :
    Outcome generous
      (two_written 0)
      (1 ∷ 2 ∷ [])
      (packet_write_bytes generous (two_written 0) (1 ∷ 2 ∷ []))
packet_write_bytes-Outcome_example =
    packet_write_bytes-Outcome generous (two_written 0) (1 ∷ 2 ∷ [])
      (two_written-IsWriting 0 (omega arith))

finalize_packet-Framed_example :
    (q : Packet) × (finalize_packet generous (two_written 3) ≡ ok (some q))
    × Framed (two_written 3) q
finalize_packet-Framed_example =
    finalize_packet-Framed (two_written 3) (two_written-IsReady 3 (omega arith))
      (unfold varint in omega arith) generous (unfold varint in omega arith)

finalize_packet_overflow_example : finalize_packet generous (two_written 0) ≡ fault out_of_bounds
finalize_packet_overflow_example =
    finalize_packet_overflow generous (two_written 0) (two_written-IsReady 0 (omega arith))
      (unfold varint in omega arith) (unfold varint in omega arith)

read_varint_gen-varint_example :
    read_varint_gen packet_read_byte (received (0xac ∷ 0x02 ∷ 5 ∷ []))
    ≡ ok (skip (received (0xac ∷ 0x02 ∷ 5 ∷ [])) 2, 300, pos 2)
unfolding varint
read_varint_gen-varint_example =
    read_varint_gen-varint packet_read_byte 300 (received (0xac ∷ 0x02 ∷ 5 ∷ []))
      (skip (received (0xac ∷ 0x02 ∷ 5 ∷ [])) 2) (omega arith)
      (unfold packet_read_byte in (_, refl, (_, refl, refl)))

packet_read_varint-packet_write_varint_example :
    (q : Packet) × (n : ℕ) × (packet_write_varint generous (two_written 3) 300 ≡ ok (q, pos n))
    × (packet_read_varint (received_behind (two_written 3) q (5 ∷ []))
        ≡ ok (skip (received_behind (two_written 3) q (5 ∷ [])) n, 300, pos n))
    × (unread (skip (received_behind (two_written 3) q (5 ∷ [])) n) ≡ 5 ∷ [])
unfolding varint
packet_read_varint-packet_write_varint_example =
    packet_read_varint-packet_write_varint generous (two_written 3) 300 (5 ∷ []) (λ _. refl)
      (two_written-IsWriting 3 (omega arith)) (omega arith) (omega arith) (omega arith)

room_for : (n : ℕ) → n ≤ 100 → HasRoom generous (two_written 3) n
room_for n h = record { fits = omega arith; granted = λ _. refl }

packet_read_int-packet_write_int_example :
    (q : Packet) × (packet_write_int generous (two_written 3) 0xdeadbeef ≡ ok (q, pos 4))
    × (packet_read_int (received_behind (two_written 3) q (5 ∷ [])) (0 ∷ 0 ∷ 0 ∷ 0 ∷ [])
        ≡ ok (skip (received_behind (two_written 3) q (5 ∷ [])) 4, 0xdeadbeef, true))
    × (unread (skip (received_behind (two_written 3) q (5 ∷ [])) 4) ≡ 5 ∷ [])
packet_read_int-packet_write_int_example =
    packet_read_int-packet_write_int generous (two_written 3) 0xdeadbeef (5 ∷ [])
      (0 ∷ 0 ∷ 0 ∷ 0 ∷ []) (two_written-IsWriting 3 (omega arith)) (room_for 4 (omega arith))
      (omega arith) refl (omega arith)

packet_read_long-packet_write_long_example :
    (q : Packet) × (packet_write_long generous (two_written 3) 77 ≡ ok (q, pos 8))
    × (packet_read_long (received_behind (two_written 3) q (5 ∷ []))
        ≡ ok (skip (received_behind (two_written 3) q (5 ∷ [])) 8, some 77))
packet_read_long-packet_write_long_example =
    packet_read_long-packet_write_long generous (two_written 3) 77 (5 ∷ [])
      (two_written-IsWriting 3 (omega arith)) (room_for 8 (omega arith)) (omega arith) (omega arith)

packet_read_varint-finalize_packet_example :
    (q : Packet) × (n : ℕ) × (finalize_packet generous (two_written 3) ≡ ok (some q))
    × (packet_read_varint (received (contents q ++ (5 ∷ [])))
        ≡ ok (skip (received (contents q ++ (5 ∷ []))) n, 2, pos n))
    × (unread (skip (received (contents q ++ (5 ∷ []))) n) ≡ 7 ∷ 8 ∷ 5 ∷ [])
unfolding varint
packet_read_varint-finalize_packet_example =
    packet_read_varint-finalize_packet generous (two_written 3) (5 ∷ [])
      (two_written-IsReady 3 (omega arith)) (omega arith) (omega arith)

-- The string is "hi".
packet_read_string-packet_write_string_example :
    (q : Packet) × (n : ℕ) × (r : Packet) × (buf : List ℕ) × (packet_write_string generous
        (two_written 3)
        2
        (104 ∷ 105 ∷ [])
      ≡ ok (q, pos n))
    × (packet_read_string (received_behind (two_written 3) q (5 ∷ [])) 4 (9 ∷ 9 ∷ 9 ∷ 9 ∷ [])
        ≡ ok (r, buf, pos 2))
    × (take 3 buf ≡ 104 ∷ 105 ∷ 0 ∷ [])
    × (unread r ≡ 5 ∷ [])
unfolding varint
packet_read_string-packet_write_string_example =
    packet_read_string-packet_write_string generous (two_written 3) (104 ∷ 105 ∷ []) (5 ∷ [])
      (9 ∷ 9 ∷ 9 ∷ 9 ∷ []) (λ _. refl) (two_written-IsWriting 3 (omega arith)) (omega arith)
      (omega arith) (omega arith) (omega arith)

-- Three bytes where an `int32_t` is asked for.
packet_read_bytes_over_read_example :
    packet_read_bytes (received (1 ∷ 2 ∷ 3 ∷ [])) 4 (0 ∷ 0 ∷ 0 ∷ 0 ∷ []) ≡ fault out_of_bounds
packet_read_bytes_over_read_example =
    packet_read_bytes_over_read (received (1 ∷ 2 ∷ 3 ∷ [])) 4 (0 ∷ 0 ∷ 0 ∷ 0 ∷ [])
      (received-IsReading _ (omega arith)) refl refl

packet_read_bytes_missing_example :
    (q : Packet) × (buf : List ℕ) × (packet_read_bytes (received (1 ∷ [])) 4 (0 ∷ 0 ∷ 0 ∷ 0 ∷ [])
      ≡ ok (q, buf, false))
packet_read_bytes_missing_example =
    packet_read_bytes_missing (received (1 ∷ [])) 4 (0 ∷ 0 ∷ 0 ∷ 0 ∷ [])
      (received-IsReading (1 ∷ []) (omega arith)) (omega arith) refl

abbrev position : List ℕ
position = be_bytes 8 (mc_xyz_to_position 5 64 (2 ^ 26 - 3))

packet_read_position-mc_xyz_to_position_example :
    packet_read_position (received position)
    ≡ ok (skip (received position) 8, some (5, 64, 67108861))
unfolding be_bytes
packet_read_position-mc_xyz_to_position_example =
    packet_read_position-mc_xyz_to_position 5 64 (2 ^ 26 - 3) [] (received position)
      (received-IsReading position (omega arith)) refl

-- A second write of 300, byte by byte, and a packet that is sent.
write_300 :
    (packet_write_varint generous (two_written 3) 300 >>= λ (q, _). ok (contents q))
    ≡ ok (7 ∷ 8 ∷ 0xac ∷ 0x02 ∷ [])
unfolding packet_write_varint packet_write_byte packet_try_resize grow_len
write_300 = refl
