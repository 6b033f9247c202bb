-- ===== src/Tests/Headers.antt =====
-- src/packet.c: a packet whose length is zero.
use chowder.Prelude.{ℕ, ◌≡◌, ◌≢◌, refl, true, false, List, [], ◌∷◌, ok, arith}
use chowder.Prelude.Int.{ℤ, pos}
use chowder.Packet.Buffer.{Heap, packet_init}
use chowder.Packet.Varint.{ReadByte, read_varint_gen}
use chowder.Packet.Header.{packet_read_header, packet_read_header_forever}

-- A socket that delivers these bytes, and nothing afterwards.
abbrev next_byte : ReadByte (List ℕ)
next_byte [] = ok (false, 0, [])
next_byte (b ∷ bytes) = ok (true, b, bytes)

abbrev read_none : List ℕ → ℕ → List ℕ × List ℕ × ℤ
read_none s n = (s, [], pos 0)

abbrev heap : Heap
heap = record { grants = λ _. true; stale = 0 }

length_zero : read_varint_gen next_byte (0 ∷ 7 ∷ []) ≡ ok (7 ∷ [], 0, pos 1)
unfolding read_varint_gen
length_zero = refl

id_seven : read_varint_gen next_byte (7 ∷ []) ≡ ok ([], 7, pos 1)
unfolding read_varint_gen
id_seven = refl

packet_read_header_forever_example :
    packet_read_header next_byte read_none 1000 heap (packet_init heap) (0 ∷ 7 ∷ [])
    ≢ ok (packet_init heap, [], pos 0)
unfolding packet_init
packet_read_header_forever_example =
    packet_read_header_forever next_byte read_none 1000 heap (packet_init heap) (0 ∷ 7 ∷ [])
      (7 ∷ []) [] 0 0 7 1 (packet_init heap, [], pos 0) length_zero id_seven (omega arith) refl
      (omega arith)
