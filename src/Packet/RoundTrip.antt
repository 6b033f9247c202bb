-- ===== src/Packet/RoundTrip.antt =====
-- src/packet.c: what one packet was written with is what another reads.
use chowder.Prelude.{
  ℕ, ◌+◌, ◌^◌, ◌≤◌, ◌<◌, ◌≡◌, sym, ap, ◌∙◌, true, List, ◌++◌, length, length-append, length-take,
  drop, some, ok, arith, drop-append, length-take_le,
}
use mathlib.Core.List.{append_assoc}
use chowder.Prelude.Int.{pos}
use chowder.Prelude.Bytes.{be_bytes}
use chowder.Packet.Buffer.{Packet, Heap, max_packet_len}
use chowder.Packet.Buffer.Laws.{contents, IsWriting, HasRoom, Appended, packet_write_bytes_room}
use chowder.Packet.Varint.{packet_write_varint, packet_read_byte, packet_read_varint}
use chowder.Packet.Varint.Encoding.{varint}
use chowder.Packet.Varint.Write.{Plenty, packet_write_varint-Appended}
use chowder.Packet.Varint.Read.{read_varint_gen-varint}
use chowder.Packet.Unread.{
  unread, received, received-IsReading, received-unread, IsReading, skip, unread-Delivers,
}
use chowder.Packet.Write.{packet_write_int, packet_write_long}
use chowder.Packet.Read.{packet_read_int, packet_read_long}
use chowder.Packet.Read.Laws.{packet_read_int-be_bytes}
use chowder.Packet.Read.Long.{packet_read_long-be_bytes}
use chowder.Packet.Finalize.{finalize_packet}
use chowder.Packet.Finalize.Laws.{IsReady, finalize_packet-Framed}

-- The bytes by which `q` goes beyond `p`.
abbrev pub added_bytes : Packet → Packet → List ℕ
added_bytes p q = drop p.packet_len (contents q)

pub Appended-added_bytes :
    {p q : Packet} (added : List ℕ) → IsWriting p → Appended p added q → added_bytes p q ≡ added
Appended-added_bytes {p} {q} added w a =
    ap (drop p.packet_len) a.bytes
    ∙ ap (λ (n : ℕ). drop n (contents p ++ added)) (sym len)
    ∙ drop-append (contents p) added
  where
    len : length (contents p) ≡ p.packet_len
    len = length-take_le p.packet_len p.buf (omega (arith, w.block, w.inside))

-- A packet that starts with an encoded number: `packet_read_varint` reads the number and leaves
-- what follows.
pub packet_read_varint-varint :
    (i : ℕ) (rest : List ℕ) (p : Packet)
    → IsReading p
    → i < 2 ^ 32
    → unread p ≡ varint 4 i ++ rest
    → (packet_read_varint p ≡ ok (skip p (length (varint 4 i)), i, pos (length (varint 4 i))))
      × (unread (skip p (length (varint 4 i))) ≡ rest)
unfolding packet_read_varint
packet_read_varint-varint i rest p r h e =
    let (d, behind) = unread-Delivers (varint 4 i) rest p r e in
    (read_varint_gen-varint packet_read_byte i p _ h d, behind)

-- A packet that is received with the bytes by which `q` goes beyond `p`, and `rest` behind them.
abbrev pub received_behind : Packet → Packet → List ℕ → Packet
received_behind p q rest = received (added_bytes p q ++ rest)

pub received_behind-IsReading :
    {p q : Packet} (added rest : List ℕ)
    → IsWriting p
    → Appended p added q
    → length added + length rest ≤ max_packet_len
    → IsReading (received_behind p q rest) × (unread (received_behind p q rest) ≡ added ++ rest)
received_behind-IsReading {p} {q} added rest w a fits =
    rw (Appended-added_bytes added w a)
      (received-IsReading (added ++ rest) (rw length-append fits), received-unread (added ++ rest))

-- Where the allocator grants every block, `packet_write_varint` of a number below 2 ^ 32 to a
-- packet that is being written and stays within the limit returns the number of bytes `n`, and on a
-- packet that is received with the bytes it added and `rest`, within the limit too,
-- `packet_read_varint` returns the number and `n`, and leaves `rest` unread.
pub packet_read_varint-packet_write_varint :
    (h : Heap) (p : Packet) (i : ℕ) (rest : List ℕ)
    → Plenty h
    → IsWriting p
    → i < 2 ^ 32
    → p.packet_len + length (varint 4 i) ≤ max_packet_len
    → length (varint 4 i) + length rest ≤ max_packet_len
    → (q : Packet) × (n : ℕ) × (packet_write_varint h p i ≡ ok (q, pos n))
      × (packet_read_varint (received_behind p q rest)
          ≡ ok (skip (received_behind p q rest) n, i, pos n))
      × (unread (skip (received_behind p q rest) n) ≡ rest)
packet_read_varint-packet_write_varint h p i rest plenty w small fits fits' =
    let (q, wrote, a) = packet_write_varint-Appended h plenty p i w small fits in
    let (reading, e) = received_behind-IsReading (varint 4 i) rest w a fits' in
    let (read, behind) =
      packet_read_varint-varint i rest (received_behind p q rest) reading small e in
    (q, length (varint 4 i), wrote, read, behind)

-- `packet_write_int` of a pattern of 32 bits to a packet that is being written and has room for it
-- appends four bytes, and on a packet that is received with these bytes and `rest`, within the
-- limit, `packet_read_int` returns true and the same pattern, whatever its stack held, and leaves
-- `rest` unread.
pub packet_read_int-packet_write_int :
    (h : Heap) (p : Packet) (i : ℕ) (rest stack : List ℕ)
    → IsWriting p
    → HasRoom h p 4
    → i < 2 ^ 32
    → length stack ≡ 4
    → 4 + length rest ≤ max_packet_len
    → (q : Packet) × (packet_write_int h p i ≡ ok (q, pos 4))
      × (packet_read_int (received_behind p q rest) stack
          ≡ ok (skip (received_behind p q rest) 4, i, true))
      × (unread (skip (received_behind p q rest) 4) ≡ rest)
unfolding packet_write_int be_bytes
packet_read_int-packet_write_int h p i rest stack w room small size fits =
    let (q, wrote, a) = packet_write_bytes_room h p (be_bytes 4 i) w room in
    let (reading, e) = received_behind-IsReading (be_bytes 4 i) rest w a fits in
    let (read, behind) =
      packet_read_int-be_bytes i rest (received_behind p q rest) stack reading small e size in
    (q, wrote, read, behind)

-- `packet_write_long` of a number below 2 ^ 64 to a packet that is being written and has room for
-- it appends eight bytes, and on a packet that is received with these bytes and `rest`, within the
-- limit, `packet_read_long` returns the same number and moves by eight bytes.
pub packet_read_long-packet_write_long :
    (h : Heap) (p : Packet) (l : ℕ) (rest : List ℕ)
    → IsWriting p
    → HasRoom h p 8
    → l < 2 ^ 64
    → 8 + length rest ≤ max_packet_len
    → (q : Packet) × (packet_write_long h p l ≡ ok (q, pos 8))
      × (packet_read_long (received_behind p q rest)
          ≡ ok (skip (received_behind p q rest) 8, some l))
unfolding packet_write_long be_bytes
packet_read_long-packet_write_long h p l rest w room small fits =
    let (q, wrote, a) = packet_write_bytes_room h p (be_bytes 8 l) w room in
    let (reading, e) = received_behind-IsReading (be_bytes 8 l) rest w a fits in
    (q, wrote, packet_read_long-be_bytes l rest (received_behind p q rest) reading small e)

-- A packet that was written, is not empty and does not have the id 255, with space in its block for
-- the encoded length, and within the limit with it and the bytes `rest`: `finalize_packet`
-- succeeds, and on a packet that is received with the finished bytes and `rest`,
-- `packet_read_varint` returns the length of what was written, and leaves what was written and
-- `rest` unread.
pub packet_read_varint-finalize_packet :
    (h : Heap) (p : Packet) (rest : List ℕ)
    → IsReady p
    → p.packet_len + length (varint 4 p.packet_len) ≤ p.data_len
    → p.packet_len + length (varint 4 p.packet_len) + length rest ≤ max_packet_len
    → (q : Packet) × (n : ℕ) × (finalize_packet h p ≡ ok (some q))
      × (packet_read_varint (received (contents q ++ rest))
          ≡ ok (skip (received (contents q ++ rest)) n, p.packet_len, pos n))
      × (unread (skip (received (contents q ++ rest)) n) ≡ contents p ++ rest)
packet_read_varint-finalize_packet h p rest ready fits small =
    let (q, done, f) = finalize_packet-Framed p ready fits h (omega arith) in
    let reading =
      received-IsReading (contents q ++ rest)
        (rw length-append (omega (arith, f.len, length-take q.packet_len q.buf))) in
    let (read, behind) =
      packet_read_varint-varint p.packet_len (contents p ++ rest) (received (contents q ++ rest))
        reading (omega (arith, ready.writing.small))
        (received-unread (contents q ++ rest)
          ∙ ap (λ t. t ++ rest) f.bytes
          ∙ append_assoc (varint 4 p.packet_len) (contents p) rest) in
    (q, length (varint 4 p.packet_len), done, read, behind)
