-- ===== src/Packet/Finalize.antt =====
-- src/packet.c: `finalize_packet`, which puts the length before the bytes of a packet.
pub mod InPlace
pub mod Laws
use chowder.Prelude.{
  ℕ, zero, suc, ◌+◌, ◌/◌, ◌^◌, List, if◌then◌else◌, ltb, leb, ◌==◌, length, take, splice, Run, ok,
  fault, out_of_bounds, no_fuel, Option, none, some, ◌>>=◌,
}
use chowder.Prelude.Int.{ℤ, pos_part}
use chowder.Packet.Buffer.{Packet, Heap, max_packet_len}
use chowder.Packet.Varint.{packet_write_varint}

abbrev pub finished_packet_id : ℕ
finished_packet_id = 255

-- `while (len != 0) { len >>= 7; ++packet_len_bytes; }` with the rounds left.
unfoldable pub count_len_bytes : ℕ → ℕ → ℕ → Run ℕ
count_len_bytes zero len n = fault no_fuel
count_len_bytes (suc f) len n =
    let more = count_len_bytes f (len / 2 ^ 7) (n + 1) in if len == 0 then ok n else more

-- `memmove(data + dst, data, len)`
abbrev pub move_up : List ℕ → ℕ → ℕ → Run (List ℕ)
move_up bytes dst len =
    if leb (dst + len) (length bytes)
    then ok (splice bytes dst (take len bytes))
    else fault out_of_bounds

-- `none` is the null pointer. An `int` that is not negative is 0 after five rounds.
unfoldable pub finalize_packet : Heap → Packet → Run (Option Packet)
finalize_packet h p =
    let frame = do
      packet_len_bytes ← count_len_bytes 6 p.packet_len 0
      let shift = do
        moved ← move_up p.buf packet_len_bytes p.packet_len
        (q, n) ← packet_write_varint h (record p { buf = moved; index = 0 }) p.packet_len
        ok (
            some
              (record q { packet_len = p.packet_len + pos_part n; packet_id = finished_packet_id }))
      if ltb max_packet_len (p.packet_len + packet_len_bytes) then ok none else shift
    in if p.packet_id == finished_packet_id then ok (some p) else frame
