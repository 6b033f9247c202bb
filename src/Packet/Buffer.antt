-- ===== src/Packet/Buffer.antt =====
-- src/packet.c, src/packet.h: `struct packet` and the two writes that all others go through.
-- A C `int` that is never negative here (`packet_len` and `index` while writing) is a number;
-- what `realloc` does is an argument, since it may refuse.
pub mod Laws
pub mod Refusals
use chowder.Prelude.{
  ℕ, zero, suc, ◌+◌, ◌-◌, Bool, true, false, List, [], ◌++◌, if◌then◌else◌, ltb, leb, length, set,
  splice, replicate, Run, ok, fault, out_of_bounds, assert, ◌>>=◌, ◌>>◌,
}
use chowder.Prelude.Int.{ℤ, pos, negsuc}

-- `PACKET_VARINT_TOO_LONG` to `PACKET_STRING_TOO_LONG`, -2 to -5.
abbrev pub packet_varint_too_long : ℤ
packet_varint_too_long = negsuc 1

abbrev pub packet_too_big : ℤ
packet_too_big = negsuc 2

abbrev pub packet_realloc_failed : ℤ
packet_realloc_failed = negsuc 3

abbrev pub packet_string_too_long : ℤ
packet_string_too_long = negsuc 4

abbrev pub max_packet_len : ℕ
max_packet_len = 2097151

abbrev pub packet_block_size : ℕ
packet_block_size = 4096

pub data PacketMode : Type 0 where
  packet_mode_read packet_mode_write : PacketMode

abbrev pub is_write : PacketMode → Bool
is_write packet_mode_write = true
is_write packet_mode_read = false

abbrev pub is_read : PacketMode → Bool
is_read packet_mode_write = false
is_read packet_mode_read = true

-- `buf` is the block that the field `data` points to.
pub record Packet : Type 0 where
  pub packet_id : ℕ
  pub packet_len : ℕ
  pub data_len : ℕ
  pub buf : List ℕ
  pub index : ℕ
  pub packet_mode : PacketMode

-- Whether `realloc` finds a block of so many bytes, and what a new byte of it holds.
pub record Heap : Type 0 where
  pub grants : ℕ → Bool
  pub stale : ℕ

-- `memset` to zero, and a block of `PACKET_BLOCK_SIZE` bytes from `malloc`.
unfoldable pub packet_init : Heap → Packet
packet_init h = record {
  packet_id = 0;
  packet_len = 0;
  data_len = packet_block_size;
  buf = replicate packet_block_size h.stale;
  index = 0;
  packet_mode = packet_mode_read;
}

-- `while (new_data_len < new_size) new_data_len += PACKET_BLOCK_SIZE`, with the rounds left.
unfoldable pub grow_len : ℕ → ℕ → ℕ → ℕ
grow_len zero new_data_len new_size = new_data_len
grow_len (suc f) new_data_len new_size =
    let more = grow_len f (new_data_len + packet_block_size) new_size in
    if ltb new_data_len new_size then more else new_data_len

-- Each round adds a block, so `new_size` rounds are enough.
unfoldable pub packet_try_resize : Heap → Packet → ℕ → Packet × ℤ
packet_try_resize h p new_size =
    let new_data_len = grow_len new_size p.data_len new_size in
    if ltb max_packet_len new_size
    then (p, packet_too_big)
    else if ltb p.data_len new_size
    then if h.grants new_data_len
      then (
        record p {
          data_len = new_data_len;
          buf = p.buf ++ replicate (new_data_len - p.data_len) h.stale;
        },
        pos 0,
      )
      else (p, packet_realloc_failed)
    else (p, pos 0)

-- `data[i] = b`
abbrev pub store : List ℕ → ℕ → ℕ → Run (List ℕ)
store bytes i b = if ltb i (length bytes) then ok (set bytes i b) else fault out_of_bounds

-- `memcpy(data + i, from, length from)`
abbrev pub copy_in : List ℕ → ℕ → List ℕ → Run (List ℕ)
copy_in bytes i from =
    if leb (i + length from) (length bytes) then ok (splice bytes i from) else fault out_of_bounds

abbrev write_at : Run (List ℕ) → Packet → ℕ → Run (Packet × ℤ)
write_at (ok bytes) p n =
    ok (record p { packet_len = p.packet_len + n; buf = bytes; index = p.index + n }, pos n)
write_at (fault e) p n = fault e

after_resize : Packet × ℤ → (Packet → Run (Packet × ℤ)) → Run (Packet × ℤ)
after_resize (p, pos zero) k = k p
after_resize (p, err) k = ok (p, err)

unfoldable pub packet_write_byte : Heap → Packet → ℕ → Run (Packet × ℤ)
unfolding after_resize
packet_write_byte h p b = do
  assert (is_write p.packet_mode)
  after_resize (packet_try_resize h p (p.packet_len + 1)) λ q. write_at (store q.buf q.index b) q 1

unfoldable pub packet_write_bytes : Heap → Packet → List ℕ → Run (Packet × ℤ)
unfolding after_resize
packet_write_bytes h p bytes = do
  assert (is_write p.packet_mode)
  after_resize (packet_try_resize h p (p.packet_len + length bytes))
      λ q. write_at (copy_in q.buf q.index bytes) q (length bytes)
