-- ===== src/Packet/Varint.antt =====
-- src/packet.c: `read_varint_gen` over any source of bytes, `packet_read_byte` as such a source, and
-- `packet_write_varint`. A C `int` that is read is its bit pattern, below 2 ^ 32.
pub mod Encoding
pub mod Write
pub mod Read
use chowder.Prelude.{
  ℕ, zero, suc, ◌+◌, ◌-◌, ◌*◌, ◌/◌, ◌%◌, ◌^◌, Bool, true, false, not, ◌&&◌, ◌||◌, if◌then◌else◌,
  ltb, leb, ◌==◌, bit_and, bit_or, get_elem?, Run, ok, fault, assert, need, out_of_bounds, no_fuel,
  ◌>>=◌, ◌>>◌,
}
use chowder.Prelude.Int.{ℤ, pos, negsuc}
use chowder.Packet.Buffer.{
  Packet, Heap, is_read, max_packet_len, packet_varint_too_long, packet_write_byte,
}

-- `(int8_t) b`
abbrev pub int8 : ℕ → ℤ
int8 b = if ltb b 128 then pos b else negsuc (255 - b)

-- `i >= len` for an `int` `i` that is not negative and the pattern `len` of an `int`.
abbrev pub int_ge : ℕ → ℕ → Bool
int_ge i len = leb (2 ^ 31) len || leb len i

-- A `read_byte_func`: whether a byte was read, what `*b` is set to, and the source after it.
abbrev pub ReadByte {ℓ} : Type ℓ → Type ℓ
ReadByte S = S → Run (Bool × ℕ × S)

-- `((int32_t) b & 0x7f) << (7 * n)`. A sixth byte would be shifted by 35, which C leaves
-- undefined; the model takes 0 there. The function returns `PACKET_VARINT_TOO_LONG` in that case.
abbrev pub varint_group : ℕ → ℕ → ℕ
varint_group b n = if ltb n 5 then bit_and b 0x7f * 2 ^ (7 * n) % 2 ^ 32 else 0

module _ {ℓ} {S : Type ℓ} (rb : ReadByte S) where
  -- The loop after `n` bytes with the rounds left: the source, `*v` and the result.
  unfoldable pub read_varint_loop : ℕ → S → ℕ → ℕ → Run (S × ℕ × ℤ)
  read_varint_loop zero src n v = fault no_fuel
  read_varint_loop (suc f) src n v = do
    (got, b, src') ← rb src
    let v' = bit_or v (varint_group b n)
    let rest = read_varint_loop f src' (n + 1) v'
    if not got
        then ok (src', v, int8 b)
        else if not (bit_and b 0x80 == 0) && leb (n + 1) 5
        then rest
        else if ltb 5 (n + 1)
        then ok (src', v', packet_varint_too_long)
        else ok (src', v', pos (n + 1))

  -- A sixth byte ends the loop.
  unfoldable pub read_varint_gen : S → Run (S × ℕ × ℤ)
  unfolding read_varint_loop
  read_varint_gen src = read_varint_loop 6 src 0 0

unfoldable pub packet_read_byte : ReadByte Packet
packet_read_byte p = do
  assert (is_read p.packet_mode)
  let take_one = do
    b ← need out_of_bounds (get_elem? p.buf p.index)
    ok (true, b, record p { index = p.index + 1 })
  if leb max_packet_len p.index || int_ge p.index p.packet_len then ok (false, 0, p) else take_one

unfoldable pub packet_read_varint : Packet → Run (Packet × ℕ × ℤ)
unfolding read_varint_gen packet_read_byte
packet_read_varint p = read_varint_gen packet_read_byte p

-- The loop on the `uint32_t` `i` with the rounds left. What `packet_write_byte` returns is dropped.
unfoldable pub write_varint_loop : Heap → ℕ → Packet → ℕ → ℕ → Run (Packet × ℤ)
write_varint_loop h zero p i n = fault no_fuel
write_varint_loop h (suc f) p i n =
    let temp = bit_and i 0x7f in
    let byte = if i / 2 ^ 7 == 0 then temp else bit_or temp 0x80 in
    packet_write_byte h p byte >>= λ (q, _).
    let rest = write_varint_loop h f q (i / 2 ^ 7) (n + 1) in
    if i / 2 ^ 7 == 0 then ok (q, pos (n + 1)) else rest

-- Five groups of seven bits hold a `uint32_t`.
unfoldable pub packet_write_varint : Heap → Packet → ℕ → Run (Packet × ℤ)
unfolding write_varint_loop
packet_write_varint h p i = write_varint_loop h 5 p i 0
