-- ===== src/Packet/Read.antt =====
-- src/packet.c: the typed reads. An integer that is read is its bit pattern.
pub mod Laws
pub mod Short
pub mod Long
pub mod Text
use chowder.Prelude.{
  ℕ, zero, suc, ◌+◌, ◌-◌, ◌*◌, ◌/◌, ◌%◌, ◌^◌, Bool, true, false, not, ◌&&◌, List, [], ◌∷◌,
  if◌then◌else◌, ltb, ◌==◌, bit_or, bit_and, get_elem?, set, length, replicate, Run, ok, fault,
  need, out_of_bounds, ◌>>=◌,
}
use mathlib.Core.Option
use mathlib.Core.Option.{Option, none, some}
use chowder.Prelude.Int.{ℤ, pos, negsuc, ltb_ℤ}
use chowder.Prelude.Bytes.{be_value}
use chowder.Packet.Buffer.{Packet, packet_string_too_long, store}
use chowder.Packet.Varint.{packet_read_byte, packet_read_varint, int_ge}

-- The loop of `packet_read_bytes` with `left` bytes to go: the packet, `buf`, `i` and `in_bounds`.
unfoldable pub read_bytes_loop : ℕ → Packet → List ℕ → ℕ → Run (Packet × List ℕ × ℕ × Bool)
read_bytes_loop zero p buf i = ok (p, buf, i, true)
read_bytes_loop (suc left) p buf i = do
  (in_bounds, b, q) ← packet_read_byte p
  buf' ← store buf i b
  let rest = read_bytes_loop left q buf' (i + 1)
  if in_bounds then rest else ok (q, buf', i + 1, false)

-- Where a byte is missing, `buf[0] = buf[i]` reads behind the last byte that was tried.
unfoldable pub packet_read_bytes : Packet → ℕ → List ℕ → Run (Packet × List ℕ × Bool)
unfolding read_bytes_loop
packet_read_bytes p buf_len buf = do
  (q, buf', i, in_bounds) ← read_bytes_loop buf_len p buf 0
  let short = do
    last ← need out_of_bounds (get_elem? buf' i)
    buf'' ← store buf' 0 last
    ok (q, buf'', false)
  if in_bounds then ok (q, buf', true) else short

-- `val` is four bytes on the stack; `stack` is what they hold before.
unfoldable pub packet_read_int : Packet → List ℕ → Run (Packet × ℕ × Bool)
unfolding packet_read_bytes
packet_read_int p stack = do
  (q, val, in_bounds) ← packet_read_bytes p 4 stack
  ok (q, be_value val, in_bounds)

unfoldable pub packet_read_float : Packet → List ℕ → Run (Packet × ℕ × Bool)
unfolding packet_read_int
packet_read_float p stack = packet_read_int p stack

-- `none` is `false`; `*s` is then unset or half set.
unfoldable pub packet_read_short : Packet → Run (Packet × Option ℕ)
packet_read_short p = do
  (got_high, b, q) ← packet_read_byte p
  let rest = do
    (got_low, b', r) ← packet_read_byte q
    ok (r, if got_low then some ((b * 2 ^ 8 + b') % 2 ^ 16) else none)
  if got_high then rest else ok (q, none)

-- The loop of `packet_read_long` with `left` bytes to go, so `i` is `left - 1`: the packet, `hl`
-- and whether `i` came to -1.
unfoldable pub read_long_loop : ℕ → Packet → ℕ → Run (Packet × ℕ × Bool)
read_long_loop zero p hl = ok (p, hl, true)
read_long_loop (suc left) p hl = do
  (got, b, q) ← packet_read_byte p
  let rest = read_long_loop left q (bit_or hl (b * 2 ^ (left * 8) % 2 ^ 64))
  if got then rest else ok (q, hl, false)

unfoldable pub packet_read_long : Packet → Run (Packet × Option ℕ)
unfolding read_long_loop
packet_read_long p = do
  (q, hl, whole) ← read_long_loop 8 p 0
  ok (q, if whole then some hl else none)

unfoldable pub packet_read_double : Packet → Run (Packet × Option ℕ)
unfolding packet_read_long
packet_read_double p = packet_read_long p

-- `*x = l >> 38` cut to an `int32_t`, `*y = l & 0xFFF` and `*z = l << 26 >> 38`.
abbrev pub position_x : ℕ → ℕ
position_x l = l / 2 ^ 38 % 2 ^ 32

abbrev pub position_y : ℕ → ℕ
position_y l = bit_and l 0xFFF

abbrev pub position_z : ℕ → ℕ
position_z l = l * 2 ^ 26 % 2 ^ 64 / 2 ^ 38 % 2 ^ 32

unfoldable pub packet_read_position : Packet → Run (Packet × Option (ℕ × ℕ × ℕ))
unfolding packet_read_long
packet_read_position p = do
  (q, l) ← packet_read_long p
  ok (q, Option.map (λ v. (position_x v, position_y v, position_z v)) l)

-- The loop of `packet_read_string` with `left` places of `buf` to go: the packet, `buf` and `i`.
unfoldable pub read_string_loop : ℕ → Packet → ℕ → List ℕ → ℕ → Run (Packet × List ℕ × ℕ)
read_string_loop zero p len buf i = ok (p, buf, i)
read_string_loop (suc left) p len buf i =
    let round = do
      (got, b, q) ← packet_read_byte p
      buf' ← store buf i b
      let rest = read_string_loop left q len buf' (i + 1)
      if got then rest else ok (q, buf', i)
    in if int_ge i len then ok (p, buf, i) else round

-- The integer that a pattern of 32 bits stands for.
abbrev pub int32 : ℕ → ℤ
int32 w = if ltb w (2 ^ 31) then pos w else negsuc (2 ^ 32 - w - 1)

-- On a bad length the function returns `len`, what was read of it, and not the error.
unfoldable pub packet_read_string : Packet → ℕ → List ℕ → Run (Packet × List ℕ × ℤ)
unfolding read_string_loop packet_read_varint
packet_read_string p buf_len buf = do
  (q, len, n) ← packet_read_varint p
  let body = do
    (r, buf', i) ← read_string_loop (buf_len - 1) q len buf 0
    let done = do buf'' ← store buf' i 0; ok (r, buf'', pos i)
    if i == len then done else ok (r, buf', packet_string_too_long)
  if ltb_ℤ n (pos 0) then ok (q, buf, int32 len) else body
