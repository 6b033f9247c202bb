-- ===== src/Packet/Write.antt =====
-- src/packet.c: the typed writes. A float or a double is its bit pattern, as `memcpy` takes it.
pub mod Laws
use chowder.Prelude.{
  ℕ, zero, suc, ◌+◌, ◌%◌, Bool, true, false, List, [], ◌∷◌, if◌then◌else◌, ◌==◌, get_elem?, Run, ok,
  need, out_of_bounds, ◌>>=◌,
}
use chowder.Prelude.Int.{ℤ, pos, negsuc, ◌+ℤ◌, ltb_ℤ}
use chowder.Prelude.Bytes.{be_bytes}
use chowder.Packet.Buffer.{Packet, Heap, packet_mode_write, packet_write_byte, packet_write_bytes}
use chowder.Packet.Varint.{packet_write_varint}

unfoldable pub packet_write_short : Heap → Packet → ℕ → Run (Packet × ℤ)
packet_write_short h p s = packet_write_bytes h p (be_bytes 2 s)

unfoldable pub packet_write_int : Heap → Packet → ℕ → Run (Packet × ℤ)
packet_write_int h p i = packet_write_bytes h p (be_bytes 4 i)

unfoldable pub packet_write_long : Heap → Packet → ℕ → Run (Packet × ℤ)
packet_write_long h p l = packet_write_bytes h p (be_bytes 8 l)

unfoldable pub packet_write_float : Heap → Packet → ℕ → Run (Packet × ℤ)
unfolding packet_write_int
packet_write_float h p f = packet_write_int h p f

unfoldable pub packet_write_double : Heap → Packet → ℕ → Run (Packet × ℤ)
unfolding packet_write_long
packet_write_double h p d = packet_write_long h p d

abbrev is_one : ℤ → Bool
is_one (pos n) = n == 1
is_one (negsuc n) = false

-- The loop of `packet_write_string` with `left` characters to go: the packet, `i`, `n` and
-- `n_bytes` at its end.
unfoldable pub write_string_loop : Heap → List ℕ → ℕ → Packet → ℕ → ℤ → ℤ → Run (Packet × ℕ × ℤ × ℤ)
write_string_loop h s zero p i n n_bytes = ok (p, i, n, n_bytes)
write_string_loop h s (suc left) p i n n_bytes =
    let round = do
      c ← need out_of_bounds (get_elem? s i)
      (q, n') ← packet_write_byte h p c
      write_string_loop h s left q (i + 1) n' (n_bytes +ℤ n')
    in if is_one n then round else ok (p, i, n, n_bytes)

unfoldable pub packet_write_string : Heap → Packet → ℕ → List ℕ → Run (Packet × ℤ)
unfolding write_string_loop
packet_write_string h p len s = do
  (q, len_bytes) ← packet_write_varint h p len
  let body = do
    (r, i, n, n_bytes) ← write_string_loop h s len q 0 (pos 1) (pos 0)
    ok (r, if i == len then len_bytes +ℤ n_bytes else n)
  if ltb_ℤ len_bytes (pos 0) then ok (q, len_bytes) else body

-- The id is stored as an `int` and written as one byte; what the write returns is dropped.
unfoldable pub make_packet : Heap → Packet → ℕ → Run Packet
make_packet h p id = do
  (q, _) ←
      packet_write_byte h
        (record p { packet_id = id; packet_len = 0; index = 0; packet_mode = packet_mode_write })
        (id % 256)
  ok q
