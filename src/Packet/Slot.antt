-- ===== src/Packet/Slot.antt =====
-- src/packet.c, src/slot.h: NBT trees and item slots in packets.
pub mod RoundTrip
use chowder.Prelude.{
  ℕ, suc, ◌+◌, Bool, true, false, not, ◌&&◌, List, Option, none, some, if◌then◌else◌, ◌==◌, drop,
  Run, ok, ◌>>=◌,
}
use chowder.Prelude.Int.{ℤ, pos, negsuc, ◌+ℤ◌, ltb_ℤ}
use chowder.Nbt.{Nbt, tag_end}
use chowder.Nbt.Read.{sub_size}
use chowder.Nbt.Unpack.{nbt_unpack}
use chowder.Nbt.Pack.{nbt_pack}
use chowder.Packet.Buffer.{Packet, Heap, packet_write_byte, packet_write_bytes}
use chowder.Packet.Varint.{packet_read_byte, packet_read_varint, packet_write_varint}

-- `struct slot`. The count is the pattern of an `int8_t`, the id that of an `int32_t`.
pub record Slot : Type 0 where
  pub present : Bool
  pub item_id : ℕ
  pub item_count : ℕ
  pub nbt : Option Nbt

-- The fuel is that of `nbt_unpack`.
unfoldable pub packet_read_nbt : ℕ → Packet → Run (Packet × Option Nbt × Bool)
packet_read_nbt f p = do
  unpacked ← nbt_unpack f (sub_size p.packet_len p.index) (drop p.index p.buf)
  ok (elim unpacked [
    | none ↦ (p, none, false)
    | some (nbt_len, nbt) ↦ (record p { index = p.index + nbt_len }, some nbt, not (nbt_len == 0))
  ])

abbrev pub is_zero : ℤ → Bool
is_zero (pos n) = n == 0
is_zero (negsuc n) = false

-- The slot is what `*s` holds afterwards.
unfoldable pub packet_read_slot : ℕ → Packet → Slot → Run (Packet × Slot × Bool)
unfolding packet_read_nbt
packet_read_slot f p s = do
  (got, b, q) ← packet_read_byte p
  let s1 : Slot = record s { present = not (b == 0) }
  let item = do
    (r, id, n) ← packet_read_varint q
    let s2 : Slot = record s1 { item_id = id }
    let count = do
      (got_count, c, t) ← packet_read_byte r
      let s3 : Slot = record s2 { item_count = c }
      let tree = do
        (u, nbt, done) ← packet_read_nbt f t
        ok (u, elim nbt [ none ↦ s3 | some v ↦ record s3 { nbt = some v } ], done)
      if got_count then tree else ok (t, s3, false)
    if is_zero n then ok (r, s2, false) else count
  if not got then ok (q, s1, false) else if not (b == 0) then item else ok (q, s1, true)

unfoldable pub packet_write_nbt : Heap → Packet → Nbt → Run (Packet × ℤ)
packet_write_nbt h p nbt = do nbt_data ← nbt_pack nbt; packet_write_bytes h p nbt_data

-- `if (n < 0) return n; total += n;` and what follows.
abbrev pub add_or_return : Run (Packet × ℤ) → ℤ → (Packet → ℤ → Run (Packet × ℤ)) → Run (Packet × ℤ)
add_or_return write total next = do
  (q, n) ← write
  let more = next q (total +ℤ n)
  if ltb_ℤ n (pos 0) then ok (q, n) else more

unfoldable pub packet_write_slot : Heap → Packet → Slot → Run (Packet × ℤ)
unfolding packet_write_nbt
packet_write_slot h p s =
    add_or_return (packet_write_byte h p (if s.present then 1 else 0)) (pos 0) λ q total.
      let item = add_or_return (packet_write_varint h q s.item_id) total λ r total'.
        add_or_return (packet_write_byte h r s.item_count) total' λ t total''.
          add_or_return
            (elim s.nbt [ none ↦ packet_write_byte h t tag_end | some v ↦ packet_write_nbt h t v ])
            total'' λ u all. ok (u, all) in
      if s.present then item else ok (q, total)
