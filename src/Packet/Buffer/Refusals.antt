-- ===== src/Packet/Buffer/Refusals.antt =====
-- src/packet.c: every outcome of `packet_write_byte` and `packet_write_bytes`.
use chowder.Prelude.{
  ℕ, ◌+◌, ◌≤◌, ◌<◌, false, List, [], ◌∷◌, ◌≡◌, ◌⊎◌, inl, inr, leb, length, ok, Run, arith,
  Bool-cases,
}
use chowder.Prelude.Int.{ℤ, pos}
use chowder.Packet.Buffer.{
  Packet, Heap, packet_mode_write, max_packet_len, packet_too_big, packet_realloc_failed, grow_len,
  packet_try_resize, packet_write_byte, packet_write_bytes,
}
use chowder.Packet.Buffer.Laws.{
  IsWriting, HasRoom, Appended, packet_write_byte_room, packet_write_bytes_room,
}

-- `realloc` refuses the block that `n` more bytes want.
pub record Refused (h : Heap) (p : Packet) (n : ℕ) : Type 0 where
  pub fits : p.packet_len + n ≤ max_packet_len
  pub full : p.data_len < p.packet_len + n
  pub refused : h.grants (grow_len (p.packet_len + n) p.data_len (p.packet_len + n)) ≡ false

room_cases :
    (h : Heap) (p : Packet) (n : ℕ)
    → HasRoom h p n ⊎ Refused h p n ⊎ (max_packet_len < p.packet_len + n)
room_cases h p n = elim (Bool-cases (leb (p.packet_len + n) max_packet_len)) [
  | inr big ↦ inr (inr (ground arith))
  | inl fits ↦ elim (Bool-cases (leb (p.packet_len + n) p.data_len)) [
    | inl inside ↦ inl (record { fits = ground arith; granted = ground arith })
    | inr full ↦
        elim (Bool-cases (h.grants (grow_len (p.packet_len + n) p.data_len (p.packet_len + n)))) [
          | inl yes' ↦ inl (record { fits = ground arith; granted = ground arith })
          | inr no' ↦ inr (inl (record { fits = ground arith; full = ground arith; refused = no' }))
        ]
  ]
]

-- What a write of `added` may come to.
abbrev pub Outcome : Heap → Packet → List ℕ → Run (Packet × ℤ) → Type 0
Outcome h p added r =
    ((q : Packet) × (r ≡ ok (q, pos (length added))) × Appended p added q)
    ⊎ ((r ≡ ok (p, packet_realloc_failed)) × Refused h p (length added))
    ⊎ ((r ≡ ok (p, packet_too_big)) × (max_packet_len < p.packet_len + length added))

packet_write_byte-Refused :
    (h : Heap) (p : Packet) (b : ℕ)
    → p.packet_mode ≡ packet_mode_write
    → Refused h p 1
    → packet_write_byte h p b ≡ ok (p, packet_realloc_failed)
unfolding packet_write_byte packet_try_resize
packet_write_byte-Refused h p b m r = ground arith

packet_write_byte-big :
    (h : Heap) (p : Packet) (b : ℕ)
    → p.packet_mode ≡ packet_mode_write
    → max_packet_len < p.packet_len + 1
    → packet_write_byte h p b ≡ ok (p, packet_too_big)
unfolding packet_write_byte packet_try_resize
packet_write_byte-big h p b m r = ground arith

-- On a packet that is being written `packet_write_byte` never writes outside the block: it appends
-- the byte, returns 1 and leaves a packet that is being written; or it leaves the packet as it was
-- and returns `PACKET_REALLOC_FAILED`, where the block had to grow within the limit and `realloc`
-- refused it; or it leaves the packet as it was and returns `PACKET_TOO_BIG`, where the packet
-- would pass the limit.
pub packet_write_byte-Outcome :
    (h : Heap) (p : Packet) (b : ℕ) → IsWriting p → Outcome h p (b ∷ []) (packet_write_byte h p b)
packet_write_byte-Outcome h p b w = elim (room_cases h p 1) [
  | inl room ↦ inl (packet_write_byte_room h p b w room)
  | inr (inl r) ↦ inr (inl (packet_write_byte-Refused h p b w.mode r, r))
  | inr (inr big) ↦ inr (inr (packet_write_byte-big h p b w.mode big, big))
]

packet_write_bytes-Refused :
    (h : Heap) (p : Packet) (added : List ℕ)
    → p.packet_mode ≡ packet_mode_write
    → Refused h p (length added)
    → packet_write_bytes h p added ≡ ok (p, packet_realloc_failed)
unfolding packet_write_bytes packet_try_resize
packet_write_bytes-Refused h p added m r = ground arith

packet_write_bytes-big :
    (h : Heap) (p : Packet) (added : List ℕ)
    → p.packet_mode ≡ packet_mode_write
    → max_packet_len < p.packet_len + length added
    → packet_write_bytes h p added ≡ ok (p, packet_too_big)
unfolding packet_write_bytes packet_try_resize
packet_write_bytes-big h p added m r = ground arith

-- On a packet that is being written `packet_write_bytes` never writes outside the block: it appends
-- the bytes, returns their number and leaves a packet that is being written; or it leaves the
-- packet as it was and returns `PACKET_REALLOC_FAILED`, where the block had to grow within the
-- limit and `realloc` refused it; or it leaves the packet as it was and returns `PACKET_TOO_BIG`,
-- where the packet would pass the limit.
pub packet_write_bytes-Outcome :
    (h : Heap) (p : Packet) (added : List ℕ)
    → IsWriting p
    → Outcome h p added (packet_write_bytes h p added)
packet_write_bytes-Outcome h p added w = elim (room_cases h p (length added)) [
  | inl room ↦ inl (packet_write_bytes_room h p added w room)
  | inr (inl r) ↦ inr (inl (packet_write_bytes-Refused h p added w.mode r, r))
  | inr (inr big) ↦ inr (inr (packet_write_bytes-big h p added w.mode big, big))
]
