-- ===== src/Packet/Slot/RoundTrip.antt =====
-- src/packet.c: an item slot that is written and read again.
use chowder.Prelude.{
  ok_injective, ℕ, ◌+◌, ◌-◌, ◌^◌, ◌≤◌, ◌<◌, ◌≡◌, sym, ap, ◌∙◌, true, false, List, ◌∷◌, ◌++◌, length,
  length-append, length-drop, take, take-all, drop, drop-append, some, ok, ◌>>=◌, arith,
}
use mathlib.Core.Path.{transport}
use mathlib.Core.List.{append_assoc}
use chowder.Prelude.Int.{pos, ltb_ℤ, ◌+ℤ◌}
use chowder.Nbt.{Name, Children, Nbt, compound}
use chowder.Nbt.Read.{sub_size}
use chowder.Nbt.Unpack.{nbt_unpack}
use chowder.Nbt.Wire.{IsRootName, ChildrenFit, children_nodes}
use chowder.Nbt.Written.{root_bytes, nbt_pack-root_bytes}
use chowder.Nbt.Parsed.{sub_size-le}
use chowder.Nbt.Whole.{nbt_unpack-nbt_pack}
use chowder.Packet.Buffer.{Packet, Heap, max_packet_len, packet_write_byte, packet_write_bytes}
use chowder.Packet.Buffer.Laws.{
  IsWriting, Appended, Appended-trans, packet_write_byte_room, packet_write_bytes_room,
}
use chowder.Packet.Varint.{packet_write_varint}
use chowder.Packet.Varint.Encoding.{varint}
use chowder.Packet.Varint.Write.{Plenty, Plenty-HasRoom, packet_write_varint-Appended}
use chowder.Packet.Unread.{
  unread, received, received-IsReading, received-unread, skip, skip-IsReading,
  packet_read_byte_some,
}
use chowder.Packet.RoundTrip.{
  packet_read_varint-varint, received_behind, added_bytes, Appended-added_bytes,
}
use chowder.Packet.Slot.{
  Slot, is_zero, packet_write_slot, packet_read_slot, packet_read_nbt, packet_write_nbt,
}

abbrev pub item : ℕ → ℕ → Name → Children → Slot
item id count name cs = record {
  present = true;
  item_id = id;
  item_count = count;
  nbt = some (record { name = name; value = compound cs });
}

abbrev pub item_bytes : ℕ → ℕ → Name → Children → List ℕ
item_bytes id count name cs = 1 ∷ (varint 4 id ++ (count ∷ root_bytes name cs))

not_negative : (n : ℕ) → ltb_ℤ (pos n) (pos 0) ≡ false
not_negative n = ground arith

read_tree :
    (f : ℕ) (p : Packet) (n : ℕ) (nbt : Nbt)
    → 0 < n
    → nbt_unpack f (sub_size p.packet_len p.index) (drop p.index p.buf) ≡ ok (some (n, nbt))
    → packet_read_nbt f p ≡ ok (skip p n, some nbt, true)
unfolding packet_read_nbt
read_tree f p n nbt h e = rw (e, ◌>>=◌) (ground (arith, h))

varint_some : (id : ℕ) → is_zero (pos (length (varint 4 id))) ≡ false
unfolding varint
varint_some id = ground arith

module _ (id count : ℕ) (name : Name) (cs : Children) (named : IsRootName name)
    (fit : ChildrenFit cs) where
  nbt_written :
      (h : Heap) (p q : Packet) (n : ℕ)
      → packet_write_bytes h p (root_bytes name cs) ≡ ok (q, pos n)
      → packet_write_nbt h p (record { name = name; value = compound cs }) ≡ ok (q, pos n)
  unfolding packet_write_nbt
  nbt_written h p q n e = rw (nbt_pack-root_bytes name cs named fit, ◌>>=◌) e

  write_steps :
      (h : Heap) (p q1 q2 q3 q4 : Packet) (a b : ℕ)
      → packet_write_byte h p 1 ≡ ok (q1, pos 1)
      → packet_write_varint h q1 id ≡ ok (q2, pos a)
      → packet_write_byte h q2 count ≡ ok (q3, pos 1)
      → packet_write_nbt h q3 (record { name = name; value = compound cs }) ≡ ok (q4, pos b)
      → packet_write_slot h p (item id count name cs) ≡ ok (q4, pos (1 + a + 1 + b))
  unfolding packet_write_slot ◌+ℤ◌
  write_steps h p q1 q2 q3 q4 a b e1 e2 e3 e4 =
      rw (e1, ◌>>=◌, e2, ◌>>=◌, not_negative a, e3, ◌>>=◌, e4, ◌>>=◌, not_negative b) (ground arith)

  packet_write_slot-Appended :
      (h : Heap) (p : Packet)
      → Plenty h
      → IsWriting p
      → id < 2 ^ 32
      → p.packet_len + length (item_bytes id count name cs) ≤ max_packet_len
      → (q : Packet) × (packet_write_slot h p (item id count name cs)
          ≡ ok (q, pos (length (item_bytes id count name cs))))
        × Appended p (item_bytes id count name cs) q
  unfolding packet_write_slot
  packet_write_slot-Appended h p plenty w small fits =
      let v = varint 4 id in
      let t = root_bytes name cs in
      let sizes : length (item_bytes id count name cs) ≡ 1 + (length v + (1 + length t)) =
        omega (arith, length-append v (count ∷ t)) in
      let (q1, e1, a1) =
        packet_write_byte_room h p 1 w (Plenty-HasRoom h p 1 plenty (omega (arith, fits, sizes))) in
      let (q2, e2, a2) =
        packet_write_varint-Appended h plenty q1 id a1.writing small
          (omega (arith, fits, sizes, a1.len)) in
      let (q3, e3, a3) =
        packet_write_byte_room h q2 count a2.writing
          (Plenty-HasRoom h q2 1 plenty (omega (arith, fits, sizes, a1.len, a2.len))) in
      let (q4, e4, a4) = packet_write_bytes_room h q3 t a3.writing (
        Plenty-HasRoom h q3 (length t) plenty
          (omega (arith, fits, sizes, a1.len, a2.len, a3.len))) in
      let packed : packet_write_nbt h q3 (record { name = name; value = compound cs })
          ≡ ok (q4, pos (length t)) =
        nbt_written h q3 q4 (length t) e4 in
      (
        q4,
        write_steps h p q1 q2 q3 q4 (length v) (length t) e1 e2 e3 packed
            ∙ ap (λ (n : ℕ). ok (q4, pos n)) {x = 1 + length v + 1 + length t}
                {y = length (item_bytes id count name cs)} (omega (arith, sizes)),
        Appended-trans a1 (Appended-trans a2 (Appended-trans a3 a4)),
      )

  -- The tree behind the other bytes.
  nbt_read :
      (f i : ℕ) (all rest : List ℕ)
      → drop i all ≡ root_bytes name cs ++ rest
      → i ≤ length all
      → length all ≤ max_packet_len
      → children_nodes cs ≤ f
      → nbt_unpack f (sub_size (length all) i) (drop i all)
        ≡ ok (some (length (root_bytes name cs), record { name = name; value = compound cs }))
  nbt_read f i all rest here inside small enough =
      let t = root_bytes name cs in
      let left : length (t ++ rest) ≡ length all - i = ap length (sym here) ∙ length-drop i all in
      let covers : length t ≤ length all - i = omega (arith, left, length-append t rest) in
      let (bytes, packed, unpacked) =
        nbt_unpack-nbt_pack name cs f (length all - i) rest named fit enough covers
          (omega (arith, small)) in
      let same : bytes ≡ t =
        ok_injective bytes t (sym packed ∙ nbt_pack-root_bytes name cs named fit) in
      rw (sub_size-le (length all) i inside (omega (arith, small)), here)
        (transport
          (ap
            (λ u.
              nbt_unpack f (length all - i) (u ++ rest)
              ≡ ok (some (length u, record { name = name; value = compound cs })))
            same)
          unpacked)

  packet_read_slot-item_bytes :
      (f : ℕ) (all rest : List ℕ) (s : Slot)
      → all ≡ item_bytes id count name cs ++ rest
      → id < 2 ^ 32
      → length all ≤ max_packet_len
      → children_nodes cs ≤ f
      → packet_read_slot f (received all) s
        ≡ ok (
          skip (received all) (length (item_bytes id count name cs)),
          item id count name cs,
          true,
        )
  unfolding packet_read_slot
  packet_read_slot-item_bytes f all rest s same small fits enough =
      let v = varint 4 id in
      let t = root_bytes name cs in
      let sizes : length all ≡ 1 + (length v + (1 + length t)) + length rest =
        ap length same
        ∙ omega (arith, length-append (v ++ (count ∷ t)) rest, length-append v (count ∷ t)) in
      let p0 = received all in
      let r0 = received-IsReading all fits in
      let (b1, u1) =
        packet_read_byte_some p0 1 ((v ++ (count ∷ t)) ++ rest) r0 (received-unread all ∙ same) in
      let (b2, u2) =
        packet_read_varint-varint id ((count ∷ t) ++ rest) (skip p0 1) (skip-IsReading 1 r0) small
          (u1 ∙ append_assoc v (count ∷ t) rest) in
      let p2 = skip (skip p0 1) (length v) in
      let (b3, u3) =
        packet_read_byte_some p2 count (t ++ rest) (skip-IsReading (length v) (skip-IsReading 1 r0))
          u2 in
      let i = 0 + 1 + length v + 1 in
      let here : drop i all ≡ t ++ rest =
        ap (drop i) (sym (take-all (length all) all (omega arith))) ∙ u3 in
      let tree = nbt_read f i all rest here (omega (arith, sizes)) fits enough in
      let end : i + length t ≡ 0 + length (item_bytes id count name cs) =
        omega (arith, length-append v (count ∷ t)) in
      rw
        (
          b1,
          ◌>>=◌,
          b2,
          ◌>>=◌,
          varint_some id,
          b3,
          ◌>>=◌,
          read_tree f (skip p2 1) (length t) (record { name = name; value = compound cs })
              (omega arith) tree,
          ◌>>=◌,
        )
        (ap (λ (n : ℕ). ok (record p0 { index = n }, item id count name cs, true)) end)

unread_behind :
    (all bytes rest : List ℕ)
    → all ≡ bytes ++ rest
    → unread (skip (received all) (length bytes)) ≡ rest
unread_behind all bytes rest same =
    ap (λ (n : ℕ). drop n (take (length all) all)) {x = 0 + length bytes} {y = length bytes}
      (omega arith)
    ∙ ap (drop (length bytes)) (take-all (length all) all (omega arith))
    ∙ ap (drop (length bytes)) same
    ∙ drop-append bytes rest

-- Where the allocator grants every block, `packet_write_slot` of a slot that is present, with an id
-- below 2 ^ 32 and a compound tree that fits the format, to a packet that is being written and
-- stays within the limit succeeds, and on a packet that is received with the bytes it added and
-- `rest`, within the limit too, and with fuel for the tree, `packet_read_slot` returns true and the
-- same slot, and leaves `rest` unread.
pub packet_read_slot-packet_write_slot :
    (h : Heap) (p : Packet) (id count : ℕ) (name : Name) (cs : Children) (rest : List ℕ) (f : ℕ)
    (s : Slot)
    → Plenty h
    → IsWriting p
    → id < 2 ^ 32
    → IsRootName name
    → ChildrenFit cs
    → children_nodes cs ≤ f
    → p.packet_len + length (item_bytes id count name cs) ≤ max_packet_len
    → length (item_bytes id count name cs) + length rest ≤ max_packet_len
    → (q : Packet) × (n : ℕ) × (packet_write_slot h p (item id count name cs) ≡ ok (q, pos n))
      × (packet_read_slot f (received_behind p q rest) s
          ≡ ok (skip (received_behind p q rest) n, item id count name cs, true))
      × (unread (skip (received_behind p q rest) n) ≡ rest)
packet_read_slot-packet_write_slot h p id count name cs rest f s plenty w small named fit enough
      fits fits' =
    let bytes = item_bytes id count name cs in
    let (q, wrote, a) =
      packet_write_slot-Appended id count name cs named fit h p plenty w small fits in
    let same : added_bytes p q ++ rest ≡ bytes ++ rest =
      ap (λ t. t ++ rest) (Appended-added_bytes bytes w a) in
    let len : length (added_bytes p q ++ rest) ≤ max_packet_len =
      omega (arith, ap length same, length-append bytes rest, fits') in
    (
      q,
      length bytes,
      wrote,
      packet_read_slot-item_bytes id count name cs named fit f (added_bytes p q ++ rest) rest s same
          small len enough,
      unread_behind (added_bytes p q ++ rest) bytes rest same,
    )
