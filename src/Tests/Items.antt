-- ===== src/Tests/Items.antt =====
-- src/packet.c: an item slot in a packet.
use chowder.Prelude.{
  ℕ, ◌≡◌, refl, true, false, [], ◌∷◌, length, length-replicate, none, ok, replicate, arith, ◌>>=◌,
}
use chowder.Prelude.Int.{pos}
use chowder.Nbt.{null, chars, t_byte, empty, child, Nbt, Children}
use chowder.Nbt.Wire.{ChildrenFit, children_nodes}
use chowder.Packet.Buffer.{Packet, Heap, packet_mode_write}
use chowder.Packet.Buffer.Laws.{IsWriting}
use chowder.Packet.Unread.{unread, skip}
use chowder.Packet.RoundTrip.{received_behind}
use chowder.Packet.Slot.{Slot, packet_write_slot, packet_read_slot}
use chowder.Packet.Slot.RoundTrip.{item, item_bytes, packet_read_slot-packet_write_slot}

abbrev plenty : Heap
plenty = record { grants = λ _. true; stale = 0xcd }

abbrev started : Packet
started = record {
  packet_id = 7;
  packet_len = 0;
  data_len = 40;
  buf = replicate 40 0xcd;
  index = 0;
  packet_mode = packet_mode_write;
}

started-IsWriting : IsWriting started
started-IsWriting = record {
  mode = refl;
  at_end = refl;
  block = length-replicate {A = ℕ} 40 0xcd;
  inside = omega arith;
  small = omega arith;
}

abbrev one_child : Children
one_child = child (chars (97 ∷ [])) (t_byte 5) empty

one_child-ChildrenFit : ChildrenFit one_child
unfolding ChildrenFit
one_child-ChildrenFit = (
  record {
    nonzero = ((omega arith, omega arith), tt);
    some_chars = omega arith;
    short = omega arith;
  },
  omega arith,
  tt,
)

item_length : length (item_bytes 300 64 null one_child) ≡ 13
unfolding chowder.Packet.Varint.Encoding.varint chowder.Nbt.Wire.wire_name
    chowder.Nbt.Wire.wire_children chowder.Prelude.Bytes.be_bytes
item_length = refl

child_nodes : children_nodes one_child ≡ 3
unfolding children_nodes
child_nodes = refl

abbrev no_item : Slot
no_item = record { present = false; item_id = 0; item_count = 0; nbt = none }

packet_read_slot-packet_write_slot_example :
    (q : Packet) × (n : ℕ) × (packet_write_slot plenty started (item 300 64 null one_child)
      ≡ ok (q, pos n))
    × (packet_read_slot 9 (received_behind started q (5 ∷ [])) no_item
        ≡ ok (skip (received_behind started q (5 ∷ [])) n, item 300 64 null one_child, true))
    × (unread (skip (received_behind started q (5 ∷ [])) n) ≡ 5 ∷ [])
packet_read_slot-packet_write_slot_example =
    packet_read_slot-packet_write_slot plenty started 300 64 null one_child (5 ∷ []) 9 no_item
      (λ _. refl) started-IsWriting (omega arith) tt one_child-ChildrenFit
      (omega (arith, child_nodes)) (omega (arith, item_length)) (omega (arith, item_length))
