-- ===== src/Packet/Buffer/Laws.antt =====
-- src/packet.c: what `packet_try_resize`, `packet_write_byte` and `packet_write_bytes` leave of a
-- packet that is being written.
use chowder.Prelude.{
  ℕ, zero, suc, ◌+◌, ◌-◌, ◌≤◌, ◌<◌, true, List, [], ◌∷◌, ◌++◌, ◌≡◌, refl, ap, ◌∙◌, inl, inr, ltb,
  length, set, take, splice, replicate, ok, arith, length-append, length-replicate, length-set,
  take-set, take-splice, length-splice, Bool-cases, take_prefix,
}
use mathlib.Core.List.{append_assoc}
use native.Mathlib.Numerals.{add-one}
use chowder.Prelude.Int.{pos}
use chowder.Packet.Buffer.{
  Packet, packet_mode_write, Heap, max_packet_len, packet_block_size, grow_len, packet_try_resize,
  packet_write_byte, packet_write_bytes,
}

-- The bytes that have been written.
abbrev pub contents : Packet → List ℕ
contents p = take p.packet_len p.buf

-- A packet between `make_packet` and `finalize_packet`.
pub record IsWriting (p : Packet) : Type 0 where
  pub mode : p.packet_mode ≡ packet_mode_write
  pub at_end : p.index ≡ p.packet_len
  pub block : length p.buf ≡ p.data_len
  pub inside : p.packet_len ≤ p.data_len
  pub small : p.packet_len ≤ max_packet_len

-- Rounds enough for the missing bytes leave a block that holds them.
pub grow_len_bounds : (f d n : ℕ) → n ≤ d + f → (d ≤ grow_len f d n) × (n ≤ grow_len f d n)
unfolding grow_len
grow_len_bounds zero d n h = ground arith
grow_len_bounds (suc f) d n h = ground (arith, grow_len_bounds f (d + packet_block_size) n)

-- `n` more bytes fit, and `realloc` grants the block for them.
pub record HasRoom (h : Heap) (p : Packet) (n : ℕ) : Type 0 where
  pub fits : p.packet_len + n ≤ max_packet_len
  pub granted :
      p.data_len < p.packet_len + n
      → h.grants (grow_len (p.packet_len + n) p.data_len (p.packet_len + n)) ≡ true

-- `q` is `p` with a block of at least `n` bytes.
pub record Resized (p : Packet) (n : ℕ) (q : Packet) : Type 0 where
  pub writing : IsWriting q
  pub enough : n ≤ q.data_len
  pub same_id : q.packet_id ≡ p.packet_id
  pub same_len : q.packet_len ≡ p.packet_len
  pub same_bytes : contents q ≡ contents p

abbrev grown : Heap → Packet → ℕ → Packet
grown h p size =
    let new_data_len = grow_len size p.data_len size in
    record p {
      data_len = new_data_len;
      buf = p.buf ++ replicate (new_data_len - p.data_len) h.stale;
    }

grown-Resized : (h : Heap) (p : Packet) (size : ℕ) → IsWriting p → Resized p size (grown h p size)
grown-Resized h p size w =
    let (wide, enough) = grow_len_bounds size p.data_len size (omega arith) in
    record {
      writing = record {
        mode = w.mode;
        at_end = w.at_end;
        block = rw (length-append, length-replicate, w.block) (omega arith);
        inside = omega arith;
        small = w.small;
      };
      enough = enough;
      same_id = refl;
      same_len = refl;
      same_bytes = take_prefix p.packet_len p.buf _ (omega arith);
    }

packet_try_resize_room :
    (h : Heap) (p : Packet) (n : ℕ)
    → IsWriting p
    → HasRoom h p n
    → (q : Packet) × (packet_try_resize h p (p.packet_len + n) ≡ (q, pos 0))
      × Resized p (p.packet_len + n) q
packet_try_resize_room h p n w room = elim (Bool-cases (ltb p.data_len (p.packet_len + n))) [
  | inl more ↦ (
    grown h p (p.packet_len + n),
    unfold packet_try_resize in ground arith,
    grown-Resized h p (p.packet_len + n) w,
  )
  | inr same ↦ (
    p,
    unfold packet_try_resize in ground arith,
    record {
      writing = w;
      enough = ground arith;
      same_id = refl;
      same_len = refl;
      same_bytes = refl;
    },
  )
]

-- The packet after `added` was appended to `p`.
pub record Appended (p : Packet) (added : List ℕ) (q : Packet) : Type 0 where
  pub writing : IsWriting q
  pub same_id : q.packet_id ≡ p.packet_id
  pub len : q.packet_len ≡ p.packet_len + length added
  pub bytes : contents q ≡ contents p ++ added

pub Appended-trans :
    {p q r : Packet} {a b : List ℕ} → Appended p a q → Appended q b r → Appended p (a ++ b) r
Appended-trans {p} {q} {r} {a} {b} s t = record {
  writing = t.writing;
  same_id = t.same_id ∙ s.same_id;
  len = rw length-append (omega (arith, s.len, t.len));
  bytes = t.bytes ∙ ap (λ c. c ++ b) s.bytes ∙ append_assoc (contents p) a b;
}

-- What both writes do once the block is large enough.
advance : Packet → ℕ → List ℕ → Packet
advance q n bytes = record q { packet_len = q.packet_len + n; buf = bytes; index = q.index + n }

advance-Appended :
    (p q : Packet) (added bytes : List ℕ)
    → Resized p (p.packet_len + length added) q
    → p.packet_len + length added ≤ max_packet_len
    → length bytes ≡ length q.buf
    → take (q.packet_len + length added) bytes ≡ contents q ++ added
    → Appended p added (advance q (length added) bytes)
unfolding advance
advance-Appended p q added bytes r fits len eq = record {
  writing = record {
    mode = r.writing.mode;
    at_end = omega (arith, r.writing.at_end);
    block = len ∙ r.writing.block;
    inside = omega (arith, r.enough, r.same_len);
    small = omega (arith, r.same_len);
  };
  same_id = r.same_id;
  len = omega (arith, r.same_len);
  bytes = eq ∙ ap (λ t. t ++ added) r.same_bytes;
}

packet_write_byte_step :
    (h : Heap) (p q : Packet) (b : ℕ)
    → p.packet_mode ≡ packet_mode_write
    → packet_try_resize h p (p.packet_len + 1) ≡ (q, pos 0)
    → q.index < length q.buf
    → packet_write_byte h p b ≡ ok (advance q 1 (set q.buf q.index b), pos 1)
unfolding packet_write_byte advance
packet_write_byte_step h p q b m e i = ground arith

packet_write_bytes_step :
    (h : Heap) (p q : Packet) (bytes : List ℕ)
    → p.packet_mode ≡ packet_mode_write
    → packet_try_resize h p (p.packet_len + length bytes) ≡ (q, pos 0)
    → q.index + length bytes ≤ length q.buf
    → packet_write_bytes h p bytes
      ≡ ok (advance q (length bytes) (splice q.buf q.index bytes), pos (length bytes))
unfolding packet_write_bytes advance
packet_write_bytes_step h p q bytes m e i = ground arith

-- With room, `packet_write_byte` appends its byte and returns 1.
pub packet_write_byte_room :
    (h : Heap) (p : Packet) (b : ℕ)
    → IsWriting p
    → HasRoom h p 1
    → (q : Packet) × (packet_write_byte h p b ≡ ok (q, pos 1)) × Appended p (b ∷ []) q
packet_write_byte_room h p b w room =
    let (q, e, r) = packet_try_resize_room h p 1 w room in
    let fits : q.index < length q.buf =
      omega (arith, r.writing.at_end, r.writing.block, r.enough, r.same_len) in
    (
      advance q 1 (set q.buf q.index b),
      packet_write_byte_step h p q b w.mode e fits,
      advance-Appended p q (b ∷ []) (set q.buf q.index b) r room.fits (length-set q.buf q.index b)
          (bytes q r.writing fits),
    )
  where
    bytes :
        (q : Packet)
        → IsWriting q
        → q.index < length q.buf
        → take (q.packet_len + 1) (set q.buf q.index b) ≡ contents q ++ (b ∷ [])
    bytes q v fits = rw (← v.at_end, add-one) (take-set q.buf q.index b fits)

-- With room, `packet_write_bytes` appends its bytes and returns their number.
pub packet_write_bytes_room :
    (h : Heap) (p : Packet) (added : List ℕ)
    → IsWriting p
    → HasRoom h p (length added)
    → (q : Packet) × (packet_write_bytes h p added ≡ ok (q, pos (length added)))
      × Appended p added q
packet_write_bytes_room h p added w room =
    let (q, e, r) = packet_try_resize_room h p (length added) w room in
    let fits : q.index + length added ≤ length q.buf =
      omega (arith, r.writing.at_end, r.writing.block, r.enough, r.same_len) in
    let wide = length-splice q.buf q.index added fits in
    (
      advance q (length added) (splice q.buf q.index added),
      packet_write_bytes_step h p q added w.mode e fits,
      advance-Appended p q added (splice q.buf q.index added) r room.fits wide
          (rw (← r.writing.at_end) (take-splice q.buf q.index added fits)),
    )
