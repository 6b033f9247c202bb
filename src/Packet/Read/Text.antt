-- ===== src/Packet/Read/Text.antt =====
-- src/packet.c: `packet_read_string` on what `packet_write_string` wrote.
use chowder.Prelude.{
  ℕ, zero, suc, ◌+◌, ◌-◌, ◌^◌, ◌≤◌, ◌<◌, ◌≡◌, refl, sym, ap, ◌∙◌, true, false, List, [], ◌∷◌, ◌++◌,
  length-append, length, take, set, Run, ok, ◌>>=◌, arith, take-set, length-set,
}
use native.Mathlib.Numerals.{add-one}
use mathlib.Core.Path.{ap₂}
use mathlib.Core.List.{append-nil, append_assoc}
use chowder.Prelude.Int.{pos}
use chowder.Packet.Buffer.{Packet, Heap, max_packet_len}
use chowder.Packet.Varint.{int_ge}
use chowder.Packet.Varint.Encoding.{varint}
use chowder.Packet.Unread.{
  unread, unread-Delivers, IsReading, skip, skip_zero, skip-skip, skip-IsReading,
  packet_read_byte_some,
}
use chowder.Packet.Read.{read_string_loop, packet_read_string}
use chowder.Packet.Read.Laws.{Filled, Filled-cons, store_in}
use chowder.Packet.Buffer.Laws.{IsWriting}
use chowder.Packet.Varint.Write.{Plenty}
use chowder.Packet.Write.{packet_write_string}
use chowder.Packet.Write.Laws.{packet_write_string-Appended}
use chowder.Packet.RoundTrip.{packet_read_varint-varint, received_behind, received_behind-IsReading}

more : (i len : ℕ) → i < len → len < 2 ^ 31 → int_ge i len ≡ false
more i len h k = ground arith

stop : (i len : ℕ) → i ≡ len → len < 2 ^ 31 → int_ge i len ≡ true
stop i len h k = ground arith

finished :
    (p : Packet) (buf : List ℕ) (i len : ℕ)
    → i + 0 ≡ len
    → ◌≡◌ {A = Run (Packet × List ℕ × ℕ)} (ok (p, buf, i)) (ok (skip p 0, buf, len))
finished p buf i len h = ap₂ (λ (q : Packet) (n : ℕ). ok (q, buf, n)) (skip_zero p) (omega arith)

Filled-nil : (i : ℕ) (buf : List ℕ) → i + 0 ≤ length buf → Filled buf i [] buf
Filled-nil i buf h = record {
  size = refl;
  front = ap (λ (n : ℕ). take n buf) (omega arith) ∙ sym (append-nil _);
}

-- With `left` places for at least the characters `cs` that are to come, the loop stores them all.
read_string_loop-Filled :
    (cs rest : List ℕ) (left len : ℕ) (p : Packet) (buf : List ℕ) (i : ℕ)
    → IsReading p
    → unread p ≡ cs ++ rest
    → i + length cs ≡ len
    → len < 2 ^ 31
    → length cs ≤ left
    → i + length cs ≤ length buf
    → (buf' : List ℕ) × (read_string_loop left p len buf i ≡ ok (skip p (length cs), buf', len))
      × Filled buf i cs buf'
unfolding read_string_loop
read_string_loop-Filled [] rest zero len p buf i r e hi small room fits =
    (buf, finished p buf i len hi, Filled-nil i buf (omega arith))
read_string_loop-Filled [] rest (suc left) len p buf i r e hi small room fits = (
  buf,
  rw (stop i len (omega arith) small) (finished p buf i len hi),
  Filled-nil i buf (omega arith),
)
read_string_loop-Filled (c ∷ cs) rest zero len p buf i r e hi small room fits = absurd (omega arith)
read_string_loop-Filled (c ∷ cs) rest (suc left) len p buf i r e hi small room fits =
    let (got, e') = packet_read_byte_some p c (cs ++ rest) r e in
    let (buf', run, f) =
      read_string_loop-Filled cs rest left len (skip p 1) (set buf i c) (i + 1) (skip-IsReading 1 r)
        e' (omega arith) small (omega arith) (rw length-set (omega arith)) in
    (
      buf',
      rw (more i len (omega arith) small, got, ◌>>=◌, store_in buf i c (omega arith), run)
          (ap (λ (q : Packet). ok (q, buf', len)) (skip-skip p (length cs))),
      Filled-cons i c cs (omega arith) f,
    )

ended :
    {buf : List ℕ} (cs buf' : List ℕ)
    → Filled buf 0 cs buf'
    → length cs < length buf'
    → take (length cs + 1) (set buf' (length cs) 0) ≡ cs ++ (0 ∷ [])
ended cs buf' f h =
    let front : take (length cs) buf' ≡ cs =
      ap (λ (m : ℕ). take m buf') {x = length cs} {y = 0 + length cs} (omega arith) ∙ f.front in
    rw add-one (take-set buf' (length cs) 0 h) ∙ ap (λ t. t ++ (0 ∷ [])) front

-- A string in wire form that is shorter than `buf_len` fills `buf` and ends in a zero byte.
pub packet_read_string-varint :
    (cs rest : List ℕ) (p : Packet) (buf_len : ℕ) (buf : List ℕ)
    → IsReading p
    → unread p ≡ varint 4 (length cs) ++ (cs ++ rest)
    → length cs < 2 ^ 31
    → length cs < buf_len
    → length buf ≡ buf_len
    → (q : Packet) × (buf' : List ℕ) × (packet_read_string p buf_len buf
        ≡ ok (q, buf', pos (length cs)))
      × (take (length cs + 1) buf' ≡ cs ++ (0 ∷ []))
      × (unread q ≡ rest)
unfolding packet_read_string
packet_read_string-varint cs rest p buf_len buf r e small fits block =
    let n = length (varint 4 (length cs)) in
    let (got, e') = packet_read_varint-varint (length cs) (cs ++ rest) p r (omega arith) e in
    let (buf', run, f) =
      read_string_loop-Filled cs rest (buf_len - 1) (length cs) (skip p n) buf 0
        (skip-IsReading n r) e' (omega arith) small (omega arith) (omega arith) in
    (
      skip (skip p n) (length cs),
      set buf' (length cs) 0,
      rw (got, ◌>>=◌, run, store_in buf' (length cs) 0 (omega (arith, f.size)), ◌>>=◌)
          (ground arith),
      ended cs buf' f (omega (arith, f.size)),
      (unread-Delivers cs rest (skip p n) (skip-IsReading n r) e').1,
    )

-- Where the allocator grants every block, `packet_write_string` of a string shorter than 2 ^ 31 to
-- a packet that is being written and stays within the limit succeeds, and on a packet that is
-- received with the bytes it added and `rest`, within the limit too, `packet_read_string` into a
-- buffer longer than the string returns the length of the string; the buffer starts with the string
-- and a zero byte, and `rest` is left unread.
pub packet_read_string-packet_write_string :
    (h : Heap) (p : Packet) (s rest buf : List ℕ)
    → Plenty h
    → IsWriting p
    → length s < 2 ^ 31
    → p.packet_len + (length (varint 4 (length s)) + length s) ≤ max_packet_len
    → length (varint 4 (length s)) + length s + length rest ≤ max_packet_len
    → length s < length buf
    → (q : Packet) × (n : ℕ) × (r' : Packet) × (buf' : List ℕ) × (packet_write_string h p
          (length s)
          s
        ≡ ok (q, pos n))
      × (packet_read_string (received_behind p q rest) (length buf) buf
          ≡ ok (r', buf', pos (length s)))
      × (take (length s + 1) buf' ≡ s ++ (0 ∷ []))
      × (unread r' ≡ rest)
packet_read_string-packet_write_string h p s rest buf plenty w small fits fits' room =
    let (q, wrote, a) = packet_write_string-Appended h plenty p s w small fits in
    let (reading, e) =
      received_behind-IsReading (varint 4 (length s) ++ s) rest w a (rw length-append fits') in
    let (r', buf', read, filled, behind) =
      packet_read_string-varint s rest (received_behind p q rest) (length buf) buf reading
        (e ∙ append_assoc (varint 4 (length s)) s rest) small room refl in
    (q, length (varint 4 (length s)) + length s, r', buf', wrote, read, filled, behind)
