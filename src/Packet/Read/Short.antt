-- ===== src/Packet/Read/Short.antt =====
-- src/packet.c: `packet_read_bytes` on a packet that ends too early.
use chowder.Prelude.{
  ℕ, zero, suc, ◌+◌, ◌≤◌, ◌<◌, ◌≡◌, refl, ap, ◌∙◌, false, List, [], ◌∷◌, length, set, ok, fault,
  out_of_bounds, ◌>>=◌, arith, length-set, get_elem?_past, get_elem?-some,
}
use chowder.Packet.Buffer.{Packet}
use chowder.Packet.Unread.{
  unread, IsReading, skip, skip-IsReading, packet_read_byte_some, packet_read_byte_none,
}
use chowder.Packet.Read.{read_bytes_loop, packet_read_bytes}
use chowder.Packet.Read.Laws.{store_in}

-- The loop tries one byte behind the last one that is there.
read_bytes_loop_short :
    (n : ℕ) (bytes : List ℕ) (p : Packet) (buf : List ℕ) (i : ℕ)
    → IsReading p
    → unread p ≡ bytes
    → length bytes < n
    → i + n ≤ length buf
    → (q : Packet) × (buf' : List ℕ) × (read_bytes_loop n p buf i
        ≡ ok (q, buf', i + length bytes + 1, false))
      × (length buf' ≡ length buf)
unfolding read_bytes_loop
read_bytes_loop_short zero bytes p buf i r e short fits = absurd (omega arith)
read_bytes_loop_short (suc n) [] p buf i r e short fits = (
  p,
  set buf i 0,
  rw (packet_read_byte_none p r e, ◌>>=◌, store_in buf i 0 (omega arith))
      (ap (λ (m : ℕ). ok (p, set buf i 0, m, false)) (omega arith)),
  length-set buf i 0,
)
read_bytes_loop_short (suc n) (b ∷ bytes) p buf i r e short fits =
    let (got, e') = packet_read_byte_some p b bytes r e in
    let (q, buf', run, size) =
      read_bytes_loop_short n bytes (skip p 1) (set buf i b) (i + 1) (skip-IsReading 1 r) e'
        (omega arith) (rw length-set (omega arith)) in
    (
      q,
      buf',
      rw (got, ◌>>=◌, store_in buf i b (omega arith), run)
          (ap (λ (m : ℕ). ok (q, buf', m, false)) (omega arith)),
      size ∙ length-set buf i b,
    )

-- Where a packet in read mode ends exactly one byte short of what is asked for, `packet_read_bytes`
-- reads behind the end of a buffer of the size that it is given.
pub packet_read_bytes_over_read :
    (p : Packet) (n : ℕ) (buf : List ℕ)
    → IsReading p
    → length (unread p) + 1 ≡ n
    → length buf ≡ n
    → packet_read_bytes p n buf ≡ fault out_of_bounds
unfolding packet_read_bytes
packet_read_bytes_over_read p n buf r short size =
    let (q, buf', run, size') =
      read_bytes_loop_short n (unread p) p buf 0 r refl (omega arith) (omega arith) in
    rw (run, ◌>>=◌, get_elem?_past buf' (0 + length (unread p) + 1) (omega arith))

-- Where a packet in read mode is more than one byte short of what is asked for, `packet_read_bytes`
-- stays inside a buffer of the size that it is given and returns false.
pub packet_read_bytes_missing :
    (p : Packet) (n : ℕ) (buf : List ℕ)
    → IsReading p
    → length (unread p) + 1 < n
    → length buf ≡ n
    → (q : Packet) × (buf' : List ℕ) × (packet_read_bytes p n buf ≡ ok (q, buf', false))
unfolding packet_read_bytes
packet_read_bytes_missing p n buf r short size =
    let (q, buf', run, size') =
      read_bytes_loop_short n (unread p) p buf 0 r refl (omega arith) (omega arith) in
    let (last, e) = get_elem?-some buf' (0 + length (unread p) + 1) (omega arith) in
    (q, set buf' 0 last, rw (run, ◌>>=◌, e, store_in buf' 0 last (omega arith)))
