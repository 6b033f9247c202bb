-- ===== src/Packet/Read/Laws.antt =====
-- src/packet.c: the typed reads on a packet that holds what they ask for.
use chowder.Prelude.{
  ℕ, suc, ◌+◌, ◌^◌, ◌≤◌, ◌<◌, ◌≡◌, refl, sym, ap, ◌∙◌, true, List, [], ◌∷◌, ◌++◌, length, take, set,
  ok, ◌>>=◌, arith, take-all, take-set, length-set,
}
use native.Mathlib.Numerals.{add-one}
use mathlib.Core.Path.{ap₂}
use mathlib.Core.List.{append_assoc, append-nil}
use chowder.Prelude.Bytes.{be_bytes, be_value-be_bytes}
use chowder.Packet.Buffer.{Packet, store}
use chowder.Packet.Unread.{
  unread, IsReading, skip, skip_zero, skip-skip, skip-IsReading, packet_read_byte_some,
  unread-Delivers,
}
use chowder.Packet.Read.{read_bytes_loop, packet_read_bytes, packet_read_int}

-- The packet and the buffer after `bytes` were read to `buf + i`.
pub record Filled (buf : List ℕ) (i : ℕ) (bytes : List ℕ) (buf' : List ℕ) : Type 0 where
  pub size : length buf' ≡ length buf
  pub front : take (i + length bytes) buf' ≡ take i buf ++ bytes

pub store_in : (buf : List ℕ) (i b : ℕ) → i < length buf → store buf i b ≡ ok (set buf i b)
store_in buf i b h = ground arith

pub Filled-cons :
    {buf buf' : List ℕ} (i b : ℕ) (bytes : List ℕ)
    → i < length buf
    → Filled (set buf i b) (i + 1) bytes buf'
    → Filled buf i (b ∷ bytes) buf'
Filled-cons {buf} {buf'} i b bytes h f = record {
  size = f.size ∙ length-set buf i b;
  front =
      ap (λ (n : ℕ). take n buf') shift
      ∙ f.front
      ∙ ap (λ t. t ++ bytes) (rw add-one (take-set buf i b h))
      ∙ append_assoc (take i buf) (b ∷ []) bytes;
}
  where
    shift : i + suc (length bytes) ≡ i + 1 + length bytes
    shift = omega arith

pub read_bytes_loop-Filled :
    (bytes rest : List ℕ) (p : Packet) (buf : List ℕ) (i : ℕ)
    → IsReading p
    → unread p ≡ bytes ++ rest
    → i + length bytes ≤ length buf
    → (buf' : List ℕ) × (read_bytes_loop (length bytes) p buf i
        ≡ ok (skip p (length bytes), buf', i + length bytes, true))
      × Filled buf i bytes buf'
unfolding read_bytes_loop
read_bytes_loop-Filled [] rest p buf i r e fits = (
  buf,
  ap₂ (λ (q : Packet) (n : ℕ). ok (q, buf, n, true)) (skip_zero p) (omega arith),
  record { size = refl; front = ap (λ (n : ℕ). take n buf) (omega arith) ∙ sym (append-nil _) },
)
read_bytes_loop-Filled (b ∷ bytes) rest p buf i r e fits =
    let (got, e') = packet_read_byte_some p b (bytes ++ rest) r e in
    let (buf', run, f) =
      read_bytes_loop-Filled bytes rest (skip p 1) (set buf i b) (i + 1) (skip-IsReading 1 r) e'
        (rw length-set (omega arith)) in
    (
      buf',
      rw (got, ◌>>=◌, store_in buf i b (omega arith), run)
          (ap₂ (λ (q : Packet) (n : ℕ). ok (q, buf', n, true)) (skip-skip p (length bytes))
            (omega arith)),
      Filled-cons i b bytes (omega arith) f,
    )

-- `packet_read_bytes` fills a buffer of its size with the next bytes of the packet.
pub packet_read_bytes-unread :
    (bytes rest : List ℕ) (p : Packet) (buf : List ℕ)
    → IsReading p
    → unread p ≡ bytes ++ rest
    → length buf ≡ length bytes
    → (packet_read_bytes p (length bytes) buf ≡ ok (skip p (length bytes), bytes, true))
      × (unread (skip p (length bytes)) ≡ rest)
unfolding packet_read_bytes
packet_read_bytes-unread bytes rest p buf r e size =
    let (buf', run, f) = read_bytes_loop-Filled bytes rest p buf 0 r e (omega arith) in
    let whole : buf' ≡ bytes =
      sym (take-all (0 + length bytes) buf' (omega (arith, f.size))) ∙ f.front in
    (rw (run, ◌>>=◌, whole), (unread-Delivers bytes rest p r e).1)

-- `packet_read_int` reads back the four bytes that stand for an integer, highest first.
pub packet_read_int-be_bytes :
    (v : ℕ) (rest : List ℕ) (p : Packet) (stack : List ℕ)
    → IsReading p
    → v < 2 ^ 32
    → unread p ≡ be_bytes 4 v ++ rest
    → length stack ≡ 4
    → (packet_read_int p stack ≡ ok (skip p 4, v, true)) × (unread (skip p 4) ≡ rest)
unfolding packet_read_int be_bytes
packet_read_int-be_bytes v rest p stack r h e size =
    let (run, behind) = packet_read_bytes-unread (be_bytes 4 v) rest p stack r e size in
    (rw (run, ◌>>=◌, be_value-be_bytes 4 v h), behind)
