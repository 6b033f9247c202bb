-- ===== src/Packet/Header.antt =====
-- src/packet.c: `packet_read_header`. The bytes of the socket come from `sfd_read_byte` and `read`,
-- which are parameters with a state of their own.
use chowder.Prelude.{
  ℕ, zero, suc, ◌+◌, ◌-◌, ◌*◌, ◌%◌, ◌^◌, ◌<◌, ◌≤◌, ◌≡◌, ◌≢◌, refl, sym, ap, ◌∙◌, inl, inr,
  Bool-cases, Bool, true, false, List, ◌++◌, if◌then◌else◌, ltb, ◌==◌, replicate, Run, ok, fault,
  no_fuel, ◌>>=◌, arith,
}
use native.Mathlib.Nat.{mod-eq_of_lt}
use chowder.Prelude.Int.{ℤ, pos, negsuc}
use chowder.Packet.Buffer.{
  Packet, Heap, packet_mode_read, max_packet_len, packet_block_size, packet_too_big,
  packet_realloc_failed, copy_in,
}
use chowder.Packet.Varint.{ReadByte, read_varint_gen}

-- `(size_t) (packet_len - id_len)` for the pattern of an `int`: a negative difference is extended.
abbrev pub body_size : ℕ → ℕ → ℕ
body_size packet_len id_len =
    ((if ltb packet_len (2 ^ 31) then packet_len else packet_len + 2 ^ 64 - 2 ^ 32)
      + 2 ^ 64
      - id_len)
    % 2 ^ 64

-- `while (size > data_len) data_len += PACKET_BLOCK_SIZE`, with the rounds left.
unfoldable pub header_grow : ℕ → ℕ → ℕ → Run ℕ
header_grow zero data_len size = fault no_fuel
header_grow (suc f) data_len size =
    let more = header_grow f ((data_len + packet_block_size) % 2 ^ 64) size in
    if ltb data_len size then more else ok data_len

abbrev pub is_positive_int : ℤ → Bool
is_positive_int (pos n) = ltb 0 n
is_positive_int (negsuc n) = false

abbrev pub bytes_of : ℤ → ℕ
bytes_of (pos n) = n
bytes_of (negsuc n) = 0

module _ {S : Type 0} (sfd_read_byte : ReadByte S) (read : S → ℕ → S × List ℕ × ℤ) where
  -- What follows the loop: `q` is the packet with the new `data_len`.
  unfoldable pub fill_packet : Heap → Packet → Packet → ℕ → S → Run (Packet × S × ℤ)
  fill_packet h p q size s =
      let filled = λ (r : Packet). do
        let (s', bytes, n) = read s size
        let received = do buf ← copy_in r.buf 0 bytes; ok (record r { buf = buf; index = 0 }, s', n)
        if is_positive_int n then received else ok (r, s', n)
      in if ltb max_packet_len q.data_len
        then ok (q, s, packet_too_big)
        else if q.data_len == p.data_len
        then filled q
        else if h.grants q.data_len
        then filled (record q { buf = p.buf ++ replicate (q.data_len - p.data_len) h.stale })
        else ok (q, s, packet_realloc_failed)

  -- Both early returns give back `n` of the first number.
  unfoldable pub packet_read_header : ℕ → Heap → Packet → S → Run (Packet × S × ℤ)
  unfolding fill_packet header_grow
  packet_read_header f h p s = do
    (s1, packet_len, n) ← read_varint_gen sfd_read_byte s
    let p1 : Packet = record p { packet_mode = packet_mode_read; packet_len = packet_len }
    let with_id = do
      (s2, packet_id, id_len) ← read_varint_gen sfd_read_byte s1
      let p2 : Packet = record p1 { packet_id = packet_id }
      let size = body_size packet_len (bytes_of id_len)
      let body = do
        data_len ← header_grow f p.data_len size
        fill_packet h p2 (record p2 { data_len = data_len }) size s2
      if is_positive_int id_len then body else ok (p2, s2, n)
    if is_positive_int n then with_id else ok (p1, s1, n)

one_round :
    (f size data_len : ℕ)
    → data_len < size
    → header_grow (suc f) data_len size
      ≡ header_grow f ((data_len + packet_block_size) % 2 ^ 64) size
unfolding header_grow
one_round f size data_len less =
    let test : ltb data_len size ≡ true = ground (arith, less) in rw (test) refl

header_grow_forever :
    (f blocks size data_len : ℕ)
    → 2 ^ 64 - packet_block_size < size
    → blocks * packet_block_size ≡ data_len
    → data_len ≤ 2 ^ 64 - packet_block_size
    → (r : ℕ) → header_grow f data_len size ≢ ok r
unfolding header_grow
header_grow_forever zero blocks size data_len big whole inside r = λ e. cc
header_grow_forever (suc f) blocks size data_len big whole inside r = λ e.
    let less : data_len < size = omega (arith, big, inside) in
    let later = sym (one_round f size data_len less) ∙ e in
    elim (Bool-cases (ltb (data_len + packet_block_size) (2 ^ 64))) [
      | inl fits ↦
          let small : data_len + packet_block_size < 2 ^ 64 = ground (arith, fits) in
          let next : (data_len + packet_block_size) % 2 ^ 64 ≡ data_len + packet_block_size =
            mod-eq_of_lt small in
          header_grow_forever f (suc blocks) size (data_len + packet_block_size) big
            (omega (arith, whole)) (omega (arith, whole, small)) r
            (ap (λ (n : ℕ). header_grow f n size) (sym next) ∙ later)
      | inr full ↦
          let top : data_len + packet_block_size ≡ 2 ^ 64 = ground (arith, full, inside) in
          header_grow_forever f 0 size 0 big refl (omega arith) r
            (ap (λ (n : ℕ). header_grow f (n % 2 ^ 64) size) (sym top) ∙ later)
    ]

positive : (n : ℕ) → is_positive_int (pos (suc n)) ≡ true
positive n = ground arith

negative_size : (n : ℕ) → n < 6 → 2 ^ 64 - packet_block_size < body_size 0 (suc n)
negative_size n h =
    let same : (2 ^ 64 - suc n) % 2 ^ 64 ≡ 2 ^ 64 - suc n = mod-eq_of_lt (omega arith) in
    omega (arith, same, h)

bind_no_ok {ℓ κ} :
    {A : Type ℓ} {B : Type κ} (m : Run A) (g : A → Run B) (r : B)
    → ((a : A) → m ≢ ok a)
    → (m >>= g) ≢ ok r
bind_no_ok (ok a) g r h e = h a refl
bind_no_ok (fault why) g r h e = cc

-- From any socket that delivers the encoded length 0 and then an id of at most 6 bytes, to a packet
-- whose `data_len` is a number of whole blocks: `packet_read_header` returns no result, whatever
-- the fuel, as the size that is left wraps around and `data_len` never reaches it.
pub packet_read_header_forever :
    {S : Type 0} (sfd_read_byte : ReadByte S) (read : S → ℕ → S × List ℕ × ℤ) (f : ℕ) (h : Heap)
    (p : Packet) (s s1 s2 : S) (n id_len packet_id blocks : ℕ) (r : Packet × S × ℤ)
    → read_varint_gen sfd_read_byte s ≡ ok (s1, 0, pos (suc n))
    → read_varint_gen sfd_read_byte s1 ≡ ok (s2, packet_id, pos (suc id_len))
    → id_len < 6
    → blocks * packet_block_size ≡ p.data_len
    → p.data_len < 2 ^ 64
    → packet_read_header sfd_read_byte read f h p s ≢ ok r
unfolding packet_read_header
packet_read_header_forever sfd_read_byte read f h p s s1 s2 n id_len packet_id blocks r first second
      short whole inside =
    let size : 2 ^ 64 - packet_block_size < body_size 0 (suc id_len) = negative_size id_len short in
    rw (first, ◌>>=◌, second, ◌>>=◌, positive n, positive id_len)
      (bind_no_ok (header_grow f p.data_len (body_size 0 (suc id_len))) _ r (
        header_grow_forever f blocks (body_size 0 (suc id_len)) p.data_len size whole
          (omega (arith, whole, inside))))
