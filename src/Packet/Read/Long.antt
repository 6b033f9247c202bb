-- ===== src/Packet/Read/Long.antt =====
-- src/packet.c: `packet_read_long` and `packet_read_position`, with `mc_xyz_to_position` of
-- src/world.c, which packs what the latter takes apart.
use chowder.Prelude.{
  ℕ, zero, suc, ◌+◌, ◌*◌, ◌/◌, ◌%◌, ◌^◌, ◌≤◌, ◌<◌, ◌≡◌, refl, ap, ◌∙◌, true, List, ◌++◌, some, ok,
  ◌>>=◌, arith, bit_or, bit_and,
}
use mathlib.Core.Path.{ap₂}
use native.Mathlib.Nat.{mod-lt, mod-eq_of_lt, pow-suc, one-le-pow}
use native.Mathlib.Numerals.{towards_suc}
use chowder.Prelude.Bits.{bit_or_disjoint, bit_and_mask}
use chowder.Prelude.Bytes.{be_bytes, mod_byte}
use chowder.Packet.Buffer.{Packet}
use chowder.Packet.Unread.{
  unread, IsReading, skip, skip_zero, skip-skip, skip-IsReading, packet_read_byte_some,
}
use chowder.Packet.Read.{
  read_long_loop, packet_read_long, position_x, position_y, position_z, packet_read_position,
}

-- A byte is eight bits.
byte_shift : (n : ℕ) → 2 ^ (n * 8) ≡ 256 ^ n
byte_shift zero = refl
byte_shift (suc n) =
    ap (λ (e : ℕ). 2 ^ e) eight
    ∙ shift (n * 8)
    ∙ omega (arith, ap (λ (t : ℕ). 256 * t) (byte_shift n), pow-suc 256 n)
  where
    eight : suc n * 8 ≡ n * 8 + 8
    eight = omega arith

    shift : (s : ℕ) → 2 ^ (s + 8) ≡ 256 * 2 ^ s
    shift s = simp towards_suc (omega arith)

-- `hl |= b << (i * 8)` below the bytes that were read, `top` of them as a number.
or_byte :
    (n top b : ℕ)
    → b < 256
    → b * 256 ^ n < 2 ^ 64
    → bit_or (top * 256 ^ suc n) (b * 2 ^ (n * 8) % 2 ^ 64) ≡ (top * 256 + b) * 256 ^ n
or_byte n top b h fits =
    rw (byte_shift n, mod-eq_of_lt fits, ← byte_shift (suc n))
      (bit_or_disjoint (suc n * 8) top (b * 256 ^ n) below
        ∙ rw byte_shift (omega (arith, ap (λ (t : ℕ). top * t) (pow-suc 256 n))))
  where
    below : b * 256 ^ n < 2 ^ (suc n * 8)
    below = rw (byte_shift (suc n), pow-suc 256 n) (grind (arith, one-le-pow n 256))

byte_in_word : (n b : ℕ) → b < 256 → 256 ^ suc n ≤ 2 ^ 64 → b * 256 ^ n < 2 ^ 64
byte_in_word n b h fits = omega (arith, pow-suc 256 n, step, one-le-pow n 256 (omega arith))
  where
    le : b ≤ 255
    le = omega arith

    step : b * 256 ^ n ≤ 255 * 256 ^ n
    step = grind arith

read_long_loop-be_bytes :
    (n top v : ℕ) (rest : List ℕ) (p : Packet)
    → IsReading p
    → unread p ≡ be_bytes n v ++ rest
    → 256 ^ n ≤ 2 ^ 64
    → read_long_loop n p (top * 256 ^ n) ≡ ok (skip p n, top * 256 ^ n + v % 256 ^ n, true)
unfolding read_long_loop be_bytes
read_long_loop-be_bytes zero top v rest p r e fits =
    ap₂ (λ (q : Packet) (m : ℕ). ok (q, m, true)) (skip_zero p) (omega arith)
read_long_loop-be_bytes (suc n) top v rest p r e fits =
    let b : ℕ = v / 256 ^ n % 256 in
    let byte : b < 256 = mod-lt _ (omega arith) in
    let (got, e') = packet_read_byte_some p b (be_bytes n v ++ rest) r e in
    let run =
      read_long_loop-be_bytes n (top * 256 + b) v rest (skip p 1) (skip-IsReading 1 r) e'
        (omega (arith, pow-suc 256 n)) in
    let total = total_of n top v in
    rw (got, ◌>>=◌, or_byte n top b byte (byte_in_word n b byte fits), run)
      (ap₂ (λ (q : Packet) (m : ℕ). ok (q, m, true)) (skip-skip p n) total)
  where
    total_of :
        (n top v : ℕ)
        → (top * 256 + v / 256 ^ n % 256) * 256 ^ n + v % 256 ^ n
          ≡ top * 256 ^ suc n + v % 256 ^ suc n
    total_of n top v = omega (arith, mod_byte n v, ap (λ (t : ℕ). top * t) (pow-suc 256 n))

-- `packet_read_long` reads back the eight bytes that stand for a number, highest first.
pub packet_read_long-be_bytes :
    (v : ℕ) (rest : List ℕ) (p : Packet)
    → IsReading p
    → v < 2 ^ 64
    → unread p ≡ be_bytes 8 v ++ rest
    → packet_read_long p ≡ ok (skip p 8, some v)
unfolding packet_read_long
packet_read_long-be_bytes v rest p r h e =
    rw (read_long_loop-be_bytes 8 0 v rest p r e (omega arith), ◌>>=◌)
      (ap (λ (m : ℕ). ok (skip p 8, some m)) (omega arith))

-- src/world.c: `((x & 0x3FFFFFF) << 38) | ((z & 0x3FFFFFF) << 12) | (y & 0xFFF)`
unfoldable pub mc_xyz_to_position : ℕ → ℕ → ℕ → ℕ
mc_xyz_to_position x y z =
    bit_or (bit_or (bit_and x 0x3FFFFFF * 2 ^ 38 % 2 ^ 64) (bit_and z 0x3FFFFFF * 2 ^ 12 % 2 ^ 64))
      (bit_and y 0xFFF)

position_sum :
    (x y z : ℕ) → mc_xyz_to_position x y z ≡ x % 2 ^ 26 * 2 ^ 38 + z % 2 ^ 26 * 2 ^ 12 + y % 2 ^ 12
unfolding mc_xyz_to_position
position_sum x y z =
    rw (bit_and_mask 26 x, bit_and_mask 26 z, bit_and_mask 12 y)
      (or_fields (x % 2 ^ 26) (y % 2 ^ 12) (z % 2 ^ 26) (omega arith) (omega arith) (omega arith))
  where
    or_fields :
        (a b c : ℕ)
        → a < 2 ^ 26
        → b < 2 ^ 12
        → c < 2 ^ 26
        → bit_or (bit_or (a * 2 ^ 38 % 2 ^ 64) (c * 2 ^ 12 % 2 ^ 64)) b
          ≡ a * 2 ^ 38 + c * 2 ^ 12 + b
    or_fields a b c ha hb hc =
        let high : a * 2 ^ 38 % 2 ^ 64 ≡ a * 2 ^ 38 = omega arith in
        let low : c * 2 ^ 12 % 2 ^ 64 ≡ c * 2 ^ 12 = omega arith in
        let shifted : a * 2 ^ 38 + c * 2 ^ 12 ≡ (a * 2 ^ 26 + c) * 2 ^ 12 = omega arith in
        rw (high, low, bit_or_disjoint 38 a (c * 2 ^ 12) (omega arith), shifted)
          (bit_or_disjoint 12 (a * 2 ^ 26 + c) b hb)

-- On a packet in read mode whose next eight bytes are the big-endian bytes of what
-- `mc_xyz_to_position` packed, `packet_read_position` returns the 26, 12 and 26 lowest bits of the
-- coordinates x, y and z, with no sign restored.
pub packet_read_position-mc_xyz_to_position :
    (x y z : ℕ) (rest : List ℕ) (p : Packet)
    → IsReading p
    → unread p ≡ be_bytes 8 (mc_xyz_to_position x y z) ++ rest
    → packet_read_position p ≡ ok (skip p 8, some (x % 2 ^ 26, y % 2 ^ 12, z % 2 ^ 26))
unfolding packet_read_position
packet_read_position-mc_xyz_to_position x y z rest p r e =
    rw (packet_read_long-be_bytes l rest p r small e, ◌>>=◌)
      (λ i. ok (skip p 8, some (x_field i, y_field i, z_field i)))
  where
    l : ℕ
    l = mc_xyz_to_position x y z

    small : l < 2 ^ 64
    small = omega (arith, position_sum x y z)

    x_field : position_x l ≡ x % 2 ^ 26
    x_field = omega (arith, position_sum x y z)

    y_field : position_y l ≡ y % 2 ^ 12
    y_field = omega (arith, bit_and_mask 12 l, position_sum x y z)

    z_field : position_z l ≡ z % 2 ^ 26
    z_field = omega (arith, position_sum x y z)
