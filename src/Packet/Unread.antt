-- ===== src/Packet/Unread.antt =====
-- src/packet.c: `packet_read_byte` on a packet whose bytes were received.
use chowder.Prelude.{
  ℕ, suc, ◌+◌, refl, take-all, ◌≤◌, ◌<◌, ◌≡◌, sym, ap, ◌∙◌, true, false, List, [], ◌∷◌, ◌++◌, some,
  length, drop, ok, arith, get_elem?, get_elem?-take, get_elem?-cons-drop, length-drop,
  length-take_le,
}
use chowder.Packet.Buffer.{Packet, packet_mode_read, max_packet_len}
use chowder.Packet.Buffer.Laws.{contents}
use chowder.Packet.Varint.{packet_read_byte}
use chowder.Packet.Varint.Read.{Delivers}

-- The bytes that are still to be read.
abbrev pub unread : Packet → List ℕ
unread p = drop p.index (contents p)

-- A packet that is read: its block holds the `packet_len` bytes that it announces.
pub record IsReading (p : Packet) : Type 0 where
  pub mode : p.packet_mode ≡ packet_mode_read
  pub held : p.packet_len ≤ length p.buf
  pub small : p.packet_len ≤ max_packet_len

-- A packet of these bytes, of which none is read yet.
abbrev pub received : List ℕ → Packet
received bytes = record {
  packet_id = 0;
  packet_len = length bytes;
  data_len = length bytes;
  buf = bytes;
  index = 0;
  packet_mode = packet_mode_read;
}

pub received-IsReading :
    (bytes : List ℕ) → length bytes ≤ max_packet_len → IsReading (received bytes)
received-IsReading bytes h = record { mode = refl; held = omega arith; small = h }

pub received-unread : (bytes : List ℕ) → unread (received bytes) ≡ bytes
received-unread bytes = take-all (length bytes) bytes (omega arith)

abbrev pub skip : Packet → ℕ → Packet
skip p n = record p { index = p.index + n }

pub skip-IsReading : {p : Packet} (n : ℕ) → IsReading p → IsReading (skip p n)
skip-IsReading n r = record { mode = r.mode; held = r.held; small = r.small }

pub skip_zero : (p : Packet) → p ≡ skip p 0
skip_zero p = ap (λ (i : ℕ). record p { index = i }) (omega arith)

pub skip-skip : (p : Packet) (n : ℕ) → skip (skip p 1) n ≡ skip p (suc n)
skip-skip p n = ap (λ (i : ℕ). record p { index = i }) (omega arith)

read_at :
    (p : Packet) (b : ℕ)
    → IsReading p
    → get_elem? p.buf p.index ≡ some b
    → p.index < p.packet_len
    → packet_read_byte p ≡ ok (true, b, skip p 1)
unfolding packet_read_byte
read_at p b r e lt = ground arith

-- A byte that is there is read.
pub packet_read_byte_some :
    (p : Packet) (b : ℕ) (rest : List ℕ)
    → IsReading p
    → unread p ≡ b ∷ rest
    → (packet_read_byte p ≡ ok (true, b, skip p 1)) × (unread (skip p 1) ≡ rest)
packet_read_byte_some p b rest r e =
    let (here, behind) = get_elem?-cons-drop p.index (contents p) e in
    let (at, lt) = get_elem?-take p.packet_len p.index p.buf here in (read_at p b r at lt, behind)

-- At the end of the packet `packet_read_byte` reads nothing, and sets the byte to 0.
pub packet_read_byte_none :
    (p : Packet) → IsReading p → unread p ≡ [] → packet_read_byte p ≡ ok (false, 0, p)
unfolding packet_read_byte
packet_read_byte_none p r e = ground (arith, past)
  where
    past : p.packet_len ≤ p.index
    past = omega (
      arith,
      ap length e,
      length-drop p.index (contents p),
      length-take_le p.packet_len p.buf r.held,
    )

-- As a source of bytes a packet delivers what is unread.
pub unread-Delivers :
    (bytes rest : List ℕ) (p : Packet)
    → IsReading p
    → unread p ≡ bytes ++ rest
    → Delivers packet_read_byte p bytes (skip p (length bytes))
      × (unread (skip p (length bytes)) ≡ rest)
unread-Delivers [] rest p r e = (skip_zero p, sym (ap unread (skip_zero p)) ∙ e)
unread-Delivers (b ∷ bytes) rest p r e =
    let (got, e') = packet_read_byte_some p b (bytes ++ rest) r e in
    let (d, e'') = unread-Delivers bytes rest (skip p 1) (skip-IsReading 1 r) e' in
    let same = skip-skip p (length bytes) in
    ((skip p 1, got, rw (← same) d), sym (ap unread same) ∙ e'')
