-- ===== src/Nbt/Written.antt =====
-- libs/nbt/nbt.c: `nbt_pack` writes the NBT format, and as many bytes as `nbt_len` counts.
use chowder.Prelude.{
  ◌%◌, ◌^◌, ℕ, suc, ◌+◌, ◌*◌, ◌<◌, ◌≡◌, refl, sym, ap, List, [], ◌∷◌, ◌++◌, length, length-append,
  All, arith, Run, ok, ◌>>=◌,
}
use chowder.Prelude.Bytes.{be_bytes, length-be_bytes}
use chowder.Nbt.{
  Name, dangling, null, chars, garbage, Elements, unread, elements, NbtData, unset, t_byte, t_short,
  t_int, t_long, t_float, t_double, byte_array, int_array, long_array, string, list, compound,
  Children, empty, child, tag_compound,
}
use chowder.Nbt.Unpack.{until_zero, c_string}
use chowder.Nbt.Pack.{
  strlen, array_len, nbt_data_len, nbt_items_len, nbt_node_len, nbt_write_string, write_elements,
  nbt_write_array, list_len, nbt_pack_node_data, nbt_pack_items, nbt_pack_node, nbt_pack,
  written_to,
}
use chowder.Nbt.Wire.{
  wire_name, wire_elements, wire, wire_items, wire_children, IsText, IsRootName, IsArray, Fits,
  ItemsFit, ChildrenFit,
}

pub until_zero-eq_self : (cs : List ℕ) → All (λ c. (0 < c) × (c < 256)) cs → until_zero cs ≡ cs
unfolding until_zero
until_zero-eq_self [] h = refl
until_zero-eq_self (c ∷ cs) h = ground (arith, until_zero-eq_self cs)

strlen_name : (cs : List ℕ) → IsText cs → strlen (chars cs) ≡ ok (length cs)
unfolding strlen c_string
strlen_name cs t = ap (λ (s : List ℕ). ok (length s)) (until_zero-eq_self cs t.nonzero)

write_name : (cs : List ℕ) → IsText cs → nbt_write_string (chars cs) ≡ ok (wire_name (chars cs))
unfolding nbt_write_string c_string wire_name
write_name cs t =
    ap (λ (s : List ℕ). ok (be_bytes 2 (length s) ++ s)) (until_zero-eq_self cs t.nonzero)

pub length_name : (cs : List ℕ) → length (wire_name (chars cs)) ≡ 2 + length cs
unfolding wire_name
length_name cs =
    omega (arith, length-append (be_bytes 2 (length cs)) cs, length-be_bytes 2 (length cs))

pub length-write_elements :
    (size : ℕ) (es : List ℕ) → length (write_elements size es) ≡ length es * size
unfolding write_elements
length-write_elements size [] = omega arith
length-write_elements size (e ∷ es) = omega (
  arith,
  length-append (be_bytes size e) (write_elements size es),
  length-be_bytes size e,
  length-write_elements size es,
)

array_len-wire :
    (size : ℕ) (a : Elements)
    → IsArray size a
    → array_len size a ≡ ok (length (wire_elements size a))
unfolding array_len wire_elements
array_len-wire size unread h = absurd h
array_len-wire size (elements es) h =
    ap (λ (n : ℕ). ok n) {x = 4 + length es * size}
      {y = length (be_bytes 4 (length es) ++ write_elements size es)}
      (omega (
        arith,
        length-append (be_bytes 4 (length es)) (write_elements size es),
        length-be_bytes 4 (length es),
        length-write_elements size es,
      ))

write_array-wire :
    (size : ℕ) (a : Elements) → IsArray size a → nbt_write_array size a ≡ ok (wire_elements size a)
unfolding nbt_write_array wire_elements
write_array-wire size unread h = absurd h
write_array-wire size (elements es) h = refl

length_list :
    (n : ℕ) (bs : List ℕ)
    → ◌≡◌ {A = Run ℕ} (ok (5 + length bs)) (ok (suc (length (be_bytes 4 n ++ bs))))
length_list n bs =
    ap (λ (k : ℕ). ok k) {x = 5 + length bs} {y = suc (length (be_bytes 4 n ++ bs))}
      (omega (arith, length-append (be_bytes 4 n) bs, length-be_bytes 4 n))

length_both :
    (xs ys : List ℕ) → ◌≡◌ {A = Run ℕ} (ok (length xs + length ys)) (ok (length (xs ++ ys)))
length_both xs ys = ap (λ (k : ℕ). ok k) (sym (length-append xs ys))

length_child :
    (s xs ys : List ℕ)
    → ◌≡◌ {A = Run ℕ}
        (ok (3 + length s + length xs + length ys))
        (ok (suc (length (wire_name (chars s) ++ (xs ++ ys)))))
length_child s xs ys =
    ap (λ (k : ℕ). ok k) {x = 3 + length s + length xs + length ys}
      {y = suc (length (wire_name (chars s) ++ (xs ++ ys)))}
      (omega
        (arith, length-append (wire_name (chars s)) (xs ++ ys), length-append xs ys, length_name s))

-- The length that is counted for a value is the length of its bytes.
mutual
  unfolding nbt_data_len wire Fits

  pub nbt_data_len-wire : (v : NbtData) → Fits v → nbt_data_len v ≡ ok (length (wire v))
  nbt_data_len-wire (unset t) h = absurd h
  nbt_data_len-wire (t_byte b) h = refl
  nbt_data_len-wire (t_short s) h = ap (λ (n : ℕ). ok n) (sym (length-be_bytes 2 s))
  nbt_data_len-wire (t_int i) h = ap (λ (n : ℕ). ok n) (sym (length-be_bytes 4 i))
  nbt_data_len-wire (t_long l) h = ap (λ (n : ℕ). ok n) (sym (length-be_bytes 8 l))
  nbt_data_len-wire (t_float x) h = ap (λ (n : ℕ). ok n) (sym (length-be_bytes 4 x))
  nbt_data_len-wire (t_double d) h = ap (λ (n : ℕ). ok n) (sym (length-be_bytes 8 d))
  nbt_data_len-wire (byte_array a) h = array_len-wire 1 a h
  nbt_data_len-wire (string (chars cs)) h =
      rw (strlen_name cs h, ◌>>=◌) (ap (λ (n : ℕ). ok n) (sym (length_name cs)))
  nbt_data_len-wire (string null) h = absurd h
  nbt_data_len-wire (string dangling) h = absurd h
  nbt_data_len-wire (string garbage) h = absurd h
  nbt_data_len-wire (list t items) h =
      rw (nbt_items_len-wire t items h.1, ◌>>=◌) (length_list (list_len items) (wire_items items))
  nbt_data_len-wire (compound cs) h = nbt_node_len-wire cs h
  nbt_data_len-wire (int_array a) h = array_len-wire 4 a h
  nbt_data_len-wire (long_array a) h = array_len-wire 8 a h

  nbt_items_len-wire :
      (t : ℕ) (cs : Children) → ItemsFit t cs → nbt_items_len cs ≡ ok (length (wire_items cs))
  nbt_items_len-wire t empty h = refl
  nbt_items_len-wire t (child name v cs) h =
      rw (nbt_data_len-wire v h.2, ◌>>=◌, nbt_items_len-wire t cs h.3, ◌>>=◌)
        (length_both (wire v) (wire_items cs))

  nbt_node_len-wire :
      (cs : Children) → ChildrenFit cs → nbt_node_len cs ≡ ok (length (wire_children cs))
  nbt_node_len-wire empty h = refl
  nbt_node_len-wire (child (chars s) v cs) h =
      rw (strlen_name s h.0, ◌>>=◌, nbt_data_len-wire v h.1, ◌>>=◌, nbt_node_len-wire cs h.2, ◌>>=◌)
        (length_child s (wire v) (wire_children cs))
  nbt_node_len-wire (child null v cs) h = absurd h.0
  nbt_node_len-wire (child dangling v cs) h = absurd h.0
  nbt_node_len-wire (child garbage v cs) h = absurd h.0

-- What is written for a value is its bytes.
mutual
  unfolding nbt_pack_node_data wire Fits

  pub nbt_pack_node_data-wire : (v : NbtData) → Fits v → nbt_pack_node_data v ≡ ok (wire v)
  nbt_pack_node_data-wire (unset t) h = absurd h
  nbt_pack_node_data-wire (t_byte b) h = refl
  nbt_pack_node_data-wire (t_short s) h = refl
  nbt_pack_node_data-wire (t_int i) h = refl
  nbt_pack_node_data-wire (t_long l) h = refl
  nbt_pack_node_data-wire (t_float x) h = refl
  nbt_pack_node_data-wire (t_double d) h = refl
  nbt_pack_node_data-wire (byte_array a) h = write_array-wire 1 a h
  nbt_pack_node_data-wire (string (chars cs)) h = write_name cs h
  nbt_pack_node_data-wire (string null) h = absurd h
  nbt_pack_node_data-wire (string dangling) h = absurd h
  nbt_pack_node_data-wire (string garbage) h = absurd h
  nbt_pack_node_data-wire (list t items) h =
      let byte : t % 2 ^ 8 ≡ t = omega (arith, h.2) in
      rw (nbt_pack_items-wire t items h.1, ◌>>=◌, byte) refl
  nbt_pack_node_data-wire (compound cs) h = nbt_pack_node-wire cs h
  nbt_pack_node_data-wire (int_array a) h = write_array-wire 4 a h
  nbt_pack_node_data-wire (long_array a) h = write_array-wire 8 a h

  nbt_pack_items-wire :
      (t : ℕ) (cs : Children) → ItemsFit t cs → nbt_pack_items cs ≡ ok (wire_items cs)
  nbt_pack_items-wire t empty h = refl
  nbt_pack_items-wire t (child name v cs) h =
      rw (nbt_pack_node_data-wire v h.2, ◌>>=◌, nbt_pack_items-wire t cs h.3)

  nbt_pack_node-wire : (cs : Children) → ChildrenFit cs → nbt_pack_node cs ≡ ok (wire_children cs)
  nbt_pack_node-wire empty h = refl
  nbt_pack_node-wire (child (chars s) v cs) h =
      rw (write_name s h.0, ◌>>=◌, nbt_pack_node_data-wire v h.1, ◌>>=◌, nbt_pack_node-wire cs h.2)
  nbt_pack_node-wire (child null v cs) h = absurd h.0
  nbt_pack_node-wire (child dangling v cs) h = absurd h.0
  nbt_pack_node-wire (child garbage v cs) h = absurd h.0

whole : (n : ℕ) (bytes : List ℕ) → length bytes ≡ n → written_to n bytes ≡ ok bytes
unfolding written_to
whole n bytes h = ground arith

abbrev pub root_bytes : Name → Children → List ℕ
root_bytes name cs = tag_compound ∷ (wire_name name ++ wire_children cs)

-- For a compound root with no name or a name of 1 to 65535 characters, whose tree fits the format:
-- `nbt_pack` returns the bytes that the format gives the tree, so they fill the block that
-- `nbt_len` computed exactly and the assert holds.
pub nbt_pack-root_bytes :
    (name : Name) (cs : Children)
    → IsRootName name
    → ChildrenFit cs
    → nbt_pack (record { name = name; value = compound cs }) ≡ ok (root_bytes name cs)
unfolding nbt_pack wire_name be_bytes wire_children
nbt_pack-root_bytes null cs n h =
    rw (nbt_node_len-wire cs h, ◌>>=◌, nbt_pack_node-wire cs h, ◌>>=◌)
      (whole (3 + length (wire_children cs)) (root_bytes null cs)
        (omega (arith, length-append (wire_name null) (wire_children cs), length-be_bytes 2 0)))
nbt_pack-root_bytes (chars s) cs n h =
    rw
      (
        until_zero-eq_self s n.nonzero,
        nbt_node_len-wire cs h,
        ◌>>=◌,
        nbt_pack_node-wire cs h,
        ◌>>=◌,
      )
      (whole (3 + length s + length (wire_children cs)) (root_bytes (chars s) cs)
        (omega (arith, length-append (wire_name (chars s)) (wire_children cs), length_name s)))
nbt_pack-root_bytes dangling cs n h = absurd n
nbt_pack-root_bytes garbage cs n h = absurd n
