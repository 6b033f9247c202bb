-- ===== src/Nbt/RoundTrip.antt =====
-- libs/nbt/nbt.c: `nbt_unpack` reads what the NBT format says, and so what `nbt_pack` wrote.
use chowder.Prelude.{
  ℕ, zero, suc, ◌+◌, ◌-◌, ◌^◌, ◌<◌, ◌≤◌, ◌≡◌, refl, sym, ap, ◌∙◌, false, List, [], ◌∷◌, ◌++◌,
  length, length-append, arith, ok, ◌>>=◌, ◌==◌, drop, get_elem?, some, get_elem?-cons-drop,
}
use mathlib.Core.Path.{ap₂}
use mathlib.Core.List.{append_assoc}
use chowder.Prelude.Int.{pos}
use chowder.Prelude.Bytes.{be_bytes, length-be_bytes}
use chowder.Nbt.{
  Name, dangling, null, chars, garbage, unread, elements, NbtData, unset, t_byte, t_short, t_int,
  t_long, t_float, t_double, byte_array, int_array, long_array, string, list, compound, Children,
  empty, child, tag, tag_end,
}
use chowder.Nbt.Pack.{list_len}
use chowder.Nbt.Read.{
  sub_size, nbt_read_number, nbt_read_byte_array, nbt_read_number_array, nbt_unpack_leaf,
  nbt_unpack_node_data, nbt_read_list, nbt_read_items, nbt_unpack_node, nbt_read_string,
}
use chowder.Nbt.Wire.{
  wire_name, wire_elements, wire, wire_items, wire_children, IsText, Fits, ItemsFit, ChildrenFit,
  nodes, children_nodes,
}
use chowder.Nbt.Written.{length_name}
use chowder.Nbt.Parsed.{
  nbt_read_number-be_bytes, sub_size-le, drop_past, drop_past_le, nbt_read_string-wire_name,
}
use chowder.Nbt.Leaves.{leaf_byte, number-be_bytes, byte_array-wire, number_array-wire}
use chowder.Nbt.Steps.{items_end, items_round, list_read, children_end, children_round}

wire_pos : (v : NbtData) → Fits v → 0 < length (wire v)
unfolding Fits wire wire_name wire_elements be_bytes
wire_pos (unset t) h = absurd h
wire_pos (byte_array unread) h = absurd h
wire_pos (int_array unread) h = absurd h
wire_pos (long_array unread) h = absurd h
wire_pos (compound empty) h = omega arith
wire_pos (compound (child name v cs)) h = omega arith
wire_pos (t_byte b) h = omega arith
wire_pos (t_short s) h = omega arith
wire_pos (t_int i) h = omega arith
wire_pos (t_long l) h = omega arith
wire_pos (t_float x) h = omega arith
wire_pos (t_double d) h = omega arith
wire_pos (byte_array (elements es)) h = omega arith
wire_pos (int_array (elements es)) h = omega arith
wire_pos (long_array (elements es)) h = omega arith
wire_pos (string s) h = omega arith
wire_pos (list t items) h = omega arith

pub children_pos : (cs : Children) → 0 < length (wire_children cs)
unfolding wire
children_pos empty = omega arith
children_pos (child name v cs) = omega arith

tag_not_end : (v : NbtData) → Fits v → (tag v == tag_end) ≡ false
unfolding Fits
tag_not_end (unset t) h = absurd h
tag_not_end (t_byte b) h = refl
tag_not_end (t_short s) h = refl
tag_not_end (t_int i) h = refl
tag_not_end (t_long l) h = refl
tag_not_end (t_float x) h = refl
tag_not_end (t_double d) h = refl
tag_not_end (byte_array a) h = refl
tag_not_end (string s) h = refl
tag_not_end (list t items) h = refl
tag_not_end (compound cs) h = refl
tag_not_end (int_array a) h = refl
tag_not_end (long_array a) h = refl

nodes_pos : (v : NbtData) → 0 < nodes v
unfolding nodes
nodes_pos (list t items) = omega arith
nodes_pos (compound cs) = omega arith
nodes_pos (unset t) = omega arith
nodes_pos (t_byte b) = omega arith
nodes_pos (t_short s) = omega arith
nodes_pos (t_int i) = omega arith
nodes_pos (t_long l) = omega arith
nodes_pos (t_float x) = omega arith
nodes_pos (t_double d) = omega arith
nodes_pos (byte_array a) = omega arith
nodes_pos (string s) = omega arith
nodes_pos (int_array a) = omega arith
nodes_pos (long_array a) = omega arith

children_nodes_pos : (cs : Children) → 0 < children_nodes cs
unfolding nodes
children_nodes_pos empty = omega arith
children_nodes_pos (child name v cs) = omega arith

-- The bytes `v` stand at `i`, and `rest` behind them.
pub record At (v : List ℕ) (i len : ℕ) (bytes rest : List ℕ) : Type 0 where
  pub here : drop i bytes ≡ v ++ rest
  pub inside : i ≤ length bytes
  pub small : len < 2 ^ 31

-- The same bytes seen from a pointer to them.
from_there :
    {v : List ℕ} {i len : ℕ} {bytes rest : List ℕ}
    → At v i len bytes rest
    → i + length v < len
    → (sub_size len i ≡ len - i) × (length v < len - i) × (len - i < 2 ^ 31)
from_there {v} {i} {len} a more = (
  sub_size-le len i (omega (arith, more)) (omega (arith, a.small)),
  omega (arith, more),
  omega (arith, a.small),
)

-- The first part of the bytes, and what follows it.
pub first_part :
    (xs ys : List ℕ) (i len : ℕ) (bytes rest : List ℕ)
    → At (xs ++ ys) i len bytes rest
    → At xs i len bytes (ys ++ rest)
first_part xs ys i len bytes rest a = record {
  here = a.here ∙ append_assoc xs ys rest;
  inside = a.inside;
  small = a.small;
}

pub second_part :
    (xs ys : List ℕ) (i len : ℕ) (bytes rest : List ℕ)
    → At (xs ++ ys) i len bytes rest
    → At ys (i + length xs) len bytes rest
second_part xs ys i len bytes rest a =
    let b = first_part xs ys i len bytes rest a in
    record {
      here = drop_past i bytes xs (ys ++ rest) b.here;
      inside = drop_past_le i bytes xs (ys ++ rest) b.here b.inside;
      small = a.small;
    }

list_items :
    (t n i len : ℕ) (w bytes rest : List ℕ)
    → At (t ∷ (be_bytes 4 n ++ w)) i len bytes rest
    → At w 5 (len - i) (drop i bytes) rest
list_items t n i len w bytes rest a =
    let at_start : At (t ∷ (be_bytes 4 n ++ w)) 0 (len - i) (drop i bytes) rest = record {
      here = a.here;
      inside = omega arith;
      small = omega (arith, a.small);
    } in
    let b = second_part (t ∷ be_bytes 4 n) w 0 (len - i) (drop i bytes) rest at_start in rw (five) b
  where
    five : 5 ≡ 0 + length (t ∷ be_bytes 4 n)
    five = omega (arith, length-be_bytes 4 n)

list_wire :
    (g t i len : ℕ) (items : Children) (bytes rest : List ℕ)
    → At (t ∷ (be_bytes 4 (list_len items) ++ wire_items items)) i len bytes rest
    → i + (5 + length (wire_items items)) < len
    → list_len items < 2 ^ 15
    → nbt_read_items g t (pos 0) (pos (list_len items)) 5 (len - i) (drop i bytes)
      ≡ ok (items, 5 + length (wire_items items))
    → nbt_read_list (suc g) (sub_size len i) (drop i bytes)
      ≡ ok (list t items, pos (suc (length (be_bytes 4 (list_len items) ++ wire_items items))))
list_wire g t i len items bytes rest a more short run =
    rw (sub_size-le len i (omega (arith, more)) (omega (arith, a.small))) (
      list_read g t (list_len items) (5 + length (wire_items items)) (len - i) (drop i bytes) items
        type count short run
      ∙ ap (λ (n : ℕ). ok (list t items, pos n)) {x = 5 + length (wire_items items)}
          (omega (
            arith,
            length-append (be_bytes 4 (list_len items)) (wire_items items),
            length-be_bytes 4 (list_len items),
          )))
  where
    type : get_elem? (drop i bytes) 0 ≡ some t
    type = ap (λ (xs : List ℕ). get_elem? xs 0) a.here

    count : nbt_read_number 4 1 (len - i) (drop i bytes) ≡ ok (some (list_len items))
    count =
        nbt_read_number-be_bytes 4 (list_len items) 1 (len - i) (drop i bytes)
          (wire_items items ++ rest)
          (ap (drop 1) a.here ∙ append_assoc (be_bytes 4 (list_len items)) (wire_items items) rest)
          (omega (arith, ap length a.here)) (omega (arith, short)) (omega (arith, more))

pub string_wire :
    (i len : ℕ) (cs bytes rest : List ℕ)
    → At (wire_name (chars cs)) i len bytes rest
    → IsText cs
    → i + length (wire_name (chars cs)) < len
    → nbt_read_string dangling (sub_size len i) (drop i bytes)
      ≡ ok (chars cs, length (wire_name (chars cs)))
string_wire i len cs bytes rest a t more =
    let (same, fits, small) = from_there a more in
    rw same (
      nbt_read_string-wire_name dangling cs rest (len - i) (drop i bytes) a.here t
        (omega (arith, fits, length_name cs)))
    ∙ ap (λ (n : ℕ). ok (chars cs, n)) (sym (length_name cs))

-- The parts of a child, and how far they reach.
record Child (t : ℕ) (s : List ℕ) (w later : List ℕ) (i len : ℕ) (bytes rest : List ℕ)
    : Type 0 where
  pub tag_here : get_elem? bytes i ≡ some t
  pub name_here : At (wire_name (chars s)) (i + 1) len bytes (w ++ (later ++ rest))
  pub value_here : At w (i + 1 + length (wire_name (chars s))) len bytes (later ++ rest)
  pub later_here : At later (i + 1 + length (wire_name (chars s)) + length w) len bytes rest
  pub reach :
      i + suc (length (wire_name (chars s) ++ (w ++ later)))
      ≡ i + 1 + length (wire_name (chars s)) + length w + length later

split_node :
    (t i len : ℕ) (s w later bytes rest : List ℕ)
    → At (t ∷ (wire_name (chars s) ++ (w ++ later))) i len bytes rest
    → Child t s w later i len bytes rest
split_node t i len s w later bytes rest a =
    let b = second_part (t ∷ []) (wire_name (chars s) ++ (w ++ later)) i len bytes rest a in
    let n = first_part (wire_name (chars s)) (w ++ later) (i + 1) len bytes rest b in
    let c = second_part (wire_name (chars s)) (w ++ later) (i + 1) len bytes rest b in
    let d = first_part w later (i + 1 + length (wire_name (chars s))) len bytes rest c in
    let e = second_part w later (i + 1 + length (wire_name (chars s))) len bytes rest c in
    record {
      tag_here = (get_elem?-cons-drop i bytes a.here).0;
      name_here = record {
        here = n.here ∙ ap (λ z. wire_name (chars s) ++ z) (append_assoc w later rest);
        inside = n.inside;
        small = n.small;
      };
      value_here = d;
      later_here = e;
      reach =
          omega (arith, length-append (wire_name (chars s)) (w ++ later), length-append w later);
    }

mutual
  unfolding nbt_unpack_node_data nbt_unpack_leaf wire Fits nodes list_len

  node_data-wire :
      (v : NbtData) (f i len : ℕ) (bytes rest : List ℕ)
      → Fits v
      → nodes v ≤ f
      → At (wire v) i len bytes rest
      → i + length (wire v) < len
      → nbt_unpack_node_data f (tag v) i len bytes ≡ ok (v, pos (length (wire v)))
  node_data-wire v zero i len bytes rest h enough a more =
      absurd (omega (arith, nodes_pos v, enough))
  node_data-wire (unset t) (suc f) i len bytes rest h enough a more = absurd h
  node_data-wire (t_byte b) (suc f) i len bytes rest h enough a more =
      leaf_byte b i len bytes rest a.here (omega (arith, more))
  node_data-wire (t_short s) (suc f) i len bytes rest h enough a more =
      number-be_bytes 2 2 s i len t_short bytes rest a.here a.inside h more
  node_data-wire (t_int n) (suc f) i len bytes rest h enough a more =
      number-be_bytes 3 4 n i len t_int bytes rest a.here a.inside h more
  node_data-wire (t_long n) (suc f) i len bytes rest h enough a more =
      number-be_bytes 4 8 n i len t_long bytes rest a.here a.inside h more
  node_data-wire (t_float x) (suc f) i len bytes rest h enough a more =
      number-be_bytes 5 4 x i len t_float bytes rest a.here a.inside h more
  node_data-wire (t_double d) (suc f) i len bytes rest h enough a more =
      number-be_bytes 6 8 d i len t_double bytes rest a.here a.inside h more
  node_data-wire (byte_array unread) (suc f) i len bytes rest h enough a more = absurd h
  node_data-wire (byte_array (elements es)) (suc f) i len bytes rest h enough a more =
      let (same, fits, small) = from_there a more in
      ap (λ (l : ℕ). nbt_read_byte_array l (drop i bytes)) same
      ∙ (byte_array-wire es rest (len - i) (drop i bytes) a.here h fits small)
  node_data-wire (string (chars cs)) (suc f) i len bytes rest h enough a more =
      rw (string_wire i len cs bytes rest a h more, ◌>>=◌) refl
  node_data-wire (string null) (suc f) i len bytes rest h enough a more = absurd h
  node_data-wire (string dangling) (suc f) i len bytes rest h enough a more = absurd h
  node_data-wire (string garbage) (suc f) i len bytes rest h enough a more = absurd h
  node_data-wire (list t items) (suc zero) i len bytes rest h enough a more =
      absurd (omega (arith, enough))
  node_data-wire (list t items) (suc (suc g)) i len bytes rest h enough a more =
      let fits : i + (5 + length (wire_items items)) < len = omega (
        arith,
        more,
        length-append (be_bytes 4 (list_len items)) (wire_items items),
        length-be_bytes 4 (list_len items),
      ) in
      list_wire g t i len items bytes rest a fits h.0 (
        items-wire items g t 0 (list_len items) 5 (len - i) (drop i bytes) rest h.1
          (omega (arith, enough)) (omega arith) h.0
          (list_items t (list_len items) i len (wire_items items) bytes rest a)
          (omega (arith, fits)))
  node_data-wire (compound cs) (suc f) i len bytes rest h enough a more =
      let read =
        children-wire cs f i len bytes rest h (omega (arith, enough)) a (omega (arith, more)) in
      rw (read, ◌>>=◌) (ground (arith, more))
  node_data-wire (int_array unread) (suc f) i len bytes rest h enough a more = absurd h
  node_data-wire (int_array (elements es)) (suc f) i len bytes rest h enough a more =
      let (same, fits, small) = from_there a more in
      ap (λ (l : ℕ). nbt_read_number_array int_array 4 l (drop i bytes)) same
      ∙ (number_array-wire int_array 4 es rest (len - i) (drop i bytes) a.here h fits small)
  node_data-wire (long_array unread) (suc f) i len bytes rest h enough a more = absurd h
  node_data-wire (long_array (elements es)) (suc f) i len bytes rest h enough a more =
      let (same, fits, small) = from_there a more in
      ap (λ (l : ℕ). nbt_read_number_array long_array 8 l (drop i bytes)) same
      ∙ (number_array-wire long_array 8 es rest (len - i) (drop i bytes) a.here h fits small)

  items-wire :
      (items : Children) (f t e n i len : ℕ) (from rest : List ℕ)
      → ItemsFit t items
      → children_nodes items ≤ f
      → e + list_len items ≡ n
      → n < 2 ^ 15
      → At (wire_items items) i len from rest
      → i + length (wire_items items) < len
      → nbt_read_items f t (pos e) (pos n) i len from ≡ ok (items, i + length (wire_items items))
  items-wire items zero t e n i len from rest h enough count short a more =
      absurd (omega (arith, children_nodes_pos items, enough))
  items-wire empty (suc f) t e n i len from rest h enough count short a more =
      ap (λ (m : ℕ). nbt_read_items (suc f) t (pos e) (pos m) i len from) {x = n} {y = e}
        (omega (arith, count))
      ∙ items_end f t e i len from
      ∙ ap (λ (m : ℕ). ok (empty, m)) {x = i} {y = i + 0} (omega arith)
  items-wire (child name v items) (suc f) t e n i len from rest h enough count short a more =
      let both = length-append (wire v) (wire_items items) in
      let item =
        node_data-wire v f i len from (wire_items items ++ rest) h.2 (omega (arith, enough))
          (first_part (wire v) (wire_items items) i len from rest a) (omega (arith, more, both)) in
      let later =
        items-wire items f t (e + 1) n (i + length (wire v)) len from rest h.3
          (omega (arith, enough)) (omega (arith, count)) short
          (second_part (wire v) (wire_items items) i len from rest a) (omega (arith, more, both)) in
      items_round f t e n i (length (wire v)) (i + length (wire v) + length (wire_items items)) len
        from v items (ap (λ (u : ℕ). nbt_unpack_node_data f u i len from) (sym h.1) ∙ item)
        (wire_pos v h.2) (omega (arith, count)) short later
      ∙ ap₂ (λ (m : Name) (j : ℕ). ok (child m v items, j)) (sym h.0) (omega (arith, both))

  pub children-wire :
      (cs : Children) (f i len : ℕ) (bytes rest : List ℕ)
      → ChildrenFit cs
      → children_nodes cs ≤ f
      → At (wire_children cs) i len bytes rest
      → i + length (wire_children cs) ≤ len
      → nbt_unpack_node f i len bytes ≡ ok (cs, some (i + length (wire_children cs)))
  children-wire cs zero i len bytes rest h enough a more =
      absurd (omega (arith, children_nodes_pos cs, enough))
  children-wire empty (suc f) i len bytes rest h enough a more =
      children_end f i len bytes (get_elem?-cons-drop i bytes a.here).0 (omega (arith, more))
  children-wire (child (chars s) v cs) (suc f) i len bytes rest h enough a more =
      let c = split_node (tag v) i len s (wire v) (wire_children cs) bytes rest a in
      let k = length (wire_name (chars s)) in
      let value =
        node_data-wire v f (i + 1 + k) len bytes (wire_children cs ++ rest) h.1
          (omega (arith, enough)) c.value_here (omega (arith, more, c.reach, children_pos cs)) in
      let later =
        children-wire cs f (i + 1 + k + length (wire v)) len bytes rest h.2 (omega (arith, enough))
          c.later_here (omega (arith, more, c.reach)) in
      children_round f (tag v) i k (length (wire v))
        (i + 1 + k + length (wire v) + length (wire_children cs)) len bytes (chars s) v cs
        c.tag_here (tag_not_end v h.1) (omega (arith, more, c.reach))
        (string_wire (i + 1) len s bytes (wire v ++ (wire_children cs ++ rest)) c.name_here h.0
          (omega (arith, more, c.reach, children_pos cs)))
        value (wire_pos v h.1) later
      ∙ ap (λ (j : ℕ). ok (child (chars s) v cs, some j)) (sym c.reach)
  children-wire (child null v cs) (suc f) i len bytes rest h enough a more = absurd h.0
  children-wire (child dangling v cs) (suc f) i len bytes rest h enough a more = absurd h.0
  children-wire (child garbage v cs) (suc f) i len bytes rest h enough a more = absurd h.0
