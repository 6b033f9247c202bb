-- ===== src/Nbt/Steps.antt =====
-- libs/nbt/nbt.c: one round of each loop of the reader, and the calls between its functions.
use chowder.Prelude.{
  ℕ, suc, ◌+◌, ◌^◌, ◌<◌, ◌≡◌, refl, false, List, arith, ok, ◌>>=◌, ◌==◌, drop, get_elem?, some,
}
use chowder.Prelude.Int.{pos}
use chowder.Nbt.{Name, dangling, null, NbtData, list, Children, empty, child, tag_end}
use chowder.Nbt.Read.{
  sub_size, int32, nbt_read_string, nbt_read_int, nbt_unpack_node_data, nbt_read_list,
  nbt_read_items, nbt_unpack_node,
}

pub items_end :
    (f t n i len : ℕ) (from : List ℕ)
    → nbt_read_items (suc f) t (pos n) (pos n) i len from ≡ ok (empty, i)
unfolding nbt_read_items
items_end f t n i len from = ground arith

pub items_round :
    (f t e n i k j len : ℕ) (from : List ℕ) (v : NbtData) (items : Children)
    → nbt_unpack_node_data f t i len from ≡ ok (v, pos k)
    → 0 < k
    → e < n
    → n < 2 ^ 15
    → nbt_read_items f t (pos (e + 1)) (pos n) (i + k) len from ≡ ok (items, j)
    → nbt_read_items (suc f) t (pos e) (pos n) i len from ≡ ok (child null v items, j)
unfolding nbt_read_items
items_round f t e n i k j len from v items item some_bytes more short later = ground arith

int32_small : (n : ℕ) → n < 2 ^ 15 → int32 n ≡ pos n
int32_small n h = ground arith

pub list_read :
    (f t n j len : ℕ) (from : List ℕ) (items : Children)
    → get_elem? from 0 ≡ some t
    → nbt_read_int 1 len from ≡ ok (some n)
    → n < 2 ^ 15
    → nbt_read_items f t (pos 0) (pos n) 5 len from ≡ ok (items, j)
    → nbt_read_list (suc f) len from ≡ ok (list t items, pos j)
unfolding nbt_read_list
list_read f t n j len from items type count short run =
    rw (type, ◌>>=◌, count, ◌>>=◌, int32_small n short, run) refl

pub children_end :
    (f i len : ℕ) (bytes : List ℕ)
    → get_elem? bytes i ≡ some tag_end
    → i < len
    → nbt_unpack_node (suc f) i len bytes ≡ ok (empty, some (i + 1))
unfolding nbt_unpack_node
children_end f i len bytes here inside = ground arith

pub children_round :
    (f t i n k j len : ℕ) (bytes : List ℕ) (name : Name) (v : NbtData) (cs : Children)
    → get_elem? bytes i ≡ some t
    → (t == tag_end) ≡ false
    → i < len
    → nbt_read_string dangling (sub_size len (i + 1)) (drop (i + 1) bytes) ≡ ok (name, n)
    → nbt_unpack_node_data f t (i + 1 + n) len bytes ≡ ok (v, pos k)
    → 0 < k
    → nbt_unpack_node f (i + 1 + n + k) len bytes ≡ ok (cs, some j)
    → nbt_unpack_node (suc f) i len bytes ≡ ok (child name v cs, some j)
unfolding nbt_unpack_node
children_round f t i n k j len bytes name v cs here not_end inside named value some_bytes later =
    rw (here, ◌>>=◌, named, ◌>>=◌, value, ◌>>=◌, later, ◌>>=◌) (ground arith)
