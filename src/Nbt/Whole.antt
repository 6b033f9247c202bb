-- ===== src/Nbt/Whole.antt =====
-- libs/nbt/nbt.c: `nbt_pack`, then `nbt_unpack`.
use chowder.Prelude.{
  ℕ, ◌+◌, ◌-◌, ◌^◌, ◌<◌, ◌≤◌, ◌≡◌, refl, sym, ap, ◌∙◌, List, [], ◌∷◌, ◌++◌, length, length-append,
  arith, ok, ◌>>=◌, drop, get_elem?, some,
}
use chowder.Prelude.Bytes.{be_bytes}
use chowder.Nbt.{Name, dangling, null, chars, garbage, compound, Children, tag_compound}
use chowder.Nbt.Pack.{nbt_pack}
use chowder.Nbt.Read.{sub_size, nbt_unpack_node, nbt_read_string}
use chowder.Nbt.Unpack.{nbt_unpack, copy_name}
use chowder.Nbt.Wire.{wire_name, wire_children, IsRootName, ChildrenFit, children_nodes}
use chowder.Nbt.Written.{length_name, nbt_pack-root_bytes, root_bytes, until_zero-eq_self}
use chowder.Nbt.Parsed.{sub_size-le, nbt_read_string-wire_name, nbt_read_string-empty}
use chowder.Nbt.RoundTrip.{At, first_part, second_part, children-wire, children_pos}

abbrev name_len : Name → ℕ
name_len (chars cs) = 2 + length cs
name_len _ = 2

length_root_name : (name : Name) → IsRootName name → length (wire_name name) ≡ name_len name
unfolding wire_name be_bytes
length_root_name null n = refl
length_root_name (chars cs) n = length_name cs
length_root_name dangling n = absurd n
length_root_name garbage n = absurd n

no_text : wire_name null ≡ be_bytes 2 0
unfolding wire_name be_bytes
no_text = refl

read_root_name :
    (name : Name) (rest : List ℕ) (len : ℕ) (from : List ℕ)
    → IsRootName name
    → from ≡ wire_name name ++ rest
    → name_len name < len
    → nbt_read_string null len from ≡ ok (name, name_len name)
read_root_name null rest len from n e fits =
    nbt_read_string-empty null rest len from (e ∙ ap (λ t. t ++ rest) no_text) fits
read_root_name (chars cs) rest len from n e fits =
    nbt_read_string-wire_name null cs rest len from e n fits
read_root_name dangling rest len from n e fits = absurd n
read_root_name garbage rest len from n e fits = absurd n

copy_root_name : (name : Name) → IsRootName name → copy_name name ≡ ok name
unfolding copy_name
copy_root_name null n = refl
copy_root_name (chars cs) n = ap (λ (s : List ℕ). ok (chars s)) (until_zero-eq_self cs n.nonzero)
copy_root_name dangling n = absurd n
copy_root_name garbage n = absurd n

-- What `nbt_unpack` does once the name is read.
unpack_steps :
    (f len k end : ℕ) (bytes : List ℕ) (name : Name) (cs : Children)
    → get_elem? bytes 0 ≡ some tag_compound
    → nbt_read_string null (sub_size len 1) (drop 1 bytes) ≡ ok (name, k)
    → copy_name name ≡ ok name
    → nbt_unpack_node f (1 + k) len bytes ≡ ok (cs, some end)
    → nbt_unpack f len bytes ≡ ok (some (end, record { name = name; value = compound cs }))
unfolding nbt_unpack
unpack_steps f len k end bytes name cs first named copied node =
    rw (first, ◌>>=◌, named, ◌>>=◌, copied, ◌>>=◌, node, ◌>>=◌) refl

-- For a compound root with no name or a name of 1 to 65535 characters, whose tree fits the format,
-- with at least as much fuel as its nodes need, and an announced length that covers the packed
-- bytes and is below 2 ^ 31: `nbt_pack` returns bytes, and `nbt_unpack` of these bytes with any
-- bytes behind them returns their number and the same tree.
pub nbt_unpack-nbt_pack :
    (name : Name) (cs : Children) (f len : ℕ) (rest : List ℕ)
    → IsRootName name
    → ChildrenFit cs
    → children_nodes cs ≤ f
    → length (root_bytes name cs) ≤ len
    → len < 2 ^ 31
    → (bytes : List ℕ) × (nbt_pack (record { name = name; value = compound cs }) ≡ ok bytes)
      × (nbt_unpack f len (bytes ++ rest)
          ≡ ok (some (length bytes, record { name = name; value = compound cs })))
nbt_unpack-nbt_pack name cs f len rest n h enough fits small =
    let all = root_bytes name cs in
    let a : At all 0 len (all ++ rest) rest = record {
      here = refl;
      inside = omega arith;
      small = small;
    } in
    let b =
      second_part (tag_compound ∷ []) (wire_name name ++ wire_children cs) 0 len (all ++ rest) rest
        a in
    let named = first_part (wire_name name) (wire_children cs) 1 len (all ++ rest) rest b in
    let node = second_part (wire_name name) (wire_children cs) 1 len (all ++ rest) rest b in
    let k = length_root_name name n in
    let both = length-append (wire_name name) (wire_children cs) in
    let read : nbt_read_string null (sub_size len 1) (drop 1 (all ++ rest))
        ≡ ok (name, length (wire_name name)) =
      rw (sub_size-le len 1 (omega (arith, fits)) (omega arith)) (
        read_root_name name (wire_children cs ++ rest) (len - 1) (drop 1 (all ++ rest)) n named.here
          (omega (arith, fits, both, k, children_pos cs)))
      ∙ ap (λ (m : ℕ). ok (name, m)) (sym k) in
    let tree =
      children-wire cs f (1 + length (wire_name name)) len (all ++ rest) rest h enough node
        (omega (arith, fits, both)) in
    (
      all,
      nbt_pack-root_bytes name cs n h,
      unpack_steps f len (length (wire_name name))
            (1 + length (wire_name name) + length (wire_children cs)) (all ++ rest) name cs refl
            read (copy_root_name name n) tree
          ∙ ap (λ (m : ℕ). ok (some (m, record { name = name; value = compound cs })))
              (omega (arith, both)),
    )
