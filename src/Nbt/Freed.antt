-- ===== src/Nbt/Freed.antt =====
-- libs/nbt/nbt.c: `nbt_free` on a tree whose members were all set.
use chowder.Prelude.{
  ℕ, Bool, true, false, ap, sym, ◌≡◌, refl, ◌==◌, if◌then◌else◌, List, [], ◌∷◌, ◌++◌, Run, ok,
  ◌>>=◌, Holds, holds, Holds-bind,
}
use mathlib.Core.List.{
  Perm, append_assoc, append-nil, perm_middle, perm_append_comm, perm_append_singleton,
}
use mathlib.Core.List.Perm
use mathlib.Core.Path.{transport}
use chowder.Nbt.{
  Name, dangling, null, chars, garbage, Elements, unread, elements, NbtData, unset, byte_array,
  int_array, long_array, string, list, compound, Children, empty, child, Nbt, tag, tag_compound,
}
use chowder.Nbt.Unpack.{
  Block, string_block, elements_block, array_block, node_block, list_block, cell_block, free_name,
  free_elements, nbt_free_node_data, nbt_free_list, nbt_free_children, nbt_free,
}
use chowder.Nbt.Wire.{IsRootName, Fits, ItemsFit, ChildrenFit}

-- The blocks that a tree owns, listed by what points to them.
abbrev pub name_blocks : Name → List Block
name_blocks (chars cs) = string_block cs ∷ []
name_blocks _ = []

abbrev pub array_blocks : Elements → List Block
array_blocks (elements es) = array_block es ∷ elements_block es ∷ []
array_blocks unread = []

unfoldable mutual
  pub data_blocks : NbtData → List Block
  data_blocks (string s) = name_blocks s
  data_blocks (byte_array a) = array_blocks a
  data_blocks (int_array a) = array_blocks a
  data_blocks (long_array a) = array_blocks a
  data_blocks (list t items) = list_block t ∷ chain_blocks items
  data_blocks (compound cs) = chain_blocks cs
  data_blocks _ = []

  -- A cell for each child and one for the end.
  pub chain_blocks : Children → List Block
  chain_blocks empty = cell_block ∷ []
  chain_blocks (child name value cs) =
      cell_block
      ∷ node_block (tag value)
      ∷ ((name_blocks name ++ data_blocks value) ++ chain_blocks cs)

abbrev pub blocks_of : Nbt → List Block
blocks_of n = node_block (tag n.value) ∷ (name_blocks n.name ++ data_blocks n.value)

-- The name of a compound is freed with its children.
abbrev early : Name → NbtData → List Block
early name v = if tag v == tag_compound then name_blocks name else []

node_behind :
    (b : Block) (owned rest a n rest' : List Block)
    → Perm owned (a ++ n)
    → Perm rest rest'
    → Perm (b ∷ (owned ++ rest)) (a ++ (n ++ b ∷ rest'))
node_behind b owned rest a n rest' h k =
    transport (ap (Perm (b ∷ (owned ++ rest))) (append_assoc a n (b ∷ rest')))
      (Perm.trans (Perm.cons b (Perm.append h k)) (Perm.symm (perm_middle (a ++ n) rest')))

late-Holds :
    (b : Bool) (names owned a : List Block) (m : Run (List Block))
    → m ≡ ok names
    → Perm ((if b then names else []) ++ owned) a
    → Holds (λ n. Perm (names ++ owned) (a ++ n)) (if b then ok [] else m)
late-Holds true names owned a m e h =
    holds [] (transport (ap (Perm (names ++ owned)) (sym (append-nil a))) h)
late-Holds false names owned a m e h =
    rw e (holds names (Perm.trans (perm_append_comm names owned) (Perm.append_right names h)))

without_name :
    (b : Bool) (owned a : List Block)
    → Perm ((if b then [] else []) ++ owned) a
    → Perm owned (a ++ [])
without_name true owned a h = transport (ap (Perm owned) (sym (append-nil a))) h
without_name false owned a h = transport (ap (Perm owned) (sym (append-nil a))) h

mutual
  unfolding nbt_free_node_data free_name free_elements Fits data_blocks

  data-freed :
      (name : Name) (v : NbtData)
      → free_name name ≡ ok (name_blocks name)
      → Fits v
      → Holds (Perm (early name v ++ data_blocks v)) (nbt_free_node_data name v)
  data-freed name (unset t) n h = absurd h
  data-freed name (string (chars cs)) n h = holds _ Perm.rfl
  data-freed name (string null) n h = absurd h
  data-freed name (string dangling) n h = absurd h
  data-freed name (string garbage) n h = absurd h
  data-freed name (byte_array unread) n h = absurd h
  data-freed name (byte_array (elements es)) n h = holds _ (Perm.swap _ _ [])
  data-freed name (int_array unread) n h = absurd h
  data-freed name (int_array (elements es)) n h = holds _ (Perm.swap _ _ [])
  data-freed name (long_array unread) n h = absurd h
  data-freed name (long_array (elements es)) n h = holds _ (Perm.swap _ _ [])
  data-freed name (list t items) n h =
      Holds-bind (list-freed t items h.1) (λ freed p.
        holds _ (Perm.trans (Perm.cons _ p) (perm_append_comm (list_block t ∷ []) freed)))
  data-freed name (compound cs) n h =
      rw (n, ◌>>=◌)
        (Holds-bind (children-freed cs h)
          (λ freed p. holds _ (Perm.append_left (name_blocks name) p)))
  data-freed name v n h = holds _ Perm.rfl

  list-freed :
      (t : ℕ) (items : Children)
      → ItemsFit t items
      → Holds (Perm (chain_blocks items)) (nbt_free_list items)
  list-freed t empty h = holds _ Perm.rfl
  list-freed t (child null v items) h = Holds-bind (data-freed null v refl h.2) (λ a p.
      Holds-bind (list-freed t items h.3) (λ rest r. holds _ (
        Perm.cons cell_block (
          node_behind _ _ _ a [] rest (without_name (tag v == tag_compound) (data_blocks v) a p)
            r))))
  list-freed t (child dangling v items) h = let e = h.0 in cc
  list-freed t (child garbage v items) h = let e = h.0 in cc
  list-freed t (child (chars s) v items) h = let e = h.0 in cc

  children-freed :
      (cs : Children) → ChildrenFit cs → Holds (Perm (chain_blocks cs)) (nbt_free_children cs)
  children-freed empty h = holds _ Perm.rfl
  children-freed (child (chars s) v cs) h = Holds-bind (data-freed (chars s) v refl h.1) (λ a p.
      Holds-bind
        (late-Holds (tag v == tag_compound) (string_block s ∷ []) (data_blocks v) a _ refl p)
        (λ n q.
          Holds-bind (children-freed cs h.2)
            (λ rest r. holds _ (Perm.cons cell_block (node_behind _ _ _ a n rest q r)))))
  children-freed (child null v cs) h = absurd h.0
  children-freed (child dangling v cs) h = absurd h.0
  children-freed (child garbage v cs) h = absurd h.0

free_root_name : (name : Name) → IsRootName name → free_name name ≡ ok (name_blocks name)
unfolding free_name
free_root_name null n = refl
free_root_name (chars cs) n = refl
free_root_name dangling n = absurd n
free_root_name garbage n = absurd n

-- For a compound root with no name or a name of 1 to 65535 characters, whose tree fits the format:
-- `nbt_free` ends without reading a pointer that was not set, and the blocks that it frees are a
-- permutation of the blocks that the tree owns (the names, strings, arrays, tags, lists and cells
-- of lists that its pointers lead to), so none is freed twice and none is left.
pub nbt_free_lem :
    (name : Name) (cs : Children)
    → IsRootName name
    → ChildrenFit cs
    → Holds
        (Perm (blocks_of (record { name = name; value = compound cs })))
        (nbt_free (record { name = name; value = compound cs }))
unfolding nbt_free data_blocks Fits
nbt_free_lem name cs n h =
    Holds-bind (data-freed name (compound cs) (free_root_name name n) h) (λ freed p. holds _ (
      Perm.trans (Perm.cons (node_block tag_compound) p)
        (Perm.symm (perm_append_singleton (node_block tag_compound) freed))))
