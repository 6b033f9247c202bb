-- ===== src/Anvil/Names.antt =====
-- libs/anvil/anvil.c: the buffer of a block's name has room for the name and the properties, in
-- whatever order they are.
use chowder.Prelude.Text.{all, all_append, array_text-append, codes}
use chowder.Prelude.{
  ok_injective, held, ℕ, suc, ◌+◌, ◌-◌, ◌≡◌, refl, sym, ap, ◌∙◌, Bool, true, false, ◌&&◌, List, [],
  ◌∷◌, ◌++◌, Option, none, some, ◌==◌, ltb, length, drop, set, replicate, Run, ok, ◌>>=◌, arith,
  Holds, holds, length-drop, length-replicate, Holds-if,
}
use mathlib.Core.List.{Perm, IsChain}
use mathlib.Core.List.Perm
use mathlib.Core.Path.{transport}
use native.Mathlib.Nat.{ℕ_set}
use mathlib.Core.Bool.{Bool-set}
use chowder.Prelude.Int.{ℤ, pos, negsuc}
use chowder.Nbt.Wire.{text}
use chowder.Nbt.{Nbt, tag_compound}
use chowder.Nbt.Search.{nbt_get}
use chowder.Anvil.{
  Libc, BlockTable, tag_string, children_of, add_properties_length,
  block_name_and_properties_length, block_property_cmp, sorted_properties, block_id,
  palette_entry_to_block_id,
}
use chowder.Anvil.Buffer.{
  is_nonzero, is_string, string_text, fine_property, properties_text, total_length, all_fine,
  string_of-text, c_string-text, is_string-all, buffer, strcat-buffer, add_properties_length-total,
  append_properties-buffer, properties_text-all,
}

-- In any order the properties have the same length, and are named strings.
total_length-perm : (ps qs : List Nbt) → Perm ps qs → total_length ps ≡ total_length qs
total_length-perm ps qs h = Perm.foldr-eq ℕ_set _ (λ p q n. omega arith) h 0

all_fine-perm : (ps qs : List Nbt) → Perm ps qs → all_fine ps ≡ all_fine qs
all_fine-perm ps qs h =
    Perm.foldr-eq Bool-set _ (λ p q b. and_swap (fine_property p) (fine_property q) b) h true
  where
    and_swap : (x y z : Bool) → x && (y && z) ≡ (y && (x && z))
    and_swap true y z = refl
    and_swap false true z = refl
    and_swap false false z = refl

-- The children of the compound of properties, where there is one.
abbrev pub property_nodes : Option Nbt → Run (List Nbt)
property_nodes none = ok []
property_nodes (some p) = children_of p.value

fresh_buffer : (n stale : ℕ) → set (replicate (n + 1) stale) 0 0 ≡ buffer [] (replicate n stale)
fresh_buffer n stale = ap (λ (k : ℕ). set (replicate k stale) 0 0) {y = suc n} (omega arith)

length-of_block :
    (properties : Option Nbt) (ps : List Nbt) (n : ℕ)
    → property_nodes properties ≡ ok ps
    → all_fine ps ≡ true
    → (elim properties as (λ _. Run ℕ) [
      | none ↦ ok n
      | some p ↦ (children_of p.value >>= λ qs. add_properties_length n qs)
    ])
      ≡ ok (n + total_length ps)
unfolding add_properties_length
length-of_block none ps n e fine =
    add_properties_length-total n [] refl
    ∙ ap (λ qs. ok (n + total_length qs)) (ok_injective [] ps e)
length-of_block (some p) ps n e fine = rw (e, ◌>>=◌) (add_properties_length-total n ps fine)

abbrev pub is_not_positive : ℤ → Bool
is_not_positive (pos n) = n == 0
is_not_positive (negsuc n) = true

-- The name of one node is not behind that of the other.
abbrev pub IsInOrder : Libc → Nbt → Nbt → Type 0
IsInOrder libc p q = is_not_positive (libc.strcoll (text p.name) (text q.name)) ≡ true

-- A comparison that compares the names as `strcoll` does.
abbrev pub ComparesNames : Libc → (Nbt → Nbt → Run ℤ) → Type 0
ComparesNames libc cmp =
    (p q : Nbt)
    → fine_property p ≡ true
    → fine_property q ≡ true
    → cmp p q ≡ ok (libc.strcoll (text p.name) (text q.name))

block_property_cmp-ComparesNames : (libc : Libc) → ComparesNames libc (block_property_cmp libc)
unfolding block_property_cmp
block_property_cmp-ComparesNames libc p q h k =
    rw
      (
        c_string-text p.name (ground (arith, h)),
        ◌>>=◌,
        c_string-text q.name (ground (arith, k)),
        ◌>>=◌,
      )
      refl

-- One of the lists that `qsort` may give.
abbrev pub IsSorting : Libc → List Nbt → List Nbt → Type 0
IsSorting libc ps qs = Perm ps qs × IsChain (IsInOrder libc) qs

short-IsSorting : (libc : Libc) (ps : List Nbt) → ltb 1 (length ps) ≡ false → IsSorting libc ps ps
short-IsSorting libc [] h = (Perm.refl [], IsChain.nil)
short-IsSorting libc (p ∷ []) h = (Perm.refl (p ∷ []), IsChain.singleton p)
short-IsSorting libc (p ∷ q ∷ ps) h = ground (arith, h)

-- `qsort` with the comparison of the code sorts the properties, and shorter lists are sorted.
module _ (libc : Libc)
    (qsort_sorts : (cmp : Nbt → Nbt → Run ℤ) (ps : List Nbt)
      → ComparesNames libc cmp
      → all_fine ps ≡ true
      → Holds (IsSorting libc ps) (libc.qsort cmp ps)) where
  sorted_properties-IsSorting :
      (properties : Option Nbt) (ps : List Nbt)
      → property_nodes properties ≡ ok ps
      → all_fine ps ≡ true
      → Holds (IsSorting libc ps) (elim properties as (λ _. Run (List Nbt)) [
        | none ↦ ok []
        | some p ↦ sorted_properties libc p
      ])
  unfolding sorted_properties
  sorted_properties-IsSorting none ps e fine = holds [] (
      transport (ap (λ qs. IsSorting libc qs []) (ok_injective [] ps e))
        (Perm.refl [], IsChain.nil))
  sorted_properties-IsSorting (some p) ps e fine =
      rw (e, ◌>>=◌)
        (Holds-if (ltb 1 (length ps))
          (λ _. qsort_sorts _ ps (block_property_cmp-ComparesNames libc) fine)
          (λ short. holds ps (short-IsSorting libc ps short)))

  -- Where `qsort`, given a comparison that compares the names of named strings as `strcoll` does,
  -- gives a permutation of them in which no name is behind the next one, and for a block with a
  -- name, and properties that are named strings or none: `palette_entry_to_block_id` gives what the
  -- table has for the name followed by `;key=value` for each property, with the properties in the
  -- order of their names by `strcoll`, and never writes behind the end of the block for the name.
  pub palette_entry_to_block_id_lem :
      (t : BlockTable) (block block_name : Nbt) (properties : Option Nbt) (ps : List Nbt)
      → nbt_get tag_string (codes "Name") block ≡ ok (some block_name)
      → is_string block_name.value ≡ true
      → nbt_get tag_compound (codes "Properties") block ≡ ok properties
      → property_nodes properties ≡ ok ps
      → all_fine ps ≡ true
      → (qs : List Nbt) × IsSorting libc ps qs
        × (palette_entry_to_block_id libc t block
            ≡ block_id t (string_text block_name.value ++ properties_text qs))
  unfolding palette_entry_to_block_id block_name_and_properties_length all
  palette_entry_to_block_id_lem t block block_name properties ps has_name named has_properties
        listed fine =
      let cs = string_text block_name.value in
      let cs_all = is_string-all block_name.value named in
      let (qs, sorted, sorting) = held (sorted_properties-IsSorting properties ps listed fine) in
      let perm : Perm ps qs = sorting.0 in
      let fine' : all_fine qs ≡ true = sym (all_fine-perm ps qs perm) ∙ fine in
      let total = total_length-perm ps qs perm in
      let room = replicate (length cs + total_length ps) libc.stale in
      let wide : length room ≡ length cs + total_length ps =
        length-replicate (length cs + total_length ps) libc.stale in
      let rest : length (drop (length cs) room) ≡ length room - length cs =
        length-drop (length cs) room in
      let (room', appended) =
        append_properties-buffer cs (drop (length cs) room) qs cs_all fine'
          (omega (arith, wide, rest, total)) in
      let text_all =
        all_append is_nonzero cs (properties_text qs) cs_all (properties_text-all qs fine') in
      (
        qs,
        sorting,
        rw
            (
              has_name,
              ◌>>=◌,
              string_of-text block_name.value named,
              ◌>>=◌,
              has_properties,
              ◌>>=◌,
              length-of_block properties ps (length cs) listed fine,
              ◌>>=◌,
              sorted,
              ◌>>=◌,
              fresh_buffer (length cs + total_length ps) libc.stale,
              strcat-buffer [] cs room refl (omega (arith, wide)),
              ◌>>=◌,
              appended,
              ◌>>=◌,
              array_text-append (cs ++ properties_text qs) room' text_all,
              ◌>>=◌,
            )
            refl,
      )
