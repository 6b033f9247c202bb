-- ===== src/Nbt/Search.antt =====
-- libs/nbt/nbt.c: `nbt_get`, `nbt_find` and `nbt_get_value`. A node that is found is returned as its
-- name and its value; `none` is NULL.
use chowder.Prelude.{
  ℕ, Bool, true, false, ◌&&◌, ◌||◌, List, Option, none, some, if◌then◌else◌, leb, ◌==◌, Run, ok,
  fault, assert, uninitialized, ◌>>=◌, ◌>>◌,
}
use chowder.Nbt.{
  Name, NbtData, unset, list, compound, Children, empty, child, Nbt, tag, tag_compound,
}
use chowder.Prelude.Text.{same_text}
use chowder.Nbt.Unpack.{c_string}

-- `child->tag == t && strcmp(child->name, name) == 0`
unfoldable pub is_named : ℕ → List ℕ → Name → NbtData → Run Bool
unfolding same_text c_string
is_named t name child_name value =
    let compared = do cs ← c_string child_name; ok (same_text cs name)
    in if tag value == t then compared else ok false

-- `while (... && node == NULL)`: what was found, or the rest of the loop.
abbrev pub or_else : Run (Option Nbt) → Run (Option Nbt) → Run (Option Nbt)
or_else first rest = do node ← first; elim node [ some n ↦ ok (some n) | none ↦ rest ]

module _ (t : ℕ) (name : List ℕ) where
  unfoldable mutual
    -- The search below a child that is not the one: its children, or those of its items.
    pub search_below : Bool → NbtData → Run (Option Nbt)
    search_below recurse (compound cs) =
        let below = nbt_tree_search recurse cs in if recurse then below else ok none
    search_below recurse (list type items) =
        let below = do assert (type == tag_compound); nbt_list_search items
        in if (type == tag_compound) && recurse then below else ok none
    search_below recurse (unset u) =
        if (u == 9) || ((u == tag_compound) && recurse) then fault uninitialized else ok none
    search_below recurse value = ok none

    pub nbt_list_search : Children → Run (Option Nbt)
    nbt_list_search empty = ok none
    nbt_list_search (child item_name (compound cs) items) =
        or_else (nbt_tree_search true cs) (nbt_list_search items)
    nbt_list_search (child item_name value items) = fault uninitialized

    pub nbt_tree_search : Bool → Children → Run (Option Nbt)
    nbt_tree_search recurse empty = ok none
    nbt_tree_search recurse (child child_name value cs) =
        let node : Nbt = record { name = child_name; value = value } in
        let below = search_below recurse value in
        let here = do
          found ← is_named t name child_name value
          if found then ok (some node) else below
        in or_else here (nbt_tree_search recurse cs)

  -- The children of a root that is no compound are not a list.
  unfoldable pub nbt_get : Nbt → Run (Option Nbt)
  unfolding nbt_tree_search
  nbt_get root = elim root.value [
    | compound cs ↦ nbt_tree_search false cs
    | _ ↦ fault uninitialized
  ]

  unfoldable pub nbt_find : Nbt → Run (Option Nbt)
  unfolding nbt_tree_search
  nbt_find root = elim root.value [
    | compound cs ↦ nbt_tree_search true cs
    | _ ↦ fault uninitialized
  ]

  -- Whether the tag was found, and the member that is copied to `*out`.
  unfoldable pub nbt_get_value : Nbt → Run (Bool × Option NbtData)
  unfolding nbt_get
  nbt_get_value root = do
    node ← nbt_get root
    ok (elim node [
      | none ↦ (false, none)
      | some n ↦ (true, if (t == 0) || leb 13 t then none else some n.value)
    ])
