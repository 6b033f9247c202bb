-- ===== src/Nbt/Found.antt =====
-- libs/nbt/nbt.c: the searches against the list of all nodes in the order in which they stand.
use chowder.Prelude.{
  ℕ, ◌≡◌, refl, ◌∙◌, Bool, true, false, ◌&&◌, List, [], ◌∷◌, ◌++◌, Option, none, some,
  if◌then◌else◌, ◌==◌, arith, ok, ◌>>=◌,
}
use mathlib.Core.Path.{ap₂}
use chowder.Nbt.{
  Name, dangling, null, chars, garbage, NbtData, unset, t_byte, list, compound, Children, empty,
  child, Nbt, tag, tag_compound,
}
use chowder.Nbt.Wire.{text, IsText, Fits, ItemsFit, ChildrenFit}
use chowder.Nbt.Written.{until_zero-eq_self}
use chowder.Prelude.Text.{same_text}
use chowder.Nbt.Search.{
  is_named, or_else, search_below, nbt_list_search, nbt_tree_search, nbt_get, nbt_find,
}

-- A node, then what is below it, then the nodes behind it; with `false` only the children.
unfoldable mutual
  pub nodes_below : Bool → NbtData → List Nbt
  nodes_below recurse (compound cs) = let all = nodes_of recurse cs in if recurse then all else []
  nodes_below recurse (list type items) =
      let all = item_nodes items in if (type == tag_compound) && recurse then all else []
  nodes_below recurse value = []

  pub item_nodes : Children → List Nbt
  item_nodes empty = []
  item_nodes (child name value items) = nodes_below true value ++ item_nodes items

  pub nodes_of : Bool → Children → List Nbt
  nodes_of recurse empty = []
  nodes_of recurse (child name value cs) =
      (record { name = name; value = value } ∷ nodes_below recurse value) ++ nodes_of recurse cs

unfoldable pub first : ℕ → List ℕ → List Nbt → Option Nbt
first t name [] = none
first t name (n ∷ ns) =
    if (tag n.value == t) && same_text (text n.name) name then some n else first t name ns

first-append :
    (t : ℕ) (name : List ℕ) (xs ys : List Nbt)
    → first t name (xs ++ ys) ≡ elim (first t name xs) [ some n ↦ some n | none ↦ first t name ys ]
unfolding first
first-append t name [] ys = refl
first-append t name (x ∷ xs) ys = ground (arith, first-append t name xs ys)

or_else-first :
    (t : ℕ) (name : List ℕ) (xs ys : List Nbt)
    → or_else (ok (first t name xs)) (ok (first t name ys)) ≡ ok (first t name (xs ++ ys))
or_else-first t name xs ys = ground (arith, first-append t name xs ys)

is_named-text :
    (t : ℕ) (name cs : List ℕ) (v : NbtData)
    → IsText cs
    → is_named t name (chars cs) v ≡ ok ((tag v == t) && same_text cs name)
unfolding is_named
is_named-text t name cs v h = rw (until_zero-eq_self cs h.nonzero) (ground arith)

module _ (t : ℕ) (name : List ℕ) where
  tree_round :
      (recurse : Bool) (child_name : Name) (v : NbtData) (cs : Children)
      → nbt_tree_search t name recurse (child child_name v cs)
        ≡ or_else
            (is_named t name child_name v >>= λ found.
              if found
              then ok (some (record { name = child_name; value = v }))
              else search_below t name recurse v)
            (nbt_tree_search t name recurse cs)
  unfolding nbt_tree_search
  tree_round recurse child_name v cs = refl

  here_or_below :
      (b : Bool) (n : Nbt) (below : List Nbt)
      → ((tag n.value == t) && same_text (text n.name) name) ≡ b
      → (if b then ok (some n) else ok (first t name below)) ≡ ok (first t name (n ∷ below))
  unfolding first
  here_or_below true n below e = rw e refl
  here_or_below false n below e = rw e refl

  tree_step :
      (recurse : Bool) (s : List ℕ) (v : NbtData) (cs : Children)
      → IsText s
      → search_below t name recurse v ≡ ok (first t name (nodes_below recurse v))
      → nbt_tree_search t name recurse cs ≡ ok (first t name (nodes_of recurse cs))
      → nbt_tree_search t name recurse (child (chars s) v cs)
        ≡ ok (first t name (nodes_of recurse (child (chars s) v cs)))
  unfolding nodes_of
  tree_step recurse s v cs h below rest =
      let n : Nbt = record { name = chars s; value = v } in
      let here = here_or_below ((tag v == t) && same_text s name) n (nodes_below recurse v) refl in
      tree_round recurse (chars s) v cs
      ∙ ap₂ (λ a b. or_else a b) {y = ok (first t name (n ∷ nodes_below recurse v))}
          (rw (is_named-text t name s v h, ◌>>=◌, below) here) rest
      ∙ or_else-first t name (n ∷ nodes_below recurse v) (nodes_of recurse cs)

  list_here :
      (b : Bool) (type : ℕ) (items : Children)
      → (type == tag_compound) ≡ b
      → (type ≡ tag_compound → nbt_list_search t name items ≡ ok (first t name (item_nodes items)))
      → search_below t name true (list type items)
        ≡ ok (first t name (nodes_below true (list type items)))
  unfolding search_below nodes_below first
  list_here true type items e h = rw e (h (ground arith))
  list_here false type items e h = rw e refl

  list_step :
      (recurse : Bool) (type : ℕ) (items : Children)
      → (type ≡ tag_compound → nbt_list_search t name items ≡ ok (first t name (item_nodes items)))
      → search_below t name recurse (list type items)
        ≡ ok (first t name (nodes_below recurse (list type items)))
  unfolding search_below nodes_below first
  list_step false type items h = ground arith
  list_step true type items h = list_here (type == tag_compound) type items refl h

  mutual
    unfolding search_below nodes_below Fits first

    search_below-first :
        (recurse : Bool) (v : NbtData)
        → Fits v
        → search_below t name recurse v ≡ ok (first t name (nodes_below recurse v))
    search_below-first true (compound cs) h = nbt_tree_search-first true cs h
    search_below-first false (compound cs) h = refl
    search_below-first recurse (list type items) h =
        list_step recurse type items (λ e. nbt_list_search-first type items e h.1)
    search_below-first recurse (unset u) h = absurd h
    search_below-first recurse (t_byte b) h = refl
    search_below-first recurse v h = refl

    nbt_list_search-first :
        (u : ℕ) (items : Children)
        → u ≡ tag_compound
        → ItemsFit u items
        → nbt_list_search t name items ≡ ok (first t name (item_nodes items))
    nbt_list_search-first u empty e h = refl
    nbt_list_search-first u (child s (compound cs) items) e h =
        ap₂ (λ a b. or_else a b) (nbt_tree_search-first true cs h.2)
          (nbt_list_search-first u items e h.3)
        ∙ or_else-first t name (nodes_of true cs) (item_nodes items)
    nbt_list_search-first u (child s (unset w) items) e h = absurd h.2
    nbt_list_search-first u (child s (t_byte b) items) e h = absurd (omega (arith, e, h.1))
    nbt_list_search-first u (child s v items) e h = absurd (omega (arith, e, h.1))

    nbt_tree_search-first :
        (recurse : Bool) (cs : Children)
        → ChildrenFit cs
        → nbt_tree_search t name recurse cs ≡ ok (first t name (nodes_of recurse cs))
    nbt_tree_search-first recurse empty h = refl
    nbt_tree_search-first recurse (child (chars s) v cs) h =
        tree_step recurse s v cs h.0 (search_below-first recurse v h.1)
          (nbt_tree_search-first recurse cs h.2)
    nbt_tree_search-first recurse (child null v cs) h = absurd h.0
    nbt_tree_search-first recurse (child dangling v cs) h = absurd h.0
    nbt_tree_search-first recurse (child garbage v cs) h = absurd h.0

  -- For a compound root whose tree fits the format: `nbt_get` returns the first of its children
  -- with the tag and the name, and `nbt_find` the first of all named tags below it, in the order in
  -- which they are packed, through compounds and through lists of compounds, or nothing where there
  -- is none.
  pub nbt_get-nbt_find-first :
      (root_name : Name) (cs : Children)
      → ChildrenFit cs
      → (nbt_get t name (record { name = root_name; value = compound cs })
          ≡ ok (first t name (nodes_of false cs)))
        × (nbt_find t name (record { name = root_name; value = compound cs })
            ≡ ok (first t name (nodes_of true cs)))
  unfolding nbt_get nbt_find
  nbt_get-nbt_find-first root_name cs h =
      (nbt_tree_search-first false cs h, nbt_tree_search-first true cs h)
