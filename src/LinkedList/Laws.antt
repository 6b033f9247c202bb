-- ===== src/LinkedList/Laws.antt =====
-- libs/list/list.c: the functions on a store that holds a list, and on the nodes of others.
use chowder.Prelude.{
  ℕ, zero, suc, ◌<◌, ◌≤◌, ◌≡◌, ◌≢◌, refl, ap, ◌∙◌, Bool, true, false, List, [], ◌∷◌, ◌++◌, length,
  All, none, some, if◌then◌else◌, Run, ok, need, ◌>>=◌, arith,
}
use chowder.LinkedList.{
  Pointer, Node, Store, put, empty_node, list_prepend, list_append, append_loop, list_remove,
  list_len, list_find, list_free, list_empty, list_item, list_next, next_of,
}
use chowder.LinkedList.Chain.{
  Chain, last, Chain-last, Chain-prepended, Chain-appended, Chain-removed, prepended, last_kept,
}

list_empty-last : (s : Store) (p : ℕ) → s.cell p ≡ some empty_node → list_empty s p ≡ ok true
unfolding list_empty
list_empty-last s p e = rw (e, ◌>>=◌) refl

list_empty-node :
    (s : Store) (p q : ℕ) (x : Pointer)
    → s.cell p ≡ some (record { datum = x; next = some q })
    → list_empty s p ≡ ok false
unfolding list_empty
list_empty-node s p q none e = rw (e, ◌>>=◌) refl
list_empty-node s p q (some d) e = rw (e, ◌>>=◌) refl

list_prepend-node :
    (s : Store) (p : ℕ) (old : Node) (x : Pointer)
    → s.cell p ≡ some old
    → list_prepend s p x ≡ ok (prepended s p old x)
unfolding list_prepend
list_prepend-node s p old x e = rw (e, ◌>>=◌) refl

next_of-node :
    (s : Store) (p q : ℕ) (x : Pointer)
    → s.cell p ≡ some (record { datum = x; next = some q })
    → next_of s p ≡ ok q
unfolding next_of
next_of-node s p q x e = rw (e, ◌>>=◌) refl

list_next-node :
    (s : Store) (p q : ℕ) (x : Pointer)
    → s.cell p ≡ some (record { datum = x; next = some q })
    → list_next s (some p) ≡ ok (some q)
unfolding list_next
list_next-node s p q x e = rw (e, ◌>>=◌) refl

-- The item is the first one then.
pub list_prepend_lem :
    (s : Store) (p : ℕ) (x : Pointer) (xs : List Pointer) (ps : List ℕ) (other : ℕ)
    → Chain s p xs ps
    → All (λ r. r ≢ other) (p ∷ ps)
    → other < s.fresh
    → (t : Store) × (list_prepend s p x ≡ ok t)
      × Chain t p (x ∷ xs) (s.fresh ∷ ps)
      × (t.cell other ≡ s.cell other)
list_prepend_lem s p x xs ps other h far older =
    let (old, here, after) = Chain-prepended s p x xs ps h in
    (prepended s p old x, list_prepend-node s p old x here, after, ground (arith, far.0, older))

-- The node before the empty one.
abbrev before : ℕ → ℕ → List ℕ → ℕ
before p q [] = p
before p q (r ∷ rs) = before q r rs

append_loop-before :
    (f : ℕ) (s : Store) (p q : ℕ) (x : Pointer) (xs : List Pointer) (qs : List ℕ)
    → length xs < f
    → Chain s p (x ∷ xs) (q ∷ qs)
    → (append_loop f s p ≡ ok (before p q qs)) × (next_of s (before p q qs) ≡ ok (last q qs))
unfolding append_loop Chain
append_loop-before zero s p q x xs qs enough h = absurd (omega (arith, enough))
append_loop-before (suc f) s p q x [] [] enough h = (
  rw (next_of-node s p q x h.0, ◌>>=◌, list_empty-last s q h.3.0, ◌>>=◌) refl,
  next_of-node s p q x h.0,
)
append_loop-before (suc f) s p q x (y ∷ xs) (r ∷ rs) enough h =
    let rest = append_loop-before f s q r y xs rs (omega (arith, enough)) h.3 in
    (
      rw
          (
            next_of-node s p q x h.0,
            ◌>>=◌,
            list_empty-node s q r y h.3.0,
            ◌>>=◌,
            list_next-node s p q x h.0,
            ◌>>=◌,
            need,
            ◌>>=◌,
          )
          rest.0,
      rest.1,
    )
append_loop-before (suc f) s p q x [] (r ∷ rs) enough h = absurd h.3
append_loop-before (suc f) s p q x (y ∷ xs) [] enough h = absurd h.3

-- In a store in which the nodes from `p` on hold the items `xs` and no node comes twice, and for
-- another node that was handed out and is not one of them: with as much fuel as there are items,
-- `list_append` succeeds and from `p` on the store holds `xs` with the new item at the end, one new
-- node is used, and the other node is as it was.
pub list_append_lem :
    (f : ℕ) (s : Store) (p : ℕ) (x : Pointer) (xs : List Pointer) (ps : List ℕ) (other : ℕ)
    → length xs ≤ f
    → Chain s p xs ps
    → All (λ r. r ≢ other) (p ∷ ps)
    → other < s.fresh
    → (t : Store) × (list_append f s p x ≡ ok t)
      × Chain t p (xs ++ (x ∷ [])) (ps ++ (s.fresh ∷ []))
      × (t.cell other ≡ s.cell other)
unfolding list_append Chain
list_append_lem f s p x [] [] other enough h far older = (
  prepended s p empty_node x,
  rw (list_empty-last s p h.0, ◌>>=◌) (list_prepend-node s p empty_node x h.0),
  Chain-appended s p x [] [] h,
  ground (arith, far.0, older),
)
list_append_lem f s p x (y ∷ xs) (q ∷ qs) other enough h far older =
    let looped = append_loop-before f s p q y xs qs (omega (arith, enough)) h in
    let away : last q qs ≢ other = last_kept (λ r. r ≢ other) q qs far.1 in
    (
      prepended s (last q qs) empty_node x,
      rw (list_empty-node s p q y h.0, ◌>>=◌, looped.0, ◌>>=◌, looped.1, ◌>>=◌)
          (list_prepend-node s (last q qs) empty_node x (Chain-last s q xs qs h.3)),
      Chain-appended s p x (y ∷ xs) (q ∷ qs) h,
      ground (arith, away, older),
    )
list_append_lem f s p x [] (q ∷ qs) other enough h far older = absurd h
list_append_lem f s p x (y ∷ xs) [] other enough h far older = absurd h

-- In a store in which the nodes from `p` on hold `x` and then `xs`, no node comes twice, and
-- another node is not one of them: `list_remove` returns `x`, from `p` on the store holds `xs`, the
-- second node is freed, and the other node is as it was.
pub list_remove_lem :
    (s : Store) (p q : ℕ) (x : Pointer) (xs : List Pointer) (qs : List ℕ) (other : ℕ)
    → Chain s p (x ∷ xs) (q ∷ qs)
    → All (λ r. r ≢ other) (p ∷ q ∷ qs)
    → (t : Store) × (list_remove s p ≡ ok (x, t))
      × Chain t p xs qs
      × (t.cell q ≡ none)
      × (t.cell other ≡ s.cell other)
unfolding list_remove Chain
list_remove_lem s p q x xs qs other h far =
    let (after, second, tail) = Chain-removed s p q x xs qs h in
    (
      put (put s p (some after)) q none,
      rw (h.0, ◌>>=◌, need, ◌>>=◌, second, ◌>>=◌) refl,
      tail,
      ground (arith),
      ground (arith, far.0, far.1),
    )

-- The recursion is as deep as the list is long.
pub list_len_lem :
    (f : ℕ) (s : Store) (p : ℕ) (xs : List Pointer) (ps : List ℕ)
    → length xs < f
    → Chain s p xs ps
    → list_len f s p ≡ ok (length xs)
unfolding list_len Chain
list_len_lem zero s p xs ps enough h = absurd (omega (arith, enough))
list_len_lem (suc f) s p [] [] enough h = rw (list_empty-last s p h.0, ◌>>=◌) refl
list_len_lem (suc f) s p (x ∷ xs) (q ∷ qs) enough h =
    rw
      (
        list_empty-node s p q x h.0,
        ◌>>=◌,
        next_of-node s p q x h.0,
        ◌>>=◌,
        list_len_lem f s q xs qs (omega (arith, enough)) h.3,
        ◌>>=◌,
      )
      (ap (λ (n : ℕ). ok n) (omega arith))
list_len_lem (suc f) s p [] (q ∷ qs) enough h = absurd h
list_len_lem (suc f) s p (x ∷ xs) [] enough h = absurd h

-- The part of the list from the first item on that is equal to `item`.
unfoldable pub from_first : (Pointer → Bool) → List Pointer → List Pointer
from_first equal [] = []
from_first equal (x ∷ xs) = let rest = from_first equal xs in if equal x then x ∷ xs else rest

list_item-node :
    (s : Store) (p q : ℕ) (x : Pointer)
    → s.cell p ≡ some (record { datum = x; next = some q })
    → list_item s p ≡ ok x
unfolding list_item
list_item-node s p q x e = rw (list_empty-node s p q x e, ◌>>=◌, e, ◌>>=◌) refl

found_or_later :
    (b : Bool) (s : Store) (p : ℕ) (xs : List Pointer) (ps : List ℕ) (later : Run ℕ)
    (ys : List Pointer)
    → Chain s p xs ps
    → ((r : ℕ) × (rs : List ℕ) × (later ≡ ok r) × Chain s r ys rs)
    → (r : ℕ) × (rs : List ℕ) × ((if b then ok p else later) ≡ ok r)
      × Chain s r (if b then xs else ys) rs
found_or_later true s p xs ps later ys h rest = (p, ps, refl, h)
found_or_later false s p xs ps later ys h rest = rest

-- In a store in which the nodes from `p` on hold the items `xs`, with more fuel than there are
-- items: `list_find` returns a node from which on the store holds the part of `xs` from the first
-- item on that is equal to the one asked for, and none where there is no such item.
pub list_find_lem :
    (f : ℕ) (s : Store) (p : ℕ) (equal : Pointer → Pointer → Bool) (item : Pointer)
    (xs : List Pointer) (ps : List ℕ)
    → length xs < f
    → Chain s p xs ps
    → (r : ℕ) × (rs : List ℕ) × (list_find f s p equal item ≡ ok r)
      × Chain s r (from_first (λ x. equal x item) xs) rs
unfolding list_find Chain from_first
list_find_lem zero s p equal item xs ps enough h = absurd (omega (arith, enough))
list_find_lem (suc f) s p equal item [] [] enough h =
    (p, [], rw (list_empty-last s p h.0, ◌>>=◌) refl, h)
list_find_lem (suc f) s p equal item (x ∷ xs) (q ∷ qs) enough h =
    let rest = list_find_lem f s q equal item xs qs (omega (arith, enough)) h.3 in
    let step : list_find (suc f) s p equal item
        ≡ (if equal x item then ok p else list_find f s q equal item) =
      rw
        (
          list_item-node s p q x h.0,
          list_empty-node s p q x h.0,
          ◌>>=◌,
          list_next-node s p q x h.0,
          ◌>>=◌,
          need,
          ◌>>=◌,
        )
        refl in
    let found =
      found_or_later (equal x item) s p (x ∷ xs) (q ∷ qs) (list_find f s q equal item)
        (from_first (λ y. equal y item) xs) h rest in
    (found.0, found.1, step ∙ found.2, found.3)
list_find_lem (suc f) s p equal item [] (q ∷ qs) enough h = absurd h
list_find_lem (suc f) s p equal item (x ∷ xs) [] enough h = absurd h

Chain-apart :
    (s : Store) (p : ℕ) (xs : List Pointer) (ps : List ℕ) → Chain s p xs ps → All (λ r. r ≢ p) ps
unfolding Chain
Chain-apart s p [] [] h = tt
Chain-apart s p (x ∷ xs) (q ∷ qs) h = h.2
Chain-apart s p [] (q ∷ qs) h = absurd h
Chain-apart s p (x ∷ xs) [] h = absurd h

list_free-Chain :
    (f : ℕ) (s : Store) (p : ℕ) (xs : List Pointer) (ps : List ℕ)
    → length xs < f
    → Chain s p xs ps
    → (t : Store) × (list_free f s p ≡ ok (xs, t))
      × All (λ r. t.cell r ≡ none) (p ∷ ps)
      × ((other : ℕ) → All (λ r. r ≢ other) (p ∷ ps) → t.cell other ≡ s.cell other)
unfolding list_free list_remove Chain
list_free-Chain zero s p xs ps enough h = absurd (omega (arith, enough))
list_free-Chain (suc f) s p [] [] enough h = (
  put s p none,
  rw (list_empty-last s p h.0, ◌>>=◌) refl,
  (ground arith, tt),
  λ other far. ground (arith, far.0),
)
list_free-Chain (suc f) s p (x ∷ xs) (q ∷ qs) enough h =
    let (after, second, tail) = Chain-removed s p q x xs qs h in
    let u = put (put s p (some after)) q none in
    let (t, freed, gone, same) = list_free-Chain f u p xs qs (omega (arith, enough)) tail in
    let apart : All (λ r. r ≢ q) (p ∷ qs) = (ground (arith, h.2.0), Chain-apart s q xs qs h.3) in
    let removed : u.cell q ≡ none = ground arith in
    (
      t,
      rw (list_empty-node s p q x h.0, ◌>>=◌, h.0, ◌>>=◌, need, ◌>>=◌, second, ◌>>=◌, freed, ◌>>=◌)
          refl,
      (gone.0, (same q apart ∙ removed, gone.1)),
      λ other far. same other (far.0, far.1.1) ∙ ground (arith, far.0, far.1),
    )
list_free-Chain (suc f) s p [] (q ∷ qs) enough h = absurd h
list_free-Chain (suc f) s p (x ∷ xs) [] enough h = absurd h

-- In a store in which the nodes from `p` on hold the items `xs`, no node comes twice, and another
-- node is not one of them: with more fuel than there are items, `list_free` succeeds without
-- reading or freeing a node twice, frees each item in order, every node of the list is freed, and
-- the other node is as it was.
pub list_free_lem :
    (f : ℕ) (s : Store) (p : ℕ) (xs : List Pointer) (ps : List ℕ) (other : ℕ)
    → length xs < f
    → Chain s p xs ps
    → All (λ r. r ≢ other) (p ∷ ps)
    → (t : Store) × (list_free f s p ≡ ok (xs, t))
      × All (λ r. t.cell r ≡ none) (p ∷ ps)
      × (t.cell other ≡ s.cell other)
list_free_lem f s p xs ps other enough h far =
    let (t, freed, gone, same) = list_free-Chain f s p xs ps enough h in
    (t, freed, gone, same other far)
