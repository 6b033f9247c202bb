-- ===== src/Tests/Chains.antt =====
-- libs/list/list.c: a list of two items, and another node.
use chowder.Prelude.{
  ℕ, ◌≡◌, ◌≢◌, refl, Bool, true, false, [], ◌∷◌, All, none, some, ok, arith, ◌==◌,
}
use chowder.LinkedList.{
  Pointer, Store, update, empty_node, list_append, list_remove, list_free, list_len,
}
use chowder.LinkedList.Chain.{Chain}
use chowder.LinkedList.Laws.{list_append_lem, list_remove_lem, list_free_lem}

abbrev two_items : Store
two_items = record {
  fresh = 4;
  cell =
      update
        (update
          (update (update (λ p. none) 0 (some (record { datum = some 100; next = some 1 }))) 1
            (some (record { datum = some 200; next = some 2 })))
          2 (some empty_node))
        3 (some empty_node);
}

two_items-Chain : Chain two_items 0 (some 100 ∷ some 200 ∷ []) (1 ∷ 2 ∷ [])
unfolding Chain
two_items-Chain = (
  refl,
  omega arith,
  (omega arith, (omega arith, tt)),
  (refl, omega arith, (omega arith, tt), (refl, omega arith)),
)

apart_from_three : All (λ (r : ℕ). r ≢ 3) (0 ∷ 1 ∷ 2 ∷ [])
apart_from_three = (omega arith, (omega arith, (omega arith, tt)))

abbrev same_pointer : Pointer → Pointer → Bool
same_pointer none none = true
same_pointer (some p) (some q) = p == q
same_pointer none (some q) = false
same_pointer (some p) none = false

list_append_lem_example :
    (t : Store) × (list_append 2 two_items 0 (some 300) ≡ ok t)
    × Chain t 0 (some 100 ∷ some 200 ∷ some 300 ∷ []) (1 ∷ 2 ∷ 4 ∷ [])
    × (t.cell 3 ≡ two_items.cell 3)
list_append_lem_example =
    list_append_lem 2 two_items 0 (some 300) (some 100 ∷ some 200 ∷ []) (1 ∷ 2 ∷ []) 3 (omega arith)
      two_items-Chain apart_from_three (omega arith)

list_remove_lem_example :
    (t : Store) × (list_remove two_items 0 ≡ ok (some 100, t))
    × Chain t 0 (some 200 ∷ []) (2 ∷ [])
    × (t.cell 1 ≡ none)
    × (t.cell 3 ≡ two_items.cell 3)
list_remove_lem_example =
    list_remove_lem two_items 0 1 (some 100) (some 200 ∷ []) (2 ∷ []) 3 two_items-Chain
      apart_from_three

list_free_lem_example :
    (t : Store) × (list_free 3 two_items 0 ≡ ok (some 100 ∷ some 200 ∷ [], t))
    × All (λ (r : ℕ). t.cell r ≡ none) (0 ∷ 1 ∷ 2 ∷ [])
    × (t.cell 3 ≡ two_items.cell 3)
list_free_lem_example =
    list_free_lem 3 two_items 0 (some 100 ∷ some 200 ∷ []) (1 ∷ 2 ∷ []) 3 (omega arith)
      two_items-Chain apart_from_three

counted : list_len 3 two_items 0 ≡ ok 2
unfolding list_len
counted = refl
