-- ===== src/LinkedList.antt =====
-- libs/list/list.c: linked lists that end in an empty node. The nodes are in a store by address; a
-- pointer to a node is its address, or `none` for NULL. What a node holds is a pointer too, which
-- the functions only hand on.
pub mod Chain
pub mod Laws
use chowder.Prelude.{
  ℕ, zero, suc, ◌+◌, Bool, true, false, not, ◌&&◌, List, [], ◌∷◌, Option, none, some, if◌then◌else◌,
  ◌==◌, Run, ok, fault, need, null_pointer, use_after_free, no_fuel, ◌>>=◌,
}

abbrev pub Pointer : Type 0
Pointer = Option ℕ

-- `struct list`
pub record Node : Type 0 where
  pub datum : Pointer
  pub next : Pointer

-- The addresses from `fresh` on were not handed out; a freed node is `none`.
pub record Store : Type 0 where
  pub fresh : ℕ
  pub cell : ℕ → Option Node

abbrev pub update : (ℕ → Option Node) → ℕ → Option Node → ℕ → Option Node
update cell p v q = if p == q then v else cell q

abbrev pub load : Store → ℕ → Run Node
load s p = need use_after_free (s.cell p)

-- `malloc`, and what is then written to the node.
abbrev pub alloc : Store → Node → Store
alloc s n = record { fresh = suc s.fresh; cell = update s.cell s.fresh (some n) }

abbrev pub put : Store → ℕ → Option Node → Store
put s p v = record s { cell = update s.cell p v }

abbrev pub empty_node : Node
empty_node = record { datum = none; next = none }

unfoldable pub list_new : Store → Store × ℕ
list_new s = (alloc s empty_node, s.fresh)

unfoldable pub list_prepend : Store → ℕ → Pointer → Run Store
list_prepend s list datum = do
  old ← load s list
  ok (put (alloc s old) list (some (record { datum = datum; next = some s.fresh })))

abbrev pub is_null : Pointer → Bool
is_null none = true
is_null (some p) = false

unfoldable pub list_empty : Store → ℕ → Run Bool
list_empty s list = do n ← load s list; ok (is_null n.datum && is_null n.next)

unfoldable pub list_next : Store → Pointer → Run Pointer
list_next s none = ok none
list_next s (some list) = do n ← load s list; ok n.next

-- `list->next`, as an address that is read.
unfoldable pub next_of : Store → ℕ → Run ℕ
next_of s list = do n ← load s list; need null_pointer n.next

-- The loop of `list_append`: the node before the empty one.
unfoldable pub append_loop : ℕ → Store → ℕ → Run ℕ
unfolding list_empty next_of list_next
append_loop zero s list = fault no_fuel
append_loop (suc f) s list =
    let more = do
      next ← list_next s (some list)
      moved ← need null_pointer next
      append_loop f s moved
    in do after ← next_of s list; last ← list_empty s after; if last then ok list else more

unfoldable pub list_append : ℕ → Store → ℕ → Pointer → Run Store
unfolding append_loop list_empty list_prepend next_of
list_append f s list datum =
    let at_end = do node ← append_loop f s list; after ← next_of s node; list_prepend s after datum
    in do is_empty ← list_empty s list; if is_empty then list_prepend s list datum else at_end

unfoldable pub list_remove : Store → ℕ → Run (Pointer × Store)
list_remove s list = do
  n ← load s list
  next ← need null_pointer n.next
  after ← load s next
  ok (n.datum, put (put s list (some after)) next none)

unfoldable pub list_item : Store → ℕ → Run Pointer
unfolding list_empty
list_item s list = do
  is_empty ← list_empty s list
  n ← load s list
  ok (if is_empty then none else n.datum)

unfoldable pub list_find : ℕ → Store → ℕ → (Pointer → Pointer → Bool) → Pointer → Run ℕ
unfolding list_empty list_item list_next
list_find zero s list equal item = fault no_fuel
list_find (suc f) s list equal item =
    let search = do
      here ← list_item s list
      let more = do
        next ← list_next s (some list)
        moved ← need null_pointer next
        list_find f s moved equal item
      if equal here item then ok list else more
    in do is_empty ← list_empty s list; if is_empty then ok list else search

unfoldable pub list_len : ℕ → Store → ℕ → Run ℕ
unfolding list_empty next_of
list_len zero s list = fault no_fuel
list_len (suc f) s list =
    let more = do next ← next_of s list; n ← list_len f s next; ok (1 + n)
    in do is_empty ← list_empty s list; if is_empty then ok 0 else more

-- What was in the nodes is freed too: these pointers are returned, in order.
unfoldable pub list_free : ℕ → Store → ℕ → Run (List Pointer × Store)
unfolding list_empty list_remove
list_free zero s list = fault no_fuel
list_free (suc f) s list =
    let more = do
      (datum, removed) ← list_remove s list
      (freed, last) ← list_free f removed list
      ok (datum ∷ freed, last)
    in do is_empty ← list_empty s list; if is_empty then ok ([], put s list none) else more
