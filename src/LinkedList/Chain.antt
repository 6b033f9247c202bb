-- ===== src/LinkedList/Chain.antt =====
-- libs/list/list.c: the nodes that make up a list, and the stores that keep them.
use chowder.Prelude.{
  ℕ, ◌<◌, ◌≡◌, ◌≢◌, List, [], ◌∷◌, ◌++◌, All, All-append, Option, none, some, arith,
}
use chowder.LinkedList.{Pointer, Node, Store, alloc, put, empty_node}

-- From the node at `p` on, through the nodes at `ps`, the list holds `xs`; no node comes twice.
unfoldable pub Chain : Store → ℕ → List Pointer → List ℕ → Type 0
Chain s p [] [] = (s.cell p ≡ some empty_node) × (p < s.fresh)
Chain s p (x ∷ xs) (q ∷ qs) =
    (s.cell p ≡ some (record { datum = x; next = some q }))
    × (p < s.fresh)
    × All (λ r. r ≢ p) (q ∷ qs)
    × Chain s q xs qs
Chain s p [] (q ∷ qs) = ⊥
Chain s p (x ∷ xs) [] = ⊥

pub Chain-alloc :
    (s : Store) (n : Node) (p : ℕ) (xs : List Pointer) (ps : List ℕ)
    → Chain s p xs ps
    → Chain (alloc s n) p xs ps
unfolding Chain
Chain-alloc s n p [] [] h = (ground (arith, h.0, h.1), omega (arith, h.1))
Chain-alloc s n p (x ∷ xs) (q ∷ qs) h =
    (ground (arith, h.0, h.1), omega (arith, h.1), h.2, Chain-alloc s n q xs qs h.3)
Chain-alloc s n p [] (q ∷ qs) h = absurd h
Chain-alloc s n p (x ∷ xs) [] h = absurd h

pub Chain-put :
    (s : Store) (a : ℕ) (v : Option Node) (p : ℕ) (xs : List Pointer) (ps : List ℕ)
    → All (λ r. r ≢ a) (p ∷ ps)
    → Chain s p xs ps
    → Chain (put s a v) p xs ps
unfolding Chain
Chain-put s a v p [] [] far h = (ground (arith, far.0, h.0), h.1)
Chain-put s a v p (x ∷ xs) (q ∷ qs) far h =
    (ground (arith, far.0, h.0), h.1, h.2, Chain-put s a v q xs qs far.1 h.3)
Chain-put s a v p [] (q ∷ qs) far h = absurd h
Chain-put s a v p (x ∷ xs) [] far h = absurd h

pub Chain-inside :
    (s : Store) (p : ℕ) (xs : List Pointer) (ps : List ℕ)
    → Chain s p xs ps
    → All (λ r. r ≢ s.fresh) (p ∷ ps)
unfolding Chain
Chain-inside s p [] [] h = (omega (arith, h.1), tt)
Chain-inside s p (x ∷ xs) (q ∷ qs) h = (omega (arith, h.1), Chain-inside s q xs qs h.3)
Chain-inside s p [] (q ∷ qs) h = absurd h
Chain-inside s p (x ∷ xs) [] h = absurd h

-- The address of the empty node.
abbrev pub last : ℕ → List ℕ → ℕ
last p [] = p
last p (q ∷ qs) = last q qs

pub last_kept {ℓ} : (P : ℕ → Type ℓ) (p : ℕ) (ps : List ℕ) → All P (p ∷ ps) → P (last p ps)
last_kept P p [] h = h.0
last_kept P p (q ∷ qs) h = last_kept P q qs h.1

pub Chain-last :
    (s : Store) (p : ℕ) (xs : List Pointer) (ps : List ℕ)
    → Chain s p xs ps
    → s.cell (last p ps) ≡ some empty_node
unfolding Chain
Chain-last s p [] [] h = h.0
Chain-last s p (x ∷ xs) (q ∷ qs) h = Chain-last s q xs qs h.3
Chain-last s p [] (q ∷ qs) h = absurd h
Chain-last s p (x ∷ xs) [] h = absurd h

-- A node becomes one that holds `x`, before a new node with what it was.
abbrev pub prepended : Store → ℕ → Node → Pointer → Store
prepended s p old x = put (alloc s old) p (some (record { datum = x; next = some s.fresh }))

pub Chain-prepended :
    (s : Store) (p : ℕ) (x : Pointer) (xs : List Pointer) (ps : List ℕ)
    → Chain s p xs ps
    → (old : Node) × (s.cell p ≡ some old) × Chain (prepended s p old x) p (x ∷ xs) (s.fresh ∷ ps)
unfolding Chain
Chain-prepended s p x [] [] h = (
  empty_node,
  h.0,
  (ground arith, omega (arith, h.1), (omega (arith, h.1), tt), (ground (arith, h.1), omega arith)),
)
Chain-prepended s p x (y ∷ xs) (q ∷ qs) h =
    let old : Node = record { datum = y; next = some q } in
    let v : Node = record { datum = x; next = some s.fresh } in
    (
      old,
      h.0,
      (
        ground arith,
        omega (arith, h.1),
        (omega (arith, h.1), h.2),
        (
          ground (arith, h.1),
          omega arith,
          Chain-inside s q xs qs h.3,
          Chain-put (alloc s old) p (some v) q xs qs h.2 (Chain-alloc s old q xs qs h.3),
        ),
      ),
    )
Chain-prepended s p x [] (q ∷ qs) h = absurd h
Chain-prepended s p x (y ∷ xs) [] h = absurd h

pub Chain-appended :
    (s : Store) (p : ℕ) (x : Pointer) (xs : List Pointer) (ps : List ℕ)
    → Chain s p xs ps
    → Chain (prepended s (last p ps) empty_node x) p (xs ++ (x ∷ [])) (ps ++ (s.fresh ∷ []))
unfolding Chain
Chain-appended s p x [] [] h =
    (ground arith, omega (arith, h.1), (omega (arith, h.1), tt), (ground (arith, h.1), omega arith))
Chain-appended s p x (y ∷ xs) (q ∷ qs) h =
    let far : last q qs ≢ p = last_kept (λ r. r ≢ p) q qs h.2 in
    (
      ground (arith, h.0, h.1, far),
      omega (arith, h.1),
      All-append (λ r. r ≢ p) (q ∷ qs) (s.fresh ∷ []) h.2 (omega (arith, h.1), tt),
      Chain-appended s q x xs qs h.3,
    )
Chain-appended s p x [] (q ∷ qs) h = absurd h
Chain-appended s p x (y ∷ xs) [] h = absurd h

-- The second node moves to where the first was, and its own place is freed.
pub Chain-removed :
    (s : Store) (p q : ℕ) (x : Pointer) (xs : List Pointer) (qs : List ℕ)
    → Chain s p (x ∷ xs) (q ∷ qs)
    → (after : Node) × (s.cell q ≡ some after) × Chain (put (put s p (some after)) q none) p xs qs
unfolding Chain
Chain-removed s p q x [] [] h = (empty_node, h.3.0, (ground (arith, h.2.0), h.1))
Chain-removed s p q x (y ∷ xs) (r ∷ rs) h =
    let after : Node = record { datum = y; next = some r } in
    (
      after,
      h.3.0,
      (
        ground (arith, h.2.0),
        h.1,
        h.2.1,
        Chain-put (put s p (some after)) q none r xs rs h.3.2
            (Chain-put s p (some after) r xs rs h.2.1 h.3.3),
      ),
    )
Chain-removed s p q x [] (r ∷ rs) h = absurd h.3
Chain-removed s p q x (y ∷ xs) [] h = absurd h.3
