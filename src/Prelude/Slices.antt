-- ===== src/Prelude/Slices.antt =====
-- A list that is cut in two, and one item of it that is replaced.
use chowder.Prelude.{
  ℕ, zero, suc, ◌+◌, ◌≤◌, ◌<◌, ◌≡◌, refl, ap, ◌∙◌, List, [], ◌∷◌, ◌++◌, length, take, drop, set,
  get_elem?, map, some, arith,
}

module _ {ℓ} {A : Type ℓ} where
  pub drop-set_inside :
      (i n : ℕ) (xs : List A) (v : A) → drop i (set xs (i + n) v) ≡ set (drop i xs) n v
  drop-set_inside zero n xs v = ap (λ (m : ℕ). set xs m v) (omega arith)
  drop-set_inside (suc i) n [] v = refl
  drop-set_inside (suc i) n (x ∷ xs) v =
      ap (λ (m : ℕ). drop (suc i) (set (x ∷ xs) m v)) {y = suc (i + n)} (omega arith)
      ∙ drop-set_inside i n xs v

  pub take-set_inside :
      (i j : ℕ) (xs : List A) (v : A) → j < i → take i (set xs j v) ≡ set (take i xs) j v
  take-set_inside zero j xs v h = absurd (omega (arith, h))
  take-set_inside (suc i) j [] v h = refl
  take-set_inside (suc i) zero (x ∷ xs) v h = refl
  take-set_inside (suc i) (suc j) (x ∷ xs) v h =
      ap (λ t. x ∷ t) (take-set_inside i j xs v (omega (arith, h)))

  pub take-set_past : (i j : ℕ) (xs : List A) (v : A) → i ≤ j → take i (set xs j v) ≡ take i xs
  take-set_past zero j xs v h = refl
  take-set_past (suc i) j [] v h = refl
  take-set_past (suc i) zero (x ∷ xs) v h = absurd (omega (arith, h))
  take-set_past (suc i) (suc j) (x ∷ xs) v h =
      ap (λ t. x ∷ t) (take-set_past i j xs v (omega (arith, h)))

  pub set-append_left :
      (xs ys : List A) (m : ℕ) (v : A) → m < length xs → set (xs ++ ys) m v ≡ set xs m v ++ ys
  set-append_left [] ys m v h = absurd (omega (arith, h))
  set-append_left (x ∷ xs) ys zero v h = refl
  set-append_left (x ∷ xs) ys (suc m) v h =
      ap (λ t. x ∷ t) (set-append_left xs ys m v (omega (arith, h)))

  pub set-append_right :
      (xs ys : List A) (m : ℕ) (v : A) → set (xs ++ ys) (length xs + m) v ≡ xs ++ set ys m v
  set-append_right [] ys m v = ap (λ (n : ℕ). set ys n v) (omega arith)
  set-append_right (x ∷ xs) ys m v =
      ap (λ (n : ℕ). set (x ∷ (xs ++ ys)) n v) {y = suc (length xs + m)} (omega arith)
      ∙ ap (λ t. x ∷ t) (set-append_right xs ys m v)

  pub get_elem?-append_left :
      (xs ys : List A) (m : ℕ) → m < length xs → get_elem? (xs ++ ys) m ≡ get_elem? xs m
  get_elem?-append_left [] ys m h = absurd (omega (arith, h))
  get_elem?-append_left (x ∷ xs) ys zero h = refl
  get_elem?-append_left (x ∷ xs) ys (suc m) h = get_elem?-append_left xs ys m (omega (arith, h))

  pub get_elem?-append_right :
      (xs ys : List A) (m : ℕ) → get_elem? (xs ++ ys) (length xs + m) ≡ get_elem? ys m
  get_elem?-append_right [] ys m = ap (get_elem? ys) (omega arith)
  get_elem?-append_right (x ∷ xs) ys m =
      ap (get_elem? (x ∷ (xs ++ ys))) {y = suc (length xs + m)} (omega arith)
      ∙ get_elem?-append_right xs ys m

  pub get_elem?-take_inside :
      (i j : ℕ) (xs : List A) → j < i → get_elem? (take i xs) j ≡ get_elem? xs j
  get_elem?-take_inside zero j xs h = absurd (omega (arith, h))
  get_elem?-take_inside (suc i) j [] h = refl
  get_elem?-take_inside (suc i) zero (x ∷ xs) h = refl
  get_elem?-take_inside (suc i) (suc j) (x ∷ xs) h = get_elem?-take_inside i j xs (omega (arith, h))

module _ {ℓ κ} {A : Type ℓ} {B : Type κ} (f : A → B) where
  pub map-take : (n : ℕ) (xs : List A) → take n (map f xs) ≡ map f (take n xs)
  map-take zero xs = refl
  map-take (suc n) [] = refl
  map-take (suc n) (x ∷ xs) = ap (λ t. f x ∷ t) (map-take n xs)

  pub map-drop : (n : ℕ) (xs : List A) → drop n (map f xs) ≡ map f (drop n xs)
  map-drop zero xs = refl
  map-drop (suc n) [] = refl
  map-drop (suc n) (x ∷ xs) = map-drop n xs

  pub map-set : (xs : List A) (n : ℕ) (v : A) → set (map f xs) n (f v) ≡ map f (set xs n v)
  map-set [] n v = refl
  map-set (x ∷ xs) zero v = refl
  map-set (x ∷ xs) (suc n) v = ap (λ t. f x ∷ t) (map-set xs n v)

  pub get_elem?-map :
      (xs : List A) (n : ℕ) (x : A) → get_elem? xs n ≡ some x → get_elem? (map f xs) n ≡ some (f x)
  get_elem?-map [] n x e = cc
  get_elem?-map (y ∷ xs) zero x e = cc
  get_elem?-map (y ∷ xs) (suc n) x e = get_elem?-map xs n x e
