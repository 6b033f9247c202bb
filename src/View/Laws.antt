-- ===== src/View/Laws.antt =====
-- src/view.h: a loop over a view visits each chunk of it once.
use chowder.Prelude.{
  ℕ, zero, suc, ◌+◌, ◌*◌, ◌≡◌, refl, sym, ap, ◌∙◌, Bool, true, false, ◌&&◌, ◌||◌, if◌then◌else◌,
  Run, arith, Bool-cases, inl, inr, Holds, holds, Holds-bind, Holds-map,
}
use chowder.Prelude.Int.{ℤ, pos, ◌+ℤ◌, ◌-ℤ◌, leb_ℤ, ltb_ℤ, same_ℤ, +ℤ_parts, -ℤ_parts, eq_of_parts}
use mathlib.Core.Path.{transport, fun_ext}
use chowder.View.{View, view_contains, for_loop, view_foreach}

-- The first `n` integers from `i` on.
abbrev pub in_range : ℤ → ℕ → ℤ → Bool
in_range i n b = leb_ℤ i b && ltb_ℤ b (i +ℤ pos n)

in_range_empty : (i b : ℤ) → in_range i 0 b ≡ false
in_range_empty i b = ground (arith, +ℤ_parts i (pos 0))

in_range_step : (i b : ℤ) (n : ℕ) → in_range i (suc n) b ≡ same_ℤ b i || in_range (i +ℤ pos 1) n b
in_range_step i b n =
    ground (arith, +ℤ_parts i (pos (suc n)), +ℤ_parts i (pos 1), +ℤ_parts (i +ℤ pos 1) (pos n))

same_not_later : (i b : ℤ) (n : ℕ) → same_ℤ b i ≡ true → in_range (i +ℤ pos 1) n b ≡ false
same_not_later i b n h = ground (arith, h, +ℤ_parts i (pos 1))

pub same_eq : (a b : ℤ) → same_ℤ a b ≡ true → a ≡ b
same_eq a b h = eq_of_parts a b (ground (arith, h))

view_contains-in_range :
    (view : View) (a b : ℤ)
    → view_contains view a b
      ≡ in_range (view.x -ℤ pos view.size) (2 * view.size + 1) a
        && in_range (view.z -ℤ pos view.size) (2 * view.size + 1) b
unfolding view_contains
view_contains-in_range view a b = ground (
  arith,
  +ℤ_parts view.x (pos view.size),
  -ℤ_parts view.x (pos view.size),
  +ℤ_parts view.z (pos view.size),
  -ℤ_parts view.z (pos view.size),
  +ℤ_parts (view.x -ℤ pos view.size) (pos (2 * view.size + 1)),
  +ℤ_parts (view.z -ℤ pos view.size) (pos (2 * view.size + 1)),
)

split_row : (x y z r : Bool) → x ≡ y || z → x && r ≡ (y && r) || (z && r)
split_row x y z true h = ground (arith, h)
split_row x y z false h = ground (arith, h)

-- What is known of each place, changed at the places that pass a test.
abbrev pub changed : {A : Type 0} → (ℤ → ℤ → A → A) → (ℤ → ℤ → Bool) → (ℤ → ℤ → A) → ℤ → ℤ → A
changed op test f a b = if test a b then op a b (f a b) else f a b

changed_none :
    {A : Type 0} (op : ℤ → ℤ → A → A) (test : ℤ → ℤ → Bool) (f : ℤ → ℤ → A)
    → ((a b : ℤ) → test a b ≡ false)
    → changed op test f ≡ f
changed_none op test f h = fun_ext (λ a. fun_ext (λ b. rw (h a b) refl))

unchanged :
    {A : Type 0} (op : ℤ → ℤ → A → A) (test : ℤ → ℤ → Bool) (f : ℤ → ℤ → A) (a b : ℤ)
    → test a b ≡ false
    → changed op test f a b ≡ f a b
unchanged op test f a b h = rw h refl

changed_twice :
    {A : Type 0} (op : ℤ → ℤ → A → A) (first then_test both : ℤ → ℤ → Bool) (f : ℤ → ℤ → A)
    → ((a b : ℤ) → both a b ≡ first a b || then_test a b)
    → ((a b : ℤ) → first a b ≡ true → then_test a b ≡ false)
    → changed op then_test (changed op first f) ≡ changed op both f
changed_twice op first then_test both f h apart = fun_ext (λ a. fun_ext (λ b.
    elim (Bool-cases (first a b)) [
      | inl e ↦ rw (h a b, e, apart a b e) refl
      | inr e ↦ rw (h a b, e) refl
    ]))

-- A body that does its change at each place of a view, whatever was done at other places.
module _ {A S : Type 0} (I : (ℤ → ℤ → A) → S → Type 0) (op : ℤ → ℤ → A → A) (within : ℤ → ℤ → Bool)
    (f : ℤ → ℤ → A) (body : ℤ → ℤ → S → Run S)
    (body_ok : (x z : ℤ) (g : ℤ → ℤ → A) (s : S)
      → within x z ≡ true
      → g x z ≡ f x z
      → I g s
      → Holds (I (changed op (λ a b. same_ℤ a x && same_ℤ b z) g)) (body x z s)) where
  column :
      (x i : ℤ) (n : ℕ) (g : ℤ → ℤ → A) (s : S)
      → ((b : ℤ) → in_range i n b ≡ true → (within x b ≡ true) × (g x b ≡ f x b))
      → I g s
      → Holds (I (changed op (λ a b. same_ℤ a x && in_range i n b) g)) (for_loop i n (body x) s)
  unfolding for_loop
  column x i zero g s h inv = holds s (
      transport
        (ap (λ k. I k s) (sym (changed_none op _ g (λ a b. ground (arith, in_range_empty i b)))))
        inv)
  column x i (suc n) g s h inv =
      let here = h i (ground (arith, in_range_step i i n)) in
      Holds-bind (body_ok x i g s here.0 here.1 inv) (λ s' inv'.
        Holds-map
          (λ s'' inv''.
            transport
              (ap (λ k. I k s'')
                (changed_twice op (λ a b. same_ℤ a x && same_ℤ b i) _ _ g
                  (λ a b. ground (arith, in_range_step i b n))
                  (λ a b e. ground (arith, e, same_not_later i b n))))
              inv'')
          (column x (i +ℤ pos 1) n _ s'
            (λ b e.
              let was = h b (ground (arith, e, in_range_step i b n)) in
              (
                was.0,
                unchanged op (λ a b. same_ℤ a x && same_ℤ b i) g x b
                      (ground (arith, e, same_not_later i b n))
                    ∙ was.1,
              ))
            inv'))

  rows :
      (i lo : ℤ) (n m : ℕ) (g : ℤ → ℤ → A) (s : S)
      → ((a b : ℤ)
          → in_range i n a && in_range lo m b ≡ true
          → (within a b ≡ true) × (g a b ≡ f a b))
      → I g s
      → Holds
          (I (changed op (λ a b. in_range i n a && in_range lo m b) g))
          (for_loop i n (λ vx. for_loop lo m (body vx)) s)
  unfolding for_loop
  rows i lo zero m g s h inv = holds s (
      transport
        (ap (λ k. I k s) (sym (changed_none op _ g (λ a b. ground (arith, in_range_empty i a)))))
        inv)
  rows i lo (suc n) m g s h inv =
      Holds-bind (column i lo m g s (λ b e. h i b (ground (arith, e, in_range_step i i n))) inv)
        (λ s' inv'.
          Holds-map
            (λ s'' inv''.
              transport
                (ap (λ k. I k s'')
                  (changed_twice op (λ a b. same_ℤ a i && in_range lo m b) _ _ g
                    (λ a b. split_row _ _ _ (in_range lo m b) (in_range_step i a n))
                    (λ a b e. ground (arith, e, same_not_later i a n))))
                inv'')
            (rows (i +ℤ pos 1) lo n m _ s'
              (λ a b e.
                let was = h a b (ground (arith, e, in_range_step i a n)) in
                (
                  was.0,
                  unchanged op (λ a b. same_ℤ a i && in_range lo m b) g a b
                        (ground (arith, e, same_not_later i a n))
                      ∙ was.1,
                ))
              inv'))

  -- Each place of the view is changed once, and no other.
  pub view_foreach-changed :
      (view : View) (s : S)
      → ((a b : ℤ) → view_contains view a b ≡ true → within a b ≡ true)
      → I f s
      → Holds (I (changed op (view_contains view) f)) (view_foreach view body s)
  unfolding view_foreach
  view_foreach-changed view s h inv =
      let tests = fun_ext (λ a. fun_ext (λ b. sym (view_contains-in_range view a b))) in
      Holds-map (λ s' inv'. transport (ap (λ t. I (changed op t f) s') tests) inv')
        (rows (view.x -ℤ pos view.size) (view.z -ℤ pos view.size) (2 * view.size + 1)
          (2 * view.size + 1) f s (λ a b e. (h a b (view_contains-in_range view a b ∙ e), refl))
          inv)
