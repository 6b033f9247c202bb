-- ===== src/View.antt =====
-- src/view.h: the chunks around a player.
pub mod Laws
use chowder.Prelude.{ℕ, zero, suc, ◌+◌, ◌*◌, Bool, ◌&&◌, List, [], ◌∷◌, ◌++◌, leb, Run, ok, ◌>>=◌}
use chowder.Prelude.Int.{ℤ, pos, ◌+ℤ◌, ◌-ℤ◌, leb_ℤ}

-- `struct view`; a size is a view distance, which is not negative.
pub record View : Type 0 where
  pub x : ℤ
  pub z : ℤ
  pub size : ℕ

-- `VIEW_CONTAINS`
unfoldable pub view_contains : View → ℤ → ℤ → Bool
view_contains view x1 z1 =
    leb_ℤ (view.x -ℤ pos view.size) x1
    && leb_ℤ (view.z -ℤ pos view.size) z1
    && leb_ℤ x1 (view.x +ℤ pos view.size)
    && leb_ℤ z1 (view.z +ℤ pos view.size)

-- A loop from `i` on with this many rounds, as it runs over the state that its body changes.
unfoldable pub for_loop {ℓ} : {S : Type ℓ} → ℤ → ℕ → (ℤ → S → Run S) → S → Run S
for_loop i zero body s = ok s
for_loop i (suc n) body s = do s ← body i s; for_loop (i +ℤ pos 1) n body s

-- `VIEW_FOREACH`: both loops go from `- size` to `+ size`.
unfoldable pub view_foreach {ℓ} : {S : Type ℓ} → View → (ℤ → ℤ → S → Run S) → S → Run S
unfolding for_loop
view_foreach view body s =
    for_loop (view.x -ℤ pos view.size) (2 * view.size + 1)
      (λ vx. for_loop (view.z -ℤ pos view.size) (2 * view.size + 1) (body vx)) s
