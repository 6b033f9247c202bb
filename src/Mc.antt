-- ===== src/Mc.antt =====
-- libs/mc/mc.c: block, chunk and region coordinates. A C `int` is an integer; no step leaves the
-- range of the coordinate that goes in.
pub mod Laws
use chowder.Prelude.{ℕ, ◌≤◌, Bool, true, false, if◌then◌else◌, ltb}
use chowder.Prelude.Int.{ℤ, pos, negsuc, ◌+ℤ◌, ◌-ℤ◌, quot, rem}

-- `x >= 0` and `x > 0`
abbrev pub is_nonneg : ℤ → Bool
is_nonneg (pos n) = true
is_nonneg (negsuc n) = false

abbrev pub is_positive : ℤ → Bool
is_positive (pos n) = ltb 0 n
is_positive (negsuc n) = false

unfoldable pub scale : ℤ → ℕ → ℤ
unfolding quot ◌+ℤ◌ ◌-ℤ◌
scale x factor = if is_nonneg x then quot x factor else quot (x +ℤ pos 1) factor -ℤ pos 1

unfoldable pub mc_coord_to_region : ℤ → ℤ
unfolding scale
mc_coord_to_region x = scale x 512

unfoldable pub mc_coord_to_chunk : ℤ → ℤ
unfolding scale
mc_coord_to_chunk x = scale x 16

unfoldable pub mc_chunk_to_region : ℤ → ℤ
unfolding scale
mc_chunk_to_region x = scale x 32

unfoldable pub mc_localized_chunk : ℤ → ℤ
unfolding rem ◌+ℤ◌ ◌-ℤ◌
mc_localized_chunk x = if is_positive x then rem x 32 else rem (x +ℤ pos 1) 32 -ℤ pos 1

unfoldable pub mc_coord_to_localized_chunk : ℤ → ℤ
unfolding mc_localized_chunk mc_coord_to_chunk
mc_coord_to_localized_chunk x = mc_localized_chunk (mc_coord_to_chunk x)
