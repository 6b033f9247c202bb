-- ===== src/Region.antt =====
-- libs/anvil/region.c, libs/anvil/include/region.h: the chunks of a region, found by their
-- coordinates in it. The file of a region and the parts of a chunk play no part here: a chunk is
-- a value of any type, and `none` is the null pointer.
pub mod Laws
use chowder.Prelude.{
  ℕ, Bool, true, false, ◌&&◌, List, if◌then◌else◌, ltb, get_elem?, set, length, replicate, Option,
  none, Run, ok, assert, need, out_of_bounds, ◌>>=◌, ◌>>◌,
}
use chowder.Prelude.Int.{ℤ, pos, negsuc, pos_part, ◌+ℤ◌, ◌*ℤ◌}

abbrev is_negative : ℤ → Bool
is_negative (pos n) = false
is_negative (negsuc n) = true

-- `CHUNK_COORD_TO_ARRAY_IDX(n)`, which is never negative.
unfoldable pub chunk_coord_to_array_idx : ℤ → ℕ
unfolding ◌+ℤ◌ ◌*ℤ◌
chunk_coord_to_array_idx n = pos_part (if is_negative n then (n +ℤ pos 1) *ℤ negsuc 0 else n)

pub record Region {ℓ} (C : Type ℓ) : Type ℓ where
  pub x : ℤ
  pub z : ℤ
  pub chunks : List (List (Option C))

-- `calloc` of the 32 rows of 32 null pointers.
unfoldable pub new_region {ℓ} : {C : Type ℓ} → ℤ → ℤ → Region C
new_region x z = record { x = x; z = z; chunks = replicate 32 (replicate 32 none) }

module _ {ℓ} {C : Type ℓ} where
  unfoldable pub region_set_chunk : Region C → ℤ → ℤ → Option C → Run (Region C)
  region_set_chunk r c_x c_z chunk = do
    let x = chunk_coord_to_array_idx c_x
    let z = chunk_coord_to_array_idx c_z
    assert (ltb x 32 && ltb z 32)
    row ← need out_of_bounds (get_elem? r.chunks z)
    ok (record r { chunks = set r.chunks z (set row x chunk) })

  unfoldable pub region_get_chunk : Region C → ℤ → ℤ → Run (Option C)
  region_get_chunk r c_x c_z = do
    let x = chunk_coord_to_array_idx c_x
    let z = chunk_coord_to_array_idx c_z
    assert (ltb x 32 && ltb z 32)
    row ← need out_of_bounds (get_elem? r.chunks z)
    need out_of_bounds (get_elem? row x)
