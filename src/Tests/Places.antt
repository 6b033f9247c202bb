-- ===== src/Tests/Places.antt =====
-- libs/mc/mc.c, libs/anvil/region.c: coordinates on both sides of the origin.
use chowder.Prelude.{ℕ, ◌≡◌, refl, some, ok, arith}
use chowder.Prelude.Int.{ℤ, pos, negsuc}
use chowder.Mc.{
  scale, mc_chunk_to_region, mc_coord_to_chunk, mc_coord_to_region, mc_localized_chunk,
}
use chowder.Mc.Laws.{IsFloor, scale-IsFloor, mc_chunk_to_region-mc_coord_to_chunk}
use chowder.Region.{
  Region, new_region, chunk_coord_to_array_idx, region_set_chunk, region_get_chunk,
}
use chowder.Region.Laws.{
  IsTable, new_region-IsTable, region_get_chunk-region_set_chunk, idx-mc_localized_chunk-injective,
}

scale-IsFloor_example : IsFloor (negsuc 16) 16 (scale (negsuc 16) 16)
scale-IsFloor_example = scale-IsFloor (negsuc 16) 16 (omega arith)

mc_chunk_to_region-mc_coord_to_chunk_example :
    mc_chunk_to_region (mc_coord_to_chunk (negsuc 600)) ≡ mc_coord_to_region (negsuc 600)
mc_chunk_to_region-mc_coord_to_chunk_example = mc_chunk_to_region-mc_coord_to_chunk (negsuc 600)

-- The example in libs/mc/include/mc.h.
localized_65 : mc_localized_chunk (negsuc 64) ≡ negsuc 0
unfolding mc_localized_chunk
localized_65 = refl

idx-mc_localized_chunk-injective_example : ◌≡◌ {A = ℤ} (negsuc 64) (negsuc 64)
idx-mc_localized_chunk-injective_example =
    idx-mc_localized_chunk-injective (negsuc 64) (negsuc 64) refl refl

abbrev empty_region : Region ℕ
empty_region = new_region (pos 0) (pos 0)

region_get_chunk-region_set_chunk_example :
    (r : Region ℕ) × (region_set_chunk empty_region (negsuc 1) (pos 4) (some 123) ≡ ok r)
    × IsTable r
    × (region_get_chunk r (negsuc 1) (pos 4) ≡ ok (some 123))
unfolding chunk_coord_to_array_idx
region_get_chunk-region_set_chunk_example =
    region_get_chunk-region_set_chunk empty_region (negsuc 1) (pos 4) (negsuc 1) (pos 4) (some 123)
      (new_region-IsTable (pos 0) (pos 0)) (omega arith) (omega arith) (omega arith) (omega arith)
