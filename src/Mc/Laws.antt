-- ===== src/Mc/Laws.antt =====
-- libs/mc/mc.c: the conversions round down, and a chunk is found again from its region and its
-- place in it.
use chowder.Prelude.{ℕ, zero, suc, ◌+◌, ◌*◌, ◌/◌, ◌%◌, ◌≤◌, ◌<◌, ◌≡◌, refl, ap, arith}
use chowder.Prelude.Int.{ℤ, pos, negsuc, pos_part, neg_part}
use native.Mathlib.Nat.{div-mul-le_self, lt-div-mul-add}
use chowder.Mc.{
  scale, mc_coord_to_region, mc_coord_to_chunk, mc_chunk_to_region, mc_localized_chunk,
}

pub scale_pos : (n d : ℕ) → scale (pos n) d ≡ pos (n / d)
unfolding scale
scale_pos n d = refl

-- Below zero the division rounds down too.
pub scale_negsuc : (n d : ℕ) → scale (negsuc n) d ≡ negsuc (n / d)
unfolding scale
scale_negsuc zero d = ground arith
scale_negsuc (suc n) d = ground arith

-- `q` is `x / d` rounded down: `q * d ≤ x < q * d + d`, with the negative parts on the other sides.
abbrev pub IsFloor : ℤ → ℕ → ℤ → Type 0
IsFloor x d q =
    (pos_part q * d + neg_part x ≤ pos_part x + neg_part q * d)
    × (pos_part x + neg_part q * d < pos_part q * d + d + neg_part x)

-- For a positive factor `scale` is the quotient rounded down, on both sides of zero.
pub scale-IsFloor : (x : ℤ) (factor : ℕ) → 0 < factor → IsFloor x factor (scale x factor)
scale-IsFloor (pos n) d h =
    rw (scale_pos n d) (omega (arith, div-mul-le_self n d), omega (arith, lt-div-mul-add {a = n} h))
scale-IsFloor (negsuc n) d h =
    rw (scale_negsuc n d)
      (omega (arith, lt-div-mul-add {a = n} h), omega (arith, div-mul-le_self n d))

-- The region of the chunk of a block coordinate is the region of the coordinate.
pub mc_chunk_to_region-mc_coord_to_chunk :
    (x : ℤ) → mc_chunk_to_region (mc_coord_to_chunk x) ≡ mc_coord_to_region x
unfolding mc_chunk_to_region mc_coord_to_chunk mc_coord_to_region
mc_chunk_to_region-mc_coord_to_chunk (pos n) = ap pos (omega arith)
mc_chunk_to_region-mc_coord_to_chunk (negsuc n) =
    rw (scale_negsuc n 16, scale_negsuc (n / 16) 32, scale_negsuc n 512) (ap negsuc (omega arith))

-- The place of a chunk in its region: 0 to 31 from the origin on, and -1 to -32 below it.
pub localized_pos : (n : ℕ) → mc_localized_chunk (pos n) ≡ pos (n % 32)
unfolding mc_localized_chunk
localized_pos n = ground arith

pub localized_negsuc : (n : ℕ) → mc_localized_chunk (negsuc n) ≡ negsuc (n % 32)
unfolding mc_localized_chunk
localized_negsuc zero = refl
localized_negsuc (suc n) = ground arith

-- A chunk is determined by its region and its place in it.
pub mc_localized_chunk-injective :
    (x y : ℤ)
    → mc_chunk_to_region x ≡ mc_chunk_to_region y
    → mc_localized_chunk x ≡ mc_localized_chunk y
    → x ≡ y
unfolding mc_chunk_to_region
mc_localized_chunk-injective (pos n) (pos m) r l =
    ground (arith, localized_pos n, localized_pos m, scale_pos n 32, scale_pos m 32)
mc_localized_chunk-injective (pos n) (negsuc m) r l =
    ground (arith, localized_pos n, localized_negsuc m)
mc_localized_chunk-injective (negsuc n) (pos m) r l =
    ground (arith, localized_negsuc n, localized_pos m)
mc_localized_chunk-injective (negsuc n) (negsuc m) r l =
    ground (arith, localized_negsuc n, localized_negsuc m, scale_negsuc n 32, scale_negsuc m 32)
