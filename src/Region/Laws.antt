-- ===== src/Region/Laws.antt =====
-- libs/anvil/region.c: a region is a table of chunks under the coordinates that localized chunks
-- have, and none of the asserts fails there.
use chowder.Prelude.{
  ℕ, zero, suc, ◌%◌, ◌<◌, ◌≡◌, refl, sym, ap, ◌∙◌, ◌&&◌, List, [], ◌∷◌, if◌then◌else◌, ◌==◌,
  get_elem?, set, length, replicate, Option, some, none, ok, arith, Holds, holds, length-set,
  get_elem?-some,
}
use mathlib.Core.Option.{some-injective}
use chowder.Prelude.Int.{ℤ, pos, negsuc}
use chowder.Mc.{mc_localized_chunk, mc_chunk_to_region}
use chowder.Mc.Laws.{
  localized_pos, localized_negsuc, scale_pos, scale_negsuc, mc_localized_chunk-injective,
}
use chowder.Region.{
  Region, chunk_coord_to_array_idx, new_region, region_set_chunk, region_get_chunk,
}

get_elem?-set {ℓ} :
    {A : Type ℓ} (xs : List A) (i j : ℕ) (v : A)
    → i < length xs
    → get_elem? (set xs i v) j ≡ (if i == j then some v else get_elem? xs j)
get_elem?-set [] i j v h = absurd (omega arith)
get_elem?-set (x ∷ xs) zero zero v h = refl
get_elem?-set (x ∷ xs) zero (suc j) v h = ground arith
get_elem?-set (x ∷ xs) (suc i) zero v h = ground arith
get_elem?-set (x ∷ xs) (suc i) (suc j) v h = ground (arith, get_elem?-set xs i j v)

idx_pos : (n : ℕ) → chunk_coord_to_array_idx (pos n) ≡ n
unfolding chunk_coord_to_array_idx
idx_pos n = refl

idx_negsuc : (n : ℕ) → chunk_coord_to_array_idx (negsuc n) ≡ n
unfolding chunk_coord_to_array_idx
idx_negsuc zero = refl
idx_negsuc (suc n) = ground arith

-- The array index of a chunk of any region.
pub idx-mc_localized_chunk-lt : (x : ℤ) → chunk_coord_to_array_idx (mc_localized_chunk x) < 32
idx-mc_localized_chunk-lt (pos n) = rw (localized_pos n, idx_pos (n % 32)) (omega arith)
idx-mc_localized_chunk-lt (negsuc n) = rw (localized_negsuc n, idx_negsuc (n % 32)) (omega arith)

-- Two chunk coordinates of one region whose places in it have the same array index are the same
-- coordinate.
pub idx-mc_localized_chunk-injective :
    (x y : ℤ)
    → mc_chunk_to_region x ≡ mc_chunk_to_region y
    → chunk_coord_to_array_idx (mc_localized_chunk x)
      ≡ chunk_coord_to_array_idx (mc_localized_chunk y)
    → x ≡ y
unfolding mc_chunk_to_region
idx-mc_localized_chunk-injective (pos n) (pos m) r e =
    mc_localized_chunk-injective (pos n) (pos m) r
      (ground (arith, e, localized_pos n, localized_pos m, idx_pos (n % 32), idx_pos (m % 32)))
idx-mc_localized_chunk-injective (pos n) (negsuc m) r e =
    absurd (ground (arith, r, scale_pos n 32, scale_negsuc m 32))
idx-mc_localized_chunk-injective (negsuc n) (pos m) r e =
    absurd (ground (arith, r, scale_negsuc n 32, scale_pos m 32))
idx-mc_localized_chunk-injective (negsuc n) (negsuc m) r e =
    mc_localized_chunk-injective (negsuc n) (negsuc m) r (
      ground (
        arith,
        e,
        localized_negsuc n,
        localized_negsuc m,
        idx_negsuc (n % 32),
        idx_negsuc (m % 32),
      ))

abbrev idx : ℤ → ℕ
idx n = chunk_coord_to_array_idx n

module _ {ℓ} {C : Type ℓ} where
  -- 32 rows of 32 places.
  pub record IsTable (r : Region C) : Type ℓ where
    pub rows : length r.chunks ≡ 32
    pub width : (z : ℕ) (row : List (Option C)) → get_elem? r.chunks z ≡ some row → length row ≡ 32

  pub new_region-IsTable : (x z : ℤ) → IsTable (new_region {C = C} x z)
  unfolding new_region
  new_region-IsTable x z = record { rows = refl; width = λ i row e. all_wide 32 i row e }
    where
      all_wide :
          (n i : ℕ) (row : List (Option C))
          → get_elem? (replicate n (replicate 32 none)) i ≡ some row
          → length row ≡ 32
      all_wide zero i row e = cc
      all_wide (suc n) zero row e = ap length (sym (some-injective _ _ e))
      all_wide (suc n) (suc i) row e = all_wide n i row e

  read_place :
      (r : Region C) (a b : ℤ) (row : List (Option C)) (c : Option C)
      → idx a < 32
      → idx b < 32
      → get_elem? r.chunks (idx b) ≡ some row
      → get_elem? row (idx a) ≡ some c
      → region_get_chunk r a b ≡ ok c
  unfolding region_get_chunk
  read_place r a b row c ha hb e f = ground arith

  write_place :
      (r : Region C) (a b : ℤ) (row : List (Option C)) (c : Option C)
      → idx a < 32
      → idx b < 32
      → get_elem? r.chunks (idx b) ≡ some row
      → region_set_chunk r a b c
        ≡ ok (record r { chunks = set r.chunks (idx b) (set row (idx a) c) })
  unfolding region_set_chunk
  write_place r a b row c ha hb e = ground arith

  set-IsTable :
      (r : Region C) (z x : ℕ) (row : List (Option C)) (c : Option C)
      → IsTable r
      → z < 32
      → get_elem? r.chunks z ≡ some row
      → IsTable (record r { chunks = set r.chunks z (set row x c) })
  set-IsTable r z x row c t hz e = record {
    rows = length-set r.chunks z (set row x c) ∙ t.rows;
    width = λ i row' e'. ground (
      arith,
      t.rows,
      t.width i row',
      t.width z row,
      length-set row x c,
      get_elem?-set r.chunks z i (set row x c),
    );
  }

  read_set :
      (r : Region C) (c_x c_z a b : ℤ) (row old new_row : List (Option C)) (c chunk : Option C)
      → idx a < 32
      → idx b < 32
      → get_elem? r.chunks (idx c_z) ≡ some row
      → get_elem? r.chunks (idx b) ≡ some old
      → get_elem? old (idx a) ≡ some c
      → get_elem? (set r.chunks (idx c_z) new_row) (idx b)
        ≡ (if idx c_z == idx b then some new_row else get_elem? r.chunks (idx b))
      → get_elem? new_row (idx a) ≡ (if idx c_x == idx a then some chunk else get_elem? row (idx a))
      → region_get_chunk (record r { chunks = set r.chunks (idx c_z) new_row }) a b
        ≡ (if (idx c_x == idx a) && (idx c_z == idx b) then ok chunk else region_get_chunk r a b)
  unfolding region_get_chunk
  read_set r c_x c_z a b row old new_row c chunk ha hb e f g at_row at_place = ground arith

  -- In a region with 32 rows of 32 places, and for coordinates whose array indices are below 32,
  -- `region_set_chunk` succeeds and keeps this shape, and `region_get_chunk` afterwards returns the
  -- chunk at coordinates with the same array indices and what it returned before at all others.
  pub region_get_chunk-region_set_chunk :
      (r : Region C) (c_x c_z a b : ℤ) (chunk : Option C)
      → IsTable r
      → chunk_coord_to_array_idx c_x < 32
      → chunk_coord_to_array_idx c_z < 32
      → chunk_coord_to_array_idx a < 32
      → chunk_coord_to_array_idx b < 32
      → (r' : Region C) × (region_set_chunk r c_x c_z chunk ≡ ok r')
        × IsTable r'
        × (region_get_chunk r' a b ≡ (
            if (chunk_coord_to_array_idx c_x == chunk_coord_to_array_idx a)
              && (chunk_coord_to_array_idx c_z == chunk_coord_to_array_idx b)
            then ok chunk
            else region_get_chunk r a b))
  region_get_chunk-region_set_chunk r c_x c_z a b chunk t hx hz ha hb =
      let (row, e) = get_elem?-some r.chunks (idx c_z) (omega (arith, t.rows)) in
      let wide = t.width (idx c_z) row e in
      let new_row : List (Option C) = set row (idx c_x) chunk in
      let r' : Region C = record r { chunks = set r.chunks (idx c_z) new_row } in
      let t' = set-IsTable r (idx c_z) (idx c_x) row chunk t hz e in
      let (old, f) = get_elem?-some r.chunks (idx b) (omega (arith, t.rows)) in
      let (c, g) = get_elem?-some old (idx a) (omega (arith, t.width (idx b) old f)) in
      let at_row = get_elem?-set r.chunks (idx c_z) (idx b) new_row (omega (arith, t.rows)) in
      let at_place = get_elem?-set row (idx c_x) (idx a) chunk (omega (arith, wide)) in
      (
        r',
        write_place r c_x c_z row chunk hx hz e,
        t',
        read_set r c_x c_z a b row old new_row c chunk ha hb e f g at_row at_place,
      )

  -- The same for one changed region and all coordinates.
  pub region_set_chunk-Holds :
      (r : Region C) (c_x c_z : ℤ) (chunk : Option C)
      → IsTable r
      → chunk_coord_to_array_idx c_x < 32
      → chunk_coord_to_array_idx c_z < 32
      → Holds
          (λ r'.
            IsTable r'
            × (r'.x ≡ r.x)
            × (r'.z ≡ r.z)
            × ((a b : ℤ)
                → chunk_coord_to_array_idx a < 32
                → chunk_coord_to_array_idx b < 32
                → region_get_chunk r' a b ≡ (
                    if (chunk_coord_to_array_idx c_x == chunk_coord_to_array_idx a)
                      && (chunk_coord_to_array_idx c_z == chunk_coord_to_array_idx b)
                    then ok chunk
                    else region_get_chunk r a b)))
          (region_set_chunk r c_x c_z chunk)
  region_set_chunk-Holds r c_x c_z chunk t hx hz =
      let (row, e) = get_elem?-some r.chunks (idx c_z) (omega (arith, t.rows)) in
      let wide = t.width (idx c_z) row e in
      let new_row : List (Option C) = set row (idx c_x) chunk in
      rw (write_place r c_x c_z row chunk hx hz e) (
        holds _ (
          set-IsTable r (idx c_z) (idx c_x) row chunk t hz e,
          refl,
          refl,
          λ a b ha hb.
              let (old, f) = get_elem?-some r.chunks (idx b) (omega (arith, t.rows)) in
              let (c, g) = get_elem?-some old (idx a) (omega (arith, t.width (idx b) old f)) in
              read_set r c_x c_z a b row old new_row c chunk ha hb e f g
                (get_elem?-set r.chunks (idx c_z) (idx b) new_row (omega (arith, t.rows)))
                (get_elem?-set row (idx c_x) (idx a) chunk (omega (arith, wide))),
        ))

  -- A chunk is read without a fault.
  pub region_get_chunk-Holds :
      (r : Region C) (a b : ℤ)
      → IsTable r
      → chunk_coord_to_array_idx a < 32
      → chunk_coord_to_array_idx b < 32
      → (o : Option C) × (region_get_chunk r a b ≡ ok o)
  region_get_chunk-Holds r a b t ha hb =
      let (row, e) = get_elem?-some r.chunks (idx b) (omega (arith, t.rows)) in
      let (c, g) = get_elem?-some row (idx a) (omega (arith, t.width (idx b) row e)) in
      (c, read_place r a b row c ha hb e g)

  -- A new region has no chunk.
  pub region_get_chunk-new_region :
      (x z a b : ℤ)
      → chunk_coord_to_array_idx a < 32
      → chunk_coord_to_array_idx b < 32
      → region_get_chunk (new_region {C = C} x z) a b ≡ ok none
  unfolding new_region
  region_get_chunk-new_region x z a b ha hb =
      read_place (new_region x z) a b (replicate 32 none) none ha hb
        (get_elem?-replicate 32 (idx b) (replicate 32 none) hb)
        (get_elem?-replicate 32 (idx a) none ha)
    where
      get_elem?-replicate :
          {T : Type ℓ} (n i : ℕ) (v : T) → i < n → get_elem? (replicate n v) i ≡ some v
      get_elem?-replicate zero i v h = elim h [ ]
      get_elem?-replicate (suc n) zero v h = refl
      get_elem?-replicate (suc n) (suc i) v h = get_elem?-replicate n i v (omega arith)
