-- ===== src/World/Store.antt =====
-- src/world.c: a region of the world that is changed, and the chunks that are then found.
use chowder.Prelude.{
  ◌≡◌, refl, sym, ap, ◌∙◌, true, ◌&&◌, List, [], ◌∷◌, Option, none, some, if◌then◌else◌, ◌==◌, ok,
  arith, Bool-cases, Option-cases, inl, inr, All, Holds, holds, Holds-bind,
}
use mathlib.Core.Option.{some-injective}
use mathlib.Core.Path.{ap₂, transport}
use chowder.Prelude.Int.{ℤ, same_ℤ}
use chowder.Mc.{mc_chunk_to_region, mc_localized_chunk}
use chowder.Region.{Region, chunk_coord_to_array_idx, region_get_chunk}
use chowder.Region.Laws.{
  IsTable, idx-mc_localized_chunk-lt, idx-mc_localized_chunk-injective, region_set_chunk-Holds,
  region_get_chunk-Holds,
}
use chowder.View.Laws.{same_eq}
use chowder.World.{
  Chunk, World, find_region, put_region, world_region_at, world_chunk_at, set_chunk,
}

pub same_self : (a : ℤ) → same_ℤ a a ≡ true
same_self a = ground arith

-- Two chunks of one region have the same place only when they are the same.
place_test :
    (a c : ℤ)
    → mc_chunk_to_region a ≡ mc_chunk_to_region c
    → (chunk_coord_to_array_idx (mc_localized_chunk c)
        == chunk_coord_to_array_idx (mc_localized_chunk a))
      ≡ same_ℤ a c
place_test a c h = elim (Bool-cases (same_ℤ a c)) [
  | inl e ↦ let eq : a ≡ c = same_eq a c e in rw (e, eq) (ground arith)
  | inr e ↦
      elim (Bool-cases (
        chunk_coord_to_array_idx (mc_localized_chunk c)
        == chunk_coord_to_array_idx (mc_localized_chunk a))) [
          | inl t ↦
              let eq : a ≡ c = idx-mc_localized_chunk-injective a c h (ground (arith, t)) in
              let bad : same_ℤ a c ≡ true = ap (same_ℤ a) (sym eq) ∙ same_self a in
              absurd (ground (arith, bad, e))
          | inr t ↦ rw (e, t) refl
        ]
]

module _ {C : Type 0} where
  find_region-coordinates :
      (rs : List (Region (Chunk C))) (x z : ℤ) (r : Region (Chunk C))
      → find_region rs x z ≡ some r
      → (r.x ≡ x) × (r.z ≡ z)
  unfolding find_region
  find_region-coordinates [] x z r h = cc
  find_region-coordinates (q ∷ rs) x z r h = elim (Bool-cases (same_ℤ q.x x && same_ℤ q.z z)) [
    | inl e ↦
        let eq : q ≡ r = some-injective _ _ (sym (rw e refl) ∙ h) in
        (
          ap (λ (t : Region (Chunk C)). t.x) (sym eq) ∙ same_eq q.x x (ground (arith, e)),
          ap (λ (t : Region (Chunk C)). t.z) (sym eq) ∙ same_eq q.z z (ground (arith, e)),
        )
    | inr e ↦ find_region-coordinates rs x z r (sym (rw e refl) ∙ h)
  ]

  find_region-put_region :
      (rs : List (Region (Chunk C))) (r q : Region (Chunk C)) (x z : ℤ)
      → find_region rs r.x r.z ≡ some q
      → find_region (put_region rs r) x z
        ≡ (if same_ℤ r.x x && same_ℤ r.z z then some r else find_region rs x z)
  unfolding find_region put_region
  find_region-put_region [] r q x z h = cc
  find_region-put_region (t ∷ rs) r q x z h = elim (Bool-cases (same_ℤ t.x r.x && same_ℤ t.z r.z)) [
    | inl e ↦
        let test : (same_ℤ t.x x && same_ℤ t.z z) ≡ (same_ℤ r.x x && same_ℤ r.z z) =
          ap₂ (λ a b. same_ℤ a x && same_ℤ b z) (same_eq t.x r.x (ground (arith, e)))
            (same_eq t.z r.z (ground (arith, e))) in
        rw (e, test)
          (elim (Bool-cases (same_ℤ r.x x && same_ℤ r.z z)) [
            | inl f ↦ rw f refl
            | inr f ↦ rw f refl
          ])
    | inr e ↦
        let rest = find_region-put_region rs r q x z (sym (rw e refl) ∙ h) in
        rw (e, rest)
          (elim (Bool-cases (same_ℤ t.x x && same_ℤ t.z z)) [
            | inl f ↦ elim (Bool-cases (same_ℤ r.x x && same_ℤ r.z z)) [
              | inl g ↦ absurd (ground (arith, e, f, g))
              | inr g ↦ rw (f, g) refl
            ]
            | inr f ↦ rw f refl
          ])
  ]

  put_region-All :
      (P : Region (Chunk C) → Type 0) (rs : List (Region (Chunk C))) (r : Region (Chunk C))
      → All P rs
      → P r
      → All P (put_region rs r)
  unfolding put_region
  put_region-All P [] r h p = tt
  put_region-All P (q ∷ rs) r h p = elim (Bool-cases (same_ℤ q.x r.x && same_ℤ q.z r.z)) [
    | inl e ↦ rw e (p, h.1)
    | inr e ↦ rw e (h.0, put_region-All P rs r h.1 p)
  ]

  find_region-All :
      (P : Region (Chunk C) → Type 0) (rs : List (Region (Chunk C))) (x z : ℤ)
      (r : Region (Chunk C))
      → All P rs
      → find_region rs x z ≡ some r
      → P r
  unfolding find_region
  find_region-All P [] x z r h e = cc
  find_region-All P (q ∷ rs) x z r h e = elim (Bool-cases (same_ℤ q.x x && same_ℤ q.z z)) [
    | inl f ↦ transport (ap P (some-injective _ _ (sym (rw f refl) ∙ e))) h.0
    | inr f ↦ find_region-All P rs x z r h.1 (sym (rw f refl) ∙ e)
  ]

  -- Every region of the world is a table of 32 times 32 places.
  abbrev pub AreTables : World C → Type 0
  AreTables w = All IsTable w.regions

  pub chunk_in :
      (w : World C) (r : Region (Chunk C)) (a b : ℤ)
      → find_region w.regions (mc_chunk_to_region a) (mc_chunk_to_region b) ≡ some r
      → world_chunk_at w a b ≡ region_get_chunk r (mc_localized_chunk a) (mc_localized_chunk b)
  unfolding world_chunk_at world_region_at
  chunk_in w r a b e = rw (world_chunk_at, world_region_at, e) refl

  pub chunk_nowhere :
      (w : World C) (a b : ℤ)
      → find_region w.regions (mc_chunk_to_region a) (mc_chunk_to_region b) ≡ none
      → world_chunk_at w a b ≡ ok none
  unfolding world_chunk_at world_region_at
  chunk_nowhere w a b e = rw (world_chunk_at, world_region_at, e) refl

  -- With the region put back, the chunks of other regions are found as before.
  pub other_region :
      (w : World C) (rs : List (Region (Chunk C))) (a b : ℤ)
      → find_region rs (mc_chunk_to_region a) (mc_chunk_to_region b)
        ≡ find_region w.regions (mc_chunk_to_region a) (mc_chunk_to_region b)
      → world_chunk_at (record { regions = rs }) a b ≡ world_chunk_at w a b
  unfolding world_chunk_at world_region_at
  other_region w rs a b e = rw (world_chunk_at, world_region_at, e) refl

  pub world_chunk_at-ok :
      (w : World C) (a b : ℤ) → AreTables w → (o : Option (Chunk C)) × (world_chunk_at w a b ≡ ok o)
  world_chunk_at-ok w a b t =
      elim (Option-cases (find_region w.regions (mc_chunk_to_region a) (mc_chunk_to_region b))) [
        | inl e ↦ (none, chunk_nowhere w a b e)
        | inr (r, e) ↦
            let (o, f) =
              region_get_chunk-Holds r (mc_localized_chunk a) (mc_localized_chunk b)
                (find_region-All IsTable w.regions _ _ r t e) (idx-mc_localized_chunk-lt a)
                (idx-mc_localized_chunk-lt b) in
            (o, chunk_in w r a b e ∙ f)
      ]

  chunk_found :
      (w : World C) (r r' : Region (Chunk C)) (c_x c_z a b : ℤ) (o : Option (Chunk C))
      → find_region w.regions (mc_chunk_to_region c_x) (mc_chunk_to_region c_z) ≡ some r
      → r'.x ≡ mc_chunk_to_region c_x
      → r'.z ≡ mc_chunk_to_region c_z
      → region_get_chunk r' (mc_localized_chunk a) (mc_localized_chunk b) ≡ (
          if (chunk_coord_to_array_idx (mc_localized_chunk c_x)
              == chunk_coord_to_array_idx (mc_localized_chunk a))
            && (chunk_coord_to_array_idx (mc_localized_chunk c_z)
                == chunk_coord_to_array_idx (mc_localized_chunk b))
          then ok o
          else region_get_chunk r (mc_localized_chunk a) (mc_localized_chunk b))
      → find_region (put_region w.regions r') (mc_chunk_to_region a) (mc_chunk_to_region b) ≡ (
          if same_ℤ r'.x (mc_chunk_to_region a) && same_ℤ r'.z (mc_chunk_to_region b)
          then some r'
          else find_region w.regions (mc_chunk_to_region a) (mc_chunk_to_region b))
      → world_chunk_at (record { regions = put_region w.regions r' }) a b
        ≡ (if same_ℤ a c_x && same_ℤ b c_z then ok o else world_chunk_at w a b)
  chunk_found w r r' c_x c_z a b o e ex ez got put =
      elim (Bool-cases (same_ℤ r'.x (mc_chunk_to_region a) && same_ℤ r'.z (mc_chunk_to_region b))) [
        | inl t ↦
            let ax : mc_chunk_to_region a ≡ mc_chunk_to_region c_x =
              sym (same_eq r'.x (mc_chunk_to_region a) (ground (arith, t))) ∙ ex in
            let bz : mc_chunk_to_region b ≡ mc_chunk_to_region c_z =
              sym (same_eq r'.z (mc_chunk_to_region b) (ground (arith, t))) ∙ ez in
            chunk_in (record { regions = put_region w.regions r' }) r' a b (put ∙ rw t refl)
            ∙ got
            ∙ rw
                (
                  place_test a c_x ax,
                  place_test b c_z bz,
                  chunk_in w r a b (ap₂ (find_region w.regions) ax bz ∙ e),
                )
                refl
        | inr t ↦
            other_region w (put_region w.regions r') a b (put ∙ rw t refl)
            ∙ elim (Bool-cases (same_ℤ a c_x && same_ℤ b c_z)) [
              | inl s ↦
                  let xa : r'.x ≡ mc_chunk_to_region a =
                    ex ∙ ap mc_chunk_to_region (sym (same_eq a c_x (ground (arith, s)))) in
                  let zb : r'.z ≡ mc_chunk_to_region b =
                    ez ∙ ap mc_chunk_to_region (sym (same_eq b c_z (ground (arith, s)))) in
                  let same_x : same_ℤ r'.x (mc_chunk_to_region a) ≡ true =
                    ap (same_ℤ r'.x) (sym xa) ∙ same_self r'.x in
                  let same_z : same_ℤ r'.z (mc_chunk_to_region b) ≡ true =
                    ap (same_ℤ r'.z) (sym zb) ∙ same_self r'.z in
                  absurd (ground (arith, t, same_x, same_z))
              | inr s ↦ rw s refl
            ]
      ]

  -- One chunk is another one, and no other chunk changes.
  pub set_chunk-Holds :
      (w : World C) (r : Region (Chunk C)) (c_x c_z : ℤ) (o : Option (Chunk C))
      → AreTables w
      → world_region_at w (mc_chunk_to_region c_x) (mc_chunk_to_region c_z) ≡ some r
      → Holds
          (λ w'.
            AreTables w'
            × ((a b : ℤ)
                → world_chunk_at w' a b
                  ≡ (if same_ℤ a c_x && same_ℤ b c_z then ok o else world_chunk_at w a b)))
          (set_chunk w r c_x c_z o)
  unfolding world_region_at set_chunk
  set_chunk-Holds w r c_x c_z o t e =
      let (ex, ez) = find_region-coordinates w.regions _ _ r e in
      Holds-bind
        (region_set_chunk-Holds r (mc_localized_chunk c_x) (mc_localized_chunk c_z) o
          (find_region-All IsTable w.regions _ _ r t e) (idx-mc_localized_chunk-lt c_x)
          (idx-mc_localized_chunk-lt c_z))
        (λ r' h. holds _ (
          put_region-All IsTable w.regions r' t h.0,
          λ a b.
              chunk_found w r r' c_x c_z a b o e (h.1 ∙ ex) (h.2 ∙ ez)
                (h.3 (mc_localized_chunk a) (mc_localized_chunk b) (idx-mc_localized_chunk-lt a)
                  (idx-mc_localized_chunk-lt b))
                (find_region-put_region w.regions r' r (mc_chunk_to_region a) (mc_chunk_to_region b)
                  (ap₂ (find_region w.regions) (h.1 ∙ ex) (h.2 ∙ ez) ∙ e)),
        ))
