-- ===== src/World/Loading.antt =====
-- src/world.c: `world_load_chunks` loads the chunks of a view and counts nobody.
use chowder.Prelude.{
  ℕ, ◌≡◌, ◌≢◌, refl, sym, ap, ◌∙◌, Bool, true, false, ◌&&◌, ◌∷◌, Option, none, some, if◌then◌else◌,
  ok, ◌>>=◌, arith, Bool-cases, Option-cases, ◌⊎◌, inl, inr, Holds, holds, Holds-bind, Holds-map,
  Holds-ok,
}
use mathlib.Core.Path.{ap₂, transport}
use chowder.Prelude.Int.{ℤ, pos, same_ℤ}
use chowder.Mc.{mc_chunk_to_region, mc_localized_chunk, mc_coord_to_chunk}
use chowder.Region.{Region, new_region, region_get_chunk}
use chowder.Region.Laws.{new_region-IsTable, region_get_chunk-new_region, idx-mc_localized_chunk-lt}
use chowder.View.{View, view_contains}
use chowder.View.Laws.{same_eq, changed, view_foreach-changed}
use chowder.World.{
  Chunk, World, Files, find_region, world_region_at, world_add_region, world_chunk_at, set_chunk,
  Loading, load_region, load_chunk, load_round, world_load_chunks,
}
use chowder.World.Store.{
  AreTables, world_chunk_at-ok, set_chunk-Holds, chunk_in, chunk_nowhere, other_region, same_self,
}
use chowder.World.Players.{count_of, at}
use chowder.World.Views.{total, CountsPlayers}

module _ {C : Type 0} where
  pub add_region_at :
      (w : World C) (rx rz a b : ℤ)
      → find_region w.regions rx rz ≡ none
      → world_chunk_at (world_add_region w (new_region rx rz)) a b ≡ world_chunk_at w a b
  unfolding world_add_region find_region new_region
  add_region_at w rx rz a b e =
      elim (Bool-cases (same_ℤ rx (mc_chunk_to_region a) && same_ℤ rz (mc_chunk_to_region b))) [
        | inl s ↦
            chunk_in (record { regions = new_region rx rz ∷ w.regions }) (new_region rx rz) a b
              (rw s refl)
            ∙ region_get_chunk-new_region rx rz (mc_localized_chunk a) (mc_localized_chunk b)
                (idx-mc_localized_chunk-lt a) (idx-mc_localized_chunk-lt b)
            ∙ sym (
                chunk_nowhere w a b (
                  ap₂ (find_region w.regions)
                    (sym (same_eq rx (mc_chunk_to_region a) (ground (arith, s))))
                    (sym (same_eq rz (mc_chunk_to_region b) (ground (arith, s))))
                  ∙ e))
        | inr s ↦ other_region w (new_region rx rz ∷ w.regions) a b (rw s refl)
      ]

  -- Without a count for anybody more; and the chunks of the places that were visited are there,
  -- where there was no error.
  pub record IsLoaded {E : Type 0} (n : ℤ → ℤ → ℕ) (visited : ℤ → ℤ → Bool) (l : Loading C E)
      : Type 0 where
    pub counts : CountsPlayers n (l.0)
    pub loaded : l.1 ≡ none → (a b : ℤ) → visited a b ≡ true → world_chunk_at (l.0) a b ≢ ok none

abbrev visit : ℤ → ℤ → Bool → Bool
visit a b seen = true

here_same : (x z : ℤ) → same_ℤ x x && same_ℤ z z ≡ true
here_same x z = ground (arith, same_self x, same_self z)

ne_none : {A : Type 0} (a : A) → some a ≢ none
ne_none a e = cc

false_ne : false ≢ true
false_ne e = cc

ok_ne : {A : Type 0} (a : A) → ok (some a) ≢ ok none
ok_ne a e = cc

module _ {C : Type 0} where
  as_search :
      (w : World C) (rx rz : ℤ) {o : Option (Region (Chunk C))}
      → world_region_at w rx rz ≡ o
      → find_region w.regions rx rz ≡ o
  unfolding world_region_at
  as_search w rx rz e = e

  added_tables :
      (w : World C) (rx rz : ℤ) → AreTables w → AreTables (world_add_region w (new_region rx rz))
  unfolding world_add_region
  added_tables w rx rz t = (new_region-IsTable rx rz, t)

  added_found :
      (w : World C) (rx rz : ℤ)
      → world_region_at (world_add_region w (new_region rx rz)) rx rz ≢ none
  unfolding world_add_region world_region_at find_region new_region
  added_found w rx rz bad =
      let first : find_region (new_region rx rz ∷ w.regions) rx rz ≡ some (new_region rx rz) =
        rw (here_same rx rz) refl in
      ne_none (new_region rx rz) (sym first ∙ bad)

  -- The chunk at `(x, z)` is there, and so are those that were.
  visited_there :
      (w w' : World C) (x z : ℤ) (g : ℤ → ℤ → Bool) (c : Chunk C)
      → world_chunk_at w' x z ≡ ok (some c)
      → ((a b : ℤ) → at x z a b ≡ false → world_chunk_at w' a b ≡ world_chunk_at w a b)
      → ((a b : ℤ) → g a b ≡ true → world_chunk_at w a b ≢ ok none)
      → (a b : ℤ) → changed visit (at x z) g a b ≡ true
      → world_chunk_at w' a b ≢ ok none
  visited_there w w' x z g c found same before a b seen missing = elim (Bool-cases (at x z a b)) [
    | inl s ↦
        let here : world_chunk_at w' a b ≡ world_chunk_at w' x z =
          ap₂ (world_chunk_at w') (same_eq a x (ground (arith, s)))
            (same_eq b z (ground (arith, s))) in
        ok_ne c (sym (here ∙ found) ∙ missing)
    | inr s ↦
        let was : changed visit (at x z) g a b ≡ g a b = rw s refl in
        before a b (sym was ∙ seen) (sym (same a b s) ∙ missing)
  ]

module _ {C E : Type 0} (n : ℤ → ℤ → ℕ) where
  same_chunks :
      (w w' : World C) (g : ℤ → ℤ → Bool) (e e' : Option E)
      → IsLoaded n g (w, e)
      → AreTables w'
      → ((a b : ℤ) → world_chunk_at w' a b ≡ world_chunk_at w a b)
      → (e' ≡ none → e ≡ none)
      → IsLoaded n g (w', e')
  same_chunks w w' g e e' h t same back = record {
    counts = record { tables = t; counts = λ a b. rw (same a b) (h.counts.counts a b) };
    loaded = λ fine a b seen missing. h.loaded (back fine) a b seen (sym (same a b) ∙ missing);
  }

  visit_chunk :
      (files : Files C E) (w : World C) (r : Region (Chunk C)) (x z : ℤ) (g : ℤ → ℤ → Bool)
      (o : Option (Chunk C))
      → IsLoaded {E = E} n g (w, none)
      → world_region_at w (mc_chunk_to_region x) (mc_chunk_to_region z) ≡ some r
      → world_chunk_at w x z ≡ ok o
      → Holds (IsLoaded n (changed visit (at x z) g)) (elim o [
        | some c ↦ ok (w, none)
        | none ↦ elim (files.read_chunk x z) [
          | inl e ↦ ok (w, some e)
          | inr content ↦ do
            w ← set_chunk w r x z (some (record { player_count = pos 0; content = content }))
            ok (w, none)
        ]
      ])
  visit_chunk files w r x z g (some c) h e found =
      holds (w, none)
        (record {
          counts = h.counts;
          loaded = λ fine a b seen.
              visited_there w w x z g c found (λ a b _. refl) (h.loaded refl) a b seen;
        })
  visit_chunk files w r x z g none h e found = read_result (files.read_chunk x z)
    where
      new_count :
          (w' : World C) (content : C)
          → AreTables w'
            × ((a b : ℤ)
                → world_chunk_at w' a b ≡ (
                    if same_ℤ a x && same_ℤ b z
                    then ok (some (record { player_count = pos 0; content = content }))
                    else world_chunk_at w a b))
          → (a b : ℤ) → Holds (λ o. total (count_of o) ≡ pos (n a b)) (world_chunk_at w' a b)
      new_count w' content k a b = elim (Bool-cases (at x z a b)) [
        | inl s ↦
            let found' : world_chunk_at w' a b
                ≡ ok (some (record { player_count = pos 0; content = content })) =
              k.1 a b ∙ rw s refl in
            let was : pos 0 ≡ pos (n x z) = Holds-ok (
              transport (ap (Holds (λ o. total (count_of o) ≡ pos (n x z))) found)
                (h.counts.counts x z)) in
            rw found' (
              holds _ (
                was
                ∙ ap pos (
                    sym
                      (ap₂ n (same_eq a x (ground (arith, s))) (same_eq b z (ground (arith, s)))))))
        | inr s ↦
            let found' : world_chunk_at w' a b ≡ world_chunk_at w a b = k.1 a b ∙ rw s refl in
            rw found' (h.counts.counts a b)
      ]

      read_result :
          (result : E ⊎ C)
          → Holds (IsLoaded n (changed visit (at x z) g)) (elim result [
            | inl e ↦ ok (w, some e)
            | inr content ↦ do
              w ← set_chunk w r x z (some (record { player_count = pos 0; content = content }))
              ok (w, none)
          ])
      read_result (inl err) =
          holds (w, some err)
            (record { counts = h.counts; loaded = λ bad a b seen. absurd (ne_none err bad) })
      read_result (inr content) =
          Holds-bind
            (set_chunk-Holds w r x z (some (record { player_count = pos 0; content = content }))
              h.counts.tables e)
            (λ w' k.
              holds (w', none)
                (record {
                  counts = record { tables = k.0; counts = λ a b. new_count w' content k a b };
                  loaded = λ fine a b seen.
                      visited_there w w' x z g (record { player_count = pos 0; content = content })
                        (k.1 x z ∙ rw (here_same x z) refl) (λ a b s. k.1 a b ∙ rw s refl)
                        (h.loaded refl) a b seen;
                }))

  -- Where there was no error the region is there.
  abbrev HasRegion : ℤ → ℤ → (ℤ → ℤ → Bool) → Loading C E → Type 0
  HasRegion rx rz g l = IsLoaded n g l × (l.1 ≡ none → world_region_at (l.0) rx rz ≢ none)

  load_region-IsLoaded :
      (files : Files C E) (w : World C) (rx rz : ℤ) (g : ℤ → ℤ → Bool)
      → IsLoaded {E = E} n g (w, none)
      → HasRegion rx rz g (load_region files w rx rz)
  unfolding load_region
  load_region-IsLoaded files w rx rz g h = elim (Option-cases (world_region_at w rx rz)) [
    | inr (r, e) ↦
        let got : load_region files w rx rz ≡ (w, none) = rw (load_region, e) refl in
        transport (ap (HasRegion rx rz g) (sym got)) (h, λ _ bad. ne_none r (sym e ∙ bad))
    | inl e ↦ elim (Option-cases (files.open_error rx rz)) [
      | inr (err, e') ↦
          let got : load_region files w rx rz ≡ (w, some err) = rw (load_region, e, e') refl in
          transport (ap (HasRegion rx rz g) (sym got)) (
            same_chunks w w g none (some err) h h.counts.tables (λ a b. refl) (λ bad. refl),
            λ bad _. ne_none err bad,
          )
      | inl e' ↦
          let w' : World C = world_add_region w (new_region rx rz) in
          let got : load_region files w rx rz ≡ (w', none) = rw (load_region, e, e') refl in
          transport (ap (HasRegion rx rz g) (sym got)) (
            same_chunks w w' g none none h (added_tables w rx rz h.counts.tables)
                (λ a b. add_region_at w rx rz a b (as_search w rx rz e)) (λ _. refl),
            λ _ bad. added_found w rx rz bad,
          )
    ]
  ]

  -- At the place that is visited: the chunk is there, or there was an error.
  load_chunk-IsLoaded :
      (files : Files C E) (w : World C) (x z : ℤ) (g : ℤ → ℤ → Bool)
      → IsLoaded {E = E} n g (w, none)
      → world_region_at w (mc_chunk_to_region x) (mc_chunk_to_region z) ≢ none
      → Holds (IsLoaded n (changed visit (at x z) g)) (load_chunk files w x z)
  unfolding load_chunk
  load_chunk-IsLoaded files w x z g h region =
      elim (Option-cases (world_region_at w (mc_chunk_to_region x) (mc_chunk_to_region z))) [
        | inl e ↦ absurd (region e)
        | inr (r, e) ↦
            let (o, found) = world_chunk_at-ok w x z h.counts.tables in
            let here : region_get_chunk r (mc_localized_chunk x) (mc_localized_chunk z) ≡ ok o =
              sym (chunk_in w r x z (as_search w _ _ e)) ∙ found in
            rw (load_chunk, e, here, ◌>>=◌) (visit_chunk files w r x z g o h e found)
      ]

  load_round-IsLoaded :
      (files : Files C E) (x z : ℤ) (g : ℤ → ℤ → Bool) (l : Loading C E)
      → IsLoaded n g l
      → Holds (IsLoaded n (changed visit (at x z) g)) (load_round files x z l)
  unfolding load_round
  load_round-IsLoaded files x z g (w, some e) h =
      holds (w, some e)
        (record { counts = h.counts; loaded = λ bad a b seen. absurd (ne_none e bad) })
  load_round-IsLoaded files x z g (w, none) h =
      after_region _
        (load_region-IsLoaded files w (mc_chunk_to_region x) (mc_chunk_to_region z) g h)
    where
      after_region :
          (l : Loading C E)
          → HasRegion (mc_chunk_to_region x) (mc_chunk_to_region z) g l
          → Holds
              (IsLoaded n (changed visit (at x z) g))
              (elim (l.1) [ some e ↦ ok (l.0, some e) | none ↦ load_chunk files (l.0) x z ])
      after_region (w', some e) k =
          holds (w', some e)
            (record { counts = k.0.counts; loaded = λ bad a b seen. absurd (ne_none e bad) })
      after_region (w', none) k = load_chunk-IsLoaded files w' x z g k.0 (k.1 refl)

  -- Loading the view around a position.
  pub world_load_chunks-IsLoaded :
      (files : Files C E) (w : World C) (x z : ℤ) (view_distance : ℕ)
      → CountsPlayers n w
      → Holds
          (IsLoaded n (
            view_contains
              (record { x = mc_coord_to_chunk x; z = mc_coord_to_chunk z; size = view_distance })))
          (world_load_chunks files w x z view_distance)
  unfolding world_load_chunks
  world_load_chunks-IsLoaded files w x z view_distance h =
      let view : View = record {
        x = mc_coord_to_chunk x;
        z = mc_coord_to_chunk z;
        size = view_distance;
      } in
      Holds-map
        (λ l k. record {
          counts = k.counts;
          loaded = λ fine a b seen. k.loaded fine a b (rw seen refl);
        })
        (view_foreach-changed (IsLoaded n) visit (λ a b. true) (λ a b. false) (load_round files)
          (λ x z g l _ _ inv. load_round-IsLoaded files x z g l inv) view (w, none) (λ a b _. refl)
          (record { counts = h; loaded = λ fine a b bad. absurd (false_ne bad) }))
