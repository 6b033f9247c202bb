-- ===== src/World/Views.antt =====
-- src/server.c, src/world.c: the count of a chunk is the number of players whose view it is in.
use chowder.Prelude.{
  ℕ, ◌+◌, ◌≡◌, ◌≢◌, refl, ap, ◌∙◌, Bool, true, false, not, Option, none, some, if◌then◌else◌, Run,
  ok, arith, Bool-cases, inl, inr, Holds, holds, Holds-bind, Holds-map, Holds-ok, held,
}
use mathlib.Core.Path.{ap₂, transport, fun_ext}
use chowder.Prelude.Int.{ℤ, pos, ◌+ℤ◌, ◌-ℤ◌, same_ℤ, +ℤ_parts, -ℤ_parts, eq_of_parts}
use chowder.View.{View, view_contains}
use chowder.View.Laws.{same_eq, changed, view_foreach-changed}
use chowder.World.{
  Chunk, World, world_chunk_at, chunk_inc_players, world_chunk_dec_players, Conn, old_view,
  new_view, count_view, server_end_play,
}
use chowder.World.Store.{AreTables, world_chunk_at-ok}
use chowder.World.Players.{
  Counts, count_of, HasCounts, counted, discounted, inc-HasCounts, dec-HasCounts, at,
}

abbrev pub total : Option ℤ → ℤ
total none = pos 0
total (some n) = n

-- `n` players see the chunk, for each pair of coordinates; no chunk counts as 0.
pub record CountsPlayers {C : Type 0} (n : ℤ → ℤ → ℕ) (w : World C) : Type 0 where
  pub tables : AreTables w
  pub counts : (a b : ℤ) → Holds (λ o. total (count_of o) ≡ pos (n a b)) (world_chunk_at w a b)

-- 1 for the chunks in the view.
abbrev pub viewer : View → ℤ → ℤ → ℕ
viewer view a b = if view_contains view a b then 1 else 0

abbrev pub plus_viewer : (ℤ → ℤ → ℕ) → View → ℤ → ℤ → ℕ
plus_viewer n view a b = n a b + viewer view a b

module _ {C : Type 0} where
  has_counts :
      (n : ℤ → ℤ → ℕ) (w : World C)
      → CountsPlayers n w
      → (f : Counts) × HasCounts f w
        × ((a b : ℤ) → total (f a b) ≡ pos (n a b))
        × ((a b : ℤ) → world_chunk_at w a b ≢ ok none → f a b ≢ none)
  has_counts n w h =
      let o = λ (a b : ℤ). world_chunk_at-ok w a b h.tables in
      (
        λ a b. count_of ((o a b).0),
        record { tables = h.tables; counts = λ a b. rw ((o a b).1) (holds _ refl) },
        λ a b. Holds-ok (
            transport (ap (Holds (λ o'. total (count_of o') ≡ pos (n a b))) ((o a b).1))
              (h.counts a b)),
        λ a b loaded. no_count ((o a b).0) (λ e. loaded ((o a b).1 ∙ ap ok e)),
      )
    where
      no_count : (o : Option (Chunk C)) → o ≢ none → count_of o ≢ none
      no_count none h e = h refl
      no_count (some c) h e = cc

  pub counts_players :
      (n : ℤ → ℤ → ℕ) (f : Counts) (w : World C)
      → ((a b : ℤ) → total (f a b) ≡ pos (n a b))
      → HasCounts f w
      → CountsPlayers n w
  counts_players n f w e h = record {
    tables = h.tables;
    counts = λ a b. Holds-map (λ o is. ap total is ∙ e a b) (h.counts a b);
  }

total-discounted :
    (x z : ℤ) (o : Option ℤ) (n : ℕ) → total o ≡ pos (n + 1) → total (discounted x z o) ≡ pos n
total-discounted x z none n h = absurd (ground (arith, h))
total-discounted x z (some k) n h = elim (Bool-cases (same_ℤ (k -ℤ pos 1) (pos 0))) [
  | inl e ↦ rw e (ground (arith, e, h, -ℤ_parts k (pos 1)))
  | inr e ↦ rw e (eq_of_parts (k -ℤ pos 1) (pos n) (ground (arith, h, -ℤ_parts k (pos 1))))
]

total-counted :
    (x z : ℤ) (o : Option ℤ) (n : ℕ)
    → o ≢ none
    → total o ≡ pos n
    → total (counted x z o) ≡ pos (n + 1)
total-counted x z none n h e = absurd (h refl)
total-counted x z (some k) n h e =
    eq_of_parts (k +ℤ pos 1) (pos (n + 1)) (ground (arith, e, +ℤ_parts k (pos 1)))

-- The last one who sees a chunk leaves it, and it is unloaded.
discounted-last : (x z : ℤ) (o : Option ℤ) → total o ≡ pos 1 → discounted x z o ≡ none
discounted-last x z none h = absurd (ground (arith, h))
discounted-last x z (some k) h =
    let last : same_ℤ (k -ℤ pos 1) (pos 0) ≡ true = ground (arith, h, -ℤ_parts k (pos 1)) in
    rw last refl

left_view :
    (seen : Bool) (x z : ℤ) (o : Option ℤ) (n : ℕ)
    → total o ≡ pos (n + (if seen then 1 else 0))
    → total (if seen then discounted x z o else o) ≡ pos n
left_view true x z o n h = total-discounted x z o n h
left_view false x z o n h = h ∙ ap pos (omega arith)

-- Both loops at one chunk: `new` and `old` say in which views it is.
moved_view :
    (new old : Bool) (x z : ℤ) (o : Option ℤ) (n : ℕ)
    → (new ≡ true → o ≢ none)
    → total o ≡ pos (n + (if old then 1 else 0))
    → total (
        if old
        then (if not new
            then discounted x z (if new then (if not old then counted x z o else o) else o)
            else (if new then (if not old then counted x z o else o) else o))
        else (if new then (if not old then counted x z o else o) else o))
      ≡ pos (n + (if new then 1 else 0))
moved_view true true x z o n there h = h
moved_view true false x z o n there h =
    total-counted x z o n (there refl) (h ∙ ap pos (omega arith))
moved_view false true x z o n there h = total-discounted x z o n h ∙ ap pos (omega arith)
moved_view false false x z o n there h = h

-- A change that is skipped, or done, at one chunk.
module _ (op : ℤ → ℤ → Option ℤ → Option ℤ) (skip : ℤ → ℤ → Bool) (f : Counts) (x z : ℤ) where
  skip_here : (a b : ℤ) → at x z a b ≡ true → skip a b ≡ skip x z
  skip_here a b s = ap₂ skip (same_eq a x (ground (arith, s))) (same_eq b z (ground (arith, s)))

  skipped :
      skip x z ≡ true → f ≡ changed (λ a b o. if not (skip a b) then op a b o else o) (at x z) f
  skipped e = fun_ext (λ a. fun_ext (λ b. elim (Bool-cases (at x z a b)) [
    | inl s ↦ rw (s, skip_here a b s ∙ e) refl
    | inr s ↦ rw s refl
  ]))

  not_skipped :
      skip x z ≡ false
      → changed op (at x z) f ≡ changed (λ a b o. if not (skip a b) then op a b o else o) (at x z) f
  not_skipped e = fun_ext (λ a. fun_ext (λ b. elim (Bool-cases (at x z a b)) [
    | inl s ↦ rw (s, skip_here a b s ∙ e) refl
    | inr s ↦ rw s refl
  ]))

module _ {C : Type 0} where
  unloaded_of :
      (f : Counts) (w : World C) (a b : ℤ)
      → HasCounts f w
      → f a b ≡ none
      → world_chunk_at w a b ≡ ok none
  unloaded_of f w a b h e =
      let (o, at_place, count) = held (h.counts a b) in at_place ∙ ap ok (no_chunk o (count ∙ e))
    where
      no_chunk : (o : Option (Chunk C)) → count_of o ≡ none → o ≡ none
      no_chunk none h = refl
      no_chunk (some c) h = cc

  -- When the count of each chunk is the number of the other players who see it, plus 1 if it is in
  -- the view around the position at which the player is: `server_end_play` ends without a fault,
  -- then the counts are those of the other players, and each chunk of that view that none of them
  -- sees is unloaded.
  pub server_end_play-CountsPlayers :
      (conn : Conn) (n : ℤ → ℤ → ℕ) (w : World C)
      → CountsPlayers (plus_viewer n (new_view conn)) w
      → Holds
          (λ w'.
            CountsPlayers n w'
            × ((a b : ℤ)
                → view_contains (new_view conn) a b ≡ true
                → n a b ≡ 0
                → world_chunk_at w' a b ≡ ok none))
          (server_end_play conn w)
  unfolding server_end_play
  server_end_play-CountsPlayers conn n w h =
      let (f, has, e, loaded) = has_counts _ w h in
      Holds-map
        (λ w' k. (
          counts_players n (changed discounted (view_contains (new_view conn)) f) w'
              (λ a b. left_view (view_contains (new_view conn) a b) a b (f a b) (n a b) (e a b)) k,
          λ a b seen last.
              unloaded_of _ w' a b k
                (rw seen (discounted-last a b (f a b) (e a b ∙ rw (seen, last) refl))),
        ))
        (view_foreach-changed (HasCounts {C = C}) discounted (λ a b. true) f
          (λ x z s. world_chunk_dec_players s x z) (λ x z g s _ _ inv. dec-HasCounts g s x z inv)
          (new_view conn) w (λ a b _. refl) has)

  conditional :
      (op : ℤ → ℤ → Option ℤ → Option ℤ) (skip : ℤ → ℤ → Bool)
      (step : World C → ℤ → ℤ → Run (World C))
      → ((f : Counts) (w : World C) (x z : ℤ)
          → HasCounts f w
          → Holds (HasCounts (changed op (at x z) f)) (step w x z))
      → (f : Counts) (w : World C) (x z : ℤ) → HasCounts f w
      → Holds
          (HasCounts (changed (λ a b o. if not (skip a b) then op a b o else o) (at x z) f))
          (if not (skip x z) then step w x z else ok w)
  conditional op skip step step_ok f w x z h = elim (Bool-cases (skip x z)) [
    | inl e ↦ rw e (holds w (transport (ap (λ g. HasCounts g w) (skipped op skip f x z e)) h))
    | inr e ↦ rw e (
        Holds-map (λ w' k. transport (ap (λ g. HasCounts g w') (not_skipped op skip f x z e)) k)
          (step_ok f w x z h))
  ]

  pub count_view-CountsPlayers :
      (conn : Conn) (n : ℤ → ℤ → ℕ) (w : World C)
      → CountsPlayers (plus_viewer n (old_view conn)) w
      → ((a b : ℤ) → view_contains (new_view conn) a b ≡ true → world_chunk_at w a b ≢ ok none)
      → Holds (CountsPlayers (plus_viewer n (new_view conn))) (count_view conn w)
  unfolding count_view
  count_view-CountsPlayers conn n w h there =
      let (f, has, e, loaded) = has_counts _ w h in
      let inc : ℤ → ℤ → Option ℤ → Option ℤ =
        λ a b o. if not (view_contains (old_view conn) a b) then counted a b o else o in
      let dec : ℤ → ℤ → Option ℤ → Option ℤ =
        λ a b o. if not (view_contains (new_view conn) a b) then discounted a b o else o in
      Holds-bind
        (view_foreach-changed (HasCounts {C = C}) inc (λ a b. true) f
          (λ x z w.
            if not (view_contains (old_view conn) x z) then chunk_inc_players w x z else ok w)
          (λ x z g s _ _ inv.
            conditional counted (view_contains (old_view conn)) chunk_inc_players inc-HasCounts g s
              x z inv)
          (new_view conn) w (λ a b _. refl) has)
        (λ w1 has1.
          Holds-map
            (λ w2 has2.
              counts_players (plus_viewer n (new_view conn)) _ w2
                (λ a b.
                  moved_view (view_contains (new_view conn) a b) (view_contains (old_view conn) a b)
                    a b (f a b) (n a b) (λ seen. loaded a b (there a b seen)) (e a b))
                has2)
            (view_foreach-changed (HasCounts {C = C}) dec (λ a b. true)
              (changed inc (view_contains (new_view conn)) f)
              (λ x z w.
                if not (view_contains (new_view conn) x z)
                then world_chunk_dec_players w x z
                else ok w)
              (λ x z g s _ _ inv.
                conditional discounted (view_contains (new_view conn)) world_chunk_dec_players
                  dec-HasCounts g s x z inv)
              (old_view conn) w1 (λ a b _. refl) has1))
