-- ===== src/World/Players.antt =====
-- src/world.c: what the changes of a world do to the counts of players, which are an integer for
-- each chunk that is loaded.
use chowder.Prelude.{
  ◌≡◌, refl, sym, ap, ◌∙◌, Bool, true, ◌&&◌, Option, none, some, if◌then◌else◌, ok, arith,
  Bool-cases, Option-cases, inl, inr, Holds, holds, Holds-bind, Holds-map, Holds-ok,
}
use mathlib.Core.Option
use mathlib.Core.Path.{ap₂, transport, fun_ext}
use chowder.Prelude.Int.{ℤ, pos, ◌+ℤ◌, ◌-ℤ◌, same_ℤ}
use chowder.Mc.{mc_chunk_to_region, mc_localized_chunk}
use chowder.Region.{Region, region_get_chunk}
use chowder.View.Laws.{same_eq, changed}
use chowder.World.{
  Chunk, World, world_region_at, world_chunk_at, set_chunk, edit_chunk, with_player,
  chunk_inc_players, without_player, world_chunk_dec_players,
}
use chowder.World.Store.{AreTables, set_chunk-Holds}

-- The counts of the loaded chunks: `none` where there is no chunk.
abbrev pub Counts : Type 0
Counts = ℤ → ℤ → Option ℤ

abbrev pub count_of : {C : Type 0} → Option (Chunk C) → Option ℤ
count_of none = none
count_of (some c) = some c.player_count

abbrev pub at : ℤ → ℤ → ℤ → ℤ → Bool
at x z a b = same_ℤ a x && same_ℤ b z

changed_here :
    (op : ℤ → ℤ → Option ℤ → Option ℤ) (f : Counts) (x z a b : ℤ)
    → at x z a b ≡ true
    → changed op (at x z) f a b ≡ op x z (f x z)
changed_here op f x z a b s = rw s (
    ap₂ (λ p q. op p q (f p q)) (same_eq a x (ground (arith, s))) (same_eq b z (ground (arith, s))))

changed_same :
    (op : ℤ → ℤ → Option ℤ → Option ℤ) (f : Counts) (x z : ℤ)
    → op x z (f x z) ≡ f x z
    → changed op (at x z) f ≡ f
changed_same op f x z h = fun_ext (λ a. fun_ext (λ b. elim (Bool-cases (at x z a b)) [
  | inl s ↦
      changed_here op f x z a b s
      ∙ h
      ∙ sym (ap₂ f (same_eq a x (ground (arith, s))) (same_eq b z (ground (arith, s))))
  | inr s ↦ rw s refl
]))

module _ {C : Type 0} where
  pub record HasCounts (f : Counts) (w : World C) : Type 0 where
    pub tables : AreTables w
    pub counts : (a b : ℤ) → Holds (λ o. count_of o ≡ f a b) (world_chunk_at w a b)

  -- One chunk gets another count, or none.
  pub set_chunk-HasCounts :
      (f : Counts) (w : World C) (r : Region (Chunk C)) (x z : ℤ) (o : Option (Chunk C))
      (op : ℤ → ℤ → Option ℤ → Option ℤ)
      → HasCounts f w
      → world_region_at w (mc_chunk_to_region x) (mc_chunk_to_region z) ≡ some r
      → count_of o ≡ op x z (f x z)
      → Holds (HasCounts (changed op (at x z) f)) (set_chunk w r x z o)
  set_chunk-HasCounts f w r x z o op h e new =
      Holds-map
        (λ w' k. record {
          tables = k.0;
          counts = λ a b. elim (Bool-cases (at x z a b)) [
            | inl s ↦
                let found : world_chunk_at w' a b ≡ ok o = k.1 a b ∙ rw s refl in
                rw found (holds o (new ∙ sym (changed_here op f x z a b s)))
            | inr s ↦
                let found : world_chunk_at w' a b ≡ world_chunk_at w a b = k.1 a b ∙ rw s refl in
                rw (found, s) (h.counts a b)
          ];
        })
        (set_chunk-Holds w r x z o h.tables e)

  edit_found :
      (f : Counts) (w : World C) (r : Region (Chunk C)) (x z : ℤ)
      (edit : Chunk C → Option (Chunk C)) (op : ℤ → ℤ → Option ℤ → Option ℤ)
      (chunk : Option (Chunk C))
      → HasCounts f w
      → op x z none ≡ none
      → ((c : Chunk C) → count_of (edit c) ≡ op x z (some c.player_count))
      → world_region_at w (mc_chunk_to_region x) (mc_chunk_to_region z) ≡ some r
      → count_of chunk ≡ f x z
      → Holds
          (HasCounts (changed op (at x z) f))
          (elim chunk [ none ↦ ok w | some c ↦ set_chunk w r x z (edit c) ])
  edit_found f w r x z edit op none h no_chunk with_chunk e is = holds w (
      transport
        (ap (λ g. HasCounts g w)
          (sym (changed_same op f x z (ap (op x z) (sym is) ∙ no_chunk ∙ is))))
        h)
  edit_found f w r x z edit op (some c) h no_chunk with_chunk e is =
      set_chunk-HasCounts f w r x z (edit c) op h e (with_chunk c ∙ ap (op x z) is)

  edit_chunk-HasCounts :
      (f : Counts) (w : World C) (x z : ℤ) (edit : Chunk C → Option (Chunk C))
      (op : ℤ → ℤ → Option ℤ → Option ℤ)
      → HasCounts f w
      → op x z none ≡ none
      → ((c : Chunk C) → count_of (edit c) ≡ op x z (some c.player_count))
      → Holds (HasCounts (changed op (at x z) f)) (edit_chunk w x z edit)
  unfolding edit_chunk world_chunk_at
  edit_chunk-HasCounts f w x z edit op h no_chunk with_chunk =
      elim (Option-cases (world_region_at w (mc_chunk_to_region x) (mc_chunk_to_region z))) [
        | inl e ↦
            let found : world_chunk_at w x z ≡ ok none = rw (world_chunk_at, e) refl in
            let is : none ≡ f x z =
              Holds-ok (transport (ap (Holds (λ o. count_of o ≡ f x z)) found) (h.counts x z)) in
            rw (edit_chunk, e)
              (holds w (
                transport
                  (ap (λ g. HasCounts g w)
                    (sym (changed_same op f x z (ap (op x z) (sym is) ∙ no_chunk ∙ is))))
                  h))
        | inr (r, e) ↦
            let found : world_chunk_at w x z
                ≡ region_get_chunk r (mc_localized_chunk x) (mc_localized_chunk z) =
              rw (world_chunk_at, e) refl in
            rw (edit_chunk, e)
              (Holds-bind (transport (ap (Holds (λ o. count_of o ≡ f x z)) found) (h.counts x z))
                (λ chunk is. edit_found f w r x z edit op chunk h no_chunk with_chunk e is))
      ]

-- The counts after a player more, or one less.
abbrev pub counted : ℤ → ℤ → Option ℤ → Option ℤ
counted x z = Option.map (λ n. n +ℤ pos 1)

abbrev pub one_less : ℤ → Option ℤ
one_less n = if same_ℤ (n -ℤ pos 1) (pos 0) then none else some (n -ℤ pos 1)

abbrev pub discounted : ℤ → ℤ → Option ℤ → Option ℤ
discounted x z none = none
discounted x z (some n) = one_less n

module _ {C : Type 0} where
  without_player-count : (c : Chunk C) → count_of (without_player c) ≡ one_less c.player_count
  without_player-count c = elim (Bool-cases (same_ℤ (c.player_count -ℤ pos 1) (pos 0))) [
    | inl e ↦ rw e refl
    | inr e ↦ rw e refl
  ]

  pub inc-HasCounts :
      (f : Counts) (w : World C) (x z : ℤ)
      → HasCounts f w
      → Holds (HasCounts (changed counted (at x z) f)) (chunk_inc_players w x z)
  unfolding chunk_inc_players
  inc-HasCounts f w x z h = edit_chunk-HasCounts f w x z with_player counted h refl (λ c. refl)

  pub dec-HasCounts :
      (f : Counts) (w : World C) (x z : ℤ)
      → HasCounts f w
      → Holds (HasCounts (changed discounted (at x z) f)) (world_chunk_dec_players w x z)
  unfolding world_chunk_dec_players
  dec-HasCounts f w x z h =
      edit_chunk-HasCounts f w x z without_player discounted h refl without_player-count
