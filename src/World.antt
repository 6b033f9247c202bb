-- ===== src/World.antt =====
-- src/world.c, src/server.c, src/conn.c: the regions of a world, and how many players see a chunk.
-- A chunk is a content of any type with its count; a region that is changed in place is put back.
pub mod Store
pub mod Update
pub mod Loading
pub mod Views
pub mod Players
use chowder.Prelude.{
  ℕ, Bool, true, false, ◌&&◌, ◌||◌, not, List, [], ◌∷◌, Option, none, some, if◌then◌else◌, ◌==◌,
  Run, ok, fault, assert, ◌>>=◌, ◌>>◌, ◌⊎◌, inl, inr, ◌*◌, ◌+◌,
}
use chowder.Prelude.Int.{ℤ, pos, negsuc, ◌+ℤ◌, ◌-ℤ◌, same_ℤ}
use chowder.Mc.{mc_coord_to_chunk, mc_chunk_to_region, mc_localized_chunk}
use chowder.Region.{Region, new_region, region_get_chunk, region_set_chunk}
use chowder.View.{View, view_contains, view_foreach, for_loop}

pub record Chunk (C : Type 0) : Type 0 where
  pub player_count : ℤ
  pub content : C

-- The table of regions has the coordinates of a region for its key.
pub record World (C : Type 0) : Type 0 where
  pub regions : List (Region (Chunk C))

-- What opening a region file and reading a chunk from it give: an error or nothing, an error or the
-- content of a chunk.
pub record Files (C E : Type 0) : Type 0 where
  pub open_error : ℤ → ℤ → Option E
  pub read_chunk : ℤ → ℤ → E ⊎ C

unfoldable pub find_region :
    {C : Type 0} → List (Region (Chunk C)) → ℤ → ℤ → Option (Region (Chunk C))
find_region [] x z = none
find_region (r ∷ rs) x z =
    let rest = find_region rs x z in if same_ℤ r.x x && same_ℤ r.z z then some r else rest

-- The region with the coordinates of `r` becomes `r`.
unfoldable pub put_region :
    {C : Type 0} → List (Region (Chunk C)) → Region (Chunk C) → List (Region (Chunk C))
put_region [] r = []
put_region (q ∷ rs) r =
    let rest = q ∷ put_region rs r in if same_ℤ q.x r.x && same_ℤ q.z r.z then r ∷ rs else rest

unfoldable pub world_region_at : {C : Type 0} → World C → ℤ → ℤ → Option (Region (Chunk C))
world_region_at w x z = find_region w.regions x z

unfoldable pub world_add_region : {C : Type 0} → World C → Region (Chunk C) → World C
world_add_region w r = record { regions = r ∷ w.regions }

unfoldable pub world_chunk_at : {C : Type 0} → World C → ℤ → ℤ → Run (Option (Chunk C))
world_chunk_at w c_x c_z =
    elim (world_region_at w (mc_chunk_to_region c_x) (mc_chunk_to_region c_z)) [
      | none ↦ ok none
      | some r ↦ region_get_chunk r (mc_localized_chunk c_x) (mc_localized_chunk c_z)
    ]

-- `region_set_chunk` on a region of the world.
unfoldable pub set_chunk :
    {C : Type 0} → World C → Region (Chunk C) → ℤ → ℤ → Option (Chunk C) → Run (World C)
set_chunk w r c_x c_z chunk = do
  r ← region_set_chunk r (mc_localized_chunk c_x) (mc_localized_chunk c_z) chunk
  ok (record { regions = put_region w.regions r })

-- A change that is done to a chunk which is loaded.
unfoldable pub edit_chunk :
    {C : Type 0} → World C → ℤ → ℤ → (Chunk C → Option (Chunk C)) → Run (World C)
edit_chunk w c_x c_z edit =
    elim (world_region_at w (mc_chunk_to_region c_x) (mc_chunk_to_region c_z)) [
      | none ↦ ok w
      | some r ↦ do
        chunk ← region_get_chunk r (mc_localized_chunk c_x) (mc_localized_chunk c_z)
        elim chunk [ none ↦ ok w | some c ↦ set_chunk w r c_x c_z (edit c) ]
    ]

-- `++chunk->player_count`
abbrev pub with_player : {C : Type 0} → Chunk C → Option (Chunk C)
with_player c = some (record c { player_count = c.player_count +ℤ pos 1 })

-- A chunk that nobody sees is freed.
abbrev pub without_player : {C : Type 0} → Chunk C → Option (Chunk C)
without_player c =
    if same_ℤ (c.player_count -ℤ pos 1) (pos 0)
    then none
    else some (record c { player_count = c.player_count -ℤ pos 1 })

-- On the chunk that `world_chunk_at` gives, where it is not NULL.
unfoldable pub chunk_inc_players : {C : Type 0} → World C → ℤ → ℤ → Run (World C)
unfolding edit_chunk
chunk_inc_players w c_x c_z = edit_chunk w c_x c_z with_player

unfoldable pub world_chunk_dec_players : {C : Type 0} → World C → ℤ → ℤ → Run (World C)
unfolding edit_chunk
world_chunk_dec_players w c_x c_z = edit_chunk w c_x c_z without_player

-- The world as it then is, and the error if there was one.
abbrev pub Loading : Type 0 → Type 0 → Type 0
Loading C E = World C × Option E

-- The first half of a round of `world_load_chunks`: the region.
unfoldable pub load_region : {C E : Type 0} → Files C E → World C → ℤ → ℤ → Loading C E
load_region files w rx rz = elim (world_region_at w rx rz) [
  | some r ↦ (w, none)
  | none ↦ elim (files.open_error rx rz) [
    | some e ↦ (w, some e)
    | none ↦ (world_add_region w (new_region rx rz), none)
  ]
]

-- The other half: the chunk, which `anvil_parse_chunk` makes with the count 0.
unfoldable pub load_chunk : {C E : Type 0} → Files C E → World C → ℤ → ℤ → Run (Loading C E)
load_chunk files w vx vz =
    elim (world_region_at w (mc_chunk_to_region vx) (mc_chunk_to_region vz)) [
      | none ↦ ok (w, none)
      | some r ↦ do
        chunk ← region_get_chunk r (mc_localized_chunk vx) (mc_localized_chunk vz)
        elim chunk [
          | some c ↦ ok (w, none)
          | none ↦ elim (files.read_chunk vx vz) [
            | inl e ↦ ok (w, some e)
            | inr content ↦ do
              w ← set_chunk w r vx vz (some (record { player_count = pos 0; content = content }))
              ok (w, none)
          ]
        ]
    ]

-- A round; after an error the function has returned.
unfoldable pub load_round : {C E : Type 0} → Files C E → ℤ → ℤ → Loading C E → Run (Loading C E)
load_round files vx vz (w, some e) = ok (w, some e)
load_round files vx vz (w, none) =
    let (w', error) = load_region files w (mc_chunk_to_region vx) (mc_chunk_to_region vz) in
    elim error [ some e ↦ ok (w', some e) | none ↦ load_chunk files w' vx vz ]

unfoldable pub world_load_chunks :
    {C E : Type 0} → Files C E → World C → ℤ → ℤ → ℕ → Run (Loading C E)
world_load_chunks files w x z view_distance =
    view_foreach (record { x = mc_coord_to_chunk x; z = mc_coord_to_chunk z; size = view_distance })
      (load_round files) (w, none)

-- The part of `struct conn` and of its player that the views go by. A position is cut off to an
-- `int` where it is handed on.
pub record Conn : Type 0 where
  pub player_x : ℤ
  pub player_z : ℤ
  pub view_distance : ℕ
  pub requesting_chunks : Bool
  pub old_chunk_x : ℤ
  pub old_chunk_z : ℤ

unfoldable pub conn_update_view_position_if_needed : Conn → ℤ → ℤ → Conn
conn_update_view_position_if_needed c new_x new_z =
    let old_x = mc_coord_to_chunk c.player_x in
    let old_z = mc_coord_to_chunk c.player_z in
    if not (same_ℤ old_x (mc_coord_to_chunk new_x) && same_ℤ old_z (mc_coord_to_chunk new_z))
    then record c { requesting_chunks = true; old_chunk_x = old_x; old_chunk_z = old_z }
    else c

abbrev pub old_view : Conn → View
old_view c = record { x = c.old_chunk_x; z = c.old_chunk_z; size = c.view_distance }

abbrev pub new_view : Conn → View
new_view c = record {
  x = mc_coord_to_chunk c.player_x;
  z = mc_coord_to_chunk c.player_z;
  size = c.view_distance;
}

-- Both loops of `server_update_view`, without their packets.
unfoldable pub count_view : {C : Type 0} → Conn → World C → Run (World C)
count_view conn w = do
  w ←
      view_foreach (new_view conn)
        (λ x z w. if not (view_contains (old_view conn) x z) then chunk_inc_players w x z else ok w)
        w
  view_foreach (old_view conn)
      (λ x z w.
        if not (view_contains (new_view conn) x z) then world_chunk_dec_players w x z else ok w)
      w

-- `written`: the first packet was written. The results of the other writes are only printed. With
-- `false` the function returns -1.
unfoldable pub server_update_view :
    {C E : Type 0} → Files C E → Bool → Conn → World C → Run (World C × Conn × Bool)
server_update_view {C = C} files written conn w =
    let counted : World C → Run (World C × Conn × Bool) =
      λ w. do w ← count_view conn w; ok (w, record conn { requesting_chunks = false }, true)
    in let loaded : Run (World C × Conn × Bool) = do
      (w, error) ← world_load_chunks files w conn.player_x conn.player_z conn.view_distance
      elim error [ some e ↦ ok (w, conn, false) | none ↦ counted w ]
      in do
        assert (
            not (
              same_ℤ (mc_coord_to_chunk conn.player_x) conn.old_chunk_x
              && same_ℤ (mc_coord_to_chunk conn.player_z) conn.old_chunk_z))
        if not written then ok (w, conn, false) else loaded

unfoldable pub server_end_play : {C : Type 0} → Conn → World C → Run (World C)
server_end_play conn w = view_foreach (new_view conn) (λ x z w. world_chunk_dec_players w x z) w
