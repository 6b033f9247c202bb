-- ===== src/Tests/Players.antt =====
-- src/world.c, src/server.c: a player who walks through a world with one region.
use chowder.Prelude.{
  ℕ, ◌≡◌, refl, sym, ap, ◌&&◌, true, false, [], ◌∷◌, Option, none, some, ok, set, replicate, Holds,
  holds, Holds-ok, inr, arith,
}
use mathlib.Core.Path.{transport}
use chowder.Prelude.Int.{ℤ, pos, ◌+ℤ◌, ◌-ℤ◌, same_ℤ}
use chowder.Mc.{mc_coord_to_chunk, mc_chunk_to_region, mc_localized_chunk}
use chowder.Region.{new_region, region_set_chunk, chunk_coord_to_array_idx}
use chowder.Region.Laws.{new_region-IsTable}
use chowder.View.{view_contains}
use chowder.View.Laws.{changed}
use chowder.World.{
  World, Chunk, Files, Conn, old_view, new_view, world_chunk_at, world_region_at, world_add_region,
  find_region, put_region, set_chunk, server_update_view, server_end_play,
}
use chowder.World.Players.{HasCounts, at, set_chunk-HasCounts}
use chowder.World.Views.{
  total, CountsPlayers, plus_viewer, counts_players, server_end_play-CountsPlayers,
}
use chowder.World.Loading.{add_region_at}
use chowder.World.Update.{IsUpdated, server_update_view-IsUpdated}

abbrev every_file : Files ℕ ℕ
every_file = record { open_error = λ x z. none; read_chunk = λ x z. inr 7 }

-- From chunk 0 to chunk 1, with no chunk around.
abbrev walker : Conn
walker = record {
  player_x = pos 16;
  player_z = pos 0;
  view_distance = 0;
  requesting_chunks = true;
  old_chunk_x = pos 0;
  old_chunk_z = pos 0;
}

abbrev walker_there : Conn
walker_there = record walker { player_x = pos 5 }

abbrev nobody : ℤ → ℤ → ℕ
nobody a b = 0

abbrev no_regions : World ℕ
no_regions = record { regions = [] }

abbrev one_region : World ℕ
one_region = record { regions = new_region (pos 0) (pos 0) ∷ [] }

abbrev one_chunk : Chunk ℕ
one_chunk = record { player_count = pos 1; content = 7 }

-- The chunk at the origin with one player, in an else empty region.
abbrev one_player : World ℕ
one_player = record {
  regions =
      record {
        x = pos 0;
        z = pos 0;
        chunks =
            set (replicate 32 (replicate 32 none)) 0 (set (replicate 32 none) 0 (some one_chunk));
      }
      ∷ [];
}

no_counts : HasCounts (λ a b. none) one_region
unfolding world_add_region world_chunk_at world_region_at find_region
no_counts = record {
  tables = (new_region-IsTable (pos 0) (pos 0), tt);
  counts = λ a b.
      let empty : world_chunk_at one_region a b ≡ ok none =
        add_region_at no_regions (pos 0) (pos 0) a b refl in
      rw empty (holds none refl);
}

one_player-made :
    set_chunk one_region (new_region (pos 0) (pos 0)) (pos 0) (pos 0) (some one_chunk)
    ≡ ok one_player
unfolding set_chunk region_set_chunk mc_localized_chunk chunk_coord_to_array_idx new_region
    put_region
one_player-made = refl

abbrev one : ℤ → ℤ → Option ℤ → Option ℤ
one a b o = some (pos 1)

one_player-HasCounts : HasCounts (changed one (at (pos 0) (pos 0)) (λ a b. none)) one_player
unfolding mc_chunk_to_region world_region_at find_region new_region
one_player-HasCounts = Holds-ok (
    transport
      (ap (Holds (HasCounts (changed one (at (pos 0) (pos 0)) (λ a b. none)))) one_player-made)
      (set_chunk-HasCounts (λ a b. none) one_region (new_region (pos 0) (pos 0)) (pos 0) (pos 0)
        (some one_chunk) one no_counts refl refl))

origin_seen :
    (a b : ℤ)
    → total (changed one (at (pos 0) (pos 0)) (λ a b. none) a b)
      ≡ pos (plus_viewer nobody (old_view walker) a b)
unfolding view_contains ◌+ℤ◌ ◌-ℤ◌
origin_seen a b = ground arith

one_player-CountsPlayers : CountsPlayers (plus_viewer nobody (old_view walker)) one_player
one_player-CountsPlayers =
    counts_players (plus_viewer nobody (old_view walker))
      (changed one (at (pos 0) (pos 0)) (λ a b. none)) one_player origin_seen one_player-HasCounts

walker_moved :
    same_ℤ (mc_coord_to_chunk (pos 16)) (pos 0) && same_ℤ (mc_coord_to_chunk (pos 0)) (pos 0)
    ≡ false
unfolding mc_coord_to_chunk
walker_moved = refl

server_update_view-IsUpdated_example :
    Holds (IsUpdated walker nobody) (server_update_view every_file true walker one_player)
server_update_view-IsUpdated_example =
    server_update_view-IsUpdated every_file true walker nobody one_player walker_moved
      one_player-CountsPlayers

there_is_origin : new_view walker_there ≡ old_view walker
unfolding mc_coord_to_chunk
there_is_origin = refl

server_end_play-CountsPlayers_example :
    Holds
      (λ w.
        CountsPlayers nobody w
        × ((a b : ℤ)
            → view_contains (new_view walker_there) a b ≡ true
            → nobody a b ≡ 0
            → world_chunk_at w a b ≡ ok none))
      (server_end_play walker_there one_player)
server_end_play-CountsPlayers_example =
    server_end_play-CountsPlayers walker_there nobody one_player (
      transport (ap (λ v. CountsPlayers (plus_viewer nobody v) one_player) (sym there_is_origin))
        one_player-CountsPlayers)
