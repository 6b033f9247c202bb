-- ===== src/World/Update.antt =====
-- src/server.c: `server_update_view`, on every way that it returns.
use chowder.Prelude.{
  ℕ, ◌≡◌, refl, Bool, true, false, ◌&&◌, none, some, if◌then◌else◌, ok, ◌>>=◌, Holds, holds,
  Holds-bind,
}
use chowder.Prelude.Int.{ℤ, same_ℤ}
use chowder.Mc.{mc_coord_to_chunk}
use chowder.View.{view_contains}
use chowder.World.{World, Files, Loading, Conn, old_view, new_view, count_view, server_update_view}
use chowder.World.Views.{CountsPlayers, plus_viewer, count_view-CountsPlayers}
use chowder.World.Loading.{IsLoaded, world_load_chunks-IsLoaded}

-- The view that is counted for the connection: the new one where the function returned 0.
pub record IsUpdated {C : Type 0} (conn : Conn) (n : ℤ → ℤ → ℕ) (r : World C × Conn × Bool)
    : Type 0 where
  pub counts : CountsPlayers (plus_viewer n (if r.2 then new_view conn else old_view conn)) (r.0)
  pub requesting : r.1.requesting_chunks ≡ (if r.2 then false else conn.requesting_chunks)

module _ {C E : Type 0} where
  after_load :
      (conn : Conn) (n : ℤ → ℤ → ℕ) (l : Loading C E)
      → IsLoaded {E = E}
          (plus_viewer n (old_view conn))
          (λ a b. view_contains (new_view conn) a b)
          l
      → Holds (IsUpdated conn n) (elim (l.1) [
        | some e ↦ ok (l.0, conn, false)
        | none ↦ do
          w ← count_view conn (l.0)
          ok (w, record conn { requesting_chunks = false }, true)
      ])
  after_load conn n (w, some e) h =
      holds (w, conn, false) (record { counts = h.counts; requesting = refl })
  after_load conn n (w, none) h =
      Holds-bind (count_view-CountsPlayers conn n w h.counts (h.loaded refl)) (λ w' k.
        holds (w', record conn { requesting_chunks = false }, true)
          (record { counts = k; requesting = refl }))

  -- When the player moved to another chunk, and the count of each chunk (0 where none is loaded) is
  -- the number of the other players who see it, plus 1 if it is in the view around the old chunk:
  -- `server_update_view` ends without a fault. Where it returns 0 the counts hold with the view
  -- around the new chunk in place of the old one, and the request is cleared; where it returns -1,
  -- because the first packet or loading failed, the counts hold with the old view and the request
  -- stays.
  pub server_update_view-IsUpdated :
      (files : Files C E) (written : Bool) (conn : Conn) (n : ℤ → ℤ → ℕ) (w : World C)
      → same_ℤ (mc_coord_to_chunk conn.player_x) conn.old_chunk_x
          && same_ℤ (mc_coord_to_chunk conn.player_z) conn.old_chunk_z
        ≡ false
      → CountsPlayers (plus_viewer n (old_view conn)) w
      → Holds (IsUpdated conn n) (server_update_view files written conn w)
  unfolding server_update_view
  server_update_view-IsUpdated files false conn n w moved h =
      rw (moved, ◌>>=◌) (holds (w, conn, false) (record { counts = h; requesting = refl }))
  server_update_view-IsUpdated files true conn n w moved h =
      rw (moved, ◌>>=◌)
        (Holds-bind
          (world_load_chunks-IsLoaded (plus_viewer n (old_view conn)) files w conn.player_x
            conn.player_z conn.view_distance h)
          (λ l k. after_load conn n l k))
