-- ===== src/Lobby/Layout.antt =====
-- `NewDojo` of internal/lobby/lobby.go: the blocked tiles and the entrance.
use termon.Prelude.{ℕ, suc, zero, ◌+◌, ◌-◌, List, [], ◌∷◌, ◌++◌}
use termon.Prelude.Int.{pos}
use termon.Lobby.{Tile, Room, width, height, capacity, master, notice_board}

-- `n` tiles from (x, y) to the east, and to the south.
unfoldable pub row : ℕ → ℕ → ℕ → List Tile
row zero x y = []
row (suc n) x y = (pos x, pos y) ∷ row n (x + 1) y

unfoldable pub column : ℕ → ℕ → ℕ → List Tile
column zero x y = []
column (suc n) x y = (pos x, pos y) ∷ column n x (y + 1)

-- The walls, then the landmarks that nobody passes: the Master, the gong, the dummy, the lanterns and
-- the crest on the wall, the benches, the plants and the notice board.
unfoldable pub dojo_blocked : List Tile
unfolding row column
dojo_blocked =
    row width 0 0
    ++ row width 0 (height - 1)
    ++ column height 0 0
    ++ column height (width - 1) 0
    ++ row (width - 2) 1 1
    ++ master
      ∷ (pos 20, pos 10)
      ∷ (pos 28, pos 10)
      ∷ (pos 18, pos 1)
      ∷ (pos 24, pos 1)
      ∷ (pos 30, pos 1)
      ∷ (pos 7, pos 2)
      ∷ (pos 41, pos 2)
      ∷ (pos 4, pos 2)
      ∷ (pos 44, pos 2)
      ∷ notice_board
      ∷ []

unfoldable pub dojo_spawns : List Tile
unfolding row
dojo_spawns = row capacity 8 (height - 2)

unfoldable pub new_dojo : Room
unfolding dojo_blocked dojo_spawns
new_dojo = record { blocked = dojo_blocked; spawns = dojo_spawns; by_hash = [] }
