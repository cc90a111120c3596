-- ===== src/Position/Validity.antt =====
-- What every position of a game satisfies.
use c_gomoku_cli.Prelude.{ℕ, ◌*◌, ◌%◌, ◌<◌, ◌≤◌, ◌≡◌, ◌≢◌, ◌⊎◌, if◌then◌else◌, ◌==◌}
use c_gomoku_cli.Coord.{
  Color, black, white, empty, wall, color_code, pos_from_move, color_from_move,
}
use c_gomoku_cli.Coord.Cells.{cell}
use c_gomoku_cli.Position.{Position}

-- The cell `q` of the array is one of the board.
abbrev pub IsCell : ℕ → ℕ → Type 0
IsCell size q = (x : ℕ) × (y : ℕ) × (x < size) × (y < size) × (q ≡ cell x y)

-- The player who makes move number `i` when black begins.
abbrev pub player_at : ℕ → Color
player_at i = if i % 2 == 0 then black else white

-- The board is the square of its size inside the walls.
pub record IsValid (p : Position) : Type 0 where
  pub size_pos : 0 < p.board_size
  pub size_le : p.board_size ≤ 22
  pub size_sqr : p.board_size_sqr ≡ p.board_size * p.board_size
  pub inside : (q : ℕ) → IsCell p.board_size q → p.board q ≢ wall
  pub outside : (q : ℕ) → q < 1024 → ¬ IsCell p.board_size q → p.board q ≡ wall

-- The stones are those of the move history, which black began and which never used a cell twice.
pub record Replays (p : Position) : Type 0 where
  pub turn : p.player_to_move ≡ player_at p.move_count
  pub on_cell : (i : ℕ) → i < p.move_count → IsCell p.board_size (pos_from_move (p.history_moves i))
  pub coloured :
      (i : ℕ) → i < p.move_count → color_from_move (p.history_moves i) ≡ color_code (player_at i)
  pub stone : (i : ℕ) → i < p.move_count → p.board (pos_from_move (p.history_moves i)) ≡ player_at i
  pub distinct :
      (i j : ℕ)
      → i < j
      → j < p.move_count
      → pos_from_move (p.history_moves i) ≢ pos_from_move (p.history_moves j)
  pub covered :
      (q : ℕ)
      → IsCell p.board_size q
      → (p.board q ≡ empty)
        ⊎ ((i : ℕ) × (i < p.move_count) × (pos_from_move (p.history_moves i) ≡ q))
