-- ===== src/OpeningText/Bounds.antt =====
-- An opening that is accepted stays on the board.
use c_gomoku_cli.Prelude.{ℕ, ◌-◌, ◌<◌, ◌≡◌, ◌⊎◌}
use c_gomoku_cli.Coord.{black, white, opponent_color, pos_from_move}
use c_gomoku_cli.Position.{Position}
use c_gomoku_cli.Position.Validity.{IsValid}
use c_gomoku_cli.Text.{Text}
use c_gomoku_cli.OpeningText.RoundTrip.{Cells}

-- A position between the moves of an opening: valid, with a player to move, and with the
-- opponent's stone where the last move was.
pub record Opened (p : Position) (size count : ℕ) : Type 0 where
  pub valid : IsValid p
  pub player : (p.player_to_move ≡ black) ⊎ (p.player_to_move ≡ white)
  pub size_is : p.board_size ≡ size
  pub count_is : p.move_count ≡ count
  pub last :
      0 < p.move_count
      → p.board (pos_from_move (p.history_moves (p.move_count - 1)))
        ≡ opponent_color p.player_to_move
