-- ===== src/Tests/Positions.antt =====
-- A game of nine moves on a 15x15 board, which black wins with a column of five.
use c_gomoku_cli.Prelude.{
  ℕ, ◌<◌, ◌≡◌, ◌↔◌, refl, some, List, true, false, [], ◌∷◌, pos, arith, update, for_below,
}
use c_gomoku_cli.Coord.{
  black, white, wall, make_pos, pos_from_move, color_from_move, build_move, rotate_90, flip_x,
}
use c_gomoku_cli.Coord.Symmetry.{inverse}
use c_gomoku_cli.Position.{Position, init_board, move, undo, is_legal_move, is_in_board, transform}
use c_gomoku_cli.Position.Validity.{IsValid, Replays}
use c_gomoku_cli.Position.Setup.{init_board-IsValid, init_board-Replays}
use c_gomoku_cli.Position.Undo.{undo-move}
use c_gomoku_cli.Position.Replay.{Playable, move-IsValid, move-Replays, undo-Replays}
use c_gomoku_cli.Position.Symmetries.{Maps, transform-Maps, transform-IsValid, transform_back}
use c_gomoku_cli.Position.Validity.{IsCell}
use c_gomoku_cli.Text.{opening_offset, to_opening_str}
use c_gomoku_cli.OpeningText.{apply_opening, place_squares}
use c_gomoku_cli.OpeningText.Applies.{Follows, apply_opening-to_opening_str}
use c_gomoku_cli.Five.{
  check_five_in_line_side, check_five_in_line_lastmove, search_lines, scan_column, scan_row,
  scan_diagonal, scan_antidiagonal, scan_down, scan_up, scan_cell, check_five_helper,
}
use c_gomoku_cli.Five.Axis.{Axis}
use c_gomoku_cli.Five.Rows.{HasRow}
use c_gomoku_cli.Five.Correct.{check_five_in_line_side_iff}

-- The memory of a fresh object.
abbrev blank : Position
blank = record {
  board = λ i. wall;
  board_size = 0;
  board_size_sqr = 0;
  move_count = 0;
  history_moves = λ i. 7;
  player_to_move = white;
  win_connection_len = 0;
  win_connection_pos = λ i. 0;
}

start : Position
start = init_board blank 15

abbrev first_move : ℕ
first_move = build_move (pos 7) (pos 7) 0

start-IsValid : IsValid start
unfolding start
start-IsValid = init_board-IsValid blank 15 (omega arith) (omega arith)

start-Replays : Replays start
unfolding start
start-Replays = init_board-Replays blank 15 (omega arith)

first_legal : is_legal_move start first_move ≡ true
unfolding start is_legal_move init_board build_move pos_from_move
first_legal = refl

first-Playable : Playable start first_move
unfolding start init_board build_move color_from_move
first-Playable = record { legal = first_legal; own = refl }

moved-IsValid : IsValid (move start first_move)
moved-IsValid = move-IsValid start first_move start-IsValid start-Replays first-Playable

moved-Replays : Replays (move start first_move)
moved-Replays = move-Replays start first_move start-IsValid start-Replays first-Playable

undo-move_example :
    undo (move start first_move)
    ≡ record start { history_moves = update start.history_moves start.move_count first_move }
undo-move_example = undo-move start first_move first_legal

move-Replays_example : Replays (move start first_move)
move-Replays_example = move-Replays start first_move start-IsValid start-Replays first-Playable

undo-Replays_example : Replays (undo (move start first_move))
unfolding move start init_board
undo-Replays_example =
    undo-Replays (move start first_move) moved-IsValid moved-Replays (omega arith)

transform-Maps_example :
    Maps rotate_90 (move start first_move) (transform (move start first_move) rotate_90)
transform-Maps_example =
    transform-Maps (move start first_move) moved-IsValid moved-Replays rotate_90

transform-IsValid_example :
    IsValid (transform (move start first_move) flip_x)
    × Replays (transform (move start first_move) flip_x)
transform-IsValid_example =
    transform-IsValid (move start first_move) moved-IsValid moved-Replays flip_x

transform_back_example :
    ((c : ℕ)
      → (transform (transform (move start first_move) rotate_90) (inverse rotate_90)).board c
        ≡ (move start first_move).board c)
    × ((i : ℕ)
        → i < (move start first_move).move_count
        → pos_from_move (
            (transform
                (transform (move start first_move) rotate_90)
                (inverse rotate_90)).history_moves
              i)
          ≡ pos_from_move ((move start first_move).history_moves i))
transform_back_example =
    transform_back (move start first_move) rotate_90 moved-IsValid moved-Replays

play_all : Position → List ℕ → Position
play_all p [] = p
play_all p (m ∷ ms) = play_all (move p m) ms

abbrev AllPlayable : Position → List ℕ → Type 0
AllPlayable p [] = Unit {0}
AllPlayable p (m ∷ ms) = Playable p m × AllPlayable (move p m) ms

play_all-IsValid :
    (p : Position) (ms : List ℕ)
    → IsValid p
    → Replays p
    → AllPlayable p ms
    → IsValid (play_all p ms) × Replays (play_all p ms)
unfolding play_all
play_all-IsValid p [] v r a = (v, r)
play_all-IsValid p (m ∷ ms) v r a =
    play_all-IsValid (move p m) ms (move-IsValid p m v r a.0) (move-Replays p m v r a.0) a.1

-- Black fills a column from (7, 7) on, white one beside it.
abbrev nine_moves : List ℕ
nine_moves =
    build_move (pos 7) (pos 7) 0
    ∷ build_move (pos 8) (pos 7) 1
    ∷ build_move (pos 7) (pos 8) 0
    ∷ build_move (pos 8) (pos 8) 1
    ∷ build_move (pos 7) (pos 9) 0
    ∷ build_move (pos 8) (pos 9) 1
    ∷ build_move (pos 7) (pos 10) 0
    ∷ build_move (pos 8) (pos 10) 1
    ∷ build_move (pos 7) (pos 11) 0
    ∷ []

nine-AllPlayable : AllPlayable start nine_moves
unfolding start is_legal_move init_board build_move pos_from_move color_from_move move
nine-AllPlayable = (
  record { legal = refl; own = refl },
  (
    record { legal = refl; own = refl },
    (
      record { legal = refl; own = refl },
      (
        record { legal = refl; own = refl },
        (
          record { legal = refl; own = refl },
          (
            record { legal = refl; own = refl },
            (
              record { legal = refl; own = refl },
              (record { legal = refl; own = refl }, (record { legal = refl; own = refl }, tt)),
            ),
          ),
        ),
      ),
    ),
  ),
)

won : Position
unfolding start play_all
won = play_all start nine_moves

won-IsValid : IsValid won × Replays won
unfolding won
won-IsValid = play_all-IsValid start nine_moves start-IsValid start-Replays nine-AllPlayable

black_won : (check_five_in_line_lastmove won false).1 ≡ true
unfolding won init_board build_move pos_from_move move check_five_in_line_lastmove
    check_five_in_line_side search_lines scan_column scan_row scan_diagonal scan_antidiagonal
    scan_down scan_up scan_cell check_five_helper for_below make_pos is_in_board start play_all
black_won = refl

check_five_in_line_side_iff_example :
    ((check_five_in_line_side won black false).1 ≡ true) ↔ ((ax : Axis) × HasRow won black false ax)
check_five_in_line_side_iff_example =
    check_five_in_line_side_iff won black false won-IsValid.0 (λ e. cc)

moved_size : start.board_size ≡ (move start first_move).board_size
unfolding move
moved_size = refl

apply_opening-to_opening_str_example :
    (q : Position) × (apply_opening start
        (to_opening_str (move start first_move) opening_offset)
        opening_offset
      ≡ some q)
    × Follows (move start first_move) q (move start first_move).move_count
    × ((s : ℕ)
        → IsCell (move start first_move).board_size s
        → q.board s ≡ (move start first_move).board s)
    × (q.player_to_move ≡ (move start first_move).player_to_move)
apply_opening-to_opening_str_example =
    apply_opening-to_opening_str (move start first_move) moved-IsValid moved-Replays start
      opening_offset moved_size

-- The opening h8i9.
abbrev opened : Position
opened =
    place_squares (make_pos (pos 7) (pos 7) ∷ make_pos (pos 8) (pos 8) ∷ []) (init_board start 15)
