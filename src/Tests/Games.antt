-- ===== src/Tests/Games.antt =====
-- Forbidden points, and a game against silent engines.
use c_gomoku_cli.Prelude.{
  for_below, ℕ, zero, suc, ◌+◌, ◌≡◌, ◌⊎◌, ◌↔◌, inl, refl, true, false, List, [], ◌∷◌, pos, arith,
  some, none, update, ltb_ℤ, subst,
}
use c_gomoku_cli.Coord.{
  white, black, empty, wall, color_code, make_pos, build_move, pos_from_move, color_from_move,
  none_move, coord_y, coord_x,
}
use c_gomoku_cli.Text.{
  is_valid_move_gomostr, gomostr_to_move, find_comma, is_number, stoi, strtol, skip_spaces,
  read_digits, opening_pos, opening_offset, to_opening_str, show_int, digits,
}
use c_gomoku_cli.Position.{move, set_piece, is_legal_move, is_in_board, Position, init_board}
use c_gomoku_cli.Position.Validity.{IsValid}
use c_gomoku_cli.Position.Setup.{init_board-IsValid}
use c_gomoku_cli.Renju.{
  Board, ForbiddenType, forbidden_none, overline, check_forbidden_move, is_five, is_overline,
  is_five_dir, line_count, run,
}
use c_gomoku_cli.Five.Axis.{Axis}
use c_gomoku_cli.Coord.Cells.{cell}
use c_gomoku_cli.Renju.Runs.{Four, FiveMore}
use c_gomoku_cli.Renju.Fives.{back_cell, ahead_cell, is_five_iff, is_overline_iff}
use c_gomoku_cli.Renju.Rule.{MakesFive, MakesMore, check_forbidden_move-rule}
use c_gomoku_cli.Renju.Forbidden.{check_forbidden_move-keeps}
use c_gomoku_cli.Game.{
  renju, state_none, five_connect, Options, EngineOptions, Reply, Play, white_result, decode_state,
}
use c_gomoku_cli.Game.Ends.{Ends}
use c_gomoku_cli.Game.Result.{decode_state-white_result}
use c_gomoku_cli.Worker.{
  Worker, deadline_set, deadline_clear, run_callback, deadline_callback_once, deadline_overdue,
}
use c_gomoku_cli.Worker.Once.{nothing, calls, callbacks_once, deadline_overdue_lem}

abbrev blank : Position
blank = record {
  board = λ i. wall;
  board_size = 0;
  board_size_sqr = 0;
  move_count = 0;
  history_moves = λ i. 0;
  player_to_move = black;
  win_connection_len = 0;
  win_connection_pos = λ i. 0;
}

start : Position
start = init_board blank 15

start-IsValid : IsValid start
unfolding start
start-IsValid = init_board-IsValid blank 15 (omega arith) (omega arith)

-- A row of black stones at y = 7, from x = 3 on.
abbrev row_board : List ℕ → Board
unfolding start init_board
row_board [] = start.board
row_board (x ∷ xs) = update (row_board xs) (make_pos (pos x) (pos 7)) black

abbrev centre : ℕ
centre = make_pos (pos 7) (pos 7)

centre_move : ℕ
centre_move = build_move (pos 7) (pos 7) 0

abbrev four_board : Board
unfolding start init_board make_pos
four_board = row_board (3 ∷ 4 ∷ 5 ∷ 6 ∷ [])

four_position : Position
unfolding start init_board make_pos
four_position = record start { board = four_board }

five_there : is_five four_board centre black ≡ true
unfolding four_board start init_board make_pos is_five is_five_dir line_count run
five_there = refl

centre_five : is_five four_position.board (pos_from_move centre_move) black ≡ true
unfolding four_position four_board start init_board make_pos is_five is_five_dir line_count run
    centre_move build_move pos_from_move
centre_five = refl

centre_black : color_from_move centre_move ≡ color_code black
unfolding centre_move build_move color_from_move
centre_black = refl

centre_pos : pos_from_move centre_move ≡ cell 7 7
unfolding centre_move build_move pos_from_move cell
centre_pos = refl

centre_makes : (four_position.board (cell 7 7) ≡ empty) × MakesFive four_position 7 7
unfolding four_position
centre_makes =
    (is_five_iff four_board 7 7 black).0
      (subst (λ q. is_five four_board q black ≡ true) centre_pos centre_five)

check_forbidden_move-rule_example :
    (t : ForbiddenType) × (check_forbidden_move 3 four_position centre_move
      ≡ some (four_position, t))
    × (((t ≡ overline) × MakesMore four_position 7 7)
        ⊎ ((t ≡ forbidden_none) × (¬ MakesMore four_position 7 7)))
check_forbidden_move-rule_example =
    check_forbidden_move-rule 2 four_position centre_move 7 7 centre_black centre_pos centre_makes.0
      centre_makes.1

check_forbidden_move-keeps_example :
    (t : ForbiddenType) × (check_forbidden_move 1025 start centre_move ≡ some (start, t))
check_forbidden_move-keeps_example =
    check_forbidden_move-keeps 1025 start centre_move start-IsValid (omega arith)

is_five_iff_example : (is_five four_board (cell 7 7) black ≡ true) ↔ (
    (four_board (cell 7 7) ≡ empty)
    × ((ax : Axis) × Four four_board black (back_cell ax 7 7) (ahead_cell ax 7 7)))
is_five_iff_example = is_five_iff four_board 7 7 black

is_overline_iff_example : (is_overline four_board (cell 7 7) black ≡ true) ↔ (
    (four_board (cell 7 7) ≡ empty)
    × ((ax : Axis) × FiveMore four_board black (back_cell ax 7 7) (ahead_cell ax 7 7)))
is_overline_iff_example = is_overline_iff four_board 7 7 black

-- Black's first move, then an engine that crashes.
abbrev options : Options
options = record {
  game_rule = renju;
  force_draw_after = pos 0;
  draw_count = pos 0;
  draw_score = pos 0;
  resign_count = pos 0;
  resign_score = pos 0;
  use_turn = true;
  fatal_error = false;
}

abbrev engine_options : ℕ → EngineOptions
engine_options i = record { timeout_turn = pos 0; timeout_match = pos 0; increment = pos 0 }

-- 7,7 at the first ply.
abbrev answers : ℕ → Reply
answers zero = record {
  ok = true;
  is_crashed = false;
  time_left = pos 5;
  best = 55 ∷ 44 ∷ 55 ∷ [];
  score = pos 0;
}
answers (suc n) = record {
  ok = false;
  is_crashed = true;
  time_left = pos 5;
  best = [];
  score = pos 0;
}

abbrev opening : Position → Play
opening p = record {
  position = p;
  ply = 0;
  state = state_none;
  played = none_move;
  ei = 0;
  time_left = λ i. pos 0;
  can_use_turn = λ i. false;
  draw_ply_count = pos 0;
  resign_counts = λ i. pos 0;
  samples = [];
  forbidden_type = forbidden_none;
  sent = [];
}

abbrev won_game : Play
unfolding start init_board
won_game = record (opening start) {
  state = five_connect;
  samples = record { position = start; best_move = 0; result = 3; eval = pos 0 } ∷ [];
}

decode_state-white_result_example :
    (r : ℕ) × ((decode_state won_game won_game.state).0 ≡ some r) × (r + white_result won_game ≡ 2)
unfolding won_game start init_board
decode_state-white_result_example =
    decode_state-white_result won_game (inl refl) (λ e. cc) (λ e. cc)

-- A worker, with numbers for callbacks.
abbrev idle : Worker ℕ
idle = record {
  deadline = record {
    time_limit = pos 0;
    engine_name = [];
    description = [];
    callback = none;
    is_set = false;
    called = false;
  };
  runs = [];
}

abbrev waiting : Worker ℕ
unfolding deadline_set
waiting = deadline_set [] (pos 9) [] (some 4) idle

abbrev looked : Worker ℕ
unfolding deadline_callback_once
looked = deadline_callback_once (deadline_callback_once waiting)

callbacks_once_example :
    ((looked.runs ≡ idle.runs) ⊎ (looked.runs ≡ run_callback (some 4) idle.runs))
    × (deadline_callback_once (deadline_clear looked) ≡ deadline_clear looked)
unfolding deadline_callback_once looked deadline_set waiting
callbacks_once_example =
    callbacks_once [] [] (pos 9) (some 4) idle looked _ (calls (calls nothing)) (calls nothing)

deadline_overdue_lem_example :
    (ltb_ℤ (pos 0) (deadline_overdue (pos 11) waiting) ≡ true)
    ↔ ((waiting.deadline.is_set ≡ true) × (ltb_ℤ waiting.deadline.time_limit (pos 11) ≡ true))
deadline_overdue_lem_example = deadline_overdue_lem (pos 11) waiting

-- A coordinate outside of the board names a cell of another column, or another color.
aliased_cell : build_move (pos 3) (pos 32) 0 ≡ build_move (pos 4) (pos 0) 0
unfolding build_move
aliased_cell = refl

aliased_color : color_from_move (build_move (pos 32) (pos 0) 0) ≡ color_code white
unfolding build_move color_from_move
aliased_color = refl

aliased_legal : is_legal_move start (build_move (pos 32) (pos 0) 0) ≡ true
unfolding start init_board build_move is_legal_move pos_from_move is_in_board
aliased_legal = refl

-- The opening h8 i8 in both formats.
two_moves : Position
unfolding start
two_moves = move (move start (build_move (pos 7) (pos 7) 0)) (build_move (pos 8) (pos 7) 1)

two_moves_pos : to_opening_str two_moves opening_pos ≡ 104 ∷ 56 ∷ 105 ∷ 56 ∷ []
unfolding two_moves start init_board move set_piece build_move to_opening_str for_below show_int
    digits coord_x coord_y pos_from_move
two_moves_pos = refl

two_moves_offset :
    to_opening_str two_moves opening_offset ≡ 48 ∷ 44 ∷ 48 ∷ 44 ∷ 32 ∷ 49 ∷ 44 ∷ 48 ∷ []
unfolding two_moves start init_board move set_piece build_move to_opening_str for_below show_int
    digits coord_x coord_y pos_from_move
two_moves_offset = refl

-- A comma alone passes for a move, and stoi then throws.
comma_alone : (is_valid_move_gomostr (44 ∷ []) ≡ true) × (gomostr_to_move start (44 ∷ []) ≡ none)
unfolding is_valid_move_gomostr gomostr_to_move find_comma is_number stoi strtol skip_spaces
    read_digits
comma_alone = (refl, refl)
