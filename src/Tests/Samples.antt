-- ===== src/Tests/Samples.antt =====
-- Samples of a game, a command line and an engine's answer to ABOUT.
use c_gomoku_cli.Prelude.{
  List, ℕ, ◌/◌, ◌%◌, ◌<◌, ◌≡◌, refl, true, false, [], ◌∷◌, none, some, pos, arith, codes, map,
}
use c_gomoku_cli.Coord.{white, empty, build_move, make_pos, pos_from_move, color_from_move}
use c_gomoku_cli.Coord.Cells.{cell}
use c_gomoku_cli.Coord.Moves.{pos_from_move-build_move_pos}
use c_gomoku_cli.Position.{Position}
use c_gomoku_cli.Text.{Text}
use c_gomoku_cli.Game.{gomoku_five_or_more, Sample}
use c_gomoku_cli.Exports.{bin_entry}
use c_gomoku_cli.Exports.Packs.{IsOnBoard}
use c_gomoku_cli.Exports.Bins.{read_square, squares_from, read_square-bin_entry}
use c_gomoku_cli.Commands.{engine_parse_cmd}
use c_gomoku_cli.Commands.Paths.{Splits}
use c_gomoku_cli.Commands.RoundTrip.{print_cmd, engine_parse_cmd-print_cmd}
use c_gomoku_cli.Arguments.{Doubles}
use c_gomoku_cli.Arguments.Parse.{options_parse}
use c_gomoku_cli.Arguments.Checked.{Checked, options_parse-Checked}
use c_gomoku_cli.Engine.{writes, dies, Engine}
use c_gomoku_cli.Engine.About.{parse_about}
use c_gomoku_cli.Engine.Named.{Abouts, parse_about-Abouts}

-- A position with `n` moves, all written as 7,7.
abbrev position_of : ℕ → Position
position_of n = record {
  board = λ i. empty;
  board_size = 15;
  board_size_sqr = 225;
  move_count = n;
  history_moves = λ i. build_move (pos 7) (pos 7) 0;
  player_to_move = white;
  win_connection_len = 0;
  win_connection_pos = λ i. 0;
}

abbrev sample_of : ℕ → ℕ → Sample
sample_of n side = record {
  position = position_of n;
  best_move = build_move (pos 8) (pos 7) side;
  result = 1;
  eval = pos 12;
}

sample_of-IsOnBoard : (n side : ℕ) → side < 2 → IsOnBoard (sample_of n side)
unfolding build_move pos_from_move cell
sample_of-IsOnBoard n side h = record {
  size_le = omega arith;
  played = λ i hi. (7, 7, omega arith, omega arith, refl);
  best = (
    8,
    7,
    omega arith,
    omega arith,
    pos_from_move-build_move_pos 428 side (omega arith) (omega arith),
  );
}

white_small : (sample_of 1 1).best_move < 4096
unfolding build_move make_pos
white_small = omega arith

read_square-bin_entry_example :
    ((bin_entry gomoku_five_or_more (sample_of 1 1)).result ≡ 1)
    × ((bin_entry gomoku_five_or_more (sample_of 1 1)).boardsize ≡ 15)
    × ((bin_entry gomoku_five_or_more (sample_of 1 1)).ply ≡ 1)
    × (map read_square (bin_entry gomoku_five_or_more (sample_of 1 1)).position
        ≡ squares_from (position_of 1) 0 1)
    × (read_square ((bin_entry gomoku_five_or_more (sample_of 1 1)).best_move % 1024)
        ≡ pos_from_move (sample_of 1 1).best_move)
    × ((bin_entry gomoku_five_or_more (sample_of 1 1)).best_move / 1024
        ≡ color_from_move (sample_of 1 1).best_move)
read_square-bin_entry_example =
    read_square-bin_entry gomoku_five_or_more (sample_of 1 1)
      (sample_of-IsOnBoard 1 1 (omega arith)) (omega arith) (omega arith) white_small

engine_parse_cmd-print_cmd_example :
    (cwd : Text) × (run : Text) × (engine_parse_cmd
        (print_cmd (codes "../a b/engine") (codes "-t" ∷ codes "x y" ∷ []))
      ≡ some (cwd, run, run ∷ codes "-t" ∷ codes "x y" ∷ []))
    × Splits (codes "../a b/engine") cwd run
engine_parse_cmd-print_cmd_example =
    engine_parse_cmd-print_cmd (codes "../a b/engine") (codes "-t" ∷ codes "x y" ∷ []) tt
      (tt, (tt, tt))

abbrev about_engine : Engine
about_engine = record {
  name = [];
  w = record {
    deadline = record {
      time_limit = pos 0;
      engine_name = [];
      description = [];
      callback = none;
      is_set = false;
      called = false;
    };
    runs = [];
  };
  has_pipes = true;
  messages = none;
  tolerance = pos 3000;
  pid = 7;
  feed = writes (codes "DEBUG hello") (pos 3) (writes (codes "name=\"Five\"") (pos 5) dies);
  clock = pos 1;
  sent = [];
}

parse_about-Abouts_example : Abouts about_engine (parse_about true (codes "./five") about_engine)
parse_about-Abouts_example = parse_about-Abouts (codes "./five") about_engine refl refl

abbrev no_doubles : Doubles
no_doubles = record {
  to_int64 = λ s. pos 1;
  to_msec = λ s. pos 1000;
  validate = λ elo0 elo1 alpha beta. true;
}

abbrev command_line : List Text
command_line =
    codes "-boardsize"
    ∷ codes "20"
    ∷ codes "-each"
    ∷ codes "tc=10/1"
    ∷ codes "-engine"
    ∷ codes "cmd=a"
    ∷ codes "-engine"
    ∷ codes "cmd=b"
    ∷ []

options_parse-Checked_example : Checked (options_parse no_doubles command_line)
options_parse-Checked_example = options_parse-Checked no_doubles command_line
