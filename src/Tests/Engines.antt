-- ===== src/Tests/Engines.antt =====
-- An engine that answers, and one that dies.
use c_gomoku_cli.Prelude.{◌≡◌, refl, true, false, [], none, some, pos, arith, codes}
use c_gomoku_cli.Coord.{black}
use c_gomoku_cli.Text.{
  is_valid_move_gomostr, find_comma, is_number, strtol, skip_spaces, read_digits,
}
use c_gomoku_cli.Tokens.{string_prefix}
use c_gomoku_cli.Worker.{deadline_set, deadline_clear}
use c_gomoku_cli.Engine.{
  Feed, writes, dies, Callback, Engine, readln, feed_length, process_common_output, first_prefix,
}
use c_gomoku_cli.Engine.Turns.{
  bestmove, search_loop, search_line, ask_to_stop, limits_of, first_turn,
}
use c_gomoku_cli.Engine.Waiting.{wait_for_ok}
use c_gomoku_cli.Engine.Start.{Waits, says_ok, wait_for_ok-Waits}
use c_gomoku_cli.Engine.Replies.{engine_reply}
use c_gomoku_cli.Engine.Scores.{engine_reply-score}
use c_gomoku_cli.Game.{
  gomoku_five_or_more, state_none, Options, EngineOptions, Reply, Play, is_hopeless, is_even,
  non_zero,
}
use c_gomoku_cli.Renju.{forbidden_none}

-- An engine that will write these lines, one in each millisecond.
abbrev engine_with : Feed → Engine
engine_with f = record {
  name = codes "e";
  w = record {
    deadline = record {
      time_limit = pos 0;
      engine_name = [];
      description = [];
      callback = none;
      is_set = false;
      called = false;
    };
    runs = [];
  };
  has_pipes = true;
  messages = none;
  tolerance = pos 3000;
  pid = 7;
  feed = f;
  clock = pos 100;
  sent = [];
}

abbrev answering : Feed
answering = writes (codes "MESSAGE hello") (pos 101) (writes (codes "7,7") (pos 102) dies)

wait_for_ok-Waits_example :
    Waits false
      (says_ok (writes (codes "OK") (pos 101) dies))
      (wait_for_ok false (engine_with (writes (codes "OK") (pos 101) dies)))
wait_for_ok-Waits_example =
    wait_for_ok-Waits false (engine_with (writes (codes "OK") (pos 101) dies)) refl

abbrev game_options : Options
game_options = record {
  game_rule = gomoku_five_or_more;
  force_draw_after = pos 0;
  draw_count = pos 4;
  draw_score = pos 10;
  resign_count = pos 3;
  resign_score = pos 200;
  use_turn = true;
  fatal_error = false;
}

abbrev game_times : EngineOptions
game_times = record { timeout_turn = pos 500; timeout_match = pos 1000; increment = pos 0 }

abbrev game : Play
game = record {
  position = record {
    board = λ i. black;
    board_size = 15;
    board_size_sqr = 225;
    move_count = 0;
    history_moves = λ i. 0;
    player_to_move = black;
    win_connection_len = 0;
    win_connection_pos = λ i. 0;
  };
  ply = 0;
  state = state_none;
  played = 0;
  ei = 0;
  time_left = λ i. pos 1000;
  can_use_turn = λ i. false;
  draw_ply_count = pos 0;
  resign_counts = λ i. pos 0;
  samples = [];
  forbidden_type = forbidden_none;
  sent = [];
}

abbrev answer : Reply
answer = record {
  ok = true;
  is_crashed = false;
  time_left = pos 998;
  best = codes "7,7";
  score = pos 0;
}

-- The engine after its answer.
abbrev answered : Engine
unfolding deadline_set deadline_clear
answered = record (engine_with dies) {
  w = deadline_clear (
      deadline_set (codes "e") (pos 3600) (codes "move") (some Callback.terminate_engine)
        (engine_with dies).w);
  clock = pos 102;
}

answer_comes :
    engine_reply true game_times (pos 1000) 0 (engine_with answering) ≡ some (answer, answered)
unfolding engine_reply bestmove search_loop search_line ask_to_stop limits_of first_turn
    deadline_set deadline_clear readln feed_length process_common_output first_prefix string_prefix
    is_valid_move_gomostr find_comma is_number strtol skip_spaces read_digits answered
answer_comes = refl

engine_reply-score_example :
    (answer.score ≡ pos 0)
    × (is_hopeless game_options answer.score ≡ false)
    × (is_even game_options answer.score ≡ non_zero game_options.draw_count)
engine_reply-score_example =
    engine_reply-score true game_times (pos 1000) 0 (engine_with answering) answered answer
      game_options answer_comes (omega arith) (omega arith)
