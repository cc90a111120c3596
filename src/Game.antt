-- ===== src/Game.antt =====
-- A game between two engines (src/game.h, src/game.cpp: game_apply_rules, compute_time_left,
-- send_board_command, gomocup_turn_info_command and the loop of Game::play). What Engine::bestmove
-- brings back at a ply, and whether a sample is drawn there, are parameters. Printing is left out.
pub mod Moves
pub mod Step
pub mod Ends
pub mod Result
use c_gomoku_cli.Prelude.{
  ℕ, zero, suc, ◌+◌, ◌-◌, ◌^◌, ltb, leb, ◌==◌, if◌then◌else◌, Bool, true, false, ◌&&◌, ◌||◌, not,
  List, [], ◌∷◌, ◌++◌, map, Option, none, some, ℤ, pos, negsuc, ◌+ℤ◌, ◌-ℤ◌, leb_ℤ, ltb_ℤ, update,
  for_below,
}
use c_gomoku_cli.Coord.{
  Color, black, white, color_code, none_move, coord_x, coord_y, pos_from_move, color_from_move,
}
use c_gomoku_cli.Position.{Position, get_moves_left, is_legal_move, move, move_with_copy, color_eq}
use c_gomoku_cli.Five.{check_five_in_line_lastmove}
use c_gomoku_cli.Renju.{
  ForbiddenType, forbidden_none, double_three, double_four, overline, check_forbidden_move,
}
use c_gomoku_cli.Text.{Text, gomostr_to_move}

-- enum GameRule.
pub data GameRule : Type 0 where
  gomoku_five_or_more gomoku_exact_five renju : GameRule

-- The states of a game.
pub data State : Type 0 where
  state_none five_connect time_loss crashed illegal_move forbidden_move resign : State
  draw_insufficient_space draw_adjudication : State

-- state < STATE_SEPARATOR.
abbrev pub is_loss : State → Bool
is_loss draw_insufficient_space = false
is_loss draw_adjudication = false
is_loss s = true

-- state == STATE_NONE.
abbrev pub is_none : State → Bool
is_none state_none = true
is_none s = false

-- The members of struct Options that a game reads.
pub record Options : Type 0 where
  pub game_rule : GameRule
  pub force_draw_after : ℤ
  pub draw_count : ℤ
  pub draw_score : ℤ
  pub resign_count : ℤ
  pub resign_score : ℤ
  pub use_turn : Bool
  pub fatal_error : Bool

-- The time control of struct EngineOptions.
pub record EngineOptions : Type 0 where
  pub timeout_turn : ℤ
  pub timeout_match : ℤ
  pub increment : ℤ

-- What Engine::bestmove brings back: its result, whether the engine has crashed, the time left, the
-- move and the score.
pub record Reply : Type 0 where
  pub ok : Bool
  pub is_crashed : Bool
  pub time_left : ℤ
  pub best : Text
  pub score : ℤ

-- A line to an engine.
pub data Command : Type 0 where
  info_time_left : ℤ → Command
  begin board done : Command
  turn : ℤ → ℤ → Command
  stone : ℤ → ℤ → ℕ → Command

-- struct Sample, whose result is filled in at the end.
pub record Sample : Type 0 where
  pub position : Position
  pub best_move : ℕ
  pub result : ℕ
  pub eval : ℤ

-- The locals of Game::play and the members that it writes. `position` is pos[ply]; an engine's
-- variables are indexed by the engine.
pub record Play : Type 0 where
  pub position : Position
  pub ply : ℕ
  pub state : State
  pub played : ℕ
  pub ei : ℕ
  pub time_left : ℕ → ℤ
  pub can_use_turn : ℕ → Bool
  pub draw_ply_count : ℤ
  pub resign_counts : ℕ → ℤ
  pub samples : List Sample
  pub forbidden_type : ForbiddenType
  pub sent : List (ℕ × Command)

-- allow_long_connection.
abbrev pub allow_long : GameRule → ℕ → Bool
unfolding color_from_move
allow_long gomoku_exact_five lastmove = false
allow_long renju lastmove = not (color_from_move lastmove == color_code black)
allow_long gomoku_five_or_more lastmove = true

abbrev pub is_zero_ℤ : ℤ → Bool
is_zero_ℤ (pos n) = n == 0
is_zero_ℤ (negsuc n) = false

-- Game::game_apply_rules: the position after the search for five, and the state.
unfoldable pub game_apply_rules : GameRule → Position → ℕ → Position × State
unfolding check_five_in_line_lastmove color_from_move
game_apply_rules rule p lastmove =
    let found = check_five_in_line_lastmove p (allow_long rule lastmove) in
    (
      found.0,
      if found.1
          then five_connect
          else if is_zero_ℤ (get_moves_left found.0)
          then draw_insufficient_space
          else state_none,
    )

-- Game::compute_time_left.
unfoldable pub compute_time_left : EngineOptions → ℤ → ℤ
compute_time_left eo time_left =
    if ltb_ℤ (pos 0) eo.timeout_match
    then if ltb_ℤ (pos 0) eo.increment then time_left +ℤ eo.increment else time_left
    else pos (2 ^ 31 - 1)

-- The line of a move for send_board_command: the last color is 2, the other 1.
abbrev pub stone_command : Position → ℕ → Command
unfolding coord_x coord_y pos_from_move color_from_move
stone_command p i =
    let m = p.history_moves i in
    let last = p.history_moves (p.move_count - 1) in
    stone (coord_x (pos_from_move m)) (coord_y (pos_from_move m))
      (if color_from_move m == color_from_move last then 2 else 1)

-- Game::send_board_command.
unfoldable pub send_board_command : Position → List Command
unfolding coord_x coord_y pos_from_move color_from_move for_below
send_board_command p =
    board ∷ for_below p.move_count (λ i cs. cs ++ stone_command p i ∷ []) [] ++ done ∷ []

-- What triggers the engine to think.
unfoldable pub trigger : Options → Play → List Command
unfolding send_board_command coord_x coord_y pos_from_move
trigger o g =
    if g.position.move_count == 0
    then begin ∷ []
    else if o.use_turn && g.can_use_turn g.ei
    then turn (coord_x (pos_from_move g.played)) (coord_y (pos_from_move g.played)) ∷ []
    else send_board_command g.position

-- The part of an iteration between the rules and the engine's reply.
unfoldable pub ask : Options → EngineOptions → Play → Play
unfolding compute_time_left trigger
ask o eo g =
    let time = compute_time_left eo (g.time_left g.ei) in
    record g {
      time_left = update g.time_left g.ei time;
      can_use_turn = update g.can_use_turn g.ei true;
      sent = g.sent ++ map (λ c. (g.ei, c)) (info_time_left time ∷ trigger o g);
    }

-- How an iteration of the loop ends: by a break, by the next iteration, by an exception of stoi, by
-- the exit of DIE_OR_ERR, or without fuel for check_forbidden_move.
pub data Next : Type 0 where
  breaks : Play → Next
  goes : Play → Next
  throws : Next
  exits : Next
  out_of_fuel : Next

abbrev pub break_with : State → Play → Next
break_with s g = breaks (record g { state = s })

abbrev pub abs_ℤ : ℤ → ℤ
abs_ℤ (pos n) = pos n
abs_ℤ (negsuc n) = pos (suc n)

abbrev pub non_zero : ℤ → Bool
non_zero z = not (is_zero_ℤ z)

-- The evaluation, saturated to an int16_t.
abbrev pub clamp_i16 : ℤ → ℤ
clamp_i16 z =
    if ltb_ℤ z (negsuc (2 ^ 15 - 1))
    then negsuc (2 ^ 15 - 1)
    else if ltb_ℤ (pos (2 ^ 15 - 1)) z
    then pos (2 ^ 15 - 1)
    else z

abbrev pub sample_of : Play → ℤ → Sample
sample_of g score = record {
  position = g.position;
  best_move = g.played;
  result = 3;
  eval = clamp_i16 score;
}

-- A sample, if one is drawn, and the move. In the source move_with_copy stands at the head of the
-- next iteration.
unfoldable pub advance : Bool → ℤ → Play → Next
unfolding move_with_copy
advance sampled score g = goes (record g {
  samples = if sampled then g.samples ++ sample_of g score ∷ [] else g.samples;
  position = move_with_copy g.position g.position g.played;
  ply = g.ply + 1;
  ei = 1 - g.ei;
})

-- o.resignCount && moveInfo.score <= -o.resignScore.
unfoldable pub is_hopeless : Options → ℤ → Bool
is_hopeless o score = non_zero o.resign_count && leb_ℤ score (pos 0 -ℤ o.resign_score)

-- The resign rule.
unfoldable pub resign_rule : Options → Bool → ℤ → Play → Next
unfolding advance is_hopeless
resign_rule o sampled score g =
    let count = g.resign_counts g.ei +ℤ pos 1 in
    let counted = record g { resign_counts = update g.resign_counts g.ei count } in
    if is_hopeless o score
    then if leb_ℤ o.resign_count count
      then break_with resign counted
      else advance sampled score counted
    else advance sampled score (record g { resign_counts = update g.resign_counts g.ei (pos 0) })

-- o.drawCount && abs(moveInfo.score) <= o.drawScore.
unfoldable pub is_even : Options → ℤ → Bool
is_even o score = non_zero o.draw_count && leb_ℤ (abs_ℤ score) o.draw_score

-- The draw adjudication rule.
unfoldable pub draw_rule : Options → Bool → ℤ → Play → Next
unfolding resign_rule is_even
draw_rule o sampled score g =
    let count = g.draw_ply_count +ℤ pos 1 in
    let counted = record g { draw_ply_count = count } in
    if is_even o score
    then if leb_ℤ (o.draw_count +ℤ o.draw_count) count
      then break_with draw_adjudication counted
      else resign_rule o sampled score counted
    else resign_rule o sampled score (record g { draw_ply_count = pos 0 })

abbrev pub is_forbidden_type : ForbiddenType → Bool
is_forbidden_type forbidden_none = false
is_forbidden_type t = true

abbrev pub is_renju : GameRule → Bool
is_renju renju = true
is_renju gomoku_five_or_more = false
is_renju gomoku_exact_five = false

-- The fuel of check_forbidden_move, one more than the array has entries.
abbrev pub forbidden_fuel : ℕ
forbidden_fuel = 1025

-- The check for a forbidden move, whose result the member forbidden_type keeps.
unfoldable pub forbidden_rule : Options → Bool → ℤ → Play → Next
unfolding check_forbidden_move draw_rule
forbidden_rule o sampled score g =
    if is_renju o.game_rule
    then elim (check_forbidden_move forbidden_fuel g.position g.played) [
      | none ↦ out_of_fuel
      | some r ↦
          let checked = record g { position = r.0; forbidden_type = r.1 } in
          if is_forbidden_type r.1
          then break_with forbidden_move checked
          else draw_rule o sampled score checked
    ]
    else draw_rule o sampled score g

-- The checks of the move of a reply.
unfoldable pub move_rules : Options → Bool → Reply → Play → Next
unfolding gomostr_to_move is_legal_move forbidden_rule
move_rules o sampled reply g = elim (gomostr_to_move g.position reply.best) [
  | none ↦ throws
  | some m ↦
      let moved = record g { played = m } in
      if is_legal_move g.position m
      then forbidden_rule o sampled reply.score moved
      else break_with illegal_move moved
]

-- A time limit is set.
unfoldable pub is_limited : EngineOptions → Bool
is_limited eo = non_zero eo.timeout_turn || non_zero eo.timeout_match || non_zero eo.increment

-- The tests that a reply came, and in time. Without a reply DIE_OR_ERR exits the program if errors
-- are fatal.
unfoldable pub answer_rules : Options → EngineOptions → Bool → Reply → Play → Next
unfolding move_rules is_limited
answer_rules o eo sampled reply g =
    let replied = record g { time_left = update g.time_left g.ei reply.time_left } in
    if not reply.ok
    then if o.fatal_error
      then exits
      else break_with (if reply.is_crashed then crashed else time_loss) replied
    else if is_limited eo && ltb_ℤ reply.time_left (pos 0)
    then break_with time_loss replied
    else move_rules o sampled reply replied

-- o.forceDrawAfter && moveCount >= o.forceDrawAfter.
unfoldable pub is_too_long : Options → Position → Bool
is_too_long o p = non_zero o.force_draw_after && leb_ℤ o.force_draw_after (pos p.move_count)

-- One iteration of the loop, from the rules on.
unfoldable pub iteration : Options → (ℕ → EngineOptions) → Bool → Reply → Play → Next
unfolding game_apply_rules ask answer_rules is_too_long
iteration o eo sampled reply g =
    let ruled = game_apply_rules o.game_rule g.position g.played in
    let judged = record g { position = ruled.0; state = ruled.1 } in
    if not (is_none ruled.1)
    then breaks judged
    else if is_too_long o ruled.0
    then break_with draw_adjudication judged
    else answer_rules o (eo g.ei) sampled reply (ask o (eo g.ei) judged)

-- The loop, with a reply for each ply.
unfoldable pub play_loop :
    ℕ → Options → (ℕ → EngineOptions) → (ℕ → Bool) → (ℕ → Reply) → Play → Next
unfolding iteration
play_loop zero o eo sampled replies g = out_of_fuel
play_loop (suc fuel) o eo sampled replies g =
    elim (iteration o eo (sampled g.ply) (replies g.ply) g) [
      | breaks ended ↦ breaks ended
      | goes next ↦ play_loop fuel o eo sampled replies next
      | throws ↦ throws
      | exits ↦ exits
      | out_of_fuel ↦ out_of_fuel
    ]

-- RESULT_LOSS, RESULT_DRAW and RESULT_WIN are 0, 1 and 2. The result of play.
abbrev pub play_result : Play → ℕ
play_result g = if is_loss g.state then (if g.ei == 0 then 0 else 2) else 1

-- wpov.
abbrev pub white_result : Play → ℕ
white_result g =
    if is_loss g.state then (if color_eq g.position.player_to_move white then 0 else 2) else 1

abbrev pub is_discarded : State → Bool
is_discarded time_loss = true
is_discarded crashed = true
is_discarded illegal_move = true
is_discarded s = false

-- The samples with their results, after the loop.
abbrev pub fill_sample : ℕ → Sample → Sample
fill_sample wpov s = record s {
  result = if color_eq s.position.player_to_move white then wpov else 2 - wpov;
}

unfoldable pub fill_samples : Play → List Sample
fill_samples g = if is_discarded g.state then [] else map (fill_sample (white_result g)) g.samples

-- The reasons that decode_state writes, and the result that it picks: an index of restxt, or "*".
pub data Reason : Type 0 where
  unterminated fulfilled_board adjudicated_draw : Reason
  five_connection opponent_illegal adjudication time_forfeit opponent_crash : Color → Reason
  black_forbidden : ForbiddenType → Reason

-- The winner's color, for the states that are lost by the side to move.
abbrev pub winner : Play → Color
winner g = if color_eq g.position.player_to_move black then white else black

abbrev pub black_result : Play → Option ℕ
black_result g = some (if color_eq g.position.player_to_move black then 0 else 2)

-- Game::decode_state.
unfoldable pub decode_state : Play → State → Option ℕ × Reason
decode_state g state_none = (none, unterminated)
decode_state g five_connect = (black_result g, five_connection (winner g))
decode_state g draw_insufficient_space = (some 1, fulfilled_board)
decode_state g illegal_move = (black_result g, opponent_illegal (winner g))
decode_state g forbidden_move = (some 0, black_forbidden g.forbidden_type)
decode_state g draw_adjudication = (some 1, adjudicated_draw)
decode_state g resign = (black_result g, adjudication (winner g))
decode_state g time_loss = (black_result g, time_forfeit (winner g))
decode_state g crashed = (black_result g, opponent_crash (winner g))
