-- ===== src/Engine/Turns.antt =====
-- A turn of an engine (src/engine.cpp: bestmove). The numbers of type int64_t are integers without
-- bounds.
use c_gomoku_cli.Prelude.{
  ℕ, zero, suc, ◌-◌, ◌/◌, ◌^◌, if◌then◌else◌, Bool, true, false, ◌&&◌, not, [], ◌∷◌, ◌++◌, Option,
  none, some, ℤ, pos, negsuc, ◌+ℤ◌, ◌-ℤ◌, leb_ℤ, ltb_ℤ, codes,
}
use c_gomoku_cli.Text.{Text, is_valid_move_gomostr, show_int}
use c_gomoku_cli.Worker.{deadline_set, deadline_clear}
use c_gomoku_cli.Engine.{
  terminate_engine, Engine, Info, Reading, readln, writeln, feed_length, OutputType, ot_message,
  process_common_output, parse_thinking_message, clear_deadline,
}

abbrev pub min_ℤ : ℤ → ℤ → ℤ
min_ℤ a b = if ltb_ℤ b a then b else a

abbrev pub max_ℤ : ℤ → ℤ → ℤ
max_ℤ a b = if ltb_ℤ a b then b else a

-- tolerance / 2, rounded towards 0.
abbrev pub half_ℤ : ℤ → ℤ
half_ℤ (pos n) = pos (n / 2)
half_ℤ (negsuc n) = pos 0 -ℤ pos (suc n / 2)

-- INT64_MIN.
abbrev pub int64_min : ℤ
int64_min = negsuc (2 ^ 63 - 1)

-- The limits that Engine::bestmove sets itself.
pub record Limits : Type 0 where
  pub start : ℤ
  pub match_time_limit : ℤ
  pub turn_time_limit : ℤ
  pub move_overhead : ℤ
  pub moveply : ℕ

-- The locals and the reference arguments of Engine::bestmove.
pub record Turn : Type 0 where
  pub engine : Engine
  pub line : Text
  pub time_left : ℤ
  pub turn_time_left : ℤ
  pub best : Text
  pub info : Info
  pub result : Bool

-- *messages += format("%i) %s: %s\n", moveply, name, tail).
abbrev pub add_message : ℕ → Text → Option Text → Text → Option Text
unfolding show_int
add_message moveply tail none name = none
add_message moveply tail (some m) name =
    some
      (m ++ (show_int (pos moveply) ++ (codes ") " ++ (name ++ (codes ": " ++ (tail ++ 10 ∷ []))))))

abbrev pub is_message : OutputType → Bool
is_message ot_message = true
is_message type = false

-- The times after a line of the first loop.
abbrev pub take_time : Limits → Turn → Turn
take_time l t =
    let now = t.engine.clock in
    record t {
      info = record t.info { time = now -ℤ l.start };
      time_left = max_ℤ (l.match_time_limit -ℤ now) (pos 0);
      turn_time_left = l.turn_time_limit -ℤ now;
    }

-- The first loop on a line.
unfoldable pub search_line : Limits → Turn → Turn
unfolding process_common_output is_valid_move_gomostr show_int
search_line l t =
    let timed = take_time l t in
    let out = process_common_output t.line in
    if is_message out.0
    then record timed {
      engine = record t.engine {
        messages = add_message l.moveply out.1 t.engine.messages t.engine.name;
      };
      info = parse_thinking_message out.1 timed.info;
    }
    else if is_valid_move_gomostr t.line
    then record timed { best = t.line; result = true }
    else timed

-- How a loop of bestmove ends: by its condition, or at goto Exit.
pub data Stop : Type 0 where
  stop_fuel : Stop
  stop_done stop_exit : Turn → Stop

-- readln(line) in a turn.
abbrev pub after_readln : Reading → Turn → Turn
after_readln r t = record t { engine = r.engine; line = r.line }

-- turnTimeLeft + moveOverhead >= 0 && !result.
abbrev pub searching : Limits → Turn → Bool
searching l t = leb_ℤ (pos 0) (t.turn_time_left +ℤ l.move_overhead) && not t.result

-- The first loop of Engine::bestmove.
unfoldable pub search_loop : ℕ → Limits → Turn → Stop
unfolding readln search_line
search_loop zero l t = stop_fuel
search_loop (suc fuel) l t = elim (searching l t) [
  | false ↦ stop_done t
  | true ↦
      let r = readln t.line t.engine in
      elim r.ok [
        | false ↦ stop_exit (after_readln r t)
        | true ↦ search_loop fuel l (search_line l (after_readln r t))
      ]
]

-- The second loop on a line.
unfoldable pub stop_line : Turn → Turn
unfolding process_common_output is_valid_move_gomostr
stop_line t =
    let out = process_common_output t.line in
    record t {
      info = if is_message out.0 then parse_thinking_message out.1 t.info else t.info;
      result = is_valid_move_gomostr t.line;
    }

-- The second loop, after YXSTOP.
unfoldable pub stop_loop : ℕ → Turn → Stop
unfolding readln stop_line
stop_loop zero t = stop_fuel
stop_loop (suc fuel) t =
    let r = readln t.line t.engine in
    elim r.ok [
      | false ↦ stop_exit (after_readln r t)
      | true ↦
          let judged = stop_line (after_readln r t) in
          elim judged.result [ true ↦ stop_done judged | false ↦ stop_loop fuel judged ]
    ]

-- The part of Engine::bestmove after the first loop.
unfoldable pub ask_to_stop : Bool → Turn → Stop
unfolding stop_loop writeln feed_length
ask_to_stop flushed t =
    let told = record t {
      engine = writeln (codes "YXSTOP") flushed t.engine;
      time_left = int64_min;
    } in
    elim t.result [
      | true ↦ stop_done t
      | false ↦ stop_loop (suc (feed_length told.engine.feed)) told
    ]

-- Exit: deadline_clear.
abbrev pub exit_turn : Stop → Option Turn
unfolding deadline_clear
exit_turn stop_fuel = none
exit_turn (stop_done t) = some (record t { engine = clear_deadline t.engine })
exit_turn (stop_exit t) = some (record t { engine = clear_deadline t.engine })

abbrev pub then_stop : Bool → Stop → Stop
unfolding ask_to_stop
then_stop flushed stop_fuel = stop_fuel
then_stop flushed (stop_done t) = ask_to_stop flushed t
then_stop flushed (stop_exit t) = stop_exit t

-- maxTurnTime, if it is set, bounds the time of the turn.
abbrev pub turn_time : ℤ → ℤ → ℤ
turn_time time_left max_turn_time =
    if ltb_ℤ (pos 0) max_turn_time then min_ℤ time_left max_turn_time else time_left

-- The limits, and the turn before the first loop.
unfoldable pub limits_of : Engine → ℤ → ℤ → ℕ → Limits
limits_of e time_left max_turn_time moveply = record {
  start = e.clock;
  match_time_limit = e.clock +ℤ time_left;
  turn_time_limit = e.clock +ℤ turn_time time_left max_turn_time;
  move_overhead = half_ℤ e.tolerance;
  moveply = moveply;
}

unfoldable pub first_turn : Engine → ℤ → ℤ → Text → Info → Turn
unfolding deadline_set
first_turn e time_left max_turn_time best info = record {
  engine = record e {
    w =
        deadline_set e.name ((e.clock +ℤ turn_time time_left max_turn_time) +ℤ e.tolerance)
          (codes "move") (some terminate_engine) e.w;
  };
  line = [];
  time_left = time_left;
  turn_time_left = turn_time time_left max_turn_time;
  best = best;
  info = info;
  result = false;
}

-- Engine::bestmove. `flushed` tells whether the process takes YXSTOP.
unfoldable pub bestmove : Bool → ℤ → ℤ → Text → Info → ℕ → Engine → Option Turn
unfolding search_loop ask_to_stop limits_of first_turn feed_length deadline_clear
bestmove flushed time_left max_turn_time best info moveply e = exit_turn (
    then_stop flushed (
      search_loop (suc (feed_length e.feed)) (limits_of e time_left max_turn_time moveply)
        (first_turn e time_left max_turn_time best info)))
