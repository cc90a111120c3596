-- ===== src/Engine/Scores.antt =====
-- The score that bestmove brings back.
use c_gomoku_cli.Prelude.{
  ℕ, zero, suc, ◌≡◌, refl, sym, ap, ◌∙◌, Bool, false, Bool-cases, inl, inr, [], some, ℤ, pos, ◌≤ℤ◌,
  arith, codes, some-inv, bind-some, none-ne-some, ◌+◌,
}
use c_gomoku_cli.Text.{is_valid_move_gomostr}
use c_gomoku_cli.Worker.{deadline_clear}
use c_gomoku_cli.Engine.{Engine, readln, writeln, feed_length, process_common_output}
use c_gomoku_cli.Engine.Turns.{
  Limits, Turn, is_message, search_line, Stop, stop_fuel, stop_done, stop_exit, after_readln,
  searching, search_loop, stop_line, stop_loop, ask_to_stop, then_stop, exit_turn, limits_of,
  first_turn, bestmove, int64_min,
}
use c_gomoku_cli.Engine.Replies.{engine_reply, no_info}
use c_gomoku_cli.Game.{Options, EngineOptions, Reply, is_hopeless, is_even, non_zero}

abbrev NoScore : Stop → Type 0
NoScore stop_fuel = Unit
NoScore (stop_done t) = t.info.score ≡ pos 0
NoScore (stop_exit t) = t.info.score ≡ pos 0

search_line-score :
    (l : Limits) (t : Turn) → t.info.score ≡ pos 0 → (search_line l t).info.score ≡ pos 0
unfolding search_line
search_line-score l t h = elim (Bool-cases (is_message (process_common_output t.line).0)) [
  | inl message ↦ rw (message, search_line) refl
  | inr other ↦ elim (Bool-cases (is_valid_move_gomostr t.line)) [
    | inl valid ↦ rw (other, search_line, valid) h
    | inr invalid ↦ rw (other, search_line, invalid) h
  ]
]

stop_line-score : (t : Turn) → t.info.score ≡ pos 0 → (stop_line t).info.score ≡ pos 0
unfolding stop_line
stop_line-score t h = elim (Bool-cases (is_message (process_common_output t.line).0)) [
  | inl message ↦ rw (message, stop_line) refl
  | inr other ↦ rw (other, stop_line) h
]

search_loop-NoScore :
    (fuel : ℕ) (l : Limits) (t : Turn) → t.info.score ≡ pos 0 → NoScore (search_loop fuel l t)
unfolding search_loop
search_loop-NoScore zero l t h = tt
search_loop-NoScore (suc fuel) l t h = elim (Bool-cases (searching l t)) [
  | inr late ↦ rw (late, search_loop) h
  | inl on ↦
      rw (on, search_loop)
        (elim (Bool-cases (readln t.line t.engine).ok) [
          | inr fails ↦ rw (fails, search_loop) h
          | inl reads ↦
              rw (reads, search_loop)
                (search_loop-NoScore fuel l _
                  (search_line-score l (after_readln (readln t.line t.engine) t) h))
        ])
]

stop_loop-NoScore : (fuel : ℕ) (t : Turn) → t.info.score ≡ pos 0 → NoScore (stop_loop fuel t)
unfolding stop_loop
stop_loop-NoScore zero t h = tt
stop_loop-NoScore (suc fuel) t h = elim (Bool-cases (readln t.line t.engine).ok) [
  | inr fails ↦ rw (fails, stop_loop) h
  | inl reads ↦
      let given = after_readln (readln t.line t.engine) t in
      let scored = stop_line-score given h in
      rw (reads, stop_loop)
        (elim (Bool-cases (stop_line given).result) [
          | inl done ↦ rw (done, stop_loop) scored
          | inr more ↦ rw (more, stop_loop) (stop_loop-NoScore fuel (stop_line given) scored)
        ])
]

then_stop-NoScore : (flushed : Bool) (s : Stop) → NoScore s → NoScore (then_stop flushed s)
unfolding ask_to_stop
then_stop-NoScore flushed stop_fuel h = tt
then_stop-NoScore flushed (stop_exit t) h = h
then_stop-NoScore flushed (stop_done t) h = elim (Bool-cases t.result) [
  | inl found ↦ rw (found, ask_to_stop) h
  | inr late ↦
      rw (late, ask_to_stop)
        (let told = record t {
          engine = writeln (codes "YXSTOP") flushed t.engine;
          time_left = int64_min;
        } in
          stop_loop-NoScore (suc (feed_length told.engine.feed)) told h)
]

exit_turn-score : (s : Stop) (t : Turn) → NoScore s → exit_turn s ≡ some t → t.info.score ≡ pos 0
unfolding deadline_clear
exit_turn-score stop_fuel t h e = absurd (none-ne-some e)
exit_turn-score (stop_done u) t h e = ap (λ v. v.info.score) (sym (some-inv e)) ∙ h
exit_turn-score (stop_exit u) t h e = ap (λ v. v.info.score) (sym (some-inv e)) ∙ h

-- Every reply has the score 0, whatever the engine writes. So with a positive resign score the
-- resign rule never counts a move, and with a draw score that is not negative the draw rule counts
-- every move if it is on.
pub engine_reply-score :
    (flushed : Bool) (eo : EngineOptions) (time_left : ℤ) (move_count : ℕ) (e after : Engine)
    (r : Reply) (o : Options)
    → engine_reply flushed eo time_left move_count e ≡ some (r, after)
    → pos 1 ≤ℤ o.resign_score
    → pos 0 ≤ℤ o.draw_score
    → (r.score ≡ pos 0)
      × (is_hopeless o r.score ≡ false)
      × (is_even o r.score ≡ non_zero o.draw_count)
unfolding engine_reply bestmove is_hopeless is_even
engine_reply-score flushed eo time_left move_count e after r o h hr hd =
    let call = bestmove flushed time_left eo.timeout_turn [] no_info (move_count + 1) e in
    let (t, et, er) = bind-some call _ (r, after) h in
    let start = first_turn e time_left eo.timeout_turn [] no_info in
    let no_score = then_stop-NoScore flushed _ (
      search_loop-NoScore (suc (feed_length e.feed))
        (limits_of e time_left eo.timeout_turn (move_count + 1)) start
        (unfold first_turn in refl)) in
    let zero_t : t.info.score ≡ pos 0 = exit_turn-score _ t no_score et in
    let zero_r : r.score ≡ pos 0 = ap (λ p. p.0.score) (sym (some-inv er)) ∙ zero_t in
    (zero_r, rw zero_r (ground arith), rw zero_r (ground arith))
