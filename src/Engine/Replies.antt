-- ===== src/Engine/Replies.antt =====
-- The reply of an engine in a game (src/game.cpp, Game::play around bestmove), and what becomes of
-- it.
use c_gomoku_cli.Prelude.{
  ℕ, ◌+◌, ◌≡◌, Bool, true, false, [], Option, some, ℤ, pos, negsuc, ◌-◌, ◌^◌, update, if◌then◌else◌,
  ◌>>=◌,
}
use c_gomoku_cli.Text.{is_valid_move_gomostr}
use c_gomoku_cli.Engine.{Feed, Engine, Info, is_crashed}
use c_gomoku_cli.Engine.Turns.{Turn, bestmove}
use c_gomoku_cli.Engine.Feeds.{has_move, dies_itself, InTime, Late}
use c_gomoku_cli.Game.{
  Options, EngineOptions, Reply, Play, crashed, time_loss, throws, exits, break_with, answer_rules,
  move_rules, is_limited,
}

-- Info moveInfo = {}.
abbrev pub no_info : Info
no_info = record { score = pos 0; depth = pos 0; time = pos 0 }

abbrev pub reply_of : Turn → Reply
reply_of t = record {
  ok = t.result;
  is_crashed = is_crashed t.engine;
  time_left = t.time_left;
  best = t.best;
  score = t.info.score;
}

-- The call of bestmove in the loop of Game::play: the reply and the engine.
unfoldable pub engine_reply : Bool → EngineOptions → ℤ → ℕ → Engine → Option (Reply × Engine)
unfolding bestmove
engine_reply flushed eo time_left move_count e = do
  t ← bestmove flushed time_left eo.timeout_turn [] no_info (move_count + 1) e
  some (reply_of t, t.engine)

-- What the rest of an iteration does with the reply of the engine `e` in the play `g`, with the
-- reply's time left written. The turn's time is `left`, up to `limit`, with an overhead.
pub data Judges (o : Options) (eo : EngineOptions) (sampled : Bool) (g : Play)
    (limit overhead left : ℤ) (f : Feed) (r : Reply) : Type 0 where
  plays :
      is_valid_move_gomostr r.best ≡ true
      → InTime limit overhead left f r.best
      → answer_rules o eo sampled r g
        ≡ move_rules o sampled r (record g { time_left = update g.time_left g.ei r.time_left })
      → Judges o eo sampled g limit overhead left f r
  is_late :
      has_move f ≡ true
      → Late limit overhead left f
      → answer_rules o eo sampled r g ≡ (
          if is_limited eo
          then break_with time_loss
              (record g { time_left = update g.time_left g.ei (negsuc (2 ^ 63 - 1)) })
          else throws)
      → Judges o eo sampled g limit overhead left f r
  is_silent :
      has_move f ≡ false
      → answer_rules o eo sampled r g ≡ (
          if o.fatal_error
          then exits
          else break_with
              (if dies_itself f then crashed else time_loss)
              (record g { time_left = update g.time_left g.ei r.time_left }))
      → Judges o eo sampled g limit overhead left f r
