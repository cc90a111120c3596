-- ===== src/Engine/Bestmove.antt =====
-- What bestmove brings back.
use c_gomoku_cli.Prelude.{
  ℕ, ◌≡◌, true, false, [], ◌∷◌, ◌++◌, Option, some, ℤ, pos, negsuc, ◌+◌, ◌-◌, ◌*◌, ◌^◌, ◌≤◌, ◌≤ℤ◌,
  ◌<ℤ◌, ◌+ℤ◌, ◌-ℤ◌, codes,
}
use c_gomoku_cli.Text.{Text}
use c_gomoku_cli.Engine.{Engine, writeln}
use c_gomoku_cli.Engine.Turns.{Turn, int64_min}
use c_gomoku_cli.Engine.Feeds.{InTime, Late}
use c_gomoku_cli.Engine.Stops.{IsMoved, IsOver}

-- How a turn of the engine `e` ends, with `best` as it was before: with a move in time, with a move
-- after YXSTOP, which is not taken, or without a move.
pub data TurnEnds (e : Engine) (limit overhead left : ℤ) (best : Text) (t : Turn) : Type 0 where
  in_time :
      IsMoved e.feed t
      → t.best ≡ t.line
      → pos 0 ≤ℤ t.time_left
      → t.engine.sent ≡ e.sent
      → InTime limit overhead left e.feed t.line
      → TurnEnds e limit overhead left best t
  at_stop :
      IsMoved e.feed t
      → t.best ≡ best
      → t.time_left ≡ negsuc (2 ^ 63 - 1)
      → t.engine.sent ≡ e.sent ++ codes "YXSTOP" ∷ []
      → Late limit overhead left e.feed
      → TurnEnds e limit overhead left best t
  no_move : IsOver e.feed t → TurnEnds e limit overhead left best t

-- The turn ends, and its deadline is cleared.
abbrev pub Ended : Engine → ℤ → ℤ → ℤ → Text → Option Turn → Type 0
Ended e limit overhead left best o =
    (t : Turn) × (o ≡ some t)
    × TurnEnds e limit overhead left best t
    × (t.engine.w.deadline.is_set ≡ false)

-- The time of a turn: what is left of the game, or the maximum for a turn if one is set and less.
pub record IsAllowance (time_left max_turn_time left : ℤ) : Type 0 where
  pub unlimited : max_turn_time ≤ℤ pos 0 → left ≡ time_left
  pub bounded : pos 0 <ℤ max_turn_time → max_turn_time ≤ℤ time_left → left ≡ max_turn_time
  pub short : pos 0 <ℤ max_turn_time → time_left <ℤ max_turn_time → left ≡ time_left

-- Half of a number, rounded towards 0.
abbrev pub IsHalf : ℤ → ℤ → Type 0
IsHalf (pos n) h = (k : ℕ) × (h ≡ pos k) × (2 * k ≤ n) × (n ≤ 2 * k + 1)
IsHalf (negsuc n) h = (k : ℕ) × (h ≡ pos 0 -ℤ pos k) × (2 * k ≤ n + 1) × (n ≤ 2 * k)

-- The turn ends as its time says: `left` from the start, and an overhead of half the tolerance.
abbrev pub Finishes : Engine → ℤ → ℤ → Text → Option Turn → Type 0
Finishes e time_left max_turn_time best o =
    (left : ℤ) × (overhead : ℤ) × IsAllowance time_left max_turn_time left
    × IsHalf e.tolerance overhead
    × Ended e (e.clock +ℤ left) overhead left best o

-- The state before the second loop, after YXSTOP.
abbrev told : Turn → Turn
unfolding writeln
told t = record t { engine = writeln (codes "YXSTOP") true t.engine; time_left = int64_min }
