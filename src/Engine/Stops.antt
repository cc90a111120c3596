-- ===== src/Engine/Stops.antt =====
-- The second loop of bestmove, after YXSTOP.
use c_gomoku_cli.Prelude.{
  ℕ, zero, suc, ◌<◌, ◌≡◌, inl, inr, refl, ap, ◌∙◌, Bool, true, false, Bool-cases, arith, ℤ,
}
use c_gomoku_cli.Text.{Text, is_valid_move_gomostr}
use c_gomoku_cli.Engine.{Feed, writes, dies, watched, Reading, feed_length}
use c_gomoku_cli.Engine.Turns.{Turn, Stop, stop_done, stop_exit, after_readln, stop_line, stop_loop}
use c_gomoku_cli.Engine.Feeds.{
  has_move, is_end, dies_itself, IsLine, IsRunning, IsGone, readln-writes, readln-end,
  writes-IsRunning,
}

-- The turn has the engine's move, a line of the feed.
pub record IsMoved (f : Feed) (t : Turn) : Type 0 where
  pub moved : t.result ≡ true
  pub valid : is_valid_move_gomostr t.line ≡ true
  pub is_line : IsLine t.line f
  pub there : has_move f ≡ true

-- The turn has no move, and the engine's feed had none.
pub record IsOver (f : Feed) (t : Turn) : Type 0 where
  pub unmoved : t.result ≡ false
  pub gone : IsGone (dies_itself f) t.engine
  pub lacks : has_move f ≡ false

-- How the second loop ends.
pub data StopEnds (f : Feed) (t : Turn) : Stop → Type 0 where
  stop_moved :
      (u : Turn)
      → IsMoved f u
      → u.best ≡ t.best
      → u.time_left ≡ t.time_left
      → u.engine.sent ≡ t.engine.sent
      → StopEnds f t (stop_done u)
  stop_over : (u : Turn) → IsOver f u → StopEnds f t (stop_exit u)

pub IsMoved-writes :
    (text : Text) (now : ℤ) (more : Feed) (t : Turn)
    → IsMoved more t
    → IsMoved (writes text now more) t
unfolding has_move IsLine
IsMoved-writes text now more t m = record {
  moved = m.moved;
  valid = m.valid;
  is_line = inr m.is_line;
  there = ground (arith, m.there);
}

pub IsOver-writes :
    (text : Text) (now : ℤ) (more : Feed) (t : Turn)
    → is_valid_move_gomostr text ≡ false
    → IsOver more t
    → IsOver (writes text now more) t
unfolding has_move dies_itself
IsOver-writes text now more t h o = record {
  unmoved = o.unmoved;
  gone = unfold dies_itself in o.gone;
  lacks = rw (h, has_move) o.lacks;
}

StopEnds-writes :
    (text : Text) (now : ℤ) (more : Feed) (t u : Turn) (s : Stop)
    → is_valid_move_gomostr text ≡ false
    → u.best ≡ t.best
    → u.time_left ≡ t.time_left
    → u.engine.sent ≡ t.engine.sent
    → StopEnds more u s
    → StopEnds (writes text now more) t s
StopEnds-writes text now more t u _ h eb et es (stop_moved v m vb vt vs) =
    stop_moved v (IsMoved-writes text now more v m) (vb ∙ eb) (vt ∙ et) (vs ∙ es)
StopEnds-writes text now more t u _ h eb et es (stop_over v o) =
    stop_over v (IsOver-writes text now more v h o)

-- The turn with a line of the feed.
abbrev pub with_line : Text → ℤ → Feed → Turn → Turn
with_line text now more t = record t {
  line = text;
  engine = record t.engine { feed = more; clock = now };
}

-- A round of the second loop, after its readln.
abbrev stop_round : ℕ → Turn → Reading → Stop
stop_round fuel t r = elim r.ok [
  | false ↦ stop_exit (after_readln r t)
  | true ↦
      let judged = stop_line (after_readln r t) in
      elim judged.result [ true ↦ stop_done judged | false ↦ stop_loop fuel judged ]
]

abbrev stop_if : ℕ → Turn → Bool → Stop
stop_if fuel u b = elim b [ true ↦ stop_done u | false ↦ stop_loop fuel u ]

stop_loop-writes :
    (fuel : ℕ) (text : Text) (now : ℤ) (more : Feed) (t : Turn)
    → t.engine.has_pipes ≡ true
    → t.engine.feed ≡ writes text now more
    → (b : Bool) → is_valid_move_gomostr text ≡ b
    → let u = stop_line (with_line text now more t) in stop_loop (suc fuel) t ≡ stop_if fuel u b
unfolding stop_loop stop_line
stop_loop-writes fuel text now more t p e true v =
    ap (stop_round fuel t) (readln-writes t.line text now more t.engine p e)
    ∙ ap (stop_if fuel (stop_line (with_line text now more t))) v
stop_loop-writes fuel text now more t p e false v =
    ap (stop_round fuel t) (readln-writes t.line text now more t.engine p e)
    ∙ ap (stop_if fuel (stop_line (with_line text now more t))) v

stop_loop-end :
    (fuel : ℕ) (f : Feed) (t : Turn)
    → IsRunning t.engine
    → t.engine.feed ≡ f
    → is_end f ≡ true
    → t.result ≡ false
    → has_move f ≡ false
    → StopEnds f t (stop_loop (suc fuel) t)
unfolding stop_loop
stop_loop-end fuel f t r e h u l =
    let (fails, gone) = readln-end t.line f t.engine r e h in
    rw (fails, stop_loop) (stop_over _ (record { unmoved = u; gone = gone; lacks = l }))

pub stop_loop-ends :
    (fuel : ℕ) (f : Feed) (t : Turn)
    → IsRunning t.engine
    → t.engine.feed ≡ f
    → t.result ≡ false
    → feed_length f < fuel
    → StopEnds f t (stop_loop fuel t)
unfolding feed_length has_move stop_line IsLine
stop_loop-ends zero f t r e u h = absurd (omega arith)
stop_loop-ends (suc fuel) dies t r e u h = stop_loop-end fuel dies t r e refl u refl
stop_loop-ends (suc fuel) watched t r e u h = stop_loop-end fuel watched t r e refl u refl
stop_loop-ends (suc fuel) (writes text now more) t r e u h =
    let next = stop_line (with_line text now more t) in
    elim (Bool-cases (is_valid_move_gomostr text)) [
      | inl valid ↦ rw (stop_loop-writes fuel text now more t r.pipes e true valid) (
          stop_moved next
            (record { moved = valid; valid = valid; is_line = inl refl; there = rw valid refl })
            refl refl refl)
      | inr invalid ↦ rw (stop_loop-writes fuel text now more t r.pipes e false invalid) (
          StopEnds-writes text now more t next _ invalid refl refl refl (
            stop_loop-ends fuel more next (writes-IsRunning t.engine more now r) refl invalid
              (omega arith)))
    ]
