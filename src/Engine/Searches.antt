-- ===== src/Engine/Searches.antt =====
-- The first loop of bestmove.
use c_gomoku_cli.Prelude.{
  ℕ, zero, suc, ◌<◌, ◌≡◌, inl, inr, refl, sym, ap, subst, ◌∙◌, Bool, true, false, Bool-cases, arith,
  ℤ, pos, ◌≤ℤ◌, ◌-ℤ◌, ◌+ℤ◌, ◌<ℤ◌,
}
use c_gomoku_cli.Text.{Text, is_valid_move_gomostr}
use c_gomoku_cli.Engine.{
  Feed, writes, dies, watched, Reading, readln, feed_length, process_common_output,
}
use c_gomoku_cli.Engine.Turns.{
  Limits, Turn, is_message, search_line, max_ℤ, Stop, stop_done, stop_exit, after_readln, searching,
  search_loop,
}
use c_gomoku_cli.Engine.Feeds.{
  has_move, is_end, dies_itself, IsLine, IsRunning, readln-writes, readln-end, writes-IsRunning,
  message_no_move, InTime, Late,
}
use c_gomoku_cli.Engine.Stops.{IsMoved, IsOver, IsMoved-writes, IsOver-writes, with_line}

-- How the first loop ends.
pub data SearchEnds (l : Limits) (f : Feed) (t : Turn) : Stop → Type 0 where
  search_moved :
      (u : Turn)
      → IsMoved f u
      → u.best ≡ u.line
      → pos 0 ≤ℤ u.time_left
      → u.engine.sent ≡ t.engine.sent
      → InTime l.turn_time_limit l.move_overhead t.turn_time_left f u.line
      → SearchEnds l f t (stop_done u)
  search_late :
      (u : Turn)
      → u.result ≡ false
      → IsRunning u.engine
      → has_move f ≡ has_move u.engine.feed
      → dies_itself f ≡ dies_itself u.engine.feed
      → ((x : Text) → IsLine x u.engine.feed → IsLine x f)
      → u.best ≡ t.best
      → u.engine.sent ≡ t.engine.sent
      → Late l.turn_time_limit l.move_overhead t.turn_time_left f
      → SearchEnds l f t (stop_done u)
  search_over : (u : Turn) → IsOver f u → SearchEnds l f t (stop_exit u)

searching-open :
    (l : Limits) (t : Turn) → searching l t ≡ true → pos 0 ≤ℤ (t.turn_time_left +ℤ l.move_overhead)
searching-open l t h = ground (arith, h)

searching-closed :
    (l : Limits) (t : Turn)
    → t.result ≡ false
    → searching l t ≡ false
    → (t.turn_time_left +ℤ l.move_overhead) <ℤ pos 0
searching-closed l t u h = ground (arith, h)

SearchEnds-writes :
    (l : Limits) (text : Text) (now : ℤ) (more : Feed) (t u : Turn) (s : Stop)
    → is_valid_move_gomostr text ≡ false
    → u.best ≡ t.best
    → u.engine.sent ≡ t.engine.sent
    → u.turn_time_left ≡ l.turn_time_limit -ℤ now
    → searching l t ≡ true
    → SearchEnds l more u s
    → SearchEnds l (writes text now more) t s
unfolding has_move dies_itself IsLine InTime Late
SearchEnds-writes l text now more t u _ h eb es et on (search_moved v m vb vt vs vi) =
    search_moved v (IsMoved-writes text now more v m) vb vt (vs ∙ es) (
      searching-open l t on,
      inr (h, subst (λ a. InTime l.turn_time_limit l.move_overhead a more v.line) et vi),
    )
SearchEnds-writes l text now more t u _ h eb es et on (search_late v vr r hm d il vb vs vl) =
    search_late v vr r (rw h hm) d (λ x line. inr (il x line)) (vb ∙ eb) (vs ∙ es)
      (inr (h, subst (λ a. Late l.turn_time_limit l.move_overhead a more) et vl))
SearchEnds-writes l text now more t u _ h eb es et on (search_over v o) =
    search_over v (IsOver-writes text now more v h o)

-- A round of the first loop.
abbrev search_round : ℕ → Limits → Turn → Reading → Stop
search_round fuel l t r = elim r.ok [
  | false ↦ stop_exit (after_readln r t)
  | true ↦ search_loop fuel l (search_line l (after_readln r t))
]

abbrev search_if : ℕ → Limits → Turn → Bool → Stop
search_if fuel l t b = elim b [
  | false ↦ stop_done t
  | true ↦ search_round fuel l t (readln t.line t.engine)
]

search_loop-writes :
    (fuel : ℕ) (l : Limits) (text : Text) (now : ℤ) (more : Feed) (t : Turn)
    → t.engine.has_pipes ≡ true
    → t.engine.feed ≡ writes text now more
    → searching l t ≡ true
    → search_loop (suc fuel) l t ≡ search_loop fuel l (search_line l (with_line text now more t))
unfolding search_loop
search_loop-writes fuel l text now more t p e s =
    ap (search_if fuel l t) s
    ∙ ap (search_round fuel l t) (readln-writes t.line text now more t.engine p e)

search_loop-stops :
    (fuel : ℕ) (l : Limits) (t : Turn)
    → 0 < fuel
    → searching l t ≡ false
    → search_loop fuel l t ≡ stop_done t
unfolding search_loop
search_loop-stops zero l t h s = absurd (omega arith)
search_loop-stops (suc fuel) l t h s = ap (search_if fuel l t) s

search_loop-end :
    (fuel : ℕ) (l : Limits) (f : Feed) (t : Turn)
    → IsRunning t.engine
    → t.engine.feed ≡ f
    → is_end f ≡ true
    → t.result ≡ false
    → has_move f ≡ false
    → searching l t ≡ true
    → SearchEnds l f t (search_loop (suc fuel) l t)
unfolding search_loop
search_loop-end fuel l f t r e h u lacks s =
    let (fails, gone) = readln-end t.line f t.engine r e h in
    subst (SearchEnds l f t)
      (sym (ap (search_if fuel l t) s ∙ round_fails (readln t.line t.engine) fails))
      (search_over _ (record { unmoved = u; gone = gone; lacks = lacks }))
  where
    round_fails :
        (q : Reading) → q.ok ≡ false → search_round fuel l t q ≡ stop_exit (after_readln q t)
    round_fails q o =
        ap
          (λ b. elim b as (λ c. Stop) [
            | false ↦ stop_exit (after_readln q t)
            | true ↦ search_loop fuel l (search_line l (after_readln q t))
          ])
          o

never_negative : (a : ℤ) → pos 0 ≤ℤ max_ℤ a (pos 0)
never_negative a = ground arith

-- What the first loop makes of a line.
data LineEnds (l : Limits) (t : Turn) : Type 0 where
  line_moved :
      is_valid_move_gomostr t.line ≡ true
      → (search_line l t).result ≡ true
      → (search_line l t).best ≡ t.line
      → pos 0 ≤ℤ (search_line l t).time_left
      → LineEnds l t
  line_other :
      is_valid_move_gomostr t.line ≡ false
      → (search_line l t).result ≡ t.result
      → (search_line l t).best ≡ t.best
      → LineEnds l t

search_line-ends : (l : Limits) (t : Turn) → LineEnds l t
unfolding search_line
search_line-ends l t = elim (Bool-cases (is_message (process_common_output t.line).0)) [
  | inl message ↦
      line_other (message_no_move t.line message) (rw (message, search_line) refl)
        (rw (message, search_line) refl)
  | inr other ↦ elim (Bool-cases (is_valid_move_gomostr t.line)) [
    | inl valid ↦
        line_moved valid (rw (other, search_line, valid) refl) (rw (other, search_line, valid) refl)
          (rw (other, search_line, valid) (never_negative (l.match_time_limit -ℤ t.engine.clock)))
    | inr invalid ↦
        line_other invalid (rw (other, search_line, invalid) refl)
          (rw (other, search_line, invalid) refl)
  ]
]

search_line-engine :
    (l : Limits) (t : Turn)
    → IsRunning t.engine
    → IsRunning (search_line l t).engine
      × ((search_line l t).engine.feed ≡ t.engine.feed)
      × ((search_line l t).engine.sent ≡ t.engine.sent)
      × ((search_line l t).line ≡ t.line)
      × ((search_line l t).turn_time_left ≡ l.turn_time_limit -ℤ t.engine.clock)
unfolding search_line
search_line-engine l t r = elim (Bool-cases (is_message (process_common_output t.line).0)) [
  | inl message ↦
      rw (message, search_line)
        (
          record {
            pipes = r.pipes;
            process = r.process;
            is_set = r.is_set;
            fresh = r.fresh;
            callback = r.callback;
          },
          refl,
          refl,
          refl,
          refl,
        )
  | inr other ↦ elim (Bool-cases (is_valid_move_gomostr t.line)) [
    | inl valid ↦ rw (other, search_line, valid) (r, refl, refl, refl, refl)
    | inr invalid ↦ rw (other, search_line, invalid) (r, refl, refl, refl, refl)
  ]
]

found_stops : (l : Limits) (t : Turn) → t.result ≡ true → searching l t ≡ false
found_stops l t r = ground arith

module _ (l : Limits) where
  search_loop-moved :
      (fuel : ℕ) (text : Text) (now : ℤ) (more : Feed) (t u : Turn)
      → 0 < fuel
      → u.line ≡ text
      → is_valid_move_gomostr text ≡ true
      → u.result ≡ true
      → u.best ≡ text
      → pos 0 ≤ℤ u.time_left
      → u.engine.sent ≡ t.engine.sent
      → searching l t ≡ true
      → SearchEnds l (writes text now more) t (search_loop fuel l u)
  unfolding IsLine has_move InTime
  search_loop-moved fuel text now more t u h el v r b tl es on =
      subst (SearchEnds l (writes text now more) t)
        (sym (search_loop-stops fuel l u h (found_stops l u r)))
        (search_moved u
          (record {
            moved = r;
            valid = ap is_valid_move_gomostr el ∙ v;
            is_line = inl el;
            there = rw v refl;
          })
          (b ∙ sym el) tl es (searching-open l t on, inl (v, el)))

  search_loop-late :
      (fuel : ℕ) (f : Feed) (t : Turn)
      → IsRunning t.engine
      → t.engine.feed ≡ f
      → t.result ≡ false
      → searching l t ≡ false
      → SearchEnds l f t (search_loop (suc fuel) l t)
  unfolding Late
  search_loop-late fuel f t r e u late =
      subst (SearchEnds l f t) (sym (search_loop-stops (suc fuel) l t (omega arith) late)) (
        search_late t u r (ap has_move (sym e)) (ap dies_itself (sym e))
          (λ x line. subst (IsLine x) e line) refl refl (late_now f (searching-closed l t u late)))
    where
      late_now :
          (f : Feed)
          → (t.turn_time_left +ℤ l.move_overhead) <ℤ pos 0
          → Late l.turn_time_limit l.move_overhead t.turn_time_left f
      late_now (writes text now more) h = inl h
      late_now dies h = h
      late_now watched h = h

  pub search_loop-ends :
      (fuel : ℕ) (f : Feed) (t : Turn)
      → IsRunning t.engine
      → t.engine.feed ≡ f
      → t.result ≡ false
      → feed_length f < fuel
      → SearchEnds l f t (search_loop fuel l t)
  unfolding feed_length has_move
  search_loop-ends zero f t r e u h = absurd (omega arith)
  search_loop-ends (suc fuel) dies t r e u h = elim (Bool-cases (searching l t)) [
    | inl on ↦ search_loop-end fuel l dies t r e refl u refl on
    | inr late ↦ search_loop-late fuel dies t r e u late
  ]
  search_loop-ends (suc fuel) watched t r e u h = elim (Bool-cases (searching l t)) [
    | inl on ↦ search_loop-end fuel l watched t r e refl u refl on
    | inr late ↦ search_loop-late fuel watched t r e u late
  ]
  search_loop-ends (suc fuel) (writes text now more) t r e u h = elim (Bool-cases (searching l t)) [
    | inr late ↦ search_loop-late fuel (writes text now more) t r e u late
    | inl on ↦
        let given = with_line text now more t in
        let next = search_line l given in
        let (running, feed_is, sent_is, line_is, time_is) =
          search_line-engine l given (writes-IsRunning t.engine more now r) in
        subst (SearchEnds l (writes text now more) t)
          (sym (search_loop-writes fuel l text now more t r.pipes e on))
          (elim (search_line-ends l given) [
            | line_moved valid moved best time ↦
                search_loop-moved fuel text now more t next (omega arith) line_is valid moved best
                  time sent_is on
            | line_other invalid same best ↦
                SearchEnds-writes l text now more t next _ invalid best sent_is time_is on
                  (search_loop-ends fuel more next running feed_is (same ∙ u) (omega arith))
          ])
  ]
