-- ===== src/Engine/Start.antt =====
-- Whether an engine has answered OK.
use c_gomoku_cli.Prelude.{
  ℕ, zero, suc, ◌<◌, ◌≡◌, refl, sym, ap, ◌∙◌, subst, Bool, true, false, Bool-cases, inl, inr,
  Option-cases, ◌||◌, [], ◌∷◌, none, some, arith, ℤ, codes, ◌⊎◌, ◌==◌, ==→≡, none-ne-some,
}
use c_gomoku_cli.Text.{Text}
use c_gomoku_cli.Tokens.{string_prefix}
use c_gomoku_cli.Worker.{deadline_set, deadline_clear}
use c_gomoku_cli.Engine.{
  Feed, writes, dies, watched, Engine, Reading, readln, feed_length, clear_deadline,
}
use c_gomoku_cli.Engine.Waiting.{
  text_eq, LoopEnd, loop_done, loop_error, ok_loop, Waited, exits, returns, end_wait, wait_for_ok,
}
use c_gomoku_cli.Engine.Feeds.{readln-writes}

-- A line OK comes before a line that begins with ERROR and before the end.
unfoldable pub says_ok : Feed → Bool
unfolding string_prefix
says_ok (writes text now more) = elim (string_prefix text (codes "ERROR")) [
  | some tail ↦ false
  | none ↦ text_eq text (codes "OK") || says_ok more
]
says_ok dies = false
says_ok watched = false

-- How the loop ends on a feed.
data OkEnds (f : Feed) : LoopEnd → Type 0 where
  ends_ok :
      (line : Text) (e : Engine)
      → text_eq line (codes "OK") ≡ true
      → says_ok f ≡ true
      → OkEnds f (loop_done line e)
  ends_error :
      (line : Text) (e : Engine)
      → text_eq line (codes "OK") ≡ false
      → says_ok f ≡ false
      → OkEnds f (loop_error line e)

abbrev ok_round : ℕ → Reading → LoopEnd
ok_round fuel r = elim r.ok [
  | false ↦ loop_error r.line r.engine
  | true ↦ elim (string_prefix r.line (codes "ERROR")) [
    | some tail ↦ loop_error r.line r.engine
    | none ↦ elim (text_eq r.line (codes "OK")) [
      | true ↦ loop_done r.line r.engine
      | false ↦ ok_loop fuel r.line r.engine
    ]
  ]
]

ok_loop-round :
    (fuel : ℕ) (line : Text) (e : Engine)
    → ok_loop (suc fuel) line e ≡ ok_round fuel (readln line e)
unfolding ok_loop
ok_loop-round fuel line e = refl

ok_loop-eof :
    (fuel : ℕ) (line : Text) (f : Feed) (e : Engine)
    → readln line e ≡ record { ok = false; line = []; engine = (readln line e).engine }
    → says_ok f ≡ false
    → OkEnds f (ok_loop (suc fuel) line e)
ok_loop-eof fuel line f e r s =
    subst (OkEnds f) (sym (ok_loop-round fuel line e ∙ ap (ok_round fuel) r))
      (ends_error [] _ refl s)

error_no_ok :
    (text tail : Text)
    → string_prefix text (codes "ERROR") ≡ some tail
    → text_eq text (codes "OK") ≡ false
unfolding string_prefix
error_no_ok [] tail h = cc
error_no_ok (c ∷ cs) tail h = elim (Bool-cases (c == 69)) [
  | inl e ↦ rw (==→≡ c 69 e) refl
  | inr ne ↦ absurd (none-ne-some (rw (ne, string_prefix) at h))
]

-- The reading of a line that stands in the feed.
abbrev read_line : Text → ℤ → Feed → Engine → Reading
read_line text now more e = record {
  ok = true;
  line = text;
  engine = record e { feed = more; clock = now };
}

OkEnds-writes :
    (text : Text) (now : ℤ) (more : Feed) (s : LoopEnd)
    → string_prefix text (codes "ERROR") ≡ none
    → text_eq text (codes "OK") ≡ false
    → OkEnds more s
    → OkEnds (writes text now more) s
unfolding says_ok
OkEnds-writes text now more _ p n (ends_ok line e h s) = ends_ok line e h (rw (p, says_ok) (rw n s))
OkEnds-writes text now more _ p n (ends_error line e h s) =
    ends_error line e h (rw (p, says_ok) (rw n s))

ok_loop-ends :
    (fuel : ℕ) (line : Text) (f : Feed) (e : Engine)
    → e.has_pipes ≡ true
    → e.feed ≡ f
    → feed_length f < fuel
    → OkEnds f (ok_loop fuel line e)
unfolding feed_length says_ok readln
ok_loop-ends zero line f e p ef h = absurd (omega arith)
ok_loop-ends (suc fuel) line dies e p ef h =
    ok_loop-eof fuel line dies e (rw (p, ef, readln) refl) refl
ok_loop-ends (suc fuel) line watched e p ef h =
    ok_loop-eof fuel line watched e (rw (p, ef, readln) refl) refl
ok_loop-ends (suc fuel) line (writes text now more) e p ef h =
    subst (OkEnds (writes text now more))
      (sym
        (ok_loop-round fuel line e ∙ ap (ok_round fuel) (readln-writes line text now more e p ef)))
      (elim (Option-cases (string_prefix text (codes "ERROR"))) [
        | inr (tail, some_error) ↦
            rw some_error
              (ends_error text _ (error_no_ok text tail some_error) (rw (some_error, says_ok) refl))
        | inl no_error ↦ elim (Bool-cases (text_eq text (codes "OK"))) [
          | inl ok ↦ rw (no_error, ok) (ends_ok text _ ok (rw (no_error, says_ok, ok) refl))
          | inr other ↦
              rw (no_error, other)
                (OkEnds-writes text now more _ no_error other (
                  ok_loop-ends fuel text more (record e { feed = more; clock = now }) p refl
                    (omega arith)))
        ]
      ])

-- How wait_for_ok ends by what it should: it returns with the deadline cleared, or a fatal error
-- exits.
abbrev pub Waits : Bool → Bool → Waited → Type 0
Waits fatal_error said o =
    ((e : Engine) × (o ≡ returns said e) × (e.w.deadline.is_set ≡ false))
    ⊎ ((fatal_error ≡ true) × (said ≡ false) × (o ≡ exits))

OkEnds-Waits :
    (fatal_error : Bool) (f : Feed) (s : LoopEnd)
    → OkEnds f s
    → Waits fatal_error (says_ok f) (end_wait fatal_error s)
unfolding deadline_clear
OkEnds-Waits fatal_error f _ (ends_ok line e h s) =
    inl (clear_deadline e, ap (λ b. returns b (clear_deadline e)) (h ∙ sym s), refl)
OkEnds-Waits true f _ (ends_error line e h s) = inr (refl, s, refl)
OkEnds-Waits false f _ (ends_error line e h s) =
    inl (clear_deadline e, ap (λ b. returns b (clear_deadline e)) (h ∙ sym s), refl)

-- Waiting for OK from an engine with open pipes ends whatever the engine writes before its pipe
-- ends. It returns true exactly if a line OK comes before any line that begins with ERROR, and its
-- deadline is cleared then; without such a line it returns false with the deadline cleared, or
-- exits, which it does only if errors are fatal.
pub wait_for_ok-Waits :
    (fatal_error : Bool) (e : Engine)
    → e.has_pipes ≡ true
    → Waits fatal_error (says_ok e.feed) (wait_for_ok fatal_error e)
unfolding wait_for_ok deadline_set
wait_for_ok-Waits fatal_error e p =
    OkEnds-Waits fatal_error e.feed _
      (ok_loop-ends (suc (feed_length e.feed)) [] e.feed _ p refl (omega arith))
