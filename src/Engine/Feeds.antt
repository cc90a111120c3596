-- ===== src/Engine/Feeds.antt =====
-- What is in a feed, and what readln takes from it.
use c_gomoku_cli.Prelude.{
  ℕ, zero, suc, ◌+◌, ◌≤◌, ◌<◌, ◌≡◌, ◌⊎◌, inl, inr, refl, sym, ap, ◌∙◌, ◌==◌, Bool, true, false,
  Bool-cases, ◌||◌, not, List, [], ◌∷◌, take, drop, none, some, arith, codes, All, Option-cases, ℤ,
  pos, ◌+ℤ◌, ◌-ℤ◌, ◌≤ℤ◌, ◌<ℤ◌, ==→≡,
}
use c_gomoku_cli.Text.{
  Text, is_valid_move_gomostr, find_comma, is_number, strtol, skip_spaces, read_digits, comma,
}
use c_gomoku_cli.Tokens.{string_prefix}
use c_gomoku_cli.Worker.{deadline_callback_once}
use c_gomoku_cli.Engine.{
  Feed, writes, dies, watched, terminate_engine, Engine, readln, watch, terminate_force,
  process_common_output, first_prefix, prefixes, OutputType,
}
use c_gomoku_cli.Engine.Turns.{is_message}

-- A line of the feed is a move.
unfoldable pub has_move : Feed → Bool
unfolding is_valid_move_gomostr
has_move (writes text now more) = is_valid_move_gomostr text || has_move more
has_move dies = false
has_move watched = false

-- The process ends by itself.
unfoldable pub dies_itself : Feed → Bool
dies_itself (writes text now more) = dies_itself more
dies_itself dies = true
dies_itself watched = false

-- `line` is the first move of the feed, and comes in time: the time left of the turn, with the
-- overhead, is not negative before each line up to it. After a line at `now` the time left is
-- `limit` less `now`.
unfoldable pub InTime : ℤ → ℤ → ℤ → Feed → Text → Type 0
InTime limit overhead left (writes text now more) line =
    (pos 0 ≤ℤ (left +ℤ overhead))
    × (((is_valid_move_gomostr text ≡ true) × (line ≡ text))
        ⊎ ((is_valid_move_gomostr text ≡ false) × InTime limit overhead (limit -ℤ now) more line))
InTime limit overhead left dies line = ⊥
InTime limit overhead left watched line = ⊥

-- The time left of the turn, with the overhead, becomes negative before the feed has a move.
unfoldable pub Late : ℤ → ℤ → ℤ → Feed → Type 0
Late limit overhead left (writes text now more) =
    ((left +ℤ overhead) <ℤ pos 0)
    ⊎ ((is_valid_move_gomostr text ≡ false) × Late limit overhead (limit -ℤ now) more)
Late limit overhead left dies = (left +ℤ overhead) <ℤ pos 0
Late limit overhead left watched = (left +ℤ overhead) <ℤ pos 0

-- The text is a line of the feed.
unfoldable pub IsLine : Text → Feed → Type 0
IsLine t (writes text now more) = (t ≡ text) ⊎ IsLine t more
IsLine t dies = ⊥
IsLine t watched = ⊥

-- An engine that runs under a deadline with the callback of bestmove, which did not run yet.
pub record IsRunning (e : Engine) : Type 0 where
  pub pipes : e.has_pipes ≡ true
  pub process : (e.pid == 0) ≡ false
  pub is_set : e.w.deadline.is_set ≡ true
  pub fresh : e.w.deadline.called ≡ false
  pub callback : e.w.deadline.callback ≡ some terminate_engine

-- An engine whose feed has ended: without pipes, and crashed exactly if the process died itself.
pub record IsGone (died : Bool) (e : Engine) : Type 0 where
  pub no_pipes : e.has_pipes ≡ false
  pub crashed : not (e.pid == 0) ≡ died

pub readln-writes :
    (line text : Text) (now : _) (more : Feed) (e : Engine)
    → e.has_pipes ≡ true
    → e.feed ≡ writes text now more
    → readln line e
      ≡ record { ok = true; line = text; engine = record e { feed = more; clock = now } }
unfolding readln
readln-writes line text now more e p f = rw (p, f, readln) refl

-- The end of a feed.
abbrev pub is_end : Feed → Bool
is_end (writes text now more) = false
is_end dies = true
is_end watched = true

pub readln-end :
    (line : Text) (f : Feed) (e : Engine)
    → IsRunning e
    → e.feed ≡ f
    → is_end f ≡ true
    → ((readln line e).ok ≡ false) × IsGone (dies_itself f) (readln line e).engine
unfolding readln watch dies_itself terminate_force deadline_callback_once
readln-end line (writes text now more) e r f h = cc
readln-end line dies e r f h =
    rw (r.pipes, f, readln, r.process)
      (refl, record { no_pipes = refl; crashed = rw r.process refl })
readln-end line watched e r f h =
    rw (r.pipes, f, readln, r.is_set, r.fresh, watch, deadline_callback_once, r.callback, r.process)
      (refl, record { no_pipes = refl; crashed = refl })

pub writes-IsRunning :
    (e : Engine) (more : Feed) (now : _)
    → IsRunning e
    → IsRunning (record e { feed = more; clock = now })
writes-IsRunning e more now r = record {
  pipes = r.pipes;
  process = r.process;
  is_set = r.is_set;
  fresh = r.fresh;
  callback = r.callback;
}

-- The last comma is not before the bytes that are searched.
find_comma-after :
    (cs : Text) (i : ℕ) (s : ℕ × ℕ) → (find_comma cs i s ≡ s) ⊎ (i ≤ (find_comma cs i s).0)
unfolding find_comma
find_comma-after [] i s = inl refl
find_comma-after (c ∷ cs) i s = elim (Bool-cases (c == comma)) [
  | inl e ↦
      rw (e, find_comma)
        (inr (elim (find_comma-after cs (i + 1) (i, s.1 + 1)) [
          | inl same ↦ omega (arith, ap (λ (r : ℕ × ℕ). r.0) same)
          | inr after ↦ omega (arith, after)
        ]))
  | inr ne ↦
      rw (ne, find_comma)
        (elim (find_comma-after cs (i + 1) s) [
          | inl same ↦ inl same
          | inr after ↦ inr (omega (arith, after))
        ])
]

letter_no_number : (n : ℕ) (cs : Text) → 0 < n → is_number (take n (77 ∷ cs)) ≡ false
unfolding is_number strtol skip_spaces read_digits
letter_no_number zero cs h = absurd (omega arith)
letter_no_number (suc n) cs h = refl

letter_no_move : (cs : Text) → is_valid_move_gomostr (77 ∷ cs) ≡ false
unfolding is_valid_move_gomostr find_comma
letter_no_move cs = elim (find_comma-after cs 1 (0, 0)) [
  | inl same ↦ rw (same, is_valid_move_gomostr) refl
  | inr after ↦ elim (Bool-cases ((find_comma cs 1 (0, 0)).1 == 1)) [
    | inl one ↦ rw (one, letter_no_number (find_comma cs 1 (0, 0)).0 cs after) refl
    | inr other ↦ rw other refl
  ]
]

no_message :
    (ps : List (Text × OutputType)) (line : Text)
    → All (λ (p : Text × OutputType). is_message p.1 ≡ false) ps
    → is_message (first_prefix ps line).0 ≡ false
unfolding first_prefix
no_message [] line h = refl
no_message ((p, type) ∷ ps) line (h, hs) = elim (Option-cases (string_prefix line p)) [
  | inl none_of ↦ rw (none_of, first_prefix) (no_message ps line hs)
  | inr (tail, e) ↦ rw (e, first_prefix) h
]

other_letter :
    (c : ℕ) (cs : Text) → (c == 77) ≡ false → string_prefix (c ∷ cs) (codes "MESSAGE") ≡ none
unfolding string_prefix
other_letter c cs ne = rw (ne, string_prefix) refl

abbrev others : List (Text × OutputType)
others = drop 1 prefixes

other_no_message :
    (c : ℕ) (cs : Text) → (c == 77) ≡ false → is_message (process_common_output (c ∷ cs)).0 ≡ false
unfolding process_common_output first_prefix
other_no_message c cs ne =
    rw (other_letter c cs ne, first_prefix)
      (no_message others (c ∷ cs) (refl, (refl, (refl, (refl, tt)))))

-- A line of type MESSAGE is no move.
pub message_no_move :
    (line : Text)
    → is_message (process_common_output line).0 ≡ true
    → is_valid_move_gomostr line ≡ false
unfolding is_valid_move_gomostr find_comma
message_no_move [] h = refl
message_no_move (c ∷ cs) h = elim (Bool-cases (c == 77)) [
  | inl e ↦ rw (==→≡ c 77 e) (letter_no_move cs)
  | inr ne ↦ absurd (cc (sym h ∙ other_no_message c cs ne))
]
