-- ===== src/Arguments/Rounds.antt =====
-- A round of the loop over the arguments.
use c_gomoku_cli.Prelude.{
  ℕ, suc, ◌≤◌, ◌≡◌, inl, inr, refl, sym, ap, ◌∙◌, if◌then◌else◌, Bool, true, false, Bool-cases,
  List, [], ◌∷◌, length, Option, none, some, some-inv, none-ne-some, bind-some, arith, ℤ,
}
use c_gomoku_cli.Text.{Text}
use c_gomoku_cli.Arguments.{Doubles, atoi, EngineOptions, new_engine, Options}
use c_gomoku_cli.Arguments.Engines.{
  parse_tokens, engine_token, options_parse_eo, openings_token, options_parse_openings,
  options_parse_adjudication, sprt_token, options_parse_sprt, sample_token, options_parse_sample,
}
use c_gomoku_cli.Arguments.Parse.{
  Flag, f_repeat, f_transform, f_gauntlet, f_loseonly, f_log, f_concurrency, f_each, f_engine,
  f_games, f_rounds, f_openings, f_pgn, f_sgf, f_msg, f_resign, f_draw, f_drawafter, f_sprt,
  f_sample, f_rule, f_boardsize, f_debug, f_sendbyboard, f_fatalerror, Parsing, Step, step_dies,
  step_crashes, step_next, with_argument, with_options, rule_of, with_rule, admits_size, with_size,
  with_numbers, with_each, with_engine, run_flag,
}
use c_gomoku_cli.Game.{GameRule}
use c_gomoku_cli.Arguments.Bounds.{
  Leaves, Sized, parse_tokens-Leaves, openings_token-Sized, sprt_token-Sized, sample_token-Sized,
}

-- A round that goes on does so with an admitted size, and leaves no more than `n` arguments.
abbrev pub Fine : ℕ → Step → Type 0
Fine n step_dies = Unit
Fine n step_crashes = Unit
Fine n (step_next q rest) = (admits_size q.o.board_size ≡ true) × (length rest ≤ n)

abbrev pub Admitted : Options → Type 0
Admitted o = admits_size o.board_size ≡ true

argument-Fine :
    (ts : List Text) (g : Text → Parsing)
    → ((t : Text) → Admitted (g t).o)
    → Fine (length ts) (with_argument ts g)
argument-Fine [] g h = tt
argument-Fine (t ∷ ts) g h = (h t, omega arith)

options-Fine :
    (ts : List Text) (p : Parsing) (r : Option (Options × List Text))
    → Admitted p.o
    → Leaves (Sized p.o.board_size) ts r
    → Fine (length ts) (with_options p r)
options-Fine ts p none h l = tt
options-Fine ts p (some (o, rest)) h l =
    let (same, fewer) = l o rest refl in (ap admits_size same ∙ h, fewer)

options_parse_openings-Leaves :
    (ts : List Text) (o : Options) → Leaves (Sized o.board_size) ts (options_parse_openings ts o)
unfolding options_parse_openings
options_parse_openings-Leaves ts o =
    parse_tokens-Leaves (Sized o.board_size) openings_token
      (λ t a h b e. openings_token-Sized o.board_size t a h b e) ts o refl

options_parse_sprt-Leaves :
    (d : Doubles) (ts : List Text) (o : Options)
    → Leaves (Sized o.board_size) ts (options_parse_sprt d ts o)
unfolding options_parse_sprt
options_parse_sprt-Leaves d ts o b rest e =
    let (r, er, e1) =
      bind-some (parse_tokens sprt_token ts (record o { sprt = true })) _ (b, rest) e in
    parse_tokens-Leaves (Sized o.board_size) sprt_token
      (λ t a h c k. sprt_token-Sized o.board_size t a h c k) ts (record o { sprt = true }) refl b
      rest (er ∙ valid (d.validate r.0.elo0 r.0.elo1 r.0.alpha r.0.beta) r e1)
  where
    valid :
        (c : Bool) (r : Options × List Text)
        → (if c then some r else none) ≡ some (b, rest)
        → some r ≡ some (b, rest)
    valid true r e = e
    valid false r e = absurd (none-ne-some e)

options_parse_sample-Leaves :
    (ts : List Text) (o : Options) → Leaves (Sized o.board_size) ts (options_parse_sample ts o)
unfolding options_parse_sample
options_parse_sample-Leaves ts o b rest e =
    let (r, er, e1) = bind-some (parse_tokens sample_token ts o) _ (b, rest) e in
    let (same, fewer) =
      parse_tokens-Leaves (Sized o.board_size) sample_token
        (λ t a h c k. sample_token-Sized o.board_size t a h c k) ts o refl r.0 r.1 er in
    let last = some-inv e1 in
    (
      ap (λ q. q.0.board_size) (sym last) ∙ same,
      omega (arith, fewer, ap (λ (q : Options × List Text). length q.1) last),
    )

options_parse_eo-Leaves :
    (d : Doubles) (ts : List Text) (eo : EngineOptions)
    → Leaves (λ e. Unit) ts (options_parse_eo d ts eo)
unfolding options_parse_eo
options_parse_eo-Leaves d ts eo =
    parse_tokens-Leaves (λ e. Unit) (engine_token d) (λ t a h b e. tt) ts eo tt

each-Fine :
    (ts : List Text) (p : Parsing) (r : Option (EngineOptions × List Text))
    → Admitted p.o
    → Leaves (λ e. Unit) ts r
    → Fine (length ts) (with_each p r)
each-Fine ts p none h l = tt
each-Fine ts p (some (e, rest)) h l = (h, (l e rest refl).1)

engine-Fine :
    (ts : List Text) (p : Parsing) (r : Option (EngineOptions × List Text))
    → Admitted p.o
    → Leaves (λ e. Unit) ts r
    → Fine (length ts) (with_engine p r)
engine-Fine ts p none h l = tt
engine-Fine ts p (some (e, rest)) h l = (h, (l e rest refl).1)

numbers-Fine :
    (ts : List Text) (g : ℤ → ℤ → Parsing)
    → ((a b : ℤ) → Admitted (g a b).o)
    → Fine (length ts) (with_numbers g (options_parse_adjudication ts))
unfolding options_parse_adjudication
numbers-Fine [] g h = tt
numbers-Fine (c ∷ []) g h = tt
numbers-Fine (c ∷ s ∷ ts) g h = (h (atoi c) (atoi s), omega arith)

rule-Fine :
    (n : ℕ) (p : Parsing) (r : Option GameRule) (rest : List Text)
    → Admitted p.o
    → length rest ≤ n
    → Fine n (with_rule p r rest)
rule-Fine n p none rest h l = tt
rule-Fine n p (some rule) rest h l = (h, l)

size-Fine :
    (n : ℕ) (p : Parsing) (z : ℤ) (rest : List Text) → length rest ≤ n → Fine n (with_size p z rest)
size-Fine n p z rest l = elim (Bool-cases (admits_size z)) [
  | inl ok ↦ rw ok (ok, l)
  | inr bad ↦ rw bad tt
]

pub run_flag-Fine :
    (d : Doubles) (f : Flag) (ts : List Text) (p : Parsing)
    → Admitted p.o
    → Fine (length ts) (run_flag d f ts p)
unfolding run_flag
run_flag-Fine d f_repeat ts p h = (h, omega arith)
run_flag-Fine d f_transform ts p h = (h, omega arith)
run_flag-Fine d f_gauntlet ts p h = (h, omega arith)
run_flag-Fine d f_loseonly ts p h = (h, omega arith)
run_flag-Fine d f_log ts p h = (h, omega arith)
run_flag-Fine d f_concurrency ts p h = argument-Fine ts _ (λ t. h)
run_flag-Fine d f_each ts p h = each-Fine ts p _ h (options_parse_eo-Leaves d ts p.each)
run_flag-Fine d f_engine ts p h = engine-Fine ts p _ h (options_parse_eo-Leaves d ts new_engine)
run_flag-Fine d f_games ts p h = argument-Fine ts _ (λ t. h)
run_flag-Fine d f_rounds ts p h = argument-Fine ts _ (λ t. h)
run_flag-Fine d f_openings ts p h = options-Fine ts p _ h (options_parse_openings-Leaves ts p.o)
run_flag-Fine d f_pgn ts p h = argument-Fine ts _ (λ t. h)
run_flag-Fine d f_sgf ts p h = argument-Fine ts _ (λ t. h)
run_flag-Fine d f_msg ts p h = argument-Fine ts _ (λ t. h)
run_flag-Fine d f_resign ts p h = numbers-Fine ts _ (λ a b. h)
run_flag-Fine d f_draw ts p h = numbers-Fine ts _ (λ a b. h)
run_flag-Fine d f_drawafter ts p h = argument-Fine ts _ (λ t. h)
run_flag-Fine d f_sprt ts p h = options-Fine ts p _ h (options_parse_sprt-Leaves d ts p.o)
run_flag-Fine d f_sample ts p h = options-Fine ts p _ h (options_parse_sample-Leaves ts p.o)
run_flag-Fine d f_rule [] p h = tt
run_flag-Fine d f_rule (t ∷ ts) p h =
    rule-Fine (suc (length ts)) p (rule_of (atoi t)) ts h (omega arith)
run_flag-Fine d f_boardsize [] p h = tt
run_flag-Fine d f_boardsize (t ∷ ts) p h = size-Fine (suc (length ts)) p (atoi t) ts (omega arith)
run_flag-Fine d f_debug ts p h = (h, omega arith)
run_flag-Fine d f_sendbyboard ts p h = (h, omega arith)
run_flag-Fine d f_fatalerror ts p h = (h, omega arith)
