-- ===== src/Arguments/Parse.antt =====
-- The loop over the arguments, and what every engine takes from -each (src/options.cpp: options_parse).
use c_gomoku_cli.Prelude.{
  ℕ, zero, suc, ltb, if◌then◌else◌, Bool, true, false, ◌&&◌, List, [], ◌∷◌, ◌++◌, length, map,
  Option, none, some, ℤ, pos, leb_ℤ, codes,
}
use c_gomoku_cli.Text.{Text}
use c_gomoku_cli.Game.{GameRule, gomoku_five_or_more, gomoku_exact_five, renju, is_zero_ℤ}
use c_gomoku_cli.Arguments.{
  Doubles, atoi, same_text, EngineOptions, new_engine, Options, new_options,
}
use c_gomoku_cli.Arguments.Engines.{
  options_parse_eo, options_parse_openings, options_parse_adjudication, options_parse_sprt,
  options_parse_sample,
}

-- The options.
pub data Flag : Type 0 where
  f_repeat f_transform f_gauntlet f_loseonly f_log f_concurrency f_each f_engine : Flag
  f_games f_rounds f_openings f_pgn f_sgf f_msg f_resign f_draw f_drawafter f_sprt : Flag
  f_sample f_rule f_boardsize f_debug f_sendbyboard f_fatalerror : Flag

-- Their texts, in the order of the tests.
abbrev pub flags : List (Text × Flag)
flags =
    (codes "-repeat", f_repeat)
    ∷ (codes "-transform", f_transform)
    ∷ (codes "-gauntlet", f_gauntlet)
    ∷ (codes "-loseonly", f_loseonly)
    ∷ (codes "-log", f_log)
    ∷ (codes "-concurrency", f_concurrency)
    ∷ (codes "-each", f_each)
    ∷ (codes "-engine", f_engine)
    ∷ (codes "-games", f_games)
    ∷ (codes "-rounds", f_rounds)
    ∷ (codes "-openings", f_openings)
    ∷ (codes "-pgn", f_pgn)
    ∷ (codes "-sgf", f_sgf)
    ∷ (codes "-msg", f_msg)
    ∷ (codes "-resign", f_resign)
    ∷ (codes "-draw", f_draw)
    ∷ (codes "-drawafter", f_drawafter)
    ∷ (codes "-sprt", f_sprt)
    ∷ (codes "-sample", f_sample)
    ∷ (codes "-rule", f_rule)
    ∷ (codes "-boardsize", f_boardsize)
    ∷ (codes "-debug", f_debug)
    ∷ (codes "-sendbyboard", f_sendbyboard)
    ∷ (codes "-fatalerror", f_fatalerror)
    ∷ []

unfoldable pub find_flag : List (Text × Flag) → Text → Option Flag
find_flag [] t = none
find_flag ((name, f) ∷ fs) t = if same_text t name then some f else find_flag fs t

-- The locals of options_parse.
pub record Parsing : Type 0 where
  pub o : Options
  pub eo : List EngineOptions
  pub each : EngineOptions
  pub each_set : Bool

-- A round of the loop: DIE, a null pointer behind the last argument, or the rest of the arguments.
pub data Step : Type 0 where
  step_dies step_crashes : Step
  step_next : Parsing → List Text → Step

-- argv[++i].
abbrev pub with_argument : List Text → (Text → Parsing) → Step
with_argument [] f = step_crashes
with_argument (t ∷ ts) f = step_next (f t) ts

abbrev pub set_o : Parsing → Options → Parsing
set_o p o = record p { o = o }

-- A parser's options, and the arguments behind its tokens.
abbrev pub with_options : Parsing → Option (Options × List Text) → Step
with_options p none = step_dies
with_options p (some (o, rest)) = step_next (set_o p o) rest

-- (GameRule)atoi(s), for a code that check_rule_code lets pass.
abbrev pub rule_of : ℤ → Option GameRule
rule_of (pos zero) = some gomoku_five_or_more
rule_of (pos (suc zero)) = some gomoku_exact_five
rule_of (pos (suc (suc (suc (suc zero))))) = some renju
rule_of z = none

abbrev pub with_rule : Parsing → Option GameRule → List Text → Step
with_rule p none rest = step_dies
with_rule p (some rule) rest = step_next (set_o p (record p.o { game_rule = rule })) rest

-- The test of -boardsize.
abbrev pub admits_size : ℤ → Bool
admits_size n = leb_ℤ (pos 5) n && leb_ℤ n (pos 22)

abbrev pub with_size : Parsing → ℤ → List Text → Step
with_size p n rest =
    if admits_size n then step_next (set_o p (record p.o { board_size = n })) rest else step_dies

-- The two numbers of -resign and -draw.
abbrev pub with_numbers : (ℤ → ℤ → Parsing) → Option (ℤ × ℤ × List Text) → Step
with_numbers f none = step_dies
with_numbers f (some (count, score, rest)) = step_next (f count score) rest

abbrev pub with_each : Parsing → Option (EngineOptions × List Text) → Step
with_each p none = step_dies
with_each p (some (each, rest)) = step_next (record p { each = each; each_set = true }) rest

abbrev pub with_engine : Parsing → Option (EngineOptions × List Text) → Step
with_engine p none = step_dies
with_engine p (some (e, rest)) = step_next (record p { eo = p.eo ++ e ∷ [] }) rest

-- The body of the loop, for the option and the arguments behind it.
unfoldable pub run_flag : Doubles → Flag → List Text → Parsing → Step
unfolding options_parse_eo options_parse_openings options_parse_adjudication options_parse_sprt
    options_parse_sample atoi
run_flag d f_repeat ts p = step_next (set_o p (record p.o { repeat = true })) ts
run_flag d f_transform ts p = step_next (set_o p (record p.o { transform = true })) ts
run_flag d f_gauntlet ts p = step_next (set_o p (record p.o { gauntlet = true })) ts
run_flag d f_loseonly ts p = step_next (set_o p (record p.o { save_lose_only = true })) ts
run_flag d f_log ts p = step_next (set_o p (record p.o { log = true })) ts
run_flag d f_concurrency ts p =
    with_argument ts (λ t. set_o p (record p.o { concurrency = atoi t }))
run_flag d f_each ts p = with_each p (options_parse_eo d ts p.each)
run_flag d f_engine ts p = with_engine p (options_parse_eo d ts new_engine)
run_flag d f_games ts p = with_argument ts (λ t. set_o p (record p.o { games = atoi t }))
run_flag d f_rounds ts p = with_argument ts (λ t. set_o p (record p.o { rounds = atoi t }))
run_flag d f_openings ts p = with_options p (options_parse_openings ts p.o)
run_flag d f_pgn ts p = with_argument ts (λ t. set_o p (record p.o { pgn = t }))
run_flag d f_sgf ts p = with_argument ts (λ t. set_o p (record p.o { sgf = t }))
run_flag d f_msg ts p = with_argument ts (λ t. set_o p (record p.o { msg = t }))
run_flag d f_resign ts p =
    with_numbers
      (λ count score. set_o p (record p.o { resign_count = count; resign_score = score }))
      (options_parse_adjudication ts)
run_flag d f_draw ts p =
    with_numbers (λ count score. set_o p (record p.o { draw_count = count; draw_score = score }))
      (options_parse_adjudication ts)
run_flag d f_drawafter ts p =
    with_argument ts (λ t. set_o p (record p.o { force_draw_after = atoi t }))
run_flag d f_sprt ts p = with_options p (options_parse_sprt d ts p.o)
run_flag d f_sample ts p = with_options p (options_parse_sample ts p.o)
run_flag d f_rule [] p = step_crashes
run_flag d f_rule (t ∷ ts) p = with_rule p (rule_of (atoi t)) ts
run_flag d f_boardsize [] p = step_crashes
run_flag d f_boardsize (t ∷ ts) p = with_size p (atoi t) ts
run_flag d f_debug ts p = step_next (set_o p (record p.o { debug = true; log = true })) ts
run_flag d f_sendbyboard ts p = step_next (set_o p (record p.o { use_turn = false })) ts
run_flag d f_fatalerror ts p = step_next (set_o p (record p.o { fatal_error = true })) ts

-- How options_parse ends.
pub data Parsed : Type 0 where
  parse_fuel parse_dies parse_crashes : Parsed
  parsed : Options → List EngineOptions → Parsed

-- An option that -each has, if it is not 0.
abbrev pub or_each : ℤ → ℤ → ℤ
or_each each own = if is_zero_ℤ each then own else each

abbrev pub or_each_text : Text → Text → Text
or_each_text [] own = own
or_each_text (c ∷ cs) own = c ∷ cs

-- The merge of -each into an engine.
unfoldable pub merge_each : EngineOptions → EngineOptions → EngineOptions
merge_each each e = record {
  cmd = or_each_text each.cmd e.cmd;
  name = or_each_text each.name e.name;
  options = e.options ++ each.options;
  timeout_match = or_each each.timeout_match e.timeout_match;
  timeout_turn = or_each each.timeout_turn e.timeout_turn;
  increment = or_each each.increment e.increment;
  nodes = or_each each.nodes e.nodes;
  depth = or_each each.depth e.depth;
  max_memory = or_each each.max_memory e.max_memory;
  num_threads = or_each each.num_threads e.num_threads;
  tolerance = or_each each.tolerance e.tolerance;
}

-- The part of options_parse behind the loop.
unfoldable pub end_parse : Parsing → Parsed
unfolding merge_each
end_parse p =
    let eo = if p.each_set then map (merge_each p.each) p.eo else p.eo in
    if ltb (length eo) 2
    then parse_dies
    else if ltb 2 (length eo) && p.o.sprt
    then parse_dies
    else parsed p.o eo

-- The loop of options_parse.
unfoldable pub parse_loop : ℕ → Doubles → List Text → Parsing → Parsed
unfolding find_flag run_flag end_parse
parse_loop fuel d [] p = end_parse p
parse_loop zero d (t ∷ ts) p = parse_fuel
parse_loop (suc fuel) d (t ∷ ts) p = elim (find_flag flags t) [
  | none ↦ parse_dies
  | some f ↦ elim (run_flag d f ts p) [
    | step_dies ↦ parse_dies
    | step_crashes ↦ parse_crashes
    | step_next q rest ↦ parse_loop fuel d rest q
  ]
]

-- options_parse, on the arguments without the program's name.
unfoldable pub options_parse : Doubles → List Text → Parsed
unfolding parse_loop
options_parse d args =
    parse_loop (length args) d args
      (record { o = new_options; eo = []; each = new_engine; each_set = false })
