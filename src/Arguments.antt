-- ===== src/Arguments.antt =====
-- The command line of the program (src/options.h, src/options.cpp). The arguments are the list of
-- those still to be read; a double is kept as the text that atof reads, and what becomes of a double
-- is a parameter. options_print is left out.
pub mod Engines
pub mod Parse
pub mod Bounds
pub mod Rounds
pub mod Checked
use c_gomoku_cli.Prelude.{
  ℕ, ◌==◌, if◌then◌else◌, Bool, true, false, ◌||◌, List, [], ◌∷◌, ◌++◌, Option, none, some, ℤ, pos,
  negsuc, ◌-◌, ◌%◌, ◌^◌, ltb, min, codes,
}
use c_gomoku_cli.Text.{Text, OpeningType, opening_offset, strtol}
use c_gomoku_cli.Tokens.{string_tok}
use c_gomoku_cli.Game.{GameRule, gomoku_five_or_more}

-- The functions of doubles: (int64_t)(atof(s)), (int64_t)(atof(s) * 1000) and SPRTParam::validate.
pub record Doubles : Type 0 where
  pub to_int64 : Text → ℤ
  pub to_msec : Text → ℤ
  pub validate : Text → Text → Text → Text → Bool

-- The clamp of strtol and strtoll to 64 bits.
abbrev pub clamp_i64 : ℤ → ℤ
clamp_i64 (pos n) = pos (min n (2 ^ 63 - 1))
clamp_i64 (negsuc n) = negsuc (min n (2 ^ 63 - 1))

-- The conversion to int, which keeps the lower 32 bits.
abbrev pub to_int : ℤ → ℤ
to_int (pos n) = let m = n % 2 ^ 32 in if ltb m (2 ^ 31) then pos m else negsuc (2 ^ 32 - 1 - m)
to_int (negsuc n) = let m = n % 2 ^ 32 in if ltb m (2 ^ 31) then negsuc m else pos (2 ^ 32 - 1 - m)

-- atoll.
unfoldable pub atoll : Text → ℤ
unfolding strtol
atoll s = elim (strtol s) [ none ↦ pos 0 | some r ↦ clamp_i64 r.0 ]

-- (uint64_t), which keeps the lower 64 bits.
abbrev pub to_uint64 : ℤ → ℕ
to_uint64 (pos n) = n % 2 ^ 64
to_uint64 (negsuc n) = 2 ^ 64 - 1 - n % 2 ^ 64

-- atoi, which is (int)strtol.
unfoldable pub atoi : Text → ℤ
unfolding atoll
atoi s = to_int (atoll s)

-- strcmp(a, b) == 0.
abbrev pub same_text : Text → Text → Bool
same_text [] [] = true
same_text [] (d ∷ ds) = false
same_text (c ∷ cs) [] = false
same_text (c ∷ cs) (d ∷ ds) = if c == d then same_text cs ds else false

-- struct EngineOptions.
pub record EngineOptions : Type 0 where
  pub cmd : Text
  pub name : Text
  pub options : List Text
  pub timeout_turn : ℤ
  pub timeout_match : ℤ
  pub increment : ℤ
  pub nodes : ℤ
  pub depth : ℤ
  pub num_threads : ℤ
  pub max_memory : ℤ
  pub tolerance : ℤ

-- Its default values.
abbrev pub new_engine : EngineOptions
new_engine = record {
  cmd = [];
  name = [];
  options = [];
  timeout_turn = pos 0;
  timeout_match = pos 0;
  increment = pos 0;
  nodes = pos 0;
  depth = pos 0;
  num_threads = pos 0;
  max_memory = pos 367001600;
  tolerance = pos 3000;
}

-- enum SampleFormat.
pub data SampleFormat : Type 0 where
  csv bin binpack : SampleFormat

-- struct Options, with SampleParams and SPRTParam.
pub record Options : Type 0 where
  pub openings : Text
  pub pgn : Text
  pub sgf : Text
  pub msg : Text
  pub sample_file : Text
  pub sample_freq : Text
  pub sample_format : SampleFormat
  pub sample_compress : Bool
  pub elo0 : Text
  pub elo1 : Text
  pub alpha : Text
  pub beta : Text
  pub srand : ℕ
  pub concurrency : ℤ
  pub games : ℤ
  pub rounds : ℤ
  pub resign_count : ℤ
  pub resign_score : ℤ
  pub draw_count : ℤ
  pub draw_score : ℤ
  pub force_draw_after : ℤ
  pub board_size : ℤ
  pub game_rule : GameRule
  pub opening_type : OpeningType
  pub use_turn : Bool
  pub log : Bool
  pub random : Bool
  pub repeat : Bool
  pub transform : Bool
  pub sprt : Bool
  pub gauntlet : Bool
  pub save_lose_only : Bool
  pub fatal_error : Bool
  pub debug : Bool

-- Their default values.
abbrev pub new_options : Options
new_options = record {
  openings = [];
  pgn = [];
  sgf = [];
  msg = [];
  sample_file = [];
  sample_freq = codes "1.0";
  sample_format = csv;
  sample_compress = false;
  elo0 = codes "0";
  elo1 = codes "0";
  alpha = codes "0.05";
  beta = codes "0.05";
  srand = 0;
  concurrency = pos 1;
  games = pos 1;
  rounds = pos 1;
  resign_count = pos 0;
  resign_score = pos 0;
  draw_count = pos 0;
  draw_score = pos 0;
  force_draw_after = pos 0;
  board_size = pos 15;
  game_rule = gomoku_five_or_more;
  opening_type = opening_offset;
  use_turn = true;
  log = false;
  random = false;
  repeat = false;
  transform = false;
  sprt = false;
  gauntlet = false;
  save_lose_only = false;
  fatal_error = false;
  debug = false;
}

-- strchr(s, '/').
abbrev pub has_slash : Text → Bool
has_slash [] = false
has_slash (c ∷ cs) = c == 47 || has_slash cs

-- options_parse_tc_gomocup.
unfoldable pub options_parse_tc_gomocup : Doubles → Text → EngineOptions → EngineOptions
unfolding string_tok
options_parse_tc_gomocup d s eo =
    let left = string_tok [] (some s) (codes "+") in
    let right = string_tok [] left.1 (codes "+") in
    let of_match = string_tok left.0 (some left.0) (codes "/") in
    let of_turn = string_tok right.0 of_match.1 (codes "/") in
    let match_time = if has_slash left.0 then of_match.0 else left.0 in
    let turn_time = if has_slash left.0 then of_turn.0 else left.0 in
    record eo {
      timeout_match = d.to_msec match_time;
      timeout_turn = d.to_msec turn_time;
      increment = d.to_msec right.0;
    }
