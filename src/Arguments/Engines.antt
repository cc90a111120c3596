-- ===== src/Arguments/Engines.antt =====
-- The parsers of the options with tokens behind them (src/options.cpp).
use c_gomoku_cli.Prelude.{
  ◌==◌, if◌then◌else◌, Bool, true, false, List, [], ◌∷◌, ◌++◌, Option, none, some, ℤ, codes, ◌>>=◌,
}
use c_gomoku_cli.Text.{Text, opening_pos}
use c_gomoku_cli.Tokens.{string_prefix}
use c_gomoku_cli.Arguments.{
  Doubles, atoi, atoll, to_uint64, same_text, EngineOptions, Options, SampleFormat, csv, bin,
  binpack, options_parse_tc_gomocup,
}

-- argv[i][0] == '-'.
abbrev pub is_option : Text → Bool
is_option [] = false
is_option (c ∷ cs) = c == 45

-- A chain of tests for prefixes: what the first that fits makes of the tail.
unfoldable pub by_prefix : {A : Type 0} → List (Text × (Text → Option A)) → Text → Option A
unfolding string_prefix
by_prefix [] s = none
by_prefix ((p, f) ∷ ps) s = elim (string_prefix s p) [ some tail ↦ f tail | none ↦ by_prefix ps s ]

-- A loop over the tokens up to the next option: the value and the arguments from that on, or `none`
-- for DIE.
unfoldable pub parse_tokens :
    {A : Type 0} → (Text → A → Option A) → List Text → A → Option (A × List Text)
parse_tokens f [] a = some (a, [])
parse_tokens f (t ∷ ts) a = elim (is_option t) [
  | true ↦ some (a, t ∷ ts)
  | false ↦ elim (f t a) [ none ↦ none | some b ↦ parse_tokens f ts b ]
]

-- A token of an engine.
unfoldable pub engine_token : Doubles → Text → EngineOptions → Option EngineOptions
unfolding by_prefix options_parse_tc_gomocup atoi atoll
engine_token d t eo =
    by_prefix
      ((codes "cmd=", λ tail. some (record eo { cmd = tail }))
        ∷ (codes "name=", λ tail. some (record eo { name = tail }))
        ∷ (codes "tc=", λ tail. some (options_parse_tc_gomocup d tail eo))
        ∷ (codes "depth=", λ tail. some (record eo { depth = atoi tail }))
        ∷ (codes "nodes=", λ tail. some (record eo { nodes = atoll tail }))
        ∷ (codes "maxmemory=", λ tail. some (record eo { max_memory = d.to_int64 tail }))
        ∷ (codes "thread=", λ tail. some (record eo { num_threads = atoi tail }))
        ∷ (codes "tolerance=", λ tail. some (record eo { tolerance = d.to_msec tail }))
        ∷ (codes "option.", λ tail. some (record eo { options = eo.options ++ tail ∷ [] }))
        ∷ [])
      t

-- options_parse_eo.
unfoldable pub options_parse_eo :
    Doubles → List Text → EngineOptions → Option (EngineOptions × List Text)
unfolding parse_tokens engine_token
options_parse_eo d args eo = parse_tokens (engine_token d) args eo

-- The tokens of -openings.
abbrev pub openings_prefixes : Options → List (Text × (Text → Option Options))
unfolding atoll
openings_prefixes o =
    ((codes "file=", λ tail. some (record o { openings = tail }))
      ∷ (
        codes "type=",
        λ tail.
            if same_text tail (codes "pos")
            then some (record o { opening_type = opening_pos })
            else if same_text tail (codes "offset")
            then some o
            else none,
      )
      ∷ (
        codes "order=",
        λ tail.
            if same_text tail (codes "random")
            then some (record o { random = true })
            else if same_text tail (codes "sequential")
            then some o
            else none,
      )
      ∷ (codes "srand=", λ tail. some (record o { srand = to_uint64 (atoll tail) }))
      ∷ [])

-- A token of -openings.
unfoldable pub openings_token : Text → Options → Option Options
unfolding by_prefix atoll
openings_token t o = by_prefix (openings_prefixes o) t

-- options_parse_openings.
unfoldable pub options_parse_openings : List Text → Options → Option (Options × List Text)
unfolding parse_tokens openings_token
options_parse_openings args o = parse_tokens openings_token args o

-- options_parse_adjudication: the two numbers.
unfoldable pub options_parse_adjudication : List Text → Option (ℤ × ℤ × List Text)
unfolding atoi
options_parse_adjudication [] = none
options_parse_adjudication (c ∷ []) = none
options_parse_adjudication (c ∷ s ∷ args) = some (atoi c, atoi s, args)

-- The tokens of -sprt.
abbrev pub sprt_prefixes : Options → List (Text × (Text → Option Options))
sprt_prefixes o =
    ((codes "elo0=", λ tail. some (record o { elo0 = tail }))
      ∷ (codes "elo1=", λ tail. some (record o { elo1 = tail }))
      ∷ (codes "alpha=", λ tail. some (record o { alpha = tail }))
      ∷ (codes "beta=", λ tail. some (record o { beta = tail }))
      ∷ [])

-- A token of -sprt.
unfoldable pub sprt_token : Text → Options → Option Options
unfolding by_prefix
sprt_token t o = by_prefix (sprt_prefixes o) t

-- options_parse_sprt.
unfoldable pub options_parse_sprt : Doubles → List Text → Options → Option (Options × List Text)
unfolding parse_tokens sprt_token
options_parse_sprt d args o = do
  r ← parse_tokens sprt_token args (record o { sprt = true })
  if d.validate r.0.elo0 r.0.elo1 r.0.alpha r.0.beta then some r else none

-- The formats of -sample.
abbrev pub sample_format_of : Text → Options → Option Options
sample_format_of tail o =
    if same_text tail (codes "csv")
    then some (record o { sample_format = csv })
    else if same_text tail (codes "bin")
    then some (record o { sample_format = bin })
    else if same_text tail (codes "bin_lz4")
    then some (record o { sample_format = bin; sample_compress = true })
    else if same_text tail (codes "binpack")
    then some (record o { sample_format = binpack })
    else if same_text tail (codes "binpack_lz4")
    then some (record o { sample_format = binpack; sample_compress = true })
    else none

-- The tokens of -sample.
abbrev pub sample_prefixes : Options → List (Text × (Text → Option Options))
sample_prefixes o =
    ((codes "freq=", λ tail. some (record o { sample_freq = tail }))
      ∷ (codes "file=", λ tail. some (record o { sample_file = tail }))
      ∷ (codes "format=", λ tail. sample_format_of tail o)
      ∷ [])

-- A token of -sample.
unfoldable pub sample_token : Text → Options → Option Options
unfolding by_prefix
sample_token t o = by_prefix (sample_prefixes o) t

-- The name of the file of samples if none was given.
abbrev pub default_file : SampleFormat → Bool → Text
default_file csv compress = codes "sample.csv"
default_file bin compress = if compress then codes "sample.bin.lz4" else codes "sample.bin"
default_file binpack compress =
    if compress then codes "sample.binpack.lz4" else codes "sample.binpack"

abbrev pub sample_file_of : Options → Text
sample_file_of o = elim o.sample_file [
  | [] ↦ default_file o.sample_format o.sample_compress
  | c ∷ cs ↦ c ∷ cs
]

-- options_parse_sample.
unfoldable pub options_parse_sample : List Text → Options → Option (Options × List Text)
unfolding parse_tokens sample_token
options_parse_sample args o = do
  r ← parse_tokens sample_token args o
  some (record r.0 { sample_file = sample_file_of r.0 }, r.1)
