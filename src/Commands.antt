-- ===== src/Commands.antt =====
-- The command line of an engine (src/util.cpp: string_getc_esc, string_tok_esc; src/engine.cpp:
-- engine_parse_cmd). A string is the list of its bytes without the 0 at the end; `none` stands for a
-- read outside the string, or through a null pointer.
pub mod Paths
pub mod RoundTrip
use c_gomoku_cli.Prelude.{
  ℕ, zero, suc, ◌==◌, ◌+◌, if◌then◌else◌, Bool, true, false, not, List, [], ◌∷◌, ◌++◌, length,
  Option, none, some, ◌>>=◌, codes,
}
use c_gomoku_cli.Text.{Text}

-- The loop of string_tok_esc over the tail: the token and the tail. The byte behind an escape
-- character is taken as it is; behind one at the end the loop reads outside the string.
unfoldable pub tok_loop : ℕ → ℕ → Text → Bool → Text → Option (Text × Text)
tok_loop delim esc [] accumulate token = some (token, [])
tok_loop delim esc (c ∷ []) accumulate token =
    if c == esc then none else if c == delim then some (token, []) else some (token ++ c ∷ [], [])
tok_loop delim esc (c ∷ d ∷ s) accumulate token = elim (c == esc) [
  | true ↦ tok_loop delim esc s true (token ++ d ∷ [])
  | false ↦ elim (c == delim) [
    | true ↦ elim accumulate [
      | true ↦ some (token, d ∷ s)
      | false ↦ tok_loop delim esc (d ∷ s) false token
    ]
    | false ↦ tok_loop delim esc (d ∷ s) true (token ++ c ∷ [])
  ]
]

-- return !token.empty() ? tail : nullptr.
abbrev pub tail_if : Text × Text → Text × Option Text
tail_if ([], tail) = ([], none)
tail_if (c ∷ cs, tail) = (c ∷ cs, some tail)

-- string_tok_esc on a string: the token and the result.
unfoldable pub string_tok_esc : Text → ℕ → ℕ → Option (Text × Option Text)
unfolding tok_loop
string_tok_esc s delim esc = do r ← tok_loop delim esc s false []; some (tail_if r)

-- next + (next && *next == ' ').
abbrev pub skip_space : Option Text → Option Text
skip_space none = none
skip_space (some []) = some []
skip_space (some (c ∷ s)) = if c == 32 then some s else some (c ∷ s)

abbrev pub is_quoted : Text → Bool
is_quoted [] = false
is_quoted (c ∷ s) = c == 34

-- readToken: the token and the tail.
unfoldable pub read_token : Text → Option (Text × Option Text)
unfolding string_tok_esc
read_token src =
    if is_quoted src
    then (do r ← string_tok_esc src 34 92; some (r.0, skip_space r.1))
    else string_tok_esc src 32 92

-- The loop over the arguments, with a round for each byte at most.
unfoldable pub read_args : ℕ → Text → Option (List Text)
unfolding read_token
read_args zero tail = none
read_args (suc fuel) tail = elim (read_token tail) [
  | none ↦ none
  | some (token, none) ↦ some []
  | some (token, some more) ↦ (do args ← read_args fuel more; some (token ∷ args))
]

-- strrchr(token, '/'): what stands before the last slash and behind it.
unfoldable pub split_slash : Text → Option (Text × Text)
split_slash [] = none
split_slash (c ∷ cs) = elim (split_slash cs) [
  | some (dir, file) ↦ some (c ∷ dir, file)
  | none ↦ if c == 47 then some ([], cs) else none
]

-- cwd and run.
unfoldable pub split_path : Text → Text × Text
unfolding split_slash
split_path token = elim (split_slash token) [
  | none ↦ (codes "./", token)
  | some (dir, file) ↦ (dir, codes "./" ++ file)
]

-- engine_parse_cmd: cwd, run and args. The loop reads through the null pointer that an empty first
-- token leaves.
unfoldable pub engine_parse_cmd : Text → Option (Text × Text × List Text)
unfolding read_token split_path read_args
engine_parse_cmd cmd = elim (read_token cmd) [
  | none ↦ none
  | some (token, none) ↦ none
  | some (token, some tail) ↦ (do
    args ← read_args (suc (length tail)) tail
    some ((split_path token).0, (split_path token).1, (split_path token).1 ∷ args))
]
