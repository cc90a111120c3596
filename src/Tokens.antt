-- ===== src/Tokens.antt =====
-- The tokens of a string (src/util.cpp: string_tok, string_prefix). A string is the list of its
-- bytes without the 0 at the end; a null pointer is `none`.
pub mod Parts
use c_gomoku_cli.Prelude.{
  ℕ, ◌==◌, if◌then◌else◌, Bool, true, false, ◌||◌, List, [], ◌∷◌, Option, none, some,
}
use c_gomoku_cli.Text.{Text}

-- A byte of `delim`.
abbrev pub is_delim : Text → ℕ → Bool
is_delim [] c = false
is_delim (d ∷ ds) c = c == d || is_delim ds c

-- s += strspn(s, delim).
unfoldable pub skip_delims : Text → Text → Text
skip_delims delim [] = []
skip_delims delim (c ∷ cs) =
    let more = skip_delims delim cs in if is_delim delim c then more else c ∷ cs

-- The first strcspn(s, delim) bytes, and the rest.
unfoldable pub span_token : Text → Text → Text × Text
span_token delim [] = ([], [])
span_token delim (c ∷ cs) =
    let more = span_token delim cs in
    if is_delim delim c then ([], c ∷ cs) else (c ∷ more.0, more.1)

-- !token.empty() ? s : nullptr.
abbrev pub tail_of : Text × Text → Option Text
tail_of ([], s) = none
tail_of (c ∷ cs, s) = some s

-- string_tok: the token, which a null pointer leaves as it was, and the tail.
unfoldable pub string_tok : Text → Option Text → Text → Text × Option Text
unfolding skip_delims span_token
string_tok token none delim = (token, none)
string_tok token (some s) delim =
    let parts = span_token delim (skip_delims delim s) in (parts.0, tail_of parts)

-- string_prefix.
unfoldable pub string_prefix : Text → Text → Option Text
string_prefix s [] = some s
string_prefix [] (p ∷ ps) = none
string_prefix (c ∷ cs) (p ∷ ps) = elim (c == p) [ true ↦ string_prefix cs ps | false ↦ none ]
