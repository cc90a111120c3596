-- ===== src/Commands/RoundTrip.antt =====
-- A command line that is written with escapes is parsed to its tokens.
use c_gomoku_cli.Prelude.{
  ℕ, zero, suc, ◌==◌, ◌<◌, ◌≤◌, ◌≡◌, inl, inr, refl, sym, ap, ◌∙◌, if◌then◌else◌, Bool, true, false,
  Bool-cases, ◌||◌, List, [], ◌∷◌, ◌++◌, append_assoc, append-nil, length, length-append, All, some,
  arith,
}
use c_gomoku_cli.Text.{Text}
use c_gomoku_cli.Commands.{
  tok_loop, string_tok_esc, is_quoted, read_token, read_args, split_path, engine_parse_cmd,
}
use c_gomoku_cli.Commands.Paths.{Splits, split_path-Splits}

-- A space, a quote or a backslash.
abbrev is_special : ℕ → Bool
is_special c = c == 32 || (c == 34 || c == 92)

-- A token with a backslash before each special byte.
unfoldable pub escape : Text → Text
escape [] = []
escape (c ∷ cs) = if is_special c then 92 ∷ c ∷ escape cs else c ∷ escape cs

-- The tokens, each behind a space.
unfoldable pub print_args : List Text → Text
unfolding escape
print_args [] = []
print_args (t ∷ ts) = 32 ∷ (escape t ++ print_args ts)

-- A command line.
unfoldable pub print_cmd : Text → List Text → Text
unfolding escape print_args
print_cmd t ts = escape t ++ print_args ts

step-plain :
    (c : ℕ) (s : Text) (acc : Bool) (tok : Text)
    → (c == 92) ≡ false
    → (c == 32) ≡ false
    → tok_loop 32 92 (c ∷ s) acc tok ≡ tok_loop 32 92 s true (tok ++ c ∷ [])
unfolding tok_loop
step-plain c [] acc tok h1 h2 = rw (h1, h2) refl
step-plain c (d ∷ s) acc tok h1 h2 = rw (h1, h2, tok_loop) refl

step-escaped :
    (c : ℕ) (s : Text) (acc : Bool) (tok : Text)
    → tok_loop 32 92 (92 ∷ c ∷ s) acc tok ≡ tok_loop 32 92 s true (tok ++ c ∷ [])
unfolding tok_loop
step-escaped c s acc tok = refl

-- What a token is followed by: nothing, or a space and the tail.
data Ends : Text → Text → Type 0 where
  at_end : Ends [] []
  at_space : {s : Text} → Ends (32 ∷ s) s

step-end : (rest tail tok : Text) → Ends rest tail → tok_loop 32 92 rest true tok ≡ some (tok, tail)
unfolding tok_loop
step-end _ _ tok at_end = refl
step-end _ _ tok (at_space {s = []}) = refl
step-end _ _ tok (at_space {s = c ∷ s}) = refl

step-escape :
    (c : ℕ) (s : Text) (acc : Bool) (tok : Text)
    → tok_loop 32 92 (escape (c ∷ []) ++ s) acc tok ≡ tok_loop 32 92 s true (tok ++ c ∷ [])
unfolding escape
step-escape c s acc tok = elim (Bool-cases (is_special c)) [
  | inl special ↦ rw (special, escape) (step-escaped c s acc tok)
  | inr plain ↦ rw (plain, escape) (step-plain c s acc tok (ground arith) (ground arith))
]

escape-cons : (c : ℕ) (cs : Text) → escape (c ∷ cs) ≡ escape (c ∷ []) ++ escape cs
unfolding escape
escape-cons c cs = elim (Bool-cases (is_special c)) [
  | inl special ↦ rw (special, escape) refl
  | inr plain ↦ rw (plain, escape) refl
]

tok_loop-token :
    (t rest tail tok : Text)
    → Ends rest tail
    → tok_loop 32 92 (escape t ++ rest) true tok ≡ some (tok ++ t, tail)
unfolding escape
tok_loop-token [] rest tail tok e =
    step-end rest tail tok e ∙ ap (λ k. some (k, tail)) (sym (append-nil tok))
tok_loop-token (c ∷ cs) rest tail tok e =
    ap (λ k. tok_loop 32 92 (k ++ rest) true tok) (escape-cons c cs)
    ∙ ap (λ k. tok_loop 32 92 k true tok) (append_assoc (escape (c ∷ [])) (escape cs) rest)
    ∙ step-escape c (escape cs ++ rest) true tok
    ∙ tok_loop-token cs rest tail (tok ++ c ∷ []) e
    ∙ ap (λ k. some (k, tail)) (append_assoc tok (c ∷ []) cs)

tok_loop-first :
    (c : ℕ) (cs rest tail : Text)
    → Ends rest tail
    → tok_loop 32 92 (escape (c ∷ cs) ++ rest) false [] ≡ some (c ∷ cs, tail)
tok_loop-first c cs rest tail e =
    ap (λ k. tok_loop 32 92 (k ++ rest) false []) (escape-cons c cs)
    ∙ ap (λ k. tok_loop 32 92 k false []) (append_assoc (escape (c ∷ [])) (escape cs) rest)
    ∙ step-escape c (escape cs ++ rest) false []
    ∙ tok_loop-token cs rest tail (c ∷ []) e

unquoted : (c : ℕ) (cs rest : Text) → is_quoted (escape (c ∷ cs) ++ rest) ≡ false
unfolding escape
unquoted c cs rest = elim (Bool-cases (is_special c)) [
  | inl special ↦ rw (special, escape) refl
  | inr plain ↦ rw (plain, escape) (ground arith)
]

read_token-escape :
    (c : ℕ) (cs rest tail : Text)
    → Ends rest tail
    → read_token (escape (c ∷ cs) ++ rest) ≡ some (c ∷ cs, some tail)
unfolding read_token string_tok_esc
read_token-escape c cs rest tail e =
    rw (unquoted c cs rest, read_token) (rw (tok_loop-first c cs rest tail e) refl)

-- A token that is not empty.
abbrev pub IsToken : Text → Type 0
IsToken [] = ⊥
IsToken (c ∷ cs) = Unit

-- The tail behind the first token.
abbrev rest_args : List Text → Text
rest_args [] = []
rest_args (t ∷ ts) = escape t ++ print_args ts

args-Ends : (ts : List Text) → Ends (print_args ts) (rest_args ts)
unfolding print_args
args-Ends [] = at_end
args-Ends (t ∷ ts) = at_space

read_args-print_args :
    (fuel : ℕ) (ts : List Text)
    → All IsToken ts
    → length ts < fuel
    → read_args fuel (rest_args ts) ≡ some ts
unfolding read_args
read_args-print_args zero ts h l = absurd (omega arith)
read_args-print_args (suc fuel) [] h l = unfold read_token string_tok_esc tok_loop in refl
read_args-print_args (suc fuel) ([] ∷ ts) (h, hs) l = absurd h
read_args-print_args (suc fuel) ((c ∷ cs) ∷ ts) (h, hs) l =
    rw (read_token-escape c cs (print_args ts) (rest_args ts) (args-Ends ts), read_args)
      (rw (read_args-print_args fuel ts hs (omega arith)) refl)

escape-length : (c : ℕ) (cs : Text) → 0 < length (escape (c ∷ cs))
unfolding escape
escape-length c cs = elim (Bool-cases (is_special c)) [
  | inl special ↦ rw (special, escape) (omega arith)
  | inr plain ↦ rw (plain, escape) (omega arith)
]

print_args-length : (ts : List Text) → All IsToken ts → length ts ≤ length (print_args ts)
unfolding print_args
print_args-length [] h = omega arith
print_args-length ([] ∷ ts) (h, hs) = absurd h
print_args-length ((c ∷ cs) ∷ ts) (h, hs) =
    omega (arith, length-append (escape (c ∷ cs)) (print_args ts), print_args-length ts hs)

rest_args-length : (ts : List Text) → All IsToken ts → length ts ≤ length (rest_args ts)
rest_args-length [] h = omega arith
rest_args-length ([] ∷ ts) (h, hs) = absurd h
rest_args-length ((c ∷ cs) ∷ ts) (h, hs) = omega (
  arith,
  length-append (escape (c ∷ cs)) (print_args ts),
  print_args-length ts hs,
  escape-length c cs,
)

-- A command line of tokens that are not empty, separated by single spaces and with a backslash
-- before each space, quote and backslash of a token, is parsed to those tokens, the first of them
-- split at its last slash into the directory and the command that is run there.
pub engine_parse_cmd-print_cmd :
    (t : Text) (ts : List Text)
    → IsToken t
    → All IsToken ts
    → (cwd : Text) × (run : Text) × (engine_parse_cmd (print_cmd t ts) ≡ some (cwd, run, run ∷ ts))
      × Splits t cwd run
unfolding engine_parse_cmd print_cmd
engine_parse_cmd-print_cmd [] ts h hs = absurd h
engine_parse_cmd-print_cmd (c ∷ cs) ts h hs = (
  (split_path (c ∷ cs)).0,
  (split_path (c ∷ cs)).1,
  rw (read_token-escape c cs (print_args ts) (rest_args ts) (args-Ends ts), engine_parse_cmd)
      (rw
        (read_args-print_args (suc (length (rest_args ts))) ts hs
          (omega (arith, rest_args-length ts hs)))
        refl),
  split_path-Splits (c ∷ cs),
)
