-- ===== src/Tokens/Parts.antt =====
-- The parts that string_tok and string_prefix cut a string into.
use c_gomoku_cli.Prelude.{
  ℕ, ◌≡◌, ◌⊎◌, ◌↔◌, inl, inr, refl, sym, ap, ◌∙◌, true, false, Bool, Bool-cases, ◌==◌, ==→≡, ≡→==,
  [], ◌∷◌, ◌++◌, All, none, some,
}
use c_gomoku_cli.Text.{Text}
use c_gomoku_cli.Tokens.{is_delim, skip_delims, span_token, tail_of, string_tok, string_prefix}

module _ (delim : Text) where
  abbrev pub Delims : Text → Type 0
  Delims = All (λ c. is_delim delim c ≡ true)

  abbrev pub NoDelims : Text → Type 0
  NoDelims = All (λ c. is_delim delim c ≡ false)

  -- The string is empty or goes on with a byte outside of, or in, `delim`.
  abbrev pub Starts : Bool → Text → Type 0
  Starts in_delim [] = Unit
  Starts in_delim (c ∷ cs) = is_delim delim c ≡ in_delim

  skip_delims-parts :
      (s : Text)
      → (before : Text) × (s ≡ before ++ skip_delims delim s)
        × Delims before
        × Starts false (skip_delims delim s)
  unfolding skip_delims
  skip_delims-parts [] = ([], refl, tt, tt)
  skip_delims-parts (c ∷ cs) = elim (Bool-cases (is_delim delim c)) [
    | inl e ↦
        let (before, parts, delims, starts) = skip_delims-parts cs in
        rw (e, skip_delims) (c ∷ before, ap (λ s. c ∷ s) parts, (e, delims), starts)
    | inr e ↦ rw (e, skip_delims) ([], refl, tt, e)
  ]

  span_token-parts :
      (s : Text)
      → (s ≡ (span_token delim s).0 ++ (span_token delim s).1)
        × NoDelims (span_token delim s).0
        × Starts true (span_token delim s).1
  unfolding span_token
  span_token-parts [] = (refl, tt, tt)
  span_token-parts (c ∷ cs) = elim (Bool-cases (is_delim delim c)) [
    | inl e ↦ rw (e, span_token) (refl, tt, e)
    | inr e ↦
        let (parts, none_in, starts) = span_token-parts cs in
        rw (e, span_token) (ap (λ s. c ∷ s) parts, (e, none_in), starts)
  ]

-- string_tok cuts a string into delimiters, the token, which has none, and a tail, which is empty or
-- starts with one. The token is empty exactly if the result is null, which else is the tail.
pub string_tok-parts :
    (token s delim : Text)
    → let r = string_tok token (some s) delim in
      (before : Text) × (tail : Text) × (s ≡ before ++ (r.0 ++ tail))
      × Delims delim before
      × NoDelims delim r.0
      × Starts delim true tail
      × ((r.0 ≡ []) ↔ (r.1 ≡ none))
      × ((r.1 ≡ none) ⊎ (r.1 ≡ some tail))
unfolding string_tok
string_tok-parts token s delim =
    let (before, skipped, delims, starts) = skip_delims-parts delim s in
    let s' = skip_delims delim s in
    let (parts, none_in, stops) = span_token-parts delim s' in
    (
      before,
      (span_token delim s').1,
      skipped ∙ ap (λ x. before ++ x) parts,
      delims,
      none_in,
      stops,
      (null (span_token delim s')).0,
      (null (span_token delim s')).1,
    )
  where
    null :
        (p : Text × Text)
        → ((p.0 ≡ []) ↔ (tail_of p ≡ none)) × ((tail_of p ≡ none) ⊎ (tail_of p ≡ some p.1))
    null ([], t) = ((λ h. refl, λ h. refl), inl refl)
    null (c ∷ cs, t) = ((λ h. cc, λ h. cc), inr refl)

cons_eq : (c p : ℕ) (cs ps : Text) → c ≡ p → cs ≡ ps → ◌≡◌ {A = Text} (c ∷ cs) (p ∷ ps)
cons_eq c p cs ps e f i = e i ∷ f i

tails : (c p : ℕ) (cs ps : Text) → ◌≡◌ {A = Text} (c ∷ cs) (p ∷ ps) → cs ≡ ps
tails c p cs ps h = cc

heads : (c p : ℕ) (cs ps : Text) → ◌≡◌ {A = Text} (c ∷ cs) (p ∷ ps) → c ≡ p
heads c p cs ps h = cc

-- string_prefix gives a tail exactly if the string is the prefix followed by that tail.
pub string_prefix_iff :
    (s prefix tail : Text) → (string_prefix s prefix ≡ some tail) ↔ (s ≡ prefix ++ tail)
unfolding string_prefix
string_prefix_iff s [] tail = (λ h. cc, λ h. ap some h)
string_prefix_iff [] (p ∷ ps) tail = (λ h. cc, λ h. cc)
string_prefix_iff (c ∷ cs) (p ∷ ps) tail = elim (Bool-cases (c == p)) [
  | inl e ↦
      let same = ==→≡ c p e in
      let rest = string_prefix_iff cs ps tail in
      rw (e, string_prefix)
        (
          (λ h. cons_eq c p cs (ps ++ tail) same (rest.0 h)),
          (λ h. rest.1 (tails c p cs (ps ++ tail) h)),
        )
  | inr e ↦
      rw (e, string_prefix) ((λ h. cc), (λ h. cc (sym e ∙ ≡→== c p (heads c p cs (ps ++ tail) h))))
]
