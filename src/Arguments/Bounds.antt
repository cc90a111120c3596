-- ===== src/Arguments/Bounds.antt =====
-- The tokens behind an option leave the board size alone.
use c_gomoku_cli.Prelude.{
  ◌≤◌, ◌≡◌, inl, inr, refl, sym, ap, ◌∙◌, subst, if◌then◌else◌, Bool, true, false, Bool-cases, List,
  [], ◌∷◌, length, All, Option, none, some, Option-cases, some-inv, none-ne-some, arith, ℤ, codes,
}
use c_gomoku_cli.Text.{Text}
use c_gomoku_cli.Tokens.{string_prefix}
use c_gomoku_cli.Arguments.{same_text, Options}
use c_gomoku_cli.Arguments.Engines.{
  is_option, by_prefix, parse_tokens, openings_prefixes, sprt_prefixes, sample_prefixes,
  openings_token, sprt_token, sample_format_of, sample_token,
}

-- The values that one of the functions gives all satisfy the predicate.
abbrev Gives : {A : Type 0} → (A → Type 0) → (Text → Option A) → Type 0
Gives {A} P f = (tail : Text) (b : A) → f tail ≡ some b → P b

by_prefix-keeps :
    {A : Type 0} (P : A → Type 0) (ps : List (Text × (Text → Option A)))
    → All (λ (p : Text × (Text → Option A)). Gives P p.1) ps
    → Gives P (by_prefix ps)
unfolding by_prefix
by_prefix-keeps P [] h s b e = absurd (none-ne-some e)
by_prefix-keeps P ((p, f) ∷ ps) (h, hs) s b e = elim (Option-cases (string_prefix s p)) [
  | inl other ↦ by_prefix-keeps P ps hs s b (rw (other, by_prefix) at e)
  | inr (tail, fits) ↦ h tail b (rw (fits, by_prefix) at e)
]

-- A parser's value satisfies the predicate, and it leaves no more arguments than it was given.
abbrev pub Leaves : {A : Type 0} → (A → Type 0) → List Text → Option (A × List Text) → Type 0
Leaves {A} P ts r =
    (b : A) (rest : List Text) → r ≡ some (b, rest) → P b × (length rest ≤ length ts)

pub parse_tokens-Leaves :
    {A : Type 0} (P : A → Type 0) (f : Text → A → Option A)
    → ((t : Text) (a : A) → P a → (b : A) → f t a ≡ some b → P b)
    → (ts : List Text) (a : A) → P a
    → Leaves P ts (parse_tokens f ts a)
unfolding parse_tokens
parse_tokens-Leaves {A} P f keep [] a h b rest e =
    let same = some-inv e in
    (subst P (ap (λ r. r.0) same) h, omega (arith, ap (λ (r : A × List Text). length r.1) same))
parse_tokens-Leaves {A} P f keep (t ∷ ts) a h b rest e = elim (Bool-cases (is_option t)) [
  | inl option ↦
      let same = some-inv (rw (option, parse_tokens) at e) in
      (subst P (ap (λ r. r.0) same) h, omega (arith, ap (λ (r : A × List Text). length r.1) same))
  | inr token ↦ elim (Option-cases (f t a)) [
    | inl dies ↦ absurd (none-ne-some (rw (token, parse_tokens, dies) at e))
    | inr (c, gives) ↦
        let more =
          parse_tokens-Leaves P f keep ts c (keep t a h c gives) b rest
            (rw (token, parse_tokens, gives) at e) in
        (more.0, omega (arith, more.1))
  ]
]

abbrev pub Sized : ℤ → Options → Type 0
Sized n o = o.board_size ≡ n

same_size :
    (n : ℤ) (o p : Options) → o.board_size ≡ n → o.board_size ≡ p.board_size → p.board_size ≡ n
same_size n o p h e = sym e ∙ h

-- A function that changes other fields only.
keeps :
    (n : ℤ) (o : Options) (f : Text → Options)
    → ((t : Text) → (f t).board_size ≡ o.board_size)
    → Sized n o
    → Gives (Sized n) (λ tail. some (f tail))
keeps n o f same h tail b e = sym (ap (λ p. p.board_size) (some-inv e)) ∙ same tail ∙ h

keeps_if :
    (n : ℤ) (c : Bool) (x y : Option Options)
    → ((b : Options) → x ≡ some b → Sized n b)
    → ((b : Options) → y ≡ some b → Sized n b)
    → (b : Options) → (if c then x else y) ≡ some b
    → Sized n b
keeps_if n true x y hx hy b e = hx b e
keeps_if n false x y hx hy b e = hy b e

keeps_some : (n : ℤ) (o : Options) → Sized n o → (b : Options) → some o ≡ some b → Sized n b
keeps_some n o h b e = sym (ap (λ p. p.board_size) (some-inv e)) ∙ h

keeps_none : (n : ℤ) (b : Options) → none ≡ some b → Sized n b
keeps_none n b e = absurd (none-ne-some e)

pub openings_token-Sized :
    (n : ℤ) (t : Text) (o : Options)
    → Sized n o
    → (b : Options) → openings_token t o ≡ some b
    → Sized n b
unfolding openings_token
openings_token-Sized n t o h b e =
    by_prefix-keeps (Sized n) (openings_prefixes o)
      (
        keeps n o _ (λ k. refl) h,
        (
          λ tail c.
              keeps_if n (same_text tail (codes "pos")) _ _ (keeps_some n _ h)
                (keeps_if n (same_text tail (codes "offset")) _ _ (keeps_some n _ h) (keeps_none n))
                c,
          (
            λ tail c.
                keeps_if n (same_text tail (codes "random")) _ _ (keeps_some n _ h)
                  (keeps_if n (same_text tail (codes "sequential")) _ _ (keeps_some n _ h)
                    (keeps_none n))
                  c,
            (keeps n o _ (λ k. refl) h, tt),
          ),
        ),
      )
      t b e

pub sprt_token-Sized :
    (n : ℤ) (t : Text) (o : Options)
    → Sized n o
    → (b : Options) → sprt_token t o ≡ some b
    → Sized n b
unfolding sprt_token
sprt_token-Sized n t o h b e =
    by_prefix-keeps (Sized n) (sprt_prefixes o)
      (
        keeps n o _ (λ k. refl) h,
        (keeps n o _ (λ k. refl) h, (keeps n o _ (λ k. refl) h, (keeps n o _ (λ k. refl) h, tt))),
      )
      t b e

sample_format_of-Sized :
    (n : ℤ) (tail : Text) (o : Options)
    → Sized n o
    → (b : Options) → sample_format_of tail o ≡ some b
    → Sized n b
sample_format_of-Sized n tail o h =
    keeps_if n (same_text tail (codes "csv")) _ _ (keeps_some n _ h) (
      keeps_if n (same_text tail (codes "bin")) _ _ (keeps_some n _ h) (
        keeps_if n (same_text tail (codes "bin_lz4")) _ _ (keeps_some n _ h) (
          keeps_if n (same_text tail (codes "binpack")) _ _ (keeps_some n _ h) (
            keeps_if n (same_text tail (codes "binpack_lz4")) _ _ (keeps_some n _ h)
              (keeps_none n)))))

pub sample_token-Sized :
    (n : ℤ) (t : Text) (o : Options)
    → Sized n o
    → (b : Options) → sample_token t o ≡ some b
    → Sized n b
unfolding sample_token
sample_token-Sized n t o h b e =
    by_prefix-keeps (Sized n) (sample_prefixes o)
      (
        keeps n o _ (λ k. refl) h,
        (keeps n o _ (λ k. refl) h, (λ tail c. sample_format_of-Sized n tail o h c, tt)),
      )
      t b e
