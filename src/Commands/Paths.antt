-- ===== src/Commands/Paths.antt =====
-- The directory of a command.
use c_gomoku_cli.Prelude.{
  ℕ, ◌==◌, ◌≡◌, inl, inr, refl, ap, false, Bool-cases, ==→≡, [], ◌∷◌, ◌++◌, All, Option, none, some,
  codes,
}
use c_gomoku_cli.Text.{Text}
use c_gomoku_cli.Commands.{split_slash, split_path}

-- A path without a slash is run from "./"; one with a slash is cut at its last one.
pub data Splits (t : Text) : Text → Text → Type 0 where
  no_slash : All (λ (c : ℕ). (c == 47) ≡ false) t → Splits t (codes "./") t
  last_slash :
      (dir file : Text)
      → t ≡ dir ++ 47 ∷ file
      → All (λ (c : ℕ). (c == 47) ≡ false) file
      → Splits t dir (codes "./" ++ file)

abbrev SlashCut : Text → Option (Text × Text) → Type 0
SlashCut t none = All (λ (c : ℕ). (c == 47) ≡ false) t
SlashCut t (some (dir, file)) = (t ≡ dir ++ 47 ∷ file) × All (λ (c : ℕ). (c == 47) ≡ false) file

split_slash-cons :
    (c : ℕ) (cs : Text) (o : Option (Text × Text))
    → split_slash cs ≡ o
    → SlashCut cs o
    → SlashCut (c ∷ cs) (split_slash (c ∷ cs))
unfolding split_slash
split_slash-cons c cs (some (dir, file)) e (h, s) = rw (e, split_slash) (ap (λ k. c ∷ k) h, s)
split_slash-cons c cs none e h = elim (Bool-cases (c == 47)) [
  | inl slash ↦ rw (e, split_slash, slash) (ap (λ k. k ∷ cs) (==→≡ c 47 slash), h)
  | inr other ↦ rw (e, split_slash, other) (other, h)
]

split_slash-SlashCut : (t : Text) → SlashCut t (split_slash t)
split_slash-SlashCut [] = unfold split_slash in tt
split_slash-SlashCut (c ∷ cs) =
    split_slash-cons c cs (split_slash cs) refl (split_slash-SlashCut cs)

pub split_path-Splits : (t : Text) → Splits t (split_path t).0 (split_path t).1
unfolding split_path
split_path-Splits t = on (split_slash t) (split_slash-SlashCut t)
  where
    on :
        (o : Option (Text × Text))
        → SlashCut t o
        → Splits t
            (elim o as (λ x. Text × Text) [
              | none ↦ (codes "./", t)
              | some (dir, file) ↦ (dir, codes "./" ++ file)
            ]).0
            (elim o as (λ x. Text × Text) [
              | none ↦ (codes "./", t)
              | some (dir, file) ↦ (dir, codes "./" ++ file)
            ]).1
    on none h = no_slash h
    on (some (dir, file)) h = last_slash dir file h.0 h.1
