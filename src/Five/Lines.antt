-- ===== src/Five/Lines.antt =====
-- A loop over lines: the number of fives grows exactly if some line has one.
use c_gomoku_cli.Prelude.{
  for_below, ℕ, zero, suc, ◌<◌, ◌≤◌, ◌⊎◌, ◌↔◌, inl, inr, Bool-cases, ◌==◌, ==→≡, subst, arith,
}
use c_gomoku_cli.Five.{Search}

abbrev pub CountsIf {ℓ} : Type ℓ → Search → Search → Type ℓ
CountsIf M s r = (s.five_count ≤ r.five_count) × ((s.five_count < r.five_count) ↔ M)

grows_somewhere : (a b c : ℕ) → a < c → (a < b) ⊎ (b < c)
grows_somewhere a b c h = omega arith

-- Two searches after one another.
pub CountsIf-trans {ℓ κ} :
    {M : Type ℓ} {N : Type κ} (s r t : Search)
    → CountsIf M s r
    → CountsIf N r t
    → CountsIf (M ⊎ N) s t
CountsIf-trans s r t (le, m) (le', n) = (
  omega arith,
  (
    λ h. elim (grows_somewhere s.five_count r.five_count t.five_count h) [
      | inl a ↦ inl (m.0 a)
      | inr b ↦ inr (n.0 b)
    ],
    elim [ inl a ↦ let grown = m.1 a in omega arith | inr b ↦ let grown = n.1 b in omega arith ],
  ),
)

pub CountsIf-iff {ℓ κ} :
    {M : Type ℓ} {N : Type κ} (s r : Search) → (M ↔ N) → CountsIf M s r → CountsIf N s r
CountsIf-iff s r e (le, m) = (le, (λ h. e.0 (m.0 h), λ h. m.1 (e.1 h)))

module _ {ℓ} (M : ℕ → Type ℓ) (step : ℕ → Search → Search) where
  abbrev Some : ℕ → Type ℓ
  Some m = (i : ℕ) × (i < m) × M i

  Some-suc : (m : ℕ) → (Some m ⊎ M m) ↔ Some (suc m)
  Some-suc m = (
    elim [ inl (i, hi, h) ↦ (i, omega arith, h) | inr h ↦ (m, omega arith, h) ],
    λ (i, hi, h). elim (Bool-cases (i == m)) [
      | inl e ↦ inr (subst M (==→≡ i m e) h)
      | inr e ↦ inl (i, ground arith, h)
    ],
  )

  pub for_lines :
      (m : ℕ)
      → ((i : ℕ) (s : Search) → i < m → CountsIf (M i) s (step i s))
      → (s : Search) → CountsIf (Some m) s (for_below m step s)
  unfolding for_below
  for_lines zero each s =
      (omega arith, (λ h. absurd (omega arith), λ (i, hi, h). absurd (omega arith)))
  for_lines (suc m) each s = CountsIf-iff s (step m (for_below m step s)) (Some-suc m) (
      CountsIf-trans s (for_below m step s) (step m (for_below m step s))
        (for_lines m (λ i t hi. each i t (omega arith)) s)
        (each m (for_below m step s) (omega arith)))
