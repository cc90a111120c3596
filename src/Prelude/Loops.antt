-- ===== src/Prelude/Loops.antt =====
-- Counted loops.
use Prim.Native.Nat.{ℕ, zero, suc, ◌<◌}
use mathlib.Core.Path.{◌≡◌, refl, ap, ◌∙◌}
use native.Mathlib.Omega.{arith}

-- for (i = 0; i < n; i++) s = body i s.
unfoldable pub for_below {ℓ} : {S : Type ℓ} → ℕ → (ℕ → S → S) → S → S
for_below zero body s = s
for_below (suc n) body s = body n (for_below n body s)

pub for_below_inv {ℓ κ} :
    {S : Type ℓ} (P : S → Type κ) (n : ℕ) (body : ℕ → S → S)
    → ((i : ℕ) (s : S) → i < n → P s → P (body i s))
    → (s : S) → P s
    → P (for_below n body s)
unfolding for_below
for_below_inv P zero body keep s h = h
for_below_inv P (suc n) body keep s h =
    keep n _ (omega arith) (for_below_inv P n body (λ i t lt. keep i t (omega arith)) s h)

pub for_below_ext {ℓ} :
    {S : Type ℓ} (n : ℕ) (b c : ℕ → S → S)
    → ((i : ℕ) (s : S) → i < n → b i s ≡ c i s)
    → (s : S) → for_below n b s ≡ for_below n c s
unfolding for_below
for_below_ext zero b c e s = refl
for_below_ext (suc n) b c e s =
    e n _ (omega arith) ∙ ap (c n) (for_below_ext n b c (λ i t hi. e i t (omega arith)) s)
