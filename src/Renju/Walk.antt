-- ===== src/Renju/Walk.antt =====
-- The loop that isFour, isOpenFour and isOpenThree share.
use c_gomoku_cli.Prelude.{ℕ, zero, suc, ◌+◌, ◌<◌, ◌≤◌, ◌≡◌, inl, inr, true, Bool-cases, arith}
use c_gomoku_cli.Coord.{Color, empty}
use c_gomoku_cli.Position.{color_eq}
use c_gomoku_cli.Renju.{Board, probe}

pub color_eq→≡ : (a b : Color) → color_eq a b ≡ true → a ≡ b
color_eq→≡ a b h = ground arith

pub ≡→color_eq : (a b : Color) → a ≡ b → color_eq a b ≡ true
≡→color_eq a b h = ground arith

module _ {ℓ κ} {S : Type ℓ} (P : S → Type κ) (b : Board) (piece : Color) (at : ℕ → ℕ)
    (stone : S → S) (last : ℕ → S → S) (keep : (s : S) → P s → P (stone s)) where
  -- What the steps of the loop keep, where the last step may use that its cell is empty.
  pub probe_inv :
      (n i : ℕ) (s : S)
      → ((k : ℕ) (s : S) → i ≤ k → k < i + n → b (at k) ≡ empty → P s → P (last (at k) s))
      → P s
      → P (probe b piece at stone last n i s).1
  unfolding probe
  probe_inv zero i s end h = h
  probe_inv (suc n) i s end h = elim (Bool-cases (color_eq (b (at i)) piece)) [
    | inl e ↦
        rw (e, probe)
          (probe_inv n (i + 1) (stone s) (λ k s l u. end k s (omega arith) (omega arith))
            (keep s h))
    | inr e ↦
        rw (e, probe)
          (elim (Bool-cases (color_eq (b (at i)) empty)) [
            | inl free ↦ rw free (end i s (omega arith) (omega arith) (color_eq→≡ _ _ free) h)
            | inr other ↦ rw other h
          ])
  ]
