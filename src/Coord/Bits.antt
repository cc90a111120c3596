-- ===== src/Coord/Bits.antt =====
-- The bitwise or of a shifted color and a cell index, by a table of its values.
use c_gomoku_cli.Prelude.{
  ℕ, zero, suc, ◌*◌, ◌/◌, ◌%◌, ◌<◌, ◌≡◌, refl, Bool, true, ◌&&◌, ◌==◌, ==→≡, bit_or, arith,
}

-- `p` holds at every number below `n`.
holds_below : ℕ → (ℕ → Bool) → Bool
holds_below zero p = true
holds_below (suc n) p = p n && holds_below n p

holds_below_sound : (n : ℕ) (p : ℕ → Bool) (x : ℕ) → holds_below n p ≡ true → x < n → p x ≡ true
unfolding holds_below
holds_below_sound zero p x h lt = absurd (omega arith)
holds_below_sound (suc n) p x h lt = ground (arith, holds_below_sound n p x)

or_table : holds_below 4096 (λ m. bit_or (m / 1024 * 1024) (m % 1024) == m) ≡ true
unfolding holds_below
or_table = refl

pub bit_or-color : (m : ℕ) → m < 4096 → bit_or (m / 1024 * 1024) (m % 1024) ≡ m
bit_or-color m h =
    ==→≡ (bit_or (m / 1024 * 1024) (m % 1024)) m
      (holds_below_sound 4096 (λ k. bit_or (k / 1024 * 1024) (k % 1024) == k) m or_table h)
