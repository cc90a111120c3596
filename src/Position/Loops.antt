-- ===== src/Position/Loops.antt =====
-- Double loops over the coordinates whose body writes one cell of the board.
use c_gomoku_cli.Prelude.{
  for_below_inv, for_below, ℕ, zero, suc, ◌≤◌, ◌<◌, ◌≡◌, ◌≢◌, refl, ap, ◌∙◌, ◌==◌, Bool-cases, ==→≡,
  inl, inr, arith,
}
use c_gomoku_cli.Coord.{Color}
use c_gomoku_cli.Position.{Position}

-- The loop keeps `I`; the round at (x, y) writes the cell `t x y`, and no two rounds the same cell.
pub record Writes {ℓ} (I : Position → Type ℓ) (n : ℕ) (t : ℕ → ℕ → ℕ) (w : ℕ → ℕ → Color → Color)
    (body : ℕ → ℕ → Position → Position) : Type ℓ where
  pub keep : (x y : ℕ) (p : Position) → x < n → y < n → I p → I (body x y p)
  pub miss :
      (x y q : ℕ) (p : Position)
      → x < n
      → y < n
      → I p
      → q ≢ t x y
      → (body x y p).board q ≡ p.board q
  pub hit :
      (x y : ℕ) (p : Position)
      → x < n
      → y < n
      → I p
      → (body x y p).board (t x y) ≡ w x y (p.board (t x y))
  pub inj :
      (x y x' y' : ℕ) → x < n → y < n → x' < n → y' < n → t x y ≡ t x' y' → (x ≡ x') × (y ≡ y')

module _ {ℓ} (I : Position → Type ℓ) (n : ℕ) (t : ℕ → ℕ → ℕ) (w : ℕ → ℕ → Color → Color)
    (body : ℕ → ℕ → Position → Position) (writes : Writes I n t w body) where
  open writes use {keep, miss, hit, inj}

  row_keep : (k x : ℕ) (p : Position) → k ≤ n → x < n → I p → I (for_below k (body x) p)
  row_keep k x p hk hx i = for_below_inv I k (body x) (λ y q hy. keep x y q hx (omega arith)) p i

  pub grid_keep :
      (k : ℕ) (p : Position) → k ≤ n → I p → I (for_below k (λ x. for_below n (body x)) p)
  grid_keep k p hk i =
      for_below_inv I k (λ x. for_below n (body x))
        (λ x q hx. row_keep n x q (omega arith) (omega arith)) p i

  row_miss :
      (k x q : ℕ) (p : Position)
      → k ≤ n
      → x < n
      → I p
      → ((y : ℕ) → y < k → q ≢ t x y)
      → (for_below k (body x) p).board q ≡ p.board q
  unfolding for_below
  row_miss zero x q p hk hx i ne = refl
  row_miss (suc k) x q p hk hx i ne =
      miss x k q _ hx (omega arith) (row_keep k x p (omega arith) hx i) (ne k (omega arith))
      ∙ row_miss k x q p (omega arith) hx i (λ y hy. ne y (omega arith))

  row_hit :
      (k x y : ℕ) (p : Position)
      → k ≤ n
      → x < n
      → y < k
      → I p
      → (for_below k (body x) p).board (t x y) ≡ w x y (p.board (t x y))
  unfolding for_below
  row_hit zero x y p hk hx hy i = elim hy [ ]
  row_hit (suc k) x y p hk hx hy i = elim (Bool-cases (y == k)) [
    | inl last ↦
        let e = ==→≡ y k last in
        rw e (
          hit x k _ hx (omega arith) (row_keep k x p (omega arith) hx i)
          ∙ ap (w x k) (
              row_miss k x (t x k) p (omega arith) hx i λ y' hy' same.
                absurd (omega (arith, (inj x k x y' hx (omega arith) hx (omega arith) same).1))))
    | inr early ↦
        miss x k (t x y) _ hx (omega arith) (row_keep k x p (omega arith) hx i)
          (λ same. absurd (ground (arith, (inj x y x k hx (omega arith) hx (omega arith) same).1)))
        ∙ row_hit k x y p (omega arith) hx (ground arith) i
  ]

  pub grid_miss :
      (k q : ℕ) (p : Position)
      → k ≤ n
      → I p
      → ((x y : ℕ) → x < k → y < n → q ≢ t x y)
      → (for_below k (λ x. for_below n (body x)) p).board q ≡ p.board q
  unfolding for_below
  grid_miss zero q p hk i ne = refl
  grid_miss (suc k) q p hk i ne =
      row_miss n k q _ (omega arith) hk (grid_keep k p (omega arith) i)
        (λ y hy. ne k y (omega arith) hy)
      ∙ grid_miss k q p (omega arith) i (λ x y hx hy. ne x y (omega arith) hy)

  pub grid_hit :
      (k x y : ℕ) (p : Position)
      → k ≤ n
      → x < k
      → y < n
      → I p
      → (for_below k (λ x. for_below n (body x)) p).board (t x y) ≡ w x y (p.board (t x y))
  unfolding for_below
  grid_hit zero x y p hk hx hy i = elim hx [ ]
  grid_hit (suc k) x y p hk hx hy i = elim (Bool-cases (x == k)) [
    | inl last ↦
        let e = ==→≡ x k last in
        rw e (
          row_hit n k y _ (omega arith) hk hy (grid_keep k p (omega arith) i)
          ∙ ap (w k y) (
              grid_miss k (t k y) p (omega arith) i λ x' y' hx' hy' same.
                absurd (omega (arith, (inj k y x' y' hk hy (omega arith) hy' same).0))))
    | inr early ↦
        row_miss n k (t x y) _ (omega arith) hk (grid_keep k p (omega arith) i)
          (λ y' hy' same. absurd (ground (arith, (inj x y k y' (omega arith) hy hk hy' same).0)))
        ∙ grid_hit k x y p (omega arith) (ground arith) hy i
  ]
