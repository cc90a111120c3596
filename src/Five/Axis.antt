-- ===== src/Five/Axis.antt =====
-- Lines in the flat array: the neighbours of a cell along an axis differ by 1, 32, 33 or 31.
use c_gomoku_cli.Prelude.{ℕ, suc, ◌+◌, ◌-◌, ◌*◌, ◌<◌, ◌≤◌, ◌≡◌, ◌⊎◌, arith}
use c_gomoku_cli.Coord.Cells.{cell}
use c_gomoku_cli.Position.Validity.{IsCell}

-- The direction in which a loop of the search walks.
pub data Axis : Type 0 where
  column row diagonal antidiagonal : Axis

-- The cell `j` steps on.
abbrev pub along : Axis → ℕ → ℕ → ℕ
along column q j = q + j
along row q j = q + 32 * j
along diagonal q j = q + 33 * j
along antidiagonal q j = q - 31 * j

-- The cell one step back.
abbrev pub behind : Axis → ℕ → ℕ
behind column q = q - 1
behind row q = q - 32
behind diagonal q = q - 33
behind antidiagonal q = q + 31

-- `n` cells from (x, y) on lie on the board, and the cells before and after them do not.
abbrev pub IsLine : Axis → ℕ → ℕ → ℕ → ℕ → Type 0
IsLine column size x y n = (x < size) × (y ≡ 0) × (n ≡ size)
IsLine row size x y n = (y < size) × (x ≡ 0) × (n ≡ size)
IsLine diagonal size x y n =
    (0 < n)
    × (x + n ≤ size)
    × (y + n ≤ size)
    × ((x ≡ 0) ⊎ (y ≡ 0))
    × ((x + n ≡ size) ⊎ (y + n ≡ size))
IsLine antidiagonal size x y n =
    (0 < n)
    × (n ≤ x + 1)
    × (x < size)
    × (y + n ≤ size)
    × ((x + 1 ≡ size) ⊎ (y ≡ 0))
    × ((n ≡ x + 1) ⊎ (y + n ≡ size))

module _ (size x y n : ℕ) (hs : size ≤ 22) (pos_size : 0 < size) where
  pub line-IsCell :
      (ax : Axis) (a : ℕ) → IsLine ax size x y n → a < n → IsCell size (along ax (cell x y) a)
  unfolding cell
  line-IsCell column a l h = (x, y + a, omega arith, omega arith, omega arith)
  line-IsCell row a l h = (x + a, y, omega arith, omega arith, omega arith)
  line-IsCell diagonal a l h = (x + a, y + a, omega arith, omega arith, omega arith)
  line-IsCell antidiagonal a l h = (x - a, y + a, omega arith, omega arith, omega arith)

  abbrev IsWall : ℕ → Type 0
  IsWall q = (q < 1024) × (¬ IsCell size q)

  pub line_end : (ax : Axis) → IsLine ax size x y n → IsWall (along ax (cell x y) n)
  unfolding cell
  line_end column l = (omega arith, λ (u, v, hu, hv, e). omega arith)
  line_end row l = (omega arith, λ (u, v, hu, hv, e). omega arith)
  line_end diagonal l = (omega arith, λ (u, v, hu, hv, e). omega arith)
  line_end antidiagonal l = (omega arith, λ (u, v, hu, hv, e). omega arith)

  pub line_start : (ax : Axis) → IsLine ax size x y n → IsWall (behind ax (cell x y))
  unfolding cell
  line_start column l = (omega arith, λ (u, v, hu, hv, e). omega arith)
  line_start row l = (omega arith, λ (u, v, hu, hv, e). omega arith)
  line_start diagonal l = (omega arith, λ (u, v, hu, hv, e). omega arith)
  line_start antidiagonal l = (omega arith, λ (u, v, hu, hv, e). omega arith)

  pub behind-along :
      (ax : Axis) (b : ℕ)
      → IsLine ax size x y n
      → suc b ≤ n
      → behind ax (along ax (cell x y) (suc b)) ≡ along ax (cell x y) b
  unfolding cell
  behind-along column b l h = omega arith
  behind-along row b l h = omega arith
  behind-along diagonal b l h = omega arith
  behind-along antidiagonal b l h = omega arith

pub along-along : (ax : Axis) (q a j : ℕ) → along ax (along ax q a) j ≡ along ax q (a + j)
along-along column q a j = omega arith
along-along row q a j = omega arith
along-along diagonal q a j = omega arith
along-along antidiagonal q a j = omega arith

pub along-zero : (ax : Axis) (q : ℕ) → along ax q 0 ≡ q
along-zero column q = omega arith
along-zero row q = omega arith
along-zero diagonal q = omega arith
along-zero antidiagonal q = omega arith
