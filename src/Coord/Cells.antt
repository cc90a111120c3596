-- ===== src/Coord/Cells.antt =====
-- Cell indexes of the coordinates on the board.
use c_gomoku_cli.Prelude.{ℕ, ◌+◌, ◌*◌, ◌<◌, ◌≡◌, pos, arith}
use c_gomoku_cli.Coord.{make_pos, coord_x, coord_y}

-- The index of the cell at column `x` and row `y`.
unfoldable pub cell : ℕ → ℕ → ℕ
cell x y = (x + 5) * 32 + (y + 5)

pub cell-inj : (x y x' y' : ℕ) → y < 27 → y' < 27 → cell x y ≡ cell x' y' → (x ≡ x') × (y ≡ y')
unfolding cell
cell-inj x y x' y' hy hy' e = omega arith

pub cell-lt : (x y : ℕ) → x < 22 → y < 22 → cell x y < 1024
unfolding cell
cell-lt x y hx hy = omega arith

pub make_pos-cell : (x y : ℕ) → x < 27 → y < 27 → make_pos (pos x) (pos y) ≡ cell x y
unfolding make_pos cell
make_pos-cell x y hx hy = omega arith

pub coord_x-cell : (x y : ℕ) → y < 27 → coord_x (cell x y) ≡ pos x
unfolding coord_x cell
coord_x-cell x y hy = ground arith

pub coord_y-cell : (x y : ℕ) → y < 27 → coord_y (cell x y) ≡ pos y
unfolding coord_y cell
coord_y-cell x y hy = ground arith
