-- ===== src/Five/Cover.antt =====
-- The lines that the four loops visit: they cover the board.
use c_gomoku_cli.Prelude.{ℕ, ◌+◌, ◌-◌, ◌*◌, ◌<◌, ◌≡◌, arith, min}
use c_gomoku_cli.Coord.Cells.{cell}
use c_gomoku_cli.Five.Axis.{Axis, column, row, diagonal, antidiagonal, along, IsLine}

-- The number of lines of an axis, and the first cell and the length of line `i`.
abbrev pub lines : Axis → ℕ → ℕ
lines column size = size
lines row size = size
lines diagonal size = size * 2 - 1
lines antidiagonal size = size * 2 - 1

abbrev pub line_x : Axis → ℕ → ℕ → ℕ
line_x column size i = i
line_x row size i = 0
line_x diagonal size i = i - (size - 1)
line_x antidiagonal size i = min i (size - 1)

abbrev pub line_y : Axis → ℕ → ℕ → ℕ
line_y column size i = 0
line_y row size i = i
line_y diagonal size i = size - 1 - i
line_y antidiagonal size i = i - min i (size - 1)

abbrev pub line_n : Axis → ℕ → ℕ → ℕ
line_n column size i = size
line_n row size i = size
line_n diagonal size i = min (i + 1) (2 * size - 1 - i)
line_n antidiagonal size i = min (i + 1) (2 * size - 1 - i)

pub lines-IsLine :
    (ax : Axis) (size i : ℕ)
    → 0 < size
    → i < lines ax size
    → IsLine ax size (line_x ax size i) (line_y ax size i) (line_n ax size i)
lines-IsLine column size i hs hi = omega arith
lines-IsLine row size i hs hi = omega arith
lines-IsLine diagonal size i hs hi = omega arith
lines-IsLine antidiagonal size i hs hi = omega arith

-- Every cell is on some line of each axis.
pub lines_cover :
    (ax : Axis) (size x y : ℕ)
    → x < size
    → y < size
    → (i : ℕ) × (a : ℕ) × (i < lines ax size)
      × (a < line_n ax size i)
      × (along ax (cell (line_x ax size i) (line_y ax size i)) a ≡ cell x y)
unfolding cell
lines_cover column size x y hx hy = (x, y, omega arith, omega arith, omega arith)
lines_cover row size x y hx hy = (y, x, omega arith, omega arith, omega arith)
lines_cover diagonal size x y hx hy =
    (size - 1 + x - y, min x y, omega arith, omega arith, omega arith)
lines_cover antidiagonal size x y hx hy =
    (x + y, min (x + y) (size - 1) - x, omega arith, omega arith, omega arith)

pub cell-column : (x y : ℕ) → cell x y ≡ along column (cell x 0) y
unfolding cell
cell-column x y = omega arith

pub cell-row : (x y : ℕ) → cell x y ≡ along row (cell 0 y) x
unfolding cell
cell-row x y = omega arith
