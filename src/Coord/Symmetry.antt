-- ===== src/Coord/Symmetry.antt =====
-- The eight symmetries of the square act on the cells of the board as maps of coordinates.
use c_gomoku_cli.Prelude.{ℕ, ◌-◌, ◌<◌, ◌≡◌, ap, ◌∙◌, pos, sub_ℕ, ◌-ℤ◌, arith, sym}
use c_gomoku_cli.Coord.{
  TransformType, identity, rotate_90, rotate_180, rotate_270, flip_x, flip_y, flip_xy, flip_yx,
  transform_coords, transform_pos,
}
use c_gomoku_cli.Coord.Cells.{cell, cell-inj, make_pos-cell, coord_x-cell, coord_y-cell}

-- The map of coordinates that the comments of the enumeration name, with s = size - 1.
abbrev pub symmetry : TransformType → ℕ → ℕ × ℕ → ℕ × ℕ
symmetry identity s (x, y) = (x, y)
symmetry rotate_90 s (x, y) = (y, s - x)
symmetry rotate_180 s (x, y) = (s - x, s - y)
symmetry rotate_270 s (x, y) = (s - y, x)
symmetry flip_x s (x, y) = (x, s - y)
symmetry flip_y s (x, y) = (s - x, y)
symmetry flip_xy s (x, y) = (y, x)
symmetry flip_yx s (x, y) = (s - y, s - x)

abbrev pub inverse : TransformType → TransformType
inverse rotate_90 = rotate_270
inverse rotate_270 = rotate_90
inverse identity = identity
inverse rotate_180 = rotate_180
inverse flip_x = flip_x
inverse flip_y = flip_y
inverse flip_xy = flip_xy
inverse flip_yx = flip_yx

abbrev pub OnBoard : ℕ → ℕ × ℕ → Type 0
OnBoard size (x, y) = (x < size) × (y < size)

pub symmetry-OnBoard :
    (t : TransformType) (size : ℕ) (q : ℕ × ℕ)
    → OnBoard size q
    → OnBoard size (symmetry t (size - 1) q)
symmetry-OnBoard identity size (x, y) h = omega arith
symmetry-OnBoard t size (x, y) h = omega arith

pub symmetry-inverse :
    (t : TransformType) (size : ℕ) (q : ℕ × ℕ)
    → OnBoard size q
    → symmetry (inverse t) (size - 1) (symmetry t (size - 1) q) ≡ q
symmetry-inverse identity size (x, y) h = ground arith
symmetry-inverse t size (x, y) h = ground arith

reverse_coord : (size x : ℕ) → x < size → sub_ℕ size 1 -ℤ pos x ≡ pos (size - 1 - x)
reverse_coord size x h = ground arith

abbrev pub cell_at : ℕ × ℕ → ℕ
cell_at (x, y) = cell x y

coords_lem :
    (t : TransformType) (size x y : ℕ)
    → size < 23
    → OnBoard size (x, y)
    → transform_coords t (sub_ℕ size 1) (pos x) (pos y) ≡ cell_at (symmetry t (size - 1) (x, y))
coords_lem identity size x y hs h = make_pos-cell x y (omega arith) (omega arith)
coords_lem rotate_90 size x y hs h =
    rw (reverse_coord size x h.0) (make_pos-cell _ _ (omega arith) (omega arith))
coords_lem rotate_180 size x y hs h =
    rw (reverse_coord size x h.0, reverse_coord size y h.1)
      (make_pos-cell _ _ (omega arith) (omega arith))
coords_lem rotate_270 size x y hs h =
    rw (reverse_coord size y h.1) (make_pos-cell _ _ (omega arith) (omega arith))
coords_lem flip_x size x y hs h =
    rw (reverse_coord size y h.1) (make_pos-cell _ _ (omega arith) (omega arith))
coords_lem flip_y size x y hs h =
    rw (reverse_coord size x h.0) (make_pos-cell _ _ (omega arith) (omega arith))
coords_lem flip_xy size x y hs h = make_pos-cell y x (omega arith) (omega arith)
coords_lem flip_yx size x y hs h =
    rw (reverse_coord size x h.0, reverse_coord size y h.1)
      (make_pos-cell _ _ (omega arith) (omega arith))

pub transform_pos-cell :
    (t : TransformType) (size x y : ℕ)
    → size < 23
    → OnBoard size (x, y)
    → transform_pos (cell x y) size t ≡ cell_at (symmetry t (size - 1) (x, y))
unfolding transform_pos
transform_pos-cell t size x y hs h =
    rw (coord_x-cell x y (omega arith), coord_y-cell x y (omega arith)) (coords_lem t size x y hs h)

cell_at-inj :
    (size : ℕ) (q r : ℕ × ℕ)
    → size < 23
    → OnBoard size q
    → OnBoard size r
    → cell_at q ≡ cell_at r
    → q ≡ r
cell_at-inj size (x, y) (x', y') hs h h' e =
    ground (arith, cell-inj x y x' y' (omega arith) (omega arith) e)

-- A symmetry puts no two cells on the same cell.
pub symmetry-cell-inj :
    (t : TransformType) (size : ℕ) (q r : ℕ × ℕ)
    → size < 23
    → OnBoard size q
    → OnBoard size r
    → cell_at (symmetry t (size - 1) q) ≡ cell_at (symmetry t (size - 1) r)
    → q ≡ r
symmetry-cell-inj t size q r hs h h' e =
    sym (symmetry-inverse t size q h)
    ∙ ap (symmetry (inverse t) (size - 1))
        (cell_at-inj size _ _ hs (symmetry-OnBoard t size q h) (symmetry-OnBoard t size r h') e)
    ∙ symmetry-inverse t size r h'

pub symmetry-inverse_back :
    (t : TransformType) (size : ℕ) (q : ℕ × ℕ)
    → OnBoard size q
    → symmetry t (size - 1) (symmetry (inverse t) (size - 1) q) ≡ q
symmetry-inverse_back identity size (x, y) h = ground arith
symmetry-inverse_back t size (x, y) h = ground arith
