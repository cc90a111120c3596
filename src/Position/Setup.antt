-- ===== src/Position/Setup.antt =====
-- A fresh board, and how the walls are told from the cells.
use c_gomoku_cli.Prelude.{
  ℕ, ◌-◌, ◌/◌, ◌%◌, ◌<◌, ◌≤◌, ◌≡◌, ◌⊎◌, inl, inr, refl, sym, ◌∙◌, true, Bool-cases, arith, lt→ltb,
}
use c_gomoku_cli.Coord.{empty, wall, coord_x, coord_y}
use c_gomoku_cli.Coord.Cells.{cell, cell-lt, coord_x-cell, coord_y-cell}
use c_gomoku_cli.Position.{Position, on_board, init_board}
use c_gomoku_cli.Position.Validity.{IsCell, IsValid, Replays}

pub on_board-cell :
    (size x y : ℕ) → size < 23 → x < size → y < size → on_board size (cell x y) ≡ true
on_board-cell size x y hs hx hy =
    rw (coord_x-cell x y (omega arith), coord_y-cell x y (omega arith)) (ground arith)

pub on_board-IsCell : (size q : ℕ) → on_board size q ≡ true → IsCell size q
unfolding coord_x coord_y cell
on_board-IsCell size q h = (q / 32 - 5, q % 32 - 5, ground arith, ground arith, ground arith)

pub IsCell-on_board : (size q : ℕ) → size < 23 → IsCell size q → on_board size q ≡ true
IsCell-on_board size q hs (x, y, hx, hy, e) = rw e (on_board-cell size x y hs hx hy)

pub IsCell-cases : (size q : ℕ) → size < 23 → IsCell size q ⊎ (¬ IsCell size q)
IsCell-cases size q hs = elim (Bool-cases (on_board size q)) [
  | inl on ↦ inl (on_board-IsCell size q on)
  | inr off ↦ inr (λ c. cc (sym off ∙ IsCell-on_board size q hs c))
]

pub IsCell-lt : (size q : ℕ) → size < 23 → IsCell size q → q < 1024
IsCell-lt size q hs (x, y, hx, hy, e) = omega (arith, e, cell-lt x y (omega arith) (omega arith))

pub init_board-inside :
    (p : Position) (size q : ℕ) → size < 23 → IsCell size q → (init_board p size).board q ≡ empty
unfolding init_board
init_board-inside p size q hs c =
    rw (lt→ltb q 1024 (IsCell-lt size q hs c), IsCell-on_board size q hs c)

pub init_board-outside :
    (p : Position) (size q : ℕ)
    → size < 23
    → q < 1024
    → ¬ IsCell size q
    → (init_board p size).board q ≡ wall
unfolding init_board
init_board-outside p size q hs hq out = elim (Bool-cases (on_board size q)) [
  | inl on ↦ absurd (out (on_board-IsCell size q on))
  | inr off ↦ rw (lt→ltb q 1024 hq, off)
]

-- A board of a size that the program admits is valid after initBoard, whatever the object held.
pub init_board-IsValid :
    (p : Position) (size : ℕ) → 0 < size → size ≤ 22 → IsValid (init_board p size)
init_board-IsValid p size h1 h2 = record {
  size_pos = unfold init_board in h1;
  size_le = unfold init_board in h2;
  size_sqr = unfold init_board in refl;
  inside =
      λ q c e. cc (sym (init_board-inside p size q (omega arith) (unfold init_board in c)) ∙ e);
  outside = λ q hq out. init_board-outside p size q (omega arith) hq (unfold init_board in out);
}

pub init_board-Replays : (p : Position) (size : ℕ) → size ≤ 22 → Replays (init_board p size)
init_board-Replays p size h2 = record {
  turn = unfold init_board in refl;
  on_cell = λ i hi. absurd (unfold init_board in omega arith);
  coloured = λ i hi. absurd (unfold init_board in omega arith);
  stone = λ i hi. absurd (unfold init_board in omega arith);
  distinct = λ i j hi hj. absurd (unfold init_board in omega arith);
  covered = λ q c. inl (init_board-inside p size q (omega arith) (unfold init_board in c));
}
