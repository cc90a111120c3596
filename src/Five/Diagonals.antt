-- ===== src/Five/Diagonals.antt =====
-- The while loops of the search visit the cells of their line and stop at the wall behind it.
use c_gomoku_cli.Prelude.{
  for_below, ℕ, zero, suc, ◌+◌, ◌<◌, ◌≤◌, ◌≡◌, refl, ap, ◌∙◌, true, false, Bool, arith, ℤ, pos,
  sub_ℕ, ◌+ℤ◌, ◌-ℤ◌,
}
use c_gomoku_cli.Coord.{Color, make_pos}
use c_gomoku_cli.Coord.Cells.{cell, make_pos-cell}
use c_gomoku_cli.Position.{Position, is_in_board}
use c_gomoku_cli.Position.Validity.{IsCell, IsValid}
use c_gomoku_cli.Five.{Search, scan_cell, at_cell, scan_down, scan_up}
use c_gomoku_cli.Five.Axis.{Axis, diagonal, antidiagonal, along, IsLine, line-IsCell, line_end}

scan_ext :
    (g : ℤ → ℤ → Search → Search) {i i' j j' : ℤ} {s s' : Search}
    → i ≡ i'
    → j ≡ j'
    → s ≡ s'
    → g i j s ≡ g i' j' s'
scan_ext g ei ej es = cc

one_on : (x a : ℕ) → pos (x + a) +ℤ pos 1 ≡ pos (x + suc a)
one_on x a = ground arith

one_back : (x a : ℕ) → sub_ℕ x a -ℤ pos 1 ≡ sub_ℕ x (suc a)
one_back x a = ground arith

omega_pos : (x : ℕ) → pos x ≡ pos (x + 0)
omega_pos x = ground arith

sub_zero : (x : ℕ) → pos x ≡ sub_ℕ x 0
sub_zero x = ground arith

module _ (p : Position) (v : IsValid p) where
  pub is_in_board-cell : (q : ℕ) → IsCell p.board_size q → is_in_board p q ≡ true
  unfolding is_in_board
  is_in_board-cell q c = ground (arith, v.inside q c)

  pub is_in_board-wall : (q : ℕ) → q < 1024 → ¬ IsCell p.board_size q → is_in_board p q ≡ false
  unfolding is_in_board
  is_in_board-wall q hq out = ground (arith, v.outside q hq out)

  module _ (side : Color) (allow : Bool) (x y n : ℕ) where
    -- The rounds of a line, in the flat array.
    abbrev pub visit : Axis → ℕ → Search → Search
    visit ax a = scan_cell p.board side allow (along ax (cell x y) a)

    scan_down_stop :
        (fuel : ℕ) (i j : ℤ) (s : Search)
        → is_in_board p (make_pos i j) ≡ false
        → scan_down p side allow (suc fuel) i j s ≡ s
    unfolding scan_down
    scan_down_stop fuel i j s h = rw (h, scan_down)

    scan_down_go :
        (fuel : ℕ) (i j : ℤ) (s : Search)
        → is_in_board p (make_pos i j) ≡ true
        → scan_down p side allow (suc fuel) i j s
          ≡ scan_down p side allow fuel (i +ℤ pos 1) (j +ℤ pos 1) (at_cell p side allow i j s)
    unfolding scan_down
    scan_down_go fuel i j s h = rw (h, scan_down)

    down_cell :
        IsLine diagonal p.board_size x y n
        → (a : ℕ) → a ≤ n
        → make_pos (pos (x + a)) (pos (y + a)) ≡ along diagonal (cell x y) a
    unfolding cell
    down_cell l a h =
        make_pos-cell (x + a) (y + a) (omega (arith, v.size_le)) (omega (arith, v.size_le))
        ∙ omega arith

    -- From the cell `a` of the line on, the loop visits the rest of the line.
    scan_down_rest :
        (l : IsLine diagonal p.board_size x y n) (m a fuel : ℕ) (s : Search)
        → a + m ≡ n
        → m < fuel
        → scan_down p side allow fuel (pos (x + a)) (pos (y + a)) (for_below a (visit diagonal) s)
          ≡ for_below n (visit diagonal) s
    unfolding for_below
    scan_down_rest l m a zero s e hf = elim hf [ ]
    scan_down_rest l zero a (suc fuel) s e hf =
        let (lt, out) = line_end p.board_size x y n v.size_le v.size_pos diagonal l in
        let stop : a ≡ n = omega arith in
        scan_down_stop fuel (pos (x + a)) (pos (y + a)) _
          (rw (down_cell l a (omega arith), stop) (is_in_board-wall _ lt out))
        ∙ ap (λ k. for_below k (visit diagonal) s) stop
    scan_down_rest l (suc m) a (suc fuel) s e hf =
        scan_down_go fuel (pos (x + a)) (pos (y + a)) _ (
          rw (down_cell l a (omega arith)) (
            is_in_board-cell _
              (line-IsCell p.board_size x y n v.size_le v.size_pos diagonal a l (omega arith))))
        ∙ scan_ext (scan_down p side allow fuel) (one_on x a) (one_on y a) (
            ap (λ q. scan_cell p.board side allow q (for_below a (visit diagonal) s))
              (down_cell l a (omega arith)))
        ∙ scan_down_rest l m (suc a) fuel s (omega arith) (omega arith)

    scan_up_stop :
        (fuel : ℕ) (i j : ℤ) (s : Search)
        → is_in_board p (make_pos i j) ≡ false
        → scan_up p side allow (suc fuel) i j s ≡ s
    unfolding scan_up
    scan_up_stop fuel i j s h = rw (h, scan_up)

    scan_up_go :
        (fuel : ℕ) (i j : ℤ) (s : Search)
        → is_in_board p (make_pos i j) ≡ true
        → scan_up p side allow (suc fuel) i j s
          ≡ scan_up p side allow fuel (i -ℤ pos 1) (j +ℤ pos 1) (at_cell p side allow i j s)
    unfolding scan_up
    scan_up_go fuel i j s h = rw (h, scan_up)

    -- The column -1, where the loop may end, is read through the wrap-around of uint8_t.
    up_cell :
        IsLine antidiagonal p.board_size x y n
        → (a : ℕ) → a ≤ n
        → make_pos (sub_ℕ x a) (pos (y + a)) ≡ along antidiagonal (cell x y) a
    unfolding cell make_pos
    up_cell l a h = ground (arith, v.size_le)

    scan_up_rest :
        (l : IsLine antidiagonal p.board_size x y n) (m a fuel : ℕ) (s : Search)
        → a + m ≡ n
        → m < fuel
        → scan_up p side allow fuel (sub_ℕ x a) (pos (y + a)) (for_below a (visit antidiagonal) s)
          ≡ for_below n (visit antidiagonal) s
    unfolding for_below
    scan_up_rest l m a zero s e hf = elim hf [ ]
    scan_up_rest l zero a (suc fuel) s e hf =
        let (lt, out) = line_end p.board_size x y n v.size_le v.size_pos antidiagonal l in
        let stop : a ≡ n = omega arith in
        scan_up_stop fuel (sub_ℕ x a) (pos (y + a)) _ (
          ap (is_in_board p) (up_cell l a (omega arith) ∙ ap (along antidiagonal (cell x y)) stop)
          ∙ is_in_board-wall _ lt out)
        ∙ ap (λ k. for_below k (visit antidiagonal) s) stop
    scan_up_rest l (suc m) a (suc fuel) s e hf =
        scan_up_go fuel (sub_ℕ x a) (pos (y + a)) _ (
          ap (is_in_board p) (up_cell l a (omega arith))
          ∙ is_in_board-cell _
              (line-IsCell p.board_size x y n v.size_le v.size_pos antidiagonal a l (omega arith)))
        ∙ scan_ext (scan_up p side allow fuel) (one_back x a) (one_on y a) (
            ap (λ q. scan_cell p.board side allow q (for_below a (visit antidiagonal) s))
              (up_cell l a (omega arith)))
        ∙ scan_up_rest l m (suc a) fuel s (omega arith) (omega arith)

    -- The whole loop, from the first cell of the line.
    pub scan_down-line :
        (i j : ℤ) (fuel : ℕ) (s : Search)
        → IsLine diagonal p.board_size x y n
        → i ≡ pos x
        → j ≡ pos y
        → n < fuel
        → scan_down p side allow fuel i j s ≡ for_below n (visit diagonal) s
    unfolding for_below
    scan_down-line i j fuel s l ei ej hf =
        scan_ext (scan_down p side allow fuel) (ei ∙ omega_pos x) (ej ∙ omega_pos y) refl
        ∙ scan_down_rest l n 0 fuel s (omega arith) hf

    pub scan_up-line :
        (i j : ℤ) (fuel : ℕ) (s : Search)
        → IsLine antidiagonal p.board_size x y n
        → i ≡ pos x
        → j ≡ pos y
        → n < fuel
        → scan_up p side allow fuel i j s ≡ for_below n (visit antidiagonal) s
    unfolding for_below
    scan_up-line i j fuel s l ei ej hf =
        scan_ext (scan_up p side allow fuel) (ei ∙ sub_zero x) (ej ∙ omega_pos y) refl
        ∙ scan_up_rest l n 0 fuel s (omega arith) hf
