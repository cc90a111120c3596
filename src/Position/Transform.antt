-- ===== src/Position/Transform.antt =====
-- Position::transform carries every stone, and the history, along the symmetry.
use c_gomoku_cli.Prelude.{
  for_below, ℕ, ◌-◌, ◌<◌, ◌≤◌, ◌≡◌, inl, inr, refl, ap, ◌∙◌, Bool-cases, true, arith, pos,
  if◌then◌else◌,
}
use c_gomoku_cli.Coord.{Color, empty, make_pos, transform_pos, TransformType}
use c_gomoku_cli.Coord.Cells.{cell, cell-inj, make_pos-cell}
use c_gomoku_cli.Coord.Symmetry.{
  symmetry, symmetry-OnBoard, transform_pos-cell, cell_at, symmetry-cell-inj,
}
use c_gomoku_cli.Position.{
  Position, color_eq, clear_cell, place_cell, transform_board, set_piece, del_piece,
}
use c_gomoku_cli.Position.Validity.{IsCell}
use c_gomoku_cli.Position.Loops.{Writes, grid_hit, grid_miss, grid_keep}

-- Only the board differs.
abbrev pub SameFrame : Position → Position → Type 0
SameFrame p q = q ≡ record p { board = q.board }

frame_step : (p q : Position) (b : ℕ → Color) → SameFrame p q → SameFrame p (record q { board = b })
frame_step p q b i = ap {A = Position} {B = Position} (λ s. record s { board = b }) i

color_eq→≡ : (a b : Color) → color_eq a b ≡ true → a ≡ b
color_eq→≡ a b h = ground arith

module _ (p : Position) (t : TransformType) (hs : p.board_size ≤ 22) where
  abbrev n : ℕ
  n = p.board_size

  abbrev target : ℕ → ℕ → ℕ
  target x y = cell_at (symmetry t (n - 1) (x, y))

  target_lem :
      (x y : ℕ) (q : Position)
      → x < n
      → y < n
      → SameFrame p q
      → transform_pos (cell x y) q.board_size t ≡ target x y
  target_lem x y q hx hy i =
      ap (λ s. transform_pos (cell x y) s.board_size t) i
      ∙ transform_pos-cell t n x y (omega arith) (hx, hy)

  pub target-IsCell : (x y : ℕ) → x < n → y < n → IsCell n (target x y)
  target-IsCell x y hx hy =
      let (hx', hy') = symmetry-OnBoard t n (x, y) (hx, hy) in
      ((symmetry t (n - 1) (x, y)).0, (symmetry t (n - 1) (x, y)).1, hx', hy', refl)

  clear-Writes : Writes (SameFrame p) n cell (λ x y c. empty) clear_cell
  unfolding del_piece
  clear-Writes = record {
    keep = λ x y q hx hy i.
        elim (Bool-cases (color_eq (q.board (make_pos (pos x) (pos y))) empty)) [
          | inl e ↦ rw e i
          | inr e ↦ rw e (frame_step p q _ i)
        ];
    miss = λ x y r q hx hy i ne. ground (arith, make_pos-cell x y (omega arith) (omega arith));
    hit = λ x y q hx hy i. ground (
      arith,
      make_pos-cell x y (omega arith) (omega arith),
      color_eq→≡ (q.board (cell x y)) empty,
    );
    inj = λ x y x' y' hx hy hx' hy' e. cell-inj x y x' y' (omega arith) (omega arith) e;
  }

  place-Writes :
      (b : ℕ → Color)
      → Writes
          (SameFrame p)
          n
          target
          (λ x y c. if color_eq (b (cell x y)) empty then c else b (cell x y))
          (place_cell t b)
  unfolding set_piece
  place-Writes b = record {
    keep = λ x y q hx hy i. elim (Bool-cases (color_eq (b (make_pos (pos x) (pos y))) empty)) [
      | inl e ↦ rw e i
      | inr e ↦ rw e (frame_step p q _ i)
    ];
    miss = λ x y r q hx hy i ne.
        rw (make_pos-cell x y (omega arith) (omega arith), target_lem x y q hx hy i) (ground arith);
    hit = λ x y q hx hy i.
        rw (make_pos-cell x y (omega arith) (omega arith), target_lem x y q hx hy i) (ground arith);
    inj = λ x y x' y' hx hy hx' hy' e.
        let same = symmetry-cell-inj t n (x, y) (x', y') (omega arith) (hx, hy) (hx', hy') e in
        (ap (λ q. q.0) same, ap (λ q. q.1) same);
  }

  cleared : Position
  cleared = for_below n (λ x. for_below n (clear_cell x)) p

  cleared_frame : SameFrame p cleared
  unfolding cleared
  cleared_frame =
      grid_keep (SameFrame p) n cell (λ x y c. empty) clear_cell clear-Writes n p (omega arith) refl

  cleared_cell : (x y : ℕ) → x < n → y < n → cleared.board (cell x y) ≡ empty
  unfolding cleared
  cleared_cell x y hx hy =
      grid_hit (SameFrame p) n cell (λ x y c. empty) clear_cell clear-Writes n x y p (omega arith)
        hx hy refl

  cleared_target : (x y : ℕ) → x < n → y < n → cleared.board (target x y) ≡ empty
  cleared_target x y hx hy =
      let (hx', hy') = symmetry-OnBoard t n (x, y) (hx, hy) in
      cleared_cell (symmetry t (n - 1) (x, y)).0 (symmetry t (n - 1) (x, y)).1 hx' hy'

  -- Every stone, and every empty cell, is carried along the symmetry.
  pub transform_board-cell :
      (x y : ℕ) → x < n → y < n → (transform_board p t).board (target x y) ≡ p.board (cell x y)
  unfolding transform_board cleared
  transform_board-cell x y hx hy =
      grid_hit (SameFrame p) n target
        (λ x y c. if color_eq (p.board (cell x y)) empty then c else p.board (cell x y))
        (place_cell t p.board) (place-Writes p.board) n x y cleared (omega arith) hx hy
        cleared_frame
      ∙ ground (arith, cleared_target x y hx hy, color_eq→≡ (p.board (cell x y)) empty)

  -- Nothing else is touched: not the walls, and no other field.
  pub transform_board-wall : (q : ℕ) → ¬ IsCell n q → (transform_board p t).board q ≡ p.board q
  unfolding transform_board cleared
  transform_board-wall q out =
      grid_miss (SameFrame p) n target
        (λ x y c. if color_eq (p.board (cell x y)) empty then c else p.board (cell x y))
        (place_cell t p.board) (place-Writes p.board) n q cleared (omega arith) cleared_frame
        (λ x y hx hy e. out (rw e (target-IsCell x y hx hy)))
      ∙ grid_miss (SameFrame p) n cell (λ x y c. empty) clear_cell clear-Writes n q p (omega arith)
          refl (λ x y hx hy e. out (x, y, hx, hy, e))

  pub transform_board-SameFrame : SameFrame p (transform_board p t)
  unfolding transform_board cleared
  transform_board-SameFrame =
      grid_keep (SameFrame p) n target
        (λ x y c. if color_eq (p.board (cell x y)) empty then c else p.board (cell x y))
        (place_cell t p.board) (place-Writes p.board) n cleared (omega arith) cleared_frame
