-- ===== src/Renju/Fives.antt =====
-- What isFive and isOverline find, in the coordinates of the board.
use c_gomoku_cli.Prelude.{
  ℕ, ◌+◌, ◌-◌, ◌*◌, ◌≤◌, ◌≡◌, ◌≢◌, ◌↔◌, inl, inr, sym, ap, ◌∙◌, true, ltb, ltb→lt, lt→ltb, arith,
}
use c_gomoku_cli.Coord.{Color, empty}
use c_gomoku_cli.Coord.Cells.{cell}
use c_gomoku_cli.Five.Axis.{Axis, column, row, diagonal, antidiagonal}
use c_gomoku_cli.Renju.{
  Board, back, ahead, line_count, any_dir, is_five_dir, is_five, is_overline, directions,
}
use c_gomoku_cli.Renju.Walk.{color_eq→≡}
use c_gomoku_cli.Renju.Runs.{
  Stones, Four, FiveMore, FourAlong, FiveAlong, over-FiveMore, FiveMore-over, is_five_dir_iff,
  AnyDir, any_dir-AnyDir,
}

-- The cell `j` columns, rows or both on from (x, y) along an axis. The array has 32 cells in a column
-- and a margin of 5 before the board.
abbrev pub ahead_cell : Axis → ℕ → ℕ → ℕ → ℕ
ahead_cell column x y j = (x + 5) * 32 + (y + 5 + j)
ahead_cell row x y j = (x + 5 + j) * 32 + (y + 5)
ahead_cell diagonal x y j = (x + 5 + j) * 32 + (y + 5 + j)
ahead_cell antidiagonal x y j = (x + 5 + j) * 32 + (y + 5 - j)

-- The cell `j` back.
abbrev pub back_cell : Axis → ℕ → ℕ → ℕ → ℕ
back_cell column x y j = (x + 5) * 32 + (y + 5 - j)
back_cell row x y j = (x + 5 - j) * 32 + (y + 5)
back_cell diagonal x y j = (x + 5 - j) * 32 + (y + 5 - j)
back_cell antidiagonal x y j = (x + 5 - j) * 32 + (y + 5 + j)

abbrev axis_step : Axis → ℕ
axis_step column = 1
axis_step row = 32
axis_step diagonal = 33
axis_step antidiagonal = 31

ahead-cell :
    (ax : Axis) (x y j : ℕ) → j ≤ 5 → ahead (cell x y) (axis_step ax) j ≡ ahead_cell ax x y j
unfolding cell
ahead-cell column x y j h = omega arith
ahead-cell row x y j h = omega arith
ahead-cell diagonal x y j h = omega arith
ahead-cell antidiagonal x y j h = omega arith

back-cell : (ax : Axis) (x y j : ℕ) → j ≤ 5 → back (cell x y) (axis_step ax) j ≡ back_cell ax x y j
unfolding cell
back-cell column x y j h = omega arith
back-cell row x y j h = omega arith
back-cell diagonal x y j h = omega arith
back-cell antidiagonal x y j h = omega arith

module _ (b : Board) (piece : Color) where
  Stones-ext :
      (f g : ℕ → ℕ) (n : ℕ)
      → ((j : ℕ) → j ≤ 5 → f j ≡ g j)
      → n ≤ 5
      → Stones b piece f 1 (1 + n)
      → Stones b piece g 1 (1 + n)
  Stones-ext f g n e h s k l u = ap b (sym (e k (omega arith))) ∙ s k l u

  unlike_ext :
      (f g : ℕ → ℕ) (j : ℕ)
      → ((i : ℕ) → i ≤ 5 → f i ≡ g i)
      → j ≤ 5
      → b (f j) ≢ piece
      → b (g j) ≢ piece
  unlike_ext f g j e h ne same = ne (ap b (e j h) ∙ same)

  module _ (f g f' g' : ℕ → ℕ) (e : (j : ℕ) → j ≤ 5 → f j ≡ f' j)
      (e' : (j : ℕ) → j ≤ 5 → g j ≡ g' j) where
    Four-ext : Four b piece f g → Four b piece f' g'
    Four-ext (l, r, sum, sl, sr, hl, hr) = (
      l,
      r,
      sum,
      Stones-ext f f' l e (omega arith) sl,
      Stones-ext g g' r e' (omega arith) sr,
      unlike_ext f f' (1 + l) e (omega arith) hl,
      unlike_ext g g' (1 + r) e' (omega arith) hr,
    )

    FiveMore-ext : FiveMore b piece f g → FiveMore b piece f' g'
    FiveMore-ext (l, r, sum, sl, sr) =
        (l, r, sum, Stones-ext f f' l e (omega arith) sl, Stones-ext g g' r e' (omega arith) sr)

-- What holds along a direction of the table holds along an axis.
AnyDir-axis :
    (P : ℕ → Type 0) (Q : Axis → Type 0)
    → ((ax : Axis) → P (axis_step ax) ↔ Q ax)
    → AnyDir P directions ↔ ((ax : Axis) × Q ax)
AnyDir-axis P Q h = (
  λ a. elim a [
    | inl p ↦ (column, (h column).0 p)
    | inr (inl p) ↦ (antidiagonal, (h antidiagonal).0 p)
    | inr (inr (inl p)) ↦ (row, (h row).0 p)
    | inr (inr (inr (inl p))) ↦ (diagonal, (h diagonal).0 p)
    | inr (inr (inr (inr none_left))) ↦ absurd none_left
  ],
  λ (ax, q). place ax q,
)
  where
    place : (ax : Axis) → Q ax → AnyDir P directions
    place column q = inl ((h column).1 q)
    place antidiagonal q = inr (inl ((h antidiagonal).1 q))
    place row q = inr (inr (inl ((h row).1 q)))
    place diagonal q = inr (inr (inr (inl ((h diagonal).1 q))))

module _ (b : Board) (x y : ℕ) (piece : Color) where
  AnyDir-Four :
      AnyDir (FourAlong b (cell x y) piece) directions
      ↔ ((ax : Axis) × Four b piece (back_cell ax x y) (ahead_cell ax x y))
  AnyDir-Four = AnyDir-axis (FourAlong b (cell x y) piece) _ (λ ax. (
    Four-ext b piece _ _ _ _ (back-cell ax x y) (ahead-cell ax x y),
    Four-ext b piece _ _ _ _ (λ j h. sym (back-cell ax x y j h))
        (λ j h. sym (ahead-cell ax x y j h)),
  ))

  AnyDir-FiveMore :
      AnyDir (FiveAlong b (cell x y) piece) directions
      ↔ ((ax : Axis) × FiveMore b piece (back_cell ax x y) (ahead_cell ax x y))
  AnyDir-FiveMore = AnyDir-axis (FiveAlong b (cell x y) piece) _ (λ ax. (
    FiveMore-ext b piece _ _ _ _ (back-cell ax x y) (ahead-cell ax x y),
    FiveMore-ext b piece _ _ _ _ (λ j h. sym (back-cell ax x y j h))
        (λ j h. sym (ahead-cell ax x y j h)),
  ))

-- isOverline answers true exactly if the cell is empty and along its column, its row or one of its
-- diagonals five stones of the colour or more are next to it, on both sides together, so that a stone
-- there makes six or more.
pub is_overline_iff :
    (b : Board) (x y : ℕ) (piece : Color)
    → (is_overline b (cell x y) piece ≡ true) ↔ (
        (b (cell x y) ≡ empty)
        × ((ax : Axis) × FiveMore b piece (back_cell ax x y) (ahead_cell ax x y)))
unfolding is_overline
is_overline_iff b x y piece =
    let q = cell x y in
    let any =
      any_dir-AnyDir (FiveAlong b q piece) (λ dir. ltb 5 (line_count b q piece dir))
        (λ dir. (
          λ e. over-FiveMore b q piece dir (ltb→lt 5 _ e),
          λ f. lt→ltb 5 _ (FiveMore-over b q piece dir f),
        ))
        directions in
    let axis = AnyDir-FiveMore b x y piece in
    (
      λ h. (ground arith, axis.0 (any.0 (ground arith))),
      λ (free, a). ground (arith, free, any.1 (axis.1 a)),
    )

-- isFive answers true exactly if the cell is empty and along its column, its row or one of its
-- diagonals exactly four stones of the colour are next to it, on both sides together, so that a stone
-- there makes exactly five.
pub is_five_iff :
    (b : Board) (x y : ℕ) (piece : Color)
    → (is_five b (cell x y) piece ≡ true) ↔ (
        (b (cell x y) ≡ empty)
        × ((ax : Axis) × Four b piece (back_cell ax x y) (ahead_cell ax x y)))
unfolding is_five
is_five_iff b x y piece = (
  λ h.
      let free = color_eq→≡ (b q) empty (ground arith) in
      (free, axis.0 ((any free).0 (ground arith))),
  λ (free, a). ground (arith, free, (any free).1 (axis.1 a)),
)
  where
    q : ℕ
    q = cell x y

    axis :
        AnyDir (FourAlong b q piece) directions
        ↔ ((ax : Axis) × Four b piece (back_cell ax x y) (ahead_cell ax x y))
    axis = AnyDir-Four b x y piece

    any :
        b q ≡ empty
        → (any_dir directions (is_five_dir b q piece) ≡ true)
          ↔ AnyDir (FourAlong b q piece) directions
    any free =
        any_dir-AnyDir (FourAlong b q piece) (is_five_dir b q piece)
          (λ dir. (
            λ e. ((is_five_dir_iff b q piece dir).0 e).1,
            λ f. (is_five_dir_iff b q piece dir).1 (free, f),
          ))
          directions
