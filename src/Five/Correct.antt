-- ===== src/Five/Correct.antt =====
-- check_five_in_line_side finds a row of five exactly if there is one.
use c_gomoku_cli.Prelude.{
  for_below_ext, for_below, ℕ, ◌-◌, ◌*◌, ◌<◌, ◌≡◌, ◌≢◌, ◌⊎◌, ◌↔◌, inl, inr, sym, ap, ◌∙◌, Bool,
  true, Bool-cases, ltb→lt, lt→ltb, arith, subst, pos, sub_ℕ, leb_ℤ,
}
use c_gomoku_cli.Coord.{Color, wall, max_board_size}
use c_gomoku_cli.Coord.Cells.{cell, make_pos-cell}
use c_gomoku_cli.Position.{Position}
use c_gomoku_cli.Position.Validity.{IsCell, IsValid}
use c_gomoku_cli.Five.{
  Search, scan_cell, check_five_helper, start_line, scan_column, scan_row, scan_diagonal,
  scan_antidiagonal, search_lines, start_search, check_five_in_line_side,
}
use c_gomoku_cli.Five.Scan.{Maximal, scan_line}
use c_gomoku_cli.Five.Lines.{CountsIf, CountsIf-iff, CountsIf-trans, for_lines}
use c_gomoku_cli.Five.Axis.{Axis, column, row, diagonal, antidiagonal, along}
use c_gomoku_cli.Five.Cover.{
  lines, line_x, line_y, line_n, lines-IsLine, lines_cover, cell-column, cell-row,
}
use c_gomoku_cli.Five.Rows.{IsRow, HasRow, line_cell, Maximal-HasRow, IsRow-Maximal}
use c_gomoku_cli.Five.Diagonals.{scan_down-line, scan_up-line}

module _ (p : Position) (v : IsValid p) (side : Color) (no_wall : side ≢ wall) (allow : Bool) where
  abbrev n : ℕ
  n = p.board_size

  -- The body of the loop of each axis.
  abbrev scan : Axis → ℕ → Search → Search
  scan column = scan_column p side allow
  scan row = scan_row p side allow
  scan diagonal = scan_diagonal p side allow
  scan antidiagonal = scan_antidiagonal p side allow

  abbrev first : Axis → ℕ → ℕ
  first ax i = cell (line_x ax n i) (line_y ax n i)

  abbrev walk : (ax : Axis) (i : ℕ) → Search → Search
  walk ax i s = check_five_helper allow (
      for_below (line_n ax n i) (λ a. scan_cell p.board side allow (along ax (first ax i) a))
        (start_line s))

  scan-walk : (ax : Axis) (i : ℕ) (s : Search) → i < lines ax n → scan ax i s ≡ walk ax i s
  unfolding scan_column scan_row scan_diagonal scan_antidiagonal
  scan-walk column i s hi = ap (check_five_helper allow) (
      for_below_ext n _ _
        (λ j t hj.
          ap (λ q. scan_cell p.board side allow q t)
            (make_pos-cell i j (omega (arith, v.size_le)) (omega (arith, v.size_le))
              ∙ cell-column i j))
        (start_line s))
  scan-walk row i s hi = ap (check_five_helper allow) (
      for_below_ext n _ _
        (λ j t hj.
          ap (λ q. scan_cell p.board side allow q t)
            (make_pos-cell j i (omega (arith, v.size_le)) (omega (arith, v.size_le))
              ∙ cell-row j i))
        (start_line s))
  scan-walk diagonal i s hi =
      let l = lines-IsLine diagonal n i v.size_pos hi in
      elim (Bool-cases (leb_ℤ (sub_ℕ i (n - 1)) (pos 0))) [
        | inl e ↦ rw e (
            ap (check_five_helper allow) (
              scan_down-line p v side allow _ _ _ _ _ max_board_size (start_line s) l (ground arith)
                (ground arith) (omega (arith, v.size_le))))
        | inr e ↦ rw e (
            ap (check_five_helper allow) (
              scan_down-line p v side allow _ _ _ _ _ max_board_size (start_line s) l (ground arith)
                (ground arith) (omega (arith, v.size_le))))
      ]
  scan-walk antidiagonal i s hi = ap (check_five_helper allow) (
      scan_up-line p v side allow _ _ _ _ _ max_board_size (start_line s)
        (lines-IsLine antidiagonal n i v.size_pos hi) (ground arith) (ground arith)
        (omega (arith, v.size_le)))

  -- Line `i` of an axis has a maximal run that counts.
  abbrev LineHas : Axis → ℕ → Type 0
  LineHas ax i =
      Maximal p.board side allow (line_cell ax (line_x ax n i) (line_y ax n i)) (line_n ax n i)

  LineHas-HasRow :
      (ax : Axis) → ((i : ℕ) × (i < lines ax n) × LineHas ax i) ↔ HasRow p side allow ax
  LineHas-HasRow ax = (
    λ (i, hi, m).
        Maximal-HasRow p v side no_wall allow ax _ _ _ (lines-IsLine ax n i v.size_pos hi) m,
    λ (q, len, r). found q len r r.starts,
  )
    where
      found :
          (q len : ℕ)
          → IsRow p side allow ax q len
          → IsCell n q
          → (i : ℕ) × (i < lines ax n) × LineHas ax i
      found q len r (x, y, hx, hy, e) =
          let (i, a, hi, ha, ea) = lines_cover ax n x y hx hy in
          (
            i,
            hi,
            IsRow-Maximal p v side no_wall allow ax _ _ _ (lines-IsLine ax n i v.size_pos hi) a len
                ha (subst (λ k. IsRow p side allow ax k len) (e ∙ sym ea) r),
          )

  axis_counts :
      (ax : Axis) (s : Search)
      → CountsIf (HasRow p side allow ax) s (for_below (lines ax n) (scan ax) s)
  axis_counts ax s = CountsIf-iff s (for_below (lines ax n) (scan ax) s) (LineHas-HasRow ax) (
      for_lines (LineHas ax) (scan ax) (lines ax n)
        (λ i t hi. subst (CountsIf (LineHas ax i) t) (sym (scan-walk ax i t hi)) (
          scan_line p.board side allow (line_cell ax (line_x ax n i) (line_y ax n i))
            (line_n ax n i) t))
        s)

  search_counts :
      (s : Search)
      → CountsIf
          (((HasRow p side allow column ⊎ HasRow p side allow row) ⊎ HasRow p side allow diagonal)
            ⊎ HasRow p side allow antidiagonal)
          s
          (search_lines p side allow s)
  unfolding search_lines
  search_counts s =
      let s1 = for_below n (scan column) s in
      let s2 = for_below n (scan row) s1 in
      let s3 = for_below (n * 2 - 1) (scan diagonal) s2 in
      let s4 = for_below (n * 2 - 1) (scan antidiagonal) s3 in
      CountsIf-trans s s3 s4
        (CountsIf-trans s s2 s3 (CountsIf-trans s s1 s2 (axis_counts column s) (axis_counts row s1))
          (axis_counts diagonal s2))
        (axis_counts antidiagonal s3)

-- On a valid board, for a side that is no wall, check_five_in_line_side answers true exactly if
-- along some axis there is a maximal row of that side's stones of a length that counts: five or
-- more if long connections are allowed, and exactly five if not.
pub check_five_in_line_side_iff :
    (p : Position) (side : Color) (allow : Bool)
    → IsValid p
    → side ≢ wall
    → ((check_five_in_line_side p side allow).1 ≡ true) ↔ ((ax : Axis) × HasRow p side allow ax)
unfolding check_five_in_line_side
check_five_in_line_side_iff p side allow v no_wall =
    let (le, iff) = search_counts p v side no_wall allow (start_search p) in
    (
      λ h. elim (iff.0 (ltb→lt 0 _ h)) [
        | inl (inl (inl r)) ↦ (column, r)
        | inl (inl (inr r)) ↦ (row, r)
        | inl (inr r) ↦ (diagonal, r)
        | inr r ↦ (antidiagonal, r)
      ],
      λ (ax, r). lt→ltb 0 _ (iff.1 (place ax r)),
    )
  where
    place :
        (ax : Axis)
        → HasRow p side allow ax
        → ((HasRow p side allow column ⊎ HasRow p side allow row) ⊎ HasRow p side allow diagonal)
          ⊎ HasRow p side allow antidiagonal
    place column r = inl (inl (inl r))
    place row r = inl (inl (inr r))
    place diagonal r = inl (inr r)
    place antidiagonal r = inr r
