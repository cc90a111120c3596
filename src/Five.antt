-- ===== src/Five.antt =====
-- The search for five stones in a row (src/position.cpp: check_five_helper,
-- check_five_in_line_side, check_five_in_line_lastmove).
pub mod Scan
pub mod Lines
pub mod Axis
pub mod Rows
pub mod Cover
pub mod Diagonals
pub mod Correct
use package.c_gomoku_cli.Prelude.{
  for_below, ℕ, zero, suc, ◌+◌, ◌-◌, ◌*◌, ltb, leb, ◌==◌, if◌then◌else◌, Bool, true, false, ℤ, pos,
  sub_ℕ, ◌+ℤ◌, ◌-ℤ◌, leb_ℤ, update, min,
}
use package.c_gomoku_cli.Coord.{Color, make_pos, max_board_size, pos_from_move}
use package.c_gomoku_cli.Position.{Position, color_eq, is_in_board}

-- The local variables of check_five_in_line_side and the two members that it writes.
pub record Search : Type 0 where
  pub continue_count : ℕ
  pub five_count : ℕ
  pub connection_line : ℕ → ℕ
  pub win_connection_len : ℕ
  pub win_connection_pos : ℕ → ℕ

-- memcpy of the first `n` entries.
abbrev pub copy_below : ℕ → (ℕ → ℕ) → (ℕ → ℕ) → ℕ → ℕ
copy_below n from onto i = if ltb i n then from i else onto i

-- The length of a run that counts as five.
abbrev pub is_five_len : Bool → ℕ → Bool
is_five_len allow_long_connc con_cnt = if allow_long_connc then leb 5 con_cnt else con_cnt == 5

-- Position::check_five_helper.
unfoldable pub check_five_helper : Bool → Search → Search
check_five_helper allow s =
    if is_five_len allow s.continue_count
    then record s {
      five_count = s.five_count + 1;
      win_connection_pos = copy_below s.continue_count s.connection_line s.win_connection_pos;
      win_connection_len = s.continue_count;
    }
    else s

-- The body that the four loops share, at the cell `q`.
unfoldable pub scan_cell : (ℕ → Color) → Color → Bool → ℕ → Search → Search
scan_cell board side allow q s =
    if color_eq (board q) side
    then record s {
      continue_count = s.continue_count + 1;
      connection_line = update s.connection_line s.continue_count q;
    }
    else record (check_five_helper allow s) { continue_count = 0 }

-- int continueCount = 0.
abbrev pub start_line : Search → Search
start_line s = record s { continue_count = 0 }

module _ (p : Position) (side : Color) (allow : Bool) where
  abbrev pub at_cell : ℤ → ℤ → Search → Search
  at_cell i j = scan_cell p.board side allow (make_pos i j)

  -- The body of the first loop: one value of i.
  unfoldable pub scan_column : ℕ → Search → Search
  scan_column i s =
      check_five_helper allow (for_below p.board_size (λ j. at_cell (pos i) (pos j)) (start_line s))

  -- The body of the second loop: one value of j.
  unfoldable pub scan_row : ℕ → Search → Search
  scan_row j s =
      check_five_helper allow (for_below p.board_size (λ i. at_cell (pos i) (pos j)) (start_line s))

  -- while (isInBoard(POS(i, j))), with i += 1 and j += 1.
  unfoldable pub scan_down : ℕ → ℤ → ℤ → Search → Search
  scan_down zero i j s = s
  scan_down (suc fuel) i j s = elim (is_in_board p (make_pos i j)) [
    | true ↦ scan_down fuel (i +ℤ pos 1) (j +ℤ pos 1) (at_cell i j s)
    | false ↦ s
  ]

  -- while (isInBoard(POS(i, j))), with i -= 1 and j += 1.
  unfoldable pub scan_up : ℕ → ℤ → ℤ → Search → Search
  scan_up zero i j s = s
  scan_up (suc fuel) i j s = elim (is_in_board p (make_pos i j)) [
    | true ↦ scan_up fuel (i -ℤ pos 1) (j +ℤ pos 1) (at_cell i j s)
    | false ↦ s
  ]

  -- The body of the third loop, at k = r - (boardSize - 1).
  unfoldable pub scan_diagonal : ℕ → Search → Search
  scan_diagonal r s =
      let k = sub_ℕ r (p.board_size - 1) in
      let from_edge = scan_down max_board_size (pos 0) (pos 0 -ℤ k) (start_line s) in
      let from_top = scan_down max_board_size k (pos 0) (start_line s) in
      check_five_helper allow (if leb_ℤ k (pos 0) then from_edge else from_top)

  -- The body of the fourth loop.
  unfoldable pub scan_antidiagonal : ℕ → Search → Search
  scan_antidiagonal k s =
      let i = min k (p.board_size - 1) in
      check_five_helper allow (scan_up max_board_size (pos i) (sub_ℕ k i) (start_line s))

  -- The four loops in their order.
  unfoldable pub search_lines : Search → Search
  search_lines s =
      let n = p.board_size in
      let columns = for_below n scan_column s in
      let rows = for_below n scan_row columns in
      let diagonals = for_below (n * 2 - 1) scan_diagonal rows in
      for_below (n * 2 - 1) scan_antidiagonal diagonals

-- The search begins with no run and no five; an entry of connectionLine is written before it is
-- read, so the contents of that array do not matter.
abbrev pub start_search : Position → Search
start_search p = record {
  continue_count = 0;
  five_count = 0;
  connection_line = λ i. 0;
  win_connection_len = p.win_connection_len;
  win_connection_pos = p.win_connection_pos;
}

-- Position::check_five_in_line_side: the position after it, and its result.
unfoldable pub check_five_in_line_side : Position → Color → Bool → Position × Bool
check_five_in_line_side p side allow =
    let s = search_lines p side allow (start_search p) in
    (
      record p {
        win_connection_len = s.win_connection_len;
        win_connection_pos = s.win_connection_pos;
      },
      ltb 0 s.five_count,
    )

-- Position::check_five_in_line_lastmove.
unfoldable pub check_five_in_line_lastmove : Position → Bool → Position × Bool
check_five_in_line_lastmove p allow =
    let last_piece = p.board (pos_from_move (p.history_moves (p.move_count - 1))) in
    let found = check_five_in_line_side p last_piece allow in
    if ltb p.move_count 5 then (p, false) else found
