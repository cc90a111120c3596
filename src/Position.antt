-- ===== src/Position.antt =====
-- The class Position (src/position.h, src/position.cpp): its fields, and the operations on the
-- board and on the move history. An array is a function of its index; the memory of a fresh object
-- is an arbitrary value. The program is built with NDEBUG, so its assertions do nothing.
pub mod Validity
pub mod Loops
pub mod Setup
pub mod Undo
pub mod Replay
pub mod Transform
pub mod TransformHistory
pub mod Symmetries
use package.c_gomoku_cli.Prelude.{
  ℕ, zero, suc, ◌+◌, ◌-◌, ◌*◌, ltb, leb, ◌==◌, if◌then◌else◌, Bool, true, false, ◌&&◌, not, ℤ, pos,
  leb_ℤ, ltb_ℤ, ◌-ℤ◌, update, for_below,
}
use package.c_gomoku_cli.Coord.{
  Color, black, white, empty, wall, color_code, opponent_color, max_board_size_sqr, make_pos,
  coord_x, coord_y, pos_from_move, color_from_move, build_move_pos, TransformType, identity,
  transform_pos,
}

abbrev pub color_eq : Color → Color → Bool
color_eq a b = color_code a == color_code b

pub record Position : Type 0 where
  pub board : ℕ → Color
  pub board_size : ℕ
  pub board_size_sqr : ℕ
  pub move_count : ℕ
  pub history_moves : ℕ → ℕ
  pub player_to_move : Color
  pub win_connection_len : ℕ
  pub win_connection_pos : ℕ → ℕ

-- The test of the loop in Position::initBoard.
abbrev pub on_board : ℕ → ℕ → Bool
on_board size i =
    leb_ℤ (pos 0) (coord_x i)
    && ltb_ℤ (coord_x i) (pos size)
    && leb_ℤ (pos 0) (coord_y i)
    && ltb_ℤ (coord_y i) (pos size)

-- Position::initBoard.
unfoldable pub init_board : Position → ℕ → Position
unfolding coord_x coord_y
init_board p size = record p {
  board_size = size;
  board_size_sqr = size * size;
  move_count = 0;
  player_to_move = black;
  board =
      λ i. if ltb i max_board_size_sqr then if on_board size i then empty else wall else p.board i;
  win_connection_len = 0;
}

-- Position::get_moves_left.
abbrev pub get_moves_left : Position → ℤ
get_moves_left p = pos p.board_size_sqr -ℤ pos p.move_count

-- Position::setPiece.
unfoldable pub set_piece : Position → ℕ → Color → Position
set_piece p q piece = record p { board = update p.board q piece }

-- Position::delPiece.
unfoldable pub del_piece : Position → ℕ → Position
del_piece p q = record p { board = update p.board q empty }

-- Position::isInBoard.
unfoldable pub is_in_board : Position → ℕ → Bool
is_in_board p q = not (color_eq (p.board q) wall)

-- Position::isInBoardXY.
unfoldable pub is_in_board_xy : Position → ℤ → ℤ → Bool
is_in_board_xy p x y =
    leb_ℤ (pos 0) x && ltb_ℤ x (pos p.board_size) && leb_ℤ (pos 0) y && ltb_ℤ y (pos p.board_size)

-- Position::is_legal_move.
unfoldable pub is_legal_move : Position → ℕ → Bool
unfolding is_in_board
is_legal_move p m =
    let q = pos_from_move m in if is_in_board p q && color_eq (p.board q) empty then true else false

-- Position::move.
unfoldable pub move : Position → ℕ → Position
unfolding set_piece
move p m =
    let placed = set_piece p (pos_from_move m) p.player_to_move in
    record placed {
      history_moves = update placed.history_moves placed.move_count m;
      player_to_move = opponent_color placed.player_to_move;
      move_count = placed.move_count + 1;
    }

-- Position::undo. It asserts that there is a move to take back.
unfoldable pub undo : Position → Position
unfolding del_piece
undo p =
    let count = p.move_count - 1 in
    let cleared =
      del_piece (record p { move_count = count }) (pos_from_move (p.history_moves count)) in
    record cleared { player_to_move = opponent_color cleared.player_to_move }

-- Position::move_with_copy: the old contents of the object are overwritten.
unfoldable pub move_with_copy : Position → Position → ℕ → Position
unfolding move
move_with_copy this before m = move before m

-- The body of the first double loop of Position::transform.
abbrev pub clear_cell : ℕ → ℕ → Position → Position
clear_cell x y p =
    let q = make_pos (pos x) (pos y) in if color_eq (p.board q) empty then p else del_piece p q

-- The body of the second double loop.
abbrev pub place_cell : TransformType → (ℕ → Color) → ℕ → ℕ → Position → Position
place_cell type tmp_board x y p =
    let q = make_pos (pos x) (pos y) in
    if color_eq (tmp_board q) empty
    then p
    else set_piece p (transform_pos q p.board_size type) (tmp_board q)

-- The body of the loop over the history.
abbrev pub transform_move : TransformType → ℕ → Position → Position
transform_move type i p =
    let m = p.history_moves i in
    let q = transform_pos (pos_from_move m) p.board_size type in
    record p { history_moves = update p.history_moves i (build_move_pos q (color_from_move m)) }

-- The body of the loop over the winning connection.
abbrev pub transform_connection : TransformType → ℕ → Position → Position
transform_connection type i p = record p {
  win_connection_pos =
      update p.win_connection_pos i (transform_pos (p.win_connection_pos i) p.board_size type);
}

-- The first two loops of Position::transform.
unfoldable pub transform_board : Position → TransformType → Position
unfolding set_piece del_piece for_below
transform_board p type =
    let n = p.board_size in
    let cleared = for_below n (λ x. for_below n (clear_cell x)) p in
    for_below n (λ x. for_below n (place_cell type p.board x)) cleared

-- Position::transform after its first test.
unfoldable pub transform_all : Position → TransformType → Position
transform_all p type =
    let placed = transform_board p type in
    let moved = for_below p.move_count (transform_move type) placed in
    for_below p.win_connection_len (transform_connection type) moved

-- Position::transform.
unfoldable pub transform : Position → TransformType → Position
unfolding transform_all transform_board
transform p identity = p
transform p type = transform_all p type
