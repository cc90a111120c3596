-- ===== src/Coord.antt =====
-- Coordinates, cell indexes and moves (src/position.h, and the helpers at the top of
-- src/position.cpp). A C `int` that may be negative is an integer; a `Pos` or `move_t` is the
-- number of its 16 bits.
pub mod Bits
pub mod Cells
pub mod Moves
pub mod Symmetry
use package.c_gomoku_cli.Prelude.{
  ℕ, suc, ◌+◌, ◌-◌, ◌*◌, ◌/◌, ◌%◌, ◌^◌, bit_or, ℤ, pos, negsuc, sub_ℕ, ◌-ℤ◌,
}

-- enum Color.
pub data Color : Type 0 where
  black white empty wall : Color

-- The value of an enumerator.
abbrev pub color_code : Color → ℕ
color_code black = 0
color_code white = 1
color_code empty = 2
color_code wall = 3

-- static const Color OPPSITE_COLOR[4] = {WHITE, BLACK, EMPTY, WALL}.
abbrev pub opponent_color : Color → Color
opponent_color black = white
opponent_color white = black
opponent_color empty = empty
opponent_color wall = wall

abbrev pub board_boundary : ℕ
board_boundary = 5

-- Position::MaxBoardSize, 1 << MAX_BOARD_SIZE_BIT.
abbrev pub max_board_size : ℕ
max_board_size = 32

abbrev pub max_board_size_sqr : ℕ
max_board_size_sqr = 1024

-- Position::RealBoardSize.
abbrev pub real_board_size : ℕ
real_board_size = 22

abbrev pub none_move : ℕ
none_move = 0xFFFF

-- The conversion of an int to uint8_t at the call of POS_RAW and POS.
abbrev pub to_u8 : ℤ → ℕ
to_u8 (pos n) = n % 256
to_u8 (negsuc n) = 255 - n % 256

-- POS_RAW.
unfoldable pub pos_raw : ℤ → ℤ → ℕ
pos_raw x y = (to_u8 x * 2 ^ 5 + to_u8 y) % 2 ^ 16

-- POS.
unfoldable pub make_pos : ℤ → ℤ → ℕ
unfolding pos_raw
make_pos x y = pos_raw (pos (to_u8 x + board_boundary)) (pos (to_u8 y + board_boundary))

-- CoordX.
unfoldable pub coord_x : ℕ → ℤ
coord_x p = sub_ℕ (p / 2 ^ 5) board_boundary

-- CoordY.
unfoldable pub coord_y : ℕ → ℤ
coord_y p = sub_ℕ (p % 2 ^ 5) board_boundary

-- PosFromMove.
unfoldable pub pos_from_move : ℕ → ℕ
pos_from_move m = m % 2 ^ 10

-- ColorFromMove; the result is an enumerator's value only for a move that was built from a color.
unfoldable pub color_from_move : ℕ → ℕ
color_from_move m = m / 2 ^ 10

-- buildMovePos.
unfoldable pub build_move_pos : ℕ → ℕ → ℕ
build_move_pos p side = bit_or (side * 2 ^ 10) p % 2 ^ 16

-- buildMove.
unfoldable pub build_move : ℤ → ℤ → ℕ → ℕ
unfolding make_pos build_move_pos
build_move x y side = build_move_pos (make_pos x y) side

-- enum TransformType, without the count NB_TRANS.
pub data TransformType : Type 0 where
  identity rotate_90 rotate_180 rotate_270 flip_x flip_y flip_xy flip_yx : TransformType

-- transformPos after the coordinates are read.
abbrev transform_coords : TransformType → ℤ → ℤ → ℤ → ℕ
transform_coords identity s x y = make_pos x y
transform_coords rotate_90 s x y = make_pos y (s -ℤ x)
transform_coords rotate_180 s x y = make_pos (s -ℤ x) (s -ℤ y)
transform_coords rotate_270 s x y = make_pos (s -ℤ y) x
transform_coords flip_x s x y = make_pos x (s -ℤ y)
transform_coords flip_y s x y = make_pos (s -ℤ x) y
transform_coords flip_xy s x y = make_pos y x
transform_coords flip_yx s x y = make_pos (s -ℤ y) (s -ℤ x)

-- transformPos.
unfoldable pub transform_pos : ℕ → ℕ → TransformType → ℕ
unfolding make_pos coord_x coord_y
transform_pos p size type = transform_coords type (sub_ℕ size 1) (coord_x p) (coord_y p)
