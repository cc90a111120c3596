-- ===== src/OpeningText.antt =====
-- The openings of a game as text (src/position.cpp: parse_opening_offset_linestr,
-- parse_opening_pos_linestr, apply_opening; src/game.cpp: load_opening). A stream is the text that
-- was put into it; reading an int from it is strtol with the range of an int, and fails for good.
pub mod Reads
pub mod Prints
pub mod RoundTrip
pub mod Applies
pub mod Bounds
use c_gomoku_cli.Prelude.{
  ℕ, zero, suc, ◌+◌, ◌-◌, ◌/◌, ◌%◌, ◌^◌, ltb, leb, ◌==◌, if◌then◌else◌, Bool, true, false, ◌&&◌,
  ◌||◌, not, List, [], ◌∷◌, ◌++◌, length, Option, none, some, ℤ, pos, negsuc, leb_ℤ, ◌+ℤ◌, ◌-ℤ◌,
  ◌>>=◌,
}
use c_gomoku_cli.Coord.{
  Color, color_code, make_pos, build_move_pos, TransformType, identity, rotate_90, rotate_180,
  rotate_270, flip_x, flip_y, flip_xy, flip_yx,
}
use c_gomoku_cli.Position.{Position, is_in_board_xy, init_board, move, transform}
use c_gomoku_cli.Text.{Text, OpeningType, opening_offset, opening_pos, is_digit, strtol, show_int}

-- The stream of parse_opening_offset_linestr; `none` is an unknown character.
unfoldable pub offset_stream : Text → Option Text
offset_stream [] = some []
offset_stream (c ∷ cs) =
    if is_digit c || c == 45
    then (do s ← offset_stream cs; some (c ∷ s))
    else if c == 44 || c == 32
    then (do s ← offset_stream cs; some (32 ∷ s))
    else none

-- The stream of parse_opening_pos_linestr: a letter is a number between spaces.
unfoldable pub pos_stream : Text → Option Text
unfolding show_int
pos_stream [] = some []
pos_stream (c ∷ cs) =
    if leb 97 c && leb c 122
    then (do s ← pos_stream cs; some (32 ∷ show_int (pos (c - 97)) ++ 32 ∷ s))
    else if is_digit c
    then (do s ← pos_stream cs; some (c ∷ s))
    else none

-- ss >> n: the int and the rest of the stream, or a failure.
unfoldable pub read_int : Text → Option (ℤ × Text)
unfolding strtol
read_int s = elim (strtol s) [
  | none ↦ none
  | some r ↦
      if leb_ℤ (negsuc (2 ^ 31 - 1)) r.0 && leb_ℤ r.0 (pos (2 ^ 31 - 1)) then some r else none
]

-- The ints that while (ss >> n) goes through, with a round for each byte at most.
unfoldable pub read_ints : ℕ → Text → List ℤ
unfolding read_int
read_ints zero s = []
read_ints (suc fuel) s = elim (read_int s) [ none ↦ [] | some r ↦ r.0 ∷ read_ints fuel r.1 ]

-- The square of two coordinates; `none` if the board is too small.
unfoldable pub square_of : Position → ℤ → ℤ → Option ℕ
unfolding is_in_board_xy make_pos
square_of p x y = if is_in_board_xy p x y then some (make_pos x y) else none

-- buff[0], when cnt is 1.
abbrev pub Pending : Type 0
Pending = Option ℤ

-- The loop of parse_opening_offset_linestr, with boardSize / 2 as `half`.
unfoldable pub offset_squares : Position → ℤ → Pending → List ℤ → Option (List ℕ)
unfolding square_of
offset_squares p half pending [] = some []
offset_squares p half none (n ∷ ns) =
    let taken = offset_squares p half (some n) ns in
    let left = offset_squares p half none ns in
    if leb_ℤ (negsuc 15) n && leb_ℤ n (pos 15) then taken else left
offset_squares p half (some m) (n ∷ ns) =
    let rest = offset_squares p half none ns in
    let left = offset_squares p half (some m) ns in
    if leb_ℤ (negsuc 15) n && leb_ℤ n (pos 15)
    then (do q ← square_of p (m +ℤ half) (n +ℤ half); qs ← rest; some (q ∷ qs))
    else left

-- The loop of parse_opening_pos_linestr.
unfoldable pub pos_squares : Position → Pending → List ℤ → Option (List ℕ)
unfolding square_of
pos_squares p pending [] = some []
pos_squares p none (n ∷ ns) = pos_squares p (some n) ns
pos_squares p (some m) (n ∷ ns) = do
  q ← square_of p m (n -ℤ pos 1)
  qs ← pos_squares p none ns
  some (q ∷ qs)

-- Position::parse_opening_offset_linestr: the squares, or `none` for false.
unfoldable pub parse_opening_offset_linestr : Position → Text → Option (List ℕ)
unfolding offset_stream read_ints offset_squares
parse_opening_offset_linestr p s = do
  ss ← offset_stream s
  offset_squares p (pos (p.board_size / 2)) none (read_ints (length ss) ss)

-- Position::parse_opening_pos_linestr.
unfoldable pub parse_opening_pos_linestr : Position → Text → Option (List ℕ)
unfolding pos_stream read_ints pos_squares
parse_opening_pos_linestr p s = do ss ← pos_stream s; pos_squares p none (read_ints (length ss) ss)

-- The parsers by the type of the opening.
unfoldable pub parse_opening : Position → Text → OpeningType → Option (List ℕ)
unfolding parse_opening_offset_linestr parse_opening_pos_linestr
parse_opening p s opening_offset = parse_opening_offset_linestr p s
parse_opening p s opening_pos = parse_opening_pos_linestr p s

-- The loop of apply_opening over the squares.
unfoldable pub place_squares : List ℕ → Position → Position
unfolding move build_move_pos
place_squares [] p = p
place_squares (q ∷ qs) p =
    place_squares qs (move p (build_move_pos q (color_code p.player_to_move)))

-- Position::apply_opening; `none` for false, which leaves the position alone.
unfoldable pub apply_opening : Position → Text → OpeningType → Option Position
unfolding parse_opening place_squares init_board
apply_opening p s type = do
  qs ← parse_opening p s type
  some (place_squares qs (init_board p p.board_size))

-- (TransformType) n, for n below NB_TRANS.
abbrev pub transform_type : ℕ → TransformType
transform_type zero = identity
transform_type (suc zero) = rotate_90
transform_type (suc (suc zero)) = rotate_180
transform_type (suc (suc (suc zero))) = rotate_270
transform_type (suc (suc (suc (suc zero)))) = flip_x
transform_type (suc (suc (suc (suc (suc zero))))) = flip_y
transform_type (suc (suc (suc (suc (suc (suc zero)))))) = flip_xy
transform_type (suc (suc (suc (suc (suc (suc (suc n))))))) = flip_yx

-- Game::load_opening on the new position `p`, made with the size of the board: the position and the
-- player to move, or `none` for false.
unfoldable pub load_opening : Position → Text → OpeningType → Bool → ℕ → Option (Position × Color)
unfolding apply_opening transform
load_opening p s type transforms current_round = do
  opened ← apply_opening p s type
  some (
    if transforms then transform opened (transform_type (current_round % 8)) else opened,
    opened.player_to_move,
  )
