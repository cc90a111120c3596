-- ===== src/Text.antt =====
-- Moves as text (src/position.cpp: gomostr_to_move, isNumber, is_valid_move_gomostr,
-- move_to_gomostr, move_to_opening_str, to_opening_str). A string is the list of its bytes; strtol
-- and std::stoi are those of the C and C++ standards, for numbers in base 10.
pub mod Numbers
pub mod Moves
use c_gomoku_cli.Prelude.{
  ℕ, zero, suc, ◌+◌, ◌-◌, ◌*◌, ◌/◌, ◌%◌, ◌^◌, ltb, leb, ◌==◌, if◌then◌else◌, Bool, true, false,
  ◌&&◌, ◌||◌, List, [], ◌∷◌, ◌++◌, take, drop, Option, none, some, ℤ, pos, negsuc, sub_ℕ, leb_ℤ,
  ◌-ℤ◌, ◌+ℤ◌, pos_part, for_below,
}
use c_gomoku_cli.Coord.{color_code, coord_x, coord_y, pos_from_move, build_move}
use c_gomoku_cli.Position.{Position}

abbrev pub Text : Type 0
Text = List ℕ

abbrev pub comma : ℕ
comma = 44

-- The loop over the string: the index of the last comma and the number of commas, from byte `i` on.
unfoldable pub find_comma : Text → ℕ → ℕ × ℕ → ℕ × ℕ
find_comma [] i s = s
find_comma (c ∷ cs) i s = find_comma cs (i + 1) (if c == comma then (i, s.1 + 1) else s)

abbrev pub is_space : ℕ → Bool
is_space c = c == 32 || (leb 9 c && leb c 13)

unfoldable pub skip_spaces : Text → Text
skip_spaces [] = []
skip_spaces (c ∷ cs) = if is_space c then skip_spaces cs else c ∷ cs

abbrev pub is_digit : ℕ → Bool
is_digit c = leb 48 c && leb c 57

-- The value of the digits at the head, after `n`, and the rest.
unfoldable pub read_digits : ℕ → Text → ℕ × Text
read_digits n [] = (n, [])
read_digits n (c ∷ cs) =
    let rest = read_digits (n * 10 + (c - 48)) cs in if is_digit c then rest else (n, c ∷ cs)

-- The digits after a sign; without one there is no number.
abbrev pub read_unsigned : Text → Option (ℕ × Text)
unfolding read_digits
read_unsigned [] = none
read_unsigned (c ∷ cs) = if is_digit c then some (read_digits 0 (c ∷ cs)) else none

abbrev pub to_pos : Option (ℕ × Text) → Option (ℤ × Text)
to_pos none = none
to_pos (some (n, rest)) = some (pos n, rest)

abbrev pub to_neg : Option (ℕ × Text) → Option (ℤ × Text)
to_neg none = none
to_neg (some (n, rest)) = some (sub_ℕ 0 n, rest)

abbrev pub read_signed : Text → Option (ℤ × Text)
unfolding read_digits
read_signed [] = none
read_signed (c ∷ cs) =
    if c == 45
    then to_neg (read_unsigned cs)
    else if c == 43
    then to_pos (read_unsigned cs)
    else to_pos (read_unsigned (c ∷ cs))

-- strtol: the number, before it is clamped to a long, and the rest; `none` if there is no number.
unfoldable pub strtol : Text → Option (ℤ × Text)
unfolding skip_spaces read_digits
strtol s = read_signed (skip_spaces s)

-- !*p. A byte 0 ends a string.
abbrev pub at_end : Text → Bool
at_end [] = true
at_end (c ∷ cs) = c == 0

-- isNumber: without a number, p points to the string.
unfoldable pub is_number : Text → Bool
unfolding strtol
is_number s = elim (strtol s) [ none ↦ at_end s | some r ↦ at_end r.1 ]

-- std::stoi, where `none` is an exception: of a number that is missing, or does not fit in an int.
unfoldable pub stoi : Text → Option ℤ
unfolding strtol
stoi s = elim (strtol s) [
  | none ↦ none
  | some r ↦
      if leb_ℤ (negsuc (2 ^ 31 - 1)) r.0 && leb_ℤ r.0 (pos (2 ^ 31 - 1)) then some r.0 else none
]

abbrev pub x_str : Text → Text
unfolding find_comma
x_str s = take (find_comma s 0 (0, 0)).0 s

abbrev pub y_str : Text → Text
unfolding find_comma
y_str s = drop ((find_comma s 0 (0, 0)).0 + 1) s

-- Position::gomostr_to_move, whose assertions do nothing; `none` is an exception of stoi.
unfoldable pub gomostr_to_move : Position → Text → Option ℕ
unfolding stoi find_comma
gomostr_to_move p s = elim (stoi (x_str s)) [
  | none ↦ none
  | some x ↦ elim (stoi (y_str s)) [
    | none ↦ none
    | some y ↦ some (build_move x y (color_code p.player_to_move))
  ]
]

-- Position::is_valid_move_gomostr.
unfoldable pub is_valid_move_gomostr : Text → Bool
unfolding is_number find_comma
is_valid_move_gomostr s =
    if (find_comma s 0 (0, 0)).1 == 1 then is_number (x_str s) && is_number (y_str s) else false

-- The digits of a number below 10 ^ fuel, before `s`.
unfoldable pub digits : ℕ → ℕ → Text → Text
digits zero n s = s
digits (suc fuel) n s =
    let more = digits fuel (n / 10) ((n % 10 + 48) ∷ s) in if ltb n 10 then (n + 48) ∷ s else more

-- ss << n, for an int.
unfoldable pub show_int : ℤ → Text
unfolding digits
show_int (pos n) = digits 10 n []
show_int (negsuc n) = 45 ∷ digits 10 (suc n) []

-- Position::move_to_gomostr.
unfoldable pub move_to_gomostr : ℕ → Text
unfolding show_int
move_to_gomostr m =
    show_int (coord_x (pos_from_move m)) ++ comma ∷ show_int (coord_y (pos_from_move m))

-- enum OpeningType.
pub data OpeningType : Type 0 where
  opening_offset opening_pos : OpeningType

-- The coordinates of a square in an opening: from the middle of the board, or a letter and a number
-- from 1.
abbrev pub square_str : Position → OpeningType → ℕ → Text
unfolding show_int coord_x coord_y
square_str p opening_offset q =
    let half = pos (p.board_size / 2) in
    show_int (coord_x q -ℤ half) ++ comma ∷ show_int (coord_y q -ℤ half)
square_str p opening_pos q = pos_part (coord_x q +ℤ pos 97) ∷ show_int (coord_y q +ℤ pos 1)

-- Position::move_to_opening_str.
unfoldable pub move_to_opening_str : Position → ℕ → OpeningType → Text
unfolding show_int coord_x coord_y pos_from_move
move_to_opening_str p m type = square_str p type (pos_from_move m)

-- if (i) ss << ", ".
abbrev pub separator : OpeningType → ℕ → Text
separator opening_offset (suc i) = comma ∷ 32 ∷ []
separator type i = []

-- Position::to_opening_str.
unfoldable pub to_opening_str : Position → OpeningType → Text
unfolding show_int coord_x coord_y pos_from_move for_below
to_opening_str p type =
    for_below p.move_count
      (λ i s. s ++ separator type i ++ square_str p type (pos_from_move (p.history_moves i))) []
