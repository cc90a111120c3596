-- ===== src/Renju.antt =====
-- The forbidden points of Renju (src/position.cpp: isForbidden, isFive, isOverline, isFour,
-- isOpenFour, isOpenThree, isDoubleFour, isDoubleThree, check_forbidden_move). They place a stone
-- and take it off again, so each returns the board after it with its answer. No other member of the
-- position is written. A recursion through isDoubleThree is on fuel: `none` is out of fuel. An index
-- below 0 would be outside of the array; from a cell of the board there is none.
pub mod Walk
pub mod Keeps
pub mod Enough
pub mod Runs
pub mod Fives
pub mod Rule
pub mod Forbidden
use c_gomoku_cli.Prelude.{
  ℕ, zero, suc, ◌+◌, ◌-◌, ◌*◌, ltb, leb, ◌==◌, if◌then◌else◌, Bool, true, false, ◌&&◌, ◌||◌, not,
  List, [], ◌∷◌, Option, none, some, update,
}
use c_gomoku_cli.Coord.{Color, black, white, empty, pos_from_move, color_from_move, color_code}
use c_gomoku_cli.Position.{Position, color_eq}

abbrev pub Board : Type 0
Board = ℕ → Color

-- enum ForbiddenType.
pub data ForbiddenType : Type 0 where
  forbidden_none double_three double_four overline : ForbiddenType

-- enum OpenFourType.
pub data OpenFourType : Type 0 where
  of_none of_true of_long : OpenFourType

-- DIRECTION.
abbrev pub directions : List ℕ
directions = 1 ∷ 31 ∷ 32 ∷ 33 ∷ []

-- pos - DIRECTION[iDir] * i and pos + DIRECTION[iDir] * j.
abbrev pub back : ℕ → ℕ → ℕ → ℕ
back q dir i = q - dir * i

abbrev pub ahead : ℕ → ℕ → ℕ → ℕ
ahead q dir j = q + dir * j

-- A loop of isFive and isOverline, with `n` rounds left: the last index and the count.
unfoldable pub run : Board → Color → (ℕ → ℕ) → ℕ → ℕ → ℕ → ℕ × ℕ
run b piece at zero i count = (i, count)
run b piece at (suc n) i count = elim (color_eq (b (at i)) piece) [
  | true ↦ run b piece at n (i + 1) (count + 1)
  | false ↦ (i, count)
]

-- The two loops of isFive and isOverline.
unfoldable pub line_count : Board → ℕ → Color → ℕ → ℕ
unfolding run
line_count b q piece dir =
    let before = run b piece (back q dir) 5 1 1 in
    (run b piece (ahead q dir) (6 - before.0) 1 before.1).1

-- Position::isFive along a direction.
unfoldable pub is_five_dir : Board → ℕ → Color → ℕ → Bool
unfolding line_count
is_five_dir b q piece dir = color_eq (b q) empty && (line_count b q piece dir == 5)

-- for (dir : DIRECTION) if (test(dir)) return true.
abbrev pub any_dir : List ℕ → (ℕ → Bool) → Bool
any_dir [] test = false
any_dir (dir ∷ dirs) test = test dir || any_dir dirs test

-- Position::isFive.
unfoldable pub is_five : Board → ℕ → Color → Bool
unfolding is_five_dir
is_five b q piece = color_eq (b q) empty && any_dir directions (is_five_dir b q piece)

-- Position::isOverline.
unfoldable pub is_overline : Board → ℕ → Color → Bool
unfolding line_count
is_overline b q piece =
    color_eq (b q) empty && any_dir directions (λ dir. ltb 5 (line_count b q piece dir))

-- The guards of isFour, isOpenFour and isOpenThree all fail to return.
unfoldable pub can_place : Board → ℕ → Color → Bool
unfolding is_five is_overline
can_place b q piece =
    color_eq (b q) empty
    && not (is_five b q piece)
    && not (color_eq piece black && is_overline b q black)
    && (color_eq piece black || color_eq piece white)

-- The loop that they share, with `n` rounds left: over stones of `piece`, to the first other cell,
-- where `last` is done if it is empty. The last index, and the variables of the loop.
unfoldable pub probe {ℓ} :
    {S : Type ℓ} → Board → Color → (ℕ → ℕ) → (S → S) → (ℕ → S → S) → ℕ → ℕ → S → ℕ × S
probe b piece at stone last zero i s = (i, s)
probe b piece at stone last (suc n) i s = elim (color_eq (b (at i)) piece) [
  | true ↦ probe b piece at stone last n (i + 1) (stone s)
  | false ↦ (i, if color_eq (b (at i)) empty then last (at i) s else s)
]

-- The body of isFour after its guards, up to delPiece.
abbrev pub four_at : Board → ℕ → Color → ℕ → Bool
unfolding probe is_five_dir
four_at placed q piece dir =
    let last : ℕ → Bool → Bool =
      λ posi four. if is_five_dir placed posi piece dir then true else four in
    let before = probe placed piece (back q dir) (λ four. four) last 4 1 false in
    elim before.1 [
      | true ↦ true
      | false ↦ (probe placed piece (ahead q dir) (λ four. four) last (5 - before.0) 1 false).1
    ]

-- Position::isFour.
unfoldable pub is_four : Board → ℕ → Color → ℕ → Board × Bool
unfolding can_place
is_four b q piece dir = elim (can_place b q piece) [
  | true ↦ (update (update b q piece) q empty, four_at (update b q piece) q piece dir)
  | false ↦ (b, false)
]

-- count and five.
abbrev pub count_five : Board → Color → ℕ → ℕ → ℕ × ℕ → ℕ × ℕ
unfolding is_five_dir
count_five placed piece dir posi s =
    (s.0, s.1 + (if is_five_dir placed posi piece dir then 1 else 0))

abbrev pub count_stone : ℕ × ℕ → ℕ × ℕ
count_stone s = (s.0 + 1, s.1)

-- five == 2 ? (count == 4 ? OF_TRUE : OF_LONG) : OF_NONE.
abbrev pub four_type : ℕ × ℕ → OpenFourType
four_type s = if s.1 == 2 then (if s.0 == 4 then of_true else of_long) else of_none

-- The body of isOpenFour after its guards, up to delPiece.
abbrev pub open_four_at : Board → ℕ → Color → ℕ → OpenFourType
unfolding probe
open_four_at placed q piece dir =
    let last : ℕ → ℕ × ℕ → ℕ × ℕ = count_five placed piece dir in
    let before = probe placed piece (back q dir) count_stone last 4 1 (1, 0) in
    four_type (
      if ltb 0 before.1.1
      then (probe placed piece (ahead q dir) count_stone last (5 - before.0) 1 before.1).1
      else before.1)

-- Position::isOpenFour.
unfoldable pub is_open_four : Board → ℕ → Color → ℕ → Board × OpenFourType
unfolding can_place
is_open_four b q piece dir = elim (can_place b q piece) [
  | true ↦ (update (update b q piece) q empty, open_four_at (update b q piece) q piece dir)
  | false ↦ (b, of_none)
]

abbrev pub is_long : OpenFourType → Bool
is_long of_long = true
is_long of_none = false
is_long of_true = false

abbrev pub is_true : OpenFourType → Bool
is_true of_true = true
is_true of_none = false
is_true of_long = false

-- The fours that a direction adds to nFour.
unfoldable pub fours : Board → ℕ → Color → ℕ → Board × ℕ
unfolding is_open_four is_four
fours b q piece dir =
    let open_four = is_open_four b q piece dir in
    let four = is_four open_four.0 q piece dir in
    elim (is_long open_four.1) [
      | true ↦ (open_four.0, 2)
      | false ↦ (four.0, if four.1 then 1 else 0)
    ]

-- The loop of isDoubleFour.
unfoldable pub count_fours : ℕ → Color → List ℕ → ℕ → Board → Board × Bool
unfolding fours
count_fours q piece [] n_four b = (b, false)
count_fours q piece (dir ∷ dirs) n_four b =
    let added = fours b q piece dir in
    elim (leb 2 (n_four + added.1)) [
      | true ↦ (added.0, true)
      | false ↦ count_fours q piece dirs (n_four + added.1) added.0
    ]

-- The guards of isDoubleFour and isDoubleThree fail to return.
unfoldable pub is_open : Board → ℕ → Color → Bool
unfolding is_five
is_open b q piece = color_eq (b q) empty && not (is_five b q piece)

-- Position::isDoubleFour.
unfoldable pub is_double_four : Board → ℕ → Color → Board × Bool
unfolding count_fours is_open
is_double_four b q piece = elim (is_open b q piece) [
  | true ↦ count_fours q piece directions 0 b
  | false ↦ (b, false)
]

-- The board and a Boolean variable, unless the fuel is out.
abbrev pub Answer : Type 0
Answer = Option (Board × Bool)

-- The functions below take isDoubleThree, at less fuel, as `double`.
module _ (double : Board → ℕ → Color → Answer) where
  -- openthree at the end of a run: isOpenFour == OF_TRUE && !isDoubleFour && !isDoubleThree.
  unfoldable pub three_test : Color → ℕ → ℕ → Board × Bool → Answer
  unfolding is_open_four is_double_four
  three_test piece dir posi (b, three) =
      let open_four = is_open_four b posi piece dir in
      let four = is_double_four open_four.0 posi piece in
      elim (is_true open_four.1) [
        | false ↦ some (open_four.0, three)
        | true ↦ elim four.1 [
          | true ↦ some (four.0, three)
          | false ↦ elim (double four.0 posi piece) [
            | none ↦ none
            | some r ↦ some (r.0, if r.1 then three else true)
          ]
        ]
      ]

  abbrev pub three_last : Color → ℕ → ℕ → Answer → Answer
  three_last piece dir posi none = none
  three_last piece dir posi (some s) = three_test piece dir posi s

  -- The second loop of isOpenThree, unless the first has set openthree.
  abbrev pub three_ahead : Board → ℕ → Color → ℕ → ℕ → Answer → Answer
  unfolding probe
  three_ahead placed q piece dir i none = none
  three_ahead placed q piece dir i (some (b, true)) = some (b, true)
  three_ahead placed q piece dir i (some (b, false)) =
      (probe placed piece (ahead q dir) (λ s. s) (three_last piece dir) (5 - i) 1
        (some (b, false))).1

  -- delPiece(pos); return openthree.
  abbrev pub take_off : ℕ → Answer → Answer
  take_off q none = none
  take_off q (some (b, three)) = some (update b q empty, three)

  abbrev pub three_at : Board → ℕ → Color → ℕ → Answer
  unfolding probe
  three_at placed q piece dir =
      let before =
        probe placed piece (back q dir) (λ s. s) (three_last piece dir) 4 1
          (some (placed, false)) in
      take_off q (three_ahead placed q piece dir before.0 before.1)

  -- Position::isOpenThree.
  unfoldable pub is_open_three : Board → ℕ → Color → ℕ → Answer
  unfolding can_place
  is_open_three b q piece dir = elim (can_place b q piece) [
    | true ↦ three_at (update b q piece) q piece dir
    | false ↦ some (b, false)
  ]

  -- The loop of isDoubleThree.
  unfoldable pub count_threes : ℕ → Color → List ℕ → ℕ → Board → Answer
  unfolding is_open_three
  count_threes q piece [] n_three b = some (b, false)
  count_threes q piece (dir ∷ dirs) n_three b = elim (is_open_three b q piece dir) [
    | none ↦ none
    | some (b', three) ↦
        let n = n_three + (if three then 1 else 0) in
        elim (leb 2 n) [ true ↦ some (b', true) | false ↦ count_threes q piece dirs n b' ]
  ]

-- Position::isDoubleThree.
unfoldable pub is_double_three : ℕ → Board → ℕ → Color → Answer
unfolding count_threes is_open
is_double_three zero b q piece = none
is_double_three (suc fuel) b q piece = elim (is_open b q piece) [
  | true ↦ count_threes (is_double_three fuel) q piece directions 0 b
  | false ↦ some (b, false)
]

-- isForbidden after isDoubleThree.
unfoldable pub fours_forbidden : ℕ → Board × Bool → Board × ForbiddenType
unfolding is_double_four is_overline
fours_forbidden q (b, true) = (b, double_three)
fours_forbidden q (b, false) =
    let four = is_double_four b q black in
    (
      four.0,
      if four.1
          then double_four
          else if is_overline four.0 q black
          then overline
          else forbidden_none,
    )

-- Position::isForbidden.
unfoldable pub is_forbidden : ℕ → Board → ℕ → Option (Board × ForbiddenType)
unfolding is_double_three fours_forbidden
is_forbidden fuel b q = elim (is_double_three fuel b q black) [
  | none ↦ none
  | some r ↦ some (fours_forbidden q r)
]

-- Position::check_forbidden_move, whose assertion does nothing.
unfoldable pub check_forbidden_move : ℕ → Position → ℕ → Option (Position × ForbiddenType)
unfolding is_forbidden
check_forbidden_move fuel p m = elim (color_from_move m == color_code black) [
  | false ↦ some (p, forbidden_none)
  | true ↦ elim (is_forbidden fuel p.board (pos_from_move m)) [
    | none ↦ none
    | some r ↦ some (record p { board = r.0 }, r.1)
  ]
]
