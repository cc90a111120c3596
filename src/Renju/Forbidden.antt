-- ===== src/Renju/Forbidden.antt =====
-- The answers of check_forbidden_move.
use c_gomoku_cli.Prelude.{
  ℕ, suc, ◌<◌, ◌≤◌, ◌≡◌, refl, sym, ap, ◌∙◌, inl, inr, true, false, Bool, Bool-cases, some, arith,
  ◌==◌, ≡→==, if◌then◌else◌,
}
use c_gomoku_cli.Coord.{black, empty, wall, color_code, pos_from_move, color_from_move}
use c_gomoku_cli.Coord.Cells.{cell}
use c_gomoku_cli.Position.{Position}
use c_gomoku_cli.Position.Validity.{IsValid}
use c_gomoku_cli.Position.Setup.{IsCell-cases}
use c_gomoku_cli.Renju.{
  Board, ForbiddenType, forbidden_none, overline, is_open, is_five, is_overline, is_double_four,
  is_double_three, fours_forbidden, is_forbidden, check_forbidden_move,
}
use c_gomoku_cli.Renju.Keeps.{is_double_four-board}
use c_gomoku_cli.Renju.Enough.{empties-le, Inside, is_double_three-Gives}

cell-Inside : (x y : ℕ) → x < 22 → y < 22 → (165 ≤ cell x y) × (cell x y ≤ 858)
unfolding cell
cell-Inside x y hx hy = omega arith

pub IsValid-Inside : (p : Position) → IsValid p → Inside p.board
IsValid-Inside p v q hq free = elim (IsCell-cases p.board_size q (omega (arith, v.size_le))) [
  | inl (x, y, hx, hy, e) ↦
      rw e (cell-Inside x y (omega (arith, v.size_le)) (omega (arith, v.size_le)))
  | inr out ↦ absurd (not_wall (sym free ∙ v.outside q hq out))
]
  where
    not_wall : empty ≡ wall → ⊥
    not_wall e = cc

pub pos_from_move-lt : (m : ℕ) → pos_from_move m < 1024
unfolding pos_from_move
pos_from_move-lt m = omega arith

fours_forbidden-board : (b : Board) (q : ℕ) (t : Bool) → (fours_forbidden q (b, t)).0 ≡ b
unfolding fours_forbidden
fours_forbidden-board b q true = refl
fours_forbidden-board b q false = is_double_four-board b q black

is_forbidden-keeps :
    (fuel : ℕ) (b : Board) (q : ℕ)
    → Inside b
    → 1024 < fuel
    → q < 1024
    → (t : ForbiddenType) × (is_forbidden fuel b q ≡ some (b, t))
unfolding is_forbidden
is_forbidden-keeps fuel b q inside h hq =
    let (v, e) =
      is_double_three-Gives fuel b q black (omega (arith, empties-le 1024 b)) inside hq in
    (
      (fours_forbidden q (b, v)).1,
      rw (e, is_forbidden)
          (ap (λ c. some (c, (fours_forbidden q (b, v)).1)) (fours_forbidden-board b q v)),
    )

-- On a valid board, with fuel above the 1024 entries of the array, check_forbidden_move ends with
-- an answer, and leaves the position as it was.
pub check_forbidden_move-keeps :
    (fuel : ℕ) (p : Position) (m : ℕ)
    → IsValid p
    → 1024 < fuel
    → (t : ForbiddenType) × (check_forbidden_move fuel p m ≡ some (p, t))
unfolding check_forbidden_move
check_forbidden_move-keeps fuel p m v h =
    let (t, e) =
      is_forbidden-keeps fuel p.board (pos_from_move m) (IsValid-Inside p v) h
        (pos_from_move-lt m) in
    elim (Bool-cases (color_from_move m == color_code black)) [
      | inr f ↦ rw (f, check_forbidden_move) (forbidden_none, refl)
      | inl f ↦ rw (f, e, check_forbidden_move) (t, refl)
    ]

five_closes : (b : Board) (q : ℕ) → is_five b q black ≡ true → is_open b q black ≡ false
unfolding is_open
five_closes b q h = ground arith

five_fours :
    (b : Board) (q : ℕ)
    → is_five b q black ≡ true
    → fours_forbidden q (b, false) ≡ (b, if is_overline b q black then overline else forbidden_none)
unfolding fours_forbidden is_double_four
five_fours b q h = rw (five_closes b q h, fours_forbidden, is_double_four) refl

-- With any fuel but 0, a black move for which isFive holds is never a double three or a double four:
-- it is forbidden, as an overline, exactly if isOverline holds.
pub check_forbidden_move-five :
    (fuel : ℕ) (p : Position) (m : ℕ)
    → color_from_move m ≡ color_code black
    → is_five p.board (pos_from_move m) black ≡ true
    → check_forbidden_move (suc fuel) p m
      ≡ some (p, if is_overline p.board (pos_from_move m) black then overline else forbidden_none)
unfolding check_forbidden_move is_forbidden is_double_three
check_forbidden_move-five fuel p m c h =
    let q = pos_from_move m in
    rw (≡→== _ _ c, five_closes p.board q h, check_forbidden_move, is_forbidden, is_double_three)
      (ap (λ r. some (record p { board = r.0 }, r.1)) (five_fours p.board q h))
