-- ===== src/Renju/Rule.antt =====
-- The rule of Renju for a black move that makes five, in the coordinates of the board.
use c_gomoku_cli.Prelude.{
  ℕ, suc, ◌≡◌, ◌⊎◌, inl, inr, refl, sym, subst, true, Bool-cases, some, if◌then◌else◌, ap, ◌∙◌,
}
use c_gomoku_cli.Coord.{black, empty, color_code, color_from_move, pos_from_move}
use c_gomoku_cli.Coord.Cells.{cell}
use c_gomoku_cli.Position.{Position}
use c_gomoku_cli.Five.Axis.{Axis}
use c_gomoku_cli.Renju.{
  ForbiddenType, forbidden_none, overline, is_five, is_overline, check_forbidden_move,
}
use c_gomoku_cli.Renju.Forbidden.{check_forbidden_move-five}
use c_gomoku_cli.Renju.Runs.{Four, FiveMore}
use c_gomoku_cli.Renju.Fives.{ahead_cell, back_cell, is_five_iff, is_overline_iff}

-- A black stone on the empty cell (x, y) makes exactly five in a row along some axis.
abbrev pub MakesFive : Position → ℕ → ℕ → Type 0
MakesFive p x y = (ax : Axis) × Four p.board black (back_cell ax x y) (ahead_cell ax x y)

-- It makes six or more along some axis.
abbrev pub MakesMore : Position → ℕ → ℕ → Type 0
MakesMore p x y = (ax : Axis) × FiveMore p.board black (back_cell ax x y) (ahead_cell ax x y)

-- A black move on an empty cell that makes exactly five in a row along an axis is judged without any
-- further recursion, so with any fuel but 0, and leaves the position as it was: it is an overline if
-- it also makes six or more along an axis, and else it is not forbidden, whatever threes and fours it
-- makes.
pub check_forbidden_move-rule :
    (fuel : ℕ) (p : Position) (m x y : ℕ)
    → color_from_move m ≡ color_code black
    → pos_from_move m ≡ cell x y
    → p.board (cell x y) ≡ empty
    → MakesFive p x y
    → (t : ForbiddenType) × (check_forbidden_move (suc fuel) p m ≡ some (p, t))
      × (((t ≡ overline) × MakesMore p x y) ⊎ ((t ≡ forbidden_none) × (¬ MakesMore p x y)))
check_forbidden_move-rule fuel p m x y c at free five =
    let here = (is_five_iff p.board x y black).1 (free, five) in
    let there = subst (λ q. is_five p.board q black ≡ true) (sym at) here in
    let judged =
      check_forbidden_move-five fuel p m c there
      ∙ ap (λ q. some (p, if is_overline p.board q black then overline else forbidden_none)) at in
    let more = is_overline_iff p.board x y black in
    elim (Bool-cases (is_overline p.board (cell x y) black)) [
      | inl long ↦ (
        overline,
        judged ∙ ap (λ b. some (p, if b then overline else forbidden_none)) long,
        inl (refl, (more.0 long).1),
      )
      | inr short ↦ (
        forbidden_none,
        judged ∙ ap (λ b. some (p, if b then overline else forbidden_none)) short,
        inr (refl, λ h. cc (sym short ∙ more.1 (free, h))),
      )
    ]
