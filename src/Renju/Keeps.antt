-- ===== src/Renju/Keeps.antt =====
-- The board after the tests that place a stone and take it off.
use c_gomoku_cli.Prelude.{
  ℕ, ◌+◌, ◌≡◌, refl, ◌∙◌, inl, inr, true, Bool-cases, List, [], ◌∷◌, update, fun_ext, arith, leb,
}
use c_gomoku_cli.Coord.{Color, empty}
use c_gomoku_cli.Renju.{
  Board, can_place, is_open, is_four, is_open_four, fours, count_fours, is_double_four, is_long,
  directions,
}

-- A stone put on an empty cell and taken off again.
pub put_back :
    (b : Board) (q : ℕ) (piece : Color) → b q ≡ empty → update (update b q piece) q empty ≡ b
put_back b q piece e = fun_ext λ j. ground arith

pub can_place-empty : (b : Board) (q : ℕ) (piece : Color) → can_place b q piece ≡ true → b q ≡ empty
unfolding can_place
can_place-empty b q piece h = ground arith

pub is_open-empty : (b : Board) (q : ℕ) (piece : Color) → is_open b q piece ≡ true → b q ≡ empty
unfolding is_open
is_open-empty b q piece h = ground arith

pub is_four-board : (b : Board) (q : ℕ) (piece : Color) (dir : ℕ) → (is_four b q piece dir).0 ≡ b
unfolding is_four
is_four-board b q piece dir = elim (Bool-cases (can_place b q piece)) [
  | inl e ↦ rw (e, is_four) (put_back b q piece (can_place-empty b q piece e))
  | inr e ↦ rw (e, is_four)
]

pub is_open_four-board :
    (b : Board) (q : ℕ) (piece : Color) (dir : ℕ) → (is_open_four b q piece dir).0 ≡ b
unfolding is_open_four
is_open_four-board b q piece dir = elim (Bool-cases (can_place b q piece)) [
  | inl e ↦ rw (e, is_open_four) (put_back b q piece (can_place-empty b q piece e))
  | inr e ↦ rw (e, is_open_four)
]

fours-board : (b : Board) (q : ℕ) (piece : Color) (dir : ℕ) → (fours b q piece dir).0 ≡ b
unfolding fours
fours-board b q piece dir = elim (Bool-cases (is_long (is_open_four b q piece dir).1)) [
  | inl e ↦ rw (e, fours) (is_open_four-board b q piece dir)
  | inr e ↦
      rw (e, fours)
        (is_four-board (is_open_four b q piece dir).0 q piece dir
          ∙ is_open_four-board b q piece dir)
]

count_fours-board :
    (q : ℕ) (piece : Color) (dirs : List ℕ) (n : ℕ) (b : Board)
    → (count_fours q piece dirs n b).0 ≡ b
unfolding count_fours
count_fours-board q piece [] n b = refl
count_fours-board q piece (dir ∷ dirs) n b =
    let added = fours b q piece dir in
    elim (Bool-cases (leb 2 (n + added.1))) [
      | inl e ↦ rw (e, count_fours) (fours-board b q piece dir)
      | inr e ↦
          rw (e, count_fours)
            (count_fours-board q piece dirs (n + added.1) added.0 ∙ fours-board b q piece dir)
    ]

pub is_double_four-board : (b : Board) (q : ℕ) (piece : Color) → (is_double_four b q piece).0 ≡ b
unfolding is_double_four
is_double_four-board b q piece = elim (Bool-cases (is_open b q piece)) [
  | inl e ↦ rw (e, is_double_four) (count_fours-board q piece directions 0 b)
  | inr e ↦ rw (e, is_double_four)
]
