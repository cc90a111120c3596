-- ===== src/Position/Undo.antt =====
-- Taking back a move.
use c_gomoku_cli.Prelude.{ℕ, ◌+◌, ◌-◌, ◌≡◌, ap, fun_ext, update, arith, true, ◌∙◌}
use c_gomoku_cli.Coord.{Color, empty, opponent_color, pos_from_move}
use c_gomoku_cli.Position.{Position, move, undo, is_legal_move, color_eq}

color_eq→≡ : (a b : Color) → color_eq a b ≡ true → a ≡ b
color_eq→≡ a b h = ground arith

pub is_legal_move-empty :
    (p : Position) (m : ℕ) → is_legal_move p m ≡ true → p.board (pos_from_move m) ≡ empty
unfolding is_legal_move
is_legal_move-empty p m h = ground arith

opponent_twice : (c : Color) → opponent_color (opponent_color c) ≡ c
opponent_twice c = ground arith

update_twice : (b : ℕ → Color) (q : ℕ) (c : Color) → b q ≡ empty → update (update b q c) q empty ≡ b
update_twice b q c e = fun_ext λ j. ground arith

-- Taking back a legal move restores every field of the position, except that the dead entry of the
-- history array behind the last move keeps the move.
pub undo-move :
    (p : Position) (m : ℕ)
    → is_legal_move p m ≡ true
    → undo (move p m) ≡ record p { history_moves = update p.history_moves p.move_count m }
unfolding undo move
undo-move p m legal = λ i. record p {
  board = (same_board ∙ update_twice p.board (pos_from_move m) p.player_to_move was_empty) i;
  move_count = same_count i;
  history_moves = update p.history_moves p.move_count m;
  player_to_move = opponent_twice p.player_to_move i;
}
  where
    was_empty : p.board (pos_from_move m) ≡ empty
    was_empty = is_legal_move-empty p m legal

    same_count : p.move_count + 1 - 1 ≡ p.move_count
    same_count = omega arith

    same_move : update p.history_moves p.move_count m (p.move_count + 1 - 1) ≡ m
    same_move = ground arith

    same_board :
        (undo (move p m)).board
        ≡ update (update p.board (pos_from_move m) p.player_to_move) (pos_from_move m) empty
    same_board =
        ap (λ k. update (update p.board (pos_from_move m) p.player_to_move) (pos_from_move k) empty)
          same_move
