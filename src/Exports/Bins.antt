-- ===== src/Exports/Bins.antt =====
-- What export_samples_bin writes about a sample.
use c_gomoku_cli.Prelude.{
  ℕ, zero, suc, ◌+◌, ◌*◌, ◌/◌, ◌%◌, ◌^◌, ◌<◌, ◌≤◌, ◌≡◌, refl, sym, ap, ◌∙◌, List, [], ◌∷◌, map,
  arith, pos,
}
use c_gomoku_cli.Coord.{pos_raw, make_pos, coord_x, coord_y, pos_from_move, color_from_move}
use c_gomoku_cli.Coord.Cells.{cell, make_pos-cell, coord_x-cell, coord_y-cell}
use c_gomoku_cli.Position.{Position}
use c_gomoku_cli.Position.Validity.{IsCell}
use c_gomoku_cli.Game.{GameRule, Sample}
use c_gomoku_cli.Exports.{raw_pos, raws_from, bin_entry}
use c_gomoku_cli.Exports.Packs.{IsOnBoard}

-- A reader's square of ten bits, with the column above the row.
unfoldable pub read_square : ℕ → ℕ
unfolding make_pos
read_square r = make_pos (pos (r / 32)) (pos (r % 32))

-- The squares of `n` moves of the history, from the move `i` on.
unfoldable pub squares_from : Position → ℕ → ℕ → List ℕ
unfolding pos_from_move
squares_from p i zero = []
squares_from p i (suc n) = pos_from_move (p.history_moves i) ∷ squares_from p (i + 1) n

raw_pos-cell : (x y : ℕ) → x < 22 → y < 22 → raw_pos (cell x y) ≡ x * 32 + y
unfolding raw_pos pos_raw
raw_pos-cell x y hx hy =
    rw (coord_x-cell x y (omega arith), coord_y-cell x y (omega arith)) (omega arith)

read_square-packed : (x y : ℕ) → x < 22 → y < 22 → read_square (x * 32 + y) ≡ cell x y
unfolding read_square
read_square-packed x y hx hy =
    ap (λ k. make_pos (pos k) (pos ((x * 32 + y) % 32))) (column x y hy)
    ∙ ap (λ k. make_pos (pos x) (pos k)) (row x y hy)
    ∙ make_pos-cell x y (omega arith) (omega arith)
  where
    column : (x y : ℕ) → y < 22 → (x * 32 + y) / 32 ≡ x
    column x y hy = omega arith

    row : (x y : ℕ) → y < 22 → (x * 32 + y) % 32 ≡ y
    row x y hy = omega arith

read_square-raw_pos : (size q : ℕ) → size ≤ 22 → IsCell size q → read_square (raw_pos q) ≡ q
read_square-raw_pos size q h (x, y, hx, hy, e) =
    ap (λ k. read_square (raw_pos k)) e
    ∙ ap read_square (raw_pos-cell x y (omega arith) (omega arith))
    ∙ read_square-packed x y (omega arith) (omega arith)
    ∙ sym e

raws_from-squares :
    (s : Sample) (i n : ℕ)
    → IsOnBoard s
    → i + n ≤ s.position.move_count
    → map read_square (raws_from s.position i n) ≡ squares_from s.position i n
unfolding raws_from squares_from
raws_from-squares s i zero o h = refl
raws_from-squares s i (suc n) o h =
    ap (λ q. q ∷ map read_square (raws_from s.position (i + 1) n))
      (read_square-raw_pos s.position.board_size _ o.size_le (o.played i (omega arith)))
    ∙ ap (λ qs. pos_from_move (s.position.history_moves i) ∷ qs)
        (raws_from-squares s (i + 1) n o (omega arith))

move-column :
    (m x y : ℕ)
    → x < 22
    → y < 22
    → pos_from_move m ≡ cell x y
    → coord_x m ≡ pos (color_from_move m * 32 + x)
unfolding coord_x pos_from_move color_from_move cell
move-column m x y hx hy e = ground arith

move-row : (m x y : ℕ) → x < 22 → y < 22 → pos_from_move m ≡ cell x y → coord_y m ≡ pos y
unfolding coord_y pos_from_move cell
move-row m x y hx hy e = ground arith

-- The color stays above the ten bits of the square.
raw_pos-color :
    (m x y : ℕ)
    → m < 4096
    → x < 22
    → y < 22
    → pos_from_move m ≡ cell x y
    → raw_pos m ≡ color_from_move m * 1024 + (x * 32 + y)
unfolding raw_pos pos_raw color_from_move
raw_pos-color m x y hm hx hy e =
    rw (move-column m x y hx hy e, move-row m x y hx hy e) (omega arith)

best_move-parts :
    (m x y : ℕ)
    → m < 4096
    → x < 22
    → y < 22
    → pos_from_move m ≡ cell x y
    → (raw_pos m % 2 ^ 13 % 1024 ≡ x * 32 + y) × (raw_pos m % 2 ^ 13 / 1024 ≡ color_from_move m)
unfolding color_from_move
best_move-parts m x y hm hx hy e =
    (omega (arith, raw_pos-color m x y hm hx hy e), omega (arith, raw_pos-color m x y hm hx hy e))

-- From the entry of a sample with fewer than 512 stones, whose moves are squares of the board, a
-- reader gets back the result, the board's size, the number of moves, the squares of the history in
-- their order, and, from the lower ten bits of its move, the square of the sample's move; the bits
-- above them are the color of the move.
pub read_square-bin_entry :
    (rule : GameRule) (s : Sample)
    → IsOnBoard s
    → s.position.move_count < 512
    → s.result < 4
    → s.best_move < 4096
    → ((bin_entry rule s).result ≡ s.result)
      × ((bin_entry rule s).boardsize ≡ s.position.board_size)
      × ((bin_entry rule s).ply ≡ s.position.move_count)
      × (map read_square (bin_entry rule s).position
          ≡ squares_from s.position 0 s.position.move_count)
      × (read_square ((bin_entry rule s).best_move % 1024) ≡ pos_from_move s.best_move)
      × ((bin_entry rule s).best_move / 1024 ≡ color_from_move s.best_move)
unfolding bin_entry
read_square-bin_entry rule s o hc hr hm =
    let (x, y, hx, hy, e) = o.best in
    let small : s.position.board_size ≤ 22 = o.size_le in
    let (square, color) = best_move-parts s.best_move x y hm (omega arith) (omega arith) e in
    (
      omega arith,
      omega arith,
      omega arith,
      raws_from-squares s 0 s.position.move_count o (omega arith),
      ap read_square square ∙ read_square-packed x y (omega arith) (omega arith) ∙ sym e,
      color,
    )
