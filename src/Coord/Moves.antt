-- ===== src/Coord/Moves.antt =====
-- A move packs a cell index and a color, and unpacks to them.
use c_gomoku_cli.Prelude.{ℕ, ◌+◌, ◌*◌, ◌/◌, ◌%◌, ◌<◌, ◌≡◌, sym, ap, ◌∙◌, arith, bit_or}
use c_gomoku_cli.Coord.{pos_from_move, color_from_move, build_move_pos}
use c_gomoku_cli.Coord.Bits.{bit_or-color}

pub build_move_pos_lem :
    (p side : ℕ) → p < 1024 → side < 4 → build_move_pos p side ≡ side * 1024 + p
unfolding build_move_pos
build_move_pos_lem p side hp hs = omega (arith, split)
  where
    hi : (side * 1024 + p) / 1024 ≡ side
    hi = omega arith

    lo : (side * 1024 + p) % 1024 ≡ p
    lo = omega arith

    split : bit_or (side * 1024) p ≡ side * 1024 + p
    split =
        sym
          (ap (λ c. bit_or (c * 1024) ((side * 1024 + p) % 1024)) hi ∙ ap (bit_or (side * 1024)) lo)
        ∙ bit_or-color (side * 1024 + p) (omega arith)

pub pos_from_move-build_move_pos :
    (p side : ℕ) → p < 1024 → side < 4 → pos_from_move (build_move_pos p side) ≡ p
unfolding pos_from_move
pos_from_move-build_move_pos p side hp hs = omega (arith, build_move_pos_lem p side hp hs)

pub color_from_move-build_move_pos :
    (p side : ℕ) → p < 1024 → side < 4 → color_from_move (build_move_pos p side) ≡ side
unfolding color_from_move
color_from_move-build_move_pos p side hp hs = omega (arith, build_move_pos_lem p side hp hs)
