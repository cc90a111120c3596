-- ===== src/Position/Symmetries.antt =====
-- Position::transform as a whole: what it does to a valid position, and that it can be undone.
use c_gomoku_cli.Prelude.{ℕ, ◌-◌, ◌<◌, ◌≤◌, ◌≡◌, inl, inr, refl, sym, ap, ◌∙◌, arith, subst, ◌⊎◌}
use c_gomoku_cli.Coord.{pos_from_move, color_from_move, transform_pos, TransformType, identity}
use c_gomoku_cli.Coord.Cells.{cell}
use c_gomoku_cli.Coord.Symmetry.{
  inverse, symmetry, OnBoard, symmetry-OnBoard, symmetry-inverse, transform_pos-cell, cell_at,
}
use c_gomoku_cli.Position.{Position, transform, transform_all}
use c_gomoku_cli.Position.Validity.{IsCell, IsValid, Replays}
use c_gomoku_cli.Position.Setup.{IsCell-cases}
use c_gomoku_cli.Position.Transform.{transform_board-wall}
use c_gomoku_cli.Position.TransformHistory.{
  transform_all_lem, transform_pos-IsCell, board_at, transformed-IsValid, transformed-Replays,
  image_color, entry, entry_pos,
}

-- `q` is `p` carried along the symmetry `t`: the stones, the walls, the moves and the rest.
pub record Carries (t : TransformType) (p q : Position) : Type 0 where
  pub cells : (c : ℕ) → IsCell p.board_size c → q.board (transform_pos c p.board_size t) ≡ p.board c
  pub walls : (c : ℕ) → ¬ IsCell p.board_size c → q.board c ≡ p.board c
  pub moves :
      (i : ℕ)
      → i < p.move_count
      → pos_from_move (q.history_moves i)
        ≡ transform_pos (pos_from_move (p.history_moves i)) p.board_size t
  pub colors :
      (i : ℕ)
      → i < p.move_count
      → color_from_move (q.history_moves i) ≡ color_from_move (p.history_moves i)
  pub size : q.board_size ≡ p.board_size
  pub count : q.move_count ≡ p.move_count
  pub turn : q.player_to_move ≡ p.player_to_move

-- The same in coordinates: what stands at (x, y) stands in `q` at the image of (x, y), and a move on
-- (x, y) is in `q` a move on that image.
pub record Maps (t : TransformType) (p q : Position) : Type 0 where
  pub cells :
      (x y : ℕ)
      → OnBoard p.board_size (x, y)
      → q.board (cell_at (symmetry t (p.board_size - 1) (x, y))) ≡ p.board (cell x y)
  pub walls : (c : ℕ) → ¬ IsCell p.board_size c → q.board c ≡ p.board c
  pub moves :
      (i : ℕ)
      → i < p.move_count
      → (x y : ℕ) → OnBoard p.board_size (x, y)
      → pos_from_move (p.history_moves i) ≡ cell x y
      → pos_from_move (q.history_moves i) ≡ cell_at (symmetry t (p.board_size - 1) (x, y))
  pub on_board :
      (i : ℕ) → i < p.move_count → IsCell p.board_size (pos_from_move (p.history_moves i))
  pub colors :
      (i : ℕ)
      → i < p.move_count
      → color_from_move (q.history_moves i) ≡ color_from_move (p.history_moves i)
  pub size : q.board_size ≡ p.board_size
  pub count : q.move_count ≡ p.move_count
  pub turn : q.player_to_move ≡ p.player_to_move

module _ (p : Position) (v : IsValid p) (r : Replays p) where
  transform_all-Carries : (t : TransformType) → Carries t p (transform_all p t)
  transform_all-Carries t = subst (Carries t p) (sym (transform_all_lem p t v.size_le)) (record {
    cells = λ c h. board_at p t v r c h;
    walls = λ c h. transform_board-wall p t v.size_le c h;
    moves = λ i hi. entry_pos p t v r i hi;
    colors = λ i hi. ap color_from_move (entry p t v r i hi) ∙ image_color p t v r i hi;
    size = refl;
    count = refl;
    turn = refl;
  })

  identity-cell : (c : ℕ) → IsCell p.board_size c → transform_pos c p.board_size identity ≡ c
  identity-cell c (x, y, hx, hy, e) =
      rw e (transform_pos-cell identity p.board_size x y (omega (arith, v.size_le)) (hx, hy))

  identity-Carries : Carries identity p p
  identity-Carries = record {
    cells = λ c h. ap p.board (identity-cell c h);
    walls = λ c h. refl;
    moves = λ i hi. sym (identity-cell _ (r.on_cell i hi));
    colors = λ i hi. refl;
    size = refl;
    count = refl;
    turn = refl;
  }

  -- The transform carries the position along the code's own map of cells.
  transform-Carries : (t : TransformType) → Carries t p (transform p t)
  unfolding transform
  transform-Carries identity = identity-Carries
  transform-Carries t = transform_all-Carries t

  -- On a valid position with its history, transform carries each stone and each move of the history
  -- to the cell whose coordinates are the image of its own under the symmetry, with its colour, and
  -- changes neither the walls, the size, the move count nor the player to move.
  pub transform-Maps : (t : TransformType) → Maps t p (transform p t)
  transform-Maps t =
      let a = transform-Carries t in
      let image = λ (x y : ℕ) (h : OnBoard p.board_size (x, y)).
        transform_pos-cell t p.board_size x y (omega (arith, v.size_le)) h in
      record {
        cells = λ x y h.
            ap (transform p t).board (sym (image x y h))
            ∙ a.cells (cell x y) (x, y, h.0, h.1, refl);
        walls = a.walls;
        moves =
            λ i hi x y h e. a.moves i hi ∙ ap (λ c. transform_pos c p.board_size t) e ∙ image x y h;
        on_board = λ i hi. r.on_cell i hi;
        colors = a.colors;
        size = a.size;
        count = a.count;
        turn = a.turn;
      }

  transform_all-IsValid :
      (t : TransformType) → IsValid (transform_all p t) × Replays (transform_all p t)
  transform_all-IsValid t =
      subst (λ q. IsValid q × Replays q) (sym (transform_all_lem p t v.size_le))
        (transformed-IsValid p t v r, transformed-Replays p t v r)

  -- The transform of a valid position with its history is a valid position, and the stones of its
  -- board are exactly those of its history.
  pub transform-IsValid : (t : TransformType) → IsValid (transform p t) × Replays (transform p t)
  unfolding transform
  transform-IsValid identity = (v, r)
  transform-IsValid t = transform_all-IsValid t

transform_pos_back :
    (t : TransformType) (size c : ℕ)
    → size ≤ 22
    → IsCell size c
    → transform_pos (transform_pos c size t) size (inverse t) ≡ c
transform_pos_back t size c hs (x, y, hx, hy, e) =
    ap (λ k. transform_pos (transform_pos k size t) size (inverse t)) e
    ∙ ap (λ k. transform_pos k size (inverse t))
        (transform_pos-cell t size x y (omega arith) (hx, hy))
    ∙ transform_pos-cell (inverse t) size _ _ (omega arith)
        (symmetry-OnBoard t size (x, y) (hx, hy))
    ∙ ap cell_at (symmetry-inverse t size (x, y) (hx, hy))
    ∙ sym e

module _ (t : TransformType) (p q s : Position) (v : IsValid p) (r : Replays p) (a : Carries t p q)
    (b : Carries (inverse t) q s) where
  abbrev n : ℕ
  n = p.board_size

  back : (c : ℕ) → IsCell n c → transform_pos (transform_pos c n t) q.board_size (inverse t) ≡ c
  back c h =
      ap (λ k. transform_pos (transform_pos c n t) k (inverse t)) a.size
      ∙ transform_pos_back t n c v.size_le h

  there : (c : ℕ) → IsCell n c → IsCell q.board_size (transform_pos c n t)
  there c h =
      subst (λ k. IsCell k (transform_pos c n t)) (sym a.size)
        (transform_pos-IsCell n t v.size_le c h)

  cell_back : (c : ℕ) → (IsCell n c) ⊎ (¬ IsCell n c) → s.board c ≡ p.board c
  cell_back c (inl h) =
      ap s.board (sym (back c h)) ∙ b.cells (transform_pos c n t) (there c h) ∙ a.cells c h
  cell_back c (inr h) = b.walls c (λ k. h (subst (λ m. IsCell m c) a.size k)) ∙ a.walls c h

  move_back :
      (i : ℕ)
      → i < p.move_count
      → pos_from_move (s.history_moves i) ≡ pos_from_move (p.history_moves i)
  move_back i hi =
      b.moves i (omega (arith, a.count))
      ∙ ap (λ k. transform_pos k q.board_size (inverse t)) (a.moves i hi)
      ∙ back _ (r.on_cell i hi)

-- On a valid position with its history, `transform` by a symmetry and then by the inverse symmetry
-- gives back every cell of the board and every cell of the history.
pub transform_back :
    (p : Position) (t : TransformType)
    → IsValid p
    → Replays p
    → ((c : ℕ) → (transform (transform p t) (inverse t)).board c ≡ p.board c)
      × ((i : ℕ)
          → i < p.move_count
          → pos_from_move ((transform (transform p t) (inverse t)).history_moves i)
            ≡ pos_from_move (p.history_moves i))
transform_back p t v r =
    let there = transform-Carries p v r t in
    let (v', r') = transform-IsValid p v r t in
    let home = transform-Carries (transform p t) v' r' (inverse t) in
    (
      λ c.
          cell_back t p _ _ v r there home c
            (IsCell-cases p.board_size c (omega (arith, v.size_le))),
      move_back t p _ _ v r there home,
    )
