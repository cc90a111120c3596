-- ===== src/Position/TransformHistory.antt =====
-- The loops of Position::transform over the two arrays, and the whole transform.
use c_gomoku_cli.Prelude.{
  for_below, ℕ, zero, suc, ◌-◌, ◌<◌, ◌≤◌, ◌≡◌, inl, inr, refl, sym, ap, ◌∙◌, update, fun_ext, ltb,
  arith, if◌then◌else◌, lt→ltb,
}
use c_gomoku_cli.Coord.{
  pos_from_move, color_from_move, build_move_pos, transform_pos, TransformType,
}
use c_gomoku_cli.Coord.Moves.{pos_from_move-build_move_pos, color_from_move-build_move_pos}
use c_gomoku_cli.Coord.Symmetry.{
  OnBoard, symmetry, inverse, symmetry-OnBoard, transform_pos-cell, cell_at, symmetry-cell-inj,
  symmetry-inverse_back,
}
use c_gomoku_cli.Position.{
  Position, transform_board, transform_all, transform_move, transform_connection,
}
use c_gomoku_cli.Position.Validity.{IsCell, IsValid, Replays}
use c_gomoku_cli.Position.Setup.{IsCell-lt}
use c_gomoku_cli.Position.Transform.{
  transform_board-cell, transform_board-wall, transform_board-SameFrame,
}

-- An array whose entries below `k` are rewritten by `f`.
abbrev pub map_below : ℕ → (ℕ → ℕ) → (ℕ → ℕ) → ℕ → ℕ
map_below k f a i = if ltb i k then f (a i) else a i

map_below_zero : (f a : ℕ → ℕ) → map_below 0 f a ≡ a
map_below_zero f a = fun_ext λ i. ground arith

map_below-suc :
    (k : ℕ) (f a : ℕ → ℕ)
    → update (map_below k f a) k (f (map_below k f a k)) ≡ map_below (suc k) f a
map_below-suc k f a = fun_ext λ i. ground arith

-- What a move of the history becomes.
abbrev pub image : ℕ → TransformType → ℕ → ℕ
image size t m = build_move_pos (transform_pos (pos_from_move m) size t) (color_from_move m)

moves_loop :
    (k : ℕ) (p : Position) (t : TransformType)
    → for_below k (transform_move t) p
      ≡ record p { history_moves = map_below k (image p.board_size t) p.history_moves }
unfolding for_below
moves_loop zero p t =
    ap {A = ℕ → ℕ} {B = Position} (λ h. record p { history_moves = h })
      (sym (map_below_zero (image p.board_size t) p.history_moves))
moves_loop (suc k) p t =
    ap (transform_move t k) (moves_loop k p t)
    ∙ ap {A = ℕ → ℕ} {B = Position} (λ h. record p { history_moves = h })
        (map_below-suc k (image p.board_size t) p.history_moves)

connection_loop :
    (k : ℕ) (p : Position) (t : TransformType)
    → for_below k (transform_connection t) p ≡ record p {
      win_connection_pos = map_below k (λ q. transform_pos q p.board_size t) p.win_connection_pos;
    }
unfolding for_below
connection_loop zero p t =
    ap {A = ℕ → ℕ} {B = Position} (λ h. record p { win_connection_pos = h })
      (sym (map_below_zero (λ q. transform_pos q p.board_size t) p.win_connection_pos))
connection_loop (suc k) p t =
    ap (transform_connection t k) (connection_loop k p t)
    ∙ ap {A = ℕ → ℕ} {B = Position} (λ h. record p { win_connection_pos = h })
        (map_below-suc k (λ q. transform_pos q p.board_size t) p.win_connection_pos)

-- The transformed position, field by field.
pub transform_all_lem :
    (p : Position) (t : TransformType)
    → p.board_size ≤ 22
    → transform_all p t ≡ record p {
      board = (transform_board p t).board;
      history_moves = map_below p.move_count (image p.board_size t) p.history_moves;
      win_connection_pos =
          map_below p.win_connection_len (λ q. transform_pos q p.board_size t) p.win_connection_pos;
    }
unfolding transform_all
transform_all_lem p t hs =
    ap
      (λ s.
        for_below p.win_connection_len (transform_connection t)
          (for_below p.move_count (transform_move t) s))
      (transform_board-SameFrame p t hs)
    ∙ ap (for_below p.win_connection_len (transform_connection t))
        (moves_loop p.move_count (record p { board = (transform_board p t).board }) t)
    ∙ connection_loop p.win_connection_len
        (record p {
          board = (transform_board p t).board;
          history_moves = map_below p.move_count (image p.board_size t) p.history_moves;
        })
        t

module _ (size : ℕ) (t : TransformType) (hs : size ≤ 22) where
  pub transform_pos-IsCell : (q : ℕ) → IsCell size q → IsCell size (transform_pos q size t)
  transform_pos-IsCell q (x, y, hx, hy, e) =
      let (hx', hy') = symmetry-OnBoard t size (x, y) (hx, hy) in
      (
        (symmetry t (size - 1) (x, y)).0,
        (symmetry t (size - 1) (x, y)).1,
        hx',
        hy',
        rw e (transform_pos-cell t size x y (omega arith) (hx, hy)),
      )

  pub transform_pos-inj :
      (q r : ℕ)
      → IsCell size q
      → IsCell size r
      → transform_pos q size t ≡ transform_pos r size t
      → q ≡ r
  transform_pos-inj q r (x, y, hx, hy, e) (x', y', hx', hy', e') same =
      e ∙ ap cell_at coords ∙ sym e'
    where
      targets : cell_at (symmetry t (size - 1) (x, y)) ≡ cell_at (symmetry t (size - 1) (x', y'))
      targets =
          sym (transform_pos-cell t size x y (omega arith) (hx, hy))
          ∙ (rw e at (rw e' at same))
          ∙ transform_pos-cell t size x' y' (omega arith) (hx', hy')

      coords : ◌≡◌ {A = ℕ × ℕ} (x, y) (x', y')
      coords = symmetry-cell-inj t size (x, y) (x', y') (omega arith) (hx, hy) (hx', hy') targets

  -- Every cell is the image of a cell.
  pub transform_pos_onto :
      (q : ℕ) → IsCell size q → (r : ℕ) × IsCell size r × (transform_pos r size t ≡ q)
  transform_pos_onto q (x, y, hx, hy, e) =
      (cell_at back, (back.0, back.1, inside.0, inside.1, refl), there)
    where
      back : ℕ × ℕ
      back = symmetry (inverse t) (size - 1) (x, y)

      inside : OnBoard size back
      inside = symmetry-OnBoard (inverse t) size (x, y) (hx, hy)

      there : transform_pos (cell_at back) size t ≡ q
      there =
          transform_pos-cell t size back.0 back.1 (omega arith) inside
          ∙ ap cell_at (symmetry-inverse_back t size (x, y) (hx, hy))
          ∙ sym e

module _ (p : Position) (t : TransformType) (v : IsValid p) (r : Replays p) where
  abbrev pub n : ℕ
  n = p.board_size

  image_pos :
      (i : ℕ)
      → i < p.move_count
      → pos_from_move (image n t (p.history_moves i))
        ≡ transform_pos (pos_from_move (p.history_moves i)) n t
  image_pos i hi =
      pos_from_move-build_move_pos _ _
        (IsCell-lt n _ (omega (arith, v.size_le))
          (transform_pos-IsCell n t v.size_le _ (r.on_cell i hi)))
        (ground (arith, r.coloured i hi))

  pub image_color :
      (i : ℕ)
      → i < p.move_count
      → color_from_move (image n t (p.history_moves i)) ≡ color_from_move (p.history_moves i)
  image_color i hi =
      color_from_move-build_move_pos _ _
        (IsCell-lt n _ (omega (arith, v.size_le))
          (transform_pos-IsCell n t v.size_le _ (r.on_cell i hi)))
        (ground (arith, r.coloured i hi))

  pub board_at :
      (q : ℕ) → IsCell n q → (transform_board p t).board (transform_pos q n t) ≡ p.board q
  board_at q (x, y, hx, hy, e) =
      rw (e, transform_pos-cell t n x y (omega (arith, v.size_le)) (hx, hy))
        (transform_board-cell p t v.size_le x y hx hy)

  pub entry :
      (i : ℕ)
      → i < p.move_count
      → map_below p.move_count (image n t) p.history_moves i ≡ image n t (p.history_moves i)
  entry i hi = rw (lt→ltb i p.move_count hi)

  abbrev pub transformed : Position
  transformed = record p {
    board = (transform_board p t).board;
    history_moves = map_below p.move_count (image n t) p.history_moves;
    win_connection_pos =
        map_below p.win_connection_len (λ q. transform_pos q n t) p.win_connection_pos;
  }

  pub entry_pos :
      (i : ℕ)
      → i < p.move_count
      → pos_from_move (transformed.history_moves i)
        ≡ transform_pos (pos_from_move (p.history_moves i)) n t
  entry_pos i hi = ap pos_from_move (entry i hi) ∙ image_pos i hi

  pub transformed-IsValid : IsValid transformed
  transformed-IsValid = record {
    size_pos = v.size_pos;
    size_le = v.size_le;
    size_sqr = v.size_sqr;
    inside = λ q c e.
        let (q', c', there) = transform_pos_onto n t v.size_le q c in
        v.inside q' c' (sym (board_at q' c') ∙ rw there e);
    outside = λ q hq out. transform_board-wall p t v.size_le q out ∙ v.outside q hq out;
  }

  pub transformed-Replays : Replays transformed
  transformed-Replays = record {
    turn = r.turn;
    on_cell = λ i hi. rw (entry_pos i hi) (transform_pos-IsCell n t v.size_le _ (r.on_cell i hi));
    coloured = λ i hi. ap color_from_move (entry i hi) ∙ image_color i hi ∙ r.coloured i hi;
    stone = λ i hi.
        ap (transform_board p t).board (entry_pos i hi)
        ∙ board_at _ (r.on_cell i hi)
        ∙ r.stone i hi;
    distinct = λ i j hi hj e. r.distinct i j hi hj (
        transform_pos-inj n t v.size_le _ _ (r.on_cell i (omega arith)) (r.on_cell j hj)
          (sym (entry_pos i (omega arith)) ∙ e ∙ entry_pos j hj));
    covered = λ q c.
        let (q', c', there) = transform_pos_onto n t v.size_le q c in
        elim (r.covered q' c') [
          | inl free ↦ inl (rw there at (board_at q' c' ∙ free))
          | inr (i, hi, e) ↦ inr (i, hi, entry_pos i hi ∙ ap (λ k. transform_pos k n t) e ∙ there)
        ];
  }
