-- ===== src/OpeningText/Applies.antt =====
-- A position that is printed as an opening is set up again by the opening.
use c_gomoku_cli.Prelude.{
  ℕ, zero, suc, ◌<◌, ◌≤◌, ◌≡◌, inl, inr, refl, sym, ap, ◌∙◌, true, List, [], ◌∷◌, ◌++◌, some, arith,
  All,
}
use c_gomoku_cli.Coord.{Color, empty, color_code, pos_from_move, build_move_pos}
use c_gomoku_cli.Coord.Moves.{pos_from_move-build_move_pos, color_from_move-build_move_pos}
use c_gomoku_cli.Position.{Position, is_legal_move, is_in_board, move, init_board}
use c_gomoku_cli.Position.Validity.{IsCell, IsValid, Replays, player_at}
use c_gomoku_cli.Position.Setup.{IsCell-lt, init_board-IsValid, init_board-Replays}
use c_gomoku_cli.Position.Replay.{Playable, player_at-ne-empty, move-IsValid, move-Replays}
use c_gomoku_cli.Text.{
  OpeningType, opening_offset, opening_pos, to_opening_str, separator, square_str,
}
use c_gomoku_cli.OpeningText.{place_squares, apply_opening}
use c_gomoku_cli.OpeningText.Prints.{first_squares, print_from, to_opening_str-print_from}
use c_gomoku_cli.OpeningText.RoundTrip.{Cells, parse_opening-print_from}

-- The move of the player to move to the square.
placed : Position → ℕ → ℕ
placed q s = build_move_pos s (color_code q.player_to_move)

place_squares-append :
    (ss : List ℕ) (s : ℕ) (q : Position)
    → place_squares (ss ++ s ∷ []) q ≡ move (place_squares ss q) (placed (place_squares ss q) s)
unfolding place_squares placed
place_squares-append [] s q = refl
place_squares-append (r ∷ rs) s q = place_squares-append rs s _

code-lt : (c : Color) → color_code c < 4
code-lt c = ground arith

color-empty-legal :
    (q : Position) (m : ℕ) → q.board (pos_from_move m) ≡ empty → is_legal_move q m ≡ true
unfolding is_legal_move is_in_board
color-empty-legal q m e = ground arith

-- The position `q` is valid and was played on the first `k` squares of `p`.
pub record Follows (p q : Position) (k : ℕ) : Type 0 where
  pub valid : IsValid q
  pub replays : Replays q
  pub size : q.board_size ≡ p.board_size
  pub count : q.move_count ≡ k
  pub squares :
      (i : ℕ) → i < k → pos_from_move (q.history_moves i) ≡ pos_from_move (p.history_moves i)

module _ (p : Position) (v : IsValid p) (r : Replays p) where
  square-lt : (k : ℕ) → k < p.move_count → pos_from_move (p.history_moves k) < 1024
  square-lt k hk = IsCell-lt p.board_size _ (omega (arith, v.size_le)) (r.on_cell k hk)

  placed-pos :
      (q : Position) (k : ℕ)
      → k < p.move_count
      → pos_from_move (placed q (pos_from_move (p.history_moves k)))
        ≡ pos_from_move (p.history_moves k)
  unfolding placed
  placed-pos q k hk = pos_from_move-build_move_pos _ _ (square-lt k hk) (code-lt q.player_to_move)

  -- The next square is still empty.
  square_empty :
      (q : Position) (k : ℕ)
      → k < p.move_count
      → Follows p q k
      → q.board (pos_from_move (p.history_moves k)) ≡ empty
  square_empty q k hk f = elim (f.replays.covered _ (rw f.size (r.on_cell k hk))) [
    | inl e ↦ e
    | inr (i, hi, e) ↦ absurd (
        r.distinct i k (omega (arith, f.count)) hk (sym (f.squares i (omega (arith, f.count))) ∙ e))
  ]

  placed-Playable :
      (q : Position) (k : ℕ)
      → k < p.move_count
      → Follows p q k
      → Playable q (placed q (pos_from_move (p.history_moves k)))
  placed-Playable q k hk f = record {
    legal = color-empty-legal q _ (ap q.board (placed-pos q k hk) ∙ square_empty q k hk f);
    own =
        unfold placed in
        color_from_move-build_move_pos _ _ (square-lt k hk) (code-lt q.player_to_move);
  }

  move-Follows :
      (q : Position) (k : ℕ)
      → k < p.move_count
      → Follows p q k
      → Follows p (move q (placed q (pos_from_move (p.history_moves k)))) (suc k)
  move-Follows q k hk f =
      let ok = placed-Playable q k hk f in
      record {
        valid = move-IsValid q _ f.valid f.replays ok;
        replays = move-Replays q _ f.valid f.replays ok;
        size = unfold move in f.size;
        count = unfold move in omega (arith, f.count);
        squares = unfold move in λ i hi. ground (arith, f.count, f.squares i, placed-pos q k hk);
      }

  place-Follows :
      (q : Position) (k : ℕ)
      → k ≤ p.move_count
      → Follows p q 0
      → Follows p (place_squares (first_squares p k) q) k
  unfolding first_squares place_squares
  place-Follows q zero h f = f
  place-Follows q (suc k) h f =
      rw (place_squares-append (first_squares p k) _ q)
        (move-Follows _ k (omega arith) (place-Follows q k (omega arith) f))

  first_squares-Cells :
      (b : Position) (k : ℕ)
      → b.board_size ≡ p.board_size
      → k ≤ p.move_count
      → Cells b (first_squares p k)
  unfolding first_squares
  first_squares-Cells b zero e h = tt
  first_squares-Cells b (suc k) e h =
      snoc (first_squares p k) _ (first_squares-Cells b k e (omega arith))
        (rw e (r.on_cell k (omega arith)))
    where
      snoc :
          (ss : List ℕ) (s : ℕ)
          → All (IsCell b.board_size) ss
          → IsCell b.board_size s
          → All (IsCell b.board_size) (ss ++ s ∷ [])
      snoc [] s h c = (c, tt)
      snoc (x ∷ xs) s (hx, h) c = (hx, snoc xs s h c)

  fresh-Follows :
      (b : Position) → b.board_size ≡ p.board_size → Follows p (init_board b b.board_size) 0
  fresh-Follows b e = record {
    valid =
        init_board-IsValid b b.board_size (omega (arith, v.size_pos)) (omega (arith, v.size_le));
    replays = init_board-Replays b b.board_size (omega (arith, v.size_le));
    size = unfold init_board in e;
    count = unfold init_board in refl;
    squares = λ i hi. absurd (omega arith);
  }

  -- The position that the squares are placed on.
  abbrev set_up : Position → Position
  set_up b = place_squares (first_squares p p.move_count) (init_board b b.board_size)

  print_from-size :
      (b : Position) (type : OpeningType) (i : ℕ) (ss : List ℕ)
      → b.board_size ≡ p.board_size
      → print_from p type i ss ≡ print_from b type i ss
  unfolding print_from
  print_from-size b type i [] e = refl
  print_from-size b type i (s ∷ ss) e =
      ap (λ t. separator type i ++ (square_str p type s ++ t)) (print_from-size b type (suc i) ss e)
      ∙ ap (λ t. separator type i ++ (t ++ print_from b type (suc i) ss)) (square b type s e)
    where
      square :
          (b : Position) (type : OpeningType) (s : ℕ)
          → b.board_size ≡ p.board_size
          → square_str p type s ≡ square_str b type s
      square b opening_offset s e = rw e refl
      square b opening_pos s e = refl

  applied :
      (b : Position) (type : OpeningType)
      → b.board_size ≡ p.board_size
      → apply_opening b (to_opening_str p type) type ≡ some (set_up b)
  unfolding apply_opening
  applied b type e =
      rw
        (
          to_opening_str-print_from p type,
          print_from-size b type 0 _ e,
          parse_opening-print_from b (omega (arith, v.size_le)) type (first_squares p p.move_count)
              (first_squares-Cells b p.move_count e (omega arith)),
        )
        refl

  same_board :
      (q : Position) (s : ℕ)
      → Follows p q p.move_count
      → IsCell p.board_size s
      → q.board s ≡ p.board s
  same_board q s f c = elim (r.covered s c) [
    | inr (i, hi, e) ↦
        ap q.board (sym e ∙ sym (f.squares i hi))
        ∙ f.replays.stone i (omega (arith, f.count))
        ∙ sym (r.stone i hi)
        ∙ ap p.board e
    | inl free ↦ elim (f.replays.covered s (rw f.size c)) [
      | inl e ↦ e ∙ sym free
      | inr (i, hi, e) ↦ absurd (
          let below : i < p.move_count = omega (arith, f.count) in
          player_at-ne-empty i
            (sym (r.stone i below) ∙ ap p.board (sym (f.squares i below) ∙ e) ∙ free))
    ]
  ]

  -- A valid position that was played from the empty board, printed as an opening of either type and
  -- applied to a position of the same board size, whatever that held, gives a valid position with
  -- the same squares in its move history, the same stones on every cell and the same player to move.
  pub apply_opening-to_opening_str :
      (b : Position) (type : OpeningType)
      → b.board_size ≡ p.board_size
      → (q : Position) × (apply_opening b (to_opening_str p type) type ≡ some q)
        × Follows p q p.move_count
        × ((s : ℕ) → IsCell p.board_size s → q.board s ≡ p.board s)
        × (q.player_to_move ≡ p.player_to_move)
  apply_opening-to_opening_str b type e =
      let f =
        place-Follows (init_board b b.board_size) p.move_count (omega arith) (fresh-Follows b e) in
      (
        set_up b,
        applied b type e,
        f,
        λ s c. same_board (set_up b) s f c,
        f.replays.turn ∙ ap player_at f.count ∙ sym r.turn,
      )
