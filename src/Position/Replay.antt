-- ===== src/Position/Replay.antt =====
-- Moves and undos keep the board in step with the history.
use c_gomoku_cli.Prelude.{
  ℕ, ◌+◌, ◌-◌, ◌<◌, ◌≡◌, ◌≢◌, ◌⊎◌, inl, inr, refl, sym, ap, ◌∙◌, update, ◌==◌, ==→≡, Bool-cases,
  true, false, arith,
}
use c_gomoku_cli.Coord.{
  Color, empty, wall, color_code, opponent_color, pos_from_move, color_from_move,
}
use c_gomoku_cli.Position.{Position, move, undo, is_legal_move}
use c_gomoku_cli.Position.Validity.{IsCell, IsValid, Replays, player_at}
use c_gomoku_cli.Position.Setup.{IsCell-cases}
use c_gomoku_cli.Position.Undo.{is_legal_move-empty}

pos_from_move-lt : (m : ℕ) → pos_from_move m < 1024
unfolding pos_from_move
pos_from_move-lt m = omega arith

pub player_at-suc : (i : ℕ) → player_at (i + 1) ≡ opponent_color (player_at i)
player_at-suc i = ground arith

pub player_at-ne-empty : (i : ℕ) → player_at i ≢ empty
player_at-ne-empty i = ground arith

player_at-ne-wall : (i : ℕ) → player_at i ≢ wall
player_at-ne-wall i = ground arith

-- What Game::play checks before it plays a move, and how gomostr_to_move colors it.
pub record Playable (p : Position) (m : ℕ) : Type 0 where
  pub legal : is_legal_move p m ≡ true
  pub own : color_from_move m ≡ color_code p.player_to_move

module _ (p : Position) (m : ℕ) (v : IsValid p) (legal : is_legal_move p m ≡ true) where
  -- A legal move lies on the board.
  pub is_legal_move-IsCell : IsCell p.board_size (pos_from_move m)
  is_legal_move-IsCell =
      elim (IsCell-cases p.board_size (pos_from_move m) (omega (arith, v.size_le))) [
        | inl c ↦ c
        | inr out ↦ absurd (
            cc (
              sym (v.outside (pos_from_move m) (pos_from_move-lt m) out)
              ∙ is_legal_move-empty p m legal))
      ]

-- A legal move of a player keeps the board valid.
pub legal-IsValid :
    (p : Position) (m : ℕ)
    → IsValid p
    → is_legal_move p m ≡ true
    → p.player_to_move ≢ wall
    → IsValid (move p m)
unfolding move
legal-IsValid p m v legal ne_wall = record {
  size_pos = v.size_pos;
  size_le = v.size_le;
  size_sqr = v.size_sqr;
  inside = λ q c. ground (arith, v.inside q c, ne_wall);
  outside = λ q hq out. elim (Bool-cases (q == pos_from_move m)) [
    | inl e ↦ absurd (out (rw (==→≡ q (pos_from_move m) e) (is_legal_move-IsCell p m v legal)))
    | inr ne ↦ rw ne (v.outside q hq out)
  ];
}

module _ (p : Position) (m : ℕ) (v : IsValid p) (r : Replays p) (ok : Playable p m) where
  player_ne : (c : Color) → player_at p.move_count ≢ c → p.player_to_move ≢ c
  player_ne c ne e = ne (sym r.turn ∙ e)

  -- A playable move, one that is_legal_move accepts and that has the colour of the player to move,
  -- keeps a valid board with its history valid.
  pub move-IsValid : IsValid (move p m)
  move-IsValid = legal-IsValid p m v ok.legal (player_ne wall (player_at-ne-wall p.move_count))

  fresh : (i : ℕ) → i < p.move_count → pos_from_move (p.history_moves i) ≢ pos_from_move m
  fresh i hi e =
      player_at-ne-empty i (sym (r.stone i hi) ∙ ap p.board e ∙ is_legal_move-empty p m ok.legal)

  entry_old :
      (i : ℕ) → i < p.move_count → update p.history_moves p.move_count m i ≡ p.history_moves i
  entry_old i hi = ground arith

  entry_new : (i : ℕ) → i ≡ p.move_count → update p.history_moves p.move_count m i ≡ m
  entry_new i e = ground arith

  old_or_new : (i : ℕ) → i < p.move_count + 1 → (i < p.move_count) ⊎ (i ≡ p.move_count)
  old_or_new i hi = omega arith

  -- After a playable move the stones of the board are again exactly those of the move history, the
  -- new move included, no cell is used twice, and the turn is that of the new move count.
  pub move-Replays : Replays (move p m)
  unfolding move
  move-Replays = record {
    turn = ap opponent_color r.turn ∙ sym (player_at-suc p.move_count);
    on_cell = λ i hi. elim (old_or_new i hi) [
      | inl old ↦ rw (entry_old i old) (r.on_cell i old)
      | inr new ↦ rw (entry_new i new) (is_legal_move-IsCell p m v ok.legal)
    ];
    coloured = λ i hi. ground (arith, r.coloured i, ok.own, r.turn);
    stone = λ i hi. elim (old_or_new i hi) [
      | inl old ↦ rw (entry_old i old) (ground (arith, r.stone i old, fresh i old))
      | inr new ↦ rw (entry_new i new, new) (ground (arith, r.turn))
    ];
    distinct = λ i j hi hj. elim (old_or_new j hj) [
      | inl old ↦ rw (entry_old j old, entry_old i (omega arith)) (r.distinct i j hi old)
      | inr new ↦ rw (entry_new j new, entry_old i (omega arith)) (fresh i (omega arith))
    ];
    covered = λ q c. elim (Bool-cases (q == pos_from_move m)) [
      | inl e ↦ inr (
        p.move_count,
        omega arith,
        rw (entry_new p.move_count refl) (sym (==→≡ q (pos_from_move m) e)),
      )
      | inr ne ↦ rw ne (elim (r.covered q c) [
        | inl free ↦ inl free
        | inr (i, hi, e) ↦ inr (i, omega arith, rw (entry_old i hi) e)
      ])
    ];
  }

module _ (p : Position) (v : IsValid p) (r : Replays p) (some_move : 0 < p.move_count) where
  abbrev last : ℕ
  last = p.move_count - 1

  abbrev last_pos : ℕ
  last_pos = pos_from_move (p.history_moves last)

  pub undo-IsValid : IsValid (undo p)
  unfolding undo
  undo-IsValid = record {
    size_pos = v.size_pos;
    size_le = v.size_le;
    size_sqr = v.size_sqr;
    inside = λ q c. ground (arith, v.inside q c);
    outside = λ q hq out. elim (Bool-cases (q == last_pos)) [
      | inl e ↦ absurd (out (rw (==→≡ q last_pos e) (r.on_cell last (omega arith))))
      | inr ne ↦ rw ne (v.outside q hq out)
    ];
  }

  turn_back : opponent_color p.player_to_move ≡ player_at last
  turn_back = ground (arith, r.turn)

  earlier :
      (i q : ℕ)
      → i < p.move_count
      → pos_from_move (p.history_moves i) ≡ q
      → (q == last_pos) ≡ false
      → i < p.move_count - 1
  earlier i q hi e ne = elim (Bool-cases (i == p.move_count - 1)) [
    | inl same ↦ ground (arith, ap (λ k. pos_from_move (p.history_moves k)) (==→≡ i _ same))
    | inr other ↦ ground arith
  ]

  -- With a move to take back, after undo the stones of the board are exactly those of the shorter
  -- history, and the turn is that of the new move count.
  pub undo-Replays : Replays (undo p)
  unfolding undo
  undo-Replays = record {
    turn = turn_back;
    on_cell = λ i hi. r.on_cell i (omega arith);
    coloured = λ i hi. r.coloured i (omega arith);
    stone = λ i hi.
        ground (arith, r.stone i (omega arith), r.distinct i last (omega arith) (omega arith));
    distinct = λ i j hi hj. r.distinct i j hi (omega arith);
    covered = λ q c. elim (Bool-cases (q == last_pos)) [
      | inl e ↦ inl (rw e)
      | inr ne ↦ rw ne (elim (r.covered q c) [
        | inl free ↦ inl free
        | inr (i, hi, e) ↦ inr (i, earlier i q hi e ne, e)
      ])
    ];
  }
