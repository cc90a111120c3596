-- ===== src/Game/Moves.antt =====
-- The positions of a game under the rules and the moves.
use c_gomoku_cli.Prelude.{
  ℕ, ◌+◌, ◌-◌, ◌<◌, ◌≤◌, ◌≡◌, ◌≢◌, ◌⊎◌, inl, inr, refl, sym, ◌∙◌, subst, true, false, Bool,
  Bool-cases, if◌then◌else◌, ltb, arith, update,
}
use c_gomoku_cli.Coord.{Color, black, white, wall, opponent_color, pos_from_move}
use c_gomoku_cli.Position.{Position, is_legal_move, move}
use c_gomoku_cli.Position.Validity.{IsValid}
use c_gomoku_cli.Position.Replay.{legal-IsValid}
use c_gomoku_cli.Five.{check_five_in_line_side, check_five_in_line_lastmove}
use c_gomoku_cli.Five.Axis.{Axis}
use c_gomoku_cli.Five.Rows.{HasRow}
use c_gomoku_cli.Five.Correct.{check_five_in_line_side_iff}

-- A position that a game may stand at: a valid board with room for its moves, a player to move, and
-- the opponent's stone where the last move was.
pub record Ready (p : Position) : Type 0 where
  pub valid : IsValid p
  pub player : (p.player_to_move ≡ black) ⊎ (p.player_to_move ≡ white)
  pub room : p.move_count ≤ p.board_size_sqr
  pub last :
      0 < p.move_count
      → p.board (pos_from_move (p.history_moves (p.move_count - 1)))
        ≡ opponent_color p.player_to_move

player-ne-wall : (c : Color) → (c ≡ black) ⊎ (c ≡ white) → (c ≢ wall) × (opponent_color c ≢ wall)
player-ne-wall c h = ground arith

opponent-player :
    (c : Color)
    → (c ≡ black) ⊎ (c ≡ white)
    → ((opponent_color c ≡ black) ⊎ (opponent_color c ≡ white))
      × (opponent_color (opponent_color c) ≡ c)
opponent-player c h = ground arith

-- A legal move on a board with an empty cell left leads to such a position again.
pub move-Ready :
    (p : Position) (m : ℕ)
    → Ready p
    → is_legal_move p m ≡ true
    → p.move_count < p.board_size_sqr
    → Ready (move p m)
unfolding move
move-Ready p m r legal room = record {
  valid = legal-IsValid p m r.valid legal (player-ne-wall p.player_to_move r.player).0;
  player = (opponent-player p.player_to_move r.player).0;
  room = omega (arith, room);
  last = λ h. last_stone (p.move_count + 1 - 1) (omega arith);
}
  where
    last_stone :
        (i : ℕ)
        → i ≡ p.move_count
        → update p.board
            (pos_from_move m)
            p.player_to_move
            (pos_from_move (update p.history_moves p.move_count m i))
          ≡ opponent_color (opponent_color p.player_to_move)
    last_stone i e = ground (arith, e, (opponent-player p.player_to_move r.player).1)

-- The search for five changes the winning connection alone.
pub record SameGame (p q : Position) : Type 0 where
  pub board : q.board ≡ p.board
  pub size : q.board_size ≡ p.board_size
  pub size_sqr : q.board_size_sqr ≡ p.board_size_sqr
  pub count : q.move_count ≡ p.move_count
  pub moves : q.history_moves ≡ p.history_moves
  pub turn : q.player_to_move ≡ p.player_to_move
  pub ready : Ready p → Ready q
  pub rows :
      (side : Color) (allow : Bool) (ax : Axis) → HasRow p side allow ax → HasRow q side allow ax

refl-SameGame : (p : Position) → SameGame p p
refl-SameGame p = record {
  board = refl;
  size = refl;
  size_sqr = refl;
  count = refl;
  moves = refl;
  turn = refl;
  ready = λ r. r;
  rows = λ side allow ax h. h;
}

win-SameGame :
    (p : Position) (len : ℕ) (connection : ℕ → ℕ)
    → SameGame p (record p { win_connection_len = len; win_connection_pos = connection })
win-SameGame p len connection = record {
  board = refl;
  size = refl;
  size_sqr = refl;
  count = refl;
  moves = refl;
  turn = refl;
  ready = λ r. record {
    valid = record {
      size_pos = r.valid.size_pos;
      size_le = r.valid.size_le;
      size_sqr = r.valid.size_sqr;
      inside = r.valid.inside;
      outside = r.valid.outside;
    };
    player = r.player;
    room = r.room;
    last = r.last;
  };
  rows = λ side allow ax (q, len, h). (
    q,
    len,
    record {
      starts = h.starts;
      good = h.good;
      stones = h.stones;
      after = h.after;
      before = h.before;
    },
  );
}

side-SameGame :
    (p : Position) (side : Color) (allow : Bool)
    → SameGame p (check_five_in_line_side p side allow).0
unfolding check_five_in_line_side
side-SameGame p side allow = win-SameGame p _ _

pub lastmove-SameGame :
    (p : Position) (allow : Bool) → SameGame p (check_five_in_line_lastmove p allow).0
unfolding check_five_in_line_lastmove
lastmove-SameGame p allow = elim (Bool-cases (ltb p.move_count 5)) [
  | inl e ↦ rw (e, check_five_in_line_lastmove) (refl-SameGame p)
  | inr e ↦ rw (e, check_five_in_line_lastmove) (side-SameGame p _ allow)
]

found_if :
    (few : Bool) (a b : Position × Bool)
    → a.1 ≡ false
    → (if few then a else b).1 ≡ true
    → (few ≡ false) × (b.1 ≡ true)
found_if true a b n h = cc
found_if false a b n h = (refl, h)

-- A five that the last move made is a row of the player who made it.
pub lastmove-row :
    (p : Position) (allow : Bool)
    → Ready p
    → (check_five_in_line_lastmove p allow).1 ≡ true
    → (ax : Axis) × HasRow p (opponent_color p.player_to_move) allow ax
unfolding check_five_in_line_lastmove
lastmove-row p allow r h =
    let (many, found) = found_if (ltb p.move_count 5) (p, false) _ refl h in
    let same = r.last (ground arith) in
    subst (λ c. (ax : Axis) × HasRow p c allow ax) same
      ((check_five_in_line_side_iff p _ allow r.valid
          (λ w. (player-ne-wall p.player_to_move r.player).1 (sym same ∙ w))).0
        found)
