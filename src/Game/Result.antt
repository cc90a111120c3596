-- ===== src/Game/Result.antt =====
-- The results of a finished game: for its samples and for its record.
use c_gomoku_cli.Prelude.{
  ℕ, ◌+◌, ◌≡◌, ◌≢◌, ◌⊎◌, refl, ap, true, false, Bool, if◌then◌else◌, arith, some,
}
use c_gomoku_cli.Coord.{Color, black, white, opponent_color}
use c_gomoku_cli.Position.{color_eq}
use c_gomoku_cli.Game.{
  State, state_none, five_connect, time_loss, crashed, illegal_move, forbidden_move, resign,
  draw_insufficient_space, draw_adjudication, is_loss, Sample, Play, white_result, black_result,
  decode_state,
}

abbrev pub IsPlayer : Color → Type 0
IsPlayer c = (c ≡ black) ⊎ (c ≡ white)

-- The result of a sample, from the side to move of the sample.
abbrev pub Rated : Play → Sample → Type 0
Rated g s =
    ((is_loss g.state ≡ false) × (s.result ≡ 1))
    ⊎ ((is_loss g.state ≡ true)
        × (((s.position.player_to_move ≡ g.position.player_to_move) × (s.result ≡ 0))
            ⊎ ((s.position.player_to_move ≡ opponent_color g.position.player_to_move)
                × (s.result ≡ 2))))

abbrev Decodes : Play → State → Type 0
unfolding decode_state
Decodes g s = (r : ℕ) × ((decode_state g s).0 ≡ some r) × (r + white_result g ≡ 2)

lost_sum :
    (loss : Bool) (turn : Color)
    → loss ≡ true
    → IsPlayer turn
    → (if color_eq turn black then 0 else 2)
        + (if loss then (if color_eq turn white then 0 else 2) else 1)
      ≡ 2
lost_sum loss turn e h = ground arith

forbidden_sum :
    (loss : Bool) (turn : Color)
    → loss ≡ true
    → turn ≡ black
    → 0 + (if loss then (if color_eq turn white then 0 else 2) else 1) ≡ 2
forbidden_sum loss turn e b = ground arith

drawn_sum :
    (loss : Bool) (turn : Color)
    → loss ≡ false
    → 1 + (if loss then (if color_eq turn white then 0 else 2) else 1) ≡ 2
drawn_sum loss turn e = ground arith

module _ (g : Play) (h : IsPlayer g.position.player_to_move) where
  lost : is_loss g.state ≡ true → (r : ℕ) × (black_result g ≡ some r) × (r + white_result g ≡ 2)
  lost e =
      let turn = g.position.player_to_move in
      ((if color_eq turn black then 0 else 2), refl, lost_sum (is_loss g.state) turn e h)

  drawn : is_loss g.state ≡ false → (r : ℕ) × (some 1 ≡ some r) × (r + white_result g ≡ 2)
  drawn e = (1, refl, drawn_sum (is_loss g.state) g.position.player_to_move e)

  forbidden :
      is_loss g.state ≡ true
      → g.position.player_to_move ≡ black
      → (r : ℕ) × (some 0 ≡ some r) × (r + white_result g ≡ 2)
  forbidden e b = (0, refl, forbidden_sum (is_loss g.state) g.position.player_to_move e b)

  decodes :
      (s : State)
      → g.state ≡ s
      → s ≢ state_none
      → (s ≡ forbidden_move → g.position.player_to_move ≡ black)
      → Decodes g s
  unfolding decode_state
  decodes state_none e n f = absurd (n refl)
  decodes five_connect e n f = lost (ap is_loss e)
  decodes time_loss e n f = lost (ap is_loss e)
  decodes crashed e n f = lost (ap is_loss e)
  decodes illegal_move e n f = lost (ap is_loss e)
  decodes resign e n f = lost (ap is_loss e)
  decodes forbidden_move e n f = forbidden (ap is_loss e) (f refl)
  decodes draw_insufficient_space e n f = drawn (ap is_loss e)
  decodes draw_adjudication e n f = drawn (ap is_loss e)

-- The result that decode_state picks is black's: with white's result for the samples it makes two,
-- for a finished game whose side to move is black or white, and is black if the last move is
-- forbidden.
pub decode_state-white_result :
    (g : Play)
    → IsPlayer g.position.player_to_move
    → g.state ≢ state_none
    → (g.state ≡ forbidden_move → g.position.player_to_move ≡ black)
    → (r : ℕ) × ((decode_state g g.state).0 ≡ some r) × (r + white_result g ≡ 2)
unfolding decode_state
decode_state-white_result g h n f = decodes g h g.state refl n f
