-- ===== src/Game/Step.antt =====
-- One iteration of the loop of Game::play.
use c_gomoku_cli.Prelude.{
  ℕ, ◌+◌, ◌<◌, ◌≡◌, ◌≢◌, inl, inr, refl, sym, ap, ◌∙◌, ◌⊎◌, not, ◌==◌, ==→≡, ≡→==, subst, true,
  false, Bool, Bool-cases, Option-cases, ◌&&◌, some, arith, pos, ℤ, leb_ℤ, ltb_ℤ, ◌+ℤ◌, update,
}
use c_gomoku_cli.Coord.{opponent_color, black, color_code, color_from_move}
use c_gomoku_cli.Position.{is_legal_move, move}
use c_gomoku_cli.Five.Axis.{Axis}
use c_gomoku_cli.Five.Rows.{HasRow}
use c_gomoku_cli.Renju.{ForbiddenType, forbidden_none, check_forbidden_move}
use c_gomoku_cli.Renju.Forbidden.{check_forbidden_move-keeps}
use c_gomoku_cli.Text.{gomostr_to_move}
use c_gomoku_cli.Game.{
  GameRule, gomoku_five_or_more, gomoku_exact_five, renju, State, state_none, five_connect,
  time_loss, crashed, illegal_move, forbidden_move, resign, draw_insufficient_space,
  draw_adjudication, Options, EngineOptions, Reply, Play, Next, breaks, goes, throws, exits,
  out_of_fuel, allow_long, is_forbidden_type, is_renju, forbidden_fuel, advance, resign_rule,
  draw_rule, forbidden_rule, move_rules, answer_rules, is_hopeless, is_even, is_limited,
}
use c_gomoku_cli.Game.Moves.{Ready, move-Ready}

-- Whether a row of more than five counts: always in gomoku with five or more, never with exactly
-- five, and in Renju for white only.
abbrev pub LongCounts : GameRule → ℕ → Bool → Type 0
LongCounts gomoku_five_or_more lastmove b = b ≡ true
LongCounts gomoku_exact_five lastmove b = b ≡ false
LongCounts renju lastmove b =
    ((color_from_move lastmove ≡ color_code black) × (b ≡ false))
    ⊎ ((color_from_move lastmove ≢ color_code black) × (b ≡ true))

pub allow_long-LongCounts :
    (rule : GameRule) (lastmove : ℕ) → LongCounts rule lastmove (allow_long rule lastmove)
unfolding allow_long
allow_long-LongCounts gomoku_five_or_more lastmove = refl
allow_long-LongCounts gomoku_exact_five lastmove = refl
allow_long-LongCounts renju lastmove =
    elim (Bool-cases (color_from_move lastmove == color_code black)) [
      | inl e ↦ inl (==→≡ _ _ e, ap not e)
      | inr ne ↦ inr (λ e. cc (sym ne ∙ ≡→== _ _ e), ap not ne)
    ]

-- What the state of a finished game says of its last position and its last move.
abbrev pub Explains : Options → Play → State → Type 0
Explains o g state_none = ⊥
Explains o g five_connect =
    (allow : Bool) × LongCounts o.game_rule g.played allow
    × ((ax : Axis) × HasRow g.position (opponent_color g.position.player_to_move) allow ax)
Explains o g draw_insufficient_space = g.position.move_count ≡ g.position.board_size_sqr
Explains o g illegal_move = is_legal_move g.position g.played ≡ false
Explains o g forbidden_move =
    (is_legal_move g.position g.played ≡ true)
    × (o.game_rule ≡ renju)
    × (g.forbidden_type ≢ forbidden_none)
    × (check_forbidden_move forbidden_fuel g.position g.played
        ≡ some (g.position, g.forbidden_type))
Explains o g time_loss = Unit
Explains o g crashed = Unit
Explains o g resign = is_legal_move g.position g.played ≡ true
Explains o g draw_adjudication = Unit

-- A finished game stands at a position of the game, which its state explains.
pub record Finished (o : Options) (g : Play) : Type 0 where
  pub ready : Ready g.position
  pub explains : Explains o g g.state

-- How an iteration may end, from a position with `count` moves on `cells` cells.
abbrev pub Fine : Options → ℕ → ℕ → Next → Type 0
Fine o count cells (breaks g) = Finished o g
Fine o count cells (goes g) =
    Ready g.position × (g.position.move_count ≡ count + 1) × (g.position.board_size_sqr ≡ cells)
Fine o count cells throws = Unit
Fine o count cells exits = o.fatal_error ≡ true
Fine o count cells out_of_fuel = ⊥

-- The same as a record, whose arguments a unifier can read off.
pub record IsFine (o : Options) (count cells : ℕ) (n : Next) : Type 0 where
  pub fine : Fine o count cells n

pub break-IsFine :
    {o : Options} {count cells : ℕ} (g : Play) → Finished o g → IsFine o count cells (breaks g)
break-IsFine g f = record { fine = f }

module _ (o : Options) (sampled : Bool) (score : ℤ) (count cells : ℕ) where
  -- A game that goes on with the move `played`.
  record Moving (g : Play) : Type 0 where
    pub ready : Ready g.position
    pub left : count < cells
    pub legal : is_legal_move g.position g.played ≡ true
    pub count_is : g.position.move_count ≡ count
    pub cells_is : g.position.board_size_sqr ≡ cells

  advance-IsFine : (g : Play) → Moving g → IsFine o count cells (advance sampled score g)
  unfolding advance move
  advance-IsFine g a = record {
    fine = (
      move-Ready g.position g.played a.ready a.legal
          (omega (arith, a.left, a.count_is, a.cells_is)),
      ap (λ k. k + 1) a.count_is,
      a.cells_is,
    );
  }

  -- The counters of the rules do not matter.
  same-Moving : (g h : Play) → g.position ≡ h.position → g.played ≡ h.played → Moving g → Moving h
  same-Moving g h e f a = record {
    ready = subst Ready e a.ready;
    left = a.left;
    legal = rw (sym e, sym f) a.legal;
    count_is = rw (sym e) a.count_is;
    cells_is = rw (sym e) a.cells_is;
  }

  resign_rule-IsFine : (g : Play) → Moving g → IsFine o count cells (resign_rule o sampled score g)
  unfolding resign_rule
  resign_rule-IsFine g a = elim (Bool-cases (is_hopeless o score)) [
    | inr good ↦ rw (good, resign_rule) (advance-IsFine _ (same-Moving g _ refl refl a))
    | inl bad ↦ elim (Bool-cases (leb_ℤ o.resign_count (g.resign_counts g.ei +ℤ pos 1))) [
      | inl many ↦
          rw (bad, many, resign_rule)
            (break-IsFine _ (record { ready = a.ready; explains = a.legal }))
      | inr few ↦ rw (bad, few, resign_rule) (advance-IsFine _ (same-Moving g _ refl refl a))
    ]
  ]

  draw_rule-IsFine : (g : Play) → Moving g → IsFine o count cells (draw_rule o sampled score g)
  unfolding draw_rule
  draw_rule-IsFine g a = elim (Bool-cases (is_even o score)) [
    | inr sharp ↦
        rw (sharp, draw_rule)
          (resign_rule-IsFine (record g { draw_ply_count = pos 0 }) (same-Moving g _ refl refl a))
    | inl even ↦
        elim (Bool-cases (leb_ℤ (o.draw_count +ℤ o.draw_count) (g.draw_ply_count +ℤ pos 1))) [
          | inl many ↦
              rw (even, many, draw_rule)
                (break-IsFine _ (record { ready = a.ready; explains = tt }))
          | inr few ↦
              rw (even, few, draw_rule)
                (resign_rule-IsFine (record g { draw_ply_count = g.draw_ply_count +ℤ pos 1 })
                  (same-Moving g _ refl refl a))
        ]
  ]

  is_renju→≡ : (rule : GameRule) → is_renju rule ≡ true → rule ≡ renju
  is_renju→≡ rule h = ground arith

  is_forbidden_type-ne : (t : ForbiddenType) → is_forbidden_type t ≡ true → t ≢ forbidden_none
  is_forbidden_type-ne t h e = ground arith

  forbidden_rule-IsFine :
      (g : Play) → Moving g → IsFine o count cells (forbidden_rule o sampled score g)
  unfolding forbidden_rule
  forbidden_rule-IsFine g a =
      let (t, e) =
        check_forbidden_move-keeps forbidden_fuel g.position g.played a.ready.valid (omega arith) in
      elim (Bool-cases (is_renju o.game_rule)) [
        | inr other ↦ rw (other, forbidden_rule) (draw_rule-IsFine g a)
        | inl rule ↦ elim (Bool-cases (is_forbidden_type t)) [
          | inl bad ↦
              rw (rule, e, bad, forbidden_rule)
                (break-IsFine _ (record {
                  ready = a.ready;
                  explains = (a.legal, is_renju→≡ o.game_rule rule, is_forbidden_type-ne t bad, e);
                }))
          | inr good ↦
              rw (rule, e, good, forbidden_rule)
                (draw_rule-IsFine (record g { forbidden_type = t }) (same-Moving g _ refl refl a))
        ]
      ]

module _ (o : Options) (eo : EngineOptions) (sampled : Bool) (reply : Reply) (count cells : ℕ) where
  -- A game that waits for a reply, with an empty cell left.
  pub record Waiting (g : Play) : Type 0 where
    pub ready : Ready g.position
    pub left : count < cells
    pub count_is : g.position.move_count ≡ count
    pub cells_is : g.position.board_size_sqr ≡ cells

  move_rules-IsFine : (g : Play) → Waiting g → IsFine o count cells (move_rules o sampled reply g)
  unfolding move_rules
  move_rules-IsFine g a = elim (Option-cases (gomostr_to_move g.position reply.best)) [
    | inl e ↦ rw (e, move_rules) (record { fine = tt })
    | inr (m, e) ↦ elim (Bool-cases (is_legal_move g.position m)) [
      | inl legal ↦
          rw (e, legal, move_rules)
            (forbidden_rule-IsFine o sampled reply.score count cells (record g { played = m })
              (record {
                ready = a.ready;
                left = a.left;
                legal = legal;
                count_is = a.count_is;
                cells_is = a.cells_is;
              }))
      | inr bad ↦
          rw (e, bad, move_rules) (break-IsFine _ (record { ready = a.ready; explains = bad }))
    ]
  ]

  -- Without a reply, a fatal error exits.
  pub answer_rules-exits :
      (g : Play)
      → reply.ok ≡ false
      → o.fatal_error ≡ true
      → answer_rules o eo sampled reply g ≡ exits
  unfolding answer_rules
  answer_rules-exits g silent fatal = rw (silent, fatal, answer_rules) refl

  pub answer_rules-IsFine :
      (g : Play) → Waiting g → IsFine o count cells (answer_rules o eo sampled reply g)
  unfolding answer_rules
  answer_rules-IsFine g a = elim (Bool-cases reply.ok) [
    | inr silent ↦ elim (Bool-cases o.fatal_error) [
      | inl fatal ↦
          subst (IsFine o count cells) (sym (answer_rules-exits g silent fatal))
            (record { fine = fatal })
      | inr mild ↦ elim (Bool-cases reply.is_crashed) [
        | inl dead ↦
            rw (silent, mild, dead, answer_rules)
              (break-IsFine _ (record { ready = a.ready; explains = tt }))
        | inr alive ↦
            rw (silent, mild, alive, answer_rules)
              (break-IsFine _ (record { ready = a.ready; explains = tt }))
      ]
    ]
    | inl answered ↦ elim (Bool-cases (is_limited eo && ltb_ℤ reply.time_left (pos 0))) [
      | inl late ↦
          rw (answered, late, answer_rules)
            (break-IsFine _ (record { ready = a.ready; explains = tt }))
      | inr timely ↦
          rw (answered, timely, answer_rules)
            (move_rules-IsFine (record g { time_left = update g.time_left g.ei reply.time_left })
              (record {
                ready = a.ready;
                left = a.left;
                count_is = a.count_is;
                cells_is = a.cells_is;
              }))
    ]
  ]
