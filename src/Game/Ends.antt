-- ===== src/Game/Ends.antt =====
-- The loop of Game::play ends, and how.
use c_gomoku_cli.Prelude.{ℕ, ◌≡◌, ◌⊎◌, true}
use c_gomoku_cli.Game.{Options, EngineOptions, Play, Next, breaks, throws, exits}
use c_gomoku_cli.Game.Step.{Finished}

module _ (o : Options) (eo : ℕ → EngineOptions) where
  -- The loop ends with a finished game, by an exception of stoi, or, if errors are fatal, by an exit.
  abbrev pub Ends : Next → Type 0
  Ends n =
      ((g : Play) × (n ≡ breaks g) × Finished o g)
      ⊎ ((n ≡ throws) ⊎ ((o.fatal_error ≡ true) × (n ≡ exits)))
