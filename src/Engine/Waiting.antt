-- ===== src/Engine/Waiting.antt =====
-- An engine is to answer OK (src/engine.cpp: wait_for_ok).
use c_gomoku_cli.Prelude.{
  ℕ, zero, suc, ◌==◌, if◌then◌else◌, Bool, true, false, ◌&&◌, [], ◌∷◌, none, some, ◌+ℤ◌, codes,
}
use c_gomoku_cli.Text.{Text}
use c_gomoku_cli.Tokens.{string_prefix}
use c_gomoku_cli.Worker.{deadline_set, deadline_clear}
use c_gomoku_cli.Engine.{terminate_unless, Engine, readln, feed_length, clear_deadline}

-- line == "OK".
abbrev pub text_eq : Text → Text → Bool
text_eq [] [] = true
text_eq [] (d ∷ ds) = false
text_eq (c ∷ cs) [] = false
text_eq (c ∷ cs) (d ∷ ds) = c == d && text_eq cs ds

-- How the loop of wait_for_ok ends: by its condition, or at one of the two DIE_OR_ERR.
pub data LoopEnd : Type 0 where
  loop_fuel : LoopEnd
  loop_done loop_error : Text → Engine → LoopEnd

-- The loop of Engine::wait_for_ok.
unfoldable pub ok_loop : ℕ → Text → Engine → LoopEnd
unfolding readln string_prefix
ok_loop zero line e = loop_fuel
ok_loop (suc fuel) line e =
    let r = readln line e in
    elim r.ok [
      | false ↦ loop_error r.line r.engine
      | true ↦ elim (string_prefix r.line (codes "ERROR")) [
        | some tail ↦ loop_error r.line r.engine
        | none ↦ elim (text_eq r.line (codes "OK")) [
          | true ↦ loop_done r.line r.engine
          | false ↦ ok_loop fuel r.line r.engine
        ]
      ]
    ]

-- How wait_for_ok ends: DIE_OR_ERR exits the program if the error is fatal.
pub data Waited : Type 0 where
  wait_fuel : Waited
  exits : Waited
  returns : Bool → Engine → Waited

-- deadline_clear, and line == "OK".
abbrev pub end_wait : Bool → LoopEnd → Waited
unfolding deadline_clear
end_wait fatal_error loop_fuel = wait_fuel
end_wait fatal_error (loop_done line e) = returns (text_eq line (codes "OK")) (clear_deadline e)
end_wait fatal_error (loop_error line e) =
    if fatal_error then exits else returns (text_eq line (codes "OK")) (clear_deadline e)

-- Engine::wait_for_ok.
unfoldable pub wait_for_ok : Bool → Engine → Waited
unfolding ok_loop deadline_set feed_length deadline_clear
wait_for_ok fatal_error e = end_wait fatal_error (
    ok_loop (suc (feed_length e.feed)) [] (record e {
      w =
          deadline_set e.name (e.clock +ℤ e.tolerance) (codes "start")
            (some (terminate_unless fatal_error)) e.w;
    }))
