-- ===== src/Worker.antt =====
-- The deadline that a worker sets for its engine, which the main thread watches (src/workers.h,
-- src/workers.cpp). The mutex makes each operation one step. The log is left out. A callback is a
-- value that stands for the function, and `runs` lists the callbacks that have run.
pub mod Once
pub mod Watch
use c_gomoku_cli.Prelude.{
  ℕ, ◌+◌, if◌then◌else◌, Bool, true, false, ◌&&◌, not, List, [], ◌∷◌, ◌++◌, Option, none, some, ℤ,
  pos, ◌-ℤ◌, ltb_ℤ,
}
use c_gomoku_cli.Text.{Text}

-- struct Worker::Deadline_t, without the mutex.
pub record Deadline {ℓ} (Callback : Type ℓ) : Type ℓ where
  pub time_limit : ℤ
  pub engine_name : Text
  pub description : Text
  pub callback : Option Callback
  pub is_set : Bool
  pub called : Bool

-- A worker, with the callbacks that have run.
pub record Worker {ℓ} (Callback : Type ℓ) : Type ℓ where
  pub deadline : Deadline Callback
  pub runs : List Callback

module _ {ℓ} {Callback : Type ℓ} where
  -- Worker::deadline_set.
  unfoldable pub deadline_set :
      Text → ℤ → Text → Option Callback → Worker Callback → Worker Callback
  deadline_set engine_name time_limit description callback w = record w {
    deadline = record {
      time_limit = time_limit;
      engine_name = engine_name;
      description = description;
      callback = callback;
      is_set = true;
      called = false;
    };
  }

  -- Worker::deadline_clear.
  unfoldable pub deadline_clear : Worker Callback → Worker Callback
  deadline_clear w = record w { deadline = record w.deadline { is_set = false } }

  -- if (deadline.callback) deadline.callback().
  abbrev pub run_callback : Option Callback → List Callback → List Callback
  run_callback none runs = runs
  run_callback (some c) runs = runs ++ c ∷ []

  -- Worker::deadline_callback_once.
  unfoldable pub deadline_callback_once : Worker Callback → Worker Callback
  deadline_callback_once w =
      if w.deadline.is_set && not w.deadline.called
      then record w {
        deadline = record w.deadline { called = true };
        runs = run_callback w.deadline.callback w.runs;
      }
      else w

  -- Worker::deadline_overdue, at the time of system_msec.
  unfoldable pub deadline_overdue : ℤ → Worker Callback → ℤ
  deadline_overdue time w =
      if w.deadline.is_set && ltb_ℤ w.deadline.time_limit time
      then time -ℤ w.deadline.time_limit
      else pos 0
