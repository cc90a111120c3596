-- ===== src/Worker/Watch.antt =====
-- What the main thread does about deadlines (src/main.cpp: the loop in main). Sleeping and the log are
-- left out.
use c_gomoku_cli.Prelude.{
  ◌≡◌, ◌⊎◌, true, false, List, [], ◌∷◌, ◌++◌, Option, none, some, ℤ, pos, ltb_ℤ, ◌≤ℤ◌, ◌<ℤ◌,
  if◌then◌else◌, ◌>>=◌,
}
use c_gomoku_cli.Worker.{Worker, deadline_callback_once, deadline_overdue}

module _ {Callback : Type 0} where
  -- A worker in the inner loop; `none` is DIE.
  unfoldable pub watch_worker : ℤ → Worker Callback → Option (Worker Callback)
  unfolding deadline_overdue deadline_callback_once
  watch_worker time w =
      let overdue = deadline_overdue time w in
      if ltb_ℤ (pos 0) overdue
      then some (deadline_callback_once w)
      else if ltb_ℤ (pos 3000) overdue
      then none
      else some w

  -- The inner loop over the workers.
  unfoldable pub watch_workers : ℤ → List (Worker Callback) → Option (List (Worker Callback))
  unfolding watch_worker
  watch_workers time [] = some []
  watch_workers time (w ∷ ws) = do
    v ← watch_worker time w
    vs ← watch_workers time ws
    some (v ∷ vs)

  -- The callback of a worker that is overdue.
  abbrev pub watched : ℤ → Worker Callback → Worker Callback
  unfolding deadline_overdue deadline_callback_once
  watched time w = if ltb_ℤ (pos 0) (deadline_overdue time w) then deadline_callback_once w else w

  -- What a look does to a worker: a deadline that is set, over, and not called is called, once, and
  -- its callback, if it has one, runs; any other worker is left as it is.
  pub data Looked (time : ℤ) (w v : Worker Callback) : Type 0 where
    fires :
        w.deadline.is_set ≡ true
        → w.deadline.called ≡ false
        → w.deadline.time_limit <ℤ time
        → v.deadline ≡ record w.deadline { called = true }
        → ((c : Callback) → w.deadline.callback ≡ some c → v.runs ≡ w.runs ++ c ∷ [])
        → (w.deadline.callback ≡ none → v.runs ≡ w.runs)
        → Looked time w v
    stays :
        ((w.deadline.is_set ≡ false)
          ⊎ ((w.deadline.called ≡ true) ⊎ (time ≤ℤ w.deadline.time_limit)))
        → v ≡ w
        → Looked time w v

  -- The workers of the one list, looked at, are those of the other.
  pub data AllLooked (time : ℤ) : List (Worker Callback) → List (Worker Callback) → Type 0 where
    none_left : AllLooked time [] []
    next_looked :
        {w v : Worker Callback} {ws vs : List (Worker Callback)}
        → Looked time w v
        → AllLooked time ws vs
        → AllLooked time (w ∷ ws) (v ∷ vs)
