-- ===== src/Worker/Once.antt =====
-- A deadline's callback runs at most once, and only while the deadline is set.
use c_gomoku_cli.Prelude.{
  ◌≡◌, ◌⊎◌, ◌↔◌, inl, inr, refl, ap, ◌∙◌, true, false, Bool, Bool-cases, ◌&&◌, not, List, Option, ℤ,
  pos, ltb_ℤ, arith,
}
use c_gomoku_cli.Text.{Text}
use c_gomoku_cli.Worker.{
  Worker, deadline_set, deadline_clear, run_callback, deadline_callback_once, deadline_overdue,
}

off : (a b : Bool) → (a && b) ≡ true → a ≡ false → ⊥
off a b h e = ground arith

module _ {ℓ} {Callback : Type ℓ} where
  -- What the main thread may do while the worker waits: look at the deadline and call its callback.
  pub data Watch (w : Worker Callback) : Worker Callback → Type ℓ where
    nothing : Watch w w
    calls : {v : Worker Callback} → Watch w v → Watch w (deadline_callback_once v)

  -- The deadline stands with its callback, and either nothing was called or the callback was, once.
  record Watched (callback : Option Callback) (runs : List Callback) (v : Worker Callback)
      : Type ℓ where
    pub stands : v.deadline.is_set ≡ true
    pub same : v.deadline.callback ≡ callback
    pub once :
        ((v.deadline.called ≡ false) × (v.runs ≡ runs))
        ⊎ ((v.deadline.called ≡ true) × (v.runs ≡ run_callback callback runs))

  calls-Watched :
      (callback : Option Callback) (runs : List Callback) (v : Worker Callback)
      → Watched callback runs v
      → Watched callback runs (deadline_callback_once v)
  unfolding deadline_callback_once
  calls-Watched callback runs v h = elim (Bool-cases (v.deadline.is_set && not v.deadline.called)) [
    | inl now ↦
        rw (now, deadline_callback_once)
          (record {
            stands = h.stands;
            same = h.same;
            once = inr (refl, ran h.once (fresh _ _ now));
          })
    | inr done ↦ rw (done, deadline_callback_once) h
  ]
    where
      fresh : (a b : Bool) → (a && not b) ≡ true → b ≡ false
      fresh a b e = ground arith

      ran :
          ((v.deadline.called ≡ false) × (v.runs ≡ runs))
            ⊎ ((v.deadline.called ≡ true) × (v.runs ≡ run_callback callback runs))
          → v.deadline.called ≡ false
          → run_callback v.deadline.callback v.runs ≡ run_callback callback runs
      ran (inl (f, e)) g = ap (λ c. run_callback c v.runs) h.same ∙ ap (run_callback callback) e
      ran (inr (t, e)) g = cc

  Watch-Watched :
      (callback : Option Callback) (runs : List Callback) (w v : Worker Callback)
      → Watched callback runs w
      → Watch w v
      → Watched callback runs v
  Watch-Watched callback runs w v h nothing = h
  Watch-Watched callback runs w v h (calls {v = u} l) =
      calls-Watched callback runs u (Watch-Watched callback runs w u h l)

  still : (w : Worker Callback) → w.deadline.is_set ≡ false → deadline_callback_once w ≡ w
  unfolding deadline_callback_once
  still w s = elim (Bool-cases (w.deadline.is_set && not w.deadline.called)) [
    | inl now ↦ absurd (off w.deadline.is_set (not w.deadline.called) now s)
    | inr done ↦ rw (done, deadline_callback_once) refl
  ]

  -- Without a deadline, a look changes nothing.
  Watch-cleared : (w v : Worker Callback) → w.deadline.is_set ≡ false → Watch w v → v ≡ w
  Watch-cleared w v s nothing = refl
  Watch-cleared w v s (calls {v = u} l) =
      ap deadline_callback_once (Watch-cleared w u s l) ∙ still w s

  -- However often the main thread looks at a deadline between deadline_set and deadline_clear, and
  -- after deadline_clear, its callback runs at most once, and not after deadline_clear.
  pub callbacks_once :
      (engine_name description : Text) (time_limit : ℤ) (callback : Option Callback)
      (w v u : Worker Callback)
      → Watch (deadline_set engine_name time_limit description callback w) v
      → Watch (deadline_clear v) u
      → ((v.runs ≡ w.runs) ⊎ (v.runs ≡ run_callback callback w.runs)) × (u ≡ deadline_clear v)
  unfolding deadline_set deadline_clear
  callbacks_once engine_name description time_limit callback w v u before after = (
    elim (Watch-Watched callback w.runs _ v
        (record { stands = refl; same = refl; once = inl (refl, refl) }) before).once [
          | inl (f, e) ↦ inl e
          | inr (t, e) ↦ inr e
        ],
    Watch-cleared (deadline_clear v) u refl after,
  )

  -- deadline_overdue is positive exactly if the deadline is set and its limit is over.
  pub deadline_overdue_lem :
      (time : ℤ) (w : Worker Callback)
      → (ltb_ℤ (pos 0) (deadline_overdue time w) ≡ true)
        ↔ ((w.deadline.is_set ≡ true) × (ltb_ℤ w.deadline.time_limit time ≡ true))
  unfolding deadline_overdue
  deadline_overdue_lem time w = (λ h. ground arith, λ h. ground arith)
