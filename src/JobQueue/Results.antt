-- ===== src/JobQueue/Results.antt =====
-- The queue while the workers use it: jobs are handed out in order, and every result is counted.
use c_gomoku_cli.Prelude.{
  ℕ, zero, suc, ◌+◌, ◌<◌, ◌≤◌, ◌≡◌, ◌≢◌, ◌⊎◌, inl, inr, refl, sym, ap, ◌∙◌, true, false, List, [],
  ◌∷◌, length, get_elem?, set, Option, some, none, Option-cases, arith, ≡→==, get_elem?-lt,
  get_elem?-ge, get_elem?-set_self, get_elem?-set_ne, subst,
}
use c_gomoku_cli.JobQueue.{
  Job, JobQueue, Result, Name, total, bump, pop, add_result, done, stop, set_name,
}

-- The games counted in all pairs.
unfoldable pub sum_total : List Result → ℕ
sum_total [] = 0
sum_total (r ∷ rs) = total r + sum_total rs

pub record Inv (q : JobQueue) : Type 0 where
  pub in_range : q.idx ≤ length q.jobs
  pub counted : sum_total q.results ≡ q.completed

-- What the workers, and the main thread at a signal, may do with the queue.
pub data Step (q : JobQueue) : JobQueue → Type 0 where
  pops : Step q (pop q).1
  adds :
      (pair outcome : ℕ) {c : ℕ → ℕ} {r : JobQueue}
      → outcome < 3
      → add_result pair outcome q ≡ some (c, r)
      → Step q r
  stops : Step q (stop q)
  names : (ei : ℕ) (name : Name) → Step q (set_name ei name q)

-- With the index within the jobs, either the queue is done and a pop gives no job and changes
-- nothing, or a pop hands out the job at the index, with the index and the number of jobs, and
-- changes the index alone, to the next.
pub pop_lem :
    (q : JobQueue)
    → Inv q
    → ((done q ≡ true) × ((pop q).0 ≡ none) × ((pop q).1 ≡ q))
      ⊎ ((j : Job) × (done q ≡ false)
          × (get_elem? q.jobs q.idx ≡ some j)
          × ((pop q).0 ≡ some (j, q.idx, length q.jobs))
          × ((pop q).1 ≡ record q { idx = q.idx + 1 }))
unfolding pop done
pop_lem q v = elim (Option-cases (get_elem? q.jobs q.idx)) [
  | inl e ↦
      inl (
        ≡→== _ _ (omega (arith, get_elem?-ge q.jobs q.idx e, v.in_range)),
        rw (e, pop),
        rw (e, pop),
      )
  | inr (j, e) ↦ inr (j, ground (arith, get_elem?-lt q.jobs q.idx e), e, rw (e, pop), rw (e, pop))
]

sum_total-bump :
    (rs : List Result) (pair outcome : ℕ) (r : Result)
    → outcome < 3
    → get_elem? rs pair ≡ some r
    → sum_total (set rs pair (bump outcome r)) ≡ sum_total rs + 1
unfolding sum_total
sum_total-bump [] pair outcome r h e = cc
sum_total-bump (x ∷ rs) zero outcome r h e = ground arith
sum_total-bump (x ∷ rs) (suc pair) outcome r h e =
    omega (arith, sum_total-bump rs pair outcome r h e)

pop-Inv : (q : JobQueue) → Inv q → Inv (pop q).1
unfolding pop
pop-Inv q v = elim (Option-cases (get_elem? q.jobs q.idx)) [
  | inl e ↦ rw (e, pop) v
  | inr (j, e) ↦
      rw (e, pop)
        (record { in_range = omega (arith, get_elem?-lt q.jobs q.idx e); counted = v.counted })
]

-- One more game of the outcome, and none of another, between the same engines.
pub record Counted (outcome : ℕ) (r s : Result) : Type 0 where
  pub one_more : s.count outcome ≡ r.count outcome + 1
  pub others : (k : ℕ) → k ≢ outcome → s.count k ≡ r.count k
  pub first : s.e1 ≡ r.e1
  pub second : s.e2 ≡ r.e2

bump-Counted : (outcome : ℕ) (r : Result) → Counted outcome r (bump outcome r)
bump-Counted outcome r = record {
  one_more = ground arith;
  others = λ k ne. ground arith;
  first = refl;
  second = refl;
}

-- For an outcome below 3 and a pair of the queue, add_result succeeds, counts one more game of the
-- outcome, and of no other outcome, for that pair and for no other, whose engines it keeps, returns
-- the updated counts, counts one more completed game, and changes neither the jobs nor the index.
pub add_result_lem :
    (q : JobQueue) (pair outcome : ℕ) (r : Result)
    → outcome < 3
    → get_elem? q.results pair ≡ some r
    → (q' : JobQueue) × (s : Result) × (add_result pair outcome q ≡ some (s.count, q'))
      × Counted outcome r s
      × (get_elem? q'.results pair ≡ some s)
      × ((other : ℕ) → other ≢ pair → get_elem? q'.results other ≡ get_elem? q.results other)
      × (sum_total q'.results ≡ sum_total q.results + 1)
      × (q'.completed ≡ q.completed + 1)
      × (q'.jobs ≡ q.jobs)
      × (q'.idx ≡ q.idx)
unfolding add_result
add_result_lem q pair outcome r h e = (
  record q { results = set q.results pair (bump outcome r); completed = q.completed + 1 },
  bump outcome r,
  rw (e, add_result),
  bump-Counted outcome r,
  get_elem?-set_self q.results pair (bump outcome r) e,
  λ other ne. get_elem?-set_ne q.results pair other (bump outcome r) ne,
  sum_total-bump q.results pair outcome r h e,
  refl,
  refl,
  refl,
)

add_result-Inv :
    (q : JobQueue) (pair outcome : ℕ) (c : ℕ → ℕ) (r : JobQueue)
    → outcome < 3
    → add_result pair outcome q ≡ some (c, r)
    → Inv q
    → Inv r
unfolding add_result
add_result-Inv q pair outcome c r h e v = elim (Option-cases (get_elem? q.results pair)) [
  | inl missing ↦ absurd (refused missing)
  | inr (x, found) ↦
      let (r', x', e', _, _, _, grown, completed, jobs, idx) =
        add_result_lem q pair outcome x h found in
      subst Inv (same _ r' (sym e' ∙ e)) (record {
        in_range = rw (jobs, idx) v.in_range;
        counted = grown ∙ ap (λ n. n + 1) v.counted ∙ sym completed;
      })
]
  where
    refused : get_elem? q.results pair ≡ none → ⊥
    refused missing = ground arith

    same :
        (d : ℕ → ℕ) (s : JobQueue)
        → ◌≡◌ {A = Option ((ℕ → ℕ) × JobQueue)} (some (d, s)) (some (c, r))
        → s ≡ r
    same d s h = cc

-- A pop, an added result of an outcome below 3, a stop and a name given to an engine each keep the
-- index within the jobs and the games counted in all pairs equal to the number of completed ones.
pub Step-Inv : {q r : JobQueue} → Step q r → Inv q → Inv r
unfolding stop set_name
Step-Inv {q} pops v = pop-Inv q v
Step-Inv {q} (adds pair outcome {c} {r} h e) v = add_result-Inv q pair outcome c r h e v
Step-Inv {q} stops v = record { in_range = omega arith; counted = v.counted }
Step-Inv {q} (names ei name) v = elim (Option-cases (get_elem? q.names ei)) [
  | inl e ↦ rw (e, set_name) v
  | inr (old, e) ↦ rw (e, set_name) (record { in_range = v.in_range; counted = v.counted })
]
