-- ===== src/JobQueue/Rounds.antt =====
-- The constructor schedules every game of every round once, under the right pair and number.
use c_gomoku_cli.Prelude.{
  for_below, for_below_inv, ℕ, zero, suc, ◌+◌, ◌-◌, ◌*◌, ◌≡◌, inl, inr, refl, sym, ap, ◌∙◌, Bool,
  true, false, List, [], ◌∷◌, map, length, length-append, get_elem?, some, arith, subst,
}
use c_gomoku_cli.JobQueue.{
  Job, Result, Adding, add_game, job_queue_init_pair, add_gauntlet, add_round_robin, init_round,
  new,
}
use c_gomoku_cli.JobQueue.Pairs.{
  pairs, snoc_pair, fold_pairs, gauntlet-fold, round_robin-fold, fresh_result, init_results-pairs,
}
use c_gomoku_cli.JobQueue.Visits.{IsPairing, pairs-IsPairing}
use c_gomoku_cli.JobQueue.Schedule.{
  JobAt, Scheduled, AtPair, init_pair-AtPair, From, From-tail, From-head, get_elem?-snoc,
}

init_pair-pair :
    (games p e1 e2 r : ℕ) (s : Adding) → (job_queue_init_pair games e1 e2 p r s).pair ≡ s.pair
unfolding job_queue_init_pair
init_pair-pair games p e1 e2 r s =
    for_below_inv (λ t. t.pair ≡ s.pair) games (add_game e1 e2 p r) (λ g t hg h. h) s refl

pub length-gauntlet_row : (n : ℕ) → length (for_below n (λ k. snoc_pair 0 (1 + k)) []) ≡ n
unfolding for_below
length-gauntlet_row zero = refl
length-gauntlet_row (suc n) = omega (
  arith,
  length-append (for_below n (λ k. snoc_pair 0 (1 + k)) []) ((0, 1 + n) ∷ []),
  length-gauntlet_row n,
)

-- In a gauntlet the pair number `p` is that of the engines 0 and p + 1.
gauntlet_row :
    (n p : ℕ) (e : ℕ × ℕ)
    → get_elem? (for_below n (λ k. snoc_pair 0 (1 + k)) []) p ≡ some e
    → e ≡ (0, p + 1)
unfolding for_below
gauntlet_row zero p e h = cc
gauntlet_row (suc n) p e h =
    elim (get_elem?-snoc (for_below n (λ k. snoc_pair 0 (1 + k)) []) _ p h) [
      | inl old ↦ gauntlet_row n p e old
      | inr (at, same) ↦
          sym same
          ∙ ap (λ k. (0, k)) (let e : 1 + n ≡ p + 1 = omega (arith, at, length-gauntlet_row n) in e)
    ]

module _ (ps : List (ℕ × ℕ)) (games r : ℕ) where
  module _ (K : ℕ → Adding → Type 0) (step : ℕ → ℕ → Adding → Adding)
      (steps : (p e1 e2 : ℕ) (s : Adding)
        → get_elem? ps p ≡ some (e1, e2)
        → K p s
        → AtPair ps games r p s
        → AtPair ps games r (p + 1) (step e1 e2 s) × K (p + 1) (step e1 e2 s)) where
    fold-AtPair :
        (rest : List (ℕ × ℕ)) (p : ℕ) (s : Adding)
        → From ps games p rest
        → K p s
        → AtPair ps games r p s
        → AtPair ps games r (length ps) (fold_pairs step rest s)
    fold-AtPair [] p s f k a =
        subst (λ k. AtPair ps games r k s) (let e : p ≡ length ps = omega arith in e) a
    fold-AtPair ((e1, e2) ∷ rest) p s f k a =
        let (a', k') = steps p e1 e2 s (From-head ps games p (e1, e2) rest f) k a in
        fold-AtPair rest (p + 1) (step e1 e2 s) (From-tail ps games p (e1, e2) rest f) k' a'

  round_robin-step :
      (p e1 e2 : ℕ) (s : Adding)
      → get_elem? ps p ≡ some (e1, e2)
      → s.pair ≡ p
      → AtPair ps games r p s
      → AtPair ps games r (p + 1) (add_round_robin games r e1 e2 s)
        × ((add_round_robin games r e1 e2 s).pair ≡ p + 1)
  round_robin-step p e1 e2 s here e a =
      let s' : Adding = record s { pair = s.pair + 1 } in
      (
        subst (λ k. AtPair ps games r (p + 1) (job_queue_init_pair games e1 e2 k r s')) (sym e)
            (init_pair-AtPair ps games r p e1 e2 s' here
              (record { count = a.count; jobs = a.jobs })),
        init_pair-pair games s.pair e1 e2 r s' ∙ ap (λ k. k + 1) e,
      )

  gauntlet-step :
      ((p : ℕ) (e : ℕ × ℕ) → get_elem? ps p ≡ some e → e ≡ (0, p + 1))
      → (p e1 e2 : ℕ) (s : Adding) → get_elem? ps p ≡ some (e1, e2)
      → Unit {0}
      → AtPair ps games r p s
      → AtPair ps games r (p + 1) (add_gauntlet games r e1 e2 s) × Unit {0}
  gauntlet-step shape p e1 e2 s here k a = (
    subst (λ k. AtPair ps games r (p + 1) (job_queue_init_pair games e1 e2 k r s))
        (let e : p ≡ e2 - 1 = ground (arith, shape p (e1, e2) here) in e)
        (init_pair-AtPair ps games r p e1 e2 s here a),
    tt,
  )

  start-AtPair :
      (jobs : List Job)
      → Scheduled ps games (r * (length ps * games)) jobs
      → AtPair ps games r 0 (record { pair = 0; added = 0; jobs = jobs })
  start-AtPair jobs s = record {
    count = omega arith;
    jobs =
        subst (λ c. Scheduled ps games c jobs)
          (let e : r * (length ps * games) ≡ (r * length ps + 0) * games = omega arith in e) s;
  }

  end-Scheduled :
      (s : Adding)
      → AtPair ps games r (length ps) s
      → Scheduled ps games (suc r * (length ps * games)) s.jobs
  end-Scheduled s a =
      subst (λ c. Scheduled ps games c s.jobs)
        (let e : (r * length ps + length ps) * games ≡ suc r * (length ps * games) = omega arith in
          e)
        a.jobs

  From-start : From ps games 0 ps
  From-start = (omega arith, λ i hi. ap (get_elem? ps) (let e : 0 + i ≡ i = omega arith in e))

init_round-Scheduled :
    (engines games r : ℕ) (gauntlet : Bool) (jobs : List Job)
    → Scheduled (pairs engines gauntlet) games (r * (length (pairs engines gauntlet) * games)) jobs
    → Scheduled
        (pairs engines gauntlet)
        games
        (suc r * (length (pairs engines gauntlet) * games))
        (init_round engines games gauntlet r jobs)
unfolding init_round
init_round-Scheduled engines games r true jobs s =
    let ps = pairs engines true in
    rw (gauntlet-fold (add_gauntlet games r) engines (record { pair = 0; added = 0; jobs = jobs }))
      (end-Scheduled ps games r _ (
        fold-AtPair ps games r (λ p t. Unit {0}) (add_gauntlet games r)
          (gauntlet-step ps games r (unfold pairs in gauntlet_row (engines - 1))) ps 0 _
          (From-start ps games r) tt (start-AtPair ps games r jobs s)))
init_round-Scheduled engines games r false jobs s =
    let ps = pairs engines false in
    rw
      (round_robin-fold (add_round_robin games r) engines
        (record { pair = 0; added = 0; jobs = jobs }))
      (end-Scheduled ps games r _ (
        fold-AtPair ps games r (λ p t. t.pair ≡ p) (add_round_robin games r)
          (round_robin-step ps games r) ps 0 _ (From-start ps games r) refl
          (start-AtPair ps games r jobs s)))

rounds-Scheduled :
    (engines games m : ℕ) (gauntlet : Bool)
    → Scheduled
        (pairs engines gauntlet)
        games
        (m * (length (pairs engines gauntlet) * games))
        (for_below m (init_round engines games gauntlet) [])
unfolding for_below
rounds-Scheduled engines games zero gauntlet = record { size = omega arith; each = λ k j e. cc }
rounds-Scheduled engines games (suc m) gauntlet =
    init_round-Scheduled engines games m gauntlet _ (rounds-Scheduled engines games m gauntlet)

get_elem?-map {ℓ κ} :
    {A : Type ℓ} {B : Type κ} (f : A → B) (xs : List A) (i : ℕ) {x : A}
    → get_elem? xs i ≡ some x
    → get_elem? (map f xs) i ≡ some (f x)
get_elem?-map f [] i e = cc
get_elem?-map f (y ∷ ys) zero e = cc
get_elem?-map f (y ∷ ys) (suc i) e = get_elem?-map f ys i e

length-map {ℓ κ} :
    {A : Type ℓ} {B : Type κ} (f : A → B) (xs : List A) → length (map f xs) ≡ length xs
length-map f [] = refl
length-map f (x ∷ xs) = ap suc (length-map f xs)

-- The results that have not counted a game.
abbrev pub IsFresh : Result → ℕ × ℕ → Type 0
IsFresh r e = (r.e1 ≡ e.0) × (r.e2 ≡ e.1) × ((outcome : ℕ) → r.count outcome ≡ 0)

-- The constructor queues, for every round, every pair and every game of the pair, one job and no
-- other. The pairs a < b are each once among them: of the engine 0 with every other in a gauntlet,
-- and else all. There are rounds * pairs * games jobs, and job number k is the game of its pair in
-- its round that k names, numbered within the round, with the colors reversed exactly at the odd
-- games of the pair. There is an entry of `results` for each pair, and that of a job is of the same
-- two engines, and has counted no game.
pub new_schedule :
    (engines rounds games : ℕ) (gauntlet : Bool)
    → let q = new engines rounds games gauntlet in
      (ps : List (ℕ × ℕ)) × IsPairing engines gauntlet ps
      × (length q.results ≡ length ps)
      × (length q.jobs ≡ rounds * (length ps * games))
      × ((k : ℕ) (j : Job)
          → get_elem? q.jobs k ≡ some j
          → JobAt ps games k j
            × ((r : Result) × (get_elem? q.results j.pair ≡ some r) × IsFresh r (j.e1, j.e2)))
unfolding new
new_schedule engines rounds games gauntlet =
    let ps = pairs engines gauntlet in
    let s = rounds-Scheduled engines games rounds gauntlet in
    let rs = init_results-pairs engines gauntlet in
    (
      ps,
      pairs-IsPairing engines gauntlet,
      ap length rs ∙ length-map fresh_result ps,
      s.size,
      λ k j e. (
        s.each k j e,
        (
          fresh_result (j.e1, j.e2),
          ap (λ xs. get_elem? xs j.pair) rs
              ∙ get_elem?-map fresh_result ps j.pair (s.each k j e).engines,
          (refl, refl, λ outcome. refl),
        ),
      ),
    )
