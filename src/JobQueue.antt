-- ===== src/JobQueue.antt =====
-- The queue of games of a tournament (src/jobs.h, src/jobs.cpp). The mutex makes each operation one
-- step. The start time and print_results, which write to the terminal, are left out.
pub mod Pairs
pub mod Schedule
pub mod Visits
pub mod Rounds
pub mod Results
pub mod Histories
use package.c_gomoku_cli.Prelude.{
  for_below, ℕ, zero, suc, ◌+◌, ◌-◌, ◌%◌, ltb, ◌==◌, if◌then◌else◌, Bool, true, false, List, [],
  ◌∷◌, ◌++◌, length, get_elem?, set, replicate, Option, none, some, update,
}

-- A name as its bytes; the empty name is one that is not known yet.
abbrev pub Name : Type 0
Name = List ℕ

-- struct Result. The counts are indexed by the outcome: 0 loss, 1 draw, 2 win.
pub record Result : Type 0 where
  pub e1 : ℕ
  pub e2 : ℕ
  pub count : ℕ → ℕ

-- Result::total.
abbrev pub total : Result → ℕ
total r = r.count 0 + r.count 1 + r.count 2

-- struct Job.
pub record Job : Type 0 where
  pub e1 : ℕ
  pub e2 : ℕ
  pub pair : ℕ
  pub round : ℕ
  pub game : ℕ
  pub reverse : Bool

pub record JobQueue : Type 0 where
  pub jobs : List Job
  pub results : List Result
  pub names : List Name
  pub idx : ℕ
  pub completed : ℕ

abbrev pub odd : ℕ → Bool
odd g = g % 2 == 1

-- The variables of one round: the counter of pairs, the games added to the round, and the jobs.
pub record Adding : Type 0 where
  pub pair : ℕ
  pub added : ℕ
  pub jobs : List Job

-- The body of the loop of job_queue_init_pair.
abbrev pub add_game : ℕ → ℕ → ℕ → ℕ → ℕ → Adding → Adding
add_game e1 e2 pair round g s = record s {
  added = s.added + 1;
  jobs =
      s.jobs
      ++ record { e1 = e1; e2 = e2; pair = pair; round = round; game = s.added; reverse = odd g }
        ∷ [];
}

-- job_queue_init_pair, which the caller gives the pair and the round.
unfoldable pub job_queue_init_pair : ℕ → ℕ → ℕ → ℕ → ℕ → Adding → Adding
job_queue_init_pair games e1 e2 pair round s = for_below games (add_game e1 e2 pair round) s

-- for (e2 = 1; e2 < engines; e2++), with e1 = 0.
abbrev pub for_gauntlet {ℓ} : {S : Type ℓ} → ℕ → (ℕ → ℕ → S → S) → S → S
for_gauntlet engines body = for_below (engines - 1) (λ k. body 0 (1 + k))

-- for (e1 = 0; e1 < engines - 1; e1++) for (e2 = e1 + 1; e2 < engines; e2++).
abbrev pub for_round_robin {ℓ} : {S : Type ℓ} → ℕ → (ℕ → ℕ → S → S) → S → S
for_round_robin engines body =
    for_below (engines - 1) (λ e1. for_below (engines - (e1 + 1)) (λ k. body e1 (e1 + 1 + k)))

abbrev push_result : ℕ → ℕ → List Result → List Result
push_result e1 e2 rs = rs ++ record { e1 = e1; e2 = e2; count = λ i. 0 } ∷ []

-- The loops of the constructor that fill `results`.
unfoldable pub init_results : ℕ → Bool → List Result
init_results engines gauntlet =
    if gauntlet then for_gauntlet engines push_result [] else for_round_robin engines push_result []

-- The calls of job_queue_init_pair: with e2 - 1 as the pair, and with a counter.
abbrev pub add_gauntlet : ℕ → ℕ → ℕ → ℕ → Adding → Adding
add_gauntlet games round e1 e2 s = job_queue_init_pair games e1 e2 (e2 - 1) round s

abbrev pub add_round_robin : ℕ → ℕ → ℕ → ℕ → Adding → Adding
add_round_robin games round e1 e2 s =
    job_queue_init_pair games e1 e2 s.pair round (record s { pair = s.pair + 1 })

-- The body of the loop over the rounds.
unfoldable pub init_round : ℕ → ℕ → Bool → ℕ → List Job → List Job
unfolding job_queue_init_pair
init_round engines games gauntlet round jobs =
    let start : Adding = record { pair = 0; added = 0; jobs = jobs } in
    if gauntlet
    then (for_gauntlet engines (add_gauntlet games round) start).jobs
    else (for_round_robin engines (add_round_robin games round) start).jobs

-- JobQueue::JobQueue.
unfoldable pub new : ℕ → ℕ → ℕ → Bool → JobQueue
unfolding init_results init_round for_below
new engines rounds games gauntlet = record {
  jobs = for_below rounds (init_round engines games gauntlet) [];
  results = init_results engines gauntlet;
  names = replicate engines [];
  idx = 0;
  completed = 0;
}

-- JobQueue::pop: the job, its index and the number of jobs.
unfoldable pub pop : JobQueue → Option (Job × ℕ × ℕ) × JobQueue
pop q = elim (get_elem? q.jobs q.idx) [
  | some j ↦ (some (j, q.idx, length q.jobs), record q { idx = q.idx + 1 })
  | none ↦ (none, q)
]

abbrev pub bump : ℕ → Result → Result
bump outcome r = record r { count = update r.count outcome (r.count outcome + 1) }

-- JobQueue::add_result: the updated totals of the pair. A pair out of range is undefined in the
-- source, and `none` here.
unfoldable pub add_result : ℕ → ℕ → JobQueue → Option ((ℕ → ℕ) × JobQueue)
add_result pair outcome q = elim (get_elem? q.results pair) [
  | some r ↦ some (
    (bump outcome r).count,
    record q { results = set q.results pair (bump outcome r); completed = q.completed + 1 },
  )
  | none ↦ none
]

-- JobQueue::done.
unfoldable pub done : JobQueue → Bool
done q = q.idx == length q.jobs

-- JobQueue::stop.
unfoldable pub stop : JobQueue → JobQueue
stop q = record q { idx = length q.jobs }

abbrev fill_name : Name → Name → Name
fill_name [] name = name
fill_name (c ∷ cs) name = c ∷ cs

-- JobQueue::set_name. An engine out of range is undefined in the source.
unfoldable pub set_name : ℕ → Name → JobQueue → JobQueue
set_name ei name q = elim (get_elem? q.names ei) [
  | some old ↦ record q { names = set q.names ei (fill_name old name) }
  | none ↦ q
]
