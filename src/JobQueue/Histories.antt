-- ===== src/JobQueue/Histories.antt =====
-- What the workers get from the queue, in any order of their operations.
use c_gomoku_cli.Prelude.{
  ℕ, zero, suc, subst, Bool-cases, ◌+◌, ◌<◌, ◌≤◌, ◌≡◌, ◌⊎◌, inl, inr, refl, sym, ap, ◌∙◌, Bool,
  true, false, List, [], ◌∷◌, ◌++◌, length, length-append, get_elem?, some, none, Option-cases,
  arith, get_elem?-lt, some-inv, set, ==→≡, ≡→==,
}
use c_gomoku_cli.JobQueue.{Job, JobQueue, Name, bump, pop, add_result, done, stop, set_name}

-- What a pop gives: a job, its index and the number of jobs.
abbrev pub Ticket : Type 0
Ticket = Job × ℕ × ℕ

-- A history of the queue `q` in which the workers got the tickets `xs`, and which has a stop or not.
pub data History (q : JobQueue) : List Ticket → Bool → JobQueue → Type 0 where
  begins : History q [] false q
  hands :
      {xs : List Ticket} {stopped : Bool} {r : JobQueue} (x : Ticket)
      → History q xs stopped r
      → (pop r).0 ≡ some x
      → History q (xs ++ x ∷ []) stopped (pop r).1
  idles :
      {xs : List Ticket} {stopped : Bool} {r : JobQueue}
      → History q xs stopped r
      → (pop r).0 ≡ none
      → History q xs stopped (pop r).1
  counts :
      {xs : List Ticket} {stopped : Bool} {r s : JobQueue} (pair outcome : ℕ) {c : ℕ → ℕ}
      → History q xs stopped r
      → add_result pair outcome r ≡ some (c, s)
      → History q xs stopped s
  names :
      {xs : List Ticket} {stopped : Bool} {r : JobQueue} (ei : ℕ) (name : Name)
      → History q xs stopped r
      → History q xs stopped (set_name ei name r)
  halts :
      {xs : List Ticket} {stopped : Bool} {r : JobQueue}
      → History q xs stopped r
      → History q xs true (stop r)

-- The tickets are those of the jobs from the index of `q` on, in their order. Without a stop they are
-- all up to the index of `r`, and after a stop no job is left for a pop.
pub record Handed (q : JobQueue) (xs : List Ticket) (stopped : Bool) (r : JobQueue) : Type 0 where
  pub jobs : r.jobs ≡ q.jobs
  pub each :
      (i : ℕ)
      → i < length xs
      → (j : Job) × (get_elem? q.jobs (q.idx + i) ≡ some j)
        × (get_elem? xs i ≡ some (j, q.idx + i, length q.jobs))
  pub in_range : r.idx ≤ length q.jobs
  pub running : stopped ≡ false → r.idx ≡ q.idx + length xs
  pub over : stopped ≡ true → r.idx ≡ length q.jobs

pop-some :
    (r : JobQueue) (x : Ticket)
    → (pop r).0 ≡ some x
    → (j : Job) × (get_elem? r.jobs r.idx ≡ some j)
      × (x ≡ (j, r.idx, length r.jobs))
      × ((pop r).1 ≡ record r { idx = r.idx + 1 })
unfolding pop
pop-some r x h = elim (Option-cases (get_elem? r.jobs r.idx)) [
  | inl e ↦ absurd (ground arith)
  | inr (j, e) ↦
      let p : (pop r).0 ≡ some (j, r.idx, length r.jobs) = rw (e, pop) refl in
      (j, e, some-inv (sym h ∙ p), rw (e, pop) refl)
]

pop-none : (r : JobQueue) → (pop r).0 ≡ none → (pop r).1 ≡ r
unfolding pop
pop-none r h = elim (Option-cases (get_elem? r.jobs r.idx)) [
  | inl e ↦ rw (e, pop) refl
  | inr (j, e) ↦ absurd (ground arith)
]

add_result-keeps :
    (pair outcome : ℕ) (c : ℕ → ℕ) (r s : JobQueue)
    → add_result pair outcome r ≡ some (c, s)
    → (s.jobs ≡ r.jobs) × (s.idx ≡ r.idx)
unfolding add_result
add_result-keeps pair outcome c r s h = elim (Option-cases (get_elem? r.results pair)) [
  | inl e ↦ absurd (ground arith)
  | inr (x, e) ↦
      let p : add_result pair outcome r
          ≡ some (
            (bump outcome x).count,
            record r { results = set r.results pair (bump outcome x); completed = r.completed + 1 },
          ) =
        rw (e, add_result) refl in
      let same = some-inv (sym h ∙ p) in
      (
        ap (λ (t : (ℕ → ℕ) × JobQueue). t.1.jobs) same,
        ap (λ (t : (ℕ → ℕ) × JobQueue). t.1.idx) same,
      )
]

set_name-keeps :
    (ei : ℕ) (name : Name) (r : JobQueue)
    → ((set_name ei name r).jobs ≡ r.jobs) × ((set_name ei name r).idx ≡ r.idx)
unfolding set_name
set_name-keeps ei name r = elim (Option-cases (get_elem? r.names ei)) [
  | inl e ↦ rw (e, set_name) (refl, refl)
  | inr (x, e) ↦ rw (e, set_name) (refl, refl)
]

get_elem?-front {ℓ} :
    {A : Type ℓ} (xs ys : List A) (i : ℕ) → i < length xs → get_elem? (xs ++ ys) i ≡ get_elem? xs i
get_elem?-front [] ys i h = absurd (omega arith)
get_elem?-front (x ∷ xs) ys zero h = refl
get_elem?-front (x ∷ xs) ys (suc i) h = get_elem?-front xs ys i (omega arith)

get_elem?-last {ℓ} :
    {A : Type ℓ} (xs : List A) (x : A) → get_elem? (xs ++ x ∷ []) (length xs) ≡ some x
get_elem?-last [] x = refl
get_elem?-last (y ∷ xs) x = get_elem?-last xs x

ticket_eq : (j : Job) (a b m n : ℕ) → a ≡ b → m ≡ n → ◌≡◌ {A = Ticket} (j, a, m) (j, b, n)
ticket_eq j a b m n e f k = (j, e k, f k)

module _ (q : JobQueue) (xs : List Ticket) (stopped : Bool) (r : JobQueue)
    (h : Handed q xs stopped r) where
  -- Without a stop, or the pop would have given nothing.
  not_over : (j : Job) → get_elem? r.jobs r.idx ≡ some j → stopped ≡ false
  not_over j e = elim (Bool-cases stopped) [
    | inr running ↦ running
    | inl over ↦
        absurd
          (let lt = get_elem?-lt r.jobs r.idx e in omega (arith, lt, h.over over, ap length h.jobs))
  ]

  hand_each :
      (x : Ticket) (j : Job)
      → get_elem? r.jobs r.idx ≡ some j
      → x ≡ (j, r.idx, length r.jobs)
      → r.idx ≡ q.idx + length xs
      → (i : ℕ) → i < length (xs ++ x ∷ [])
      → (k : Job) × (get_elem? q.jobs (q.idx + i) ≡ some k)
        × (get_elem? (xs ++ x ∷ []) i ≡ some (k, q.idx + i, length q.jobs))
  hand_each x j found same here i hi =
      elim (before_or_last i (omega (arith, hi, length-append xs (x ∷ [])))) [
        | inl lt ↦ let (k, e, e') = h.each i lt in (k, e, get_elem?-front xs (x ∷ []) i lt ∙ e')
        | inr at ↦
            let place : q.idx + i ≡ r.idx = omega (arith, at, here) in
            (
              j,
              ap (get_elem? q.jobs) place ∙ ap (λ js. get_elem? js r.idx) (sym h.jobs) ∙ found,
              ap (get_elem? (xs ++ x ∷ [])) at
                  ∙ get_elem?-last xs x
                  ∙ ap some
                      (same ∙ ticket_eq j r.idx (q.idx + i) _ _ (sym place) (ap length h.jobs)),
            )
      ]
    where
      before_or_last : (i : ℕ) → i < length xs + 1 → (i < length xs) ⊎ (i ≡ length xs)
      before_or_last i h = omega arith

  hands-Handed : (x : Ticket) → (pop r).0 ≡ some x → Handed q (xs ++ x ∷ []) stopped (pop r).1
  hands-Handed x e =
      let (j, found, same, next) = pop-some r x e in
      let here = h.running (not_over j found) in
      subst (Handed q (xs ++ x ∷ []) stopped) (sym next) (record {
        jobs = h.jobs;
        each = hand_each x j found same here;
        in_range = let lt = get_elem?-lt r.jobs r.idx found in omega (arith, lt, ap length h.jobs);
        running = λ s. omega (arith, here, length-append xs (x ∷ []));
        over = λ s. cc (sym s ∙ not_over j found);
      })

  -- What leaves the jobs and the index alone.
  same-Handed : (s : JobQueue) → s.jobs ≡ r.jobs → s.idx ≡ r.idx → Handed q xs stopped s
  same-Handed s e f = record {
    jobs = e ∙ h.jobs;
    each = h.each;
    in_range = omega (arith, h.in_range, f);
    running = λ t. f ∙ h.running t;
    over = λ t. f ∙ h.over t;
  }

  stop-Handed : Handed q xs true (stop r)
  unfolding stop
  stop-Handed = record {
    jobs = h.jobs;
    each = h.each;
    in_range = omega (arith, ap length h.jobs);
    running = λ t. cc;
    over = λ t. ap length h.jobs;
  }

History-Handed :
    (q : JobQueue) (xs : List Ticket) (stopped : Bool) (r : JobQueue)
    → q.idx ≤ length q.jobs
    → History q xs stopped r
    → Handed q xs stopped r
History-Handed q _ _ _ v begins = record {
  jobs = refl;
  each = λ i h. absurd (omega arith);
  in_range = v;
  running = λ t. omega arith;
  over = λ t. cc;
}
History-Handed q _ stopped _ v (hands {xs} {r = r} x l e) =
    hands-Handed q xs stopped r (History-Handed q xs stopped r v l) x e
History-Handed q xs stopped _ v (idles {r = r} l e) =
    let h = History-Handed q xs stopped r v l in
    let same = pop-none r e in
    same-Handed q xs stopped r h (pop r).1 (ap (λ (s : JobQueue). s.jobs) same)
      (ap (λ (s : JobQueue). s.idx) same)
History-Handed q xs stopped s v (counts {r = r} pair outcome {c} l e) =
    let h = History-Handed q xs stopped r v l in
    let (jobs, idx) = add_result-keeps pair outcome c r s e in
    same-Handed q xs stopped r h s jobs idx
History-Handed q xs stopped _ v (names {r = r} ei name l) =
    let h = History-Handed q xs stopped r v l in
    let (jobs, idx) = set_name-keeps ei name r in
    same-Handed q xs stopped r h (set_name ei name r) jobs idx
History-Handed q xs _ _ v (halts {stopped = stopped} {r = r} l) =
    stop-Handed q xs stopped r (History-Handed q xs stopped r v l)

pop_at_end : (r : JobQueue) → length r.jobs ≤ r.idx → (pop r).0 ≡ none
unfolding pop
pop_at_end r h = elim (Option-cases (get_elem? r.jobs r.idx)) [
  | inl e ↦ rw (e, pop) refl
  | inr (j, e) ↦ absurd (let lt = get_elem?-lt r.jobs r.idx e in omega (arith, lt))
]

-- With the index within the jobs, in any history of pops, results, names and stops of the queue,
-- whatever the order, the workers get the jobs from the index on, each once and in their order, with
-- its index and the number of jobs. If the queue is done without a stop they have got all of them.
-- After a stop the queue is done, and a pop gives no job.
pub tickets_in_order :
    (q : JobQueue) (xs : List Ticket) (stopped : Bool) (r : JobQueue)
    → q.idx ≤ length q.jobs
    → History q xs stopped r
    → Handed q xs stopped r
      × (done r ≡ true → stopped ≡ false → q.idx + length xs ≡ length q.jobs)
      × (stopped ≡ true → (done r ≡ true) × ((pop r).0 ≡ none))
unfolding done
tickets_in_order q xs stopped r v l =
    let h = History-Handed q xs stopped r v l in
    (
      h,
      λ d s. omega (arith, h.running s, ==→≡ r.idx (length r.jobs) d, ap length h.jobs),
      λ s.
          let e : r.idx ≡ length r.jobs = h.over s ∙ sym (ap length h.jobs) in
          (≡→== r.idx (length r.jobs) e, pop_at_end r (omega (arith, e))),
    )
