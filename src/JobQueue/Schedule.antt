-- ===== src/JobQueue/Schedule.antt =====
-- Which games the constructor schedules, and in what order.
use c_gomoku_cli.Prelude.{
  for_below, ℕ, zero, suc, ◌+◌, ◌*◌, ◌<◌, ◌≤◌, ◌≡◌, ◌/◌, ◌%◌, ◌↔◌, true, ==→≡, ≡→==, ◌⊎◌, inl, inr,
  refl, sym, ap, ◌∙◌, List, [], ◌∷◌, ◌++◌, length, length-append, get_elem?, some, arith, subst,
}
use c_gomoku_cli.JobQueue.{Job, Adding, odd, add_game, job_queue_init_pair}

some_inj {ℓ} : {A : Type ℓ} {x y : A} → some x ≡ some y → x ≡ y
some_inj e = cc

pub get_elem?-snoc {ℓ} :
    {A : Type ℓ} (xs : List A) (x : A) (k : ℕ) {y : A}
    → get_elem? (xs ++ x ∷ []) k ≡ some y
    → (get_elem? xs k ≡ some y) ⊎ ((k ≡ length xs) × (x ≡ y))
get_elem?-snoc [] x zero e = inr (refl, some_inj e)
get_elem?-snoc [] x (suc k) e = cc
get_elem?-snoc (z ∷ xs) x zero e = inl e
get_elem?-snoc (z ∷ xs) x (suc k) e = elim (get_elem?-snoc xs x k e) [
  | inl h ↦ inl h
  | inr (h, h') ↦ inr (omega arith, h')
]

plus_zero : (a : ℕ) → a ≡ a + 0
plus_zero a = omega arith

next_pair : (r n p games : ℕ) → (r * n + p) * games + games ≡ (r * n + (p + 1)) * games
next_pair r n p games = omega arith

odd_iff : (g : ℕ) → (odd g ≡ true) ↔ ((n : ℕ) × (g ≡ 2 * n + 1))
odd_iff g = (λ h. (g / 2, omega (arith, ==→≡ (g % 2) 1 h)), λ (n, e). ≡→== (g % 2) 1 (omega arith))

module _ (ps : List (ℕ × ℕ)) (games : ℕ) where
  -- What job number `k` of the queue is: game `g` of its pair in its round. The games of a round
  -- are numbered through the pairs, and every second game of a pair has the colors reversed.
  pub record JobAt (k : ℕ) (j : Job) : Type 0 where
    pub g : ℕ
    pub g_lt : g < games
    pub place : k ≡ (j.round * length ps + j.pair) * games + g
    pub number : j.game ≡ j.pair * games + g
    pub colors : (j.reverse ≡ true) ↔ ((n : ℕ) × (g ≡ 2 * n + 1))
    pub engines : get_elem? ps j.pair ≡ some (j.e1, j.e2)

  pub record Scheduled (c : ℕ) (jobs : List Job) : Type 0 where
    pub size : length jobs ≡ c
    pub each : (k : ℕ) (j : Job) → get_elem? jobs k ≡ some j → JobAt k j

  push-Scheduled :
      (c : ℕ) (jobs : List Job) (j : Job)
      → Scheduled c jobs
      → JobAt c j
      → Scheduled (c + 1) (jobs ++ j ∷ [])
  push-Scheduled c jobs j s h = record {
    size = omega (arith, length-append jobs (j ∷ []), s.size);
    each = λ k i e. elim (get_elem?-snoc jobs j k e) [
      | inl old ↦ s.each k i old
      | inr (last, same) ↦ subst (JobAt k) same (subst (λ n. JobAt n j) (sym (last ∙ s.size)) h)
    ];
  }

  -- The state after the pairs before number `p` of round `r`.
  pub record AtPair (r p : ℕ) (s : Adding) : Type 0 where
    pub count : s.added ≡ p * games
    pub jobs : Scheduled ((r * length ps + p) * games) s.jobs

  record AtGame (r p g : ℕ) (s : Adding) : Type 0 where
    count : s.added ≡ p * games + g
    jobs : Scheduled ((r * length ps + p) * games + g) s.jobs

  add_game-AtGame :
      (r p e1 e2 g : ℕ) (s : Adding)
      → get_elem? ps p ≡ some (e1, e2)
      → g < games
      → AtGame r p g s
      → AtGame r p (g + 1) (add_game e1 e2 p r g s)
  add_game-AtGame r p e1 e2 g s here hg a = record {
    count = omega (arith, a.count);
    jobs =
        subst (λ c. Scheduled c (add_game e1 e2 p r g s).jobs)
          (let e : (r * length ps + p) * games + g + 1 ≡ (r * length ps + p) * games + (g + 1) =
              omega arith in
            e)
          (push-Scheduled _ s.jobs _ a.jobs (record {
            g = g;
            g_lt = hg;
            place = refl;
            number = a.count;
            colors = odd_iff g;
            engines = here;
          }));
  }

  games-AtGame :
      (r p e1 e2 m : ℕ) (s : Adding)
      → get_elem? ps p ≡ some (e1, e2)
      → m ≤ games
      → AtGame r p 0 s
      → AtGame r p m (for_below m (add_game e1 e2 p r) s)
  unfolding for_below
  games-AtGame r p e1 e2 zero s here hm a = a
  games-AtGame r p e1 e2 (suc m) s here hm a =
      subst (λ k. AtGame r p k (add_game e1 e2 p r m (for_below m (add_game e1 e2 p r) s)))
        (let e : m + 1 ≡ suc m = omega arith in e)
        (add_game-AtGame r p e1 e2 m _ here (omega arith)
          (games-AtGame r p e1 e2 m s here (omega arith) a))

  pub init_pair-AtPair :
      (r p e1 e2 : ℕ) (s : Adding)
      → get_elem? ps p ≡ some (e1, e2)
      → AtPair r p s
      → AtPair r (p + 1) (job_queue_init_pair games e1 e2 p r s)
  unfolding job_queue_init_pair
  init_pair-AtPair r p e1 e2 s here a =
      let b = games-AtGame r p e1 e2 games s here (omega arith) (record {
        count = omega (arith, a.count);
        jobs = subst (λ c. Scheduled c s.jobs) (plus_zero _) a.jobs;
      }) in
      record {
        count = omega (arith, b.count);
        jobs =
            subst (λ c. Scheduled c (for_below games (add_game e1 e2 p r) s).jobs)
              (next_pair r (length ps) p games) b.jobs;
      }

  -- `rest` is what stands in the list of pairs from number `p` on.
  abbrev pub From : ℕ → List (ℕ × ℕ) → Type 0
  From p rest =
      (p + length rest ≡ length ps)
      × ((i : ℕ) → i < length rest → get_elem? ps (p + i) ≡ get_elem? rest i)

  pub From-tail : (p : ℕ) (e : ℕ × ℕ) (rest : List (ℕ × ℕ)) → From p (e ∷ rest) → From (p + 1) rest
  From-tail p e rest (len, at) = (
    omega arith,
    λ i hi.
        ap (get_elem? ps) (let e : p + 1 + i ≡ p + suc i = omega arith in e)
        ∙ at (suc i) (omega arith),
  )

  pub From-head :
      (p : ℕ) (e : ℕ × ℕ) (rest : List (ℕ × ℕ)) → From p (e ∷ rest) → get_elem? ps p ≡ some e
  From-head p e rest (len, at) =
      ap (get_elem? ps) (let e : p ≡ p + 0 = omega arith in e) ∙ at 0 (omega arith)
