-- ===== src/JobQueue/Visits.antt =====
-- Which pairs of engines the loops of the constructor visit.
use c_gomoku_cli.Prelude.{
  for_below, ℕ, zero, suc, ◌+◌, ◌-◌, ◌<◌, ◌≡◌, ◌⊎◌, inl, inr, refl, sym, ap, ◌∙◌, Bool, true, false,
  List, [], ◌∷◌, ◌++◌, length, length-append, get_elem?, some, arith, subst,
}
use c_gomoku_cli.JobQueue.Pairs.{pairs, snoc_pair}
use c_gomoku_cli.JobQueue.Schedule.{get_elem?-snoc}

-- `ps` has the pairs a < b of the engines, each once: in a gauntlet those of the engine 0 with every
-- other, and else all of them.
pub record IsPairing (engines : ℕ) (gauntlet : Bool) (ps : List (ℕ × ℕ)) : Type 0 where
  pub sound :
      (i a b : ℕ)
      → get_elem? ps i ≡ some (a, b)
      → (a < b) × (b < engines) × (gauntlet ≡ true → a ≡ 0)
  pub complete :
      (a b : ℕ)
      → a < b
      → b < engines
      → (gauntlet ≡ true → a ≡ 0)
      → (i : ℕ) × (get_elem? ps i ≡ some (a, b))
  pub once : (i j a b : ℕ) → get_elem? ps i ≡ some (a, b) → get_elem? ps j ≡ some (a, b) → i ≡ j

get_elem?-old {ℓ} :
    {A : Type ℓ} (xs ys : List A) (i : ℕ) {x : A}
    → get_elem? xs i ≡ some x
    → get_elem? (xs ++ ys) i ≡ some x
get_elem?-old [] ys i e = cc
get_elem?-old (z ∷ xs) ys zero e = e
get_elem?-old (z ∷ xs) ys (suc i) e = get_elem?-old xs ys i e

get_elem?-new {ℓ} :
    {A : Type ℓ} (xs : List A) (x : A) → get_elem? (xs ++ x ∷ []) (length xs) ≡ some x
get_elem?-new [] x = refl
get_elem?-new (z ∷ xs) x = get_elem?-new xs x

pair_ext : (a b c d : ℕ) → a ≡ c → b ≡ d → ◌≡◌ {A = ℕ × ℕ} (a, b) (c, d)
pair_ext a b c d e f = cc

-- The inner loop, for the engine `a`, from the pairs `ps` on.
abbrev row_pairs : ℕ → (ℕ → ℕ) → ℕ → List (ℕ × ℕ) → List (ℕ × ℕ)
row_pairs a e n ps = for_below n (λ k. snoc_pair a (e k)) ps

module _ (a : ℕ) (e : ℕ → ℕ) (ps : List (ℕ × ℕ)) where
  length-row : (n : ℕ) → length (row_pairs a e n ps) ≡ length ps + n
  unfolding for_below
  length-row zero = omega arith
  length-row (suc n) =
      omega (arith, length-row n, length-append (row_pairs a e n ps) ((a, e n) ∷ []))

  row_old :
      (n i : ℕ) {x : ℕ × ℕ} → get_elem? ps i ≡ some x → get_elem? (row_pairs a e n ps) i ≡ some x
  unfolding for_below
  row_old zero i h = h
  row_old (suc n) i h = get_elem?-old (row_pairs a e n ps) _ i (row_old n i h)

  row_new : (n k : ℕ) → k < n → get_elem? (row_pairs a e n ps) (length ps + k) ≡ some (a, e k)
  unfolding for_below
  row_new zero k h = absurd (omega arith)
  row_new (suc n) k h = elim (last_or_before k n h) [
    | inl before ↦ get_elem?-old (row_pairs a e n ps) _ (length ps + k) (row_new n k before)
    | inr last ↦
        ap (get_elem? (row_pairs a e (suc n) ps))
          (ap (λ j. length ps + j) last ∙ sym (length-row n))
        ∙ get_elem?-new (row_pairs a e n ps) (a, e n)
        ∙ ap (λ j. some (a, e j)) (sym last)
  ]
    where
      last_or_before : (k n : ℕ) → k < suc n → (k < n) ⊎ (k ≡ n)
      last_or_before k n h = omega arith

  row_found :
      (n i : ℕ) (x : ℕ × ℕ)
      → get_elem? (row_pairs a e n ps) i ≡ some x
      → (get_elem? ps i ≡ some x) ⊎ ((k : ℕ) × (k < n) × (i ≡ length ps + k) × (x ≡ (a, e k)))
  unfolding for_below
  row_found zero i x h = inl h
  row_found (suc n) i x h = elim (get_elem?-snoc (row_pairs a e n ps) (a, e n) i h) [
    | inl old ↦ elim (row_found n i x old) [
      | inl first ↦ inl first
      | inr (k, hk, at, same) ↦ inr (k, omega arith, at, same)
    ]
    | inr (at, same) ↦ inr (n, omega arith, at ∙ length-row n, sym same)
  ]

-- The two loops, after `m` engines.
abbrev grid : ℕ → ℕ → List (ℕ × ℕ)
grid engines m = for_below m (λ a. for_below (engines - (a + 1)) (λ k. snoc_pair a (a + 1 + k))) []

grid_found :
    (engines m i : ℕ) (x : ℕ × ℕ)
    → get_elem? (grid engines m) i ≡ some x
    → (a : ℕ) × (k : ℕ) × (a < m)
      × (k < engines - (a + 1))
      × (i ≡ length (grid engines a) + k)
      × (x ≡ (a, a + 1 + k))
unfolding for_below
grid_found engines zero i x h = cc
grid_found engines (suc m) i x h =
    elim (row_found m (λ k. m + 1 + k) (grid engines m) (engines - (m + 1)) i x h) [
      | inl old ↦
          let (a, k, ha, hk, at, same) = grid_found engines m i x old in
          (a, k, omega arith, hk, at, same)
      | inr (k, hk, at, same) ↦ (m, k, omega arith, hk, at, same)
    ]

grid_new :
    (engines m a k : ℕ)
    → a < m
    → k < engines - (a + 1)
    → get_elem? (grid engines m) (length (grid engines a) + k) ≡ some (a, a + 1 + k)
unfolding for_below
grid_new engines zero a k h hk = absurd (omega arith)
grid_new engines (suc m) a k h hk = elim (last_or_before a m h) [
  | inl before ↦
      row_old m (λ j. m + 1 + j) (grid engines m) (engines - (m + 1)) _
        (grid_new engines m a k before hk)
  | inr last ↦
      subst
        (λ c.
          k < engines - (c + 1)
          → get_elem? (grid engines (suc m)) (length (grid engines c) + k) ≡ some (c, c + 1 + k))
        (sym last) (row_new m (λ j. m + 1 + j) (grid engines m) (engines - (m + 1)) k) hk
]
  where
    last_or_before : (a m : ℕ) → a < suc m → (a < m) ⊎ (a ≡ m)
    last_or_before a m h = omega arith

fst_eq : (a b c d : ℕ) → ◌≡◌ {A = ℕ × ℕ} (a, b) (c, d) → a ≡ c
fst_eq a b c d h = cc

snd_eq : (a b c d : ℕ) → ◌≡◌ {A = ℕ × ℕ} (a, b) (c, d) → b ≡ d
snd_eq a b c d h = cc

-- Where the loops put the pair (a, b).
round_robin_index :
    (engines i a b : ℕ)
    → get_elem? (pairs engines false) i ≡ some (a, b)
    → (a < b) × (b < engines) × (i ≡ length (grid engines a) + (b - (a + 1)))
unfolding pairs
round_robin_index engines i a b h =
    let (c, k, hc, hk, at, same) = grid_found engines (engines - 1) i (a, b) h in
    let ea = fst_eq a b c (c + 1 + k) same in
    let eb = snd_eq a b c (c + 1 + k) same in
    (
      omega (arith, ea, eb),
      omega (arith, ea, eb),
      subst (λ d. i ≡ length (grid engines d) + (b - (a + 1))) (sym ea)
          (at
            ∙ ap (λ j. length (grid engines c) + j)
                (let e : k ≡ b - (a + 1) = omega (arith, ea, eb) in e)),
    )

gauntlet_index :
    (engines i a b : ℕ)
    → get_elem? (pairs engines true) i ≡ some (a, b)
    → (a ≡ 0) × (b < engines) × (b ≡ i + 1)
unfolding pairs
gauntlet_index engines i a b h = elim (row_found 0 (λ k. 1 + k) [] (engines - 1) i (a, b) h) [
  | inl old ↦ cc
  | inr (k, hk, at, same) ↦
      let ea = fst_eq a b 0 (1 + k) same in
      let eb = snd_eq a b 0 (1 + k) same in (ea, omega (arith, eb), omega (arith, at, eb))
]

round_robin_complete :
    (engines a b : ℕ)
    → a < b
    → b < engines
    → (i : ℕ) × (get_elem? (pairs engines false) i ≡ some (a, b))
unfolding pairs
round_robin_complete engines a b h hb = (
  length (grid engines a) + (b - (a + 1)),
  grid_new engines (engines - 1) a (b - (a + 1)) (omega arith) (omega arith)
      ∙ ap (λ c. some (a, c)) (let e : a + 1 + (b - (a + 1)) ≡ b = omega arith in e),
)

gauntlet_complete :
    (engines b : ℕ)
    → 0 < b
    → b < engines
    → (i : ℕ) × (get_elem? (pairs engines true) i ≡ some (0, b))
unfolding pairs
gauntlet_complete engines b h hb = (
  0 + (b - 1),
  row_new 0 (λ k. 1 + k) [] (engines - 1) (b - 1) (omega arith)
      ∙ ap (λ c. some (0, c)) (let e : 1 + (b - 1) ≡ b = omega arith in e),
)

pub pairs-IsPairing :
    (engines : ℕ) (gauntlet : Bool) → IsPairing engines gauntlet (pairs engines gauntlet)
pairs-IsPairing engines true = record {
  sound = λ i a b h.
      let (ea, hb, eb) = gauntlet_index engines i a b h in (omega (arith, ea, eb), hb, λ t. ea);
  complete = λ a b h hb z.
      subst (λ c. (i : ℕ) × (get_elem? (pairs engines true) i ≡ some (c, b))) (sym (z refl))
        (gauntlet_complete engines b (omega arith) hb);
  once = λ i j a b h h'.
      omega (arith, (gauntlet_index engines i a b h).2, (gauntlet_index engines j a b h').2);
}
pairs-IsPairing engines false = record {
  sound = λ i a b h. let (hab, hb, at) = round_robin_index engines i a b h in (hab, hb, λ t. cc);
  complete = λ a b h hb z. round_robin_complete engines a b h hb;
  once = λ i j a b h h'.
      (round_robin_index engines i a b h).2 ∙ sym (round_robin_index engines j a b h').2;
}
