-- ===== src/JobQueue/Pairs.antt =====
-- The pairs of engines in the order of the loops.
use c_gomoku_cli.Prelude.{
  for_below, ℕ, zero, suc, ◌+◌, ◌-◌, ◌≡◌, refl, sym, ap, ◌∙◌, Bool, true, false, if◌then◌else◌,
  List, [], ◌∷◌, ◌++◌, map, append_assoc, append-nil,
}
use c_gomoku_cli.JobQueue.{Result, for_gauntlet, for_round_robin, push_result, init_results}

abbrev pub snoc_pair : ℕ → ℕ → List (ℕ × ℕ) → List (ℕ × ℕ)
snoc_pair e1 e2 ps = ps ++ (e1, e2) ∷ []

-- The pairs that the loops of the constructor visit.
unfoldable pub pairs : ℕ → Bool → List (ℕ × ℕ)
pairs engines gauntlet =
    if gauntlet then for_gauntlet engines snoc_pair [] else for_round_robin engines snoc_pair []

abbrev pub fold_pairs {ℓ} : {S : Type ℓ} → (ℕ → ℕ → S → S) → List (ℕ × ℕ) → S → S
fold_pairs body [] s = s
fold_pairs body ((e1, e2) ∷ ps) s = fold_pairs body ps (body e1 e2 s)

module _ {ℓ} {S : Type ℓ} (body : ℕ → ℕ → S → S) where
  fold_pairs-snoc :
      (ps : List (ℕ × ℕ)) (e1 e2 : ℕ) (s : S)
      → fold_pairs body (snoc_pair e1 e2 ps) s ≡ body e1 e2 (fold_pairs body ps s)
  fold_pairs-snoc [] e1 e2 s = refl
  fold_pairs-snoc ((a, b) ∷ ps) e1 e2 s = fold_pairs-snoc ps e1 e2 (body a b s)

  row-fold :
      (n e1 : ℕ) (e : ℕ → ℕ) (ps : List (ℕ × ℕ)) (s : S)
      → fold_pairs body (for_below n (λ k. snoc_pair e1 (e k)) ps) s
        ≡ for_below n (λ k. body e1 (e k)) (fold_pairs body ps s)
  unfolding for_below
  row-fold zero e1 e ps s = refl
  row-fold (suc n) e1 e ps s =
      fold_pairs-snoc (for_below n (λ k. snoc_pair e1 (e k)) ps) e1 (e n) s
      ∙ ap (body e1 (e n)) (row-fold n e1 e ps s)

  grid-fold :
      (m engines : ℕ) (ps : List (ℕ × ℕ)) (s : S)
      → fold_pairs body
          (for_below m (λ e1. for_below (engines - (e1 + 1)) (λ k. snoc_pair e1 (e1 + 1 + k))) ps)
          s
        ≡ for_below m
            (λ e1. for_below (engines - (e1 + 1)) (λ k. body e1 (e1 + 1 + k)))
            (fold_pairs body ps s)
  unfolding for_below
  grid-fold zero engines ps s = refl
  grid-fold (suc m) engines ps s =
      row-fold (engines - (m + 1)) m (λ k. m + 1 + k) _ s
      ∙ ap (for_below (engines - (m + 1)) (λ k. body m (m + 1 + k))) (grid-fold m engines ps s)

  pub gauntlet-fold :
      (engines : ℕ) (s : S) → for_gauntlet engines body s ≡ fold_pairs body (pairs engines true) s
  unfolding pairs
  gauntlet-fold engines s = sym (row-fold (engines - 1) 0 (λ k. 1 + k) [] s)

  pub round_robin-fold :
      (engines : ℕ) (s : S)
      → for_round_robin engines body s ≡ fold_pairs body (pairs engines false) s
  unfolding pairs
  round_robin-fold engines s = sym (grid-fold (engines - 1) engines [] s)

abbrev pub fresh_result : ℕ × ℕ → Result
fresh_result (e1, e2) = record { e1 = e1; e2 = e2; count = λ i. 0 }

fold-push_result :
    (ps : List (ℕ × ℕ)) (rs : List Result)
    → fold_pairs push_result ps rs ≡ rs ++ map fresh_result ps
fold-push_result [] rs = sym (append-nil rs)
fold-push_result ((e1, e2) ∷ ps) rs =
    fold-push_result ps (push_result e1 e2 rs)
    ∙ append_assoc rs (fresh_result (e1, e2) ∷ []) (map fresh_result ps)

-- The results are those of the pairs, in the same order, with no game counted.
pub init_results-pairs :
    (engines : ℕ) (gauntlet : Bool)
    → init_results engines gauntlet ≡ map fresh_result (pairs engines gauntlet)
unfolding init_results
init_results-pairs engines true =
    gauntlet-fold push_result engines [] ∙ fold-push_result (pairs engines true) []
init_results-pairs engines false =
    round_robin-fold push_result engines [] ∙ fold-push_result (pairs engines false) []
