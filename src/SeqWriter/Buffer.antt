-- ===== src/SeqWriter/Buffer.antt =====
-- The buffer is strictly sorted, and a push keeps it so.
use c_gomoku_cli.Prelude.{
  ℕ, suc, ◌≤◌, ◌≡◌, ◌⊎◌, ◌↔◌, inl, inr, List, [], ◌∷◌, All, ltb, Bool-cases, arith, false,
}
use c_gomoku_cli.SeqWriter.{SeqStr, insert_sorted}

module _ {ℓ} {A : Type ℓ} where
  -- The indexes grow strictly, from `lo` on.
  abbrev pub Above : ℕ → List (SeqStr A) → Type 0
  Above lo [] = Unit {0}
  Above lo (x ∷ xs) = (lo ≤ x.idx) × Above (suc x.idx) xs

  -- Some item has the index `i`.
  abbrev pub Holds : ℕ → List (SeqStr A) → Type 0
  Holds i [] = ⊥
  Holds i (x ∷ xs) = (x.idx ≡ i) ⊎ Holds i xs

  pub Above-mono : (lo hi : ℕ) (xs : List (SeqStr A)) → lo ≤ hi → Above hi xs → Above lo xs
  Above-mono lo hi [] h a = tt
  Above-mono lo hi (x ∷ xs) h a = (omega arith, a.1)

  pub Above-Holds : (lo i : ℕ) (xs : List (SeqStr A)) → Above lo xs → Holds i xs → lo ≤ i
  Above-Holds lo i [] a h = absurd h
  Above-Holds lo i (x ∷ xs) a (inl e) = omega arith
  Above-Holds lo i (x ∷ xs) a (inr h) = omega (arith, Above-Holds (suc x.idx) i xs a.1 h)

  pub insert_sorted-Above :
      (lo : ℕ) (s : SeqStr A) (xs : List (SeqStr A))
      → Above lo xs
      → lo ≤ s.idx
      → ¬ Holds s.idx xs
      → Above lo (insert_sorted s xs)
  unfolding insert_sorted
  insert_sorted-Above lo s [] a h fresh = (h, tt)
  insert_sorted-Above lo s (x ∷ xs) a h fresh = elim (Bool-cases (ltb s.idx x.idx)) [
    | inl e ↦ rw e (h, (ground arith, a.1))
    | inr e ↦ rw e (a.0, insert_sorted-Above (suc x.idx) s xs a.1 (later e) (λ k. fresh (inr k)))
  ]
    where
      later : ltb s.idx x.idx ≡ false → suc x.idx ≤ s.idx
      later e = ground (arith, λ (k : x.idx ≡ s.idx). fresh (inl k))

  pub insert_sorted-Holds :
      (i : ℕ) (s : SeqStr A) (xs : List (SeqStr A))
      → Holds i (insert_sorted s xs) ↔ ((s.idx ≡ i) ⊎ Holds i xs)
  unfolding insert_sorted
  insert_sorted-Holds i s [] = (λ h. h, λ h. h)
  insert_sorted-Holds i s (x ∷ xs) = ground (arith, insert_sorted-Holds i s xs)

  pub insert_sorted-All :
      (P : SeqStr A → Type ℓ) (s : SeqStr A) (xs : List (SeqStr A))
      → P s
      → All P xs
      → All P (insert_sorted s xs)
  unfolding insert_sorted
  insert_sorted-All P s [] h a = (h, tt)
  insert_sorted-All P s (x ∷ xs) h a = elim (Bool-cases (ltb s.idx x.idx)) [
    | inl e ↦ rw e (h, a)
    | inr e ↦ rw e (a.0, insert_sorted-All P s xs h a.1)
  ]
