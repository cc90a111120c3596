-- ===== src/SeqWriter/Close.antt =====
-- The destructor writes what still waits, in the order of the indexes.
use c_gomoku_cli.Prelude.{
  ℕ, zero, suc, ◌+◌, ◌<◌, ◌≤◌, ◌≡◌, ◌⊎◌, ◌↔◌, inl, inr, refl, ap, ◌∙◌, List, [], ◌∷◌, ◌++◌, map,
  take, All, arith, length,
}
use c_gomoku_cli.SeqWriter.{SeqStr, write_to_i, new, close}
use c_gomoku_cli.SeqWriter.Buffer.{Above, Holds, Above-mono}
use c_gomoku_cli.SeqWriter.Order.{strs_from, Labelled}
use c_gomoku_cli.SeqWriter.Complete.{In, Distinct, push_all, pushed-Inv}

module _ {ℓ} {A : Type ℓ} (str : ℕ → A) where
  -- The strings that have an index in `js`.
  abbrev pub strs : List ℕ → List A
  strs js = map str js

  abbrev pub Increasing : ℕ → List ℕ → Type 0
  Increasing lo [] = Unit {0}
  Increasing lo (j ∷ js) = (lo ≤ j) × Increasing (suc j) js

  abbrev indices : List (SeqStr A) → List ℕ
  indices = map (λ s. s.idx)

  abbrev count_up : ℕ → ℕ → List ℕ → List ℕ
  count_up n zero js = js
  count_up n (suc k) js = n ∷ count_up (n + 1) k js

  strs-indices :
      (xs : List (SeqStr A)) → All (Labelled str) xs → map (λ s. s.str) xs ≡ strs (indices xs)
  strs-indices [] l = refl
  strs-indices (x ∷ xs) l =
      ap {A = A} (λ s. s ∷ map (λ y. y.str) xs) l.0
      ∙ ap (λ ys. str x.idx ∷ ys) (strs-indices xs l.1)

  strs-count_up : (n k : ℕ) (js : List ℕ) → strs_from str n k ++ strs js ≡ strs (count_up n k js)
  strs-count_up n zero js = refl
  strs-count_up n (suc k) js = ap (λ ys. str n ∷ ys) (strs-count_up (n + 1) k js)

  Increasing-indices : (lo : ℕ) (xs : List (SeqStr A)) → Above lo xs → Increasing lo (indices xs)
  Increasing-indices lo [] a = tt
  Increasing-indices lo (x ∷ xs) a = (a.0, Increasing-indices (suc x.idx) xs a.1)

  Increasing-count_up :
      (lo n k : ℕ) (js : List ℕ)
      → lo ≤ n
      → ((m : ℕ) → m ≤ n + k → Increasing m js)
      → Increasing lo (count_up n k js)
  Increasing-count_up lo n zero js h i = i lo (omega arith)
  Increasing-count_up lo n (suc k) js h i =
      (h, Increasing-count_up (suc n) (n + 1) k js (omega arith) (λ m hm. i m (omega arith)))

  In-indices : (i : ℕ) (xs : List (SeqStr A)) → In i (indices xs) ↔ Holds i xs
  In-indices i [] = (λ h. h, λ h. h)
  In-indices i (x ∷ xs) = ground (arith, In-indices i xs)

  In-count_up :
      (i n k : ℕ) (js : List ℕ) → In i (count_up n k js) ↔ (((n ≤ i) × (i < n + k)) ⊎ In i js)
  In-count_up i n zero js = (λ h. inr h, elim [ inl h ↦ absurd (omega arith) | inr h ↦ h ])
  In-count_up i n (suc k) js = ground (arith, In-count_up i (n + 1) k js)

  take-length : (xs : List (SeqStr A)) → take (length xs) xs ≡ xs
  take-length [] = refl
  take-length (x ∷ xs) = ap (λ ys. x ∷ ys) (take-length xs)

  -- Whichever distinct indexes were pushed, in whatever order and with whatever gaps, after the
  -- destructor the file has exactly their strings, in increasing order of the indexes.
  pub close_complete :
      (is : List ℕ)
      → Distinct is
      → (js : List ℕ) × ((close (push_all str new is)).out ≡ strs js)
        × Increasing 0 js
        × ((i : ℕ) → In i js ↔ In i is)
  unfolding close write_to_i
  close_complete is d =
      let w = push_all str new is in
      let v = pushed-Inv str is d in
      (
        count_up 0 w.idx_next (indices w.buf),
        ap (λ xs. w.out ++ map (λ s. s.str) xs) (take-length w.buf)
            ∙ ap (λ ys. ys ++ map (λ s. s.str) w.buf) v.written
            ∙ ap (λ ys. strs_from str 0 w.idx_next ++ ys) (strs-indices w.buf v.labels)
            ∙ strs-count_up 0 w.idx_next (indices w.buf),
        Increasing-count_up 0 0 w.idx_next (indices w.buf) (omega arith) (λ m hm.
            Increasing-indices m w.buf
              (Above-mono m (suc w.idx_next) w.buf (omega arith) v.sorted)),
        λ i.
            ground
              (arith, In-count_up i 0 w.idx_next (indices w.buf), In-indices i w.buf, v.seen i),
      )
