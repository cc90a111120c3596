-- ===== src/SeqWriter/Complete.antt =====
-- A complete set of pushes: the file has every string, in the order of the indexes.
use c_gomoku_cli.Prelude.{
  ℕ, suc, ◌<◌, ◌≡◌, ◌⊎◌, ◌↔◌, inl, inr, refl, sym, ap, ◌∙◌, List, [], ◌∷◌, arith, subst,
}
use c_gomoku_cli.SeqWriter.{SeqStr, SeqWriter, push, new}
use c_gomoku_cli.SeqWriter.Buffer.{Above, Holds, Above-Holds}
use c_gomoku_cli.SeqWriter.Order.{strs_from, Inv, new-Inv, push-Inv}

abbrev pub In : ℕ → List ℕ → Type 0
In i [] = ⊥
In i (x ∷ xs) = (x ≡ i) ⊎ In i xs

abbrev pub Distinct : List ℕ → Type 0
Distinct [] = Unit {0}
Distinct (x ∷ xs) = (¬ In x xs) × Distinct xs

module _ {ℓ} {A : Type ℓ} (str : ℕ → A) where
  pub push_all : SeqWriter A → List ℕ → SeqWriter A
  push_all w [] = w
  push_all w (i ∷ is) = push_all (push i (str i) w) is

  push_all-Inv :
      (Seen : ℕ → Type 0) (is : List ℕ) (w : SeqWriter A)
      → Inv str Seen w
      → Distinct is
      → ((i : ℕ) → In i is → ¬ Seen i)
      → Inv str (λ i. Seen i ⊎ In i is) (push_all w is)
  unfolding push_all
  push_all-Inv Seen [] w v d fresh = record {
    written = v.written;
    sorted = v.sorted;
    labels = v.labels;
    seen = λ i. ground (arith, v.seen i);
  }
  push_all-Inv Seen (k ∷ is) w v d fresh =
      let u =
        push_all-Inv (λ i. (k ≡ i) ⊎ Seen i) is (push k (str k) w)
          (push-Inv str Seen k w v (fresh k (inl refl))) d.1
          (λ i h. elim [
            | inl e ↦ d.0 (subst (λ j. In j is) (sym e) h)
            | inr s ↦ fresh i (inr h) s
          ]) in
      record {
        written = u.written;
        sorted = u.sorted;
        labels = u.labels;
        seen = λ i. ground (arith, u.seen i);
      }

  pub pushed-Inv : (is : List ℕ) → Distinct is → Inv str (λ i. In i is) (push_all new is)
  pushed-Inv is d =
      let v = push_all-Inv (λ i. ⊥) is new (new-Inv str) d (λ i h k. k) in
      record {
        written = v.written;
        sorted = v.sorted;
        labels = v.labels;
        seen = λ i. ground (arith, v.seen i);
      }

  next_all :
      (n : ℕ) (Seen : ℕ → Type 0) (w : SeqWriter A)
      → Inv str Seen w
      → ((i : ℕ) → Seen i ↔ (i < n))
      → w.idx_next ≡ n
  next_all n Seen w v all = elim (three_way w.idx_next n) [
    | inl less ↦ absurd (no_next ((v.seen w.idx_next).0 ((all w.idx_next).1 less)))
    | inr (inl more) ↦ let h = (all n).0 ((v.seen n).1 (inl more)) in absurd (omega arith)
    | inr (inr e) ↦ e
  ]
    where
      three_way : (a b : ℕ) → (a < b) ⊎ ((b < a) ⊎ (a ≡ b))
      three_way a b = ground arith

      no_next : ¬ ((w.idx_next < w.idx_next) ⊎ Holds w.idx_next w.buf)
      no_next (inl h) = omega arith
      no_next (inr h) = omega (arith, Above-Holds (suc w.idx_next) w.idx_next w.buf v.sorted h)

  buffer_empty :
      (n : ℕ) (xs : List (SeqStr A)) → Above (suc n) xs → ((i : ℕ) → Holds i xs → i < n) → xs ≡ []
  buffer_empty n [] a h = refl
  buffer_empty n (x ∷ xs) a h = absurd (omega (arith, h x.idx (inl refl)))

  -- When the indexes below `n` have each been pushed once, in any order, the file has exactly their
  -- strings, in the order of the indexes, and nothing waits in the buffer.
  pub push_all_complete :
      (n : ℕ) (is : List ℕ)
      → Distinct is
      → ((i : ℕ) → In i is ↔ (i < n))
      → ((push_all new is).out ≡ strs_from str 0 n) × ((push_all new is).buf ≡ [])
  push_all_complete n is d all =
      let w = push_all new is in
      let v = pushed-Inv is d in
      let e = next_all n (λ i. In i is) w v all in
      (
        v.written ∙ ap (strs_from str 0) e,
        buffer_empty w.idx_next w.buf v.sorted (λ i h. rw e ((all i).0 ((v.seen i).1 (inr h)))),
      )
