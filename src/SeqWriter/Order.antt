-- ===== src/SeqWriter/Order.antt =====
-- Whatever the order of the pushes, the file gets the strings in the order of their indexes.
use c_gomoku_cli.Prelude.{
  ℕ, zero, suc, ◌+◌, ◌<◌, ◌≤◌, ◌≡◌, ◌⊎◌, ◌↔◌, inl, inr, refl, sym, ap, ◌∙◌, List, [], ◌∷◌, ◌++◌,
  map, take, drop, All, ltb, ◌==◌, if◌then◌else◌, Bool-cases, ==→≡, arith, append-nil, subst,
  lt→ltb,
}
use c_gomoku_cli.SeqWriter.{SeqStr, SeqWriter, insert_sorted, chunk, write_to_i, push, new}
use c_gomoku_cli.SeqWriter.Buffer.{
  Above, Holds, Above-mono, insert_sorted-Above, insert_sorted-Holds, insert_sorted-All,
}

module _ {ℓ} {A : Type ℓ} (str : ℕ → A) where
  -- The strings of the indexes n, n + 1, …, n + k - 1.
  abbrev pub strs_from : ℕ → ℕ → List A
  strs_from n zero = []
  strs_from n (suc k) = str n ∷ strs_from (n + 1) k

  strs_from-append : (n k m : ℕ) → strs_from n k ++ strs_from (n + k) m ≡ strs_from n (k + m)
  strs_from-append n zero m =
      ap (λ j. strs_from j m) (let e : n + 0 ≡ n = omega arith in e)
      ∙ ap (strs_from n) (let e : m ≡ 0 + m = omega arith in e)
  strs_from-append n (suc k) m =
      ap (λ j. str n ∷ (strs_from (n + 1) k ++ strs_from j m))
        (let e : n + suc k ≡ n + 1 + k = omega arith in e)
      ∙ ap (λ xs. str n ∷ xs) (strs_from-append (n + 1) k m)
      ∙ ap (strs_from n) (let e : suc (k + m) ≡ suc k + m = omega arith in e)

  abbrev pub Labelled : SeqStr A → Type ℓ
  Labelled s = s.str ≡ str s.idx

  -- The chunk of length `k` at the head of `xs` has the indexes from `n` on, and the rest does
  -- not go on with the next index.
  record Flushed (n k : ℕ) (xs : List (SeqStr A)) : Type ℓ where
    written : map (λ s. s.str) (take k xs) ≡ strs_from n k
    sorted : Above (suc (n + k)) (drop k xs)
    labels : All Labelled (drop k xs)
    parts : (i : ℕ) → Holds i xs ↔ (((n ≤ i) × (i < n + k)) ⊎ Holds i (drop k xs))

  Flushed-none :
      (n : ℕ) (xs : List (SeqStr A)) → Above (suc n) xs → All Labelled xs → Flushed n 0 xs
  Flushed-none n xs a l = record {
    written = refl;
    sorted = Above-mono (suc (n + 0)) (suc n) xs (omega arith) a;
    labels = l;
    parts = λ i. (λ h. inr h, elim [ inl h ↦ absurd (omega arith) | inr h ↦ h ]);
  }

  Flushed-more :
      (n k : ℕ) (x : SeqStr A) (xs : List (SeqStr A))
      → x.idx ≡ n
      → Labelled x
      → Flushed (n + 1) k xs
      → Flushed n (suc k) (x ∷ xs)
  Flushed-more n k x xs e l r = record {
    written =
        ap {A = A} (λ s. s ∷ map (λ y. y.str) (take k xs)) (l ∙ ap str e)
        ∙ ap (λ ys. str n ∷ ys) r.written;
    sorted = Above-mono (suc (n + suc k)) (suc (n + 1 + k)) (drop k xs) (omega arith) r.sorted;
    labels = r.labels;
    parts = λ i. ground (arith, r.parts i);
  }

  chunk-Flushed :
      (n : ℕ) (xs : List (SeqStr A)) → Above n xs → All Labelled xs → Flushed n (chunk n xs) xs
  unfolding chunk
  chunk-Flushed n [] a l = Flushed-none n [] tt tt
  chunk-Flushed n (x ∷ xs) a l =
      let rest = λ (b : Above (n + 1) xs). chunk-Flushed (n + 1) xs b l.1 in
      elim (Bool-cases (x.idx == n)) [
        | inl e ↦
            let same = ==→≡ x.idx n e in
            rw e (
              Flushed-more n (chunk (n + 1) xs) x xs same l.0
                (rest (Above-mono (n + 1) (suc x.idx) xs (omega arith) a.1)))
        | inr e ↦ rw e (Flushed-none n (x ∷ xs) (ground arith, a.1) l)
      ]

  -- The state after the indexes of `Seen` were pushed: the file has the strings of 0 up to the
  -- next index in order, and the buffer the others, sorted, without that next index.
  pub record Inv (Seen : ℕ → Type 0) (w : SeqWriter A) : Type ℓ where
    pub written : w.out ≡ strs_from 0 w.idx_next
    pub sorted : Above (suc w.idx_next) w.buf
    pub labels : All Labelled w.buf
    pub seen : (i : ℕ) → Seen i ↔ ((i < w.idx_next) ⊎ Holds i w.buf)

  pub new-Inv : Inv (λ i. ⊥) new
  new-Inv = record {
    written = refl;
    sorted = tt;
    labels = tt;
    seen = λ i. (λ h. absurd h, elim [ inl h ↦ absurd (omega arith) | inr h ↦ h ]);
  }

  -- What write_to_i does to a buffer whose head is a chunk.
  flush-Inv :
      (Seen : ℕ → Type 0) (k : ℕ) (w : SeqWriter A)
      → w.out ≡ strs_from 0 w.idx_next
      → ((i : ℕ) → Seen i ↔ ((i < w.idx_next) ⊎ Holds i w.buf))
      → Flushed w.idx_next k w.buf
      → Inv Seen (write_to_i k w)
  unfolding write_to_i
  flush-Inv Seen k w out seen f = record {
    written =
        ap (λ xs. xs ++ map (λ s. s.str) (take k w.buf)) out
        ∙ ap (λ xs. strs_from 0 w.idx_next ++ xs) f.written
        ∙ ap (λ j. strs_from 0 w.idx_next ++ strs_from j k)
            (let e : w.idx_next ≡ 0 + w.idx_next = omega arith in e)
        ∙ strs_from-append 0 w.idx_next k;
    sorted = f.sorted;
    labels = f.labels;
    seen = λ i. ground (arith, seen i, f.parts i);
  }

  flush_if : (k : ℕ) (w : SeqWriter A) → (if ltb 0 k then write_to_i k w else w) ≡ write_to_i k w
  unfolding write_to_i
  flush_if zero w = λ i. record w { out = sym (append-nil w.out) i; idx_next = same i }
    where
      same : w.idx_next ≡ w.idx_next + 0
      same = omega arith
  flush_if (suc k) w = rw (lt→ltb 0 (suc k) (omega arith))

  -- A push with nothing to flush is a flush of no items.
  push-flush :
      (idx : ℕ) (w : SeqWriter A)
      → push idx (str idx) w
        ≡ let xs = insert_sorted (record { idx = idx; str = str idx }) w.buf in
          write_to_i (chunk w.idx_next xs) (record w { buf = xs })
  unfolding push
  push-flush idx w = flush_if _ _

  -- Pushing a new index keeps the invariant.
  pub push-Inv :
      (Seen : ℕ → Type 0) (idx : ℕ) (w : SeqWriter A)
      → Inv Seen w
      → ¬ Seen idx
      → Inv (λ i. (idx ≡ i) ⊎ Seen i) (push idx (str idx) w)
  push-Inv Seen idx w v fresh = subst (Inv Now) (sym (push-flush idx w)) (
      flush-Inv Now (chunk w.idx_next xs) (record w { buf = xs }) v.written now
        (chunk-Flushed w.idx_next xs
          (insert_sorted-Above w.idx_next item w.buf
            (Above-mono w.idx_next (suc w.idx_next) w.buf (omega arith) v.sorted) not_written
            (λ h. fresh ((v.seen idx).1 (inr h))))
          (insert_sorted-All Labelled item w.buf refl v.labels)))
    where
      Now : ℕ → Type 0
      Now i = (idx ≡ i) ⊎ Seen i

      item : SeqStr A
      item = record { idx = idx; str = str idx }

      xs : List (SeqStr A)
      xs = insert_sorted item w.buf

      not_written : w.idx_next ≤ idx
      not_written = ground (arith, λ (h : idx < w.idx_next). fresh ((v.seen idx).1 (inl h)))

      now : (i : ℕ) → Now i ↔ ((i < w.idx_next) ⊎ Holds i xs)
      now i = ground (arith, v.seen i, insert_sorted-Holds i item w.buf)
