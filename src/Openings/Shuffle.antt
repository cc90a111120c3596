-- ===== src/Openings/Shuffle.antt =====
-- Each round of a tournament plays every opening.
use c_gomoku_cli.Prelude.{
  ℕ, zero, suc, ◌+◌, ◌-◌, ◌*◌, ◌/◌, ◌%◌, ◌<◌, ◌≡◌, inl, inr, refl, sym, ap, ◌∙◌, Bool-cases, drop,
  arith, ◌==◌, ==→≡,
}
use native.Mathlib.Nat.{mod-lt, mul-add-div_right, div-eq_of_lt, div-add-mod'}
use c_gomoku_cli.Openings.{Openings, read_line, prng, swap, shuffle, randomize, next}

-- The entries below `n` of `b` are those of `a`.
abbrev pub SameEntries : ℕ → (ℕ → ℕ) → (ℕ → ℕ) → Type 0
SameEntries n a b =
    ((k : ℕ) → k < n → (m : ℕ) × (m < n) × (b m ≡ a k))
    × ((m : ℕ) → m < n → (k : ℕ) × (k < n) × (b m ≡ a k))

SameEntries-trans :
    (n : ℕ) (a b c : ℕ → ℕ) → SameEntries n a b → SameEntries n b c → SameEntries n a c
SameEntries-trans n a b c (f, g) (f', g') = (
  λ k hk. let (m, hm, e) = f k hk in let (m', hm', e') = f' m hm in (m', hm', e' ∙ e),
  λ m hm. let (k, hk, e) = g' m hm in let (k', hk', e') = g k hk in (k', hk', e ∙ e'),
)

-- Where an entry goes, and comes from, in a swap.
moved :
    (i j : ℕ) (a : ℕ → ℕ) (n k : ℕ)
    → i < n
    → j < n
    → k < n
    → (m : ℕ) × (m < n) × (swap i j a m ≡ a k)
moved i j a n k hi hj hk = elim (Bool-cases (k == i)) [
  | inl e ↦ (j, hj, ground (arith, ap a (==→≡ k i e)))
  | inr ne ↦ elim (Bool-cases (k == j)) [
    | inl e ↦ (i, hi, ground (arith, ap a (==→≡ k j e), ne))
    | inr ne' ↦ (k, hk, ground arith)
  ]
]

came :
    (i j : ℕ) (a : ℕ → ℕ) (n m : ℕ)
    → i < n
    → j < n
    → m < n
    → (k : ℕ) × (k < n) × (swap i j a m ≡ a k)
came i j a n m hi hj hm = elim (Bool-cases (m == j)) [
  | inl e ↦ (i, hi, ground arith)
  | inr ne ↦ elim (Bool-cases (m == i)) [
    | inl e ↦ (j, hj, ground arith)
    | inr ne' ↦ (m, hm, ground arith)
  ]
]

shuffle-SameEntries : (i seed n : ℕ) (a : ℕ → ℕ) → i < n → SameEntries n a (shuffle i seed a)
unfolding shuffle
shuffle-SameEntries zero seed n a h = (λ k hk. (k, hk, refl), λ m hm. (m, hm, refl))
shuffle-SameEntries (suc i) seed n a h =
    let j = (prng seed).1 % (suc i + 1) in
    let b = swap (suc i) j a in
    SameEntries-trans n a b _
      (
        λ k hk. moved (suc i) j a n k h (omega arith) hk,
        λ m hm. came (suc i) j a n m h (omega arith) hm,
      )
      (shuffle-SameEntries i (prng seed).0 n b (omega arith))

quotient : (r n m : ℕ) → m < n → (r * n + m) / n ≡ r
quotient r n m hm =
    mul-add-div_right (omega arith) r m ∙ ap (λ k. r + k) (div-eq_of_lt hm) ∙ omega arith

remainder : (r n m : ℕ) → m < n → (r * n + m) % n ≡ m
remainder r n m hm =
    let d = div-add-mod' (r * n + m) n in
    cancel (r * n) ((r * n + m) % n) m
      (ap (λ k. k * n + (r * n + m) % n) (sym (quotient r n m hm)) ∙ d)
  where
    cancel : (a b c : ℕ) → a + b ≡ a + c → b ≡ c
    cancel a b c e = omega arith

-- In a file with lines, in a random order from any seed: in each round every line of the file is the
-- opening of one of its games, and no other is an opening.
pub next-randomize :
    (seed : ℕ) (o : Openings)
    → 0 < o.size
    → ((round k : ℕ)
        → k < o.size
        → (idx : ℕ) × (next (randomize seed o) idx
            ≡ ((read_line (drop (o.index k) o.file)).out, round)))
      × ((idx : ℕ)
          → (k : ℕ) × (k < o.size)
            × (next (randomize seed o) idx
                ≡ ((read_line (drop (o.index k) o.file)).out, idx / o.size)))
unfolding next randomize
next-randomize seed o h =
    let (there, back) = shuffle-SameEntries (o.size - 1) seed o.size o.index (omega arith) in
    (
      λ round k hk.
          let (m, hm, e) = there k hk in
          (
            round * o.size + m,
            λ i. (
              (read_line (
                  drop
                    ((ap (shuffle (o.size - 1) seed o.index) (remainder round o.size m hm) ∙ e) i)
                    o.file)).out,
              quotient round o.size m hm i,
            ),
          ),
      λ idx.
          let (k, hk, e) = back (idx % o.size) (mod-lt idx h) in
          (k, hk, λ i. ((read_line (drop (e i) o.file)).out, idx / o.size)),
    )
