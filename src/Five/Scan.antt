-- ===== src/Five/Scan.antt =====
-- One line of cells: the scan counts exactly the maximal runs whose length counts as five.
use c_gomoku_cli.Prelude.{
  for_below, ℕ, zero, suc, ◌+◌, ◌-◌, ◌<◌, ◌≤◌, ◌≡◌, ◌≢◌, ◌⊎◌, ◌↔◌, inl, inr, sym, Bool, true, false,
  Bool-cases, arith, ◌==◌, ==→≡, subst, if◌then◌else◌,
}
use c_gomoku_cli.Coord.{Color}
use c_gomoku_cli.Position.{color_eq}
use c_gomoku_cli.Five.{Search, is_five_len, check_five_helper, scan_cell, start_line}

color_eq→≡ : (a b : Color) → color_eq a b ≡ true → a ≡ b
color_eq→≡ a b h = ground arith

color_eq→≢ : (a b : Color) → color_eq a b ≡ false → a ≢ b
color_eq→≢ a b h = ground arith

compare_cases : (a b : ℕ) → (a < b) ⊎ ((b < a) ⊎ (a ≡ b))
compare_cases a b = ground arith

module _ (board : ℕ → Color) (side : Color) (allow : Bool) (f : ℕ → ℕ) where
  abbrev pub Stone : ℕ → Type 0
  Stone j = board (f j) ≡ side

  -- A run of stones from `a` that no stone precedes.
  pub record Run (a len : ℕ) : Type 0 where
    pub good : is_five_len allow len ≡ true
    pub stones : (j : ℕ) → j < len → Stone (a + j)
    pub before : (b : ℕ) → suc b ≡ a → ¬ Stone b

  -- A run that a cell of the first `k` ends.
  abbrev pub Closed : ℕ → Type 0
  Closed k = (a : ℕ) × (len : ℕ) × (a + len < k) × Run a len × (¬ Stone (a + len))

  -- A run that a cell or the end of the line ends.
  abbrev pub Maximal : ℕ → Type 0
  Maximal n =
      (a : ℕ) × (len : ℕ) × (a + len ≤ n) × Run a len × ((a + len ≡ n) ⊎ (¬ Stone (a + len)))

  -- After `k` cells the counter `cc` is the length of the run that ends there, and the count of
  -- fives has grown from `start` if a run that counts was closed.
  pub record Scanned (start k cc five : ℕ) : Type 0 where
    pub fits : cc ≤ k
    pub stones : (j : ℕ) → j < k → k ≤ j + cc → Stone j
    pub before : (b : ℕ) → suc b + cc ≡ k → ¬ Stone b
    pub mono : start ≤ five
    pub sound : start < five → Closed k
    pub complete : Closed k → start < five

  abbrev after_helper : ℕ → ℕ → ℕ
  after_helper cc five = if is_five_len allow cc then five + 1 else five

  helper_five :
      (s : Search)
      → (check_five_helper allow s).five_count ≡ after_helper s.continue_count s.five_count
  unfolding check_five_helper
  helper_five s = ground arith

  Closed-suc : (k : ℕ) → Closed k → Closed (suc k)
  Closed-suc k (a, len, h, r, e) = (a, len, omega arith, r, e)

  module _ (start k cc five : ℕ) (i : Scanned start k cc five) where
    open i use {fits, stones, before, mono, sound, complete}

    ending : is_five_len allow cc ≡ true → Run (k - cc) cc
    ending g = record {
      good = g;
      stones = λ j hj. stones (k - cc + j) (omega arith) (omega arith);
      before = λ b e. before b (omega arith);
    }

    -- The run that ends at `k` is as long as the counter says.
    ending_unique : (a len : ℕ) → Run a len → a + len ≡ k → len ≡ cc
    ending_unique a len r e = elim (compare_cases len cc) [
      | inl shorter ↦
          absurd (r.before (a - 1) (omega arith) (stones (a - 1) (omega arith) (omega arith)))
      | inr (inl longer) ↦ absurd (
          before (k - cc - 1) (omega arith)
            (subst Stone (omega arith) (r.stones (len - cc - 1) (omega arith))))
      | inr (inr same) ↦ same
    ]

    step-Stone : Stone k → Scanned start (suc k) (cc + 1) five
    step-Stone here = record {
      fits = omega arith;
      stones = λ j hj hk. elim (Bool-cases (j == k)) [
        | inl e ↦ subst Stone (sym (==→≡ j k e)) here
        | inr e ↦ stones j (ground arith) (omega arith)
      ];
      before = λ b e. before b (omega arith);
      mono = mono;
      sound = λ h. Closed-suc k (sound h);
      complete = λ (a, len, h, r, e). elim (Bool-cases (a + len == k)) [
        | inl last ↦ absurd (e (subst Stone (sym (==→≡ (a + len) k last)) here))
        | inr early ↦ complete (a, len, ground arith, r, e)
      ];
    }

    grows_good : is_five_len allow cc ≡ true → start < after_helper cc five
    grows_good g = rw g (omega arith)

    grows-Closed : Closed k → start < after_helper cc five
    grows-Closed c = ground (arith, complete c)

    end_sound : start < after_helper cc five → (is_five_len allow cc ≡ true) ⊎ Closed k
    end_sound h = elim (Bool-cases (is_five_len allow cc)) [
      | inl g ↦ inl g
      | inr g ↦ inr (sound (rw g at h))
    ]

    step_other : ¬ Stone k → Scanned start (suc k) 0 (after_helper cc five)
    step_other other = record {
      fits = omega arith;
      stones = λ j hj hk. absurd (omega arith);
      before = λ b e h. other (subst Stone (omega arith) h);
      mono = ground arith;
      sound = λ h. elim (end_sound h) [
        | inl g ↦ (k - cc, cc, omega arith, ending g, λ h'. other (subst Stone (omega arith) h'))
        | inr c ↦ Closed-suc k c
      ];
      complete = λ (a, len, h, r, e). elim (Bool-cases (a + len == k)) [
        | inl last ↦ grows_good (
            subst (λ n. is_five_len allow n ≡ true) (ending_unique a len r (==→≡ (a + len) k last))
              r.good)
        | inr early ↦ grows-Closed (a, len, ground arith, r, e)
      ];
    }

    -- The helper at the end of the line counts the run that reaches it.
    end_line : (start < after_helper cc five) ↔ Maximal k
    end_line = (
      λ h. elim (end_sound h) [
        | inl g ↦ (k - cc, cc, omega arith, ending g, inl (omega arith))
        | inr (a, len, lt, r, e) ↦ (a, len, omega arith, r, inr e)
      ],
      λ (a, len, h, r, e). elim (Bool-cases (a + len == k)) [
        | inl last ↦ grows_good (
            subst (λ n. is_five_len allow n ≡ true) (ending_unique a len r (==→≡ (a + len) k last))
              r.good)
        | inr early ↦ grows-Closed (a, len, ground arith, r, other_end a len e (ground arith))
      ],
    )
      where
        other_end :
            (a len : ℕ) → ((a + len ≡ k) ⊎ (¬ Stone (a + len))) → a + len ≢ k → ¬ Stone (a + len)
        other_end a len (inl e) ne = absurd (ne e)
        other_end a len (inr h) ne = h

  abbrev pub body : ℕ → Search → Search
  body j = scan_cell board side allow (f j)

  body-Scanned :
      (start k : ℕ) (s : Search)
      → Scanned start k s.continue_count s.five_count
      → Scanned start (suc k) (body k s).continue_count (body k s).five_count
  unfolding scan_cell
  body-Scanned start k s i = elim (Bool-cases (color_eq (board (f k)) side)) [
    | inl e ↦
        rw e (step-Stone start k s.continue_count s.five_count i (color_eq→≡ (board (f k)) side e))
    | inr e ↦
        rw (e, helper_five s)
          (step_other start k s.continue_count s.five_count i (color_eq→≢ (board (f k)) side e))
  ]

  scan-Scanned :
      (k : ℕ) (s : Search)
      → Scanned s.five_count k
          (for_below k body (start_line s)).continue_count
          (for_below k body (start_line s)).five_count
  unfolding for_below
  scan-Scanned zero s = record {
    fits = omega arith;
    stones = λ j hj hk. elim hj [ ];
    before = λ b e. absurd (omega arith);
    mono = omega arith;
    sound = λ h. absurd (omega arith);
    complete = λ (a, len, h, r, e). absurd (omega arith);
  }
  scan-Scanned (suc k) s = body-Scanned s.five_count k _ (scan-Scanned k s)

  -- What a scanned line does to the number of fives.
  abbrev pub Counts : ℕ → Search → Search → Type 0
  Counts n s r = (s.five_count ≤ r.five_count) × ((s.five_count < r.five_count) ↔ Maximal n)

  pub scan_line :
      (n : ℕ) (s : Search) → Counts n s (check_five_helper allow (for_below n body (start_line s)))
  scan_line n s =
      let i = scan-Scanned n s in
      let r = for_below n body (start_line s) in
      rw (helper_five r)
        (ground (arith, i.mono), end_line s.five_count n r.continue_count r.five_count i)
