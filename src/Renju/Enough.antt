-- ===== src/Renju/Enough.antt =====
-- The recursion through isDoubleThree ends: each level has a stone more on the board.
use c_gomoku_cli.Prelude.{
  ℕ, zero, suc, ◌+◌, ◌-◌, ◌<◌, ◌≤◌, ◌≡◌, ◌≢◌, refl, sym, ap, ◌∙◌, subst, inl, inr, true, false,
  Bool, Bool-cases, List, [], ◌∷◌, some, update, All, if◌then◌else◌, ◌==◌, leb, arith,
}
use c_gomoku_cli.Coord.{Color, empty}
use c_gomoku_cli.Position.{color_eq}
use c_gomoku_cli.Renju.{
  Board, Answer, back, ahead, directions, probe, can_place, is_open, is_open_four, is_double_four,
  is_true, three_test, three_last, three_ahead, take_off, three_at, is_open_three, count_threes,
  is_double_three,
}
use c_gomoku_cli.Renju.Walk.{probe_inv}
use c_gomoku_cli.Renju.Keeps.{put_back, can_place-empty, is_open_four-board, is_double_four-board}

-- The empty cells below `n`.
pub empties : ℕ → Board → ℕ
empties zero b = 0
empties (suc n) b = (if color_eq (b n) empty then 1 else 0) + empties n b

pub empties-le : (n : ℕ) (b : Board) → empties n b ≤ n
unfolding empties
empties-le zero b = omega arith
empties-le (suc n) b = ground (arith, empties-le n b)

empties-above :
    (n : ℕ) (b : Board) (q : ℕ) (piece : Color) → n ≤ q → empties n (update b q piece) ≡ empties n b
unfolding empties
empties-above zero b q piece h = refl
empties-above (suc n) b q piece h = ground (arith, empties-above n b q piece (omega arith))

empties-place :
    (n : ℕ) (b : Board) (q : ℕ) (piece : Color)
    → q < n
    → b q ≡ empty
    → piece ≢ empty
    → empties n b ≡ empties n (update b q piece) + 1
unfolding empties
empties-place zero b q piece h e ne = absurd (omega arith)
empties-place (suc n) b q piece h e ne = elim (Bool-cases (n == q)) [
  | inl same ↦ ground (arith, same, e, empties-above n b q piece)
  | inr other ↦ ground (arith, other, empties-place n b q piece (ground arith) e ne)
]

-- The empty cells are away from the ends of the array.
abbrev pub Inside : Board → Type 0
Inside b = (q : ℕ) → q < 1024 → b q ≡ empty → (165 ≤ q) × (q ≤ 858)

Inside-update :
    (b : Board) (q : ℕ) (piece : Color) → piece ≢ empty → Inside b → Inside (update b q piece)
Inside-update b q piece ne h r hr e = ground (arith, h r hr)

-- The answer is there, and the board is the old one.
abbrev pub Gives : Board → Answer → Type 0
Gives b o = (v : Bool) × (o ≡ some (b, v))

placeable : (b : Board) (q : ℕ) (piece : Color) → can_place b q piece ≡ true → piece ≢ empty
unfolding can_place
placeable b q piece h e = ground arith

back-lt : (q dir k : ℕ) → q ≤ 858 → back q dir k < 1024
back-lt q dir k h = omega arith

ahead-lt : (q dir k : ℕ) → q ≤ 858 → dir ≤ 33 → k < 6 → ahead q dir k < 1024
ahead-lt q dir zero h d hk = omega arith
ahead-lt q dir (suc zero) h d hk = omega arith
ahead-lt q dir (suc (suc zero)) h d hk = omega arith
ahead-lt q dir (suc (suc (suc zero))) h d hk = omega arith
ahead-lt q dir (suc (suc (suc (suc zero)))) h d hk = omega arith
ahead-lt q dir (suc (suc (suc (suc (suc zero))))) h d hk = omega arith
ahead-lt q dir (suc (suc (suc (suc (suc (suc k)))))) h d hk = absurd (omega arith)

module _ (double : Board → ℕ → Color → Answer) (piece : Color) where
  -- What is asked of isDoubleThree at a board.
  abbrev GivesAt : Board → Type 0
  GivesAt b = (posi : ℕ) → posi < 1024 → b posi ≡ empty → Gives b (double b posi piece)

  three_test-Gives :
      (b : Board) (dir posi : ℕ) (three : Bool)
      → Gives b (double b posi piece)
      → Gives b (three_test double piece dir posi (b, three))
  unfolding three_test
  three_test-Gives b dir posi three g =
      let b1 = (is_open_four b posi piece dir).0 in
      let e1 : b1 ≡ b = is_open_four-board b posi piece dir in
      let b2 = (is_double_four b1 posi piece).0 in
      let e2 : b2 ≡ b = is_double_four-board b1 posi piece ∙ e1 in
      let (v, answer) : Gives b (double b2 posi piece) =
        subst (λ c. Gives b (double c posi piece)) (sym e2) g in
      elim (Bool-cases (is_true (is_open_four b posi piece dir).1)) [
        | inr e ↦ rw (e, three_test) (three, ap (λ c. some (c, three)) e1)
        | inl e ↦ elim (Bool-cases (is_double_four b1 posi piece).1) [
          | inl f ↦ rw (e, f, three_test) (three, ap (λ c. some (c, three)) e2)
          | inr f ↦ rw (e, f, answer, three_test) ((if v then three else true), refl)
        ]
      ]

  three_last-Gives :
      (b : Board) (dir posi : ℕ) (s : Answer)
      → Gives b (double b posi piece)
      → Gives b s
      → Gives b (three_last double piece dir posi s)
  three_last-Gives b dir posi s g (v, e) = rw e (three_test-Gives b dir posi v g)

  module _ (b : Board) (q dir : ℕ) (hq : q ≤ 858) (hd : dir ≤ 33) (g : GivesAt b) where
    three_ahead-Gives :
        (i : ℕ) (s : Answer) → Gives b s → Gives b (three_ahead double b q piece dir i s)
    unfolding three_ahead probe
    three_ahead-Gives i s (true, e) = rw e (true, refl)
    three_ahead-Gives i s (false, e) = rw e (
        probe_inv (Gives b) b piece (ahead q dir) (λ s. s) (three_last double piece dir) (λ s h. h)
          (5 - i) 1 (some (b, false))
          (λ k s l u free h.
            three_last-Gives b dir (ahead q dir k) s
              (g (ahead q dir k) (ahead-lt q dir k hq hd (omega arith)) free) h)
          (false, refl))

    three_at-Gives : (c : Board) → update b q empty ≡ c → Gives c (three_at double b q piece dir)
    unfolding three_at
    three_at-Gives c e =
        let before =
          probe b piece (back q dir) (λ s. s) (three_last double piece dir) 4 1 (some (b, false)) in
        let (v, answer) = three_ahead-Gives before.0 before.1 (
          probe_inv (Gives b) b piece (back q dir) (λ s. s) (three_last double piece dir) (λ s h. h)
            4 1 (some (b, false))
            (λ k s l u free h.
              three_last-Gives b dir (back q dir k) s (g (back q dir k) (back-lt q dir k hq) free)
                h)
            (false, refl)) in
        (v, ap (take_off double q) answer ∙ ap (λ d. some (d, v)) e)

  -- With isDoubleThree answering on the board with the stone, isOpenThree answers.
  module _ (b : Board) (q : ℕ) (inside : Inside b) (hq : q < 1024)
      (g : b q ≡ empty → piece ≢ empty → GivesAt (update b q piece)) where
    is_open_three-Gives : (dir : ℕ) → dir ≤ 33 → Gives b (is_open_three double b q piece dir)
    unfolding is_open_three
    is_open_three-Gives dir hd = elim (Bool-cases (can_place b q piece)) [
      | inr e ↦ rw (e, is_open_three) (false, refl)
      | inl e ↦
          let free = can_place-empty b q piece e in
          rw (e, is_open_three)
            (three_at-Gives (update b q piece) q dir (inside q hq free).1 hd
              (g free (placeable b q piece e)) b (put_back b q piece free))
    ]

    pub count_threes-Gives :
        (dirs : List ℕ) (n : ℕ)
        → All (λ dir. dir ≤ 33) dirs
        → Gives b (count_threes double q piece dirs n b)
    unfolding count_threes
    count_threes-Gives [] n a = (false, refl)
    count_threes-Gives (dir ∷ dirs) n (d, a) =
        let (v, e) = is_open_three-Gives dir d in
        elim (Bool-cases (leb 2 (n + (if v then 1 else 0)))) [
          | inl f ↦ rw (e, f, count_threes) (true, refl)
          | inr f ↦ rw (e, f, count_threes) (count_threes-Gives dirs (n + (if v then 1 else 0)) a)
        ]

-- As much fuel as there are empty cells, and one more, is enough for isDoubleThree, which leaves
-- the board as it was.
pub is_double_three-Gives :
    (fuel : ℕ) (b : Board) (q : ℕ) (piece : Color)
    → empties 1024 b < fuel
    → Inside b
    → q < 1024
    → Gives b (is_double_three fuel b q piece)
unfolding is_double_three
is_double_three-Gives zero b q piece h inside hq = absurd (omega arith)
is_double_three-Gives (suc fuel) b q piece h inside hq = elim (Bool-cases (is_open b q piece)) [
  | inr e ↦ rw (e, is_double_three) (false, refl)
  | inl e ↦
      rw (e, is_double_three)
        (count_threes-Gives (is_double_three fuel) piece b q inside hq
          (λ free ne posi hp fp.
            is_double_three-Gives fuel (update b q piece) posi piece
              (omega (arith, empties-place 1024 b q piece hq free ne))
              (Inside-update b q piece ne inside) hp)
          directions 0 (omega arith))
]
