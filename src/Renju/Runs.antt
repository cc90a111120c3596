-- ===== src/Renju/Runs.antt =====
-- What the counting loops of isFive and isOverline find.
use c_gomoku_cli.Prelude.{
  ℕ, zero, suc, ◌+◌, ◌-◌, ◌<◌, ◌≤◌, ◌≡◌, ◌≢◌, ◌⊎◌, ◌↔◌, refl, sym, ap, ◌∙◌, subst, inl, inr, true,
  false, Bool, Bool-cases, List, [], ◌∷◌, arith,
}
use c_gomoku_cli.Coord.{Color, empty}
use c_gomoku_cli.Position.{color_eq}
use c_gomoku_cli.Renju.{Board, back, ahead, run, line_count, is_five_dir, any_dir}
use c_gomoku_cli.Renju.Walk.{color_eq→≡, ≡→color_eq}

-- The cells of the indexes from `i` up to, and without, `j` hold `piece`.
abbrev pub Stones : Board → Color → (ℕ → ℕ) → ℕ → ℕ → Type 0
Stones b piece at i j = (k : ℕ) → i ≤ k → k < j → b (at k) ≡ piece

-- How a loop from `i` ends: after `k` stones, at its bound or at another cell.
record Ran (b : Board) (piece : Color) (at : ℕ → ℕ) (n i count : ℕ) (out : ℕ × ℕ) : Type 0 where
  pub k : ℕ
  pub k_le : k ≤ n
  pub index : out.0 ≡ i + k
  pub counted : out.1 ≡ count + k
  pub stones : Stones b piece at i (i + k)
  pub stop : (k ≡ n) ⊎ (b (at (i + k)) ≢ piece)

module _ (b : Board) (piece : Color) (at : ℕ → ℕ) where
  first_or_later : (i k : ℕ) → i ≤ k → (k ≡ i) ⊎ (i + 1 ≤ k)
  first_or_later i k h = omega arith

  run-Ran : (n i count : ℕ) → Ran b piece at n i count (run b piece at n i count)
  unfolding run
  run-Ran zero i count = record {
    k = 0;
    k_le = omega arith;
    index = omega arith;
    counted = omega arith;
    stones = λ k l u. absurd (omega arith);
    stop = inl refl;
  }
  run-Ran (suc n) i count = elim (Bool-cases (color_eq (b (at i)) piece)) [
    | inl e ↦
        let r = run-Ran n (i + 1) (count + 1) in
        rw (e, run)
          (record {
            k = suc r.k;
            k_le = omega (arith, r.k_le);
            index = omega (arith, r.index);
            counted = omega (arith, r.counted);
            stones = λ k l u. elim (first_or_later i k l) [
              | inl same ↦ rw same (color_eq→≡ _ _ e)
              | inr later ↦ r.stones k later (omega arith)
            ];
            stop = elim r.stop [
              | inl all ↦ inl (omega (arith, all))
              | inr other ↦ inr (later_stop (i + 1 + r.k) (i + suc r.k) (omega arith) other)
            ];
          })
    | inr e ↦
        rw (e, run)
          (record {
            k = 0;
            k_le = omega arith;
            index = omega arith;
            counted = omega arith;
            stones = λ k l u. absurd (omega arith);
            stop = inr (λ same. other_stop i (i + 0) (omega arith) e same);
          })
  ]
    where
      later_stop : (x y : ℕ) → x ≡ y → b (at x) ≢ piece → b (at y) ≢ piece
      later_stop x y e h = subst (λ z. b (at z) ≢ piece) e h

      other_stop : (x y : ℕ) → x ≡ y → color_eq (b (at x)) piece ≡ false → b (at y) ≢ piece
      other_stop x y e f same =
          cc (sym f ∙ ≡→color_eq (b (at x)) piece (ap (λ z. b (at z)) e ∙ same))

-- The stones next to `q` on both sides along a direction, up to five in all.
record Line (b : Board) (q : ℕ) (piece : Color) (dir count : ℕ) : Type 0 where
  pub l : ℕ
  pub r : ℕ
  pub total : count ≡ 1 + l + r
  pub at_most : l + r ≤ 5
  pub stones_back : Stones b piece (back q dir) 1 (1 + l)
  pub stones_ahead : Stones b piece (ahead q dir) 1 (1 + r)
  pub stop_back : (l ≡ 5) ⊎ (b (back q dir (1 + l)) ≢ piece)
  pub stop_ahead : (l + r ≡ 5) ⊎ (b (ahead q dir (1 + r)) ≢ piece)

-- Exactly four stones of `piece` next to a cell, with `behind` and `before` its neighbours on the two
-- sides: on both sides together, and no fifth next to them.
abbrev pub Four : Board → Color → (ℕ → ℕ) → (ℕ → ℕ) → Type 0
Four b piece behind before =
    (l : ℕ) × (r : ℕ) × (l + r ≡ 4)
    × Stones b piece behind 1 (1 + l)
    × Stones b piece before 1 (1 + r)
    × (b (behind (1 + l)) ≢ piece)
    × (b (before (1 + r)) ≢ piece)

-- Five stones of `piece` or more next to it.
abbrev pub FiveMore : Board → Color → (ℕ → ℕ) → (ℕ → ℕ) → Type 0
FiveMore b piece behind before =
    (l : ℕ) × (r : ℕ) × (l + r ≡ 5)
    × Stones b piece behind 1 (1 + l)
    × Stones b piece before 1 (1 + r)

module _ (b : Board) (q : ℕ) (piece : Color) (dir : ℕ) where
  line_count-Line : Line b q piece dir (line_count b q piece dir)
  unfolding line_count
  line_count-Line =
      let out = run b piece (back q dir) 5 1 1 in
      let before = run-Ran b piece (back q dir) 5 1 1 in
      let after = run-Ran b piece (ahead q dir) (6 - out.0) 1 out.1 in
      record {
        l = before.k;
        r = after.k;
        total = omega (arith, before.counted, after.counted);
        at_most = omega (arith, before.k_le, before.index, after.k_le);
        stones_back = before.stones;
        stones_ahead = after.stones;
        stop_back = before.stop;
        stop_ahead = elim after.stop [
          | inl e ↦ inl (omega (arith, e, before.index, before.k_le))
          | inr h ↦ inr h
        ];
      }

  -- The same along the direction.
  abbrev pub FourAlong : Type 0
  FourAlong = Four b piece (back q dir) (ahead q dir)

  abbrev pub FiveAlong : Type 0
  FiveAlong = FiveMore b piece (back q dir) (ahead q dir)

  -- A run that has no more than `k` stones is no longer than `k`.
  bounded : (at : ℕ → ℕ) (k n : ℕ) → b (at (1 + k)) ≢ piece → Stones b piece at 1 (1 + n) → n ≤ k
  bounded at k n h s = elim (dec_le n k) [
    | inl le ↦ le
    | inr gt ↦ absurd (h (s (1 + k) (omega arith) (omega arith)))
  ]
    where
      dec_le : (n k : ℕ) → (n ≤ k) ⊎ (k < n)
      dec_le n k = omega arith

  four-Four : line_count b q piece dir ≡ 5 → FourAlong
  four-Four e =
      let v = line_count-Line in
      (
        v.l,
        v.r,
        omega (arith, v.total),
        v.stones_back,
        v.stones_ahead,
        elim v.stop_back [ inl all ↦ absurd (omega (arith, v.total, all)) | inr h ↦ h ],
        elim v.stop_ahead [ inl all ↦ absurd (omega (arith, v.total, all)) | inr h ↦ h ],
      )

  Four-four : FourAlong → line_count b q piece dir ≡ 5
  Four-four (l, r, sum, sb, sa, hb, ha) =
      let v = line_count-Line in
      let l_le = bounded (back q dir) l v.l hb v.stones_back in
      let r_le = bounded (ahead q dir) r v.r ha v.stones_ahead in
      elim v.stop_back [
        | inl all ↦ absurd (omega (arith, all))
        | inr nb ↦ elim v.stop_ahead [
          | inl all ↦ absurd (omega (arith, all))
          | inr na ↦
              omega (
                arith,
                v.total,
                bounded (back q dir) v.l l nb sb,
                bounded (ahead q dir) v.r r na sa,
              )
        ]
      ]

  pub over-FiveMore : 5 < line_count b q piece dir → FiveAlong
  over-FiveMore h =
      let v = line_count-Line in
      (v.l, v.r, omega (arith, v.total, v.at_most), v.stones_back, v.stones_ahead)

  pub FiveMore-over : FiveAlong → 5 < line_count b q piece dir
  FiveMore-over (l, r, sum, sb, sa) =
      let v = line_count-Line in
      elim v.stop_ahead [
        | inl all ↦ omega (arith, v.total, all)
        | inr na ↦ elim v.stop_back [
          | inl all ↦ omega (arith, v.total, all)
          | inr nb ↦
              omega (
                arith,
                v.total,
                bounded (back q dir) v.l l nb sb,
                bounded (ahead q dir) v.r r na sa,
              )
        ]
      ]

  -- isFive answers true along a direction exactly if the cell is empty and exactly four stones of
  -- the colour are next to it along the direction, on both sides together.
  pub is_five_dir_iff : (is_five_dir b q piece dir ≡ true) ↔ ((b q ≡ empty) × FourAlong)
  unfolding is_five_dir
  is_five_dir_iff = (
    λ h. (ground arith, four-Four (ground arith)),
    λ (free, four). ground (arith, free, Four-four four),
  )

-- Along one of the directions the property holds.
abbrev pub AnyDir : (ℕ → Type 0) → List ℕ → Type 0
AnyDir P [] = ⊥
AnyDir P (dir ∷ dirs) = P dir ⊎ AnyDir P dirs

pub any_dir-AnyDir :
    (P : ℕ → Type 0) (test : ℕ → Bool)
    → ((dir : ℕ) → (test dir ≡ true) ↔ P dir)
    → (dirs : List ℕ) → (any_dir dirs test ≡ true) ↔ AnyDir P dirs
any_dir-AnyDir P test h [] = (λ e. cc, λ a. absurd a)
any_dir-AnyDir P test h (dir ∷ dirs) = (
  λ e. elim (Bool-cases (test dir)) [
    | inl now ↦ inl ((h dir).0 now)
    | inr n ↦ inr ((any_dir-AnyDir P test h dirs).0 (ground arith))
  ],
  λ a. elim a [
    | inl now ↦ ground (arith, (h dir).1 now)
    | inr later ↦ ground (arith, (any_dir-AnyDir P test h dirs).1 later)
  ],
)
