-- ===== src/Five/Rows.antt =====
-- Rows of stones on the board, and the maximal runs of the lines.
use c_gomoku_cli.Prelude.{
  ℕ, zero, suc, ◌+◌, ◌-◌, ◌<◌, ◌≤◌, ◌≡◌, ◌≢◌, ◌⊎◌, inl, inr, refl, sym, ap, ◌∙◌, Bool, true, false,
  arith,
}
use c_gomoku_cli.Coord.{Color, wall}
use c_gomoku_cli.Coord.Cells.{cell}
use c_gomoku_cli.Position.{Position}
use c_gomoku_cli.Position.Validity.{IsCell, IsValid}
use c_gomoku_cli.Five.{is_five_len}
use c_gomoku_cli.Five.Scan.{Maximal}
use c_gomoku_cli.Five.Axis.{
  Axis, along, behind, along-along, behind-along, along-zero, IsLine, line-IsCell, line_end,
  line_start,
}

-- The length of a row that counts.
abbrev pub CountsAsFive : Bool → ℕ → Type 0
CountsAsFive true len = 5 ≤ len
CountsAsFive false len = len ≡ 5

is_five_len-counts :
    (allow : Bool) (len : ℕ) → is_five_len allow len ≡ true → CountsAsFive allow len
is_five_len-counts true len h = ground arith
is_five_len-counts false len h = ground arith

counts-is_five_len :
    (allow : Bool) (len : ℕ) → CountsAsFive allow len → is_five_len allow len ≡ true
counts-is_five_len true len h = ground arith
counts-is_five_len false len h = ground arith

-- `len` stones of `side` along `ax` from the cell `q` on, with none of them just before or just
-- after, where `len` counts as five.
pub record IsRow (p : Position) (side : Color) (allow : Bool) (ax : Axis) (q len : ℕ) : Type 0 where
  pub starts : IsCell p.board_size q
  pub good : CountsAsFive allow len
  pub stones : (j : ℕ) → j < len → p.board (along ax q j) ≡ side
  pub after : p.board (along ax q len) ≢ side
  pub before : p.board (behind ax q) ≢ side

abbrev pub HasRow : Position → Color → Bool → Axis → Type 0
HasRow p side allow ax = (q : ℕ) × (len : ℕ) × IsRow p side allow ax q len

-- Cell `a` of the line along `ax` from (x, y).
abbrev pub line_cell : Axis → ℕ → ℕ → ℕ → ℕ
line_cell ax x y a = along ax (cell x y) a

module _ (p : Position) (v : IsValid p) (side : Color) (no_wall : side ≢ wall) (allow : Bool)
    (ax : Axis) (x y n : ℕ) (l : IsLine ax p.board_size x y n) where
  abbrev on_line : ℕ → ℕ
  on_line = line_cell ax x y

  wall_ne : (q : ℕ) → (q < 1024) × (¬ IsCell p.board_size q) → p.board q ≢ side
  wall_ne q (lt, out) e = no_wall (sym e ∙ v.outside q lt out)

  none_behind :
      (a : ℕ)
      → a < n
      → ((b : ℕ) → suc b ≡ a → ¬ (p.board (on_line b) ≡ side))
      → p.board (behind ax (on_line a)) ≢ side
  none_behind zero h none =
      rw (along-zero ax (cell x y))
        (wall_ne _ (line_start p.board_size x y n v.size_le v.size_pos ax l))
  none_behind (suc b) h none =
      rw (behind-along p.board_size x y n v.size_le v.size_pos ax b l (omega arith)) (none b refl)

  fits_or_not : (a len : ℕ) → (a + len ≤ n) ⊎ (n < a + len)
  fits_or_not a len = omega arith

  pub Maximal-HasRow : Maximal p.board side allow on_line n → HasRow p side allow ax
  Maximal-HasRow (a, len, h, r, e) = (
    on_line a,
    len,
    record {
      starts = line-IsCell p.board_size x y n v.size_le v.size_pos ax a l (ground (arith, r.good));
      good = is_five_len-counts allow len r.good;
      stones = λ j hj. ap p.board (along-along ax (cell x y) a j) ∙ r.stones j hj;
      after = rw (along-along ax (cell x y) a len) (elim e [
        | inl last ↦ rw last (wall_ne _ (line_end p.board_size x y n v.size_le v.size_pos ax l))
        | inr other ↦ other
      ]);
      before = none_behind a (ground (arith, r.good)) r.before;
    },
  )

  at_end : (a : ℕ) → a < n → on_line n ≡ along ax (on_line a) (n - a)
  at_end a ha =
      ap on_line (let e : n ≡ a + (n - a) = omega arith in e)
      ∙ sym (along-along ax (cell x y) a (n - a))

  pub IsRow-Maximal :
      (a len : ℕ)
      → a < n
      → IsRow p side allow ax (on_line a) len
      → Maximal p.board side allow on_line n
  IsRow-Maximal a len ha r = (
    a,
    len,
    elim (fits_or_not a len) [
      | inl fits ↦ fits
      | inr beyond ↦ absurd (
          wall_ne (on_line n) (line_end p.board_size x y n v.size_le v.size_pos ax l)
            (ap p.board (at_end a ha) ∙ r.stones (n - a) (omega arith)))
    ],
    record {
      good = counts-is_five_len allow len r.good;
      stones = λ j hj. ap p.board (sym (along-along ax (cell x y) a j)) ∙ r.stones j hj;
      before = λ b e s. r.before (ap p.board (stepped b e) ∙ s);
    },
    inr (λ s. r.after (ap p.board (along-along ax (cell x y) a len) ∙ s)),
  )
    where
      stepped : (b : ℕ) → suc b ≡ a → behind ax (on_line a) ≡ on_line b
      stepped b e =
          ap (λ k. behind ax (on_line k)) (sym e)
          ∙ behind-along p.board_size x y n v.size_le v.size_pos ax b l (omega arith)
