-- ===== src/Exports/Packs.antt =====
-- What export_samples_binpack writes about a sample.
use c_gomoku_cli.Prelude.{
  ℕ, zero, suc, ◌+◌, ◌-◌, ◌%◌, ◌^◌, ◌<◌, ◌≤◌, ◌≡◌, inl, inr, refl, sym, ap, ◌∙◌, subst, Bool-cases,
  ◌==◌, ==→≡, ltb, List, [], ◌∷◌, ◌++◌, append_assoc, map, All, some, some-inv, none-ne-some,
  bind-some, arith, ℤ,
}
use c_gomoku_cli.Coord.{pos_raw, pos_from_move}
use c_gomoku_cli.Coord.Cells.{coord_x-cell, coord_y-cell}
use c_gomoku_cli.Position.{Position}
use c_gomoku_cli.Position.Validity.{IsCell}
use c_gomoku_cli.Game.{Sample}
use c_gomoku_cli.Exports.{
  raw_pos, raws_from, PackMove, Pack, following, get_following_move_index, between, add_sample,
}

-- The moves of the sample's history, and its own, are squares of the board.
pub record IsOnBoard (s : Sample) : Type 0 where
  pub size_le : s.position.board_size ≤ 22
  pub played :
      (i : ℕ)
      → i < s.position.move_count
      → IsCell s.position.board_size (pos_from_move (s.position.history_moves i))
  pub best : IsCell s.position.board_size (pos_from_move s.best_move)

-- The squares of the sample's position.
abbrev pub history : Sample → List ℕ
history s = raws_from s.position 0 s.position.move_count

-- Among the moves is the sample's, with its evaluation, and the opening with the moves before it is
-- the sample's position.
abbrev pub Holds : List ℕ → List PackMove → Sample → Type 0
Holds opening moves s =
    (before : List PackMove) × (after : List PackMove) × (moves
      ≡ before ++ record { square = raw_pos (pos_from_move s.best_move); eval = s.eval } ∷ after)
    × (opening ++ map (λ m. m.square) before ≡ history s)

pub raw_pos-lt : (size q : ℕ) → size ≤ 22 → IsCell size q → raw_pos q < 1024
unfolding raw_pos pos_raw
raw_pos-lt size q h (x, y, hx, hy, e) =
    rw (e, coord_x-cell x y (omega arith), coord_y-cell x y (omega arith)) (omega arith)

abbrev Small : List ℕ → Type 0
Small = All (λ (m : ℕ). m < 1024)

raws_from-Small :
    (s : Sample) (i n : ℕ)
    → IsOnBoard s
    → i + n ≤ s.position.move_count
    → Small (raws_from s.position i n)
unfolding raws_from
raws_from-Small s i zero o h = tt
raws_from-Small s i (suc n) o h = (
  raw_pos-lt s.position.board_size _ o.size_le (o.played i (omega arith)),
  raws_from-Small s (i + 1) n o (omega arith),
)

between-squares : (eval : ℤ) (ms : List ℕ) → Small ms → map (λ m. m.square) (between eval ms) ≡ ms
between-squares eval [] h = refl
between-squares eval (m ∷ []) (h, _) = ap (λ k. k ∷ []) (small m h)
  where
    small : (m : ℕ) → m < 1024 → m % 2 ^ 10 ≡ m
    small m h = omega arith
between-squares eval (m ∷ n ∷ ms) (h, hs) =
    ap (λ k. k ∷ map (λ m. m.square) (between eval (n ∷ ms))) (small m h)
    ∙ ap (λ ks. m ∷ ks) (between-squares eval (n ∷ ms) hs)
  where
    small : (m : ℕ) → m < 1024 → m % 2 ^ 10 ≡ m
    small m h = omega arith

map-append : (f : PackMove → ℕ) (xs ys : List PackMove) → map f (xs ++ ys) ≡ map f xs ++ map f ys
map-append f [] ys = refl
map-append f (x ∷ xs) ys = ap (λ zs. f x ∷ zs) (map-append f xs ys)

-- The squares followed the history from the index on, and the result is the index behind them.
pub record Follows (p : Position) (ms : List ℕ) (index j : ℕ) : Type 0 where
  pub le : j ≤ p.move_count
  pub rest : ms ++ raws_from p j (p.move_count - j) ≡ raws_from p index (p.move_count - index)

pub following-Follows :
    (p : Position) (ms : List ℕ) (index j : ℕ)
    → index ≤ p.move_count
    → following p ms index ≡ some j
    → Follows p ms index j
unfolding following raws_from
following-Follows p [] index j h e =
    subst (Follows p [] index) (some-inv e) (record { le = h; rest = refl })
following-Follows p (m ∷ ms) index j h e = elim (Bool-cases (ltb index p.move_count)) [
  | inr short ↦ absurd (none-ne-some (rw (short, following) at e))
  | inl long ↦ elim (Bool-cases (m == raw_pos (pos_from_move (p.history_moves index)))) [
    | inr other ↦ absurd (none-ne-some (rw (long, other, following) at e))
    | inl same ↦
        let more =
          following-Follows p ms (index + 1) j (ground arith) (rw (long, same, following) at e) in
        let one_more : p.move_count - index ≡ suc (p.move_count - (index + 1)) = ground arith in
        record {
          le = more.le;
          rest = rw one_more (
              ap (λ r. m ∷ r) more.rest
              ∙ ap (λ k. k ∷ raws_from p (index + 1) (p.move_count - (index + 1))) (==→≡ m _ same));
        }
  ]
]

pub get_following_move_index-rest :
    (k : Pack) (s : Sample) (j : ℕ)
    → get_following_move_index k s ≡ some j
    → k.opening_position
        ++ (map (λ m. m.square) k.move_sequence
            ++ raws_from s.position j (s.position.move_count - j))
      ≡ history s
unfolding get_following_move_index
get_following_move_index-rest k s j e =
    let (index, e1, e2) = bind-some (following s.position k.opening_position 0) _ j e in
    let start = following-Follows s.position k.opening_position 0 index (omega arith) e1 in
    let more = following-Follows s.position _ index j start.le e2 in
    ap (λ r. k.opening_position ++ r) more.rest
    ∙ start.rest
    ∙ ap (raws_from s.position 0) (all s.position.move_count)
  where
    all : (n : ℕ) → n - 0 ≡ n
    all n = omega arith

pub add_sample-Holds :
    (eval : ℤ) (s : Sample) (j : ℕ) (k : Pack)
    → IsOnBoard s
    → j ≤ s.position.move_count
    → k.opening_position
        ++ (map (λ m. m.square) k.move_sequence
            ++ raws_from s.position j (s.position.move_count - j))
      ≡ history s
    → Holds k.opening_position (add_sample eval s j k).move_sequence s
unfolding add_sample
add_sample-Holds eval s j k o h e =
    let rest = raws_from s.position j (s.position.move_count - j) in
    let small = raws_from-Small s j (s.position.move_count - j) o (omega arith) in
    let best = raw_pos (pos_from_move s.best_move) in
    let best-lt = raw_pos-lt s.position.board_size _ o.size_le o.best in
    (
      k.move_sequence ++ between eval rest,
      [],
      sym (append_assoc k.move_sequence (between eval rest) _)
          ∙ ap
              (λ b.
                (k.move_sequence ++ between eval rest) ++ record { square = b; eval = s.eval } ∷ [])
              (ten_bits best best-lt),
      ap (λ r. k.opening_position ++ r)
            (map-append (λ m. m.square) k.move_sequence (between eval rest)
              ∙ ap (λ r. map (λ m. m.square) k.move_sequence ++ r)
                  (between-squares eval rest small))
          ∙ e,
    )
  where
    ten_bits : (m : ℕ) → m < 1024 → m % 2 ^ 10 ≡ m
    ten_bits m h = omega arith

pub Holds-append :
    (o : List ℕ) (ms more : List PackMove) (s : Sample) → Holds o ms s → Holds o (ms ++ more) s
Holds-append o ms more s (before, after, e, h) =
    (before, after ++ more, ap (λ k. k ++ more) e ∙ append_assoc before _ more, h)
