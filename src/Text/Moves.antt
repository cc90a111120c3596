-- ===== src/Text/Moves.antt =====
-- A printed move is a valid move string, which is read back as the move.
use c_gomoku_cli.Prelude.{
  ℕ, zero, suc, ◌+◌, ◌/◌, ◌%◌, ◌≡◌, ◌≢◌, refl, ap, ◌∙◌, inl, inr, true, Bool-cases, ltb, ◌==◌,
  if◌then◌else◌, [], ◌∷◌, ◌++◌, All, length, take, drop, some, ℤ, pos, negsuc, arith,
}
use c_gomoku_cli.Coord.{color_code, build_move}
use c_gomoku_cli.Position.{Position}
use c_gomoku_cli.Text.{
  Text, comma, find_comma, x_str, y_str, digits, show_int, stoi, gomostr_to_move,
  is_valid_move_gomostr,
}
use c_gomoku_cli.Text.Numbers.{Fits, stoi-show_int, is_number-show_int}

abbrev NoComma : Text → Type 0
NoComma = All (λ c. c ≢ comma)

skip : (c i : ℕ) (t : ℕ × ℕ) → c ≢ comma → (if c == comma then (i, t.1 + 1) else t) ≡ t
skip c i t h = ground arith

find_comma-NoComma :
    (s rest : Text) (i : ℕ) (t : ℕ × ℕ)
    → NoComma s
    → find_comma (s ++ rest) i t ≡ find_comma rest (i + length s) t
unfolding find_comma
find_comma-NoComma [] rest i t h = ap (λ k. find_comma rest k t) (omega arith)
find_comma-NoComma (c ∷ cs) rest i t (h, hs) =
    ap (find_comma (cs ++ rest) (i + 1)) (skip c i t h)
    ∙ find_comma-NoComma cs rest (i + 1) t hs
    ∙ ap (λ k. find_comma rest k t) (omega arith)

find_comma-end : (s : Text) (i : ℕ) (t : ℕ × ℕ) → NoComma s → find_comma s i t ≡ t
unfolding find_comma
find_comma-end [] i t h = refl
find_comma-end (c ∷ cs) i t (h, hs) =
    ap (find_comma cs (i + 1)) (skip c i t h) ∙ find_comma-end cs (i + 1) t hs

find_comma_pair :
    (a b : Text) → NoComma a → NoComma b → find_comma (a ++ comma ∷ b) 0 (0, 0) ≡ (length a, 1)
unfolding find_comma
find_comma_pair a b ha hb =
    find_comma-NoComma a (comma ∷ b) 0 (0, 0) ha
    ∙ find_comma-end b (0 + length a + 1) (0 + length a, 1) hb
    ∙ ap (λ k. (k, 1)) (omega arith)

take-length : (a b : Text) → take (length a) (a ++ b) ≡ a
take-length [] b = refl
take-length (c ∷ a) b = ap (λ s. c ∷ s) (take-length a b)

drop-length : (a b : Text) (c : ℕ) → drop (length a + 1) (a ++ c ∷ b) ≡ b
drop-length a b c = ap (λ k. drop k (a ++ c ∷ b)) (one_more (length a)) ∙ go a
  where
    one_more : (n : ℕ) → n + 1 ≡ suc n
    one_more n = omega arith

    go : (a : Text) → drop (suc (length a)) (a ++ c ∷ b) ≡ b
    go [] = refl
    go (d ∷ a) = go a

x_str_pair : (a b : Text) → NoComma a → NoComma b → x_str (a ++ comma ∷ b) ≡ a
unfolding x_str
x_str_pair a b ha hb =
    ap (λ r. take r.0 (a ++ comma ∷ b)) (find_comma_pair a b ha hb) ∙ take-length a (comma ∷ b)

y_str_pair : (a b : Text) → NoComma a → NoComma b → y_str (a ++ comma ∷ b) ≡ b
unfolding y_str
y_str_pair a b ha hb =
    ap (λ r. drop (r.0 + 1) (a ++ comma ∷ b)) (find_comma_pair a b ha hb) ∙ drop-length a b comma

digits-NoComma : (fuel n : ℕ) (s : Text) → NoComma s → NoComma (digits fuel n s)
unfolding digits
digits-NoComma zero n s h = h
digits-NoComma (suc fuel) n s h = elim (Bool-cases (ltb n 10)) [
  | inl e ↦ rw (e, digits) (omega arith, h)
  | inr e ↦ rw (e, digits) (digits-NoComma fuel (n / 10) ((n % 10 + 48) ∷ s) (omega arith, h))
]

show_int-NoComma : (z : ℤ) → NoComma (show_int z)
unfolding show_int
show_int-NoComma (pos n) = digits-NoComma 10 n [] tt
show_int-NoComma (negsuc n) = (omega arith, digits-NoComma 10 (suc n) [] tt)

module _ (x y : ℤ) (fx : Fits x) (fy : Fits y) where
  pub is_valid_move_gomostr-pair : is_valid_move_gomostr (show_int x ++ comma ∷ show_int y) ≡ true
  unfolding is_valid_move_gomostr
  is_valid_move_gomostr-pair =
      let a = show_int x in
      let b = show_int y in
      let na = show_int-NoComma x in
      let nb = show_int-NoComma y in
      rw
        (
          ap (λ r. r.1) (find_comma_pair a b na nb),
          x_str_pair a b na nb,
          y_str_pair a b na nb,
          is_number-show_int x fx,
          is_number-show_int y fy,
        )
        refl

  pub gomostr_to_move-pair :
      (p : Position)
      → gomostr_to_move p (show_int x ++ comma ∷ show_int y)
        ≡ some (build_move x y (color_code p.player_to_move))
  unfolding gomostr_to_move
  gomostr_to_move-pair p =
      let a = show_int x in
      let b = show_int y in
      let na = show_int-NoComma x in
      let nb = show_int-NoComma y in
      let ex = ap stoi (x_str_pair a b na nb) ∙ stoi-show_int x fx in
      let ey = ap stoi (y_str_pair a b na nb) ∙ stoi-show_int y fy in
      rw (ex, ey, gomostr_to_move) refl
