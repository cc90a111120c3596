-- ===== src/OpeningText/Prints.antt =====
-- The streams of printed numbers.
use c_gomoku_cli.Prelude.{
  ℕ, zero, suc, ◌+◌, ◌-◌, ◌/◌, ◌%◌, ◌<◌, ◌≡◌, refl, sym, ap, ◌∙◌, inl, inr, true, false, Bool-cases,
  ◌||◌, ◌==◌, leb, ltb, List, [], ◌∷◌, ◌++◌, All, length, length-append, some, ℤ, pos, negsuc,
  arith, append_assoc, append-nil, for_below,
}
use c_gomoku_cli.Coord.{coord_x, coord_y, pos_from_move}
use c_gomoku_cli.Position.{Position}
use c_gomoku_cli.Text.{
  Text, OpeningType, digits, show_int, is_digit, square_str, separator, to_opening_str,
}
use c_gomoku_cli.OpeningText.{offset_stream, pos_stream}

abbrev Digits : Text → Type 0
Digits = All (λ c. is_digit c ≡ true)

digits-Digits : (fuel n : ℕ) (s : Text) → Digits s → Digits (digits fuel n s)
unfolding digits
digits-Digits zero n s h = h
digits-Digits (suc fuel) n s h = elim (Bool-cases (ltb n 10)) [
  | inl e ↦ rw (e, digits) (ground arith, h)
  | inr e ↦ rw (e, digits) (digits-Digits fuel (n / 10) ((n % 10 + 48) ∷ s) (ground arith, h))
]

-- The characters that the offset parser copies.
abbrev Copied : Text → Type 0
Copied = All (λ c. (is_digit c || c == 45) ≡ true)

Digits-Copied : (s : Text) → Digits s → Copied s
Digits-Copied [] h = tt
Digits-Copied (c ∷ cs) (h, hs) = (ground arith, Digits-Copied cs hs)

show_int-Copied : (z : ℤ) → Copied (show_int z)
unfolding show_int
show_int-Copied (pos n) = Digits-Copied _ (digits-Digits 10 n [] tt)
show_int-Copied (negsuc n) = (refl, Digits-Copied _ (digits-Digits 10 (suc n) [] tt))

offset_stream-Copied :
    (a t s : Text) → Copied a → offset_stream t ≡ some s → offset_stream (a ++ t) ≡ some (a ++ s)
unfolding offset_stream
offset_stream-Copied [] t s h e = e
offset_stream-Copied (c ∷ cs) t s (h, hs) e =
    rw (h, offset_stream) (rw (offset_stream-Copied cs t s hs e) refl)

pub offset_stream-show_int :
    (z : ℤ) (t s : Text)
    → offset_stream t ≡ some s
    → offset_stream (show_int z ++ t) ≡ some (show_int z ++ s)
offset_stream-show_int z t s e = offset_stream-Copied (show_int z) t s (show_int-Copied z) e

pub offset_stream-comma :
    (t s : Text) → offset_stream t ≡ some s → offset_stream (44 ∷ t) ≡ some (32 ∷ s)
unfolding offset_stream
offset_stream-comma t s e = rw e refl

pub offset_stream-space :
    (t s : Text) → offset_stream t ≡ some s → offset_stream (32 ∷ t) ≡ some (32 ∷ s)
unfolding offset_stream
offset_stream-space t s e = rw e refl

digit_no_letter : (c : ℕ) → is_digit c ≡ true → leb 97 c ≡ false
digit_no_letter c h = ground arith

pos_stream-Digits :
    (a t s : Text) → Digits a → pos_stream t ≡ some s → pos_stream (a ++ t) ≡ some (a ++ s)
unfolding pos_stream
pos_stream-Digits [] t s h e = e
pos_stream-Digits (c ∷ cs) t s (h, hs) e =
    rw (digit_no_letter c h, h, pos_stream) (rw (pos_stream-Digits cs t s hs e) refl)

pub pos_stream-show_int :
    (n : ℕ) (t s : Text)
    → pos_stream t ≡ some s
    → pos_stream (show_int (pos n) ++ t) ≡ some (show_int (pos n) ++ s)
unfolding show_int
pos_stream-show_int n t s e = pos_stream-Digits (digits 10 n []) t s (digits-Digits 10 n [] tt) e

pub pos_stream-letter :
    (x : ℕ) (t s : Text)
    → x < 26
    → pos_stream t ≡ some s
    → pos_stream ((x + 97) ∷ t) ≡ some (32 ∷ show_int (pos x) ++ 32 ∷ s)
unfolding pos_stream
pos_stream-letter x t s h e =
    rw (above x, below x h, pos_stream)
      (rw e (ap (λ k. some (32 ∷ show_int (pos k) ++ 32 ∷ s)) (back x)))
  where
    above : (x : ℕ) → leb 97 (x + 97) ≡ true
    above x = ground arith

    below : (x : ℕ) → x < 26 → leb (x + 97) 122 ≡ true
    below x h = ground arith

    back : (x : ℕ) → x + 97 - 97 ≡ x
    back x = omega arith

-- The squares of the first `n` moves.
unfoldable pub first_squares : Position → ℕ → List ℕ
unfolding pos_from_move
first_squares p zero = []
first_squares p (suc n) = first_squares p n ++ pos_from_move (p.history_moves n) ∷ []

-- The print of squares, the first of them the one with the index `i`.
unfoldable pub print_from : Position → OpeningType → ℕ → List ℕ → Text
unfolding coord_x coord_y show_int
print_from p type i [] = []
print_from p type i (q ∷ qs) =
    separator type i ++ (square_str p type q ++ print_from p type (suc i) qs)

print_from-append :
    (p : Position) (type : OpeningType) (i : ℕ) (qs : List ℕ) (q : ℕ)
    → print_from p type i (qs ++ q ∷ [])
      ≡ print_from p type i qs ++ separator type (length qs + i) ++ square_str p type q
unfolding print_from
print_from-append p type i [] q =
    ap (λ s. separator type i ++ s) (append-nil (square_str p type q))
    ∙ ap (λ k. separator type k ++ square_str p type q) (omega arith)
print_from-append p type i (r ∷ rs) q =
    ap (λ t. separator type i ++ (square_str p type r ++ t))
      (print_from-append p type (suc i) rs q
        ∙ ap (λ k. print_from p type (suc i) rs ++ separator type k ++ square_str p type q)
            (one_more (length rs) i))
    ∙ simp append_assoc refl
  where
    one_more : (n i : ℕ) → n + suc i ≡ suc n + i
    one_more n i = omega arith

length-first_squares : (p : Position) (n : ℕ) → length (first_squares p n) ≡ n
unfolding first_squares
length-first_squares p zero = refl
length-first_squares p (suc n) = omega (
  arith,
  length-append (first_squares p n) (pos_from_move (p.history_moves n) ∷ []),
  length-first_squares p n,
)

squares_below :
    (p : Position) (type : OpeningType) (n : ℕ)
    → for_below n
        (λ i s. s ++ separator type i ++ square_str p type (pos_from_move (p.history_moves i)))
        []
      ≡ print_from p type 0 (first_squares p n)
unfolding for_below first_squares print_from
squares_below p type zero = refl
squares_below p type (suc n) =
    let q = pos_from_move (p.history_moves n) in
    ap (λ s. s ++ separator type n ++ square_str p type q) (squares_below p type n)
    ∙ ap (λ k. print_from p type 0 (first_squares p n) ++ separator type k ++ square_str p type q)
        (index (length (first_squares p n)) (length-first_squares p n))
    ∙ sym (print_from-append p type 0 (first_squares p n) q)
  where
    index : (k : ℕ) → k ≡ n → n ≡ k + 0
    index k e = omega arith

-- The print of an opening is that of its squares.
pub to_opening_str-print_from :
    (p : Position) (type : OpeningType)
    → to_opening_str p type ≡ print_from p type 0 (first_squares p p.move_count)
unfolding to_opening_str
to_opening_str-print_from p type = squares_below p type p.move_count
