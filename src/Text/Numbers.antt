-- ===== src/Text/Numbers.antt =====
-- A printed number is read back, whatever text follows it that does not go on with a digit.
use c_gomoku_cli.Prelude.{
  ℕ, zero, suc, ◌+◌, ◌-◌, ◌*◌, ◌/◌, ◌%◌, ◌^◌, ◌<◌, ◌≤◌, ◌≡◌, refl, sym, ap, ◌∙◌, inl, inr, true,
  false, Bool-cases, ltb, ◌&&◌, [], ◌∷◌, ◌++◌, some, ℤ, pos, negsuc, sub_ℕ, leb_ℤ, pos_part,
  neg_part, arith, append-nil, length,
}
use c_gomoku_cli.Text.{
  Text, skip_spaces, is_digit, read_digits, read_unsigned, to_pos, to_neg, strtol, stoi, digits,
  show_int, is_number,
}
use native.Mathlib.Numerals.{unary_clauses}

-- The text does not go on with a digit.
abbrev pub Stops : Text → Type 0
Stops [] = Unit
Stops (c ∷ cs) = is_digit c ≡ false

abbrev pub Fits : ℤ → Type 0
Fits z = pos_part z + neg_part z ≤ 2 ^ 31 - 1

read_digits-cons :
    (m n : ℕ) (s : Text) → n < 10 → read_digits m ((n + 48) ∷ s) ≡ read_digits (m * 10 + n) s
unfolding read_digits
read_digits-cons m n s h = ground arith

tenth : (fuel n : ℕ) → n < 10 ^ suc fuel → n / 10 < 10 ^ fuel
tenth fuel n h = omega (arith, simp unary_clauses at h)

-- Reading the digits of a number and what follows goes on from the number.
read_digits-digits :
    (fuel n : ℕ) (s : Text) → n < 10 ^ fuel → read_digits 0 (digits fuel n s) ≡ read_digits n s
unfolding digits
read_digits-digits zero n s h = ap (λ k. read_digits k s) (omega arith)
read_digits-digits (suc fuel) n s h = elim (Bool-cases (ltb n 10)) [
  | inl e ↦
      rw (e, digits)
        (read_digits-cons 0 n s (ground arith) ∙ ap (λ k. read_digits k s) (omega arith))
  | inr e ↦
      rw (e, digits)
        (read_digits-digits fuel (n / 10) ((n % 10 + 48) ∷ s) (tenth fuel n h)
          ∙ read_digits-cons (n / 10) (n % 10) s (omega arith)
          ∙ ap (λ k. read_digits k s) (omega arith))
]

read_digits-Stops : (n : ℕ) (s : Text) → Stops s → read_digits n s ≡ (n, s)
unfolding read_digits
read_digits-Stops n [] h = refl
read_digits-Stops n (c ∷ cs) h = ground arith

-- The text begins with a digit.
abbrev pub Starts : Text → Type 0
Starts s = (c : ℕ) × (cs : Text) × (s ≡ c ∷ cs) × (is_digit c ≡ true)

digit_code : (n : ℕ) → n < 10 → is_digit (n + 48) ≡ true
digit_code n h = ground arith

digits-Starts : (fuel n : ℕ) (s : Text) → Starts s → Starts (digits fuel n s)
unfolding digits
digits-Starts zero n s h = h
digits-Starts (suc fuel) n s h = elim (Bool-cases (ltb n 10)) [
  | inl e ↦ rw (e, digits) (n + 48, s, refl, digit_code n (ground arith))
  | inr e ↦
      rw (e, digits)
        (digits-Starts fuel (n / 10) ((n % 10 + 48) ∷ s)
          (n % 10 + 48, s, refl, digit_code (n % 10) (omega arith)))
]

digits-suc-Starts : (fuel n : ℕ) (s : Text) → Starts (digits (suc fuel) n s)
unfolding digits
digits-suc-Starts fuel n s = elim (Bool-cases (ltb n 10)) [
  | inl e ↦ rw (e, digits) (n + 48, s, refl, digit_code n (ground arith))
  | inr e ↦
      rw (e, digits)
        (digits-Starts fuel (n / 10) ((n % 10 + 48) ∷ s)
          (n % 10 + 48, s, refl, digit_code (n % 10) (omega arith)))
]

digits-append : (fuel n : ℕ) (s rest : Text) → digits fuel n s ++ rest ≡ digits fuel n (s ++ rest)
unfolding digits
digits-append zero n s rest = refl
digits-append (suc fuel) n s rest = elim (Bool-cases (ltb n 10)) [
  | inl e ↦ rw (e, digits) refl
  | inr e ↦ rw (e, digits) (digits-append fuel (n / 10) ((n % 10 + 48) ∷ s) rest)
]

read_unsigned-Starts : (s : Text) → Starts s → read_unsigned s ≡ some (read_digits 0 s)
unfolding read_unsigned
read_unsigned-Starts s (c, cs, e, h) = rw e (ground arith)

strtol-Starts : (s : Text) → Starts s → strtol s ≡ to_pos (read_unsigned s)
unfolding strtol skip_spaces
strtol-Starts s (c, cs, e, h) = rw e (ground arith)

strtol-minus : (s : Text) → strtol (45 ∷ s) ≡ to_neg (read_unsigned s)
unfolding strtol skip_spaces
strtol-minus s = refl

below_int : (n : ℕ) → n ≤ 2 ^ 31 - 1 → n < 10 ^ 10
below_int n h = omega arith

read_unsigned-digits :
    (n : ℕ) (rest : Text)
    → n ≤ 2 ^ 31 - 1
    → Stops rest
    → read_unsigned (digits 10 n rest) ≡ some (n, rest)
read_unsigned-digits n rest h stop =
    read_unsigned-Starts (digits 10 n rest) (digits-suc-Starts 9 n rest)
    ∙ ap some (read_digits-digits 10 n rest (below_int n h) ∙ read_digits-Stops n rest stop)

-- Reading a printed int and what follows gives the int and what follows.
pub strtol-show_int :
    (z : ℤ) (rest : Text) → Fits z → Stops rest → strtol (show_int z ++ rest) ≡ some (z, rest)
unfolding show_int
strtol-show_int (pos n) rest h stop =
    ap strtol (digits-append 10 n [] rest)
    ∙ strtol-Starts (digits 10 n rest) (digits-suc-Starts 9 n rest)
    ∙ ap to_pos (read_unsigned-digits n rest (omega (arith, h)) stop)
strtol-show_int (negsuc n) rest h stop =
    ap (λ s. strtol (45 ∷ s)) (digits-append 10 (suc n) [] rest)
    ∙ strtol-minus (digits 10 (suc n) rest)
    ∙ ap to_neg (read_unsigned-digits (suc n) rest (omega (arith, h)) stop)
    ∙ ap (λ k. some (k, rest)) (negated n)
  where
    negated : (n : ℕ) → sub_ℕ 0 (suc n) ≡ negsuc n
    negated n = ground arith

pub in_int : (z : ℤ) → Fits z → (leb_ℤ (negsuc (2 ^ 31 - 1)) z && leb_ℤ z (pos (2 ^ 31 - 1))) ≡ true
in_int (pos n) h = ground arith
in_int (negsuc n) h = ground arith

pub stoi-show_int : (z : ℤ) → Fits z → stoi (show_int z) ≡ some z
unfolding stoi
stoi-show_int z h =
    let e : strtol (show_int z) ≡ some (z, []) =
      ap strtol (sym (append-nil (show_int z))) ∙ strtol-show_int z [] h tt in
    rw (e, stoi) (rw (in_int z h) refl)

pub is_number-show_int : (z : ℤ) → Fits z → is_number (show_int z) ≡ true
unfolding is_number
is_number-show_int z h =
    let e : strtol (show_int z) ≡ some (z, []) =
      ap strtol (sym (append-nil (show_int z))) ∙ strtol-show_int z [] h tt in
    rw (e, is_number) refl

pub show_int-length : (z : ℤ) → 0 < length (show_int z)
unfolding show_int
show_int-length (pos n) = nonempty n (digits-suc-Starts 9 n [])
  where
    nonempty : (n : ℕ) → Starts (digits 10 n []) → 0 < length (digits 10 n [])
    nonempty n (c, cs, e, h) = rw e (omega arith)
show_int-length (negsuc n) = omega arith
