-- ===== src/Openings/Index.antt =====
-- The index of a file of openings has its lines.
use c_gomoku_cli.Prelude.{
  ℕ, zero, suc, ◌+◌, ◌-◌, ◌<◌, ◌≡◌, ◌⊎◌, inl, inr, refl, sym, ap, ◌∙◌, Bool, true, false,
  Bool-cases, if◌then◌else◌, ◌==◌, List, [], ◌∷◌, ◌++◌, append_assoc, append-nil, length, drop,
  drop-drop, map, arith,
}
use c_gomoku_cli.Text.{Text}
use c_gomoku_cli.Openings.{read_line, line_size, find_lines, pop_back, line_index}

-- The lines of a text, without carriage returns, behind the bytes of the first line so far. The last
-- one counts only if it is not empty.
unfoldable pub lines_of : Text → Text → List Text
lines_of [] [] = []
lines_of (c ∷ cs) [] = (c ∷ cs) ∷ []
lines_of line (c ∷ cs) =
    let skipped = lines_of line cs in
    let next = lines_of [] cs in
    let more = lines_of (line ++ c ∷ []) cs in
    if c == 13 then skipped else if c == 10 then line ∷ next else more

-- A line that has a byte or a line feed, before the others.
abbrev add_line : Bool → Text → List Text → List Text
add_line true line more = line ∷ more
add_line false [] more = []
add_line false (c ∷ cs) more = (c ∷ cs) ∷ []

lines_of-cons :
    (line : Text) (c : ℕ) (cs : Text)
    → lines_of line (c ∷ cs) ≡ (
        if c == 13
        then lines_of line cs
        else if c == 10
        then line ∷ lines_of [] cs
        else lines_of (line ++ c ∷ []) cs)
unfolding lines_of
lines_of-cons [] c cs = refl
lines_of-cons (b ∷ bs) c cs = refl

lines_of-read_line :
    (line s : Text)
    → lines_of line s
      ≡ add_line (read_line s).ended (line ++ (read_line s).out) (lines_of [] (read_line s).rest)
unfolding read_line lines_of
lines_of-read_line [] [] = refl
lines_of-read_line (b ∷ bs) [] = ap (λ l. (b ∷ l) ∷ []) (sym (append-nil bs))
lines_of-read_line line (c ∷ cs) = elim (Bool-cases (c == 13)) [
  | inl cr ↦ lines_of-cons line c cs ∙ rw (cr, read_line) (lines_of-read_line line cs)
  | inr byte ↦ elim (Bool-cases (c == 10)) [
    | inl lf ↦
        lines_of-cons line c cs
        ∙ rw (byte, read_line, lf) (ap (λ l. l ∷ lines_of [] cs) (sym (append-nil line)))
    | inr other ↦
        lines_of-cons line c cs
        ∙ rw (byte, read_line, other)
            (lines_of-read_line (line ++ c ∷ []) cs
              ∙ ap (λ l. add_line (read_line cs).ended l (lines_of [] (read_line cs).rest))
                  (append_assoc line (c ∷ []) (read_line cs).out))
  ]
]

-- The rest behind a line is the text without some bytes.
record Reads (s : Text) : Type 0 where
  pub bytes : ℕ
  pub rest : drop bytes s ≡ (read_line s).rest
  pub total : bytes + length (read_line s).rest ≡ length s
  pub some_byte : (s ≡ []) ⊎ (0 < bytes)

read_line-Reads : (s : Text) → Reads s
unfolding read_line
read_line-Reads [] = record { bytes = 0; rest = refl; total = refl; some_byte = inl refl }
read_line-Reads (c ∷ cs) =
    let more = read_line-Reads cs in
    elim (Bool-cases (c == 13)) [
      | inl cr ↦ record {
        bytes = suc more.bytes;
        rest = rw (cr, read_line) more.rest;
        total = rw (cr, read_line) (omega (arith, more.total));
        some_byte = inr (omega arith);
      }
      | inr byte ↦ elim (Bool-cases (c == 10)) [
        | inl lf ↦ record {
          bytes = 1;
          rest = rw (byte, read_line, lf) refl;
          total = rw (byte, read_line, lf) (omega arith);
          some_byte = inr (omega arith);
        }
        | inr other ↦ record {
          bytes = suc more.bytes;
          rest = rw (byte, read_line, other) more.rest;
          total = rw (byte, read_line, other) (omega (arith, more.total));
          some_byte = inr (omega arith);
        }
      ]
    ]

-- What a line without a line feed leaves.
unended-rest : (s : Text) → (read_line s).ended ≡ false → (read_line s).rest ≡ []
unfolding read_line
unended-rest [] h = refl
unended-rest (c ∷ cs) h = elim (Bool-cases (c == 13)) [
  | inl cr ↦ rw (cr, read_line) (unended-rest cs (rw (cr, read_line) at h))
  | inr byte ↦ elim (Bool-cases (c == 10)) [
    | inl lf ↦ absurd (cc (rw (byte, read_line, lf) at h))
    | inr other ↦ rw (byte, read_line, other) (unended-rest cs (rw (byte, read_line, other) at h))
  ]
]

-- The end of the loop, by the size of a line.
add_line-end :
    (ended : Bool) (line rest : Text)
    → (length line + (if ended then 1 else 0) == 0) ≡ true
    → add_line ended line (lines_of [] rest) ≡ []
add_line-end true line rest h = absurd (ground arith)
add_line-end false [] rest h = refl
add_line-end false (c ∷ cs) rest h = absurd (ground arith)

add_line-more :
    (ended : Bool) (line rest : Text)
    → (length line + (if ended then 1 else 0) == 0) ≡ false
    → (ended ≡ true) ⊎ (rest ≡ [])
    → add_line ended line (lines_of [] rest) ≡ line ∷ lines_of [] rest
unfolding lines_of
add_line-more true line rest h e = refl
add_line-more false [] rest h e = absurd (ground arith)
add_line-more false (c ∷ cs) rest h (inl e) = cc
add_line-more false (c ∷ cs) rest h (inr e) = rw e refl

ended-cases : (s : Text) → ((read_line s).ended ≡ true) ⊎ ((read_line s).rest ≡ [])
ended-cases s = elim (Bool-cases (read_line s).ended) [
  | inl e ↦ inl e
  | inr e ↦ inr (unended-rest s e)
]

-- The line at an offset.
abbrev pub line_at : Text → ℕ → Text
unfolding read_line
line_at file offset = (read_line (drop offset file)).out

pop_back-cons :
    (x fuel offset : ℕ) (rest : Text)
    → pop_back (x ∷ find_lines fuel offset rest) ≡ x ∷ pop_back (find_lines fuel offset rest)
unfolding find_lines
pop_back-cons x zero offset rest = refl
pop_back-cons x (suc fuel) offset rest = refl

fewer :
    (rest : Text)
    → Reads rest
    → (line_size (read_line rest) == 0) ≡ false
    → length (read_line rest).rest < length rest
unfolding read_line
fewer [] r full = absurd (cc full)
fewer (c ∷ cs) r full = elim r.some_byte [
  | inl nil ↦ absurd (cc nil)
  | inr some_bytes ↦ omega (arith, r.total)
]

next_rest :
    (file rest : Text) (offset : ℕ)
    → drop offset file ≡ rest
    → Reads rest
    → drop (offset + (length rest - length (read_line rest).rest)) file ≡ (read_line rest).rest
next_rest file rest offset e r =
    drop-drop offset (length rest - length (read_line rest).rest) file
    ∙ ap (drop (length rest - length (read_line rest).rest)) e
    ∙ ap (λ k. drop k rest)
        (read_bytes r.bytes (length (read_line rest).rest) (length rest) r.total)
    ∙ r.rest
  where
    read_bytes : (b l n : ℕ) → b + l ≡ n → n - l ≡ b
    read_bytes b l n e = omega arith

find_lines-lines_of :
    (file : Text) (fuel offset : ℕ) (rest : Text)
    → drop offset file ≡ rest
    → length rest < fuel
    → map (line_at file) (pop_back (find_lines fuel offset rest)) ≡ lines_of [] rest
unfolding find_lines
find_lines-lines_of file zero offset rest e h = absurd (omega arith)
find_lines-lines_of file (suc fuel) offset rest e h =
    let l = read_line rest in
    let r = read_line-Reads rest in
    elim (Bool-cases (line_size l == 0)) [
      | inl empty ↦
          rw (empty, find_lines)
            (sym (lines_of-read_line [] rest ∙ add_line-end l.ended l.out l.rest empty))
      | inr full ↦
          let offset' = offset + (length rest - length l.rest) in
          rw (full, find_lines)
            (ap (map (line_at file)) (pop_back-cons offset fuel offset' l.rest)
              ∙ ap
                  (λ t.
                    (read_line t).out
                    ∷ map (line_at file) (pop_back (find_lines fuel offset' l.rest)))
                  e
              ∙ ap (λ ts. l.out ∷ ts)
                  (find_lines-lines_of file fuel offset' l.rest (next_rest file rest offset e r)
                    (omega (arith, fewer rest r full)))
              ∙ sym (
                  lines_of-read_line [] rest
                  ∙ add_line-more l.ended l.out l.rest full (ended-cases rest)))
    ]

-- The lines that are read at the offsets of the index are exactly the lines of the file, in their
-- order: its texts between line feeds, without carriage returns, the last one only if it is not
-- empty.
pub line_index-lines_of : (file : Text) → map (line_at file) (line_index file) ≡ lines_of [] file
unfolding line_index
line_index-lines_of file = find_lines-lines_of file (suc (length file)) 0 file refl (omega arith)
