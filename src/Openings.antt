-- ===== src/Openings.antt =====
-- The file of openings (src/openings.h, src/openings.cpp), with string_getline and prng of
-- src/util.cpp. A file is the list of its bytes, and ftell and fseek count them from the start. An
-- array is a function of its index. Errors of the file end the program and are left out.
pub mod Shuffle
pub mod Index
use c_gomoku_cli.Prelude.{
  ℕ, zero, suc, ◌+◌, ◌-◌, ◌*◌, ◌/◌, ◌%◌, ◌^◌, ltb, ◌==◌, if◌then◌else◌, Bool, true, false, List, [],
  ◌∷◌, length, drop, update,
}
use Prim.Native.Nat.{bit_xor}
use c_gomoku_cli.Text.{Text}

-- A line, the rest of the file and whether the line ended with a line feed.
pub record Line : Type 0 where
  pub out : Text
  pub rest : Text
  pub ended : Bool

-- The loop of string_getline.
unfoldable pub read_line : Text → Line
read_line [] = record { out = []; rest = []; ended = false }
read_line (c ∷ cs) =
    let more = read_line cs in
    if c == 13
    then more
    else if c == 10
    then record { out = []; rest = cs; ended = true }
    else record more { out = c ∷ more.out }

-- The result of string_getline.
abbrev pub line_size : Line → ℕ
line_size l = length l.out + (if l.ended then 1 else 0)

-- The loop of Openings::Openings over the lines, at an offset with the rest of the file behind it:
-- the offsets that are pushed.
unfoldable pub find_lines : ℕ → ℕ → Text → List ℕ
unfolding read_line
find_lines zero offset rest = offset ∷ []
find_lines (suc fuel) offset rest =
    let l = read_line rest in
    offset ∷ elim (line_size l == 0) [
      | true ↦ []
      | false ↦ find_lines fuel (offset + (length rest - length l.rest)) l.rest
    ]

-- index.pop_back().
abbrev pub pop_back : List ℕ → List ℕ
pop_back [] = []
pop_back (x ∷ []) = []
pop_back (x ∷ y ∷ ys) = x ∷ pop_back (y ∷ ys)

-- The index of Openings::Openings: the offsets of the lines. Each round reads a byte or ends the loop.
unfoldable pub line_index : Text → List ℕ
unfolding find_lines
line_index file = pop_back (find_lines (suc (length file)) 0 file)

-- prng: the new state, and the number.
unfoldable pub prng : ℕ → ℕ × ℕ
prng state =
    let s = (state + 11400714819323198485) % 2 ^ 64 in
    let a = bit_xor s (s / 2 ^ 30) * 13787848793156543929 % 2 ^ 64 in
    let b = bit_xor a (a / 2 ^ 27) * 10723151780598845931 % 2 ^ 64 in (s, bit_xor b (b / 2 ^ 31))

-- struct Openings, without its mutex: the file and the offsets of its lines.
pub record Openings : Type 0 where
  pub file : Text
  pub index : ℕ → ℕ
  pub size : ℕ

-- The swap of index[i] and index[j].
abbrev pub swap : ℕ → ℕ → (ℕ → ℕ) → ℕ → ℕ
swap i j index = update (update index i (index j)) j (index i)

-- for (; i > 0; i--).
unfoldable pub shuffle : ℕ → ℕ → (ℕ → ℕ) → ℕ → ℕ
unfolding prng
shuffle zero seed index = index
shuffle (suc i) seed index =
    let drawn = prng seed in shuffle i drawn.0 (swap (suc i) (drawn.1 % (suc i + 1)) index)

-- The random order, of a file with lines.
unfoldable pub randomize : ℕ → Openings → Openings
unfolding shuffle
randomize seed o = record o { index = shuffle (o.size - 1) seed o.index }

-- Openings::next with a file: the line, and the round.
unfoldable pub next : Openings → ℕ → Text × ℕ
unfolding read_line
next o idx = ((read_line (drop (o.index (idx % o.size)) o.file)).out, idx / o.size)
