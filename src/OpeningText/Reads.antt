-- ===== src/OpeningText/Reads.antt =====
-- The ints of a stream.
use c_gomoku_cli.Prelude.{
  ℕ, zero, suc, ◌≤◌, ◌≡◌, refl, ap, ◌∙◌, List, [], ◌∷◌, ◌++◌, length, length-append, some, ℤ, arith,
}
use c_gomoku_cli.Text.{Text, skip_spaces, strtol, show_int}
use c_gomoku_cli.Text.Numbers.{Fits, Stops, strtol-show_int, show_int-length, in_int}
use c_gomoku_cli.OpeningText.{read_int, read_ints}

-- The loop over a stream goes through these ints, with fuel for each byte.
abbrev pub Reads : Text → List ℤ → Type 0
Reads s ns = (fuel : ℕ) → length s ≤ fuel → read_ints fuel s ≡ ns

pub Reads-nil : Reads [] []
unfolding read_ints read_int strtol
Reads-nil zero h = refl
Reads-nil (suc fuel) h = refl

read_int-space : (s : Text) → read_int (32 ∷ s) ≡ read_int s
unfolding read_int strtol skip_spaces
read_int-space s = refl

read_ints-space : (fuel : ℕ) (s : Text) → read_ints (suc fuel) (32 ∷ s) ≡ read_ints (suc fuel) s
unfolding read_ints
read_ints-space fuel s = rw (read_int-space s) refl

pub Reads-space : (s : Text) (ns : List ℤ) → Reads s ns → Reads (32 ∷ s) ns
Reads-space s ns h zero l = absurd (omega arith)
Reads-space s ns h (suc fuel) l = read_ints-space fuel s ∙ h (suc fuel) (omega arith)

read_int-show_int :
    (z : ℤ) (rest : Text) → Fits z → Stops rest → read_int (show_int z ++ rest) ≡ some (z, rest)
unfolding read_int
read_int-show_int z rest h stop =
    rw (strtol-show_int z rest h stop, read_int) (rw (in_int z h) refl)

pub Reads-show_int :
    (z : ℤ) (rest : Text) (ns : List ℤ)
    → Fits z
    → Stops rest
    → Reads rest ns
    → Reads (show_int z ++ rest) (z ∷ ns)
unfolding read_ints
Reads-show_int z rest ns f stop h zero l =
    absurd (omega (arith, length-append (show_int z) rest, show_int-length z))
Reads-show_int z rest ns f stop h (suc fuel) l =
    rw (read_int-show_int z rest f stop, read_ints)
      (ap (λ k. z ∷ k) (h fuel (omega (arith, length-append (show_int z) rest, show_int-length z))))
