-- ===== src/Arguments/Checked.antt =====
-- What the command line admits.
use c_gomoku_cli.Prelude.{
  ℕ, zero, suc, ◌≤◌, ◌≡◌, ◌⊎◌, inl, inr, refl, if◌then◌else◌, ltb, ◌&&◌, Bool, true, false,
  Bool-cases, List, [], ◌∷◌, length, map, Option-cases, arith, pos, leb_ℤ,
}
use c_gomoku_cli.Text.{Text}
use c_gomoku_cli.Arguments.{Doubles, EngineOptions, Options}
use c_gomoku_cli.Arguments.Parse.{
  flags, find_flag, Parsing, Step, step_dies, step_crashes, step_next, run_flag, Parsed, parse_fuel,
  parse_dies, parse_crashes, parsed, merge_each, end_parse, parse_loop, options_parse,
}
use c_gomoku_cli.Arguments.Rounds.{Fine, Admitted, run_flag-Fine}

-- What holds when the program goes on: a board size from 5 to 22, and two engines or more, and with
-- -sprt just two.
abbrev pub Checked : Parsed → Type 0
Checked parse_fuel = ⊥
Checked parse_dies = Unit
Checked parse_crashes = Unit
Checked (parsed o eo) =
    (leb_ℤ (pos 5) o.board_size ≡ true)
    × (leb_ℤ o.board_size (pos 22) ≡ true)
    × (2 ≤ length eo)
    × ((o.sprt ≡ false) ⊎ (length eo ≡ 2))

size_and_engines :
    (o : Options) (eo : List EngineOptions)
    → Admitted o
    → Checked (
        if ltb (length eo) 2
        then parse_dies
        else if ltb 2 (length eo) && o.sprt
        then parse_dies
        else parsed o eo)
size_and_engines o eo h = elim (Bool-cases (ltb (length eo) 2)) [
  | inl few ↦ rw few tt
  | inr enough ↦ elim (Bool-cases (ltb 2 (length eo) && o.sprt)) [
    | inl many ↦ rw (enough, many) tt
    | inr fits ↦
        rw (enough, fits)
          (ground arith, ground arith, ground arith, pair_or_not (length eo) o.sprt enough fits)
  ]
]
  where
    pair_or_not :
        (n : ℕ) (b : Bool) → ltb n 2 ≡ false → (ltb 2 n && b) ≡ false → (b ≡ false) ⊎ (n ≡ 2)
    pair_or_not n true e f = inr (ground arith)
    pair_or_not n false e f = inl refl

end_parse-Checked : (p : Parsing) → Admitted p.o → Checked (end_parse p)
unfolding end_parse
end_parse-Checked p h =
    size_and_engines p.o (if p.each_set then map (merge_each p.each) p.eo else p.eo) h

after_step :
    (fuel n : ℕ) (d : Doubles) (s : Step)
    → Fine n s
    → ((q : Parsing) (rest : List Text)
        → Admitted q.o
        → length rest ≤ n
        → Checked (parse_loop fuel d rest q))
    → Checked (elim s as (λ x. Parsed) [
      | step_dies ↦ parse_dies
      | step_crashes ↦ parse_crashes
      | step_next q rest ↦ parse_loop fuel d rest q
    ])
after_step fuel n d step_dies f more = tt
after_step fuel n d step_crashes f more = tt
after_step fuel n d (step_next q rest) f more = more q rest f.0 f.1

parse_loop-Checked :
    (fuel : ℕ) (d : Doubles) (ts : List Text) (p : Parsing)
    → length ts ≤ fuel
    → Admitted p.o
    → Checked (parse_loop fuel d ts p)
unfolding parse_loop
parse_loop-Checked zero d [] p l h = end_parse-Checked p h
parse_loop-Checked (suc fuel) d [] p l h = end_parse-Checked p h
parse_loop-Checked zero d (t ∷ ts) p l h = absurd (omega arith)
parse_loop-Checked (suc fuel) d (t ∷ ts) p l h = elim (Option-cases (find_flag flags t)) [
  | inl unknown ↦ rw (unknown, parse_loop) tt
  | inr (f, known) ↦
      rw (known, parse_loop)
        (after_step fuel (length ts) d (run_flag d f ts p) (run_flag-Fine d f ts p h)
          (λ q rest a fewer. parse_loop-Checked fuel d rest q (omega arith) a))
]

-- For every command line the parser ends: it dies, reads a null pointer behind the last argument,
-- or gives options, and then the board size is from 5 to 22 and there are two engines or more, and
-- with -sprt just two.
pub options_parse-Checked : (d : Doubles) (args : List Text) → Checked (options_parse d args)
unfolding options_parse
options_parse-Checked d args = parse_loop-Checked (length args) d args _ (omega arith) refl
