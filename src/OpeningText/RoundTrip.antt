-- ===== src/OpeningText/RoundTrip.antt =====
-- A printed opening is parsed to its squares.
use c_gomoku_cli.Prelude.{
  ℕ, zero, suc, ◌+◌, ◌/◌, ◌<◌, ◌≤◌, ◌≡◌, refl, ap, ◌∙◌, true, List, [], ◌∷◌, ◌++◌, All, length,
  Option, some, none, ℤ, pos, negsuc, arith, leb_ℤ, ◌&&◌, ◌+ℤ◌, ◌-ℤ◌, append_assoc, subst,
}
use c_gomoku_cli.Coord.{coord_x, coord_y}
use c_gomoku_cli.Coord.Cells.{cell, make_pos-cell, coord_x-cell, coord_y-cell}
use c_gomoku_cli.Position.{Position, is_in_board_xy}
use c_gomoku_cli.Position.Validity.{IsCell}
use c_gomoku_cli.Text.{Text, OpeningType, opening_offset, opening_pos, show_int, separator}
use c_gomoku_cli.Text.Numbers.{Fits, Stops}
use c_gomoku_cli.OpeningText.{
  offset_stream, pos_stream, square_of, offset_squares, pos_squares, parse_opening_offset_linestr,
  parse_opening_pos_linestr, parse_opening,
}
use c_gomoku_cli.OpeningText.Reads.{Reads, Reads-nil, Reads-space, Reads-show_int}
use c_gomoku_cli.OpeningText.Prints.{
  offset_stream-show_int, offset_stream-comma, offset_stream-space, pos_stream-show_int,
  pos_stream-letter, print_from,
}

-- The text has a stream of the ints, which may follow a number unless it is the first text.
record Streams (streams : Text → Option Text) (i : ℕ) (t : Text) (ns : List ℤ) : Type 0 where
  pub stream : Text
  pub streamed : streams t ≡ some stream
  pub reads : Reads stream ns
  pub stops : 0 < i → Stops stream

abbrev pub Cells : Position → List ℕ → Type 0
Cells p = All (IsCell p.board_size)

module _ (p : Position) (small : p.board_size ≤ 22) where
  square_of-cell :
      (x y : ℕ)
      → x < p.board_size
      → y < p.board_size
      → square_of p (pos x) (pos y) ≡ some (cell x y)
  unfolding square_of is_in_board_xy
  square_of-cell x y hx hy = rw (make_pos-cell x y (omega arith) (omega arith)) (ground arith)

  -- The ints that the offset of a square is printed as.
  abbrev half : ℕ
  half = p.board_size / 2

  offset_of : (x h : ℕ) → x < p.board_size → h ≡ half → (pos x -ℤ pos h) +ℤ pos h ≡ pos x
  offset_of x h hx e = ground arith

  offset_small :
      (x h : ℕ)
      → x < p.board_size
      → h ≡ half
      → (leb_ℤ (negsuc 15) (pos x -ℤ pos h) && leb_ℤ (pos x -ℤ pos h) (pos 15)) ≡ true
  offset_small x h hx e = ground arith

  offset-Fits : (x h : ℕ) → x < p.board_size → h ≡ half → Fits (pos x -ℤ pos h)
  offset-Fits x h hx e = ground arith

  offset_pair :
      (a b : ℤ) (i : ℕ) (t : Text) (ns : List ℤ)
      → Fits a
      → Fits b
      → Streams offset_stream (suc i) t ns
      → Streams offset_stream 0 ((show_int a ++ 44 ∷ show_int b) ++ t) (a ∷ b ∷ ns)
  offset_pair a b i t ns fa fb h =
      let inner = show_int b ++ h.stream in
      record {
        stream = show_int a ++ 32 ∷ inner;
        streamed =
            ap offset_stream (append_assoc (show_int a) (44 ∷ show_int b) t)
            ∙ offset_stream-show_int a (44 ∷ (show_int b ++ t)) (32 ∷ inner) (
                offset_stream-comma (show_int b ++ t) inner
                  (offset_stream-show_int b t h.stream h.streamed));
        reads = Reads-show_int a (32 ∷ inner) (b ∷ ns) fa refl (
            Reads-space inner (b ∷ ns)
              (Reads-show_int b h.stream ns fb (h.stops (omega arith)) h.reads));
        stops = λ z. absurd (omega arith);
      }

  offset_separated :
      (i : ℕ) (t : Text) (ns : List ℤ)
      → Streams offset_stream 0 t ns
      → Streams offset_stream i (separator opening_offset i ++ t) ns
  offset_separated zero t ns h = h
  offset_separated (suc i) t ns h = record {
    stream = 32 ∷ 32 ∷ h.stream;
    streamed =
        offset_stream-comma (32 ∷ t) (32 ∷ h.stream) (offset_stream-space t h.stream h.streamed);
    reads = Reads-space (32 ∷ h.stream) ns (Reads-space h.stream ns h.reads);
    stops = λ z. refl;
  }

  abbrev offset_ints : List ℕ → List ℤ
  unfolding coord_x coord_y
  offset_ints [] = []
  offset_ints (q ∷ qs) = (coord_x q -ℤ pos half) ∷ (coord_y q -ℤ pos half) ∷ offset_ints qs

  offset-Streams :
      (i : ℕ) (qs : List ℕ)
      → Cells p qs
      → Streams offset_stream i (print_from p opening_offset i qs) (offset_ints qs)
  unfolding print_from offset_ints offset_stream
  offset-Streams i [] a = record {
    stream = [];
    streamed = refl;
    reads = Reads-nil;
    stops = λ h. tt;
  }
  offset-Streams i (q ∷ qs) ((x, y, hx, hy, e), a) =
      rw (e, coord_x-cell x y (omega arith), coord_y-cell x y (omega arith))
        (offset_separated i _ _ (
          offset_pair (pos x -ℤ pos half) (pos y -ℤ pos half) i _ _ (offset-Fits x half hx refl)
            (offset-Fits y half hy refl) (offset-Streams (suc i) qs a)))

  offset_squares-ints :
      (qs : List ℕ) → Cells p qs → offset_squares p (pos half) none (offset_ints qs) ≡ some qs
  unfolding offset_squares offset_ints
  offset_squares-ints [] a = refl
  offset_squares-ints (q ∷ qs) ((x, y, hx, hy, e), a) =
      rw
        (
          e,
          coord_x-cell x y (omega arith),
          coord_y-cell x y (omega arith),
          offset_squares,
          offset_small x half hx refl,
          offset_small y half hy refl,
          offset_of x half hx refl,
          offset_of y half hy refl,
          square_of-cell x y hx hy,
          offset_squares-ints qs a,
        )
        refl

  -- The pos format.
  pos_separated :
      (x y i : ℕ) (t : Text) (ns : List ℤ)
      → x < 22
      → y < 22
      → Streams pos_stream (suc i) t ns
      → Streams pos_stream i ((x + 97) ∷ (show_int (pos (y + 1)) ++ t)) (pos x ∷ pos (y + 1) ∷ ns)
  pos_separated x y i t ns hx hy h =
      let inner = show_int (pos (y + 1)) ++ h.stream in
      record {
        stream = 32 ∷ show_int (pos x) ++ 32 ∷ inner;
        streamed =
            pos_stream-letter x (show_int (pos (y + 1)) ++ t) inner (omega arith)
              (pos_stream-show_int (y + 1) t h.stream h.streamed);
        reads = Reads-space (show_int (pos x) ++ 32 ∷ inner) (pos x ∷ pos (y + 1) ∷ ns) (
            Reads-show_int (pos x) (32 ∷ inner) (pos (y + 1) ∷ ns) (omega arith) refl (
              Reads-space inner (pos (y + 1) ∷ ns) (
                Reads-show_int (pos (y + 1)) h.stream ns (omega arith) (h.stops (omega arith))
                  h.reads)));
        stops = λ z. refl;
      }

  pos_printed :
      (x y i letter : ℕ) (z : ℤ) (t : Text) (ns : List ℤ)
      → x < 22
      → y < 22
      → x + 97 ≡ letter
      → pos (y + 1) ≡ z
      → Streams pos_stream (suc i) t ns
      → Streams pos_stream i (letter ∷ (show_int z ++ t)) (pos x ∷ z ∷ ns)
  pos_printed x y i letter z t ns hx hy el ez h =
      subst (λ l. Streams pos_stream i (l ∷ (show_int z ++ t)) (pos x ∷ z ∷ ns)) el
        (subst (λ w. Streams pos_stream i ((x + 97) ∷ (show_int w ++ t)) (pos x ∷ w ∷ ns)) ez
          (pos_separated x y i t ns hx hy h))

  abbrev pos_ints : List ℕ → List ℤ
  unfolding coord_x coord_y
  pos_ints [] = []
  pos_ints (q ∷ qs) = coord_x q ∷ (coord_y q +ℤ pos 1) ∷ pos_ints qs

  pos-Streams :
      (i : ℕ) (qs : List ℕ)
      → Cells p qs
      → Streams pos_stream i (print_from p opening_pos i qs) (pos_ints qs)
  unfolding print_from pos_ints pos_stream
  pos-Streams i [] a = record { stream = []; streamed = refl; reads = Reads-nil; stops = λ h. tt }
  pos-Streams i (q ∷ qs) ((x, y, hx, hy, e), a) =
      rw (e, coord_x-cell x y (omega arith), coord_y-cell x y (omega arith))
        (no_separator i _ (
          pos_printed x y i _ _ _ _ (omega arith) (omega arith) (ground arith) (ground arith)
            (pos-Streams (suc i) qs a)))
    where
      no_separator :
          (i : ℕ) (t : Text) {ns : List ℤ}
          → Streams pos_stream i t ns
          → Streams pos_stream i (separator opening_pos i ++ t) ns
      no_separator zero t h = h
      no_separator (suc i) t h = h

  pos_squares-ints : (qs : List ℕ) → Cells p qs → pos_squares p none (pos_ints qs) ≡ some qs
  unfolding pos_squares pos_ints
  pos_squares-ints [] a = refl
  pos_squares-ints (q ∷ qs) ((x, y, hx, hy, e), a) =
      rw
        (
          e,
          coord_x-cell x y (omega arith),
          coord_y-cell x y (omega arith),
          pos_squares,
          back y,
          square_of-cell x y hx hy,
          pos_squares-ints qs a,
        )
        refl
    where
      back : (y : ℕ) → (pos y +ℤ pos 1) -ℤ pos 1 ≡ pos y
      back y = ground arith

  -- The parsers give back the squares that were printed.
  pub parse_opening-print_from :
      (type : OpeningType) (qs : List ℕ)
      → Cells p qs
      → parse_opening p (print_from p type 0 qs) type ≡ some qs
  unfolding parse_opening parse_opening_offset_linestr parse_opening_pos_linestr
  parse_opening-print_from opening_offset qs a =
      let s = offset-Streams 0 qs a in
      rw (s.streamed, s.reads (length s.stream) (omega arith)) (offset_squares-ints qs a)
  parse_opening-print_from opening_pos qs a =
      let s = pos-Streams 0 qs a in
      rw (s.streamed, s.reads (length s.stream) (omega arith)) (pos_squares-ints qs a)
