-- ===== src/Exports.antt =====
-- The samples of a game as they are exported (src/game.cpp: export_samples_csv, export_samples_bin,
-- export_samples_binpack). An entry is the record of its bit fields and its lists; the bytes, and
-- LZ4 with its context, are left out, so a file is the list of the entries given to it.
pub mod Packs
pub mod Entries
pub mod Bins
use c_gomoku_cli.Prelude.{
  ℕ, zero, suc, ◌+◌, ◌-◌, ◌^◌, ◌%◌, ◌==◌, if◌then◌else◌, Bool, true, false, List, [], ◌∷◌, ◌++◌,
  length, map, Option, none, some, ℤ, pos, ltb, ◌>>=◌, for_below,
}
use c_gomoku_cli.Coord.{pos_raw, coord_x, coord_y, pos_from_move}
use c_gomoku_cli.Position.{Position}
use c_gomoku_cli.Text.{Text, opening_pos, comma, show_int, to_opening_str, move_to_opening_str}
use c_gomoku_cli.Game.{GameRule, gomoku_five_or_more, gomoku_exact_five, renju, Sample}

-- POS_RAW(CoordX(p), CoordY(p)).
unfoldable pub raw_pos : ℕ → ℕ
unfolding pos_raw coord_x coord_y
raw_pos p = pos_raw (coord_x p) (coord_y p)

-- The squares of `n` moves of the history, from the move `i` on.
unfoldable pub raws_from : Position → ℕ → ℕ → List ℕ
unfolding raw_pos pos_from_move
raws_from p i zero = []
raws_from p i (suc n) = raw_pos (pos_from_move (p.history_moves i)) ∷ raws_from p (i + 1) n

-- enum GameRule, as its bits in an entry.
abbrev pub rule_code : GameRule → ℕ
rule_code gomoku_five_or_more = 0
rule_code gomoku_exact_five = 1
rule_code renju = 4

-- Game::export_samples_csv: the lines.
unfoldable pub csv_line : Sample → Text
unfolding to_opening_str move_to_opening_str show_int
csv_line s =
    to_opening_str s.position opening_pos
    ++ (comma
        ∷ (move_to_opening_str s.position s.best_move opening_pos
            ++ (comma ∷ (show_int (pos s.result) ++ 10 ∷ []))))

unfoldable pub export_samples_csv : List Sample → List Text
unfolding csv_line
export_samples_csv samples = map csv_line samples

-- struct Entry of export_samples_bin.
pub record BinEntry : Type 0 where
  pub result : ℕ
  pub ply : ℕ
  pub boardsize : ℕ
  pub rule : ℕ
  pub best_move : ℕ
  pub position : List ℕ

-- The entry of a sample. The square of its move is taken with CoordX and CoordY from the move.
unfoldable pub bin_entry : GameRule → Sample → BinEntry
unfolding raws_from raw_pos
bin_entry rule s = record {
  result = s.result % 2 ^ 2;
  ply = s.position.move_count % 2 ^ 9;
  boardsize = s.position.board_size % 2 ^ 5;
  rule = rule_code rule % 2 ^ 3;
  best_move = raw_pos s.best_move % 2 ^ 13;
  position = raws_from s.position 0 s.position.move_count;
}

-- Game::export_samples_bin: the entries.
unfoldable pub export_samples_bin : GameRule → List Sample → List BinEntry
unfolding bin_entry
export_samples_bin rule samples = map (bin_entry rule) samples

-- struct Move of export_samples_binpack; isFirst, isLast and isNoEval are 1, the other flags 0.
pub record PackMove : Type 0 where
  pub square : ℕ
  pub eval : ℤ

-- struct EntryHead, with the two lists behind it.
pub record PackEntry : Type 0 where
  pub board_size : ℕ
  pub rule : ℕ
  pub result : ℕ
  pub total_ply : ℕ
  pub init_ply : ℕ
  pub game_tag : ℕ
  pub move_count : ℕ
  pub opening_position : List ℕ
  pub move_sequence : List PackMove

-- The locals head, openingPosition and moveSequence.
pub record Pack : Type 0 where
  pub board_size : ℕ
  pub rule : ℕ
  pub result : ℕ
  pub opening_position : List ℕ
  pub move_sequence : List PackMove

-- A loop of getFollowingMoveIndex over the squares `ms`; `none` is -1.
unfoldable pub following : Position → List ℕ → ℕ → Option ℕ
unfolding raw_pos pos_from_move
following p [] index = some index
following p (m ∷ ms) index =
    let rest = following p ms (index + 1) in
    if ltb index p.move_count
    then (if m == raw_pos (pos_from_move (p.history_moves index)) then rest else none)
    else none

-- getFollowingMoveIndex.
unfoldable pub get_following_move_index : Pack → Sample → Option ℕ
unfolding following
get_following_move_index k s = do
  index ← following s.position k.opening_position 0
  following s.position (map (λ m. m.square) k.move_sequence) index

-- flushEntry: what is written.
unfoldable pub flush_entry : Pack → PackEntry
flush_entry k = record {
  board_size = k.board_size;
  rule = k.rule;
  result = k.result;
  total_ply = (length k.move_sequence + length k.opening_position) % 2 ^ 10;
  init_ply = length k.opening_position % 2 ^ 10;
  game_tag = 0;
  move_count = length k.move_sequence % 2 ^ 18;
  opening_position = k.opening_position;
  move_sequence = k.move_sequence;
}

-- initEntry.
unfoldable pub init_entry : GameRule → Sample → Pack
unfolding raws_from
init_entry rule s = record {
  board_size = s.position.board_size % 2 ^ 5;
  rule = rule_code rule % 2 ^ 3;
  result = s.result % 2 ^ 4;
  opening_position = raws_from s.position 0 s.position.move_count;
  move_sequence = [];
}

-- The moves between the last sample and this one, with the evaluation `eval` of the first sample at
-- the last of them. A move has 10 bits.
abbrev pub between : ℤ → List ℕ → List PackMove
between eval [] = []
between eval (m ∷ []) = record { square = m % 2 ^ 10; eval = eval } ∷ []
between eval (m ∷ n ∷ ms) = record { square = m % 2 ^ 10; eval = pos 0 } ∷ between eval (n ∷ ms)

-- The moves that a sample adds from the index on.
unfoldable pub add_sample : ℤ → Sample → ℕ → Pack → Pack
unfolding raws_from raw_pos pos_from_move
add_sample first_eval s index k = record k {
  move_sequence =
      k.move_sequence
      ++ (between first_eval (raws_from s.position index (s.position.move_count - index))
          ++ record { square = raw_pos (pos_from_move s.best_move) % 2 ^ 10; eval = s.eval } ∷ []);
}

-- The loop over the samples: the locals, and the entries written.
unfoldable pub pack_samples :
    GameRule → ℤ → List Sample → Pack × List PackEntry → Pack × List PackEntry
unfolding get_following_move_index add_sample flush_entry init_entry
pack_samples rule first_eval [] k = k
pack_samples rule first_eval (s ∷ ss) (k, out) =
    pack_samples rule first_eval ss (elim (get_following_move_index k s) [
      | some index ↦ (add_sample first_eval s index k, out)
      | none ↦ (
        add_sample first_eval s s.position.move_count (init_entry rule s),
        out ++ flush_entry k ∷ [],
      )
    ])

-- The last flushEntry, if there are moves.
abbrev pub flush_last : Pack × List PackEntry → List PackEntry
unfolding flush_entry
flush_last (k, out) = elim k.move_sequence [ [] ↦ out | m ∷ ms ↦ out ++ flush_entry k ∷ [] ]

-- Game::export_samples_binpack: the entries.
unfoldable pub export_samples_binpack : GameRule → List Sample → List PackEntry
unfolding pack_samples init_entry flush_entry
export_samples_binpack rule [] = []
export_samples_binpack rule (s ∷ ss) =
    flush_last (pack_samples rule s.eval ss (init_entry rule s, []))
