-- ===== src/SeqWriter.antt =====
-- The sequential writer (src/seqwriter.h, src/seqwriter.cpp): strings come with an index in any
-- order, and go to the file in the order of the indexes. The file is the list of the strings that
-- fputs was called with. The mutex makes each operation one step, so a history is a list of pushes.
-- Indexes are far below 2^64, so that `idxNext + i` does not wrap.
pub mod Buffer
pub mod Order
pub mod Complete
pub mod Close
use package.c_gomoku_cli.Prelude.{
  ℕ, zero, suc, ◌+◌, ltb, ◌==◌, if◌then◌else◌, List, [], ◌∷◌, ◌++◌, map, length, take, drop,
}

pub record SeqStr {ℓ} (A : Type ℓ) : Type ℓ where
  pub idx : ℕ
  pub str : A

pub record SeqWriter {ℓ} (A : Type ℓ) : Type ℓ where
  pub buf : List (SeqStr A)
  pub out : List A
  pub idx_next : ℕ

module _ {ℓ} {A : Type ℓ} where
  -- insert_sorted: before the first item with a greater index, as std::upper_bound finds it in the
  -- sorted buffer.
  unfoldable pub insert_sorted : SeqStr A → List (SeqStr A) → List (SeqStr A)
  insert_sorted x [] = x ∷ []
  insert_sorted x (y ∷ ys) = if ltb x.idx y.idx then x ∷ y ∷ ys else y ∷ insert_sorted x ys

  -- The loop of push: the length of the longest chunk at the head with the indexes n, n + 1, …
  unfoldable pub chunk : ℕ → List (SeqStr A) → ℕ
  chunk n [] = 0
  chunk n (x ∷ xs) = if x.idx == n then suc (chunk (n + 1) xs) else 0

  -- SeqWriter::SeqWriter.
  abbrev pub new : SeqWriter A
  new = record { buf = []; out = []; idx_next = 0 }

  -- SeqWriter::write_to_i.
  unfoldable pub write_to_i : ℕ → SeqWriter A → SeqWriter A
  write_to_i i w = record {
    buf = drop i w.buf;
    out = w.out ++ map (λ s. s.str) (take i w.buf);
    idx_next = w.idx_next + i;
  }

  -- SeqWriter::push.
  unfoldable pub push : ℕ → A → SeqWriter A → SeqWriter A
  unfolding insert_sorted chunk write_to_i
  push idx str w =
      let inserted = record w { buf = insert_sorted (record { idx = idx; str = str }) w.buf } in
      let i = chunk inserted.idx_next inserted.buf in
      if ltb 0 i then write_to_i i inserted else inserted

  -- SeqWriter::~SeqWriter.
  unfoldable pub close : SeqWriter A → SeqWriter A
  unfolding write_to_i
  close w = write_to_i (length w.buf) w
