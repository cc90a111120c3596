-- ===== src/Exports/Entries.antt =====
-- The entries of export_samples_binpack.
use c_gomoku_cli.Prelude.{ℕ, ◌⊎◌, List, [], ◌∷◌, ◌++◌, Option, none, some, ℤ}
use c_gomoku_cli.Game.{GameRule, Sample}
use c_gomoku_cli.Exports.{PackMove, PackEntry, Pack, flush_entry, init_entry, add_sample}
use c_gomoku_cli.Exports.Packs.{Holds}

abbrev pub Any : {A : Type 0} → (A → Type 0) → List A → Type 0
Any P [] = ⊥
Any P (x ∷ xs) = P x ⊎ Any P xs

-- An entry of the file holds the sample.
abbrev pub IsWritten : List PackEntry → Sample → Type 0
IsWritten out s = Any (λ (e : PackEntry). Holds e.opening_position e.move_sequence s) out

-- The sample is in the entry that grows, or was written.
abbrev IsKept : Pack × List PackEntry → Sample → Type 0
IsKept (k, out) s = Holds k.opening_position k.move_sequence s ⊎ IsWritten out s

-- A round of the loop, on the result of getFollowingMoveIndex.
abbrev pack_step : GameRule → ℤ → Sample → Pack × List PackEntry → Option ℕ → Pack × List PackEntry
pack_step rule eval s (k, out) (some index) = (add_sample eval s index k, out)
pack_step rule eval s (k, out) none =
    (add_sample eval s s.position.move_count (init_entry rule s), out ++ flush_entry k ∷ [])

-- The last flush, on the moves of the entry.
abbrev flush_if : Pack → List PackEntry → List PackMove → List PackEntry
flush_if k out [] = out
flush_if k out (m ∷ ms) = out ++ flush_entry k ∷ []
