-- ===== src/Tests/Queues.antt =====
-- Small tournaments, and pushes out of order.
use c_gomoku_cli.Prelude.{
  map, codes, ◌++◌, ◌++◌, drop, ◌/◌, ◌<◌, ℕ, ◌+◌, ◌*◌, ◌≡◌, ◌≢◌, ◌⊎◌, ◌↔◌, refl, true, false, List,
  [], ◌∷◌, length, get_elem?, some, none, arith,
}
use c_gomoku_cli.Text.{Text}
use c_gomoku_cli.Tokens.{string_tok, string_prefix}
use c_gomoku_cli.Tokens.Parts.{Delims, NoDelims, Starts, string_tok-parts, string_prefix_iff}
use c_gomoku_cli.Openings.Index.{line_at, lines_of, line_index-lines_of}
use c_gomoku_cli.Openings.{line_index, Openings, read_line, randomize, next}
use c_gomoku_cli.Openings.Shuffle.{next-randomize}
use c_gomoku_cli.SeqWriter
use c_gomoku_cli.SeqWriter.{SeqWriter}
use c_gomoku_cli.SeqWriter.Order.{strs_from}
use c_gomoku_cli.SeqWriter.Complete.{In, Distinct, push_all, push_all_complete}
use c_gomoku_cli.SeqWriter.Close.{strs, Increasing, close_complete}
use c_gomoku_cli.JobQueue
use c_gomoku_cli.JobQueue.{Job, JobQueue, Result, bump, pop, add_result, done, stop}
use c_gomoku_cli.JobQueue.Pairs.{fresh_result}
use c_gomoku_cli.JobQueue.Visits.{IsPairing}
use c_gomoku_cli.JobQueue.Schedule.{JobAt}
use c_gomoku_cli.JobQueue.Rounds.{IsFresh, new_schedule}
use c_gomoku_cli.JobQueue.Histories.{
  Ticket, History, begins, hands, halts, Handed, tickets_in_order,
}
use c_gomoku_cli.JobQueue.Results.{Counted, Inv, pops, sum_total, pop_lem, add_result_lem, Step-Inv}

-- The string of an index.
abbrev label : ℕ → ℕ
label i = i + 100

abbrev arrivals : List ℕ
arrivals = 2 ∷ 0 ∷ 1 ∷ []

arrivals-Distinct : Distinct arrivals
arrivals-Distinct = omega arith

push_all_complete_example :
    ((push_all label SeqWriter.new arrivals).out ≡ strs_from label 0 3)
    × ((push_all label SeqWriter.new arrivals).buf ≡ [])
push_all_complete_example =
    push_all_complete label 3 arrivals arrivals-Distinct (λ i. (λ h. omega arith, λ h. omega arith))

close_complete_example :
    (js : List ℕ) × ((SeqWriter.close (push_all label SeqWriter.new (4 ∷ 0 ∷ []))).out
      ≡ strs label js)
    × Increasing label 0 js
    × ((i : ℕ) → In i js ↔ In i (4 ∷ 0 ∷ []))
close_complete_example = close_complete label (4 ∷ 0 ∷ []) (omega arith)

abbrev gauntlet : JobQueue
gauntlet = JobQueue.new 3 2 2 true

new_schedule_example :
    let q = JobQueue.new 3 2 2 false in
    (ps : List (ℕ × ℕ)) × IsPairing 3 false ps
    × (length q.results ≡ length ps)
    × (length q.jobs ≡ 2 * (length ps * 2))
    × ((k : ℕ) (j : Job)
        → get_elem? q.jobs k ≡ some j
        → JobAt ps 2 k j
          × ((r : Result) × (get_elem? q.results j.pair ≡ some r) × IsFresh r (j.e1, j.e2)))
new_schedule_example = new_schedule 3 2 2 false

first_result : Result
first_result = fresh_result (0, 1)

gauntlet-Inv : Inv gauntlet
unfolding JobQueue.new sum_total
gauntlet-Inv = omega arith

pop_lem_example :
    ((done gauntlet ≡ true) × ((pop gauntlet).0 ≡ none) × ((pop gauntlet).1 ≡ gauntlet))
    ⊎ ((j : Job) × (done gauntlet ≡ false)
        × (get_elem? gauntlet.jobs gauntlet.idx ≡ some j)
        × ((pop gauntlet).0 ≡ some (j, gauntlet.idx, length gauntlet.jobs))
        × ((pop gauntlet).1 ≡ record gauntlet { idx = gauntlet.idx + 1 }))
pop_lem_example = pop_lem gauntlet gauntlet-Inv

first_found : get_elem? gauntlet.results 0 ≡ some first_result
unfolding JobQueue.new first_result
first_found = refl

add_result_lem_example :
    (q' : JobQueue) × (s : Result) × (add_result 0 2 gauntlet ≡ some (s.count, q'))
    × Counted 2 first_result s
    × (get_elem? q'.results 0 ≡ some s)
    × ((other : ℕ) → other ≢ 0 → get_elem? q'.results other ≡ get_elem? gauntlet.results other)
    × (sum_total q'.results ≡ sum_total gauntlet.results + 1)
    × (q'.completed ≡ gauntlet.completed + 1)
    × (q'.jobs ≡ gauntlet.jobs)
    × (q'.idx ≡ gauntlet.idx)
add_result_lem_example = add_result_lem gauntlet 0 2 first_result (omega arith) first_found

Step-Inv_example : Inv (pop gauntlet).1
Step-Inv_example = Step-Inv pops gauntlet-Inv

abbrev first_ticket : Ticket
first_ticket = (record { e1 = 0; e2 = 1; pair = 0; round = 0; game = 0; reverse = false }, 0, 8)

first_handed : (pop gauntlet).0 ≡ some first_ticket
unfolding JobQueue.new JobQueue.pop
first_handed = refl

-- The first job, a win, and a stop.
one_game : History gauntlet (first_ticket ∷ []) true (stop (pop gauntlet).1)
one_game = halts (hands first_ticket begins first_handed)

tickets_in_order_example :
    let r = stop (pop gauntlet).1 in
    Handed gauntlet (first_ticket ∷ []) true r
    × (done r ≡ true → true ≡ false → gauntlet.idx + 1 ≡ length gauntlet.jobs)
    × (true ≡ true → (done r ≡ true) × ((pop r).0 ≡ none))
tickets_in_order_example =
    tickets_in_order gauntlet (first_ticket ∷ []) true (stop (pop gauntlet).1)
      (gauntlet-Inv.in_range) one_game

-- Two lines, "a" and "b".
abbrev two_lines : Openings
two_lines = record { file = 97 ∷ 10 ∷ 98 ∷ 10 ∷ []; index = λ k. k * 2; size = 2 }

next-randomize_example :
    ((round k : ℕ)
      → k < 2
      → (idx : ℕ) × (next (randomize 5 two_lines) idx
          ≡ ((read_line (drop (k * 2) two_lines.file)).out, round)))
    × ((idx : ℕ)
        → (k : ℕ) × (k < 2)
          × (next (randomize 5 two_lines) idx
              ≡ ((read_line (drop (k * 2) two_lines.file)).out, idx / 2)))
next-randomize_example = next-randomize 5 two_lines (omega arith)

-- "=a=b" cut at "=".
string_tok-parts_example :
    let r = string_tok [] (some (61 ∷ 97 ∷ 61 ∷ 98 ∷ [])) (61 ∷ []) in
    (before : Text) × (tail : Text) × (61 ∷ 97 ∷ 61 ∷ 98 ∷ [] ≡ before ++ (r.0 ++ tail))
    × Delims (61 ∷ []) before
    × NoDelims (61 ∷ []) r.0
    × Starts (61 ∷ []) true tail
    × ((r.0 ≡ []) ↔ (r.1 ≡ none))
    × ((r.1 ≡ none) ⊎ (r.1 ≡ some tail))
string_tok-parts_example = string_tok-parts [] (61 ∷ 97 ∷ 61 ∷ 98 ∷ []) (61 ∷ [])

abbrev ok_text : Text
ok_text = 79 ∷ 75 ∷ []

abbrev o_text : Text
o_text = 79 ∷ []

abbrev k_text : Text
k_text = 75 ∷ []

-- "OK" before "O".
string_prefix_iff_example :
    (string_prefix ok_text o_text ≡ some k_text) ↔ (ok_text ≡ o_text ++ k_text)
string_prefix_iff_example = string_prefix_iff ok_text o_text k_text

-- Two lines, the second without a line feed.
line_index-lines_of_example :
    map
      (line_at (codes "h8i9" ++ 13 ∷ 10 ∷ codes "a1"))
      (line_index (codes "h8i9" ++ 13 ∷ 10 ∷ codes "a1"))
    ≡ lines_of [] (codes "h8i9" ++ 13 ∷ 10 ∷ codes "a1")
line_index-lines_of_example = line_index-lines_of (codes "h8i9" ++ 13 ∷ 10 ∷ codes "a1")
