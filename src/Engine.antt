-- ===== src/Engine.antt =====
-- An engine's process and what the referee says to it (src/engine.h, src/engine.cpp: terminate,
-- readln, writeln, process_common_output, parse_thinking_message; the children have the rest). What
-- the process will write, with the time after each line, is a value, the feed; a feed ends when the
-- pipe does, by itself or because the main thread called the deadline's callback while the worker
-- waited for a line. A line has no byte 0. The log and the debug output are left out, and so are
-- the failures of system calls on which DIE_IF exits.
pub mod Waiting
pub mod Turns
pub mod Feeds
pub mod Start
pub mod Stops
pub mod Searches
pub mod Bestmove
pub mod Replies
pub mod Scores
pub mod About
pub mod Named
use c_gomoku_cli.Prelude.{
  ℕ, zero, suc, ◌+◌, ◌-◌, ◌/◌, ◌^◌, ◌==◌, leb, ltb, if◌then◌else◌, Bool, true, false, ◌&&◌, ◌||◌,
  not, List, [], ◌∷◌, ◌++◌, length, map, Option, none, some, ℤ, pos, negsuc, ◌+ℤ◌, ◌-ℤ◌, leb_ℤ,
  ltb_ℤ, codes,
}
use c_gomoku_cli.Text.{Text, is_valid_move_gomostr, show_int}
use c_gomoku_cli.Tokens.{string_prefix}
use c_gomoku_cli.Worker.{Worker, deadline_set, deadline_clear, deadline_callback_once}

-- What the process will write: a line, after which system_msec gives the time, or the end of the
-- pipe, where the process died or the main thread's watch came first.
pub data Feed : Type 0 where
  writes : Text → ℤ → Feed → Feed
  dies : Feed
  watched : Feed

-- The functions of the deadlines: terminate(true), and if (!fatalError) terminate(true).
pub data Callback : Type 0 where
  terminate_engine : Callback
  terminate_unless : Bool → Callback

-- struct Info.
pub record Info : Type 0 where
  pub score : ℤ
  pub depth : ℤ
  pub time : ℤ

-- class Engine. The pipes are open where `in` and `out` are not null; they are set and reset
-- together. `clock` is what system_msec gives next, `sent` the lines that were written.
pub record Engine : Type 0 where
  pub name : Text
  pub w : Worker Callback
  pub has_pipes : Bool
  pub messages : Option Text
  pub tolerance : ℤ
  pub pid : ℕ
  pub feed : Feed
  pub clock : ℤ
  pub sent : List Text

-- Engine::is_ok.
abbrev pub is_ok : Engine → Bool
is_ok e = not (e.pid == 0)

-- Engine::is_crashed.
abbrev pub is_crashed : Engine → Bool
is_crashed e = not (e.pid == 0) && not e.has_pipes

-- Closing the pipes, which flags that the engine died.
abbrev pub close_pipes : Engine → Engine
close_pipes e = record e { has_pipes = false }

-- Engine::terminate with force; the process is killed and its pipes are closed.
unfoldable pub terminate_force : Engine → Engine
terminate_force e = if e.pid == 0 then e else record e { has_pipes = false; pid = 0 }

abbrev pub run_terminate : Option Callback → Engine → Engine
unfolding terminate_force
run_terminate none e = e
run_terminate (some terminate_engine) e = terminate_force e
run_terminate (some (terminate_unless fatal_error)) e = if fatal_error then e else terminate_force e

-- The main thread calls the deadline's callback, on the worker and on the engine.
unfoldable pub watch : Engine → Engine
unfolding deadline_callback_once terminate_force
watch e =
    let called = record e { w = deadline_callback_once e.w } in
    if e.w.deadline.is_set && not e.w.deadline.called
    then run_terminate e.w.deadline.callback called
    else called

-- What Engine::readln gives: its result, the line and the engine.
pub record Reading : Type 0 where
  pub ok : Bool
  pub line : Text
  pub engine : Engine

-- if (pid) the pipes are closed, at the end of the pipe.
abbrev pub at_eof : Engine → Engine
at_eof e = if e.pid == 0 then e else close_pipes e

-- The line that string_getline finds in the feed; at the end of the pipe it is empty.
abbrev pub read_feed : Feed → Engine → Reading
unfolding watch
read_feed (writes text now more) e = record {
  ok = true;
  line = text;
  engine = record e { feed = more; clock = now };
}
read_feed dies e = record { ok = false; line = []; engine = at_eof e }
read_feed watched e = record { ok = false; line = []; engine = at_eof (watch e) }

-- Engine::readln.
unfoldable pub readln : Text → Engine → Reading
unfolding watch
readln line e =
    if e.has_pipes then read_feed e.feed e else record { ok = false; line = line; engine = e }

-- Engine::writeln, where `flushed` tells whether fflush succeeds.
unfoldable pub writeln : Text → Bool → Engine → Engine
writeln buf flushed e =
    if e.has_pipes then record e { sent = e.sent ++ buf ∷ []; has_pipes = flushed } else e

-- Engine::terminate without force, where waitpid returns at the time `now`.
unfoldable pub terminate : Bool → ℤ → Engine → Engine
unfolding writeln deadline_set deadline_clear
terminate flushed now e =
    let guarded = record e {
      w = deadline_set e.name (e.clock +ℤ e.tolerance) (codes "exit") none e.w;
    } in
    let told = writeln (codes "END") flushed guarded in
    if e.pid == 0
    then e
    else record told { w = deadline_clear told.w; has_pipes = false; pid = 0; clock = now }

-- enum OutputType.
pub data OutputType : Type 0 where
  ot_direct ot_unknown ot_error ot_message ot_debug ot_suggest : OutputType

-- The prefixes in the order of the tests.
abbrev pub prefixes : List (Text × OutputType)
prefixes =
    (codes "MESSAGE", ot_message)
    ∷ (codes "DEBUG", ot_debug)
    ∷ (codes "UNKNOWN", ot_unknown)
    ∷ (codes "ERROR", ot_error)
    ∷ (codes "SUGGEST", ot_suggest)
    ∷ []

-- if (strlen(tail) > 0) tail += 1.
abbrev pub skip_one : Text → Text
skip_one [] = []
skip_one (c ∷ cs) = cs

-- The chain of tests over the prefixes.
unfoldable pub first_prefix : List (Text × OutputType) → Text → OutputType × Text
first_prefix [] line = (ot_direct, line)
first_prefix ((p, type) ∷ ps) line = elim (string_prefix line p) [
  | some tail ↦ (type, skip_one tail)
  | none ↦ first_prefix ps line
]

-- Engine::process_common_output: the type of the line and the tail.
unfoldable pub process_common_output : Text → OutputType × Text
unfolding first_prefix string_prefix
process_common_output line = first_prefix prefixes line

-- Engine::parse_thinking_message.
abbrev pub parse_thinking_message : Text → Info → Info
parse_thinking_message line info = record info { score = pos 0; depth = pos 0 }

-- The lines of a feed.
unfoldable pub feed_length : Feed → ℕ
feed_length (writes text now more) = suc (feed_length more)
feed_length dies = 0
feed_length watched = 0

-- w->deadline_clear().
abbrev pub clear_deadline : Engine → Engine
unfolding deadline_clear
clear_deadline e = record e { w = deadline_clear e.w }
