-- ===== src/Lib.antt =====
-- A model of c-gomoku-cli, which plays matches between Gomocup engines (src/ of the repository).
--
-- The program reads a list of engines and a schedule, starts threads that each take a game from the
-- job queue, play it between two engine processes, and report the result; the records of the games go
-- through sequential writers to files, in the order of the games.
--
-- * Coord models the packing of squares and moves into integers of src/position.h (POS, CoordX,
--   CoordY, PosFromMove, ColorFromMove) and of src/position.cpp (buildMove, buildMovePos, transformPos).
-- * Position models the class Position: the board as a function of the array's index, the move
--   history, initBoard, move, undo, is_legal_move, transform. Position.Validity has the invariants:
--   IsValid is a square of empty cells and stones inside walls, Replays says that the stones are those
--   of the history.
-- * Five models check_five_in_line_side and check_five_in_line_lastmove with their four loops. The two
--   while loops have fuel 32, the length of the array's lines; a line inside the walls is shorter.
-- * Renju models the forbidden points: isForbidden and the tests under it, which place a stone and
--   take it off again, so that the board is threaded through them. isDoubleThree recurs through
--   isOpenThree with one stone more each time; its fuel is one more than the array's 1024 entries.
--   Renju.Fives and Renju.Rule describe rows of stones in the coordinates of the board.
-- * Text models gomostr_to_move, is_valid_move_gomostr, move_to_gomostr, move_to_opening_str and
--   to_opening_str of src/position.cpp on lists of bytes, with strtol and stoi of the standards.
-- * OpeningText models the parsers of openings and apply_opening of src/position.cpp, and load_opening
--   of src/game.cpp. A stringstream is the text put into it; the loop over its ints has a round for
--   each byte at most.
-- * Engine models src/engine.cpp over a feed, the value of what the process will write and when, which
--   ends as the pipe does: by the process, or by the main thread's callback of the deadline. Engine has
--   readln, writeln, terminate and process_common_output, Engine.Waiting wait_for_ok, Engine.Turns
--   bestmove, Engine.About parse_about, and Engine.Replies the call of bestmove in Game::play, which
--   gives Game its Reply. The loops have one round more than the feed has lines.
-- * Game models game_apply_rules, compute_time_left, send_board_command, the loop of Game::play with
--   its results, and decode_state of src/game.cpp. The rules of an iteration are one function each,
--   in the order of the source, which return whether the loop breaks or goes on. What
--   Engine::bestmove brings back, and whether prngf draws a sample, are parameters, given for each
--   ply. The loop's fuel is one more than the empty cells of the board. An exit of DIE_OR_ERR under
--   -fatalerror is an end of the loop of its own. The lines sent to the engines are values; the
--   dialogue before the loop, the search information of a move and the printing are not modelled.
-- * Worker models the deadline of src/workers.cpp, and Worker.Watch the main thread's loop over the
--   deadlines in src/main.cpp; its callback is a value, and the callbacks that
--   have run are a list. The log and system_msec are not modelled: a time is an argument.
-- * Exports models export_samples_csv, export_samples_bin and export_samples_binpack of src/game.cpp,
--   with an entry as the record of its bit fields and lists.
-- * Commands models engine_parse_cmd of src/engine.cpp with string_tok_esc of src/util.cpp. A read
--   outside a string, or through a null pointer, is `none`.
-- * Arguments models options_parse of src/options.cpp with the parsers under it. What the program makes
--   of a double is a parameter; the loop has a round for each argument. atoi takes the lower 32 bits of
--   the number clamped to 64, where the C standard leaves a number outside of int undefined.
-- * SeqWriter models src/seqwriter.cpp on a list of the strings given to fputs.
-- * Openings models the index of the lines, the shuffle and next of src/openings.cpp, with
--   string_getline and prng of src/util.cpp, on a file as its bytes.
-- * Tokens models string_tok and string_prefix of src/util.cpp.
-- * JobQueue models src/jobs.cpp: the constructor and each operation; print_results is left out.
--   JobQueue.Visits describes the pairs of engines, and JobQueue.Histories the orders of operations.
--
-- A mutex makes the operation under it one step, so a history is a list or a relation of steps. The
-- program is built with NDEBUG, so the assertions of the source do nothing. Coordinates and moves
-- wrap as the source's uint8_t and uint16_t do; a count of games, a score or a time is a number without
-- bounds. An array is a function of its index: an index below 0 stops at 0, and no theorem rests on
-- such a read, since its cells lie five cells and more inside the array.
--
-- Not modelled: spawn and start of src/engine.cpp, export_pgn and export_sgf of src/game.cpp,
-- options_print of src/options.cpp, the threads of src/main.cpp, and the floating-point statistics of src/sprt.cpp. src/extern is a copy of the LZ4 and
-- xxHash libraries.
--
-- Prelude has the names that the modules share, and Tests the theorems at concrete inputs.
pub mod Prelude
pub mod Coord
pub mod Position
pub mod Engine
pub mod Five
pub mod Renju
pub mod Text
pub mod OpeningText
pub mod Game
pub mod Exports
pub mod Commands
pub mod Arguments
pub mod Worker
pub mod Openings
pub mod Tokens
pub mod SeqWriter
pub mod JobQueue
pub mod Tests
