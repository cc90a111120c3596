-- ===== src/Engine/About.antt =====
-- What an engine says about itself (src/engine.cpp: parse_and_display_engine_about, parse_about). The
-- line that is printed to the terminal is left out.
use c_gomoku_cli.Prelude.{
  ℕ, zero, suc, ◌==◌, if◌then◌else◌, Bool, true, false, not, ◌||◌, List, [], ◌∷◌, ◌++◌, codes, ◌+ℤ◌,
  none,
}
use c_gomoku_cli.Text.{Text}
use c_gomoku_cli.Worker.{deadline_set, deadline_clear}
use c_gomoku_cli.Engine.{
  Engine, OutputType, ot_direct, readln, writeln, feed_length, process_common_output,
  clear_deadline,
}
use c_gomoku_cli.Engine.Waiting.{text_eq}

-- A comma, a space or an equals sign.
abbrev pub is_separator : ℕ → Bool
is_separator c = c == 44 || (c == 32 || c == 61)

-- A token is kept if it is not empty.
abbrev pub add_token : Text → List Text → List Text
add_token [] ts = ts
add_token (c ∷ cs) ts = (c ∷ cs) ∷ ts

-- The tokens from here on. `flag` is set within quotes, `ss` is the token so far.
unfoldable pub about_tokens : Bool → Text → Text → List Text
about_tokens flag ss [] = add_token ss []
about_tokens flag ss (c ∷ cs) =
    let quoted = about_tokens (not flag) ss cs in
    let pushed = about_tokens flag (ss ++ c ∷ []) cs in
    let cut = add_token ss (about_tokens flag [] cs) in
    if c == 34 then quoted else if is_separator c then (if flag then pushed else cut) else pushed

-- The locals name, author, version and country, and the name of the engine.
pub record About : Type 0 where
  pub name : Text
  pub author : Text
  pub version : Text
  pub country : Text
  pub engine_name : Text

abbrev pub is_empty : Text → Bool
is_empty [] = true
is_empty (c ∷ cs) = false

-- The loop's body at a token with a token behind it.
unfoldable pub about_field : Text → Text → About → About
about_field key value a =
    if text_eq key (codes "name")
    then record a {
      name = value;
      engine_name = if is_empty a.engine_name then value else a.engine_name;
    }
    else if text_eq key (codes "version")
    then record a { version = value }
    else if text_eq key (codes "author")
    then record a { author = value }
    else if text_eq key (codes "country")
    then record a { country = value }
    else a

-- The loop over the tokens.
unfoldable pub about_loop : List Text → About → About
unfolding about_field
about_loop [] a = a
about_loop (t ∷ []) a = a
about_loop (t ∷ u ∷ ts) a = about_loop (u ∷ ts) (about_field t u a)

-- parse_and_display_engine_about: what is printed, and the name.
unfoldable pub parse_engine_about : Text → Text → About
unfolding about_tokens about_loop
parse_engine_about line engine_name = about_loop (about_tokens false [] line) (record {
  name = codes "?";
  author = codes "?";
  version = codes "?";
  country = codes "?";
  engine_name = engine_name;
})

-- How the loop of parse_about ends: without fuel, by DIE, or with a line.
pub data AboutEnd : Type 0 where
  about_fuel : AboutEnd
  about_dies : AboutEnd
  about_line : Text → Engine → AboutEnd

abbrev pub is_direct : OutputType → Bool
is_direct ot_direct = true
is_direct type = false

-- The loop of Engine::parse_about.
unfoldable pub skip_outputs : ℕ → Text → Engine → AboutEnd
unfolding readln process_common_output
skip_outputs zero line e = about_fuel
skip_outputs (suc fuel) line e =
    let r = readln line e in
    elim r.ok [
      | false ↦ about_dies
      | true ↦ elim (is_direct (process_common_output r.line).0) [
        | true ↦ about_line r.line r.engine
        | false ↦ skip_outputs fuel r.line r.engine
      ]
    ]

-- if (name.empty()) name = fallbackName.
abbrev pub or_name : Text → Text → Text
or_name name fallback = if is_empty name then fallback else name

-- Engine::parse_about on the line.
abbrev pub end_about : Text → AboutEnd → AboutEnd
unfolding parse_engine_about deadline_clear
end_about fallback about_fuel = about_fuel
end_about fallback about_dies = about_dies
end_about fallback (about_line line e) = about_line line (record (clear_deadline e) {
  name = or_name (parse_engine_about line e.name).engine_name fallback;
})

-- Engine::parse_about: the line and the engine, or DIE.
unfoldable pub parse_about : Bool → Text → Engine → AboutEnd
unfolding deadline_set writeln skip_outputs parse_engine_about feed_length deadline_clear
parse_about flushed fallback e =
    let asked = writeln (codes "ABOUT") flushed (record e {
      w = deadline_set (or_name e.name fallback) (e.clock +ℤ e.tolerance) (codes "about") none e.w;
    }) in
    end_about fallback (skip_outputs (suc (feed_length asked.feed)) [] asked)
