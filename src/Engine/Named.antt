-- ===== src/Engine/Named.antt =====
-- An engine that was started has a name.
use c_gomoku_cli.Prelude.{
  ℕ, zero, suc, ◌<◌, ◌≡◌, inl, inr, refl, sym, ap, ◌∙◌, subst, Bool, true, false, Bool-cases, ◌||◌,
  List, [], ◌∷◌, ◌++◌, codes, none, ℤ, arith, ◌+ℤ◌, ◌⊎◌, inl, inr,
}
use c_gomoku_cli.Text.{Text}
use c_gomoku_cli.Worker.{deadline_set, deadline_clear}
use c_gomoku_cli.Engine.{
  Feed, writes, dies, watched, Engine, Reading, readln, writeln, feed_length, clear_deadline,
  process_common_output,
}
use c_gomoku_cli.Engine.Waiting.{text_eq}
use c_gomoku_cli.Engine.Feeds.{IsLine, readln-writes}
use c_gomoku_cli.Engine.About.{
  About, is_direct, is_empty, about_tokens, about_field, about_loop, parse_engine_about, AboutEnd,
  about_dies, about_line, skip_outputs, end_about, parse_about, or_name,
}

-- A token is not empty.
abbrev pub Full : Text → Type 0
Full t = is_empty t ≡ false

about_field-name :
    (t u : Text) (a : About) → Full a.engine_name → (about_field t u a).engine_name ≡ a.engine_name
unfolding about_field
about_field-name t u a h = elim (Bool-cases (text_eq t (codes "name"))) [
  | inl name ↦ rw (name, about_field) (rw h refl)
  | inr other ↦ elim (Bool-cases (text_eq t (codes "version"))) [
    | inl version ↦ rw (other, about_field, version) refl
    | inr more ↦ elim (Bool-cases (text_eq t (codes "author"))) [
      | inl author ↦ rw (other, about_field, more, author) refl
      | inr last ↦ elim (Bool-cases (text_eq t (codes "country"))) [
        | inl country ↦ rw (other, about_field, more, last, country) refl
        | inr none_of ↦ rw (other, about_field, more, last, none_of) refl
      ]
    ]
  ]
]

about_loop-name :
    (ts : List Text) (a : About)
    → Full a.engine_name
    → (about_loop ts a).engine_name ≡ a.engine_name
unfolding about_loop
about_loop-name [] a h = refl
about_loop-name (t ∷ []) a h = refl
about_loop-name (t ∷ u ∷ ts) a h =
    let same = about_field-name t u a h in
    about_loop-name (u ∷ ts) (about_field t u a) (ap is_empty same ∙ h) ∙ same

parse_engine_about-name :
    (line name : Text) → Full name → (parse_engine_about line name).engine_name ≡ name
unfolding parse_engine_about
parse_engine_about-name line name h =
    about_loop-name (about_tokens false [] line)
      (record {
        name = codes "?";
        author = codes "?";
        version = codes "?";
        country = codes "?";
        engine_name = name;
      })
      h

or_name-Full : (name fallback : Text) → Full fallback → Full (or_name name fallback)
or_name-Full [] fallback h = h
or_name-Full (c ∷ cs) fallback h = refl

or_name-kept : (name fallback : Text) → Full name → or_name name fallback ≡ name
or_name-kept [] fallback h = cc
or_name-kept (c ∷ cs) fallback h = refl

-- A line of the feed has none of the prefixes.
unfoldable pub has_direct : Feed → Bool
unfolding process_common_output
has_direct (writes text now more) = is_direct (process_common_output text).0 || has_direct more
has_direct dies = false
has_direct watched = false

-- How the loop of parse_about ends for an engine with this name.
data SkipEnds (name : Text) (f : Feed) : AboutEnd → Type 0 where
  skip_dies : has_direct f ≡ false → SkipEnds name f about_dies
  skip_line :
      (line : Text) (e : Engine)
      → IsLine line f
      → is_direct (process_common_output line).0 ≡ true
      → has_direct f ≡ true
      → e.name ≡ name
      → SkipEnds name f (about_line line e)

abbrev skip_round : ℕ → Reading → AboutEnd
skip_round fuel r = elim r.ok [
  | false ↦ about_dies
  | true ↦ elim (is_direct (process_common_output r.line).0) [
    | true ↦ about_line r.line r.engine
    | false ↦ skip_outputs fuel r.line r.engine
  ]
]

skip_outputs-round :
    (fuel : ℕ) (line : Text) (e : Engine)
    → skip_outputs (suc fuel) line e ≡ skip_round fuel (readln line e)
unfolding skip_outputs
skip_outputs-round fuel line e = refl

-- A round at a line.
abbrev skip_if : ℕ → Text → Engine → Bool → AboutEnd
skip_if fuel line e b = elim b [ true ↦ about_line line e | false ↦ skip_outputs fuel line e ]

SkipEnds-writes :
    (name text : Text) (now : ℤ) (more : Feed) (s : AboutEnd)
    → is_direct (process_common_output text).0 ≡ false
    → SkipEnds name more s
    → SkipEnds name (writes text now more) s
unfolding has_direct IsLine
SkipEnds-writes name text now more _ h (skip_dies d) = skip_dies (rw (h, has_direct) d)
SkipEnds-writes name text now more _ h (skip_line line e l d hd n) =
    skip_line line e (inr l) d (rw (h, has_direct) hd) n

skip_outputs-ends :
    (fuel : ℕ) (line : Text) (f : Feed) (e : Engine)
    → e.has_pipes ≡ true
    → e.feed ≡ f
    → feed_length f < fuel
    → SkipEnds e.name f (skip_outputs fuel line e)
unfolding feed_length has_direct readln skip_outputs IsLine
skip_outputs-ends zero line f e p ef h = absurd (omega arith)
skip_outputs-ends (suc fuel) line dies e p ef h = rw (p, ef, skip_outputs, readln) (skip_dies refl)
skip_outputs-ends (suc fuel) line watched e p ef h =
    rw (p, ef, skip_outputs, readln) (skip_dies refl)
skip_outputs-ends (suc fuel) line (writes text now more) e p ef h =
    let next = record e { feed = more; clock = now } in
    subst (SkipEnds e.name (writes text now more))
      (sym (
        skip_outputs-round fuel line e
        ∙ ap (skip_round fuel) (readln-writes line text now more e p ef)))
      (elim (Bool-cases (is_direct (process_common_output text).0)) [
        | inl direct ↦
            subst (λ b. SkipEnds e.name (writes text now more) (skip_if fuel text next b))
              (sym direct)
              (skip_line text next (inl refl) direct (rw (direct, has_direct) refl) refl)
        | inr other ↦
            subst (λ b. SkipEnds e.name (writes text now more) (skip_if fuel text next b))
              (sym other)
              (SkipEnds-writes e.name text now more _ other
                (skip_outputs-ends fuel text more next p refl (omega arith)))
      ])

-- How parse_about ends: by DIE, without a line that has none of the prefixes; or with such a line,
-- with the deadline cleared, and with a name, which is the engine's own if it had one.
pub data Abouts (e : Engine) : AboutEnd → Type 0 where
  no_line : has_direct e.feed ≡ false → Abouts e about_dies
  named :
      (line : Text) (after : Engine)
      → IsLine line e.feed
      → is_direct (process_common_output line).0 ≡ true
      → has_direct e.feed ≡ true
      → Full after.name
      → (is_empty e.name ≡ true) ⊎ (after.name ≡ e.name)
      → after.w.deadline.is_set ≡ false
      → Abouts e (about_line line after)

SkipEnds-Abouts :
    (fallback : Text) (e : Engine) (s : AboutEnd)
    → Full fallback
    → SkipEnds e.name e.feed s
    → Abouts e (end_about fallback s)
unfolding parse_engine_about deadline_clear
SkipEnds-Abouts fallback e _ h (skip_dies d) = no_line d
SkipEnds-Abouts fallback e _ h (skip_line line u l d hd n) =
    let own = (parse_engine_about line u.name).engine_name in
    named line (record (clear_deadline u) { name = or_name own fallback }) l d hd
      (or_name-Full own fallback h)
      (elim (Bool-cases (is_empty e.name)) [
        | inl empty ↦ inl empty
        | inr full ↦
            let kept : own ≡ u.name = parse_engine_about-name line u.name (ap is_empty n ∙ full) in
            inr (or_name-kept own fallback (ap is_empty (kept ∙ n) ∙ full) ∙ kept ∙ n)
      ])
      refl

-- Asking a running engine, which takes what is written to it, about itself ends whatever it writes
-- before its pipe ends. Without a line that has none of the prefixes the program dies; else it goes
-- on from such a line, with the deadline cleared, and the engine then has a name, as the fallback
-- is not empty; a name that it had before is kept.
pub parse_about-Abouts :
    (fallback : Text) (e : Engine)
    → Full fallback
    → e.has_pipes ≡ true
    → Abouts e (parse_about true fallback e)
unfolding parse_about writeln deadline_set
parse_about-Abouts fallback e h p =
    let asked = record e {
      w = deadline_set (or_name e.name fallback) (e.clock +ℤ e.tolerance) (codes "about") none e.w;
      has_pipes = true;
      sent = e.sent ++ codes "ABOUT" ∷ [];
    } in
    rw (p, parse_about, writeln)
      (SkipEnds-Abouts fallback (record e { has_pipes = true }) _ h
        (skip_outputs-ends (suc (feed_length e.feed)) [] e.feed asked refl refl (omega arith)))
