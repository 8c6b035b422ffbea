-- ===== src/Connect/Again.antt =====
-- internal/connect/writers.go: `writeCodexTOML`, once and again.
use dk_agent_memory.Connect.Json.{Disk, or_empty}
use dk_agent_memory.Connect.Repeat.{unchanged, replaced_file-path}
use dk_agent_memory.Connect.Codex.{
  newline, Split, not_found, found_section, split_lines, joined_split, split_codex_section,
  trim_newlines_left, trim_newlines_right, closed_by, codex_section, placed, with_codex_section,
  write_codex_toml,
}
use dk_agent_memory.Connect.Lines.{split_on-append, OneLine, OneLine-split_on, split_on-join}
use dk_agent_memory.Connect.Trims.{
  trim_newlines_right_twice, trim_newlines_right-rest, trim_space-newlines,
}
use dk_agent_memory.Connect.Headers.{opens, NoHeader, FromHeader, Found, split_lines-Found}
use dk_agent_memory.Connect.Section.{
  IsTail, IsWritten, join_nothing, split_on-nothing, blank_unknown, blank_closed,
  with_codex_section_again,
}
use dk_agent_memory.Base.{
  ◌≡◌, refl, sym, ap, ◌∙◌, ◌≢◌, inl, inr, true, false, List, [], ◌∷◌, ◌++◌, append_assoc,
  append-nil, Bool-cases, All, Text, text_eq, text_eq_refl, is_empty, trim_space, join, split_on,
}

NoHeader-first : (xs ys : List Text) → NoHeader (xs ++ ys) → NoHeader xs
NoHeader-first [] ys h = tt
NoHeader-first (x ∷ xs) ys (p, h) = (p, NoHeader-first xs ys h)

-- Trimming takes away lines at the end.
trimmed-NoHeader :
    (s : Text) → NoHeader (split_on newline s) → NoHeader (split_on newline (trim_newlines_right s))
trimmed-NoHeader s h = elim (trim_newlines_right-rest s) [
  | inl e ↦ rw e h
  | inr (r, e) ↦
      let lines = ap (split_on newline) e ∙ split_on-append (trim_newlines_right s) r in
      NoHeader-first (split_on newline (trim_newlines_right s)) (split_on newline r) (rw lines at h)
]

joined-NoHeader :
    (ls : List Text)
    → All OneLine ls
    → NoHeader ls
    → NoHeader (split_on newline (join (newline ∷ []) ls))
joined-NoHeader [] one h = rw (join_nothing, split_on-nothing) (blank_unknown, tt)
joined-NoHeader (l ∷ ls) one h = rw (split_on-join l ls one) h

first_kept :
    (l : Text) (ls : List Text)
    → OneLine l
    → opens l ≡ true
    → trim_newlines_left (join (newline ∷ []) (l ∷ ls)) ≡ join (newline ∷ []) (l ∷ ls)
unfolding trim_newlines_left join
first_kept [] ls one h = absurd (cc blank_closed)
first_kept (c ∷ l) [] (e, one) h = rw e refl
first_kept (c ∷ l) (m ∷ ls) (e, one) h = rw e refl

tail_trimmed :
    (ls : List Text)
    → All OneLine ls
    → FromHeader ls
    → trim_newlines_left (join (newline ∷ []) ls) ≡ join (newline ∷ []) ls
unfolding trim_newlines_left
tail_trimmed [] one h = rw join_nothing refl
tail_trimmed (l ∷ ls) (o, one) h = first_kept l ls o h

IsTail-join : (ls : List Text) → All OneLine ls → FromHeader ls → IsTail (join (newline ∷ []) ls)
IsTail-join ls one h = record {
  lines = ls;
  text = refl;
  from = h;
  one = one;
  trimmed = tail_trimmed ls one h;
}

IsTail-nothing : IsTail []
unfolding join trim_newlines_left
IsTail-nothing = record { lines = []; text = refl; from = tt; one = tt; trimmed = refl }

nothing_trimmed : trim_newlines_right [] ≡ []
unfolding trim_newlines_right trim_newlines_left
nothing_trimmed = refl

IsWritten-bare : (quoted : Text) → IsWritten quoted (codex_section quoted)
IsWritten-bare quoted = record {
  before = [];
  after = [];
  text = sym (append-nil (codex_section quoted));
  headless = rw split_on-nothing (blank_unknown, tt);
  ended = nothing_trimmed;
  behind = IsTail-nothing;
}

closed-section :
    (b section : Text)
    → b ≢ []
    → b ++ (newline ∷ newline ∷ section) ≡ closed_by b (newline ∷ newline ∷ []) ++ (section ++ [])
closed-section [] section h = absurd (h refl)
closed-section (c ∷ b) section h =
    rw (append-nil section, append_assoc (c ∷ b) (newline ∷ newline ∷ []) section) refl

IsWritten-appended :
    (quoted s : Text)
    → NoHeader (split_on newline s)
    → is_empty (trim_space s) ≡ false
    → IsWritten quoted (trim_newlines_right s ++ (newline ∷ newline ∷ codex_section quoted))
IsWritten-appended quoted s h full = record {
  before = trim_newlines_right s;
  after = [];
  text =
      closed-section (trim_newlines_right s) (codex_section quoted)
        (λ e. let blank = trim_space-newlines s e in cc);
  headless = trimmed-NoHeader s h;
  ended = trim_newlines_right_twice s;
  behind = IsTail-nothing;
}

IsWritten-placed :
    (quoted s : Text) (sp : Split)
    → Found (split_on newline s) sp
    → IsWritten quoted (placed s (codex_section quoted) (joined_split sp))
IsWritten-placed quoted s not_found h = elim (Bool-cases (is_empty (trim_space s))) [
  | inl e ↦ rw e (IsWritten-bare quoted)
  | inr e ↦ rw e (IsWritten-appended quoted s h e)
]
IsWritten-placed quoted s (found_section before after) (n, o, f, o') = record {
  before = trim_newlines_right (join (newline ∷ []) before);
  after = join (newline ∷ []) after;
  text = rw (tail_trimmed after o' f) refl;
  headless = trimmed-NoHeader (join (newline ∷ []) before) (joined-NoHeader before o n);
  ended = trim_newlines_right_twice (join (newline ∷ []) before);
  behind = IsTail-join after o' f;
}

with_codex_section-IsWritten :
    (quoted s : Text) → IsWritten quoted (with_codex_section (codex_section quoted) s)
unfolding with_codex_section split_codex_section
with_codex_section-IsWritten quoted s =
    IsWritten-placed quoted s (split_lines (split_on newline s))
      (split_lines-Found (split_on newline s) (OneLine-split_on s))

with_codex_section_twice :
    (quoted s : Text)
    → OneLine quoted
    → with_codex_section (codex_section quoted) (with_codex_section (codex_section quoted) s)
      ≡ with_codex_section (codex_section quoted) s
with_codex_section_twice quoted s one =
    with_codex_section_again quoted (with_codex_section (codex_section quoted) s) one
      (with_codex_section-IsWritten quoted s)

-- To write dkm's section into the `config.toml` of Codex a second time changes nothing, and says so,
-- whatever the file held at first; the quoted path of the program is on one line.
pub write_codex_toml-repeat :
    (path quoted : Text) (disk : Disk)
    → OneLine quoted
    → write_codex_toml path quoted (write_codex_toml path quoted disk).disk
      ≡ unchanged (write_codex_toml path quoted disk).disk
unfolding write_codex_toml
write_codex_toml-repeat path quoted disk one =
    let original = or_empty (disk path) in
    let updated = with_codex_section (codex_section quoted) original in
    elim (Bool-cases (text_eq (trim_space updated) (trim_space original))) [
      | inl same ↦ rw (same, same) refl
      | inr differs ↦
          rw
            (
              differs,
              replaced_file-path disk path original updated,
              with_codex_section_twice quoted original one,
              text_eq_refl (trim_space updated),
            )
            refl
    ]
