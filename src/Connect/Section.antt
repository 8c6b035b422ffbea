-- ===== src/Connect/Section.antt =====
-- internal/connect/writers.go: a file as `writeCodexTOML` leaves it.
use dk_agent_memory.Connect.Codex.{
  newline, codex_header, next_header, split_lines, joined_split, split_codex_section,
  trim_newlines_left, trim_newlines_right, joined_by, closed_by, codex_section, with_codex_section,
}
use dk_agent_memory.Connect.Lines.{
  split_on-append, OneLine, split_on-OneLine, join-split_on, split_on-join,
}
use dk_agent_memory.Connect.Trims.{trim_newlines_right-newline, trim_space-first}
use dk_agent_memory.Connect.Headers.{
  is_header, opens, NoHeader, FromHeader, next_header-here, next_header-later, split_lines-found,
}
use dk_agent_memory.Base.{
  ℕ, ◌≡◌, refl, sym, ap, ◌∙◌, inl, inr, true, false, not, some, List, [], ◌∷◌, ◌++◌, append_assoc,
  ◌==◌, Bool-cases, all, All, All-append, Text, codes, text_eq, is_space, trim_left, trim_space,
  join, has_prefix, split_from, split_on,
}

abbrev command_line : Text → Text
command_line quoted = codes "command = " ++ quoted

abbrev args_line : Text
args_line = codes "args = [\"mcp\"]"

abbrev timeout_line : Text
timeout_line = codes "startup_timeout_sec = 20"

four_lines :
    (h c a t rest : Text)
    → OneLine h
    → OneLine c
    → OneLine a
    → OneLine t
    → split_on newline
        (h ++ (newline ∷ (c ++ (newline ∷ (a ++ (newline ∷ (t ++ (newline ∷ rest))))))))
      ≡ h ∷ c ∷ a ∷ t ∷ split_on newline rest
four_lines h c a t rest oh oc oa ot =
    rw
      (
        split_on-append h (c ++ (newline ∷ (a ++ (newline ∷ (t ++ (newline ∷ rest)))))),
        split_on-append c (a ++ (newline ∷ (t ++ (newline ∷ rest)))),
        split_on-append a (t ++ (newline ∷ rest)),
        split_on-append t rest,
        split_on-OneLine h oh,
        split_on-OneLine c oc,
        split_on-OneLine a oa,
        split_on-OneLine t ot,
      )
      refl

OneLine-all : (s : Text) → all (λ (c : ℕ). not (c == newline)) s ≡ true → OneLine s
OneLine-all [] h = tt
OneLine-all (c ∷ s) h = elim (Bool-cases (c == newline)) [
  | inl e ↦ absurd (cc (rw e at h))
  | inr e ↦ (e, OneLine-all s (rw e at h))
]

codex_header-OneLine : OneLine codex_header
codex_header-OneLine = OneLine-all codex_header refl

command_line-OneLine : (quoted : Text) → OneLine quoted → OneLine (command_line quoted)
command_line-OneLine quoted h =
    All-append (λ (c : ℕ). (c == newline) ≡ false) (codes "command = ") quoted
      (OneLine-all (codes "command = ") refl) h

-- The section with what follows it, line by line.
section_lines :
    (quoted rest : Text)
    → OneLine quoted
    → split_on newline (codex_section quoted ++ rest)
      ≡ codex_header ∷ command_line quoted ∷ args_line ∷ timeout_line ∷ split_on newline rest
unfolding codex_section
section_lines quoted rest one =
    rw
      (append_assoc quoted (newline ∷ (args_line ++ (newline ∷ (timeout_line ++ newline ∷ []))))
        rest)
      (four_lines codex_header (command_line quoted) args_line timeout_line rest
        codex_header-OneLine (command_line-OneLine quoted one) (OneLine-all args_line refl)
        (OneLine-all timeout_line refl))

header_known : is_header codex_header ≡ true
unfolding trim_space trim_left is_space text_eq
header_known = refl

pub blank_unknown : is_header [] ≡ false
unfolding trim_space trim_left is_space text_eq
blank_unknown = refl

command_closed : (quoted : Text) → opens (command_line quoted) ≡ false
unfolding has_prefix
command_closed quoted =
    let (t, e) = trim_space-first b'c' (codes "ommand = " ++ quoted) (unfold is_space in refl) in
    rw e refl

args_closed : opens args_line ≡ false
unfolding trim_space trim_left is_space has_prefix
args_closed = refl

timeout_closed : opens timeout_line ≡ false
unfolding trim_space trim_left is_space has_prefix
timeout_closed = refl

pub blank_closed : opens [] ≡ false
unfolding trim_space trim_left is_space has_prefix
blank_closed = refl

-- What follows the section in a file that it was written to.
abbrev pub tail : Text → Text
tail a = joined_by (newline ∷ []) a

-- Text that stands behind a section: none, or lines from a header on.
pub record IsTail (a : Text) : Type 0 where
  pub lines : List Text
  pub text : a ≡ join (newline ∷ []) lines
  pub from : FromHeader lines
  pub one : All OneLine lines
  pub trimmed : trim_newlines_left a ≡ a

pub join_nothing : join (newline ∷ []) [] ≡ []
unfolding join
join_nothing = refl

split_on-tail :
    (c : ℕ) (a : Text) (ls : List Text)
    → c ∷ a ≡ join (newline ∷ []) ls
    → All OneLine ls
    → split_on newline (c ∷ a) ≡ ls
split_on-tail c a [] h one = let bad : c ∷ a ≡ [] = h ∙ join_nothing in cc
split_on-tail c a (l ∷ ls) h one = rw h (split_on-join l ls one)

pub split_on-nothing : split_on newline [] ≡ [] ∷ []
unfolding split_on split_from
split_on-nothing = refl

tail_kept :
    (a : Text) → IsTail a → join (newline ∷ []) (next_header (split_on newline (tail a))) ≡ a
unfolding join
tail_kept [] h =
    rw (split_on-nothing, next_header-later [] [] blank_closed, next_header-here [] tt) refl
tail_kept (c ∷ a) h =
    let after = split_on-tail c a h.lines h.text h.one in
    rw
      (
        split_on-append [] (c ∷ a),
        split_on-nothing,
        after,
        next_header-later [] h.lines blank_closed,
        next_header-here h.lines h.from,
      )
      (sym h.text)

-- The lines of the section end where the tail begins.
section_end :
    (quoted a : Text)
    → IsTail a
    → join
        (newline ∷ [])
        (next_header (command_line quoted ∷ args_line ∷ timeout_line ∷ split_on newline (tail a)))
      ≡ a
section_end quoted a h =
    rw
      (
        next_header-later (command_line quoted)
            (args_line ∷ timeout_line ∷ split_on newline (tail a)) (command_closed quoted),
        next_header-later args_line (timeout_line ∷ split_on newline (tail a)) args_closed,
        next_header-later timeout_line (split_on newline (tail a)) timeout_closed,
      )
      (tail_kept a h)

-- What stands before the section in such a file.
abbrev lead : Text → Text
lead [] = []
lead (c ∷ b) = (c ∷ b) ++ (newline ∷ [])

abbrev pub written : Text → Text → Text → Text
written quoted b a = closed_by b (newline ∷ newline ∷ []) ++ (codex_section quoted ++ tail a)

abbrev lead_lines : Text → List Text
lead_lines [] = []
lead_lines (c ∷ b) = split_on newline (c ∷ b) ++ [] ∷ []

written_lines :
    (quoted b a : Text)
    → OneLine quoted
    → split_on newline (written quoted b a)
      ≡ lead_lines b
        ++ (codex_header
            ∷ (command_line quoted ∷ args_line ∷ timeout_line ∷ split_on newline (tail a)))
written_lines quoted [] a one = section_lines quoted (tail a) one
written_lines quoted (c ∷ b) a one =
    let x = codex_section quoted ++ tail a in
    rw
      (
        append_assoc (c ∷ b) (newline ∷ newline ∷ []) x,
        split_on-append (c ∷ b) (newline ∷ x),
        split_on-append [] x,
        split_on-nothing,
        section_lines quoted (tail a) one,
      )
      (sym (append_assoc (split_on newline (c ∷ b)) ([] ∷ []) _))

lead_lines-NoHeader : (b : Text) → NoHeader (split_on newline b) → NoHeader (lead_lines b)
lead_lines-NoHeader [] h = tt
lead_lines-NoHeader (c ∷ b) h =
    All-append (λ (l : Text). is_header l ≡ false) (split_on newline (c ∷ b)) ([] ∷ []) h
      (blank_unknown, tt)

join-lead_lines : (b : Text) → join (newline ∷ []) (lead_lines b) ≡ lead b
join-lead_lines [] = join_nothing
join-lead_lines (c ∷ b) =
    ap (join (newline ∷ [])) (sym (split_on-append (c ∷ b) [] ∙ rw split_on-nothing refl))
    ∙ join-split_on ((c ∷ b) ++ (newline ∷ []))

trim-lead : (b : Text) → trim_newlines_right (lead b) ≡ trim_newlines_right b
trim-lead [] = refl
trim-lead (c ∷ b) = trim_newlines_right-newline (c ∷ b)

-- A file as `writeCodexTOML` leaves it.
pub record IsWritten (quoted s : Text) : Type 0 where
  pub before : Text
  pub after : Text
  pub text : s ≡ written quoted before after
  pub headless : NoHeader (split_on newline before)
  pub ended : trim_newlines_right before ≡ before
  pub behind : IsTail after

split_codex_section-written :
    (quoted b a : Text)
    → OneLine quoted
    → NoHeader (split_on newline b)
    → IsTail a
    → split_codex_section (written quoted b a) ≡ some (lead b, a)
unfolding split_codex_section
split_codex_section-written quoted b a one n t =
    ap (λ (ls : List Text). joined_split (split_lines ls)) (written_lines quoted b a one)
    ∙ rw
        (
          split_lines-found (lead_lines b) codex_header
              (command_line quoted ∷ args_line ∷ timeout_line ∷ split_on newline (tail a))
              (lead_lines-NoHeader b n) header_known,
          join-lead_lines b,
          section_end quoted a t,
        )
        refl

-- A file that the section was written to stays as it is.
pub with_codex_section_again :
    (quoted s : Text)
    → OneLine quoted
    → IsWritten quoted s
    → with_codex_section (codex_section quoted) s ≡ s
unfolding with_codex_section
with_codex_section_again quoted s one w = rw w.text (
    rw
      (
        split_codex_section-written quoted w.before w.after one w.headless w.behind,
        trim-lead w.before,
        w.ended,
        w.behind.trimmed,
      )
      refl)
