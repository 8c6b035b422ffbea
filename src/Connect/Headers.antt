-- ===== src/Connect/Headers.antt =====
-- internal/connect/writers.go: where `splitCodexSection` finds the section.
use dk_agent_memory.Connect.Codex.{
  codex_header, Split, not_found, found_section, next_header, behind_other_line, split_lines,
}
use dk_agent_memory.Connect.Lines.{OneLine}
use dk_agent_memory.Base.{
  ◌≡◌, refl, inl, inr, Bool, true, false, List, [], ◌∷◌, ◌++◌, Bool-cases, All, Text, codes,
  text_eq, trim_space, has_prefix,
}

abbrev pub is_header : Text → Bool
is_header line = text_eq (trim_space line) codex_header

abbrev pub opens : Text → Bool
opens line = has_prefix (trim_space line) (codes "[")

abbrev pub NoHeader : List Text → Type 0
NoHeader = All (λ (l : Text). is_header l ≡ false)

-- The lines behind a section: none, or from a header on.
abbrev pub FromHeader : List Text → Type 0
FromHeader [] = Unit
FromHeader (l ∷ ls) = opens l ≡ true

pub next_header-FromHeader : (ls : List Text) → FromHeader (next_header ls)
unfolding next_header
next_header-FromHeader [] = tt
next_header-FromHeader (l ∷ ls) = elim (Bool-cases (opens l)) [
  | inl e ↦ rw (e, e) refl
  | inr e ↦ rw e (next_header-FromHeader ls)
]

pub next_header-All : (P : Text → Type 0) (ls : List Text) → All P ls → All P (next_header ls)
unfolding next_header
next_header-All P [] h = tt
next_header-All P (l ∷ ls) (p, h) = elim (Bool-cases (opens l)) [
  | inl e ↦ rw e (p, h)
  | inr e ↦ rw e (next_header-All P ls h)
]

pub next_header-here : (ls : List Text) → FromHeader ls → next_header ls ≡ ls
unfolding next_header
next_header-here [] h = refl
next_header-here (l ∷ ls) h = rw h refl

pub next_header-later :
    (l : Text) (ls : List Text) → opens l ≡ false → next_header (l ∷ ls) ≡ next_header ls
unfolding next_header
next_header-later l ls h = rw h refl

-- The section that stands behind lines without its header.
pub split_lines-found :
    (xs : List Text) (h : Text) (ys : List Text)
    → NoHeader xs
    → is_header h ≡ true
    → split_lines (xs ++ (h ∷ ys)) ≡ found_section xs (next_header ys)
unfolding split_lines
split_lines-found [] h ys n e = rw e refl
split_lines-found (x ∷ xs) h ys (n, ns) e = rw (n, split_lines-found xs h ys ns e) refl

-- What is found of the lines.
abbrev pub Found : List Text → Split → Type 0
Found ls not_found = NoHeader ls
Found ls (found_section before after) =
    NoHeader before × All OneLine before × FromHeader after × All OneLine after

Found-cons :
    (l : Text) (ls : List Text) (s : Split)
    → is_header l ≡ false
    → OneLine l
    → Found ls s
    → Found (l ∷ ls) (behind_other_line l s)
Found-cons l ls not_found e o h = (e, h)
Found-cons l ls (found_section before after) e o (n, os, f, os') = ((e, n), (o, os), f, os')

pub split_lines-Found : (ls : List Text) → All OneLine ls → Found ls (split_lines ls)
unfolding split_lines
split_lines-Found [] h = tt
split_lines-Found (l ∷ ls) (o, h) = elim (Bool-cases (is_header l)) [
  | inl e ↦ rw e (tt, tt, next_header-FromHeader ls, next_header-All OneLine ls h)
  | inr e ↦ rw e (Found-cons l ls (split_lines ls) e o (split_lines-Found ls h))
]
