-- ===== src/Consolidate/Json.antt =====
-- internal/consolidate/llm.go: the JSON value in a reply of the model.
use dk_agent_memory.Base.{
  ℕ, ◌+◌, ◌-◌, Bool, true, false, not, ◌&&◌, ◌||◌, Option, none, some, [], ◌∷◌, ◌++◌, ◌==◌,
  if◌then◌else◌, length, drop, Text, is_empty, trim_space, has_prefix, cut_on, uncut, halves,
}

-- `strings.Index`: what stands before the first occurrence of a text, and what stands behind it.
unfoldable pub find_text : Text → Text → Option (Text × Text)
find_text sub [] = if is_empty sub then some ([], []) else none
find_text sub (c ∷ s) =
    let later = find_text sub s in
    if has_prefix (c ∷ s) sub
    then some ([], drop (length sub) (c ∷ s))
    else elim later [ none ↦ none | some (before, after) ↦ some (c ∷ before, after) ]

-- Three backticks.
abbrev pub fence : Text
fence = 96 ∷ 96 ∷ 96 ∷ []

unfoldable pub behind_line : Text → Text
behind_line rest = elim (cut_on 10 rest) [ uncut ↦ rest | halves line after ↦ after ]

unfoldable pub unfenced : Text → Text
unfolding find_text behind_line
unfenced s = elim (find_text fence s) [
  | none ↦ s
  | some (before, rest) ↦ elim (find_text fence (behind_line rest)) [
    | none ↦ s
    | some (inside, after) ↦ trim_space inside
  ]
]

abbrev pub is_bracket : ℕ → Bool
is_bracket c = c == b'[' || c == b'{'

unfoldable pub from_bracket : Text → Option Text
from_bracket [] = none
from_bracket (c ∷ s) = let later = from_bracket s in if is_bracket c then some (c ∷ s) else later

abbrev pub closer : ℕ → ℕ
closer open_ch = if open_ch == b'{' then b'}' else b']'

pub record Scan : Type 0 where
  pub depth : ℕ
  pub in_string : Bool
  pub escaped : Bool

abbrev pub scanning : ℕ → Scan
scanning depth = record { depth = depth; in_string = false; escaped = false }

-- One byte of the loop, none where it returns.
unfoldable pub advance : ℕ → ℕ → Scan → ℕ → Option Scan
advance open_ch close_ch st c =
    if st.escaped
    then some (record st { escaped = false })
    else if (c == b'\\') && st.in_string
    then some (record st { escaped = true })
    else if c == b'"'
    then some (record st { in_string = not st.in_string })
    else if st.in_string
    then some st
    else if c == open_ch
    then some (record st { depth = st.depth + 1 })
    else if c == close_ch
    then (if st.depth == 1 then none else some (record st { depth = st.depth - 1 }))
    else some st

abbrev pub prepend : Text → Option Text → Option Text
prepend front none = none
prepend front (some s) = some (front ++ s)

-- The text up to the bracket that closes the first.
unfoldable pub closed : ℕ → ℕ → Scan → Text → Option Text
unfolding advance
closed open_ch close_ch st [] = none
closed open_ch close_ch st (c ∷ s) = elim (advance open_ch close_ch st c) [
  | none ↦ some (c ∷ [])
  | some st' ↦ prepend (c ∷ []) (closed open_ch close_ch st' s)
]

abbrev pub or_all : Text → Option Text → Text
or_all s none = s
or_all s (some v) = v

unfoldable pub bracketed : Text → Text
unfolding closed
bracketed [] = []
bracketed (c ∷ s) = or_all (c ∷ s) (closed c (closer c) (scanning 0) (c ∷ s))

unfoldable pub json_part : Text → Text
unfolding from_bracket bracketed
json_part s = elim (from_bracket s) [ none ↦ s | some from ↦ bracketed from ]

unfoldable pub extract_json : Text → Text
unfolding unfenced json_part
extract_json s = json_part (unfenced (trim_space s))
