-- ===== src/Consolidate/Brackets.antt =====
-- The scan of a reply finds the bracket that closes a value.
use dk_agent_memory.Consolidate.Json.{
  find_text, fence, unfenced, is_bracket, from_bracket, closer, Scan, scanning, advance, prepend,
  closed, bracketed, json_part, extract_json,
}
use dk_agent_memory.Base.{
  ℕ, suc, ◌+◌, ◌-◌, ◌≡◌, refl, sym, ap, ◌∙◌, Bool, true, false, ◌&&◌, Option, none, some, [], ◌∷◌,
  ◌++◌, append_assoc, arith, ◌==◌, All, Text, trim_space,
}

-- The rest of a string of JSON behind its first quote, its last quote included.
pub data Quoted : Text → Type 0 where
  end_quote : Quoted (b'"' ∷ [])
  char : {c : ℕ} {s : Text} → (c == b'"') ≡ false → (c == b'\\') ≡ false → Quoted s → Quoted (c ∷ s)
  escape : {c : ℕ} {s : Text} → Quoted s → Quoted (b'\\' ∷ c ∷ s)

-- A text in which every bracket of a kind has its partner, those in strings not counting.
pub data Balanced (open_ch close_ch : ℕ) : Text → Type 0 where
  nothing : Balanced open_ch close_ch []
  plain :
      {c : ℕ} {s : Text}
      → (c == b'"') ≡ false
      → (c == open_ch) ≡ false
      → (c == close_ch) ≡ false
      → Balanced open_ch close_ch s
      → Balanced open_ch close_ch (c ∷ s)
  string :
      {q s : Text}
      → Quoted q
      → Balanced open_ch close_ch s
      → Balanced open_ch close_ch (b'"' ∷ (q ++ s))
  nested :
      {s t : Text}
      → Balanced open_ch close_ch s
      → Balanced open_ch close_ch t
      → Balanced open_ch close_ch (open_ch ∷ (s ++ close_ch ∷ t))

prepend-append : (a b : Text) (o : Option Text) → prepend a (prepend b o) ≡ prepend (a ++ b) o
prepend-append a b none = refl
prepend-append a b (some s) = ap some (sym (append_assoc a b s))

and_false : (x : Bool) → (x && false) ≡ false
and_false true = refl
and_false false = refl

prepend-nil : (o : Option Text) → prepend [] o ≡ o
prepend-nil none = refl
prepend-nil (some s) = refl

module _ (open_ch close_ch : ℕ) (distinct : (close_ch == open_ch) ≡ false)
    (open_plain : (open_ch == b'"') ≡ false) (close_plain : (close_ch == b'"') ≡ false) where
  closed-step :
      (st st' : Scan) (c : ℕ) (s : Text)
      → advance open_ch close_ch st c ≡ some st'
      → closed open_ch close_ch st (c ∷ s) ≡ prepend (c ∷ []) (closed open_ch close_ch st' s)
  unfolding closed
  closed-step st st' c s e = rw (e, closed) refl

  passes :
      (d c : ℕ)
      → (c == b'"') ≡ false
      → (c == open_ch) ≡ false
      → (c == close_ch) ≡ false
      → advance open_ch close_ch (scanning (suc d)) c ≡ some (scanning (suc d))
  unfolding advance
  passes d c no_quote no_open no_close =
      rw (and_false (c == b'\\'), no_quote, no_open, no_close) refl

  quotes :
      (d : ℕ)
      → advance open_ch close_ch (scanning (suc d)) b'"'
        ≡ some (record { depth = suc d; in_string = true; escaped = false })
  unfolding advance
  quotes d = refl

  opens : (d : ℕ) → advance open_ch close_ch (scanning d) open_ch ≡ some (scanning (suc d))
  unfolding advance
  opens d =
      let same : (open_ch == open_ch) ≡ true = ground arith in
      let next : d + 1 ≡ suc d = omega arith in
      rw (and_false (open_ch == b'\\'), open_plain, same, next) refl

  closes :
      (d : ℕ) → advance open_ch close_ch (scanning (suc (suc d))) close_ch ≡ some (scanning (suc d))
  unfolding advance
  closes d =
      let same : (close_ch == close_ch) ≡ true = ground arith in
      let deep : (suc (suc d) == 1) ≡ false = ground arith in
      let next : suc (suc d) - 1 ≡ suc d = omega arith in
      rw (and_false (close_ch == b'\\'), close_plain, distinct, same, deep, next) refl

  ends :
      (post : Text) → closed open_ch close_ch (scanning 1) (close_ch ∷ post) ≡ some (close_ch ∷ [])
  unfolding closed advance
  ends post =
      let same : (close_ch == close_ch) ≡ true = ground arith in
      rw (and_false (close_ch == b'\\'), close_plain, distinct, same, closed) refl

  closed-Quoted :
      (d : ℕ) (q rest : Text)
      → Quoted q
      → closed open_ch close_ch
          (record { depth = d; in_string = true; escaped = false })
          (q ++ rest)
        ≡ prepend q (closed open_ch close_ch (scanning d) rest)
  unfolding closed advance
  closed-Quoted d _ rest end_quote = refl
  closed-Quoted d _ rest (char {c} {s} no_quote no_slash h) =
      rw (no_slash, no_quote, closed, closed-Quoted d s rest h, prepend-append (c ∷ []) s) refl
  closed-Quoted d _ rest (escape {c} {s} h) =
      rw (closed-Quoted d s rest h, prepend-append (c ∷ []) s, prepend-append (b'\\' ∷ []) (c ∷ s))
        refl

  closed-Balanced :
      (d : ℕ) (s rest : Text)
      → Balanced open_ch close_ch s
      → closed open_ch close_ch (scanning (suc d)) (s ++ rest)
        ≡ prepend s (closed open_ch close_ch (scanning (suc d)) rest)
  closed-Balanced d _ rest nothing = sym (prepend-nil _)
  closed-Balanced d _ rest (plain {c} {s} no_quote no_open no_close h) =
      let on =
        closed-step (scanning (suc d)) (scanning (suc d)) c (s ++ rest)
          (passes d c no_quote no_open no_close) in
      on ∙ ap (prepend (c ∷ [])) (closed-Balanced d s rest h) ∙ prepend-append (c ∷ []) s _
  closed-Balanced d _ rest (string {q} {s} hq h) =
      let quoted : Scan = record { depth = suc d; in_string = true; escaped = false } in
      let on = closed-step (scanning (suc d)) quoted b'"' ((q ++ s) ++ rest) (quotes d) in
      on
      ∙ ap (λ t. prepend (b'"' ∷ []) (closed open_ch close_ch quoted t)) (append_assoc q s rest)
      ∙ ap (prepend (b'"' ∷ [])) (
          closed-Quoted (suc d) q (s ++ rest) hq
          ∙ ap (prepend q) (closed-Balanced d s rest h)
          ∙ prepend-append q s _)
      ∙ prepend-append (b'"' ∷ []) (q ++ s) _
  closed-Balanced d _ rest (nested {s} {t} hs ht) =
      let on =
        closed-step (scanning (suc d)) (scanning (suc (suc d))) open_ch
          ((s ++ close_ch ∷ t) ++ rest) (opens (suc d)) in
      let off =
        closed-step (scanning (suc (suc d))) (scanning (suc d)) close_ch (t ++ rest) (closes d) in
      on
      ∙ ap (λ u. prepend (open_ch ∷ []) (closed open_ch close_ch (scanning (suc (suc d))) u))
          (append_assoc s (close_ch ∷ t) rest)
      ∙ ap (prepend (open_ch ∷ [])) (
          closed-Balanced (suc d) s (close_ch ∷ (t ++ rest)) hs
          ∙ ap (prepend s) (
              off
              ∙ ap (prepend (close_ch ∷ [])) (closed-Balanced d t rest ht)
              ∙ prepend-append (close_ch ∷ []) t _)
          ∙ prepend-append s (close_ch ∷ t) _)
      ∙ prepend-append (open_ch ∷ []) (s ++ close_ch ∷ t) _

  bracketed-value :
      (body post : Text)
      → closer open_ch ≡ close_ch
      → Balanced open_ch close_ch body
      → bracketed (open_ch ∷ (body ++ close_ch ∷ post)) ≡ open_ch ∷ (body ++ close_ch ∷ [])
  unfolding bracketed
  bracketed-value body post is_closer h =
      let value = open_ch ∷ (body ++ close_ch ∷ []) in
      let run : closed open_ch close_ch (scanning 0) (open_ch ∷ (body ++ close_ch ∷ post))
          ≡ some value =
        closed-step (scanning 0) (scanning 1) open_ch (body ++ close_ch ∷ post) (opens 0)
        ∙ ap (prepend (open_ch ∷ []))
            (closed-Balanced 0 body (close_ch ∷ post) h ∙ ap (prepend body) (ends post)) in
      rw (is_closer, run) refl

-- Text without a bracket.
abbrev pub Prose : Text → Type 0
Prose = All (λ c. is_bracket c ≡ false)

from_bracket-Prose :
    (pre : Text) (c : ℕ) (s : Text)
    → Prose pre
    → is_bracket c ≡ true
    → from_bracket (pre ++ c ∷ s) ≡ some (c ∷ s)
unfolding from_bracket
from_bracket-Prose [] c s h e = rw e refl
from_bracket-Prose (p ∷ pre) c s (no_bracket, h) e =
    rw (no_bracket, from_bracket-Prose pre c s h e) refl

json_part-value :
    (open_ch close_ch : ℕ) (pre body post : Text)
    → is_bracket open_ch ≡ true
    → closer open_ch ≡ close_ch
    → Prose pre
    → Balanced open_ch close_ch body
    → json_part (pre ++ open_ch ∷ (body ++ close_ch ∷ post)) ≡ open_ch ∷ (body ++ close_ch ∷ [])
unfolding json_part
json_part-value open_ch close_ch pre body post is_open is_closer prose h =
    let at = from_bracket-Prose pre open_ch (body ++ close_ch ∷ post) prose is_open in
    let distinct : (close_ch == open_ch) ≡ false = ground (arith, is_open, is_closer) in
    let open_plain : (open_ch == b'"') ≡ false = ground (arith, is_open) in
    let close_plain : (close_ch == b'"') ≡ false = ground (arith, is_open, is_closer) in
    rw (at, json_part)
      (bracketed-value open_ch close_ch distinct open_plain close_plain body post is_closer h)

unfenced-none : (s : Text) → find_text fence s ≡ none → unfenced s ≡ s
unfolding unfenced
unfenced-none s e = rw (e, unfenced) refl

-- From a reply without a fence that holds an object or an array between other texts, the first of them without
-- brackets, exactly the value is taken: brackets within it are matched, and those in its strings do not count.
pub extract_json-value :
    (open_ch close_ch : ℕ) (reply pre body post : Text)
    → trim_space reply ≡ pre ++ open_ch ∷ (body ++ close_ch ∷ post)
    → find_text fence (trim_space reply) ≡ none
    → is_bracket open_ch ≡ true
    → closer open_ch ≡ close_ch
    → Prose pre
    → Balanced open_ch close_ch body
    → extract_json reply ≡ open_ch ∷ (body ++ close_ch ∷ [])
unfolding extract_json
extract_json-value open_ch close_ch reply pre body post is_text no_fence is_open is_closer prose h =
    ap json_part (unfenced-none (trim_space reply) no_fence ∙ is_text)
    ∙ json_part-value open_ch close_ch pre body post is_open is_closer prose h
