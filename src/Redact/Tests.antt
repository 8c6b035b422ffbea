-- ===== src/Redact/Tests.antt =====
-- The redaction's tests, and the theorems at a concrete text.
use dk_agent_memory.Redact.{
  Span, private_key, finding, line_starts, collect, candidates, candidates_from, matched, apply,
  clean, marker,
}
use dk_agent_memory.Redact.Overlaps.{InText, CoversAt}
use dk_agent_memory.Redact.Matches.{collect-CoversAt}
use dk_agent_memory.Redact.Replace.{masked, apply-masked, clean-Overlap}
use dk_agent_memory.Base.{
  ℕ, ◌≤◌, ◌≡◌, refl, inl, inr, Option, some, List, [], ◌∷◌, ◌++◌, map, arith, ◌==◌, if◌then◌else◌,
  Bool-cases, length, Member, Text, codes, here, there,
}

abbrev sample : Text
sample = codes "ab\ncdefgh"

-- Rule 0 finds `cd` and rule 1 finds `def`.
abbrev find_sample : ℕ → Text → List (Option (ℕ × ℕ))
find_sample i s = if i == 0 then some (3, 5) ∷ [] else if i == 1 then some (4, 7) ∷ [] else []

only_match :
    {lo hi : ℕ} (a b n : ℕ)
    → Member {A = Option (ℕ × ℕ)} (some (lo, hi)) (some (a, b) ∷ [])
    → b ≤ n
    → hi ≤ n
only_match a b n here h = h
only_match a b n (there m) h = elim m [ ]

sample-InText : InText find_sample sample
sample-InText i lo hi m = elim (Bool-cases (i == 0)) [
  | inl e ↦
      let m' : Member {A = Option (ℕ × ℕ)} (some (lo, hi)) (some (3, 5) ∷ []) = rw e at m in
      only_match 3 5 (length sample) m' (omega arith)
  | inr e ↦ elim (Bool-cases (i == 1)) [
    | inl e' ↦
        let m' : Member {A = Option (ℕ × ℕ)} (some (lo, hi)) (some (4, 7) ∷ []) = rw (e, e') at m in
        only_match 4 7 (length sample) m' (omega arith)
    | inr e' ↦
        let m' : Member {A = Option (ℕ × ℕ)} (some (lo, hi)) [] = rw (e, e') at m in elim m' [ ]
  ]
]

abbrev first : Span
first = record { start = 3; end = 5; kind = private_key; rank = 0 }

abbrev second : Span
second = record { start = 4; end = 7; kind = private_key; rank = 1 }

two_candidates : candidates find_sample sample ≡ first ∷ second ∷ []
unfolding candidates candidates_from matched
two_candidates = refl

collect-CoversAt_example : CoversAt 4 (collect find_sample sample)
collect-CoversAt_example =
    collect-CoversAt find_sample sample sample-InText 1 4 7 (omega arith) (omega arith) here

apply-masked_example : apply find_sample sample ≡ (
  masked (collect find_sample sample) 0 sample,
  map (finding (line_starts sample)) (collect find_sample sample),
)
apply-masked_example = apply-masked find_sample sample sample-InText

clean-Overlap_example :
    clean find_sample sample ≡ codes "ab\n" ++ (marker private_key ++ codes "efgh")
clean-Overlap_example =
    clean-Overlap find_sample b'a' (codes "b\ncdefgh") first second two_candidates
      (omega arith, omega arith, omega arith)
