-- ===== src/Connect/Trims.antt =====
-- internal/connect/writers.go: `strings.TrimLeft` and `TrimRight` of line feeds, and `TrimSpace`.
use mathlib.Core.List.{reverse, reverse-cons, reverse-append, reverse-reverse}
use dk_agent_memory.Connect.Codex.{newline, trim_newlines_left, trim_newlines_right}
use dk_agent_memory.Base.{
  ℕ, ◌≡◌, refl, sym, ap, ◌∙◌, ◌⊎◌, inl, inr, true, false, [], ◌∷◌, ◌++◌, append_assoc, ◌==◌, ==_iff,
  Bool-cases, All, All-append, Text, is_empty, is_space, trim_left, trim_space,
}

trim_newlines_left_twice :
    (s : Text) → trim_newlines_left (trim_newlines_left s) ≡ trim_newlines_left s
unfolding trim_newlines_left
trim_newlines_left_twice [] = refl
trim_newlines_left_twice (c ∷ s) = elim (Bool-cases (c == newline)) [
  | inl e ↦ rw e (trim_newlines_left_twice s)
  | inr e ↦ rw (e, e) refl
]

pub trim_newlines_right_twice :
    (s : Text) → trim_newlines_right (trim_newlines_right s) ≡ trim_newlines_right s
unfolding trim_newlines_right
trim_newlines_right_twice s =
    rw (reverse-reverse (trim_newlines_left (reverse s)), trim_newlines_left_twice (reverse s)) refl

pub trim_newlines_right-newline :
    (s : Text) → trim_newlines_right (s ++ (newline ∷ [])) ≡ trim_newlines_right s
unfolding trim_newlines_right trim_newlines_left
trim_newlines_right-newline s = rw (reverse-append s (newline ∷ [])) refl

-- What is left out begins with a line feed.
trim_newlines_left-rest :
    (s : Text)
    → (trim_newlines_left s ≡ s) ⊎ ((r : Text) × (s ≡ r ++ (newline ∷ trim_newlines_left s)))
unfolding trim_newlines_left
trim_newlines_left-rest [] = inl refl
trim_newlines_left-rest (c ∷ s) = elim (Bool-cases (c == newline)) [
  | inr e ↦ inl (rw e refl)
  | inl e ↦
      let same : c ≡ newline = (==_iff c newline).0 e in
      elim (trim_newlines_left-rest s) [
        | inl h ↦ inr ([], rw (e, h, same) refl)
        | inr (r, h) ↦ inr (newline ∷ r, rw (e, same) (ap (λ (t : Text). newline ∷ t) h))
      ]
]

pub trim_newlines_right-rest :
    (s : Text)
    → (trim_newlines_right s ≡ s) ⊎ ((r : Text) × (s ≡ trim_newlines_right s ++ (newline ∷ r)))
unfolding trim_newlines_right
trim_newlines_right-rest s = elim (trim_newlines_left-rest (reverse s)) [
  | inl h ↦ inl (ap reverse h ∙ reverse-reverse s)
  | inr (r, h) ↦
      let t = trim_newlines_left (reverse s) in
      inr (
        reverse r,
        sym (reverse-reverse s)
            ∙ (ap reverse h
                ∙ (reverse-append r (newline ∷ t)
                    ∙ rw
                        (
                          reverse-cons newline t,
                          append_assoc (reverse t) (newline ∷ []) (reverse r),
                        )
                        refl)),
      )
]

abbrev AllNewlines : Text → Type 0
AllNewlines = All (λ (c : ℕ). (c == newline) ≡ true)

AllNewlines-trimmed : (s : Text) → trim_newlines_left s ≡ [] → AllNewlines s
unfolding trim_newlines_left
AllNewlines-trimmed [] h = tt
AllNewlines-trimmed (c ∷ s) h = elim (Bool-cases (c == newline)) [
  | inl e ↦ (e, AllNewlines-trimmed s (rw e at h))
  | inr e ↦ absurd (cc (rw e at h))
]

AllNewlines-reverse : (s : Text) → AllNewlines s → AllNewlines (reverse s)
AllNewlines-reverse [] h = tt
AllNewlines-reverse (c ∷ s) (e, h) = rw (reverse-cons c s) (
    All-append (λ (c : ℕ). (c == newline) ≡ true) (reverse s) (c ∷ []) (AllNewlines-reverse s h)
      (e, tt))

trim_left-AllNewlines : (s : Text) → AllNewlines s → trim_left s ≡ []
unfolding trim_left is_space
trim_left-AllNewlines [] h = refl
trim_left-AllNewlines (c ∷ s) (e, h) =
    let same : c ≡ newline = (==_iff c newline).0 e in rw (same, trim_left-AllNewlines s h) refl

-- A text of line feeds only is blank.
pub trim_space-newlines : (s : Text) → trim_newlines_right s ≡ [] → is_empty (trim_space s) ≡ true
unfolding trim_newlines_right trim_space
trim_space-newlines s h =
    let none' : trim_newlines_left (reverse s) ≡ [] =
      sym (reverse-reverse (trim_newlines_left (reverse s))) ∙ ap reverse h in
    let all_of : AllNewlines s =
      rw reverse-reverse at
        (AllNewlines-reverse (reverse s) (AllNewlines-trimmed (reverse s) none')) in
    rw (trim_left-AllNewlines s all_of) (unfold trim_left in refl)

trim_left-last :
    (s : Text) (c : ℕ) → is_space c ≡ false → (t : Text) × (trim_left (s ++ c ∷ []) ≡ t ++ c ∷ [])
unfolding trim_left
trim_left-last [] c h = ([], rw h refl)
trim_left-last (d ∷ s) c h = elim (Bool-cases (is_space d)) [
  | inl e ↦ let (t, same) = trim_left-last s c h in (t, rw e same)
  | inr e ↦ (d ∷ s, rw e refl)
]

-- A text that begins with another byte than white space still does, once trimmed.
pub trim_space-first :
    (c : ℕ) (s : Text) → is_space c ≡ false → (t : Text) × (trim_space (c ∷ s) ≡ c ∷ t)
unfolding trim_space trim_left
trim_space-first c s h =
    let (t, same) = trim_left-last (reverse s) c h in
    (reverse t, rw (h, reverse-cons c s, same, reverse-append t (c ∷ [])) refl)
