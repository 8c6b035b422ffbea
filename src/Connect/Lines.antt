-- ===== src/Connect/Lines.antt =====
-- internal/connect/writers.go: `strings.Split` and `strings.Join` at line feeds.
use dk_agent_memory.Connect.Codex.{newline}
use dk_agent_memory.Base.{
  ℕ, ◌≡◌, refl, ◌∙◌, inl, inr, true, false, List, [], ◌∷◌, ◌++◌, append_assoc, append-nil, ◌==◌,
  ==_iff, Bool-cases, All, Text, join, split_from, split_on,
}

-- A text before the first line.
abbrev put_front : Text → List Text → List Text
put_front p [] = p ∷ []
put_front p (l ∷ ls) = (p ++ l) ∷ ls

put_front_twice :
    (p q : Text) (ls : List Text) → put_front p (put_front q ls) ≡ put_front (p ++ q) ls
put_front_twice p q [] = refl
put_front_twice p q (l ∷ ls) = rw (append_assoc p q l) refl

split_from-part :
    (part s : Text) → split_from newline part s ≡ put_front part (split_from newline [] s)
unfolding split_from
split_from-part part [] = rw (append-nil part) refl
split_from-part part (c ∷ s) = elim (Bool-cases (c == newline)) [
  | inl e ↦ rw (e, append-nil part) refl
  | inr e ↦
      rw
        (
          e,
          split_from-part (part ++ c ∷ []) s,
          split_from-part (c ∷ []) s,
          put_front_twice part (c ∷ []) (split_from newline [] s),
        )
        refl
]

split_on-other :
    (c : ℕ) (s : Text)
    → (c == newline) ≡ false
    → split_on newline (c ∷ s) ≡ put_front (c ∷ []) (split_on newline s)
unfolding split_on split_from
split_on-other c s e = rw (e, split_from-part (c ∷ []) s) refl

split_on-newline :
    (c : ℕ) (s : Text) → (c == newline) ≡ true → split_on newline (c ∷ s) ≡ [] ∷ split_on newline s
unfolding split_on split_from
split_on-newline c s e = rw e refl

split_on-cases : (s : Text) → (l : Text) × (ls : List Text) × (split_on newline s ≡ l ∷ ls)
unfolding split_on split_from
split_on-cases [] = ([], [], refl)
split_on-cases (c ∷ s) = elim (Bool-cases (c == newline)) [
  | inl e ↦ ([], split_on newline s, split_on-newline c s e)
  | inr e ↦ let (l, ls, h) = split_on-cases s in (c ∷ l, ls, split_on-other c s e ∙ rw h refl)
]

put_front-append :
    (c : ℕ) (s : Text) (ys : List Text)
    → put_front (c ∷ []) (split_on newline s ++ ys) ≡ put_front (c ∷ []) (split_on newline s) ++ ys
put_front-append c s ys = let (l, ls, h) = split_on-cases s in rw h refl

-- Text that is joined by a line feed is split there.
pub split_on-append :
    (a b : Text) → split_on newline (a ++ (newline ∷ b)) ≡ split_on newline a ++ split_on newline b
unfolding split_on split_from
split_on-append [] b = refl
split_on-append (c ∷ a) b = elim (Bool-cases (c == newline)) [
  | inl e ↦
      rw (split_on-newline c (a ++ (newline ∷ b)) e, split_on-newline c a e, split_on-append a b)
        refl
  | inr e ↦
      rw (split_on-other c (a ++ (newline ∷ b)) e, split_on-other c a e, split_on-append a b)
        (put_front-append c a (split_on newline b))
]

abbrev pub OneLine : Text → Type 0
OneLine = All (λ (c : ℕ). (c == newline) ≡ false)

pub split_on-OneLine : (s : Text) → OneLine s → split_on newline s ≡ s ∷ []
unfolding split_on split_from
split_on-OneLine [] h = refl
split_on-OneLine (c ∷ s) (e, h) = split_on-other c s e ∙ rw (split_on-OneLine s h) refl

pub OneLine-split_on : (s : Text) → All OneLine (split_on newline s)
unfolding split_on split_from
OneLine-split_on [] = (tt, tt)
OneLine-split_on (c ∷ s) = elim (Bool-cases (c == newline)) [
  | inl e ↦ rw (split_on-newline c s e) (tt, OneLine-split_on s)
  | inr e ↦
      let (l, ls, h) = split_on-cases s in
      let rest : All OneLine (l ∷ ls) = rw h at (OneLine-split_on s) in
      rw (split_on-other c s e, h) ((e, rest.0), rest.1)
]

join-front :
    (c : ℕ) (l : Text) (ls : List Text)
    → join (newline ∷ []) ((c ∷ l) ∷ ls) ≡ c ∷ join (newline ∷ []) (l ∷ ls)
unfolding join
join-front c l [] = refl
join-front c l (m ∷ ls) = refl

pub join-split_on : (s : Text) → join (newline ∷ []) (split_on newline s) ≡ s
unfolding split_on split_from join
join-split_on [] = refl
join-split_on (c ∷ s) = elim (Bool-cases (c == newline)) [
  | inl e ↦
      let (l, ls, h) = split_on-cases s in
      let back : join (newline ∷ []) (l ∷ ls) ≡ s = rw h at (join-split_on s) in
      let same : c ≡ newline = (==_iff c newline).0 e in
      rw (split_on-newline c s e, h, back, same) refl
  | inr e ↦
      let (l, ls, h) = split_on-cases s in
      let back : join (newline ∷ []) (l ∷ ls) ≡ s = rw h at (join-split_on s) in
      rw (split_on-other c s e, h, join-front c l ls, back) refl
]

pub split_on-join :
    (l : Text) (ls : List Text)
    → All OneLine (l ∷ ls)
    → split_on newline (join (newline ∷ []) (l ∷ ls)) ≡ l ∷ ls
unfolding join
split_on-join l [] (h, hs) = split_on-OneLine l h
split_on-join l (m ∷ ls) (h, hs) =
    split_on-append l (join (newline ∷ []) (m ∷ ls))
    ∙ rw (split_on-OneLine l h, split_on-join m ls hs) refl
