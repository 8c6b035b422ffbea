-- ===== src/Redact/Overlaps.antt =====
-- The spans that `collect` keeps: apart, inside the text, and one over the start of every match.
use dk_agent_memory.Redact.{Span, before, insert, sort, sweep}
use dk_agent_memory.Base.{
  ℕ, ◌≤◌, ◌<◌, ◌⊎◌, inl, inr, Option, some, List, [], ◌∷◌, arith, ltb, Bool-cases, length, All,
  Member, Text, here, there,
}

-- Spans from `e` on that are not empty and do not meet.
abbrev pub Disjoint : ℕ → List Span → Type 0
Disjoint e [] = Unit
Disjoint e (sp ∷ sps) = (e ≤ sp.start) × (sp.start < sp.end) × Disjoint sp.end sps

abbrev pub IsWithin : ℕ → Span → Type 0
IsWithin n sp = (sp.start < sp.end) × (sp.end ≤ n)

-- Starts that do not fall.
abbrev pub Ordered : ℕ → List Span → Type 0
Ordered lo [] = Unit
Ordered lo (sp ∷ sps) = (lo ≤ sp.start) × Ordered sp.start sps

-- What the package `regexp` documents of the pairs: they lie in the text.
abbrev pub InText : (ℕ → Text → List (Option (ℕ × ℕ))) → Text → Type 0
InText find_all s = (i lo hi : ℕ) → Member (some (lo, hi)) (find_all i s) → hi ≤ length s

insert-Ordered :
    (lo : ℕ) (x : Span) (ys : List Span) → lo ≤ x.start → Ordered lo ys → Ordered lo (insert x ys)
unfolding insert before
insert-Ordered lo x [] le h = (le, tt)
insert-Ordered lo x (y ∷ ys) le (ley, h) = elim (Bool-cases (before y x)) [
  | inl earlier ↦ rw earlier (ley, insert-Ordered y.start x ys (ground arith) h)
  | inr later ↦ rw later (le, (ground arith, h))
]

pub sort-Ordered : (xs : List Span) → Ordered 0 (sort xs)
unfolding sort
sort-Ordered [] = tt
sort-Ordered (x ∷ xs) = insert-Ordered 0 x (sort xs) (omega arith) (sort-Ordered xs)

module _ (P : Span → Type 0) where
  insert-All : (x : Span) (ys : List Span) → P x → All P ys → All P (insert x ys)
  unfolding insert
  insert-All x [] p h = (p, tt)
  insert-All x (y ∷ ys) p (q, h) = elim (Bool-cases (before y x)) [
    | inl earlier ↦ rw earlier (q, insert-All x ys p h)
    | inr later ↦ rw later (p, (q, h))
  ]

  pub sort-All : (xs : List Span) → All P xs → All P (sort xs)
  unfolding sort
  sort-All [] h = tt
  sort-All (x ∷ xs) (p, h) = insert-All x (sort xs) p (sort-All xs h)

  pub sweep-All : (e : ℕ) (xs : List Span) → All P xs → All P (sweep e xs)
  unfolding sweep
  sweep-All e [] h = tt
  sweep-All e (x ∷ xs) (p, h) = elim (Bool-cases (ltb x.start e)) [
    | inl met ↦ rw met (sweep-All e xs h)
    | inr free ↦ rw free (p, sweep-All x.end xs h)
  ]

Member-insert_head : (x : Span) (ys : List Span) → Member x (insert x ys)
unfolding insert
Member-insert_head x [] = here
Member-insert_head x (y ∷ ys) = elim (Bool-cases (before y x)) [
  | inl earlier ↦ rw earlier (there (Member-insert_head x ys))
  | inr later ↦ rw later here
]

Member-insert : (sp x : Span) (ys : List Span) → Member sp ys → Member sp (insert x ys)
unfolding insert
Member-insert sp x [] m = elim m [ ]
Member-insert sp x (y ∷ ys) here = elim (Bool-cases (before sp x)) [
  | inl earlier ↦ rw earlier here
  | inr later ↦ rw later (there here)
]
Member-insert sp x (y ∷ ys) (there m) = elim (Bool-cases (before y x)) [
  | inl earlier ↦ rw earlier (there (Member-insert sp x ys m))
  | inr later ↦ rw later (there (there m))
]

pub Member-sort : (sp : Span) (xs : List Span) → Member sp xs → Member sp (sort xs)
unfolding sort
Member-sort sp [] m = elim m [ ]
Member-sort sp (x ∷ xs) here = Member-insert_head sp (sort xs)
Member-sort sp (x ∷ xs) (there m) = Member-insert sp x (sort xs) (Member-sort sp xs m)

pub sweep-Disjoint :
    (e : ℕ) (xs : List Span) → All (λ sp. sp.start < sp.end) xs → Disjoint e (sweep e xs)
unfolding sweep
sweep-Disjoint e [] h = tt
sweep-Disjoint e (x ∷ xs) (p, h) = elim (Bool-cases (ltb x.start e)) [
  | inl met ↦ rw met (sweep-Disjoint e xs h)
  | inr free ↦ rw free (ground arith, p, sweep-Disjoint x.end xs h)
]

-- A kept span lies over the position.
pub record CoversAt (at : ℕ) (kept : List Span) : Type 0 where
  pub span : Span
  pub kept_span : Member span kept
  pub from : span.start ≤ at
  pub to : at < span.end

le_of_Ordered : (lo : ℕ) (sp : Span) (xs : List Span) → Ordered lo xs → Member sp xs → lo ≤ sp.start
le_of_Ordered lo sp [] _ m = elim m [ ]
le_of_Ordered lo sp (x ∷ xs) (le, h) here = le
le_of_Ordered lo sp (x ∷ xs) (le, h) (there m) = omega (arith, le_of_Ordered x.start sp xs h m)

CoversAt-cons : {at : ℕ} {x : Span} {xs : List Span} → CoversAt at xs → CoversAt at (x ∷ xs)
CoversAt-cons c = record { span = c.span; kept_span = there c.kept_span; from = c.from; to = c.to }

-- The start of a sorted span lies before the last kept end, or under a span that is still kept.
pub sweep-CoversAt :
    (e lo : ℕ) (sp : Span) (xs : List Span)
    → All (λ sp. sp.start < sp.end) xs
    → Ordered lo xs
    → Member sp xs
    → (sp.start < e) ⊎ CoversAt sp.start (sweep e xs)
unfolding sweep
sweep-CoversAt e lo sp [] _ _ m = elim m [ ]
sweep-CoversAt e lo sp (x ∷ xs) (p, h) (le, ord) here = elim (Bool-cases (ltb sp.start e)) [
  | inl met ↦ inl (ground arith)
  | inr free ↦ rw free (inr (record { span = sp; kept_span = here; from = omega arith; to = p }))
]
sweep-CoversAt e lo sp (x ∷ xs) (p, h) (le, ord) (there m) = elim (Bool-cases (ltb x.start e)) [
  | inl met ↦ rw met (sweep-CoversAt e x.start sp xs h ord m)
  | inr free ↦ rw free (elim (sweep-CoversAt x.end x.start sp xs h ord m) [
    | inl under ↦ inr (record {
      span = x;
      kept_span = here;
      from = le_of_Ordered x.start sp xs ord m;
      to = under;
    })
    | inr c ↦ inr (CoversAt-cons c)
  ])
]
