-- ===== src/Redact/Matches.antt =====
-- `collect` against the matches of the rules.
use dk_agent_memory.Redact.{
  Kind, Span, rules, matched, sort, sweep, candidates_from, candidates, collect,
}
use dk_agent_memory.Redact.Overlaps.{
  Disjoint, IsWithin, InText, CoversAt, sort-All, sort-Ordered, sweep-All, sweep-Disjoint,
  sweep-CoversAt, Member-sort,
}
use dk_agent_memory.Base.{
  ℕ, zero, suc, ◌+◌, ◌≤◌, ◌<◌, ◌≡◌, refl, inl, inr, false, Option, none, some, List, [], ◌∷◌, arith,
  leb, Bool-cases, length, All, All-append, Member, Member-append_left, Member-append_right,
  All-map, Text, here, there,
}

matched-IsWithin :
    (n : ℕ) (kind : Kind) (rank : ℕ) (ms : List (Option (ℕ × ℕ)))
    → ((lo hi : ℕ) → Member (some (lo, hi)) ms → hi ≤ n)
    → All (IsWithin n) (matched kind rank ms)
unfolding matched
matched-IsWithin n kind rank [] h = tt
matched-IsWithin n kind rank (none ∷ ms) h =
    matched-IsWithin n kind rank ms (λ lo hi m. h lo hi (there m))
matched-IsWithin n kind rank (some (lo, hi) ∷ ms) h =
    let ih = matched-IsWithin n kind rank ms (λ lo hi m. h lo hi (there m)) in
    elim (Bool-cases (leb hi lo)) [
      | inl empty ↦ rw empty ih
      | inr long ↦ rw long ((ground arith, h lo hi here), ih)
    ]

Member-matched :
    (kind : Kind) (rank lo hi : ℕ) (ms : List (Option (ℕ × ℕ)))
    → lo < hi
    → Member (some (lo, hi)) ms
    → Member (record { start = lo; end = hi; kind = kind; rank = rank }) (matched kind rank ms)
unfolding matched
Member-matched kind rank lo hi [] lt m = elim m [ ]
Member-matched kind rank lo hi (some (lo', hi') ∷ ms) lt here =
    let long : leb hi lo ≡ false = ground arith in rw long here
Member-matched kind rank lo hi (none ∷ ms) lt (there m) = Member-matched kind rank lo hi ms lt m
Member-matched kind rank lo hi (some (lo', hi') ∷ ms) lt (there m) =
    elim (Bool-cases (leb hi' lo')) [
      | inl empty ↦ rw empty (Member-matched kind rank lo hi ms lt m)
      | inr long ↦ rw long (there (Member-matched kind rank lo hi ms lt m))
    ]

module _ (find_all : ℕ → Text → List (Option (ℕ × ℕ))) (s : Text) (within : InText find_all s) where
  candidates_from-IsWithin :
      (i : ℕ) (kinds : List Kind) → All (IsWithin (length s)) (candidates_from find_all i kinds s)
  unfolding candidates_from
  candidates_from-IsWithin i [] = tt
  candidates_from-IsWithin i (kind ∷ kinds) =
      All-append (IsWithin (length s)) (matched kind i (find_all i s)) _
        (matched-IsWithin (length s) kind i (find_all i s) (within i))
        (candidates_from-IsWithin (i + 1) kinds)

  -- Some candidate stands for each match of a rule of the table.
  Member-candidates_from :
      (i j k lo hi : ℕ) (kinds : List Kind)
      → i + j ≡ k
      → j < length kinds
      → lo < hi
      → Member (some (lo, hi)) (find_all k s)
      → (sp : Span) × Member sp (candidates_from find_all i kinds s)
        × (sp.start ≡ lo)
        × (sp.end ≡ hi)
  unfolding candidates_from
  Member-candidates_from i j k lo hi [] e lt long m = absurd (omega arith)
  Member-candidates_from i zero k lo hi (kind ∷ kinds) e lt long m =
      let same : k ≡ i = omega arith in
      let m' : Member (some (lo, hi)) (find_all i s) = rw same at m in
      (_, Member-append_left _ _ (Member-matched kind i lo hi (find_all i s) long m'), refl, refl)
  Member-candidates_from i (suc j) k lo hi (kind ∷ kinds) e lt long m =
      let (sp, at, from, to) =
        Member-candidates_from (i + 1) j k lo hi kinds (omega arith) (omega arith) long m in
      (sp, Member-append_right (matched kind i (find_all i s)) _ at, from, to)

  pub candidates-IsWithin : All (IsWithin (length s)) (candidates find_all s)
  unfolding candidates
  candidates-IsWithin = candidates_from-IsWithin 0 rules

none_IsWithin : (sps : List Span) → All (IsWithin 0) sps → sps ≡ []
none_IsWithin [] h = refl
none_IsWithin (sp ∷ sps) h = absurd (omega arith)

module _ (find_all : ℕ → Text → List (Option (ℕ × ℕ))) where
  -- The early return for an empty text agrees with the rest.
  collect-sweep :
      (s : Text) → InText find_all s → collect find_all s ≡ sweep 0 (sort (candidates find_all s))
  unfolding collect
  collect-sweep [] within =
      rw (none_IsWithin _ (candidates-IsWithin find_all [] within)) (unfold sort sweep in refl)
  collect-sweep (c ∷ s) within = refl

module _ (find_all : ℕ → Text → List (Option (ℕ × ℕ))) (s : Text) (within : InText find_all s) where
  sorted-IsWithin : All (IsWithin (length s)) (sort (candidates find_all s))
  sorted-IsWithin = sort-All _ _ (candidates-IsWithin find_all s within)

  proper : All (λ sp. sp.start < sp.end) (sort (candidates find_all s))
  proper = All-map _ _ (λ sp w. w.0) _ sorted-IsWithin

  -- The kept spans come in order, none is empty, no two meet, and they end inside the text.
  pub collect-Disjoint :
      Disjoint 0 (collect find_all s) × All (IsWithin (length s)) (collect find_all s)
  collect-Disjoint =
      rw (collect-sweep find_all s within)
        (sweep-Disjoint 0 _ proper, sweep-All _ 0 _ sorted-IsWithin)

  -- The first byte of every match that a rule of the table finds lies under a kept span.
  pub collect-CoversAt :
      (i lo hi : ℕ)
      → i < length rules
      → lo < hi
      → Member (some (lo, hi)) (find_all i s)
      → CoversAt lo (collect find_all s)
  unfolding candidates
  collect-CoversAt i lo hi known long m =
      let (sp, at, from, to) =
        Member-candidates_from find_all s within 0 i i lo hi rules (omega arith) known long m in
      elim (sweep-CoversAt 0 0 sp _ proper (sort-Ordered _) (Member-sort sp _ at)) [
        | inl no_end ↦ absurd (omega arith)
        | inr c ↦ rw (collect-sweep find_all s within, ← from) c
      ]
