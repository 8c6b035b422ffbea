-- ===== src/Redact/Replace.antt =====
-- What `Apply` writes, against a description byte by byte; and what an overlap leaves behind.
use dk_agent_memory.Redact.{
  Span, before, insert, sort, sweep, candidates, collect, marker, write_from, finding, line_starts,
  replaced, apply, clean,
}
use dk_agent_memory.Redact.Overlaps.{Disjoint, IsWithin, InText}
use dk_agent_memory.Redact.Matches.{collect-Disjoint}
use native.Mathlib.Nat.{le_refl}
use dk_agent_memory.Base.{
  ℕ, zero, suc, ◌+◌, ◌-◌, ◌≤◌, ◌<◌, ◌≡◌, refl, sym, ap, ◌∙◌, ◌&&◌, Option, none, some, List, [],
  ◌∷◌, ◌++◌, map, arith, ltb, leb, ◌==◌, if◌then◌else◌, length, take, drop, length-drop, drop-drop,
  All, Text,
}

-- The span over a position.
covering : ℕ → List Span → Option Span
covering i [] = none
covering i (sp ∷ sps) = if leb sp.start i && ltb i sp.end then some sp else covering i sps

-- Each byte from position `i` on: kept if no span lies over it, a marker at the first byte of a
-- span, dropped at the others.
pub masked : List Span → ℕ → Text → Text
masked sps i [] = []
masked sps i (c ∷ s) =
    let rest = masked sps (i + 1) s in
    elim (covering i sps) [
      | none ↦ c ∷ rest
      | some sp ↦ if sp.start == i then marker sp.kind ++ rest else rest
    ]

covering_before : (i e : ℕ) (sps : List Span) → Disjoint e sps → i < e → covering i sps ≡ none
unfolding covering
covering_before i e [] h lt = refl
covering_before i e (sp ∷ sps) (le, lt', h) lt = ground (arith, covering_before i sp.end sps h)

-- A span is out of sight behind its end.
masked_behind :
    (sp : Span) (sps : List Span) (i : ℕ) (s : Text)
    → sp.end ≤ i
    → masked (sp ∷ sps) i s ≡ masked sps i s
unfolding masked covering
masked_behind sp sps i [] le = refl
masked_behind sp sps i (c ∷ s) le = ground (arith, masked_behind sp sps (i + 1) s (omega arith))

-- Before the first span bytes are copied.
masked_ahead :
    (sps : List Span) (e k i : ℕ) (s : Text)
    → Disjoint e sps
    → i + k ≤ e
    → masked sps i s ≡ take k s ++ masked sps (i + k) (drop k s)
unfolding masked
masked_ahead sps e zero i s h le = let z : i + zero ≡ i = omega arith in rw z
masked_ahead sps e (suc k) i [] h le = refl
masked_ahead sps e (suc k) i (c ∷ s) h le =
    let z : i + suc k ≡ i + 1 + k = omega arith in
    rw (masked, covering_before i e sps h (omega arith), z)
      (ap (λ t. c ∷ t) (masked_ahead sps e k (i + 1) s h (omega arith)))

-- Inside a span, behind its first byte, bytes are dropped.
masked_under :
    (sp : Span) (sps : List Span) (k i : ℕ) (s : Text)
    → sp.start < i
    → i + k ≡ sp.end
    → masked (sp ∷ sps) i s ≡ masked (sp ∷ sps) sp.end (drop k s)
unfolding masked covering
masked_under sp sps zero i s lt e =
    let z : i ≡ sp.end = omega arith in ap (λ j. masked (sp ∷ sps) j s) z
masked_under sp sps (suc k) i [] lt e = refl
masked_under sp sps (suc k) i (c ∷ s) lt e =
    ground (arith, masked_under sp sps k (i + 1) s (omega arith) (omega arith))

masked_none : (i : ℕ) (s : Text) → masked [] i s ≡ s
unfolding masked covering
masked_none i [] = refl
masked_none i (c ∷ s) = ap (λ t. c ∷ t) (masked_none (i + 1) s)

masked_start :
    (sp : Span) (sps : List Span) (s : Text)
    → sp.start < sp.end
    → 0 < length s
    → masked (sp ∷ sps) sp.start s
      ≡ marker sp.kind ++ masked (sp ∷ sps) sp.end (drop (sp.end - sp.start) s)
unfolding masked covering
masked_start sp sps [] lt n = absurd (omega arith)
masked_start sp sps (c ∷ s) lt n =
    let k = sp.end - (sp.start + 1) in
    let z : sp.end - sp.start ≡ suc k = omega arith in
    let under = masked_under sp sps k (sp.start + 1) s (omega arith) (omega arith) in
    rw z (ground (arith, under))

write_from-masked :
    (s : Text) (prev : ℕ) (sps : List Span)
    → Disjoint prev sps
    → All (IsWithin (length s)) sps
    → write_from s prev sps ≡ masked sps prev (drop prev s)
unfolding write_from
write_from-masked s prev [] d w = sym (masked_none prev (drop prev s))
write_from-masked s prev (sp ∷ sps) (le, lt, d) ((_, fits), w) =
    let k = sp.start - prev in
    let t = drop prev s in
    let at : prev + k ≡ sp.start = omega arith in
    let span : sp.start + (sp.end - sp.start) ≡ sp.end = omega arith in
    let room : 0 < length (drop sp.start s) = omega (arith, length-drop sp.start s) in
    sym (
      masked_ahead (sp ∷ sps) sp.start k prev t (le_refl _, lt, d) (omega arith)
      ∙ rw (drop-drop k prev s, at)
          (ap (λ u. take k t ++ u)
            (masked_start sp sps (drop sp.start s) lt room
              ∙ ap (λ u. marker sp.kind ++ u)
                  (rw (drop-drop (sp.end - sp.start) sp.start s, span)
                    (masked_behind sp sps sp.end (drop sp.end s) (le_refl _)
                      ∙ sym (write_from-masked s sp.end sps d w))))))

replaced_lem :
    (s : Text) (sps : List Span)
    → replaced s sps ≡ (write_from s 0 sps, map (finding (line_starts s)) sps)
unfolding replaced write_from
replaced_lem s [] = refl
replaced_lem s (sp ∷ sps) = refl

-- `Apply` keeps every byte outside the spans that `collect` chose, in place, and puts one marker of
-- the span's kind where a span begins; its findings are those spans in order.
pub apply-masked :
    (find_all : ℕ → Text → List (Option (ℕ × ℕ))) (s : Text)
    → InText find_all s
    → apply find_all s
      ≡ (masked (collect find_all s) 0 s, map (finding (line_starts s)) (collect find_all s))
unfolding apply
apply-masked find_all s within =
    let (apart, inside) = collect-Disjoint find_all s within in
    let sps = collect find_all s in
    replaced_lem s sps
    ∙ ap (λ t. (t, map (finding (line_starts s)) sps)) (write_from-masked s 0 sps apart inside)

-- Two candidates of which the second begins inside the first and ends behind it.
abbrev pub Overlap : Span → Span → Type 0
Overlap a b = (a.start < b.start) × (b.start < a.end) × (a.end < b.end)

sweep-Overlap : (a b : Span) → Overlap a b → sweep 0 (sort (a ∷ b ∷ [])) ≡ a ∷ []
unfolding sweep sort insert before
sweep-Overlap a b o = ground arith

-- Where the only two matches overlap so, the second is dropped whole: the text behind the first
-- match, which holds the end of the second one, is written out as it was.
pub clean-Overlap :
    (find_all : ℕ → Text → List (Option (ℕ × ℕ))) (c : ℕ) (s : Text) (a b : Span)
    → candidates find_all (c ∷ s) ≡ a ∷ b ∷ []
    → Overlap a b
    → clean find_all (c ∷ s) ≡ take a.start (c ∷ s) ++ (marker a.kind ++ drop a.end (c ∷ s))
unfolding clean apply collect replaced write_from
clean-Overlap find_all c s a b e o =
    let z : a.start - 0 ≡ a.start = omega arith in
    let kept = ap (λ t. sweep 0 (sort t)) e ∙ sweep-Overlap a b o in
    ap (λ t. (replaced (c ∷ s) t).0) kept
    ∙ ap (λ k. take k (c ∷ s) ++ (marker a.kind ++ drop a.end (c ∷ s))) z
