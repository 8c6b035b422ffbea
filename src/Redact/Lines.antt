-- ===== src/Redact/Lines.antt =====
-- Line and column of an offset, against a walk over the bytes before it.
use dk_agent_memory.Redact.{starts_from, line_starts, search_start, line_at}
use dk_agent_memory.Base.{
  ℕ, zero, suc, ◌+◌, ◌-◌, ◌≤◌, ◌≡◌, refl, sym, inl, inr, false, [], ◌∷◌, arith, ltb, ◌==◌,
  if◌then◌else◌, Bool-cases, length, get_or, take, Text,
}

-- Counting lines and columns from 1, in bytes.
pub walk : ℕ × ℕ → Text → ℕ × ℕ
walk (line, column) [] = (line, column)
walk (line, column) (c ∷ s) = walk (if c == b'\n' then (line + 1, 1) else (line, column + 1)) s

search_start_later :
    (i : ℕ) (s : Text) (offset : ℕ) → offset ≤ i → search_start (starts_from i s) offset ≡ 0
unfolding search_start starts_from
search_start_later i [] offset le = refl
search_start_later i (c ∷ s) offset le = ground (arith, search_start_later (i + 1) s offset)

-- From byte `i`, which stands on a line that begins at `p`.
walk-search_start :
    (line p i k offset : ℕ) (s : Text)
    → p ≤ i
    → i + k ≡ offset
    → k ≤ length s
    → walk (line, i - p + 1) (take k s) ≡ (
      line + search_start (starts_from i s) offset,
      offset - get_or (p ∷ starts_from i s) (search_start (starts_from i s) offset) 0 + 1,
    )
unfolding walk search_start starts_from
walk-search_start line p i zero offset s le e n =
    rw (search_start_later i s offset (omega arith)) (ground arith)
walk-search_start line p i (suc k) offset [] le e n = absurd (omega arith)
walk-search_start line p i (suc k) offset (c ∷ s) le e n = elim (Bool-cases (c == b'\n')) [
  | inl new ↦
      let z : i + 1 - (i + 1) + 1 ≡ 1 = omega arith in
      let behind : ltb offset (i + 1) ≡ false = ground arith in
      let ih =
        walk-search_start (line + 1) (i + 1) (i + 1) k offset s (omega arith) (omega arith)
          (omega arith) in
      let w : line + 1 + search_start (starts_from (i + 1) s) offset
          ≡ line + suc (search_start (starts_from (i + 1) s) offset) =
        omega arith in
      rw (new, search_start, behind) (rw (z, w) at ih)
  | inr plain ↦
      let z : i + 1 - p + 1 ≡ i - p + 1 + 1 = omega arith in
      let ih =
        walk-search_start line p (i + 1) k offset s (omega arith) (omega arith) (omega arith) in
      rw plain (rw z at ih)
]

-- The line and column of a finding are those of a reader who counts the bytes before it.
pub line_at-walk :
    (s : Text) (offset : ℕ)
    → offset ≤ length s
    → line_at (line_starts s) offset ≡ walk (1, 1) (take offset s)
unfolding line_at line_starts search_start walk
line_at-walk s offset le =
    let first : ltb offset 0 ≡ false = ground arith in
    let i = search_start (starts_from 0 s) offset in
    let z : suc i - 1 ≡ i = omega arith in
    let w : i + 1 ≡ 1 + i = omega arith in
    rw (search_start, first, z, w)
      (sym (walk-search_start 1 0 0 offset offset s (omega arith) (omega arith) le))
