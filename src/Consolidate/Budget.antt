-- ===== src/Consolidate/Budget.antt =====
-- The size of the prompt of a session.
use dk_agent_memory.Consolidate.Backend.{Observation}
use dk_agent_memory.Consolidate.Prompt.{
  budget, newline, minus, show_int, observation_line, omitted, observation_lines,
}
use dk_agent_memory.Base.{
  ℕ, zero, suc, ◌+◌, ◌/◌, ◌%◌, ◌≤◌, inl, inr, List, [], ◌∷◌, ◌++◌, arith, ltb, Bool-cases, length,
  length-append, ℤ, decimal_from, show, codes, pos, negsuc,
}

decimal_from-bound : (fuel n : ℕ) → length (decimal_from fuel n) ≤ fuel
unfolding decimal_from
decimal_from-bound zero n = omega arith
decimal_from-bound (suc fuel) n = elim (Bool-cases (ltb n 10)) [
  | inl e ↦ rw e (omega arith)
  | inr e ↦ rw e (
      omega (
        arith,
        length-append (decimal_from fuel (n / 10)) ((b'0' + n % 10) ∷ []),
        decimal_from-bound fuel (n / 10),
      ))
]

show_int-bound : (z : ℤ) → length (show_int z) ≤ 21
unfolding show_int show
show_int-bound (pos n) = omega (arith, decimal_from-bound 20 n)
show_int-bound (negsuc n) = omega (arith, decimal_from-bound 20 (suc n))

omitted-bound : (total used : ℕ) → length (omitted total used) ≤ 70
unfolding omitted
omitted-bound total used =
    let few = show_int-bound (minus total used) in
    let whole =
      length-append (show_int (minus total used))
        (codes " further observations omitted for length." ++ newline) in
    omega (arith, few, whole)

observation_lines-bound :
    (total used : ℕ) (os : List Observation)
    → used ≤ budget
    → length (observation_lines total used os) + used ≤ budget + length os + 70
unfolding observation_lines
observation_lines-bound total used [] h = omega (arith, h)
observation_lines-bound total used (o ∷ os) h =
    let line = observation_line o in
    let more = used + length line in
    elim (Bool-cases (ltb budget more)) [
      | inl e ↦ rw (e, observation_lines) (omega (arith, omitted-bound total used, h))
      | inr e ↦
          let rest = observation_lines-bound total more os (ground (arith, e)) in
          let whole = length-append line (newline ++ observation_lines total more os) in
          rw (e, observation_lines) (omega (arith, rest, whole))
    ]

-- However many observations a session has and however long they are, their lines in the prompt take no more
-- than the budget, a line break for each and the note of what is left out.
pub observation_lines-within :
    (total : ℕ) (os : List Observation)
    → length (observation_lines total 0 os) ≤ budget + length os + 70
observation_lines-within total os =
    let h = observation_lines-bound total 0 os (omega arith) in omega (arith, h)
