-- ===== src/Cron/Marks.antt =====
-- The loop that sets the bits of a range.
use dk_agent_memory.Cron.Schedule.{Bits, index_panic, mark, mark_range}
use dk_agent_memory.Base.{
  ℕ, zero, suc, ◌+◌, ◌-◌, ◌*◌, ◌%◌, ◌^◌, ◌≤◌, ◌<◌, ◌≡◌, refl, ◌∙◌, ◌↔◌, ◌⊎◌, inl, inr, true, false,
  arith, ltb, leb, ◌==◌, if◌then◌else◌, Bool-cases, ok, err,
}

-- The bits of a range with a step, set on top of others.
pub record Marked (lo hi step : ℕ) (bits marked : Bits) : Type 0 where
  pub same_size : marked.size ≡ bits.size
  pub bit :
      (n : ℕ)
      → (marked.on n ≡ true) ↔ ((bits.on n ≡ true) ⊎ ((k : ℕ) × (n ≡ lo + k * step) × (n ≤ hi)))

abbrev pub with_bit : ℕ → Bits → Bits
with_bit v bits = record bits { on = λ n. if n == v then true else bits.on n }

Marked-done : (v hi step : ℕ) (bits : Bits) → hi < v → Marked v hi step bits bits
Marked-done v hi step bits past = record {
  same_size = refl;
  bit = λ n. (
    λ on. inl on,
    λ named. elim named [ inl on ↦ on | inr (k, at, le) ↦ absurd (omega (arith, past, at, le)) ],
  );
}

Marked-step :
    (v hi step : ℕ) (bits marked : Bits)
    → v ≤ hi
    → Marked (v + step) hi step (with_bit v bits) marked
    → Marked v hi step bits marked
Marked-step v hi step bits marked le rest = record {
  same_size = rest.same_size;
  bit = λ n. (
    λ on. elim ((rest.bit n).0 on) [
      | inl on' ↦ elim (Bool-cases (n == v)) [
        | inl e ↦ inr (0, ground (arith, e), ground (arith, e, le))
        | inr e ↦ inl (ground (arith, on', e))
      ]
      | inr (k, at, le') ↦ inr (suc k, omega (arith, at), le')
    ],
    λ named. (rest.bit n).1 (elim named [
      | inl on ↦ inl (ground (arith, on))
      | inr (zero, at, le') ↦ inl (ground (arith, at))
      | inr (suc k, at, le') ↦ inr (k, omega (arith, at), le')
    ]),
  );
}

mark_range-step :
    (fuel v hi step : ℕ) (bits : Bits)
    → v ≤ hi
    → hi < bits.size
    → hi + step < 2 ^ 63
    → mark_range (suc fuel) v hi step bits ≡ mark_range fuel (v + step) hi step (with_bit v bits)
unfolding mark_range mark
mark_range-step fuel v hi step bits le inside small =
    let unsigned : leb (2 ^ 63) v ≡ false = ground (arith, small, le) in
    let goes_on : leb v hi ≡ true = ground (arith, le) in
    let fits : ltb v bits.size ≡ true = ground (arith, le, inside) in
    let next : (v + step) % 2 ^ 64 ≡ v + step = omega (arith, le, small) in
    rw (unsigned, goes_on, fits, next, mark_range) refl

-- For a range within the array and a step that does not carry the counter past the largest `int`, the
-- loop ends, and it sets the bits of the range that the step meets and no other.
pub mark_range-Marked :
    (fuel v hi step : ℕ) (bits : Bits)
    → hi < bits.size
    → 0 < step
    → hi + step < 2 ^ 63
    → v ≤ hi + step
    → hi + 1 - v < fuel
    → (marked : Bits) × (mark_range fuel v hi step bits ≡ ok marked) × Marked v hi step bits marked
unfolding mark_range mark
mark_range-Marked zero v hi step bits inside positive small near enough =
    absurd (omega (arith, enough))
mark_range-Marked (suc fuel) v hi step bits inside positive small near enough =
    let unsigned : leb (2 ^ 63) v ≡ false = ground (arith, small, near) in
    elim (Bool-cases (leb v hi)) [
      | inr e ↦
          (bits, rw (unsigned, e, mark_range) refl, Marked-done v hi step bits (ground (arith, e)))
      | inl e ↦
          let le : v ≤ hi = ground (arith, e) in
          let (marked, run, is_marked) =
            mark_range-Marked fuel (v + step) hi step (with_bit v bits) inside positive small
              (omega (arith, le)) (omega (arith, enough, positive, le)) in
          (
            marked,
            mark_range-step fuel v hi step bits le inside small ∙ run,
            Marked-step v hi step bits marked le is_marked,
          )
    ]

-- A counter that is carried past the largest `int` is a negative index of the array.
pub mark_range-panic :
    (fuel lo hi step : ℕ) (bits : Bits)
    → lo ≤ hi
    → hi < bits.size
    → bits.size ≤ 2 ^ 63
    → step < 2 ^ 63
    → 2 ^ 63 ≤ lo + step
    → mark_range (suc (suc fuel)) lo hi step bits ≡ err (index_panic (lo + step))
unfolding mark_range mark
mark_range-panic fuel lo hi step bits le inside small positive over =
    let unsigned : leb (2 ^ 63) lo ≡ false = ground (arith, le, inside, small) in
    let first : leb lo hi ≡ true = ground (arith, le) in
    let fits : ltb lo bits.size ≡ true = ground (arith, le, inside) in
    let next : (lo + step) % 2 ^ 64 ≡ lo + step = omega (arith, le, inside, small, positive) in
    let wrapped : leb (2 ^ 63) (lo + step) ≡ true = ground (arith, over) in
    let outside : ltb (lo + step) bits.size ≡ false = ground (arith, over, small) in
    rw (unsigned, first, fits, next, wrapped, outside, mark_range) refl
