-- ===== src/Cron/Parsed.antt =====
-- What the parser accepts: schedules whose fields are within their ranges and not empty.
use dk_agent_memory.Cron.Schedule.{
  Bits, Schedule, FieldSpec, minute_spec, hour_spec, dom_spec, month_spec, dow_spec, name_value,
  in_range, sunday, number_value, parse_value, mark, mark_range, stepped, step_of, bounds_of,
  runs_backwards,
}
use dk_agent_memory.Cron.Marks.{with_bit}
use dk_agent_memory.Base.{
  ℕ, zero, suc, ◌+◌, ◌-◌, ◌%◌, ◌^◌, ◌≤◌, ◌<◌, ◌≡◌, refl, ap, inl, inr, true, ◌||◌, Option, none,
  some, List, [], ◌∷◌, map, arith, ltb, leb, ◌==◌, Bool-cases, Option-cases, All, ℤ, negative,
  digits_value, signed, atoi, Text, codes, text_eq, refuse_if, ok_inj, >>=-eq-ok, refuse_if-eq-ok,
  trim_space, to_lower, cut_on, Cut-cases, ok, pos, negsuc,
}

abbrev pub Within : FieldSpec → ℕ → Type 0
Within spec v = (spec.min ≤ v) × (v ≤ spec.max)

-- The bits of a field are of numbers in its range.
abbrev pub InField : FieldSpec → Bits → Type 0
InField spec bits = (n : ℕ) → bits.on n ≡ true → Within spec n

abbrev pub OnAfter : Bits → Bits → Type 0
OnAfter bits marked = (n : ℕ) → bits.on n ≡ true → marked.on n ≡ true

-- ... and some number of the range is set.
pub record IsField (spec : FieldSpec) (bits : Bits) : Type 0 where
  pub in_field : (n : ℕ) → bits.on n ≡ true → (spec.min ≤ n) × (n ≤ spec.max)
  pub not_empty : (n : ℕ) × (bits.on n ≡ true)

pub record IsWellFormed (s : Schedule) : Type 0 where
  pub minute_field : IsField minute_spec s.minute
  pub hour_field : IsField hour_spec s.hour
  pub dom_field : IsField dom_spec s.dom
  pub month_field : IsField month_spec s.month
  pub dow_field : IsField dow_spec s.dow

name_value-Within :
    (spec : FieldSpec) (s : Text) (names : List (Text × ℕ)) (v : ℕ)
    → All (λ (entry : Text × ℕ). Within spec entry.1) names
    → name_value s names ≡ some v
    → Within spec v
unfolding name_value
name_value-Within spec s [] v h e = cc
name_value-Within spec s ((name, w) ∷ rest) v (within, h) e = elim (Bool-cases (text_eq s name)) [
  | inl same ↦ let is_w : w ≡ v = ground (arith, e, same) in rw (← is_w) within
  | inr other ↦ name_value-Within spec s rest v h (ground (arith, e, other))
]

in_range-Within : (spec : FieldSpec) (z : ℤ) (v : ℕ) → in_range spec z ≡ ok v → Within spec v
unfolding in_range
in_range-Within spec (negsuc n) v e = cc
in_range-Within spec (pos n) v e = ground (arith, e)

number_value-Within :
    (spec : FieldSpec) (s : Text) (o : Option ℤ) (v : ℕ)
    → number_value spec s o ≡ ok v
    → Within spec v
unfolding number_value
number_value-Within spec s none v e = cc
number_value-Within spec s (some z) v e = in_range-Within spec (sunday spec z) v e

parse_value-Within :
    (spec : FieldSpec) (s : Text) (v : ℕ)
    → All (λ (entry : Text × ℕ). Within spec entry.1) spec.names
    → parse_value s spec ≡ ok v
    → Within spec v
unfolding parse_value
parse_value-Within spec s v h e =
    let name = map to_lower (trim_space s) in
    elim (Option-cases (name_value name spec.names)) [
      | inl e' ↦
          number_value-Within spec (trim_space s) (atoi (trim_space s)) v
            (rw (e', parse_value) at e)
      | inr (w, e') ↦
          let is_w : w ≡ v = ground (arith, e, e') in
          rw (← is_w) (name_value-Within spec name spec.names w h e')
    ]

signed-pos-bound :
    (limit : ℕ) (o : Option ℕ) (n : ℕ) → signed pos limit o ≡ some (pos n) → n ≤ limit
signed-pos-bound limit none n e = cc
signed-pos-bound limit (some m) n e = ground (arith, e)

signed-negative-bound :
    (limit : ℕ) (o : Option ℕ) (n : ℕ) → signed negative limit o ≡ some (pos n) → n ≤ limit
signed-negative-bound limit none n e = cc
signed-negative-bound limit (some zero) n e = ground (arith, e)
signed-negative-bound limit (some (suc m)) n e = absurd (ground (arith, e))

atoi-bound : (s : Text) (n : ℕ) → atoi s ≡ some (pos n) → n ≤ 2 ^ 63
unfolding atoi
atoi-bound [] n e = cc
atoi-bound (c ∷ s) n e = elim (Bool-cases (c == b'-')) [
  | inl minus ↦ signed-negative-bound (2 ^ 63) (digits_value s) n (rw (minus, atoi) at e)
  | inr other ↦ elim (Bool-cases (c == b'+')) [
    | inl plus ↦
        let bound =
          signed-pos-bound (2 ^ 63 - 1) (digits_value s) n (rw (other, plus, atoi) at e) in
        omega (arith, bound)
    | inr digit ↦
        let bound =
          signed-pos-bound (2 ^ 63 - 1) (digits_value (c ∷ s)) n (rw (other, digit, atoi) at e) in
        omega (arith, bound)
  ]
]

stepped-bound :
    (spec : FieldSpec) (base text rest : Text) (o : Option ℤ) (step : ℕ)
    → ((n : ℕ) → o ≡ some (pos n) → n ≤ 2 ^ 63)
    → stepped spec base text o ≡ ok (rest, step)
    → step ≤ 2 ^ 63
unfolding stepped
stepped-bound spec base text rest none step h e = cc
stepped-bound spec base text rest (some (negsuc n)) step h e = cc
stepped-bound spec base text rest (some (pos zero)) step h e = cc
stepped-bound spec base text rest (some (pos (suc n))) step h e =
    let same : suc n ≡ step = ap (λ (r : Text × ℕ). r.1) (ok_inj e) in rw (← same) (h (suc n) refl)

pub step_of-bound :
    (spec : FieldSpec) (part rest : Text) (step : ℕ)
    → step_of spec part ≡ ok (rest, step)
    → step ≤ 2 ^ 63
unfolding step_of
step_of-bound spec part rest step e = elim (Cut-cases (cut_on b'/' part)) [
  | inl c ↦
      let same : 1 ≡ step = ap (λ (r : Text × ℕ). r.1) (ok_inj (rw (c, step_of) at e)) in
      omega (arith, same)
  | inr (base, text, c) ↦
      stepped-bound spec base text rest (atoi text) step (λ n. atoi-bound text n)
        (rw (c, step_of) at e)
]

pub bounds_of-Within :
    (spec : FieldSpec) (part : Text) (lo hi : ℕ)
    → spec.min ≤ spec.max
    → All (λ (entry : Text × ℕ). Within spec entry.1) spec.names
    → bounds_of spec part ≡ ok (lo, hi)
    → (spec.min ≤ lo) × (lo ≤ hi) × (hi ≤ spec.max)
unfolding bounds_of
bounds_of-Within spec part lo hi proper h e = elim (Bool-cases (text_eq part (codes "*"))) [
  | inl star ↦
      let same = ok_inj (rw (star, bounds_of) at e) in
      let lo_is : spec.min ≡ lo = ap (λ (r : ℕ × ℕ). r.0) same in
      let hi_is : spec.max ≡ hi = ap (λ (r : ℕ × ℕ). r.1) same in
      omega (arith, lo_is, hi_is, proper)
  | inr other ↦ elim (Cut-cases (cut_on b'-' part)) [
    | inl c ↦
        let (v, parsed, e1) = >>=-eq-ok (parse_value part spec) _ (rw (other, c, bounds_of) at e) in
        let within = parse_value-Within spec part v h parsed in
        let lo_is : v ≡ lo = ap (λ (r : ℕ × ℕ). r.0) (ok_inj e1) in
        let hi_is : v ≡ hi = ap (λ (r : ℕ × ℕ). r.1) (ok_inj e1) in
        omega (arith, lo_is, hi_is, within.0, within.1)
    | inr (low_text, high_text, c) ↦
        let (v, parsed, e1) =
          >>=-eq-ok (parse_value low_text spec) _ (rw (other, c, bounds_of) at e) in
        let (w, parsed', e2) = >>=-eq-ok (parse_value high_text spec) _ e1 in
        let (_, forwards, e3) =
          >>=-eq-ok (refuse_if (ltb w v) (runs_backwards spec.name part)) _ e2 in
        let le : v ≤ w = ground (arith, refuse_if-eq-ok (ltb w v) _ forwards) in
        let low = parse_value-Within spec low_text v h parsed in
        let high = parse_value-Within spec high_text w h parsed' in
        let lo_is : v ≡ lo = ap (λ (r : ℕ × ℕ). r.0) (ok_inj e3) in
        let hi_is : w ≡ hi = ap (λ (r : ℕ × ℕ). r.1) (ok_inj e3) in
        omega (arith, lo_is, hi_is, low.0, high.1, le)
  ]
]

pub mark-eq-ok :
    (v : ℕ) (bits marked : Bits)
    → mark v bits ≡ ok marked
    → (v < bits.size) × (with_bit v bits ≡ marked)
unfolding mark
mark-eq-ok v bits marked e = elim (Bool-cases (ltb v bits.size)) [
  | inl inside ↦ (ground (arith, inside), ok_inj (rw (inside, mark) at e))
  | inr outside ↦ absurd (ground (arith, outside, e))
]

pub with_bit-InField :
    (spec : FieldSpec) (v : ℕ) (bits : Bits)
    → Within spec v
    → InField spec bits
    → InField spec (with_bit v bits)
with_bit-InField spec v bits within h n on = elim (Bool-cases (n == v)) [
  | inl e ↦ let same : n ≡ v = ground (arith, e) in rw same within
  | inr e ↦ h n (ground (arith, on, e))
]

pub mark_range-InField :
    (spec : FieldSpec) (fuel v hi step : ℕ) (bits marked : Bits)
    → spec.min ≤ v
    → hi ≤ spec.max
    → step ≤ 2 ^ 63
    → bits.size ≤ 2 ^ 63
    → mark_range fuel v hi step bits ≡ ok marked
    → InField spec bits
    → InField spec marked × OnAfter bits marked × (marked.size ≡ bits.size)
unfolding mark_range
mark_range-InField spec zero v hi step bits marked low high small array e h = cc
mark_range-InField spec (suc fuel) v hi step bits marked low high small array e h =
    elim (Bool-cases (leb (2 ^ 63) v || leb v hi)) [
      | inr done ↦
          let same : bits ≡ marked = ok_inj (rw (done, mark_range) at e) in
          rw (← same) (h, (λ n on. on), refl)
      | inl goes_on ↦
          let (_, run, e') = >>=-eq-ok (mark v bits) _ (rw (goes_on, mark_range) at e) in
          let (inside, same) = mark-eq-ok v bits _ run in
          let le : v ≤ hi = ground (arith, goes_on, inside, array) in
          let next : (v + step) % 2 ^ 64 ≡ v + step = omega (arith, inside, array, small) in
          let within : Within spec v = omega (arith, low, high, le) in
          let e'' : mark_range fuel (v + step) hi step (with_bit v bits) ≡ ok marked =
            rw (same, ← next) e' in
          let (in_field, kept, size) =
            mark_range-InField spec fuel (v + step) hi step (with_bit v bits) marked
              (omega (arith, low)) high small array e'' (with_bit-InField spec v bits within h) in
          (in_field, (λ n on. kept n (ground (arith, on))), size)
    ]
