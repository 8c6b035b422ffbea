-- ===== src/Cron/Fields.antt =====
-- An expression that the parser accepts is a schedule of fields within their ranges, none of them empty.
use dk_agent_memory.Cron.Schedule.{
  Bits, Schedule, FieldSpec, minute_spec, hour_spec, dom_spec, month_spec, dow_spec, no_bits, mark,
  mark_range, step_of, bounds_of, parse_range, parse_parts, parse_field, parse_fields, equivalent,
  every_of, parse_equivalent, parse_shorthand, parse, empty_element,
}
use dk_agent_memory.Cron.Parsed.{
  Within, InField, OnAfter, IsWellFormed, IsField, step_of-bound, bounds_of-Within, mark-eq-ok,
  with_bit-InField, mark_range-InField,
}
use mathlib.Core.Path.{subst}
use dk_agent_memory.Cron.Marks.{with_bit}
use dk_agent_memory.Base.{
  ℕ, zero, suc, ◌+◌, ◌-◌, ◌%◌, ◌^◌, ◌≤◌, ◌<◌, ◌≡◌, refl, ◌∙◌, ◌⊎◌, inl, inr, true, ◌||◌, Option,
  none, some, List, [], ◌∷◌, ◌++◌, arith, leb, ◌==◌, Bool-cases, All, ℤ, Text, codes, is_empty,
  refuse_if, ok_inj, >>=-eq-ok, trim_space, fields, has_prefix, split_from, split_on, ok, pos,
  negsuc,
}

-- A range that the parser proper accepts, with an array that holds it.
pub record IsSpec (spec : FieldSpec) (size : ℕ) : Type 0 where
  pub proper : spec.min ≤ spec.max
  pub named : All (λ (entry : Text × ℕ). Within spec entry.1) spec.names
  pub short : size ≤ 2 ^ 63

-- What the parse of an element or of a list of them has added to the bits.
abbrev Grown : FieldSpec → Bits → Bits → Type 0
Grown spec bits marked =
    InField spec marked
    × OnAfter bits marked
    × (marked.size ≡ bits.size)
    × ((n : ℕ) × (marked.on n ≡ true))

mark_range-first :
    (spec : FieldSpec) (fuel lo hi step : ℕ) (bits marked : Bits)
    → spec.min ≤ lo
    → lo ≤ hi
    → hi ≤ spec.max
    → step ≤ 2 ^ 63
    → bits.size ≤ 2 ^ 63
    → mark_range (suc fuel) lo hi step bits ≡ ok marked
    → InField spec bits
    → marked.on lo ≡ true
unfolding mark_range
mark_range-first spec fuel lo hi step bits marked low le high small array e h =
    let goes_on : (leb (2 ^ 63) lo || leb lo hi) ≡ true = ground (arith, le) in
    let (_, run, e') = >>=-eq-ok (mark lo bits) _ (rw (goes_on, mark_range) at e) in
    let (inside, same) = mark-eq-ok lo bits _ run in
    let next : (lo + step) % 2 ^ 64 ≡ lo + step = omega (arith, inside, array, small) in
    let e'' : mark_range fuel (lo + step) hi step (with_bit lo bits) ≡ ok marked =
      rw (same, ← next) e' in
    let within : Within spec lo = omega (arith, low, high, le) in
    let (_, kept, _) =
      mark_range-InField spec fuel (lo + step) hi step (with_bit lo bits) marked
        (omega (arith, low)) high small array e'' (with_bit-InField spec lo bits within h) in
    kept lo (ground arith)

parse_range-Grown :
    (spec : FieldSpec) (part : Text) (bits marked : Bits)
    → IsSpec spec bits.size
    → InField spec bits
    → parse_range part spec bits ≡ ok marked
    → Grown spec bits marked
unfolding parse_range
parse_range-Grown spec part bits marked is_spec h e =
    let (_, _, e1) =
      >>=-eq-ok (refuse_if (is_empty (trim_space part)) (empty_element spec.name)) _ e in
    let ((rest, step), stepped, e2) = >>=-eq-ok (step_of spec (trim_space part)) _ e1 in
    let ((lo, hi), bounded, e3) = >>=-eq-ok (bounds_of spec rest) _ e2 in
    let small = step_of-bound spec (trim_space part) rest step stepped in
    let (low, le, high) = bounds_of-Within spec rest lo hi is_spec.proper is_spec.named bounded in
    let e4 : mark_range (suc (hi - lo + 1)) lo hi step bits ≡ ok marked =
      let same : hi - lo + 2 ≡ suc (hi - lo + 1) = omega arith in
      subst (λ fuel. mark_range fuel lo hi step bits ≡ ok marked) same e3 in
    let (in_field, kept, size) =
      mark_range-InField spec (suc (hi - lo + 1)) lo hi step bits marked low high small
        is_spec.short e4 h in
    (
      in_field,
      kept,
      size,
      (
        lo,
        mark_range-first spec (hi - lo + 1) lo hi step bits marked low le high small is_spec.short
            e4 h,
      ),
    )

parse_parts-Grown :
    (spec : FieldSpec) (part : Text) (parts : List Text) (bits marked : Bits)
    → IsSpec spec bits.size
    → InField spec bits
    → parse_parts (part ∷ parts) spec bits ≡ ok marked
    → Grown spec bits marked
unfolding parse_parts
parse_parts-Grown spec part [] bits marked is_spec h e =
    let (once, first, e1) = >>=-eq-ok (parse_range part spec bits) _ e in
    let same : once ≡ marked = ok_inj e1 in
    rw (← same) (parse_range-Grown spec part bits once is_spec h first)
parse_parts-Grown spec part (q ∷ qs) bits marked is_spec h e =
    let (once, first, e1) = >>=-eq-ok (parse_range part spec bits) _ e in
    let (in_field, kept, size, (n, on)) = parse_range-Grown spec part bits once is_spec h first in
    let wide : IsSpec spec once.size = record {
      proper = is_spec.proper;
      named = is_spec.named;
      short = rw size is_spec.short;
    } in
    let (in_field', kept', size', on') = parse_parts-Grown spec q qs once marked wide in_field e1 in
    (in_field', (λ m on_m. kept' m (kept m on_m)), size' ∙ size, on')

split_from-cons :
    (sep : ℕ) (part s : Text) → (p : Text) × (ps : List Text) × (split_from sep part s ≡ p ∷ ps)
unfolding split_from
split_from-cons sep part [] = (part, [], refl)
split_from-cons sep part (c ∷ s) = elim (Bool-cases (c == sep)) [
  | inl e ↦ (part, split_from sep [] s, rw e refl)
  | inr e ↦
      let (p, ps, same) = split_from-cons sep (part ++ c ∷ []) s in (p, ps, rw (e, split_from) same)
]

parse_field-IsField :
    (spec : FieldSpec) (field : Text) (size : ℕ) (marked : Bits)
    → IsSpec spec size
    → parse_field field spec (no_bits size) ≡ ok marked
    → IsField spec marked
unfolding parse_field split_on
parse_field-IsField spec field size marked is_spec e =
    let (p, ps, same) = split_from-cons b',' [] field in
    let (in_field, _, _, on) =
      parse_parts-Grown spec p ps (no_bits size) marked is_spec (λ n on. cc)
        (subst (λ parts. parse_parts parts spec (no_bits size) ≡ ok marked) same e) in
    record { in_field = in_field; not_empty = on }

minute_spec-IsSpec : IsSpec minute_spec 60
minute_spec-IsSpec = record { proper = omega arith; named = tt; short = omega arith }

hour_spec-IsSpec : IsSpec hour_spec 24
hour_spec-IsSpec = record { proper = omega arith; named = tt; short = omega arith }

dom_spec-IsSpec : IsSpec dom_spec 32
dom_spec-IsSpec = record { proper = omega arith; named = tt; short = omega arith }

month_spec-IsSpec : IsSpec month_spec 13
month_spec-IsSpec = record {
  proper = omega arith;
  named = (
    (omega arith, omega arith),
    (
      (omega arith, omega arith),
      (
        (omega arith, omega arith),
        (
          (omega arith, omega arith),
          (
            (omega arith, omega arith),
            (
              (omega arith, omega arith),
              (
                (omega arith, omega arith),
                (
                  (omega arith, omega arith),
                  (
                    (omega arith, omega arith),
                    (
                      (omega arith, omega arith),
                      ((omega arith, omega arith), ((omega arith, omega arith), tt)),
                    ),
                  ),
                ),
              ),
            ),
          ),
        ),
      ),
    ),
  );
  short = omega arith;
}

dow_spec-IsSpec : IsSpec dow_spec 7
dow_spec-IsSpec = record {
  proper = omega arith;
  named = (
    (omega arith, omega arith),
    (
      (omega arith, omega arith),
      (
        (omega arith, omega arith),
        (
          (omega arith, omega arith),
          (
            (omega arith, omega arith),
            ((omega arith, omega arith), ((omega arith, omega arith), tt)),
          ),
        ),
      ),
    ),
  );
  short = omega arith;
}

parse_fields-IsWellFormed :
    (expr trimmed : Text) (words : List Text) (s : Schedule)
    → parse_fields expr trimmed words ≡ ok s
    → IsWellFormed s
unfolding parse_fields
parse_fields-IsWellFormed expr trimmed (f0 ∷ f1 ∷ f2 ∷ f3 ∷ f4 ∷ []) s e =
    let (minute, e0, r0) = >>=-eq-ok (parse_field f0 minute_spec (no_bits 60)) _ e in
    let (hour, e1, r1) = >>=-eq-ok (parse_field f1 hour_spec (no_bits 24)) _ r0 in
    let (dom, e2, r2) = >>=-eq-ok (parse_field f2 dom_spec (no_bits 32)) _ r1 in
    let (month, e3, r3) = >>=-eq-ok (parse_field f3 month_spec (no_bits 13)) _ r2 in
    let (dow, e4, r4) = >>=-eq-ok (parse_field f4 dow_spec (no_bits 7)) _ r3 in
    rw (← ok_inj r4) (record {
      minute_field = parse_field-IsField minute_spec f0 60 minute minute_spec-IsSpec e0;
      hour_field = parse_field-IsField hour_spec f1 24 hour hour_spec-IsSpec e1;
      dom_field = parse_field-IsField dom_spec f2 32 dom dom_spec-IsSpec e2;
      month_field = parse_field-IsField month_spec f3 13 month month_spec-IsSpec e3;
      dow_field = parse_field-IsField dow_spec f4 7 dow dow_spec-IsSpec e4;
    })
parse_fields-IsWellFormed expr trimmed [] s e = cc
parse_fields-IsWellFormed expr trimmed (f0 ∷ []) s e = cc
parse_fields-IsWellFormed expr trimmed (f0 ∷ f1 ∷ []) s e = cc
parse_fields-IsWellFormed expr trimmed (f0 ∷ f1 ∷ f2 ∷ []) s e = cc
parse_fields-IsWellFormed expr trimmed (f0 ∷ f1 ∷ f2 ∷ f3 ∷ []) s e = cc
parse_fields-IsWellFormed expr trimmed (f0 ∷ f1 ∷ f2 ∷ f3 ∷ f4 ∷ f5 ∷ fs) s e = cc

parse_equivalent-IsWellFormed :
    (expr : Text) (o : Option Text) (s : Schedule) → parse_equivalent expr o ≡ ok s → IsWellFormed s
unfolding parse_equivalent
parse_equivalent-IsWellFormed expr none s e = cc
parse_equivalent-IsWellFormed expr (some text) s e =
    let (s', e', same) = >>=-eq-ok (parse_fields text text (fields text)) _ e in
    let h = parse_fields-IsWellFormed text text (fields text) s' e' in
    rw (← ok_inj same) (record {
      minute_field = h.minute_field;
      hour_field = h.hour_field;
      dom_field = h.dom_field;
      month_field = h.month_field;
      dow_field = h.dow_field;
    })

every_of-pos : (expr : Text) (o : Option ℤ) (s : Schedule) → every_of expr o ≡ ok s → 0 < s.every
unfolding every_of
every_of-pos expr none s e = cc
every_of-pos expr (some (negsuc d)) s e = cc
every_of-pos expr (some (pos zero)) s e = cc
every_of-pos expr (some (pos (suc d))) s e = rw (← ok_inj e) (omega arith)

-- An expression that the parser accepts is an interval, or a schedule whose five fields each name at least
-- one number, and none out of the field's range.
pub parse-IsWellFormed :
    (parse_duration : Text → Option ℤ) (expr : Text) (s : Schedule)
    → parse parse_duration expr ≡ ok s
    → (0 < s.every) ⊎ IsWellFormed s
unfolding parse parse_shorthand
parse-IsWellFormed parse_duration expr s e = elim (Bool-cases (is_empty (trim_space expr))) [
  | inl none' ↦ absurd (ground (arith, rw (none', parse) at e))
  | inr words ↦ elim (Bool-cases (has_prefix (trim_space expr) (codes "@"))) [
    | inr plain ↦ inr (
        parse_fields-IsWellFormed expr (trim_space expr) (fields (trim_space expr)) s
          (rw (words, plain, parse) at e))
    | inl short ↦ elim (Bool-cases (has_prefix (trim_space expr) (codes "@every "))) [
      | inl interval ↦ inl (
          every_of-pos (trim_space expr) _ s
            (rw (words, short, interval, parse, parse_shorthand) at e))
      | inr named ↦ inr (
          parse_equivalent-IsWellFormed (trim_space expr) (equivalent (trim_space expr)) s
            (rw (words, short, named, parse, parse_shorthand) at e))
    ]
  ]
]
