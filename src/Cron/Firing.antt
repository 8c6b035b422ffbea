-- ===== src/Cron/Firing.antt =====
-- The search for the next firing finds the first minute that the schedule names.
use dk_agent_memory.Cron.Schedule.{Schedule}
use dk_agent_memory.Cron.Calendar.{Month, days, month_at, month_at-same, month_at-IsIn}
use dk_agent_memory.Cron.Next.{
  Firing, fires, never, day_of, hour_of, minute_of, month_of, dom_of, next_month, next_day,
  next_hour, five_years_on, day_matches, skip, search, start_of, next, in_minutes,
}
use dk_agent_memory.Base.{
  ℕ, zero, suc, ◌+◌, ◌-◌, ◌≤◌, ◌<◌, ◌≡◌, refl, ap, ◌⊎◌, inl, inr, Bool, true, false, ◌&&◌, none,
  some, arith, ltb, Bool-cases, Option-cases,
}

-- A minute that a schedule names: its month, its day, its hour and its minute.
unfoldable pub named : Schedule → ℕ → Bool
named s t =
    s.month.on (month_of t) && day_matches s t && s.hour.on (hour_of t) && s.minute.on (minute_of t)

-- No minute of a span is named.
abbrev pub Silent : Schedule → ℕ → ℕ → Type 0
Silent s from to = (u : ℕ) → from ≤ u → u < to → named s u ≡ false

day_matches-same :
    (s : Schedule) (t u : ℕ) → day_of u ≡ day_of t → day_matches s u ≡ day_matches s t
unfolding day_matches dom_of
day_matches-same s t u e = rw e refl

month_of-same : (t u : ℕ) → t ≤ u → u < next_month t → month_of u ≡ month_of t
unfolding month_of next_month
month_of-same t u le before =
    let before' : day_of u < (month_at (day_of t)).start + days (month_at (day_of t)) =
      omega (arith, before) in
    ap (λ (m : Month). m.number) (month_at-same (day_of t) (day_of u) (omega (arith, le)) before')

next_month-later : (t : ℕ) → t < next_month t
unfolding next_month
next_month-later t = let inside = month_at-IsIn (day_of t) in omega (arith, inside.1)

-- A minute with a field that is off is not named.
unnamed :
    (s : Schedule) (u : ℕ)
    → (s.month.on (month_of u) ≡ false)
      ⊎ ((day_matches s u ≡ false)
          ⊎ ((s.hour.on (hour_of u) ≡ false) ⊎ (s.minute.on (minute_of u) ≡ false)))
    → named s u ≡ false
unfolding named
unnamed s u off = ground (arith, off)

-- A round that goes on moves ahead, and passes over no minute that is named.
skip-some : (s : Schedule) (t later : ℕ) → skip s t ≡ some later → (t < later) × Silent s t later
unfolding skip
skip-some s t later e = elim (Bool-cases (s.month.on (month_of t))) [
  | inr off ↦
      let same : next_month t ≡ later = ground (arith, e, off) in
      rw (← same) (
        next_month-later t,
        λ u le before. unnamed s u (inl (rw (month_of-same t u le before) off)),
      )
  | inl month_on ↦ elim (Bool-cases (day_matches s t)) [
    | inr off ↦
        let same : next_day t ≡ later = ground (arith, e, month_on, off) in
        (
          omega (arith, same),
          λ u le before.
              let same_day : day_of u ≡ day_of t = omega (arith, le, before, same) in
              unnamed s u (inr (inl (rw (day_matches-same s t u same_day) off))),
        )
    | inl day_on ↦ elim (Bool-cases (s.hour.on (hour_of t))) [
      | inr off ↦
          let same : next_hour t ≡ later = ground (arith, e, month_on, day_on, off) in
          (
            omega (arith, same),
            λ u le before.
                let same_hour : hour_of u ≡ hour_of t = omega (arith, le, before, same) in
                unnamed s u (inr (inr (inl (rw same_hour off)))),
          )
      | inl hour_on ↦ elim (Bool-cases (s.minute.on (minute_of t))) [
        | inr off ↦
            let same : t + 1 ≡ later = ground (arith, e, month_on, day_on, hour_on, off) in
            (
              omega (arith, same),
              λ u le before.
                  let still : u ≡ t = omega (arith, le, before, same) in
                  unnamed s u (inr (inr (inr (rw still off)))),
            )
        | inl minute_on ↦ absurd (ground (arith, e, month_on, day_on, hour_on, minute_on))
      ]
    ]
  ]
]

skip-none : (s : Schedule) (t : ℕ) → skip s t ≡ none → named s t ≡ true
unfolding skip named
skip-none s t e = ground (arith, e)

-- What a search that ends has found between two times.
pub data Found (s : Schedule) (from limit : ℕ) : Firing → Type 0 where
  fired :
      {u : ℕ}
      → from ≤ u
      → u < limit
      → named s u ≡ true
      → Silent s from u
      → Found s from limit (fires u)
  nothing : Silent s from limit → Found s from limit never

Silent-join : (s : Schedule) (t later to : ℕ) → Silent s t later → Silent s later to → Silent s t to
Silent-join s t later to before behind u le lt = elim (Bool-cases (ltb u later)) [
  | inl e ↦ before u le (ground (arith, e))
  | inr e ↦ behind u (ground (arith, e)) lt
]

Found-later :
    (s : Schedule) (t later limit : ℕ) (r : Firing)
    → t ≤ later
    → Silent s t later
    → Found s later limit r
    → Found s t limit r
Found-later s t later limit _ le silent (fired low high is_named before) =
    fired (omega (arith, le, low)) high is_named (Silent-join s t later _ silent before)
Found-later s t later limit _ le silent (nothing before) =
    nothing (Silent-join s t later limit silent before)

search-Found :
    (fuel : ℕ) (s : Schedule) (limit t : ℕ)
    → limit - t < fuel
    → Found s t limit (search fuel s limit t)
unfolding search
search-Found zero s limit t h = absurd (omega (arith, h))
search-Found (suc fuel) s limit t h = elim (Bool-cases (ltb t limit)) [
  | inr e ↦ rw (e, search) (nothing (λ u le lt. absurd (ground (arith, e, le, lt))))
  | inl e ↦
      let open_span : t < limit = ground (arith, e) in
      elim (Option-cases (skip s t)) [
        | inl found ↦
            rw (e, found, search)
              (fired (omega arith) open_span (skip-none s t found)
                (λ u le lt. absurd (omega (arith, le, lt))))
        | inr (later, goes_on) ↦
            let (ahead, silent) = skip-some s t later goes_on in
            rw (e, goes_on, search)
              (Found-later s t later limit (search fuel s limit later) (omega (arith, ahead)) silent
                (search-Found fuel s limit later (omega (arith, h, ahead, open_span))))
      ]
]

-- A schedule without an interval fires in the first minute that it names behind the present one
-- and before the same date five years on, and never where there is none: the search always ends.
pub next-Found :
    (s : Schedule) (t : ℕ)
    → s.every ≡ 0
    → (r : Firing) × (next s t ≡ in_minutes r) × Found s (start_of t) (five_years_on (start_of t)) r
unfolding next
next-Found s t e = (
  search (suc (five_years_on (start_of t))) s (five_years_on (start_of t)) (start_of t),
  rw e refl,
  search-Found (suc (five_years_on (start_of t))) s (five_years_on (start_of t)) (start_of t)
      (omega arith),
)
