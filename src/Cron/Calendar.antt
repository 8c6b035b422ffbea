-- ===== src/Cron/Calendar.antt =====
-- The calendar that Go's package `time` counts in, for UTC: days and months from 1 January of year 1.
use mathlib.Core.Path.{subst}
use dk_agent_memory.Base.{
  ℕ, zero, suc, ◌+◌, ◌%◌, ◌≤◌, ◌<◌, ◌≡◌, refl, sym, ◌∙◌, inl, inr, Bool, true, false, not, ◌&&◌,
  ◌||◌, arith, ltb, ◌==◌, if◌then◌else◌, Bool-cases,
}

unfoldable pub is_leap : ℕ → Bool
is_leap year = (year % 400 == 0) || (year % 4 == 0) && not (year % 100 == 0)

-- April, June, September and November.
abbrev is_short : ℕ → Bool
is_short month = (month == 11) || (month == 9) || (month == 6) || (month == 4)

unfoldable pub days_in_month : ℕ → ℕ → ℕ
unfolding is_leap
days_in_month year month =
    if is_short month then 30 else if not (month == 2) then 31 else if is_leap year then 29 else 28

-- A month of a year, and the day it starts on.
pub record Month : Type 0 where
  pub year : ℕ
  pub number : ℕ
  pub start : ℕ

abbrev pub days : Month → ℕ
days m = days_in_month m.year m.number

abbrev pub following : Month → Month
following m = record {
  year = if m.number == 12 then m.year + 1 else m.year;
  number = if m.number == 12 then 1 else m.number + 1;
  start = m.start + days m;
}

abbrev pub first_month : Month
first_month = record { year = 1; number = 1; start = 0 }

-- The month that a day is in, looked for from a month on.
unfoldable pub find_month : ℕ → ℕ → Month → Month
find_month zero day m = m
find_month (suc fuel) day m = elim (ltb day (m.start + days m)) [
  | true ↦ m
  | false ↦ find_month fuel day (following m)
]

-- A month has a day, so that `day` months are enough.
unfoldable pub month_at : ℕ → Month
unfolding find_month
month_at day = find_month (suc day) day first_month

unfoldable pub months_on : ℕ → Month → Month
months_on zero m = m
months_on (suc n) m = months_on n (following m)

pub days_in_month-pos : (y m : ℕ) → 1 ≤ days_in_month y m
unfolding days_in_month
days_in_month-pos y m = ground arith

abbrev IsIn : ℕ → Month → Type 0
IsIn day m = (m.start ≤ day) × (day < m.start + days m)

find_month-IsIn :
    (fuel day : ℕ) (m : Month)
    → m.start ≤ day
    → day < m.start + fuel
    → IsIn day (find_month fuel day m)
unfolding find_month
find_month-IsIn zero day m low h = absurd (omega arith)
find_month-IsIn (suc fuel) day m low h = elim (Bool-cases (ltb day (m.start + days m))) [
  | inl e ↦ rw (e, find_month) (low, ground (arith, e))
  | inr e ↦
      let next : m.start + days m ≤ day = ground (arith, e) in
      let long = days_in_month-pos m.year m.number in
      rw (e, find_month) (find_month-IsIn fuel day (following m) next (omega (arith, h, long)))
]

find_month-same :
    (fuel fuel' day day' : ℕ) (m : Month)
    → m.start ≤ day
    → day < m.start + fuel
    → day' < m.start + fuel'
    → day ≤ day'
    → day' < (find_month fuel day m).start + days (find_month fuel day m)
    → find_month fuel' day' m ≡ find_month fuel day m
unfolding find_month
find_month-same zero fuel' day day' m low h h' le before = absurd (omega arith)
find_month-same (suc fuel) zero day day' m low h h' le before = absurd (omega arith)
find_month-same (suc fuel) (suc fuel') day day' m low h h' le before =
    elim (Bool-cases (ltb day (m.start + days m))) [
      | inl e ↦
          let same : find_month (suc fuel) day m ≡ m = rw (e, find_month) refl in
          let inside : day' < m.start + days m =
            subst (λ (r : Month). day' < r.start + days r) same before in
          let e' : ltb day' (m.start + days m) ≡ true = ground (arith, inside) in
          rw (e, e', find_month) refl
      | inr e ↦
          let next : m.start + days m ≤ day = ground (arith, e) in
          let e' : ltb day' (m.start + days m) ≡ false = ground (arith, e, le) in
          let long = days_in_month-pos m.year m.number in
          let same : find_month (suc fuel) day m ≡ find_month fuel day (following m) =
            rw (e, find_month) refl in
          rw (e', find_month)
            (find_month-same fuel fuel' day day' (following m) next (omega (arith, h, long))
                (omega (arith, h', long)) le
                (subst (λ (r : Month). day' < r.start + days r) same before)
              ∙ sym same)
    ]

-- A day lies in its month.
pub month_at-IsIn : (day : ℕ) → IsIn day (month_at day)
unfolding month_at
month_at-IsIn day = find_month-IsIn (suc day) day first_month (omega arith) (omega arith)

-- The days up to the end of a day's month are in the same month.
pub month_at-same :
    (day day' : ℕ)
    → day ≤ day'
    → day' < (month_at day).start + days (month_at day)
    → month_at day' ≡ month_at day
unfolding month_at
month_at-same day day' le before =
    find_month-same (suc day) (suc day') day day' first_month (omega arith) (omega arith)
      (omega arith) le before
