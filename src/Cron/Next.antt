-- ===== src/Cron/Next.antt =====
-- internal/cron/cron.go: when a schedule fires next.
--
-- A time is in nanoseconds since 1 January of year 1 in UTC, which is Go's zero time. Behind the
-- truncation every time is a whole minute, so that the search counts in minutes.
use dk_agent_memory.Cron.Schedule.{Schedule}
use dk_agent_memory.Cron.Calendar.{days, month_at, months_on}
use dk_agent_memory.Base.{
  ℕ, zero, suc, ◌+◌, ◌-◌, ◌*◌, ◌/◌, ◌%◌, ◌^◌, Bool, true, false, not, ◌&&◌, ◌||◌, Option, none,
  some, ltb, if◌then◌else◌,
}

-- `stuck` is a search that has run out of fuel; `never` is the zero time.
pub data Firing : Type 0 where
  fires : ℕ → Firing
  never stuck : Firing

abbrev pub time_minute : ℕ
time_minute = 60 * 10 ^ 9

abbrev pub day_of : ℕ → ℕ
day_of t = t / 1440

abbrev pub hour_of : ℕ → ℕ
hour_of t = t / 60 % 24

abbrev pub minute_of : ℕ → ℕ
minute_of t = t % 60

unfoldable pub month_of : ℕ → ℕ
month_of t = (month_at (day_of t)).number

unfoldable pub dom_of : ℕ → ℕ
dom_of t = day_of t - (month_at (day_of t)).start + 1

-- 1 January of year 1 was a Monday.
abbrev pub weekday_of : ℕ → ℕ
weekday_of t = (day_of t + 1) % 7

unfoldable pub next_month : ℕ → ℕ
next_month t = ((month_at (day_of t)).start + days (month_at (day_of t))) * 1440

abbrev pub next_day : ℕ → ℕ
next_day t = (day_of t + 1) * 1440

abbrev pub next_hour : ℕ → ℕ
next_hour t = (t / 60 + 1) * 60

-- `AddDate(5, 0, 0)`: the same day of the same month, five years on; 29 February may become 1 March.
unfoldable pub five_years_on : ℕ → ℕ
unfolding dom_of
five_years_on t = ((months_on 60 (month_at (day_of t))).start + (dom_of t - 1)) * 1440 + t % 1440

unfoldable pub day_matches : Schedule → ℕ → Bool
unfolding dom_of
day_matches s t =
    if s.dom_restricted && s.dow_restricted
    then s.dom.on (dom_of t) || s.dow.on (weekday_of t)
    else if s.dom_restricted
    then s.dom.on (dom_of t)
    else if s.dow_restricted
    then s.dow.on (weekday_of t)
    else true

-- The time that a round of the loop goes on with, or none where it returns.
unfoldable pub skip : Schedule → ℕ → Option ℕ
unfolding month_of next_month day_matches
skip s t =
    if not (s.month.on (month_of t))
    then some (next_month t)
    else if not (day_matches s t)
    then some (next_day t)
    else if not (s.hour.on (hour_of t))
    then some (next_hour t)
    else if not (s.minute.on (minute_of t))
    then some (t + 1)
    else none

unfoldable pub search : ℕ → Schedule → ℕ → ℕ → Firing
unfolding skip
search zero s limit t = stuck
search (suc fuel) s limit t = elim (ltb t limit) [
  | false ↦ never
  | true ↦ elim (skip s t) [ none ↦ fires t | some later ↦ search fuel s limit later ]
]

abbrev pub in_minutes : Firing → Firing
in_minutes (fires t) = fires (t * time_minute)
in_minutes never = never
in_minutes stuck = stuck

-- The whole minute behind a time.
abbrev pub start_of : ℕ → ℕ
start_of t = t / time_minute + 1

unfoldable pub next : Schedule → ℕ → Firing
unfolding search five_years_on
next s t =
    if ltb 0 s.every
    then fires (t + s.every)
    else in_minutes
        (search (suc (five_years_on (start_of t))) s (five_years_on (start_of t)) (start_of t))
