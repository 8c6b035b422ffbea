-- ===== src/Cron/Tests.antt =====
-- Expressions that are read and times that they fire at; and the theorems at such a place.
use dk_agent_memory.Cron.Schedule.{
  Schedule, CronError, no_bits, blank, name_value, in_range, sunday, number_value, parse_value,
  mark, mark_range, stepped, step_of, bounds_of, parse_range, parse_parts, parse_field,
  parse_fields, parse, runs_backwards, index_panic,
}
use dk_agent_memory.Cron.Calendar.{is_leap, days_in_month, find_month, month_at, months_on}
use dk_agent_memory.Cron.Next.{
  Firing, fires, month_of, dom_of, next_month, five_years_on, day_matches, skip, search, next,
  time_minute, start_of, in_minutes,
}
use dk_agent_memory.Cron.Firing.{Found, next-Found}
use dk_agent_memory.Cron.Marks.{mark_range-panic}
use dk_agent_memory.Cron.Parsed.{IsWellFormed}
use dk_agent_memory.Cron.Fields.{parse-IsWellFormed}
use dk_agent_memory.Base.{
  suc, ◌+◌, ◌-◌, ◌*◌, ◌^◌, ◌<◌, ◌≡◌, refl, ◌⊎◌, Option, none, some, [], arith, ℤ, digits_from, atoi,
  decimal_from, show, Text, codes, text_eq, Result, is_space, trim_left, trim_space, fields_from,
  fields, has_prefix, split_from, split_on, cut_on, ok, err,
}

abbrev no_duration : Text → Option ℤ
no_duration s = none

abbrev parsed_or_blank : Result CronError Schedule → Schedule
parsed_or_blank (ok s) = s
parsed_or_blank (err e) = blank []

-- At half past four on the third and the fourteenth of February and March, and on Sundays.
abbrev expression : Text
expression = codes "30 4 3,14 feb-3 sun"

abbrev sample : Schedule
sample = parsed_or_blank (parse no_duration expression)

abbrev error_of : Result CronError Schedule → Option CronError
error_of (ok s) = none
error_of (err e) = some e

parsed : parse no_duration expression ≡ ok sample
unfolding parse parse_fields parse_field parse_parts parse_range step_of bounds_of mark_range mark
    parse_value name_value number_value in_range sunday atoi digits_from split_on split_from cut_on
    fields fields_from trim_space trim_left is_space has_prefix text_eq
parsed = refl

-- Friday to Sunday: a range that ends in 7.
week_end :
    error_of (parse no_duration (codes "0 3 * * 5-7"))
    ≡ some (runs_backwards (codes "day-of-week") (codes "5-7"))
unfolding parse parse_fields parse_field parse_parts parse_range step_of bounds_of mark_range mark
    parse_value name_value number_value in_range sunday atoi digits_from split_on split_from cut_on
    fields fields_from trim_space trim_left is_space has_prefix text_eq stepped
week_end = refl

-- A step of the largest `int`, from day 1 on.
large_step :
    error_of (parse no_duration (codes "0 3 */9223372036854775807 * *"))
    ≡ some (index_panic (2 ^ 63))
unfolding parse parse_fields parse_field parse_parts parse_range step_of bounds_of mark_range mark
    parse_value name_value number_value in_range sunday atoi digits_from split_on split_from cut_on
    fields fields_from trim_space trim_left is_space has_prefix text_eq stepped show decimal_from
large_step = refl

-- From noon on 1 January of year 1 on: 3 February, a Saturday.
fired_at : next sample (720 * time_minute) ≡ fires ((33 * 1440 + 270) * time_minute)
unfolding next five_years_on search skip month_of dom_of next_month day_matches month_at find_month
    months_on days_in_month is_leap parse parse_fields parse_field parse_parts parse_range step_of
    bounds_of mark_range mark parse_value name_value number_value in_range sunday atoi digits_from
    split_on split_from cut_on fields fields_from trim_space trim_left is_space has_prefix text_eq
fired_at = refl

every_of_sample : sample.every ≡ 0
unfolding parse parse_fields parse_field parse_parts parse_range step_of bounds_of mark_range mark
    parse_value name_value number_value in_range sunday atoi digits_from split_on split_from cut_on
    fields fields_from trim_space trim_left is_space has_prefix text_eq
every_of_sample = refl

next-Found_example :
    (r : Firing) × (next sample 0 ≡ in_minutes r)
    × Found sample (start_of 0) (five_years_on (start_of 0)) r
next-Found_example = next-Found sample 0 every_of_sample

parse-IsWellFormed_example : (0 < sample.every) ⊎ IsWellFormed sample
parse-IsWellFormed_example = parse-IsWellFormed no_duration expression sample parsed

mark_range-panic_example :
    mark_range (suc (suc 30)) 1 31 (2 ^ 63 - 1) (no_bits 32) ≡ err (index_panic (1 + (2 ^ 63 - 1)))
mark_range-panic_example =
    mark_range-panic 30 1 31 (2 ^ 63 - 1) (no_bits 32) (omega arith) (omega arith) (omega arith)
      (omega arith) (omega arith)
