-- ===== src/Cron/Schedule.antt =====
-- internal/cron/cron.go: a parsed expression, and the parser.
--
-- The array of a field is a function with its size; a write outside of it panics. Go's `int` has
-- 64 bits, and `time.ParseDuration` is a parameter.
use dk_agent_memory.Base.{
  ℕ, zero, suc, ◌+◌, ◌-◌, ◌%◌, ◌^◌, Bool, true, false, not, ◌&&◌, ◌||◌, Option, none, some, List,
  [], ◌∷◌, ◌++◌, map, ltb, leb, ◌==◌, if◌then◌else◌, length, drop, ℤ, atoi, show, Text, codes,
  text_eq, is_empty, Result, ◌>>=◌, ◌>>◌, refuse_if, trim_space, to_lower, fields, has_prefix,
  split_on, cut_on, ok, err, pos, negsuc, uncut, halves,
}

pub record Bits : Type 0 where
  pub size : ℕ
  pub on : ℕ → Bool

-- The duration of `@every` is in nanoseconds, and 0 where there is none.
pub record Schedule : Type 0 where
  pub expr : Text
  pub minute : Bits
  pub hour : Bits
  pub dom : Bits
  pub month : Bits
  pub dow : Bits
  pub dom_restricted : Bool
  pub dow_restricted : Bool
  pub every : ℕ

pub data CronError : Type 0 where
  empty_expression : CronError
  field_count : Text → ℕ → CronError
  bad_duration : Text → CronError
  interval_not_positive : Text → CronError
  unknown_shorthand : Text → CronError
  empty_element : Text → CronError
  not_positive_step : Text → Text → CronError
  runs_backwards : Text → Text → CronError
  not_a_number : Text → Text → CronError
  out_of_range : Text → ℤ → ℕ → ℕ → CronError
  index_panic : ℕ → CronError
  stuck : CronError

pub record FieldSpec : Type 0 where
  pub name : Text
  pub min : ℕ
  pub max : ℕ
  pub names : List (Text × ℕ)

abbrev pub minute_spec : FieldSpec
minute_spec = record { name = codes "minute"; min = 0; max = 59; names = [] }

abbrev pub hour_spec : FieldSpec
hour_spec = record { name = codes "hour"; min = 0; max = 23; names = [] }

abbrev pub dom_spec : FieldSpec
dom_spec = record { name = codes "day-of-month"; min = 1; max = 31; names = [] }

abbrev pub month_spec : FieldSpec
month_spec = record {
  name = codes "month";
  min = 1;
  max = 12;
  names =
      (codes "jan", 1)
      ∷ (codes "feb", 2)
      ∷ (codes "mar", 3)
      ∷ (codes "apr", 4)
      ∷ (codes "may", 5)
      ∷ (codes "jun", 6)
      ∷ (codes "jul", 7)
      ∷ (codes "aug", 8)
      ∷ (codes "sep", 9)
      ∷ (codes "oct", 10)
      ∷ (codes "nov", 11)
      ∷ (codes "dec", 12)
      ∷ [];
}

abbrev pub dow_spec : FieldSpec
dow_spec = record {
  name = codes "day-of-week";
  min = 0;
  max = 6;
  names =
      (codes "sun", 0)
      ∷ (codes "mon", 1)
      ∷ (codes "tue", 2)
      ∷ (codes "wed", 3)
      ∷ (codes "thu", 4)
      ∷ (codes "fri", 5)
      ∷ (codes "sat", 6)
      ∷ [];
}

abbrev pub no_bits : ℕ → Bits
no_bits size = record { size = size; on = λ _. false }

abbrev pub blank : Text → Schedule
blank expr = record {
  expr = expr;
  minute = no_bits 60;
  hour = no_bits 24;
  dom = no_bits 32;
  month = no_bits 13;
  dow = no_bits 7;
  dom_restricted = false;
  dow_restricted = false;
  every = 0;
}

unfoldable pub name_value : Text → List (Text × ℕ) → Option ℕ
name_value s [] = none
name_value s ((name, v) ∷ rest) = if text_eq s name then some v else name_value s rest

-- `if v < spec.min || v > spec.max`, a negative number being below every minimum.
unfoldable pub in_range : FieldSpec → ℤ → Result CronError ℕ
in_range spec (negsuc n) = err (out_of_range spec.name (negsuc n) spec.min spec.max)
in_range spec (pos v) =
    if ltb v spec.min || ltb spec.max v
    then err (out_of_range spec.name (pos v) spec.min spec.max)
    else ok v

-- Sunday is writable as 7.
unfoldable pub sunday : FieldSpec → ℤ → ℤ
sunday spec (negsuc n) = negsuc n
sunday spec (pos v) = if text_eq spec.name (codes "day-of-week") && (v == 7) then pos 0 else pos v

unfoldable pub number_value : FieldSpec → Text → Option ℤ → Result CronError ℕ
unfolding in_range sunday
number_value spec s none = err (not_a_number spec.name s)
number_value spec s (some v) = in_range spec (sunday spec v)

unfoldable pub parse_value : Text → FieldSpec → Result CronError ℕ
unfolding name_value number_value
parse_value s spec = elim (name_value (map to_lower (trim_space s)) spec.names) [
  | some v ↦ ok v
  | none ↦ number_value spec (trim_space s) (atoi (trim_space s))
]

-- `bits[v] = true`
unfoldable pub mark : ℕ → Bits → Result CronError Bits
mark v bits =
    if ltb v bits.size
    then ok (record bits { on = λ n. if n == v then true else bits.on n })
    else err (index_panic v)

-- `for v := lo; v <= hi; v += step`, on a 64-bit `int`: a `v` of 2 ^ 63 or more is a negative number.
unfoldable pub mark_range : ℕ → ℕ → ℕ → ℕ → Bits → Result CronError Bits
unfolding mark
mark_range zero v hi step bits = err stuck
mark_range (suc fuel) v hi step bits =
    if leb (2 ^ 63) v || leb v hi
    then mark v bits >>= (λ marked. mark_range fuel ((v + step) % 2 ^ 64) hi step marked)
    else ok bits

unfoldable pub stepped : FieldSpec → Text → Text → Option ℤ → Result CronError (Text × ℕ)
stepped spec base step_text (some (pos (suc n))) =
    ok ((if text_eq base (codes "*") then show spec.min ++ (b'-' ∷ show spec.max) else base), suc n)
stepped spec base step_text _ = err (not_positive_step spec.name step_text)

-- What is left of an element before a slash, and the step behind it.
unfoldable pub step_of : FieldSpec → Text → Result CronError (Text × ℕ)
unfolding stepped
step_of spec part = elim (cut_on b'/' part) [
  | uncut ↦ ok (part, 1)
  | halves base step_text ↦ stepped spec base step_text (atoi step_text)
]

unfoldable pub bounds_of : FieldSpec → Text → Result CronError (ℕ × ℕ)
unfolding parse_value
bounds_of spec part =
    if text_eq part (codes "*") then ok (spec.min, spec.max) else elim (cut_on b'-' part) [
      | uncut ↦ do lo ← parse_value part spec; ok (lo, lo)
      | halves lo_text hi_text ↦ do
        lo ← parse_value lo_text spec
        hi ← parse_value hi_text spec
        refuse_if (ltb hi lo) (runs_backwards spec.name part)
        ok (lo, hi)
    ]

-- The loop runs at most once for each number of the range, and once more to see its end.
unfoldable pub parse_range : Text → FieldSpec → Bits → Result CronError Bits
unfolding step_of bounds_of mark_range
parse_range part spec bits = do
  refuse_if (is_empty (trim_space part)) (empty_element spec.name)
  (rest, step) ← step_of spec (trim_space part)
  (lo, hi) ← bounds_of spec rest
  mark_range (hi - lo + 2) lo hi step bits

unfoldable pub parse_parts : List Text → FieldSpec → Bits → Result CronError Bits
unfolding parse_range
parse_parts [] spec bits = ok bits
parse_parts (part ∷ parts) spec bits =
    parse_range part spec bits >>= λ marked. parse_parts parts spec marked

unfoldable pub parse_field : Text → FieldSpec → Bits → Result CronError Bits
unfolding parse_parts
parse_field field spec bits = parse_parts (split_on b',' field) spec bits

-- `Parse` of what is not a shorthand, behind the trimming.
unfoldable pub parse_fields : Text → Text → List Text → Result CronError Schedule
unfolding parse_field
parse_fields expr trimmed (f0 ∷ f1 ∷ f2 ∷ f3 ∷ f4 ∷ []) = do
  minute ← parse_field f0 minute_spec (no_bits 60)
  hour ← parse_field f1 hour_spec (no_bits 24)
  dom ← parse_field f2 dom_spec (no_bits 32)
  month ← parse_field f3 month_spec (no_bits 13)
  dow ← parse_field f4 dow_spec (no_bits 7)
  ok (record {
    expr = trimmed;
    minute = minute;
    hour = hour;
    dom = dom;
    month = month;
    dow = dow;
    dom_restricted = not (text_eq f2 (codes "*"));
    dow_restricted = not (text_eq f4 (codes "*"));
    every = 0;
  })
parse_fields expr trimmed words = err (field_count expr (length words))

unfoldable pub equivalent : Text → Option Text
equivalent expr =
    if text_eq expr (codes "@hourly")
    then some (codes "0 * * * *")
    else if text_eq expr (codes "@daily") || text_eq expr (codes "@midnight")
    then some (codes "0 0 * * *")
    else if text_eq expr (codes "@weekly")
    then some (codes "0 0 * * 0")
    else if text_eq expr (codes "@monthly")
    then some (codes "0 0 1 * *")
    else if text_eq expr (codes "@yearly") || text_eq expr (codes "@annually")
    then some (codes "0 0 1 1 *")
    else none

unfoldable pub every_of : Text → Option ℤ → Result CronError Schedule
every_of expr none = err (bad_duration expr)
every_of expr (some (pos (suc d))) = ok (record (blank expr) { every = suc d })
every_of expr (some _) = err (interval_not_positive expr)

-- The equivalent of a shorthand is trimmed, not empty and no shorthand, so that `Parse` of it is
-- `parse_fields`.
unfoldable pub parse_equivalent : Text → Option Text → Result CronError Schedule
unfolding parse_fields
parse_equivalent expr none = err (unknown_shorthand expr)
parse_equivalent expr (some text) = do
  s ← parse_fields text text (fields text)
  ok (record s { expr = expr })

module _ (parse_duration : Text → Option ℤ) where
  unfoldable pub parse_shorthand : Text → Result CronError Schedule
  unfolding equivalent every_of parse_equivalent
  parse_shorthand expr =
      if has_prefix expr (codes "@every ")
      then every_of expr (parse_duration (trim_space (drop 7 expr)))
      else parse_equivalent expr (equivalent expr)

  unfoldable pub parse : Text → Result CronError Schedule
  unfolding parse_shorthand parse_fields
  parse expr =
      if is_empty (trim_space expr)
      then err empty_expression
      else if has_prefix (trim_space expr) (codes "@")
      then parse_shorthand (trim_space expr)
      else parse_fields expr (trim_space expr) (fields (trim_space expr))
