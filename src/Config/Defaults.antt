-- ===== src/Config/Defaults.antt =====
-- internal/config/config.go: `Validate` on the defaults with the three required keys.
use dk_agent_memory.Cron.Schedule.{
  Schedule, parse, parse_fields, parse_field, parse_parts, parse_range, step_of, bounds_of,
  mark_range, mark,
}
use dk_agent_memory.Config.Model.{defaults}
use dk_agent_memory.Config.Startup.{configured}
use dk_agent_memory.Config.Validate.{
  Floats, check_public_url, check_database, check_injection, check_security, check_retention,
  check_log, check_embedding, check_search, check_llm, compiled, check_consolidation, check_server,
  validate, below, int_lt, bad_host, bad_port, one_of,
}
use dk_agent_memory.Base.{
  ℕ, ◌≤◌, ◌≡◌, refl, true, false, ◌||◌, Option, some, [], ◌∷◌, arith, ℤ, digits_from, atoi,
  decimal_from, show, Text, codes, text_eq, is_empty, is_space, trim_left, trim_space, fields_from,
  fields, has_prefix, split_from, split_on, cut_on, ok, pos,
}

nightly :
    (parse_duration : Text → Option ℤ)
    → (s : Schedule) × (parse parse_duration (codes "0 2 * * *") ≡ ok s)
unfolding parse parse_fields parse_field parse_parts parse_range step_of bounds_of mark_range mark
    atoi digits_from show decimal_from trim_space trim_left is_space fields fields_from has_prefix
    split_on split_from cut_on text_eq
nightly parse_duration = (_, refl)

weekly :
    (parse_duration : Text → Option ℤ)
    → (s : Schedule) × (parse parse_duration (codes "0 3 * * 0") ≡ ok s)
unfolding parse parse_fields parse_field parse_parts parse_range step_of bounds_of mark_range mark
    atoi digits_from show decimal_from trim_space trim_left is_space fields fields_from has_prefix
    split_on split_from cut_on text_eq
weekly parse_duration = (_, refl)

compiled_lem :
    (parse_duration : Text → Option ℤ) (key expr : Text) (s : Schedule)
    → parse parse_duration expr ≡ ok s
    → compiled parse_duration key expr ≡ ok s
unfolding compiled
compiled_lem parse_duration key expr s e = rw (e, compiled) refl

check_consolidation-defaults :
    (parse_duration : Text → Option ℤ) {F : Type 0} (ninety threshold : F)
    → (fact lesson : Schedule) × (check_consolidation parse_duration
          (defaults ninety threshold).consolidation
        ≡ ok (record ((defaults ninety threshold).consolidation) {
          fact_schedule = some fact;
          lesson_schedule = some lesson;
        }))
unfolding check_consolidation check_llm text_eq
check_consolidation-defaults parse_duration ninety threshold =
    let (fact, f) = nightly parse_duration in
    let (lesson, l) = weekly parse_duration in
    (
      fact,
      lesson,
      rw (compiled_lem parse_duration _ _ fact f, compiled_lem parse_duration _ _ lesson l) refl,
    )

bad_port-false :
    (port : Text) (p : ℕ) → atoi port ≡ some (pos p) → 1 ≤ p → p ≤ 65535 → bad_port port ≡ false
unfolding bad_port
bad_port-false port p e h g =
    let ranged : (below (pos p) 1 || int_lt (pos 65535) (pos p)) ≡ false = ground arith in
    rw (e, bad_port) ranged

web_scheme :
    (scheme host : Text)
    → one_of scheme (codes "http" ∷ codes "https" ∷ []) ≡ true
    → is_empty host ≡ false
    → check_public_url (some (scheme, host)) ≡ ok tt
unfolding text_eq
web_scheme [] host e h = cc
web_scheme (c ∷ s) host e h = rw (h, e) refl

module _ {F : Type 0} (floats : Floats F) (split_host_port parse_url : Text → Option (Text × Text))
    (getenv : Text → Text) (parse_duration : Text → Option ℤ) (ninety threshold : F)
    (bind public_url url : Text) where
  -- A server for which only the three required keys are set starts: where the address is a host
  -- without blanks or a `#` and a port from 1 to 65535, the public address has the scheme http or
  -- https and a host, the database's address begins with postgres://, and the floating-point
  -- defaults 90 and 0.92 compare as numbers do, the defaults pass `Validate`, and both of their
  -- schedules compile.
  pub validate-configured :
      (host port scheme web_host : Text) (p : ℕ)
      → is_empty bind ≡ false
      → split_host_port bind ≡ some (host, port)
      → atoi port ≡ some (pos p)
      → 1 ≤ p
      → p ≤ 65535
      → bad_host host ≡ false
      → is_empty public_url ≡ false
      → parse_url public_url ≡ some (scheme, web_host)
      → one_of scheme (codes "http" ∷ codes "https" ∷ []) ≡ true
      → is_empty web_host ≡ false
      → is_empty url ≡ false
      → has_prefix url (codes "postgres://") ≡ true
      → floats.at_most_zero ninety ≡ false
      → floats.at_most_zero threshold ≡ false
      → floats.above_one threshold ≡ false
      → (fact lesson : Schedule) × (validate floats split_host_port parse_url getenv parse_duration
            (configured ninety threshold bind public_url url)
          ≡ ok (record (configured ninety threshold bind public_url url) {
            consolidation = record ((defaults ninety threshold).consolidation) {
              fact_schedule = some fact;
              lesson_schedule = some lesson;
            };
          }))
  unfolding validate check_server check_database check_embedding check_search check_injection
      check_security check_retention check_log text_eq
  validate-configured host port scheme web_host p b split e lo hi clean u web s w d postgres n t
        one =
      let (fact, lesson, compiles) = check_consolidation-defaults parse_duration ninety threshold in
      let slash : has_prefix (codes "/viewer") (codes "/") ≡ true = unfold has_prefix in refl in
      (
        fact,
        lesson,
        rw
            (
              b,
              u,
              d,
              split,
              bad_port-false port p e lo hi,
              clean,
              web,
              web_scheme scheme web_host s w,
              slash,
              postgres,
              n,
              t,
              one,
              compiles,
            )
            refl,
      )
