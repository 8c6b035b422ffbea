-- ===== src/Config/Validate.antt =====
-- internal/config/config.go: `Validate`, section by section.
--
-- `net.SplitHostPort`, `url.Parse` (its scheme and host), `os.Getenv`, `time.ParseDuration` and the
-- tests of floating-point numbers are parameters. An error has its key; the value and the advice that
-- the message adds, the name of the file, and the warning on switched-off redaction are left out.
use dk_agent_memory.Cron.Schedule.{Schedule, CronError, index_panic, parse}
use dk_agent_memory.Config.Model.{
  Server, Database, Embedding, Search, Llm, Consolidation, Injection, Security, Retention, Log,
  Config, minute_long,
}
use dk_agent_memory.Base.{
  ℕ, Bool, true, false, not, ◌&&◌, ◌||◌, Option, none, some, List, [], ◌∷◌, ltb, ◌==◌,
  if◌then◌else◌, any, ℤ, atoi, Text, codes, text_eq, is_empty, Result, ◌>>=◌, ◌>>◌, refuse_if,
  has_prefix, ok, err, pos, negsuc,
}

pub data KeyError : Type 0 where
  missing_key : Text → KeyError
  invalid_key : Text → KeyError
  panicked : (key : Text) (index : ℕ) → KeyError

-- `x < n`
abbrev pub below : ℤ → ℕ → Bool
below (pos v) n = ltb v n
below (negsuc v) n = true

-- `x < y`
abbrev pub int_lt : ℤ → ℤ → Bool
int_lt x (pos n) = below x n
int_lt (pos v) (negsuc n) = false
int_lt (negsuc v) (negsuc n) = ltb n v

abbrev pub one_of : Text → List Text → Bool
one_of s = any (text_eq s)

-- The tests of floating-point numbers: not above 0, above 1.
pub record Floats (F : Type 0) : Type 0 where
  pub at_most_zero : F → Bool
  pub above_one : F → Bool

abbrev pub required : Text → Text → Result KeyError (Unit {0})
required key s = refuse_if (is_empty s) (missing_key key)

abbrev pub valid_value : Text → Bool → Result KeyError (Unit {0})
valid_value key bad = refuse_if bad (invalid_key key)

unfoldable pub bad_port : Text → Bool
bad_port port = elim (atoi port) [ none ↦ true | some p ↦ below p 1 || int_lt (pos 65535) p ]

-- `ContainsAny(host, " \t#")`
abbrev pub bad_host : Text → Bool
bad_host = any (λ (c : ℕ). c == b' ' || (c == 9 || c == b'#'))

abbrev pub check_bind : Option (Text × Text) → Result KeyError (Unit {0})
check_bind none = err (invalid_key (codes "server.bind"))
check_bind (some (host, port)) = do
  valid_value (codes "server.bind") (bad_port port)
  valid_value (codes "server.bind") (bad_host host)

abbrev pub check_public_url : Option (Text × Text) → Result KeyError (Unit {0})
check_public_url none = err (invalid_key (codes "server.public_url"))
check_public_url (some (scheme, host)) = do
  valid_value (codes "server.public_url") (is_empty scheme || is_empty host)
  valid_value (codes "server.public_url") (not (one_of scheme (codes "http" ∷ codes "https" ∷ [])))

unfoldable pub check_database : Database → Result KeyError (Unit {0})
check_database d = do
  valid_value (codes "database.url") (
      not (has_prefix d.url (codes "postgres://"))
      && not (has_prefix d.url (codes "postgresql://")))
  valid_value (codes "database.max_conns") (below d.max_conns 1)

unfoldable pub check_injection : Injection → Result KeyError (Unit {0})
check_injection i = if not i.enabled then ok tt else do
  valid_value (codes "injection.budget_tokens") (below i.budget_tokens 1)
  valid_value (codes "injection.include") (
      any
        (λ (entry : Text). not (
          one_of entry (
            codes "lessons"
            ∷ codes "decisions"
            ∷ codes "session_summaries"
            ∷ codes "facts"
            ∷ codes "preferences"
            ∷ [])))
        i.include)

unfoldable pub check_security : Security → Result KeyError (Unit {0})
check_security s =
    valid_value (codes "security.rate_limit_*_per_min")
      (below s.rate_limit_writes_per_min 0 || below s.rate_limit_reads_per_min 0)

unfoldable pub check_retention : Retention → Result KeyError (Unit {0})
check_retention r = do
  valid_value (codes "retention.observation_days") (below r.observation_days 1)
  valid_value (codes "retention.decay_half_life_days")
      (r.decay_enabled && below r.decay_half_life_days 1)

unfoldable pub check_log : Log → Result KeyError (Unit {0})
check_log l = do
  valid_value (codes "log.level")
      (not (one_of l.level (codes "debug" ∷ codes "info" ∷ codes "warn" ∷ codes "error" ∷ [])))
  valid_value (codes "log.format") (not (one_of l.format (codes "json" ∷ codes "text" ∷ [])))

module _ (getenv : Text → Text) where
  unfoldable pub check_embedding : Embedding → Result KeyError (Unit {0})
  check_embedding e = do
    valid_value (codes "embedding.provider") (
        not (
          one_of e.provider
            (codes "local" ∷ codes "ollama" ∷ codes "openai" ∷ codes "voyage" ∷ codes "none" ∷ [])))
    if text_eq e.provider (codes "none") then ok tt else do
      valid_value (codes "embedding.dimensions") (below e.dimensions 1)
      valid_value (codes "embedding.batch_size") (below e.batch_size 1)
      refuse_if (one_of e.provider (codes "local" ∷ codes "ollama" ∷ []) && is_empty e.endpoint)
          (missing_key (codes "embedding.endpoint"))
      if one_of e.provider (codes "openai" ∷ codes "voyage" ∷ [])
          then (do
            required (codes "embedding.api_key_env") e.api_key_env
            valid_value (codes "embedding.api_key_env") (is_empty (getenv e.api_key_env)))
          else ok tt

module _ {F : Type 0} (floats : Floats F) where
  unfoldable pub check_search : Search F → Result KeyError (Unit {0})
  check_search s = do
    valid_value (codes "search.default_limit") (below s.default_limit 1)
    valid_value (codes "search.rrf_k") (below s.rrf_k 1)
    valid_value (codes "search.candidate_limit") (int_lt s.candidate_limit s.default_limit)
    valid_value (codes "search.recency_half_life_days")
        (floats.at_most_zero s.recency_half_life_days)
    valid_value (codes "search.dedup_threshold")
        (floats.at_most_zero s.dedup_threshold || floats.above_one s.dedup_threshold)

unfoldable pub check_llm : Llm → Result KeyError (Unit {0})
check_llm l = do
  valid_value (codes "consolidation.llm.provider") (
      not (
        one_of l.provider
          (codes "anthropic" ∷ codes "openai" ∷ codes "google" ∷ codes "openai-compatible" ∷ [])))
  required (codes "consolidation.llm.model") l.model
  refuse_if (text_eq l.provider (codes "openai-compatible") && is_empty l.base_url)
      (missing_key (codes "consolidation.llm.base_url"))
  required (codes "consolidation.llm.api_key_env") l.api_key_env
  valid_value (codes "consolidation.llm.max_tokens") (below l.max_tokens 1)

-- The parser of schedules does not recover from its panic, and neither does `Validate`.
abbrev pub schedule_error : Text → CronError → KeyError
schedule_error key (index_panic i) = panicked key i
schedule_error key _ = invalid_key key

module _ (parse_duration : Text → Option ℤ) where
  unfoldable pub compiled : Text → Text → Result KeyError Schedule
  compiled key expr = elim (parse parse_duration expr) [
    | err e ↦ err (schedule_error key e)
    | ok s ↦ ok s
  ]

  unfoldable pub check_consolidation : Consolidation → Result KeyError Consolidation
  check_consolidation c = if not c.enabled then ok c else do
    check_llm c.llm
    valid_value (codes "consolidation.session_summary_interval")
        (below c.session_summary_interval minute_long)
    fact ← compiled (codes "consolidation.fact_extraction_cron") c.fact_extraction_cron
    lesson ← compiled (codes "consolidation.lesson_synthesis_cron") c.lesson_synthesis_cron
    ok (record c { fact_schedule = some fact; lesson_schedule = some lesson })

module _ {F : Type 0} (floats : Floats F) (split_host_port parse_url : Text → Option (Text × Text))
    (getenv : Text → Text) (parse_duration : Text → Option ℤ) where
  unfoldable pub check_server : Server → Result KeyError (Unit {0})
  check_server s = do
    check_bind (split_host_port s.bind)
    check_public_url (parse_url s.public_url)
    valid_value (codes "server.viewer_path")
        (s.viewer_enabled && not (has_prefix s.viewer_path (codes "/")))

  -- `Validate`, which also stores the compiled schedules.
  unfoldable pub validate : Config F → Result KeyError (Config F)
  unfolding check_server
  validate c = do
    required (codes "server.bind") c.server.bind
    required (codes "server.public_url") c.server.public_url
    required (codes "database.url") c.database.url
    check_server c.server
    check_database c.database
    check_embedding getenv c.embedding
    check_search floats c.search
    consolidation ← check_consolidation parse_duration c.consolidation
    check_injection c.injection
    check_security c.security
    check_retention c.retention
    check_log c.log
    ok (record c { consolidation = consolidation })
