-- ===== src/Config/Model.antt =====
-- internal/config/config.go: the configuration and its defaults.
--
-- Durations are in nanoseconds, `int` is an integer, and the floating-point numbers are a type `F`
-- whose operations are arguments.
use dk_agent_memory.Cron.Schedule.{Schedule}
use dk_agent_memory.Base.{
  ℕ, ◌*◌, Bool, true, false, Option, none, List, [], ◌∷◌, ℤ, Text, codes, pos,
}

pub record Server : Type 0 where
  pub bind : Text
  pub public_url : Text
  pub viewer_enabled : Bool
  pub viewer_path : Text
  pub read_timeout : ℤ
  pub write_timeout : ℤ
  pub shutdown_grace : ℤ

pub record Database : Type 0 where
  pub url : Text
  pub max_conns : ℤ
  pub migrate_on_start : Bool

pub record Embedding : Type 0 where
  pub provider : Text
  pub endpoint : Text
  pub model : Text
  pub dimensions : ℤ
  pub api_key_env : Text
  pub batch_size : ℤ
  pub timeout : ℤ
  pub query_instruction : Text

pub record Search (F : Type 0) : Type 0 where
  pub default_limit : ℤ
  pub rrf_k : ℤ
  pub candidate_limit : ℤ
  pub recency_half_life_days : F
  pub dedup_threshold : F

pub record Llm : Type 0 where
  pub provider : Text
  pub model : Text
  pub api_key_env : Text
  pub base_url : Text
  pub max_tokens : ℤ
  pub timeout : ℤ

pub record Consolidation : Type 0 where
  pub enabled : Bool
  pub session_summary_interval : ℤ
  pub fact_extraction_cron : Text
  pub lesson_synthesis_cron : Text
  pub llm : Llm
  pub fact_schedule : Option Schedule
  pub lesson_schedule : Option Schedule

pub record Injection : Type 0 where
  pub enabled : Bool
  pub budget_tokens : ℤ
  pub include : List Text

pub record Security : Type 0 where
  pub require_https : Bool
  pub rate_limit_writes_per_min : ℤ
  pub rate_limit_reads_per_min : ℤ
  pub redaction_enabled : Bool
  pub audit_enabled : Bool

pub record Retention : Type 0 where
  pub observation_days : ℤ
  pub decay_enabled : Bool
  pub decay_half_life_days : ℤ

pub record Log : Type 0 where
  pub level : Text
  pub format : Text

pub record Config (F : Type 0) : Type 0 where
  pub server : Server
  pub database : Database
  pub embedding : Embedding
  pub search : Search F
  pub consolidation : Consolidation
  pub injection : Injection
  pub security : Security
  pub retention : Retention
  pub log : Log

abbrev pub one_second : ℕ
one_second = 1000000000

abbrev pub minute_long : ℕ
minute_long = 60 * one_second

-- `F` with the constants that the defaults name, 90 and 0.92.
abbrev pub defaults : {F : Type 0} → F → F → Config F
defaults ninety threshold = record {
  server = record {
    bind = codes "127.0.0.1:8090";
    public_url = [];
    viewer_enabled = true;
    viewer_path = codes "/viewer";
    read_timeout = pos (30 * one_second);
    write_timeout = pos (60 * one_second);
    shutdown_grace = pos (15 * one_second);
  };
  database = record { url = []; max_conns = pos 20; migrate_on_start = false };
  embedding = record {
    provider = codes "local";
    endpoint = codes "http://127.0.0.1:8091";
    model = codes "BAAI/bge-small-en-v1.5";
    dimensions = pos 384;
    api_key_env = codes "DKM_EMBED_API_KEY";
    batch_size = pos 32;
    timeout = pos (20 * one_second);
    query_instruction = [];
  };
  search = record {
    default_limit = pos 8;
    rrf_k = pos 60;
    candidate_limit = pos 50;
    recency_half_life_days = ninety;
    dedup_threshold = threshold;
  };
  consolidation = record {
    enabled = true;
    session_summary_interval = pos (15 * minute_long);
    fact_extraction_cron = codes "0 2 * * *";
    lesson_synthesis_cron = codes "0 3 * * 0";
    llm = record {
      provider = codes "anthropic";
      model = codes "claude-haiku-4-5";
      api_key_env = codes "DKM_LLM_API_KEY";
      base_url = [];
      max_tokens = pos 2000;
      timeout = pos (2 * minute_long);
    };
    fact_schedule = none;
    lesson_schedule = none;
  };
  injection = record {
    enabled = true;
    budget_tokens = pos 1500;
    include = codes "lessons" ∷ codes "decisions" ∷ codes "session_summaries" ∷ [];
  };
  security = record {
    require_https = true;
    rate_limit_writes_per_min = pos 100;
    rate_limit_reads_per_min = pos 300;
    redaction_enabled = true;
    audit_enabled = true;
  };
  retention = record {
    observation_days = pos 90;
    decay_enabled = true;
    decay_half_life_days = pos 180;
  };
  log = record { level = codes "info"; format = codes "json" };
}
