-- ===== src/Consolidate/Backend.antt =====
-- What the worker calls: the store, the language model, the embedder and the context, over a state
-- that holds them all. A call returns a result and the state behind it, and each may fail.
use dk_agent_memory.Store.Model.{Identity}
use dk_agent_memory.Store.Create.{MemoryInput}
use dk_agent_memory.Base.{ℕ, Bool, Option, List, Text, Result}

-- internal/store/models.go: the fields of a session that the worker reads.
pub record Session : Type 0 where
  pub id : Text
  pub team_id : Text
  pub project : Text
  pub agent : Text
  pub started_at : ℕ
  pub summary : Option Text

pub record Observation : Type 0 where
  pub kind : Text
  pub content : Text
  pub files : List Text

-- The fields of a memory that the worker reads.
pub record Fact : Type 0 where
  pub kind : Text
  pub title : Text
  pub body : Text

pub record Request : Type 0 where
  pub system : Text
  pub prompt : Text
  pub max_tokens : ℕ
  pub wants_json : Bool

pub record Response : Type 0 where
  pub text : Text
  pub input_tokens : ℕ
  pub output_tokens : ℕ
  pub estimated : Bool

-- What can go wrong. Times are in nanoseconds; a `Retry-After` of 0 stands for none.
pub data Failure : Type 0 where
  token_budget : Failure
  http_error : (status : ℕ) (retry_after : ℕ) → Failure
  cancelled : Failure
  other : Text → Failure
  after_attempts : ℕ → Failure → Failure

pub record Run : Type 0 where
  pub tier : ℕ
  pub started_at : ℕ
  pub produced : ℕ
  pub deduped : ℕ
  pub input_tokens : ℕ
  pub output_tokens : ℕ

-- How a run of a tier ended, as `FinishRun` records it.
pub record Closing : Type 0 where
  pub items : ℕ
  pub produced : ℕ
  pub deduped : ℕ
  pub input_tokens : ℕ
  pub output_tokens : ℕ
  pub error : Option Failure

-- The result of a call and the state behind it.
abbrev pub Outcome : Type 0 → Type 0 → Type 0
Outcome S A = Result Failure A × S

-- A vector is a text that is only tested for being empty. Of the similar memories, nearest first, the
-- worker sees the identifier and whether the score reaches the threshold for duplicates.
pub record Backend (S : Type 0) : Type 0 where
  pub is_cancelled : S → Bool
  pub wait : ℕ → S → S
  pub complete : Request → S → Outcome S Response
  pub now : S → ℕ
  pub sessions_awaiting_summary : ℕ → S → Outcome S (List Session)
  pub session_observations : Text → ℕ → S → Outcome S (List Observation)
  pub mark_summarised : Text → Text → S → Outcome S (Unit {0})
  pub sessions_awaiting_facts : ℕ → S → Outcome S (List Session)
  pub mark_facts_extracted : List Text → S → Outcome S (Unit {0})
  pub recent_facts : Text → Text → ℕ → ℕ → S → Outcome S (List Fact)
  pub any_user_in_team : Text → S → Outcome S Identity
  pub start_run : ℕ → Text → Text → S → Outcome S Text
  pub finish_run : Text → Closing → S → Outcome S (Unit {0})
  pub list_runs : ℕ → S → Outcome S (List Run)
  pub projects_with_memories : S → Outcome S (List (Text × Text))
  pub has_embedder : Bool
  pub embed : List Text → S → Outcome S (List Text)
  pub similar_by_vector : Identity → Text → Text → ℕ → S → Outcome S (List (Text × Bool))
  pub reinforce : Identity → Text → S → Outcome S (Unit {0})
  pub create_memory : Identity → MemoryInput → S → Outcome S Bool
