-- ===== src/Consolidate/Tests.antt =====
-- A small store with a model beside it, and the theorems at it.
use dk_agent_memory.Store.Model.{Identity}
use dk_agent_memory.Consolidate.Backend.{
  Backend, Session, Observation, Request, Response, Failure, http_error, after_attempts,
}
use dk_agent_memory.Consolidate.Retry.{
  complete_with_retry, backoff, tripled, attempts, before_attempt, pause, judged, final, transient,
  retry_after,
}
use dk_agent_memory.Consolidate.Attempts.{Answer, Tried, RecordsCalls, complete_with_retry-Ended}
use dk_agent_memory.Consolidate.Prompt.{Wording}
use dk_agent_memory.Consolidate.Json.{
  extract_json, find_text, fence, unfenced, json_part, from_bracket, bracketed, closed, advance,
}
use dk_agent_memory.Consolidate.Brackets.{
  extract_json-value, Balanced, nothing, plain, string, end_quote, char,
}
use dk_agent_memory.Consolidate.Decode.{Unmarshal}
use dk_agent_memory.Consolidate.Tier2.{ExtractedFact, extract_for_project}
use dk_agent_memory.Consolidate.Progress.{without}
use dk_agent_memory.Consolidate.Unread.{Unread, without_all}
use dk_agent_memory.Consolidate.Facts.{MarkedOrNot, extract_for_project-marks}
use dk_agent_memory.Consolidate.Guard.{
  Jobs, enter, idle, begin_now, tier1, JobsReachable, at_start, after, ticks, begins_now, runs_of,
  JobsReachable-single,
}
use dk_agent_memory.Base.{
  ◌≡◌, refl, inl, true, false, none, some, List, [], ◌∷◌, ◌++◌, map, if◌then◌else◌, take, show,
  Text, codes, Result, is_space, trim_left, trim_space, has_prefix, ok, err,
}

abbrev words : Wording
words = record { rfc3339 = show; calendar_day = show }

abbrev caller : Identity
caller = record {
  key_id = [];
  user_id = codes "u1";
  user_name = codes "Ada";
  team_id = codes "t1";
  is_admin = true;
}

-- The sessions that wait for a summary and for facts, by identifier, and what the calls of the model came to.
record Desk : Type 0 where
  unsummarised : List Text
  unread : List Text
  answers : List Answer

abbrev session : Text → Session
session id = record {
  id = id;
  team_id = codes "t1";
  project = codes "p";
  agent = codes "claude";
  started_at = 7;
  summary = some (codes "fixed it");
}

abbrev note : Observation
note = record { kind = codes "note"; content = codes "hello"; files = [] }

-- A model that answers with a reply or fails.
abbrev desk : Result Failure Response → Backend Desk
desk reply = record {
  is_cancelled = λ s. false;
  wait = λ d s. s;
  complete = λ req s. (reply, record s { answers = reply ∷ s.answers });
  now = λ s. 0;
  sessions_awaiting_summary = λ n s. (ok (map session (take n s.unsummarised)), s);
  session_observations = λ id n s. (ok (note ∷ []), s);
  mark_summarised = λ id text s. (ok tt, record s { unsummarised = without id s.unsummarised });
  sessions_awaiting_facts = λ n s. (ok (map session (take n s.unread)), s);
  mark_facts_extracted = λ ids s. (ok tt, record s { unread = without_all ids s.unread });
  recent_facts = λ team project since n s. (ok [], s);
  any_user_in_team = λ team s. (ok caller, s);
  start_run = λ tier team project s. (ok (codes "r"), s);
  finish_run = λ run c s. (ok tt, s);
  list_runs = λ n s. (ok [], s);
  projects_with_memories = λ s. (ok [], s);
  has_embedder = false;
  embed = λ texts s. (ok [], s);
  similar_by_vector = λ id project vec n s. (ok [], s);
  reinforce = λ id near s. (ok tt, s);
  create_memory = λ id item s. (ok true, s);
}

abbrev reply : Response
reply = record { text = codes "[]"; input_tokens = 1; output_tokens = 1; estimated = false }

abbrev request : Request
request = record { system = []; prompt = codes "hi"; max_tokens = 0; wants_json = false }

abbrev three : Desk
three = record {
  unsummarised = codes "a" ∷ codes "b" ∷ codes "c" ∷ [];
  unread = codes "a" ∷ codes "b" ∷ [];
  answers = [];
}

abbrev five_times : Answer → List Answer
five_times a = a ∷ a ∷ a ∷ a ∷ a ∷ []

-- A busy endpoint is called five times.
busy : complete_with_retry (desk (err (http_error 503 0))) request three ≡ (
  err (after_attempts 5 (http_error 503 0)),
  record three { answers = five_times (err (http_error 503 0)) },
)
unfolding complete_with_retry attempts before_attempt pause judged final transient backoff tripled
    retry_after
busy = refl

desk-RecordsCalls : (r : Answer) → RecordsCalls (desk r) (λ s. s.answers)
desk-RecordsCalls r = record { one_call = λ req s. refl; no_call = λ d s. refl }

complete_with_retry-Ended_example :
    Tried
      (desk (err (http_error 503 0)))
      (λ s. s.answers)
      (desk-RecordsCalls (err (http_error 503 0)))
      request
      []
      (complete_with_retry (desk (err (http_error 503 0))) request three)
complete_with_retry-Ended_example =
    complete_with_retry-Ended (desk (err (http_error 503 0))) (λ s. s.answers)
      (desk-RecordsCalls (err (http_error 503 0))) request three

abbrev json : Unmarshal ExtractedFact
json = record {
  list = λ text. some [];
  object = λ text. none;
  item = λ text. none;
  is_zero = λ f. true;
}

desk-Unread : (r : Result Failure Response) → Unread (desk r) (λ s. s.unread)
desk-Unread r = record {
  on_wait = λ d s. refl;
  on_complete = λ req s. refl;
  on_start = λ team project s. refl;
  on_finish = λ run c s. refl;
  on_user = λ team s. refl;
  on_embed = λ texts s. refl;
  on_similar = λ id project vec n s. refl;
  on_reinforce = λ id near s. refl;
  on_create = λ id item s. refl;
  on_mark = λ ids s. inl (refl, refl);
}

extract_for_project-marks_example :
    MarkedOrNot
      (desk (ok reply))
      (λ s. s.unread)
      (desk-Unread (ok reply))
      (session (codes "a") ∷ [])
      three
      (extract_for_project words json 2000
        (λ gs. gs)
        (desk (ok reply))
        (codes "t1")
        (codes "p")
        (session (codes "a") ∷ [])
        three).0
      (extract_for_project words json 2000
        (λ gs. gs)
        (desk (ok reply))
        (codes "t1")
        (codes "p")
        (session (codes "a") ∷ [])
        three).1
extract_for_project-marks_example =
    extract_for_project-marks (desk (ok reply)) (λ s. s.unread) (desk-Unread (ok reply)) words json
      2000 (λ gs. gs) (codes "t1") (codes "p") (session (codes "a") ∷ []) three

-- A value between two sentences, with a bracket in a string.
value : extract_json (codes "Sure: {\"a\": \"}\"} done}") ≡ codes "{\"a\": \"}\"}"
unfolding extract_json find_text unfenced json_part from_bracket bracketed closed advance trim_space
    trim_left is_space has_prefix
value = refl

body-Balanced : Balanced b'{' b'}' (codes "\"a\": 1")
body-Balanced =
    string (char refl refl end_quote)
      (plain refl refl refl (plain refl refl refl (plain refl refl refl nothing)))

abbrev sentence : Text
sentence = codes "Sure: {\"a\": 1} done"

sentence-trimmed :
    trim_space sentence ≡ codes "Sure: " ++ b'{' ∷ (codes "\"a\": 1" ++ b'}' ∷ codes " done")
unfolding trim_space trim_left is_space
sentence-trimmed = refl

sentence-unfenced : find_text fence (trim_space sentence) ≡ none
unfolding find_text has_prefix trim_space trim_left is_space
sentence-unfenced = refl

extract_json-value_example : extract_json sentence ≡ b'{' ∷ (codes "\"a\": 1" ++ b'}' ∷ [])
extract_json-value_example =
    extract_json-value b'{' b'}' sentence (codes "Sure: ") (codes "\"a\": 1") (codes " done")
      sentence-trimmed sentence-unfenced refl refl
      (refl, (refl, (refl, (refl, (refl, (refl, tt)))))) body-Balanced

-- Two ticks of a job, the second while the first is under way, and a pass on demand beside it.
abbrev ticked_twice : JobsReachable (enter (codes "tier1") (enter (codes "tier1") idle))
ticked_twice = after (after at_start (ticks (codes "tier1"))) (ticks (codes "tier1"))

abbrev beside : Jobs
beside = begin_now (codes "tier1") (enter (codes "tier1") (enter (codes "tier1") idle))

JobsReachable-single_example :
    runs_of (codes "tier1") beside.under_way ≡ (if beside.running (codes "tier1") then 1 else 0)
JobsReachable-single_example =
    JobsReachable-single (after ticked_twice (begins_now tier1)) (codes "tier1")
