-- ===== src/Sessions/Tests.antt =====
-- Two sessions of a team, and the theorems at them.
use dk_agent_memory.Store.Model.{Identity}
use dk_agent_memory.Consolidate.Backend.{Backend, Failure, Response, http_error}
use dk_agent_memory.Consolidate.Prompt.{Wording}
use dk_agent_memory.Consolidate.Tier1.{drain_tier1}
use dk_agent_memory.Consolidate.Progress.{Distinct}
use dk_agent_memory.Sessions.Tables.{SessionRow, RunRow, ordered, ordered_desc, place, place_desc}
use dk_agent_memory.Sessions.Calls.{create_session}
use dk_agent_memory.Sessions.Work.{
  World, tables, session_observations, awaits_summary, list_runs, sessions_awaiting_facts, by_team,
  place_by_team, awaits_facts,
}
use dk_agent_memory.Sessions.Queue.{waiting_ids, Answers, drain_tier1-tables}
use dk_agent_memory.Sessions.Failing.{Unreachable, waiting_for_facts, drain_tier2-tables}
use dk_agent_memory.Consolidate.Decode.{Unmarshal}
use dk_agent_memory.Consolidate.Drain.{drain_loop, max_drain_batches}
use dk_agent_memory.Consolidate.Tier2.{ExtractedFact, tier2_batch, tier2_once}
use dk_agent_memory.Base.{
  ℕ, zero, suc, ◌*◌, ◌<◌, ◌≡◌, refl, inl, true, false, none, some, List, [], ◌∷◌, arith, length,
  show, Text, codes, text_eq, text_lt, ok, err,
}

abbrev words : Wording
words = record { rfc3339 = show; calendar_day = show }

abbrev ada : Identity
ada = record {
  key_id = [];
  user_id = codes "u1";
  user_name = codes "Ada";
  team_id = codes "t1";
  is_admin = true;
}

abbrev opened : SessionRow
opened = (create_session ada (codes "s1") 5 (codes "p") (codes "claude") [] []).0

abbrev closed_at : ℕ → Text → SessionRow
closed_at at id = record {
  id = id;
  team_id = codes "t1";
  user_id = codes "u1";
  project = codes "p";
  agent = codes "claude";
  started_at = 1;
  ended_at = some at;
  summary = none;
  summarised_at = none;
  facts_extracted_at = none;
  meta = [];
}

abbrev two : List SessionRow
two = closed_at 9 (codes "s2") ∷ closed_at 4 (codes "s3") ∷ []

abbrev answer : Response
answer = record { text = codes "ok"; input_tokens = 1; output_tokens = 1; estimated = false }

abbrev world : List SessionRow → World (Unit {0})
world sessions = record {
  sessions = sessions;
  observations = [];
  runs = [];
  clock = 50;
  drawn = 0;
  rest = tt;
}

-- A model that always answers; the calls of the store are replaced by those of the tables.
abbrev others : Backend (World (Unit {0}))
others = record {
  is_cancelled = λ w. false;
  wait = λ d w. w;
  complete = λ req w. (ok answer, w);
  now = λ w. w.clock;
  sessions_awaiting_summary = λ n w. (ok [], w);
  session_observations = λ id n w. (ok [], w);
  mark_summarised = λ id text w. (ok tt, w);
  sessions_awaiting_facts = λ n w. (ok [], w);
  mark_facts_extracted = λ ids w. (ok tt, w);
  recent_facts = λ team project since n w. (ok [], w);
  any_user_in_team = λ team w. (ok ada, w);
  start_run = λ tier team project w. (ok [], w);
  finish_run = λ run c w. (ok tt, w);
  list_runs = λ n w. (ok [], w);
  projects_with_memories = λ w. (ok [], w);
  has_embedder = false;
  embed = λ texts w. (ok [], w);
  similar_by_vector = λ id project vec n w. (ok [], w);
  reinforce = λ id near w. (ok tt, w);
  create_memory = λ id item w. (ok true, w);
}

abbrev no_message : Failure → Text
no_message e = []

others-Answers : Answers others
others-Answers = record {
  not_cancelled = λ w. refl;
  keeps_sessions = λ req w. refl;
  answers = λ req w. inl (answer, refl);
}

-- The session that ended first waits in front.
queue : waiting_ids two ≡ codes "s3" ∷ codes "s2" ∷ []
unfolding ordered place awaits_summary
queue = refl

two-Distinct : Distinct (waiting_ids two)
unfolding ordered place awaits_summary text_eq
two-Distinct = ((refl, tt), (tt, tt))

two-few : length (waiting_ids two) < 200 * 25
unfolding ordered place awaits_summary
two-few = omega arith

drain_tier1-tables_example :
    ((drain_tier1 words (tables show no_message others) (world two)).0 ≡ none)
    × (length
          (waiting_ids (drain_tier1 words (tables show no_message others) (world two)).1.sessions)
        ≡ 0)
drain_tier1-tables_example =
    drain_tier1-tables show no_message others others-Answers words (world two) two-Distinct two-few

abbrev spoken : Text
spoken = codes "fixed the build"

abbrev closed_row : SessionRow
closed_row = record (closed_at 8 (codes "s2")) { summary = some spoken }

-- A run.
abbrev run_at : ℕ → RunRow
run_at t = record {
  id = [];
  tier = 1;
  team_id = none;
  project = none;
  started_at = t;
  finished_at = none;
  items = 25;
  produced = 25;
  deduped = 0;
  input_tokens = 1;
  output_tokens = 1;
  error = none;
}

abbrev runs : ℕ → List RunRow
runs zero = []
runs (suc n) = run_at n ∷ runs n

-- The 512 records that the report of a drain asks for become 20.
report_window : length (list_runs 512 (runs 40)) ≡ 20
unfolding list_runs ordered_desc place_desc
report_window = refl

-- A model whose key is not accepted.
abbrev refusing : Backend (World (Unit {0}))
refusing = record others { complete = λ req w. (err (http_error 401 0), w) }

refusing-Unreachable : Unreachable refusing
refusing-Unreachable = record {
  not_cancelled = λ w. refl;
  fails = λ req w. (http_error 401 0, refl);
  call_keeps = λ req w. refl;
  wait_keeps = λ d w. refl;
  user_keeps = λ team w. refl;
}

abbrev facts : Unmarshal ExtractedFact
facts = record {
  list = λ text. some [];
  object = λ text. none;
  item = λ text. none;
  is_zero = λ f. true;
}

abbrev read_rows : ℕ → List SessionRow
read_rows zero = []
read_rows (suc n) =
    (record (closed_at n (show n)) { summary = some (codes "ok"); summarised_at = some 50 })
    ∷ read_rows n

hundred_wait : length (waiting_for_facts (read_rows 100)) ≡ tier2_batch
unfolding sessions_awaiting_facts by_team place_by_team ordered place awaits_facts text_eq text_lt
hundred_wait = refl

drain_tier2-tables_example :
    ((drain_loop refusing.is_cancelled tier2_batch
        (tier2_once words facts 2000 (λ gs. gs) (tables show no_message refusing))
        max_drain_batches
        (world (read_rows 100))).0
      ≡ (200, none))
    × ((drain_loop refusing.is_cancelled tier2_batch
          (tier2_once words facts 2000 (λ gs. gs) (tables show no_message refusing))
          max_drain_batches
          (world (read_rows 100))).1.sessions
        ≡ read_rows 100)
drain_tier2-tables_example =
    drain_tier2-tables show no_message refusing refusing-Unreachable words facts 2000 (λ gs. gs)
      (world (read_rows 100)) hundred_wait
