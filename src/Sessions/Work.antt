-- ===== src/Sessions/Work.antt =====
-- internal/store/consolidation.go: the calls of the worker, and the worker's backend over the tables.
use dk_agent_memory.Consolidate.Backend.{Backend, Session, Observation, Failure, Closing, Run}
use dk_agent_memory.Sessions.Tables.{
  SessionRow, ObservationRow, RunRow, ordered, ordered_desc, within, update, time_or_zero,
}
use dk_agent_memory.Base.{
  ℕ, ◌+◌, Bool, false, not, ◌&&◌, ◌||◌, Option, none, some, List, [], ◌∷◌, map, ltb, if◌then◌else◌,
  is_some, take, keep, any, Text, text_eq, text_lt, is_empty, ok,
}

unfoldable pub awaits_summary : SessionRow → Bool
awaits_summary row = is_some row.ended_at && not (is_some row.summarised_at)

abbrev pub ended_time : SessionRow → ℕ
ended_time row = time_or_zero row.ended_at

unfoldable pub sessions_awaiting_summary : ℕ → List SessionRow → List SessionRow
unfolding ordered awaits_summary
sessions_awaiting_summary limit sessions =
    take (within limit 200 25) (ordered ended_time (keep awaits_summary sessions))

unfoldable pub session_observations : Text → ℕ → List ObservationRow → List ObservationRow
unfolding ordered
session_observations id limit observations = take (within limit 2000 400) (
    ordered (λ (o : ObservationRow). o.created_at)
      (keep (λ (o : ObservationRow). text_eq o.session_id id) observations))

unfoldable pub summarised_row : Text → ℕ → SessionRow → SessionRow
summarised_row text now row = record row { summary = some text; summarised_at = some now }

unfoldable pub mark_summarised : Text → Text → ℕ → List SessionRow → List SessionRow
unfolding summarised_row update
mark_summarised id text now sessions =
    update (λ (r : SessionRow). text_eq id r.id) (summarised_row text now) sessions

abbrev pub has_text : Option Text → Bool
has_text none = false
has_text (some text) = not (is_empty text)

unfoldable pub awaits_facts : SessionRow → Bool
awaits_facts row =
    is_some row.summarised_at && (not (is_some row.facts_extracted_at) && has_text row.summary)

-- `ORDER BY team_id, project, ended_at`: rows of one team and project stay in the order of `ended_at`.
abbrev pub team_earlier : SessionRow → SessionRow → Bool
team_earlier y x =
    text_lt y.team_id x.team_id || text_eq y.team_id x.team_id && text_lt y.project x.project

unfoldable pub place_by_team : SessionRow → List SessionRow → List SessionRow
place_by_team x [] = x ∷ []
place_by_team x (y ∷ ys) =
    let rest = place_by_team x ys in if team_earlier y x then y ∷ rest else x ∷ y ∷ ys

unfoldable pub by_team : List SessionRow → List SessionRow
unfolding place_by_team
by_team [] = []
by_team (x ∷ xs) = place_by_team x (by_team xs)

unfoldable pub sessions_awaiting_facts : ℕ → List SessionRow → List SessionRow
unfolding by_team ordered awaits_facts
sessions_awaiting_facts limit sessions =
    take (within limit 500 100) (by_team (ordered ended_time (keep awaits_facts sessions)))

unfoldable pub named_in : List Text → Text → Bool
named_in ids id = any (λ other. text_eq other id) ids

unfoldable pub mark_facts_extracted : List Text → ℕ → List SessionRow → List SessionRow
unfolding named_in update
mark_facts_extracted ids now sessions =
    update (λ (r : SessionRow). named_in ids r.id)
      (λ (r : SessionRow). record r { facts_extracted_at = some now }) sessions

abbrev pub null_if_empty : Text → Option Text
null_if_empty s = if is_empty s then none else some s

unfoldable pub start_run : Text → ℕ → ℕ → Text → Text → List RunRow → List RunRow
start_run fresh now tier team project runs =
    (record {
      id = fresh;
      tier = tier;
      team_id = null_if_empty team;
      project = null_if_empty project;
      started_at = now;
      finished_at = none;
      items = 0;
      produced = 0;
      deduped = 0;
      input_tokens = 0;
      output_tokens = 0;
      error = none;
    })
    ∷ runs

-- The text of an error is a parameter.
unfoldable pub finished : (Failure → Text) → ℕ → Closing → RunRow → RunRow
finished message now c row = record row {
  finished_at = some now;
  items = c.items;
  produced = c.produced;
  deduped = c.deduped;
  input_tokens = c.input_tokens;
  output_tokens = c.output_tokens;
  error = elim c.error [ none ↦ none | some e ↦ some (message e) ];
}

unfoldable pub finish_run : (Failure → Text) → Text → ℕ → Closing → List RunRow → List RunRow
unfolding finished update
finish_run message id now c runs =
    update (λ (r : RunRow). text_eq id r.id) (finished message now c) runs

unfoldable pub list_runs : ℕ → List RunRow → List RunRow
unfolding ordered_desc
list_runs limit runs = take (within limit 200 20) (ordered_desc (λ (r : RunRow). r.started_at) runs)

unfoldable pub token_spend : ℕ → List RunRow → ℕ × ℕ
token_spend since [] = (0, 0)
token_spend since (r ∷ rs) =
    let rest = token_spend since rs in
    if ltb r.started_at since then rest else (r.input_tokens + rest.0, r.output_tokens + rest.1)

-- The tables, the clock, the source of identifiers, and the state of all else that the worker calls.
pub record World (M : Type 0) : Type 0 where
  pub sessions : List SessionRow
  pub observations : List ObservationRow
  pub runs : List RunRow
  pub clock : ℕ
  pub drawn : ℕ
  pub rest : M

abbrev pub as_session : SessionRow → Session
as_session row = record {
  id = row.id;
  team_id = row.team_id;
  project = row.project;
  agent = row.agent;
  started_at = row.started_at;
  summary = row.summary;
}

abbrev pub as_observation : ObservationRow → Observation
as_observation row = record { kind = row.kind; content = row.content; files = row.files }

abbrev pub as_run : RunRow → Run
as_run row = record {
  tier = row.tier;
  started_at = row.started_at;
  produced = row.produced;
  deduped = row.deduped;
  input_tokens = row.input_tokens;
  output_tokens = row.output_tokens;
}

-- The store's half of the worker's backend, over the calls that `others` has.
module _ {M : Type 0} (fresh : ℕ → Text) (message : Failure → Text)
    (others : Backend (World M)) where
  unfoldable pub tables : Backend (World M)
  unfolding sessions_awaiting_summary session_observations mark_summarised sessions_awaiting_facts
      mark_facts_extracted start_run finish_run list_runs
  tables = record others {
    sessions_awaiting_summary =
        λ n w. (ok (map as_session (sessions_awaiting_summary n w.sessions)), w);
    session_observations =
        λ id n w. (ok (map as_observation (session_observations id n w.observations)), w);
    mark_summarised =
        λ id text w. (ok tt, record w { sessions = mark_summarised id text w.clock w.sessions });
    sessions_awaiting_facts =
        λ n w. (ok (map as_session (sessions_awaiting_facts n w.sessions)), w);
    mark_facts_extracted =
        λ ids w. (ok tt, record w { sessions = mark_facts_extracted ids w.clock w.sessions });
    start_run = λ tier team project w. (
      ok (fresh w.drawn),
      record w {
        runs = start_run (fresh w.drawn) w.clock tier team project w.runs;
        drawn = w.drawn + 1;
      },
    );
    finish_run = λ run c w. (ok tt, record w { runs = finish_run message run w.clock c w.runs });
    list_runs = λ n w. (ok (map as_run (list_runs n w.runs)), w);
  }
