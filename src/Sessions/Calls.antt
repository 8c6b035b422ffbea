-- ===== src/Sessions/Calls.antt =====
-- internal/store/sessions.go: the calls of the handlers.
use dk_agent_memory.Store.Model.{Identity, StoreError, not_found}
use dk_agent_memory.Sessions.Tables.{
  SessionRow, ObservationRow, ordered, ordered_desc, within, update, find_row,
}
use dk_agent_memory.Base.{
  ℕ, ◌+◌, ◌-◌, ◌*◌, ◌^◌, Bool, not, ◌&&◌, ◌||◌, Option, none, some, List, [], ◌∷◌, ◌++◌, ltb,
  if◌then◌else◌, take, keep, any, Text, codes, text_eq, is_empty, Result, ok, err,
}

-- `ulid.New()` is an argument, and so is the time of the database.
unfoldable pub create_session :
    Identity → Text → ℕ → Text → Text → Text → List SessionRow → SessionRow × List SessionRow
create_session who fresh now project agent meta sessions =
    let row : SessionRow = record {
      id = fresh;
      team_id = who.team_id;
      user_id = who.user_id;
      project = project;
      agent = agent;
      started_at = now;
      ended_at = none;
      summary = none;
      summarised_at = none;
      facts_extracted_at = none;
      meta = meta;
    } in
    (row, row ∷ sessions)

-- `WHERE id = $1 AND team_id = $2`
abbrev pub own_session : Identity → Text → SessionRow → Bool
own_session who id row = text_eq row.id id && text_eq row.team_id who.team_id

abbrev pub row_or_not_found : {A : Type 0} → Option A → Result StoreError A
row_or_not_found none = err not_found
row_or_not_found (some row) = ok row

unfoldable pub get_session : Identity → Text → List SessionRow → Result StoreError SessionRow
unfolding find_row
get_session who id sessions = row_or_not_found (find_row (own_session who id) sessions)

abbrev pub coalesce : {A : Type 0} → Option A → Option A → Option A
coalesce none b = b
coalesce (some a) b = some a

abbrev pub or_now : Option ℕ → ℕ → ℕ
or_now none now = now
or_now (some t) now = t

unfoldable pub ended : ℕ → Option Text → SessionRow → SessionRow
ended at summary row = record row { ended_at = some at; summary = coalesce summary row.summary }

unfoldable pub end_session :
    Identity
    → Text
    → Option ℕ
    → Option Text
    → ℕ
    → List SessionRow
    → Result StoreError SessionRow × List SessionRow
unfolding ended get_session update
end_session who id ended_at summary now sessions =
    let after = update (own_session who id) (ended (or_now ended_at now) summary) sessions in
    if any (own_session who id) sessions
    then (get_session who id after, after)
    else (err not_found, sessions)

unfoldable pub list_sessions : Identity → Text → ℕ → List SessionRow → List SessionRow
unfolding ordered_desc
list_sessions who project limit sessions = take (within limit 500 50) (
    ordered_desc (λ (r : SessionRow). r.started_at)
      (keep
        (λ (r : SessionRow).
          text_eq r.team_id who.team_id && (is_empty project || text_eq r.project project))
        sessions))

pub record ObservationInput : Type 0 where
  pub kind : Text
  pub content : Text
  pub files : List Text

-- `redact.Apply` under the configuration: the text to store, and whether it found something.
module _ (redacted_text : Text → Text × Bool) where
  unfoldable pub new_observation :
      Identity → Text → Text → ℕ → Text → ObservationInput → ObservationRow
  new_observation who session_id project now fresh item = record {
    id = fresh;
    session_id = session_id;
    team_id = who.team_id;
    user_id = who.user_id;
    project = project;
    kind = if is_empty item.kind then codes "note" else item.kind;
    content = (redacted_text item.content).0;
    files = item.files;
    redacted = (redacted_text item.content).1;
    created_at = now;
  }

  -- The rows of a batch, with the identifiers drawn for them in turn.
  unfoldable pub new_observations :
      Identity → Text → Text → ℕ → (ℕ → Text) → ℕ → List ObservationInput → List ObservationRow
  unfolding new_observation
  new_observations who session_id project now fresh n [] = []
  new_observations who session_id project now fresh n (item ∷ items) =
      new_observation who session_id project now (fresh n) item
      ∷ new_observations who session_id project now fresh (n + 1) items

  abbrev pub inserted :
      Identity
      → Text
      → ℕ
      → (ℕ → Text)
      → List ObservationInput
      → List ObservationRow
      → Option SessionRow
      → Result StoreError (List ObservationRow) × List ObservationRow
  unfolding new_observations
  inserted who id now fresh items observations none = (err not_found, observations)
  inserted who id now fresh items observations (some row) =
      let added = new_observations who id row.project now fresh 0 items in
      (ok added, observations ++ added)

  -- One transaction: all of the batch is written or none of it.
  unfoldable pub add_observations :
      Identity
      → Text
      → ℕ
      → (ℕ → Text)
      → List ObservationInput
      → List SessionRow
      → List ObservationRow
      → Result StoreError (List ObservationRow) × List ObservationRow
  unfolding find_row
  add_observations who id now fresh [] sessions observations = (ok [], observations)
  add_observations who id now fresh (item ∷ items) sessions observations =
      inserted who id now fresh (item ∷ items) observations (find_row (own_session who id) sessions)

unfoldable pub list_observations : Identity → Text → ℕ → List ObservationRow → List ObservationRow
unfolding ordered
list_observations who id limit observations = take (within limit 5000 500) (
    ordered (λ (o : ObservationRow). o.created_at)
      (keep (λ (o : ObservationRow). text_eq o.session_id id && text_eq o.team_id who.team_id)
        observations))

-- What is older than a number of hours goes; a time is in microseconds.
unfoldable pub purge_observations : ℕ → ℕ → List ObservationRow → List ObservationRow
purge_observations hours now observations =
    keep (λ (o : ObservationRow). not (ltb o.created_at (now - hours * (3600 * 10 ^ 6))))
      observations
