-- ===== src/Sessions/Queue.antt =====
-- The tables keep the promises that the worker relies on, and what that makes of a drain.
use dk_agent_memory.Consolidate.Backend.{Backend, Session, Request, Response, Failure, token_budget}
use dk_agent_memory.Consolidate.Prompt.{Wording}
use dk_agent_memory.Consolidate.Drain.{max_drain_batches}
use dk_agent_memory.Consolidate.Tier1.{tier1_batch, drain_tier1}
use dk_agent_memory.Consolidate.Progress.{Cooperates, without, Distinct}
use dk_agent_memory.Consolidate.Cleared.{drain_tier1-clears}
use dk_agent_memory.Sessions.Tables.{SessionRow, ordered, update}
use dk_agent_memory.Sessions.Work.{
  World, tables, as_session, as_observation, awaits_summary, ended_time, sessions_awaiting_summary,
  session_observations, mark_summarised, summarised_row, start_run, finish_run,
}
use dk_agent_memory.Sessions.Order.{keep-ordered}
use dk_agent_memory.Base.{
  ℕ, zero, suc, ◌+◌, ◌*◌, ◌<◌, ◌≡◌, refl, sym, ap, ◌∙◌, ◌⊎◌, inl, inr, Bool, false, not, none, List,
  [], ◌∷◌, map, Bool-cases, is_some, length, take, keep, Text, text_eq, ok, err,
}

-- The identifiers of the closed sessions without a summary, the one that ended first in front.
abbrev pub waiting_ids : List SessionRow → List Text
waiting_ids sessions =
    map (λ (r : SessionRow). r.id) (ordered ended_time (keep awaits_summary sessions))

abbrev other_than : Text → SessionRow → Bool
other_than id row = not (text_eq id row.id)

ids-keep :
    (id : Text) (rows : List SessionRow)
    → map (λ (r : SessionRow). r.id) (keep (other_than id) rows)
      ≡ without id (map (λ (r : SessionRow). r.id) rows)
unfolding without
ids-keep id [] = refl
ids-keep id (r ∷ rs) = elim (Bool-cases (text_eq id r.id)) [
  | inl e ↦ rw (e, ids-keep id rs) refl
  | inr e ↦ rw (e, ids-keep id rs) refl
]

summarised_row-done :
    (text : Text) (now : ℕ) (row : SessionRow)
    → awaits_summary (summarised_row text now row) ≡ false
unfolding awaits_summary summarised_row
summarised_row-done text now row = elim (Bool-cases (is_some row.ended_at)) [
  | inl e ↦ rw e refl
  | inr e ↦ rw e refl
]

keep-mark_summarised :
    (id text : Text) (now : ℕ) (rows : List SessionRow)
    → keep awaits_summary (mark_summarised id text now rows)
      ≡ keep (other_than id) (keep awaits_summary rows)
unfolding mark_summarised update
keep-mark_summarised id text now [] = refl
keep-mark_summarised id text now (r ∷ rs) =
    let rest = keep-mark_summarised id text now rs in
    elim (Bool-cases (text_eq id r.id)) [
      | inl e ↦
          let done = summarised_row-done text now r in
          elim (Bool-cases (awaits_summary r)) [
            | inl w ↦ rw (e, done, w, e) rest
            | inr w ↦ rw (e, done, w) rest
          ]
      | inr e ↦ elim (Bool-cases (awaits_summary r)) [
        | inl w ↦ rw (e, w, e) (ap (λ xs. r ∷ xs) rest)
        | inr w ↦ rw (e, w) rest
      ]
    ]

-- A mark takes the session out of the queue and leaves the others in their order.
pub waiting_ids-mark_summarised :
    (id text : Text) (now : ℕ) (rows : List SessionRow)
    → waiting_ids (mark_summarised id text now rows) ≡ without id (waiting_ids rows)
waiting_ids-mark_summarised id text now rows =
    ap (λ rs. map (λ (r : SessionRow). r.id) (ordered ended_time rs))
      (keep-mark_summarised id text now rows)
    ∙ ap (map (λ (r : SessionRow). r.id))
        (sym (keep-ordered ended_time (other_than id) (keep awaits_summary rows)))
    ∙ ids-keep id (ordered ended_time (keep awaits_summary rows))

ids-take :
    (n : ℕ) (rows : List SessionRow)
    → map (λ (x : Session). x.id) (map as_session (take n rows))
      ≡ take n (map (λ (r : SessionRow). r.id) rows)
ids-take zero rows = refl
ids-take (suc n) [] = refl
ids-take (suc n) (r ∷ rs) = ap (λ xs. r.id ∷ xs) (ids-take n rs)

-- A model that answers or has spent its tokens, and never touches the sessions.
pub record Answers {M : Type 0} (others : Backend (World M)) : Type 0 where
  pub not_cancelled : (w : World M) → others.is_cancelled w ≡ false
  pub keeps_sessions :
      (req : Request) (w : World M) → (others.complete req w).1.sessions ≡ w.sessions
  pub answers :
      (req : Request) (w : World M)
      → ((resp : Response) × ((others.complete req w).0 ≡ ok resp))
        ⊎ ((others.complete req w).0 ≡ err token_budget)

module _ {M : Type 0} (fresh : ℕ → Text) (message : Failure → Text) (others : Backend (World M))
    (law : Answers others) where
  tables-Cooperates :
      Cooperates (tables fresh message others) (λ w. waiting_ids w.sessions) (λ w. Unit {0})
  unfolding sessions_awaiting_summary tables
  tables-Cooperates = record {
    not_cancelled = λ w good. law.not_cancelled w;
    claims = λ w good. (
      map as_session (sessions_awaiting_summary tier1_batch w.sessions),
      w,
      refl,
      ids-take tier1_batch (ordered ended_time (keep awaits_summary w.sessions)),
      tt,
      refl,
    );
    reads = λ id n w good.
        (map as_observation (session_observations id n w.observations), w, refl, tt, refl);
    answers = λ req w good. (
      (others.complete req w).0,
      (others.complete req w).1,
      refl,
      law.answers req w,
      tt,
      ap waiting_ids (law.keeps_sessions req w),
    );
    marks = λ id text w good. (
      record w { sessions = mark_summarised id text w.clock w.sessions },
      refl,
      tt,
      waiting_ids-mark_summarised id text w.clock w.sessions,
    );
    starts = λ w good. (
      fresh w.drawn,
      record w { runs = start_run (fresh w.drawn) w.clock 1 [] [] w.runs; drawn = w.drawn + 1 },
      refl,
      tt,
      refl,
    );
    finishes = λ run c w good.
        (record w { runs = finish_run message run w.clock c w.runs }, refl, tt, refl);
  }

  -- Over the tables, with a model that answers or has spent its tokens, a drain of fewer than five thousand
  -- waiting sessions with distinct identifiers reports no error and leaves no session to summarise.
  pub drain_tier1-tables :
      (words : Wording) (w : World M)
      → Distinct (waiting_ids w.sessions)
      → length (waiting_ids w.sessions) < max_drain_batches * tier1_batch
      → ((drain_tier1 words (tables fresh message others) w).0 ≡ none)
        × (length (waiting_ids (drain_tier1 words (tables fresh message others) w).1.sessions) ≡ 0)
  drain_tier1-tables words w distinct few =
      drain_tier1-clears words (tables fresh message others) (λ w'. waiting_ids w'.sessions)
        (λ w'. Unit) tables-Cooperates w tt distinct few
