-- ===== src/Consolidate/Tier1.antt =====
-- internal/consolidate/worker.go: session summaries.
use dk_agent_memory.Consolidate.Backend.{
  Backend, Session, Observation, Request, Response, Failure, Closing, Outcome,
}
use dk_agent_memory.Consolidate.Retry.{complete_with_retry, is_token_budget}
use dk_agent_memory.Consolidate.Prompt.{Wording, render_observations}
use dk_agent_memory.Consolidate.Drain.{Batch, drain_loop, max_drain_batches}
use dk_agent_memory.Consolidate.Instructions.{tier1_system}
use dk_agent_memory.Base.{
  ℕ, ◌+◌, Bool, true, false, ◌&&◌, Option, none, some, List, [], ◌∷◌, ltb, if◌then◌else◌, length,
  Text, is_empty, Result, trim_space, ok, err,
}

abbrev pub tier1_batch : ℕ
tier1_batch = 25

abbrev pub tier1_observations : ℕ
tier1_observations = 400

abbrev pub tier1_observations_retry : ℕ
tier1_observations_retry = 60

-- What the loop has counted, and the error that it stopped at.
pub record Tally : Type 0 where
  pub produced : ℕ
  pub skipped : ℕ
  pub in_tok : ℕ
  pub out_tok : ℕ
  pub run_err : Option Failure

abbrev pub no_tally : Tally
no_tally = record { produced = 0; skipped = 0; in_tok = 0; out_tok = 0; run_err = none }

-- Whether the loop goes on, the counts and the state.
abbrev pub Round : Type 0 → Type 0
Round S = Bool × Tally × S

abbrev pub stop : {S : Type 0} → Failure → Tally → S → Round S
stop e t s = (false, record t { run_err = some e }, s)

abbrev pub is_budget_error : Result Failure Response → Bool
is_budget_error (ok resp) = false
is_budget_error (err e) = is_token_budget e

unfoldable pub closing : List Session → Tally → Closing
closing sessions t = record {
  items = length sessions;
  produced = t.produced;
  deduped = 0;
  input_tokens = t.in_tok;
  output_tokens = t.out_tok;
  error = t.run_err;
}

module _ (wording : Wording) {S : Type 0} (b : Backend S) where
  unfoldable pub summary_request : Session → List Observation → Request
  unfolding render_observations
  summary_request sess obs = record {
    system = tier1_system;
    prompt = render_observations wording sess obs;
    max_tokens = 0;
    wants_json = false;
  }

  unfoldable pub retried :
      Session → Outcome S Response → Outcome S (List Observation) → Outcome S Response
  unfolding summary_request complete_with_retry
  retried sess (resp, s) (ok (o ∷ os), s') =
      complete_with_retry b (summary_request sess (o ∷ os)) s'
  retried sess (resp, s) (_, s') = (resp, s')

  -- The second attempt at a session that is too large.
  unfoldable pub shortened : Session → List Observation → Outcome S Response → Outcome S Response
  unfolding retried is_token_budget
  shortened sess obs (resp, s) =
      if is_budget_error resp && ltb tier1_observations_retry (length obs)
      then retried sess (resp, s) (b.session_observations sess.id tier1_observations_retry s)
      else (resp, s)

  unfoldable pub summarised : Text → Response → Tally → Outcome S (Unit {0}) → Round S
  summarised summary resp t (err e, s) =
      stop e
        (record t {
          in_tok = t.in_tok + resp.input_tokens;
          out_tok = t.out_tok + resp.output_tokens;
        })
        s
  summarised summary resp t (ok u, s) = (
    true,
    record t {
      in_tok = t.in_tok + resp.input_tokens;
      out_tok = t.out_tok + resp.output_tokens;
      produced = if is_empty summary then t.produced else t.produced + 1;
    },
    s,
  )

  unfoldable pub settled : Session → Tally → Outcome S Response → Round S
  unfolding summarised is_token_budget
  settled sess t (ok resp, s) =
      summarised (trim_space resp.text) resp t (b.mark_summarised sess.id (trim_space resp.text) s)
  settled sess t (err e, s) =
      if is_token_budget e
      then (true, record t { skipped = t.skipped + 1 }, (b.mark_summarised sess.id [] s).1)
      else stop e t s

  unfoldable pub observed : Session → Tally → Outcome S (List Observation) → Round S
  unfolding shortened settled complete_with_retry summary_request
  observed sess t (err e, s) = stop e t s
  observed sess t (ok [], s) = (true, t, (b.mark_summarised sess.id [] s).1)
  observed sess t (ok (o ∷ os), s) =
      settled sess t
        (shortened sess (o ∷ os) (complete_with_retry b (summary_request sess (o ∷ os)) s))

  unfoldable pub summarise_all : List Session → Tally → S → Tally × S
  unfolding observed
  summarise_all [] t s = (t, s)
  summarise_all (sess ∷ rest) t s =
      let round = observed sess t (b.session_observations sess.id tier1_observations s) in
      elim (b.is_cancelled s) [
        | true ↦ (t, s)
        | false ↦ elim round.0 [
          | true ↦ summarise_all rest round.1 round.2
          | false ↦ (round.1, round.2)
        ]
      ]

  abbrev first_error : Outcome S (Unit {0}) → Option Failure → Option Failure
  first_error (err e, s) run_err = some e
  first_error (ok u, s) run_err = run_err

  unfoldable pub started : List Session → Outcome S Text → Batch × S
  unfolding summarise_all closing
  started sessions (err e, s) = ((0, some e), s)
  started sessions (ok run_id, s) =
      let worked = summarise_all sessions no_tally s in
      let closed = b.finish_run run_id (closing sessions worked.0) worked.1 in
      ((length sessions, first_error closed worked.0.run_err), closed.1)

  unfoldable pub claimed : Outcome S (List Session) → Batch × S
  unfolding started
  claimed (err e, s) = ((0, some e), s)
  claimed (ok [], s) = ((0, none), s)
  claimed (ok (sess ∷ rest), s) = started (sess ∷ rest) (b.start_run 1 [] [] s)

  unfoldable pub tier1_once : S → Batch × S
  unfolding claimed
  tier1_once s = claimed (b.sessions_awaiting_summary tier1_batch s)

  unfoldable pub tier1_session_summaries : S → Option Failure × S
  unfolding tier1_once
  tier1_session_summaries s = ((tier1_once s).0.1, (tier1_once s).1)

  unfoldable pub drain_tier1 : S → Option Failure × S
  unfolding drain_loop tier1_once
  drain_tier1 s =
      let drained = drain_loop b.is_cancelled tier1_batch tier1_once max_drain_batches s in
      (drained.0.1, drained.1)
