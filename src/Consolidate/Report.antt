-- ===== src/Consolidate/Report.antt =====
-- internal/consolidate/worker.go: a pass on demand, and its report.
use dk_agent_memory.Consolidate.Backend.{Backend, Run, Failure, Outcome}
use dk_agent_memory.Consolidate.Prompt.{Wording}
use dk_agent_memory.Consolidate.Decode.{Unmarshal}
use dk_agent_memory.Consolidate.Tier1.{drain_tier1, tier1_session_summaries}
use dk_agent_memory.Consolidate.Tier2.{ExtractedFact, Group, tier2_once, drain_tier2}
use dk_agent_memory.Consolidate.Tier3.{SynthesisedLesson, tier3_synthesise_lessons}
use dk_agent_memory.Base.{
  ℕ, ◌+◌, ◌-◌, ◌^◌, Bool, true, false, Option, none, some, List, [], ◌∷◌, ◌++◌, ltb, ◌==◌,
  if◌then◌else◌, Text, codes, ok, err,
}

-- What stands in the list of errors.
pub data Trouble : Type 0 where
  report_cancelled : Trouble
  no_such_tier : ℕ → Trouble
  in_tier : ℕ → Failure → Trouble

pub record RunReport : Type 0 where
  pub tiers : List Text
  pub errors : List Trouble
  pub sessions_summarised : ℕ
  pub facts_produced : ℕ
  pub lessons_produced : ℕ
  pub deduped : ℕ
  pub input_tokens : ℕ
  pub output_tokens : ℕ

abbrev pub blank_report : RunReport
blank_report = record {
  tiers = [];
  errors = [];
  sessions_summarised = 0;
  facts_produced = 0;
  lessons_produced = 0;
  deduped = 0;
  input_tokens = 0;
  output_tokens = 0;
}

abbrev pub with_error : ℕ → Option Failure → RunReport → RunReport
with_error tier none r = r
with_error tier (some e) r = record r { errors = r.errors ++ in_tier tier e ∷ [] }

unfoldable pub by_tier : Run → RunReport → RunReport
by_tier run r =
    if run.tier == 1
    then record r { sessions_summarised = r.sessions_summarised + run.produced }
    else if run.tier == 2
    then record r { facts_produced = r.facts_produced + run.produced }
    else if run.tier == 3
    then record r { lessons_produced = r.lessons_produced + run.produced }
    else r

unfoldable pub add_run : Run → RunReport → RunReport
unfolding by_tier
add_run run r = by_tier run (record r {
  input_tokens = r.input_tokens + run.input_tokens;
  output_tokens = r.output_tokens + run.output_tokens;
  deduped = r.deduped + run.deduped;
})

unfoldable pub add_runs : ℕ → List Run → RunReport → RunReport
unfolding add_run
add_runs before [] r = r
add_runs before (run ∷ runs) r =
    let added = add_run run r in
    if ltb run.started_at before then add_runs before runs r else add_runs before runs added

-- One second in microseconds.
abbrev pub second : ℕ
second = 10 ^ 6

abbrev pub or_all_tiers : List ℕ → List ℕ
or_all_tiers [] = 1 ∷ 2 ∷ 3 ∷ []
or_all_tiers (tier ∷ tiers) = tier ∷ tiers

abbrev pub report_window : Bool → ℕ
report_window drain = if drain then 512 else 50

module _ (wording : Wording) (json : Unmarshal ExtractedFact)
    (lessons_json : Unmarshal SynthesisedLesson) (max_tokens : ℕ)
    (arrange : List Group → List Group) {S : Type 0} (b : Backend S) where
  unfoldable pub tier2_extract_facts : S → Option Failure × S
  unfolding tier2_once
  tier2_extract_facts s =
      let done = tier2_once wording json max_tokens arrange b s in (done.0.1, done.1)

  abbrev pub named : ℕ → Text → RunReport → Option Failure × S → RunReport × S
  named tier name r (error, s) =
      (with_error tier error (record r { tiers = r.tiers ++ name ∷ [] }), s)

  unfoldable pub run_tier : ℕ → Bool → RunReport → S → RunReport × S
  unfolding tier1_session_summaries drain_tier1 tier2_extract_facts drain_tier2
      tier3_synthesise_lessons
  run_tier tier drain r s =
      if tier == 1
      then named 1 (codes "session summaries") r
          (if drain then drain_tier1 wording b s else tier1_session_summaries wording b s)
      else if tier == 2
      then named 2 (codes "fact extraction") r
          (if drain then drain_tier2 wording json max_tokens arrange b s else tier2_extract_facts s)
      else if tier == 3
      then named 3 (codes "lesson synthesis") r
          (tier3_synthesise_lessons wording lessons_json max_tokens b s)
      else (record r { errors = r.errors ++ no_such_tier tier ∷ [] }, s)

  unfoldable pub run_tiers : List ℕ → Bool → RunReport → S → RunReport × S
  unfolding run_tier
  run_tiers [] drain r s = (r, s)
  run_tiers (tier ∷ tiers) drain r s = elim (b.is_cancelled s) [
    | true ↦ (record r { errors = r.errors ++ report_cancelled ∷ [] }, s)
    | false ↦ let done = run_tier tier drain r s in run_tiers tiers drain done.0 done.1
  ]

  abbrev pub totalled : ℕ → RunReport → Outcome S (List Run) → RunReport × S
  unfolding add_runs
  totalled before r (err e, s) = (r, s)
  totalled before r (ok runs, s) = (add_runs before runs r, s)

  -- `None` where consolidation is disabled.
  unfoldable pub run_now : Bool → List ℕ → Bool → S → Option RunReport × S
  unfolding run_tiers add_runs
  run_now enabled tiers drain s =
      let before = b.now s - second in
      elim enabled [
        | false ↦ (none, s)
        | true ↦
            let done = run_tiers (or_all_tiers tiers) drain blank_report s in
            let report = totalled before done.0 (b.list_runs (report_window drain) done.1) in
            (some report.0, report.1)
      ]
