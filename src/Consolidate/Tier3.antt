-- ===== src/Consolidate/Tier3.antt =====
-- internal/consolidate/worker.go: lessons from the facts of a project.
use dk_agent_memory.Store.Model.{Identity, kind_lesson, visibility_team}
use dk_agent_memory.Store.Create.{MemoryInput}
use dk_agent_memory.Consolidate.Backend.{Backend, Fact, Request, Response, Failure, other, Outcome}
use dk_agent_memory.Consolidate.Retry.{complete_with_retry}
use dk_agent_memory.Consolidate.Prompt.{Wording, newline, or_fallback, lessons_prompt}
use dk_agent_memory.Consolidate.Decode.{Unmarshal, DecodeError, decode_list}
use dk_agent_memory.Consolidate.Tier2.{
  Work, no_work, broken_off, store_item, source_consolidation, work_closing,
}
use dk_agent_memory.Consolidate.Instructions.{tier3_system}
use dk_agent_memory.Base.{
  ℕ, ◌-◌, ◌*◌, ◌^◌, true, false, Option, none, some, List, [], ◌∷◌, ◌++◌, ltb, if◌then◌else◌,
  length, Text, codes, is_empty, Result, trim_space, ok, err,
}

pub record SynthesisedLesson : Type 0 where
  pub lesson : Text
  pub why : Text
  pub files : List Text

-- Thirty days in microseconds.
abbrev pub fact_window : ℕ
fact_window = 30 * (24 * (3600 * 10 ^ 6))

unfoldable pub lesson_input : Text → SynthesisedLesson → MemoryInput
unfolding or_fallback
lesson_input project l = record {
  id = [];
  kind = kind_lesson;
  title = l.lesson;
  body = or_fallback l.why l.lesson;
  project = project;
  files = l.files;
  visibility = visibility_team;
  source = source_consolidation;
  session_id = none;
  embedding = none;
}

module _ {S : Type 0} (b : Backend S) where
  unfoldable pub store_lessons : Identity → Text → List SynthesisedLesson → Work → S → Work × S
  unfolding store_item lesson_input
  store_lessons id project [] w s = (w, s)
  store_lessons id project (l ∷ ls) w s =
      let stored =
        store_item b id project (l.lesson ++ (newline ++ l.why)) (lesson_input project l) w s in
      let (w1, s1) = if is_empty (trim_space l.lesson) then (w, s) else stored in
      store_lessons id project ls w1 s1

module _ (wording : Wording) (json : Unmarshal SynthesisedLesson) (max_tokens : ℕ) {S : Type 0}
    (b : Backend S) where
  unfoldable pub read_lessons :
      Identity → Text → Work → Result DecodeError (List SynthesisedLesson) → S → Work × S
  unfolding store_lessons
  read_lessons id project w (err e) s =
      broken_off (other (codes "could not read the synthesised lessons")) w s
  read_lessons id project w (ok lessons) s = store_lessons b id project lessons w s

  unfoldable pub lessons_answered : Identity → Text → Outcome S Response → Work × S
  unfolding read_lessons decode_list
  lessons_answered id project (err e, s) = broken_off e no_work s
  lessons_answered id project (ok resp, s) =
      read_lessons id project
        (record no_work { in_tok = resp.input_tokens; out_tok = resp.output_tokens })
        (decode_list json resp.text) s

  unfoldable pub lessons_asked : Text → List Fact → Outcome S Identity → Work × S
  unfolding lessons_answered lessons_prompt complete_with_retry
  lessons_asked project facts (err e, s) = broken_off e no_work s
  lessons_asked project facts (ok id, s) =
      let request : Request = record {
        system = tier3_system;
        prompt = lessons_prompt project facts;
        max_tokens = max_tokens;
        wants_json = true;
      } in
      lessons_answered id project (complete_with_retry b request s)

  unfoldable pub synthesising : Text → Text → List Fact → Outcome S Text → Option Failure × S
  unfolding lessons_asked work_closing
  synthesising team project facts (err e, s) = (some e, s)
  synthesising team project facts (ok run_id, s) =
      let worked = lessons_asked project facts (b.any_user_in_team team s) in
      (worked.0.run_err, (b.finish_run run_id (work_closing (length facts) worked.0) worked.1).1)

  -- Fewer than five facts show no pattern.
  unfoldable pub enough_facts : Text → Text → Outcome S (List Fact) → Option Failure × S
  unfolding synthesising
  enough_facts team project (err e, s) = (some e, s)
  enough_facts team project (ok facts, s) = elim (ltb (length facts) 5) [
    | true ↦ (none, s)
    | false ↦ synthesising team project facts (b.start_run 3 team project s)
  ]

  unfoldable pub synthesise_for_project : Text → Text → S → Option Failure × S
  unfolding enough_facts
  synthesise_for_project team project s =
      enough_facts team project (b.recent_facts team project (b.now s - fact_window) 200 s)

  -- The error of a project is logged.
  unfoldable pub synthesise_pairs : List (Text × Text) → S → Option Failure × S
  unfolding synthesise_for_project
  synthesise_pairs [] s = (none, s)
  synthesise_pairs ((team, project) ∷ pairs) s = elim (b.is_cancelled s) [
    | true ↦ (some Failure.cancelled, s)
    | false ↦ synthesise_pairs pairs (synthesise_for_project team project s).1
  ]

  unfoldable pub over_projects : Outcome S (List (Text × Text)) → Option Failure × S
  unfolding synthesise_pairs
  over_projects (err e, s) = (some e, s)
  over_projects (ok pairs, s) = synthesise_pairs pairs s

  unfoldable pub tier3_synthesise_lessons : S → Option Failure × S
  unfolding over_projects
  tier3_synthesise_lessons s = over_projects (b.projects_with_memories s)
