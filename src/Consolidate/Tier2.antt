-- ===== src/Consolidate/Tier2.antt =====
-- internal/consolidate/worker.go: facts from the summaries of a project.
use dk_agent_memory.Store.Model.{
  Identity, kind_fact, kind_decision, kind_preference, visibility_team,
}
use dk_agent_memory.Store.Create.{MemoryInput}
use dk_agent_memory.Consolidate.Backend.{
  Backend, Session, Request, Response, Failure, other, Closing, Outcome,
}
use dk_agent_memory.Consolidate.Retry.{complete_with_retry}
use dk_agent_memory.Consolidate.Prompt.{Wording, newline, or_fallback, facts_prompt}
use dk_agent_memory.Consolidate.Decode.{Unmarshal, DecodeError, decode_list}
use dk_agent_memory.Consolidate.Drain.{Batch, drain_loop, max_drain_batches}
use dk_agent_memory.Consolidate.Instructions.{tier2_system}
use dk_agent_memory.Base.{
  ℕ, ◌+◌, Bool, true, false, not, ◌&&◌, Option, none, some, List, [], ◌∷◌, ◌++◌, map, if◌then◌else◌,
  length, Text, codes, text_eq, is_empty, Result, trim_space, ok, err,
}

pub record ExtractedFact : Type 0 where
  pub kind : Text
  pub title : Text
  pub body : Text
  pub files : List Text

abbrev pub tier2_batch : ℕ
tier2_batch = 100

abbrev pub source_consolidation : Text
source_consolidation = codes "consolidation"

-- The counts of a run of a project, and the error that it is closed with and returns.
pub record Work : Type 0 where
  pub produced : ℕ
  pub deduped : ℕ
  pub in_tok : ℕ
  pub out_tok : ℕ
  pub run_err : Option Failure

abbrev pub no_work : Work
no_work = record { produced = 0; deduped = 0; in_tok = 0; out_tok = 0; run_err = none }

abbrev pub broken_off : {S : Type 0} → Failure → Work → S → Work × S
broken_off e w s = (record w { run_err = some e }, s)

pub record Group : Type 0 where
  pub team : Text
  pub project : Text
  pub sessions : List Session

unfoldable pub add_to_group : Session → List Group → List Group
add_to_group s [] = record { team = s.team_id; project = s.project; sessions = s ∷ [] } ∷ []
add_to_group s (g ∷ gs) =
    let rest = add_to_group s gs in
    if text_eq g.team s.team_id && text_eq g.project s.project
    then record g { sessions = g.sessions ++ s ∷ [] } ∷ gs
    else g ∷ rest

unfoldable pub group_all : List Session → List Group → List Group
unfolding add_to_group
group_all [] gs = gs
group_all (s ∷ ss) gs = group_all ss (add_to_group s gs)

unfoldable pub fact_kind : Text → Text
fact_kind kind =
    if not (text_eq kind kind_decision) && not (text_eq kind kind_preference)
    then kind_fact
    else kind

unfoldable pub fact_input : Text → ExtractedFact → MemoryInput
unfolding fact_kind or_fallback
fact_input project f = record {
  id = [];
  kind = fact_kind f.kind;
  title = f.title;
  body = or_fallback f.body f.title;
  project = project;
  files = f.files;
  visibility = visibility_team;
  source = source_consolidation;
  session_id = none;
  embedding = none;
}

unfoldable pub work_closing : ℕ → Work → Closing
work_closing items w = record {
  items = items;
  produced = w.produced;
  deduped = w.deduped;
  input_tokens = w.in_tok;
  output_tokens = w.out_tok;
  error = w.run_err;
}

module _ {S : Type 0} (b : Backend S) where
  abbrev pub first_vector : Outcome S (List Text) → Text × S
  first_vector (err e, s) = ([], s)
  first_vector (ok [], s) = ([], s)
  first_vector (ok (v ∷ vs), s) = (v, s)

  unfoldable pub embed_one : Text → S → Text × S
  embed_one text s = if b.has_embedder then first_vector (b.embed (text ∷ []) s) else ([], s)

  -- Whether a near match was strengthened in place of a new row.
  abbrev pub was_reinforced : Outcome S (Unit {0}) → Bool × S
  was_reinforced (err e, s) = (false, s)
  was_reinforced (ok u, s) = (true, s)

  unfoldable pub near_match : Identity → Outcome S (List (Text × Bool)) → Bool × S
  near_match id (err e, s) = (false, s)
  near_match id (ok [], s) = (false, s)
  near_match id (ok ((near, reaches) ∷ rest), s) =
      if reaches then was_reinforced (b.reinforce id near s) else (false, s)

  unfoldable pub deduplicated : Identity → Text → Text → S → Bool × S
  unfolding near_match
  deduplicated id project vec s =
      if is_empty vec then (false, s) else near_match id (b.similar_by_vector id project vec 3 s)

  abbrev pub tallied : Work → Outcome S Bool → Work × S
  tallied w (err e, s) = (w, s)
  tallied w (ok created, s) = (
    if created
        then record w { produced = w.produced + 1 }
        else record w { deduped = w.deduped + 1 },
    s,
  )

  unfoldable pub unless_near : Identity → MemoryInput → Work → Bool × S → Work × S
  unless_near id item w (true, s) = (record w { deduped = w.deduped + 1 }, s)
  unless_near id item w (false, s) = tallied w (b.create_memory id item s)

  unfoldable pub with_vector : Identity → Text → MemoryInput → Work → Text × S → Work × S
  unfolding unless_near deduplicated
  with_vector id project item w (vec, s) =
      unless_near id (record item { embedding = if is_empty vec then none else some vec }) w
        (deduplicated id project vec s)

  unfoldable pub store_item : Identity → Text → Text → MemoryInput → Work → S → Work × S
  unfolding embed_one with_vector
  store_item id project text item w s = with_vector id project item w (embed_one text s)

  unfoldable pub store_facts : Identity → Text → List ExtractedFact → Work → S → Work × S
  unfolding store_item fact_input
  store_facts id project [] w s = (w, s)
  store_facts id project (f ∷ fs) w s =
      let stored =
        store_item id project (f.title ++ (newline ++ f.body)) (fact_input project f) w s in
      let (w1, s1) = if is_empty (trim_space f.title) then (w, s) else stored in
      store_facts id project fs w1 s1

  abbrev pub marked : Work → Outcome S (Unit {0}) → Work × S
  marked w (err e, s) = broken_off e w s
  marked w (ok u, s) = (w, s)

module _ (wording : Wording) (json : Unmarshal ExtractedFact) (max_tokens : ℕ)
    (arrange : List Group → List Group) {S : Type 0} (b : Backend S) where
  unfoldable pub read_facts :
      Identity → Text → List Session → Work → Result DecodeError (List ExtractedFact) → S → Work × S
  unfolding store_facts
  read_facts id project sessions w (err e) s =
      broken_off (other (codes "could not read the extracted facts")) w s
  read_facts id project sessions w (ok facts) s =
      let stored = store_facts b id project facts w s in
      marked b stored.0 (b.mark_facts_extracted (map (λ (x : Session). x.id) sessions) stored.1)

  unfoldable pub answered : Identity → Text → List Session → Outcome S Response → Work × S
  unfolding read_facts decode_list
  answered id project sessions (err e, s) = broken_off e no_work s
  answered id project sessions (ok resp, s) =
      read_facts id project sessions
        (record no_work { in_tok = resp.input_tokens; out_tok = resp.output_tokens })
        (decode_list json resp.text) s

  unfoldable pub asked : Text → List Session → Outcome S Identity → Work × S
  unfolding answered facts_prompt complete_with_retry
  asked project sessions (err e, s) = broken_off e no_work s
  asked project sessions (ok id, s) =
      let request : Request = record {
        system = tier2_system;
        prompt = facts_prompt wording project sessions;
        max_tokens = max_tokens;
        wants_json = true;
      } in
      answered id project sessions (complete_with_retry b request s)

  -- The deferred `FinishRun`, whose own error is dropped.
  unfoldable pub extracting : Text → Text → List Session → Outcome S Text → Option Failure × S
  unfolding asked work_closing
  extracting team project sessions (err e, s) = (some e, s)
  extracting team project sessions (ok run_id, s) =
      let worked = asked project sessions (b.any_user_in_team team s) in
      (worked.0.run_err, (b.finish_run run_id (work_closing (length sessions) worked.0) worked.1).1)

  unfoldable pub extract_for_project : Text → Text → List Session → S → Option Failure × S
  unfolding extracting
  extract_for_project team project sessions s =
      extracting team project sessions (b.start_run 2 team project s)

  -- The error of a group is logged.
  unfoldable pub extract_groups : List Group → S → Option Failure × S
  unfolding extract_for_project
  extract_groups [] s = (none, s)
  extract_groups (g ∷ gs) s = elim (b.is_cancelled s) [
    | true ↦ (some Failure.cancelled, s)
    | false ↦ extract_groups gs (extract_for_project g.team g.project g.sessions s).1
  ]

  unfoldable pub facts_claimed : Outcome S (List Session) → Batch × S
  unfolding extract_groups group_all
  facts_claimed (err e, s) = ((0, some e), s)
  facts_claimed (ok [], s) = ((0, none), s)
  facts_claimed (ok (x ∷ xs), s) =
      let (error, s1) = extract_groups (arrange (group_all (x ∷ xs) [])) s in
      ((length (x ∷ xs), error), s1)

  unfoldable pub tier2_once : S → Batch × S
  unfolding facts_claimed
  tier2_once s = facts_claimed (b.sessions_awaiting_facts tier2_batch s)

  unfoldable pub drain_tier2 : S → Option Failure × S
  unfolding drain_loop tier2_once
  drain_tier2 s =
      let drained = drain_loop b.is_cancelled tier2_batch tier2_once max_drain_batches s in
      (drained.0.1, drained.1)
