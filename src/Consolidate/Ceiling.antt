-- ===== src/Consolidate/Ceiling.antt =====
-- A drain of the fact extraction over a long queue, with a model that fails.
use dk_agent_memory.Consolidate.Backend.{
  Backend, Session, Request, Response, Failure, other, Closing, Outcome,
}
use dk_agent_memory.Store.Model.{Identity}
use dk_agent_memory.Consolidate.Retry.{
  max_attempts, backoff, final, retry_after, pause, before_attempt, judged, attempts,
  complete_with_retry,
}
use dk_agent_memory.Consolidate.Instructions.{tier2_system}
use dk_agent_memory.Consolidate.Prompt.{Wording, facts_prompt}
use dk_agent_memory.Consolidate.Decode.{Unmarshal}
use dk_agent_memory.Consolidate.Drain.{Batch, drain_loop, drain_from, max_drain_batches}
use dk_agent_memory.Consolidate.Tier2.{
  ExtractedFact, Group, tier2_batch, group_all, answered, asked, extracting, work_closing,
  extract_for_project, extract_groups, facts_claimed, tier2_once,
}
use dk_agent_memory.Base.{
  ℕ, zero, suc, ◌+◌, ◌-◌, ◌≡◌, refl, ap, ◌∙◌, ◌⊎◌, inl, inr, true, false, ◌&&◌, none, List, [], ◌∷◌,
  arith, ltb, Bool-cases, length, Text, ok_inj, ok, err,
}

-- A model whose every call fails, in a context that is not cancelled, beside a store whose sessions that wait
-- for facts follow from a part of the state, which no call changes but the mark of sessions as read.
pub record Fails {S V : Type 0} (b : Backend S) (view : S → V) (waiting : V → List Session)
    : Type 0 where
  pub not_cancelled : (s : S) → b.is_cancelled s ≡ false
  pub fails : (req : Request) (s : S) → (e : Failure) × ((b.complete req s).0 ≡ err e)
  pub claims : (s : S) → (b.sessions_awaiting_facts tier2_batch s).0 ≡ ok (waiting (view s))
  pub on_claim : (s : S) → view (b.sessions_awaiting_facts tier2_batch s).1 ≡ view s
  pub on_wait : (d : ℕ) (s : S) → view (b.wait d s) ≡ view s
  pub on_complete : (req : Request) (s : S) → view (b.complete req s).1 ≡ view s
  pub on_start : (team project : Text) (s : S) → view (b.start_run 2 team project s).1 ≡ view s
  pub on_finish : (run : Text) (c : Closing) (s : S) → view (b.finish_run run c s).1 ≡ view s
  pub on_user : (team : Text) (s : S) → view (b.any_user_in_team team s).1 ≡ view s

module _ {S V : Type 0} (b : Backend S) (view : S → V) (waiting : V → List Session)
    (law : Fails b view waiting) where
  view-before :
      (attempt : ℕ) (last : Failure) (s : S) → view (before_attempt b attempt last s) ≡ view s
  unfolding before_attempt pause
  view-before attempt last s = elim (Bool-cases (ltb 1 attempt)) [
    | inr e ↦ rw e refl
    | inl e ↦ elim (Bool-cases (ltb (backoff (attempt - 1)) (retry_after last))) [
      | inl e' ↦ rw (e, e') (law.on_wait (retry_after last) s)
      | inr e' ↦ rw (e, e') (law.on_wait (backoff (attempt - 1)) s)
    ]
  ]

  -- A failure, which leaves the view as it was.
  abbrev Failed : S → Outcome S Response → Type 0
  Failed s o = ((e : Failure) × (o.0 ≡ err e)) × (view o.1 ≡ view s)

  judged-fails :
      (req : Request) (o : Outcome S Response) (e : Failure)
      → o.0 ≡ err e
      → ((e' : Failure) × (judged b req o ≡ inl (err e')))
        ⊎ ((e' : Failure) × (judged b req o ≡ inr e'))
  unfolding judged
  judged-fails req (ok resp, s) e h = cc
  judged-fails req (err e', s) e h = elim (Bool-cases (final e')) [
    | inl f ↦ inl (e', rw (law.not_cancelled s, f) refl)
    | inr f ↦ inr (e', rw (law.not_cancelled s, f) refl)
  ]

  attempts-Failed :
      (left attempt : ℕ) (last : Failure) (req : Request) (s : S)
      → Failed s (attempts b left attempt last req s)
  unfolding attempts
  attempts-Failed zero attempt last req s = ((_, refl), refl)
  attempts-Failed (suc left) attempt last req s =
      let paused = before_attempt b attempt last s in
      let tried = b.complete req paused in
      let (e, is_e) = law.fails req paused in
      let goes_on : (ltb 1 attempt && b.is_cancelled paused) ≡ false =
        ground (arith, law.not_cancelled paused) in
      let same : view tried.1 ≡ view s = law.on_complete req paused ∙ view-before attempt last s in
      elim (judged-fails req tried e is_e) [
        | inl (e', j) ↦ rw (goes_on, j, attempts) ((e', refl), same)
        | inr (e', j) ↦
            let (failed, rest) = attempts-Failed left (attempt + 1) e' req tried.1 in
            rw (goes_on, j, attempts) (failed, rest ∙ same)
      ]

  complete_with_retry-Failed : (req : Request) (s : S) → Failed s (complete_with_retry b req s)
  unfolding complete_with_retry
  complete_with_retry-Failed req s = attempts-Failed max_attempts 1 (other []) req s

  module _ (wording : Wording) (json : Unmarshal ExtractedFact) (max_tokens : ℕ)
      (arrange : List Group → List Group) where
    view-answered :
        (id : Identity) (project : Text) (sessions : List Session) (s : S) (o : Outcome S Response)
        → Failed s o
        → view (answered wording json max_tokens arrange b id project sessions o).1 ≡ view s
    unfolding answered
    view-answered id project sessions s (ok resp, s1) ((e, h), same) = cc
    view-answered id project sessions s (err e', s1) (_, same) = same

    view-asked :
        (project : Text) (sessions : List Session) (o : Outcome S Identity)
        → view (asked wording json max_tokens arrange b project sessions o).1 ≡ view o.1
    unfolding asked
    view-asked project sessions (err e, s) = refl
    view-asked project sessions (ok id, s) =
        let request : Request = record {
          system = tier2_system;
          prompt = facts_prompt wording project sessions;
          max_tokens = max_tokens;
          wants_json = true;
        } in
        view-answered id project sessions s (complete_with_retry b request s)
          (complete_with_retry-Failed request s)

    view-extracting :
        (team project : Text) (sessions : List Session) (o : Outcome S Text)
        → view (extracting wording json max_tokens arrange b team project sessions o).1 ≡ view o.1
    unfolding extracting
    view-extracting team project sessions (err e, s) = refl
    view-extracting team project sessions (ok run_id, s) =
        let user = b.any_user_in_team team s in
        let worked = asked wording json max_tokens arrange b project sessions user in
        law.on_finish run_id (work_closing (length sessions) worked.0) worked.1
        ∙ view-asked project sessions user
        ∙ law.on_user team s

    view-extract_for_project :
        (team project : Text) (sessions : List Session) (s : S)
        → view (extract_for_project wording json max_tokens arrange b team project sessions s).1
          ≡ view s
    unfolding extract_for_project
    view-extract_for_project team project sessions s =
        view-extracting team project sessions (b.start_run 2 team project s)
        ∙ law.on_start team project s

    extract_groups-fails :
        (gs : List Group) (s : S)
        → ((extract_groups wording json max_tokens arrange b gs s).0 ≡ none)
          × (view (extract_groups wording json max_tokens arrange b gs s).1 ≡ view s)
    unfolding extract_groups
    extract_groups-fails [] s = (refl, refl)
    extract_groups-fails (g ∷ gs) s =
        let pass =
          extract_for_project wording json max_tokens arrange b g.team g.project g.sessions s in
        let (none', same) = extract_groups-fails gs pass.1 in
        rw (law.not_cancelled s, extract_groups)
          (none', same ∙ view-extract_for_project g.team g.project g.sessions s)

    -- A full batch that reports no error and leaves the queue as it was.
    abbrev Full : S → Batch × S → Type 0
    Full s o = (o.0 ≡ (tier2_batch, none)) × (view o.1 ≡ view s)

    facts_claimed-Full :
        (o : Outcome S (List Session)) (s : S) (xs : List Session)
        → o.0 ≡ ok xs
        → length xs ≡ tier2_batch
        → view o.1 ≡ view s
        → Full s (facts_claimed wording json max_tokens arrange b o)
    unfolding facts_claimed
    facts_claimed-Full (err e, s1) s xs claim full same = cc
    facts_claimed-Full (ok [], s1) s xs claim full same =
        let short : length {A = Session} [] ≡ length xs = ap length (ok_inj claim) in
        absurd (omega (arith, short, full))
    facts_claimed-Full (ok (y ∷ ys), s1) s xs claim full same =
        let (no_err, kept) = extract_groups-fails (arrange (group_all (y ∷ ys) [])) s1 in
        let long : length (y ∷ ys) ≡ tier2_batch = ap length (ok_inj claim) ∙ full in
        (λ i. (long i, no_err i), kept ∙ same)

    tier2_once-Full :
        (s : S)
        → length (waiting (view s)) ≡ tier2_batch
        → Full s (tier2_once wording json max_tokens arrange b s)
    unfolding tier2_once
    tier2_once-Full s full =
        facts_claimed-Full (b.sessions_awaiting_facts tier2_batch s) s (waiting (view s))
          (law.claims s) full (law.on_claim s)

    drain_from-Full :
        (left i : ℕ) (s : S)
        → length (waiting (view s)) ≡ tier2_batch
        → ((drain_from b.is_cancelled tier2_batch
              (tier2_once wording json max_tokens arrange b)
              left
              i
              s).0
            ≡ (i + left - 1, none))
          × (view
                (drain_from b.is_cancelled tier2_batch
                  (tier2_once wording json max_tokens arrange b)
                  left
                  i
                  s).1
              ≡ view s)
    unfolding drain_from
    drain_from-Full zero i s full = (ap (λ (n : ℕ). (n, none)) (omega arith), refl)
    drain_from-Full (suc left) i s full =
        let done = tier2_once wording json max_tokens arrange b s in
        let (batch, same) = tier2_once-Full s full in
        let taken : done.0.0 ≡ tier2_batch = ap (λ (r : Batch). r.0) batch in
        let fine : done.0.1 ≡ none = ap (λ (r : Batch). r.1) batch in
        let not_short : ltb done.0.0 tier2_batch ≡ false = ground (arith, taken) in
        let still : length (waiting (view done.1)) ≡ tier2_batch =
          ap (λ v. length (waiting v)) same ∙ full in
        let (rest, kept) = drain_from-Full left (i + 1) done.1 still in
        let number : i + 1 + left - 1 ≡ i + suc left - 1 = omega arith in
        rw (law.not_cancelled s, fine, not_short, drain_from)
          (rest ∙ ap (λ (n : ℕ). (n, none)) number, kept ∙ same)

    -- If every call of the model fails, in a context that is not cancelled, and a full batch of sessions waits
    -- for facts, then a drain goes on to its two hundredth batch, reports no error, and leaves the part of the
    -- state that the queue follows from as it was.
    pub drain_tier2-ceiling :
        (s : S)
        → length (waiting (view s)) ≡ tier2_batch
        → ((drain_loop b.is_cancelled tier2_batch
              (tier2_once wording json max_tokens arrange b)
              max_drain_batches
              s).0
            ≡ (max_drain_batches, none))
          × (view
                (drain_loop b.is_cancelled tier2_batch
                  (tier2_once wording json max_tokens arrange b)
                  max_drain_batches
                  s).1
              ≡ view s)
    unfolding drain_loop
    drain_tier2-ceiling s full = drain_from-Full max_drain_batches 1 s full
