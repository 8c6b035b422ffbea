-- ===== src/Consolidate/Facts.antt =====
-- What the extraction of facts marks as read.
use dk_agent_memory.Consolidate.Unread.{
  Unread, without_all, unread-complete_with_retry, unread-store_facts, run_err-store_facts,
}
use dk_agent_memory.Store.Model.{Identity}
use dk_agent_memory.Consolidate.Backend.{Backend, Session, Request, Response, Failure, Outcome}
use dk_agent_memory.Consolidate.Retry.{complete_with_retry}
use dk_agent_memory.Consolidate.Prompt.{Wording, facts_prompt}
use dk_agent_memory.Consolidate.Decode.{Unmarshal, DecodeError, decode_list}
use dk_agent_memory.Consolidate.Tier2.{
  ExtractedFact, Group, Work, store_facts, read_facts, answered, asked, extracting,
  extract_for_project, marked, work_closing,
}
use dk_agent_memory.Consolidate.Instructions.{tier2_system}
use dk_agent_memory.Base.{
  ℕ, ◌≡◌, refl, ap, ◌∙◌, ◌⊎◌, inl, inr, true, Option, none, some, List, map, length, Text, Result,
  ok, err,
}

module _ {S : Type 0} (b : Backend S) (unread : S → List Text) (law : Unread b unread) where
  -- What a run of a project leaves: all of its sessions marked as read, or an error and none of them marked.
  abbrev pub MarkedOrNot : List Session → S → Option Failure → S → Type 0
  MarkedOrNot sessions s error s' =
      ((error ≡ none) × (unread s' ≡ without_all (map (λ (x : Session). x.id) sessions) (unread s)))
      ⊎ ((e : Failure) × (error ≡ some e) × (unread s' ≡ unread s))

  MarkedOrNot-from :
      (sessions : List Session) (s s1 : S) (error : Option Failure) (s' : S)
      → unread s1 ≡ unread s
      → MarkedOrNot sessions s1 error s'
      → MarkedOrNot sessions s error s'
  MarkedOrNot-from sessions s s1 error s' same (inl (fine, gone)) =
      inl (fine, gone ∙ ap (without_all (map (λ (x : Session). x.id) sessions)) same)
  MarkedOrNot-from sessions s s1 error s' same (inr (e, is_e, kept)) = inr (e, is_e, kept ∙ same)

  module _ (wording : Wording) (json : Unmarshal ExtractedFact) (max_tokens : ℕ)
      (arrange : List Group → List Group) where
    read_facts-MarkedOrNot :
        (id : Identity) (project : Text) (sessions : List Session) (w : Work)
        (r : Result DecodeError (List ExtractedFact)) (s : S)
        → w.run_err ≡ none
        → MarkedOrNot sessions s
            (read_facts wording json max_tokens arrange b id project sessions w r s).0.run_err
            (read_facts wording json max_tokens arrange b id project sessions w r s).1
    unfolding read_facts
    read_facts-MarkedOrNot id project sessions w (err e) s fine = inr (_, refl, refl)
    read_facts-MarkedOrNot id project sessions w (ok facts) s fine =
        let ids = map (λ (x : Session). x.id) sessions in
        let stored = store_facts b id project facts w s in
        let same = unread-store_facts b unread law id project facts w s in
        let no_err = run_err-store_facts b unread law id project facts w s ∙ fine in
        MarkedOrNot-from sessions s stored.1 _ _ same (
          marking stored.0 stored.1 (b.mark_facts_extracted ids stored.1) no_err
            (law.on_mark ids stored.1))
      where
        marking :
            (w1 : Work) (s1 : S) (o : Outcome S (Unit {0}))
            → w1.run_err ≡ none
            → ((o.0 ≡ ok tt)
                × (unread o.1 ≡ without_all (map (λ (x : Session). x.id) sessions) (unread s1)))
              ⊎ ((e : Failure) × (o.0 ≡ err e) × (unread o.1 ≡ unread s1))
            → MarkedOrNot sessions s1 (marked b w1 o).0.run_err (marked b w1 o).1
        marking w1 s1 (err e, s2) no_err (inl (impossible, gone)) = cc
        marking w1 s1 (err e, s2) no_err (inr (_, _, kept)) = inr (e, refl, kept)
        marking w1 s1 (ok u, s2) no_err (inl (_, gone)) = inl (no_err, gone)
        marking w1 s1 (ok u, s2) no_err (inr (e, impossible, kept)) = cc

    answered-MarkedOrNot :
        (id : Identity) (project : Text) (sessions : List Session) (o : Outcome S Response)
        → MarkedOrNot sessions o.1
            (answered wording json max_tokens arrange b id project sessions o).0.run_err
            (answered wording json max_tokens arrange b id project sessions o).1
    unfolding answered
    answered-MarkedOrNot id project sessions (err e, s) = inr (e, refl, refl)
    answered-MarkedOrNot id project sessions (ok resp, s) =
        read_facts-MarkedOrNot id project sessions _ (decode_list json resp.text) s refl

    asked-MarkedOrNot :
        (project : Text) (sessions : List Session) (o : Outcome S Identity)
        → MarkedOrNot sessions o.1
            (asked wording json max_tokens arrange b project sessions o).0.run_err
            (asked wording json max_tokens arrange b project sessions o).1
    unfolding asked
    asked-MarkedOrNot project sessions (err e, s) = inr (e, refl, refl)
    asked-MarkedOrNot project sessions (ok id, s) =
        let request : Request = record {
          system = tier2_system;
          prompt = facts_prompt wording project sessions;
          max_tokens = max_tokens;
          wants_json = true;
        } in
        MarkedOrNot-from sessions s (complete_with_retry b request s).1 _ _
          (unread-complete_with_retry b unread law request s)
          (answered-MarkedOrNot id project sessions (complete_with_retry b request s))

    MarkedOrNot-end :
        (sessions : List Session) (s s1 s2 : S) (error : Option Failure)
        → unread s2 ≡ unread s1
        → MarkedOrNot sessions s error s1
        → MarkedOrNot sessions s error s2
    MarkedOrNot-end sessions s s1 s2 error same (inl (fine, gone)) = inl (fine, same ∙ gone)
    MarkedOrNot-end sessions s s1 s2 error same (inr (e, is_e, kept)) = inr (e, is_e, same ∙ kept)

    extracting-MarkedOrNot :
        (team project : Text) (sessions : List Session) (o : Outcome S Text)
        → MarkedOrNot sessions o.1
            (extracting wording json max_tokens arrange b team project sessions o).0
            (extracting wording json max_tokens arrange b team project sessions o).1
    unfolding extracting
    extracting-MarkedOrNot team project sessions (err e, s) = inr (e, refl, refl)
    extracting-MarkedOrNot team project sessions (ok run_id, s) =
        let user = b.any_user_in_team team s in
        let worked = asked wording json max_tokens arrange b project sessions user in
        MarkedOrNot-end sessions s worked.1 _ _
          (law.on_finish run_id (work_closing (length sessions) worked.0) worked.1)
          (MarkedOrNot-from sessions s user.1 _ _ (law.on_user team s)
            (asked-MarkedOrNot project sessions user))

    -- A pass over a project that returns no error has marked all of its sessions as read for facts; one that
    -- returns an error has marked none, so that they are read again.
    pub extract_for_project-marks :
        (team project : Text) (sessions : List Session) (s : S)
        → MarkedOrNot sessions s
            (extract_for_project wording json max_tokens arrange b team project sessions s).0
            (extract_for_project wording json max_tokens arrange b team project sessions s).1
    unfolding extract_for_project
    extract_for_project-marks team project sessions s =
        MarkedOrNot-from sessions s (b.start_run 2 team project s).1 _ _
          (law.on_start team project s)
          (extracting-MarkedOrNot team project sessions (b.start_run 2 team project s))
