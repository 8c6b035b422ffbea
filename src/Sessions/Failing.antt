-- ===== src/Sessions/Failing.antt =====
-- A drain of the fact extraction over the tables, with a model that fails.
use dk_agent_memory.Consolidate.Backend.{Backend, Session, Request, Failure}
use dk_agent_memory.Consolidate.Prompt.{Wording}
use dk_agent_memory.Consolidate.Decode.{Unmarshal}
use dk_agent_memory.Consolidate.Drain.{drain_loop, max_drain_batches}
use dk_agent_memory.Consolidate.Tier2.{ExtractedFact, Group, tier2_batch, tier2_once}
use dk_agent_memory.Consolidate.Ceiling.{Fails, drain_tier2-ceiling}
use dk_agent_memory.Sessions.Tables.{SessionRow}
use dk_agent_memory.Sessions.Work.{World, tables, as_session, sessions_awaiting_facts}
use dk_agent_memory.Base.{ℕ, ◌≡◌, refl, false, none, List, map, length, Text, err}

-- A model whose every call fails, in a context that is not cancelled. Neither its calls nor waiting nor the
-- search for a user touch the sessions.
pub record Unreachable {M : Type 0} (others : Backend (World M)) : Type 0 where
  pub not_cancelled : (w : World M) → others.is_cancelled w ≡ false
  pub fails : (req : Request) (w : World M) → (e : Failure) × ((others.complete req w).0 ≡ err e)
  pub call_keeps : (req : Request) (w : World M) → (others.complete req w).1.sessions ≡ w.sessions
  pub wait_keeps : (d : ℕ) (w : World M) → (others.wait d w).sessions ≡ w.sessions
  pub user_keeps :
      (team : Text) (w : World M) → (others.any_user_in_team team w).1.sessions ≡ w.sessions

abbrev pub waiting_for_facts : List SessionRow → List Session
waiting_for_facts rows = map as_session (sessions_awaiting_facts tier2_batch rows)

module _ {M : Type 0} (fresh : ℕ → Text) (message : Failure → Text) (others : Backend (World M))
    (law : Unreachable others) where
  tables-Fails : Fails (tables fresh message others) (λ w. w.sessions) waiting_for_facts
  unfolding tables
  tables-Fails = record {
    not_cancelled = law.not_cancelled;
    fails = law.fails;
    claims = λ w. refl;
    on_claim = λ w. refl;
    on_wait = law.wait_keeps;
    on_complete = law.call_keeps;
    on_start = λ team project w. refl;
    on_finish = λ run c w. refl;
    on_user = law.user_keeps;
  }

  -- Over the tables, with a model whose every call fails, in a context that is not cancelled: if a full batch of
  -- sessions waits for facts, then a drain extracts from it two hundred times over, reports no error, and
  -- leaves every session as it was.
  pub drain_tier2-tables :
      (wording : Wording) (json : Unmarshal ExtractedFact) (max_tokens : ℕ)
      (arrange : List Group → List Group) (w : World M)
      → length (waiting_for_facts w.sessions) ≡ tier2_batch
      → ((drain_loop others.is_cancelled tier2_batch
            (tier2_once wording json max_tokens arrange (tables fresh message others))
            max_drain_batches
            w).0
          ≡ (200, none))
        × ((drain_loop others.is_cancelled tier2_batch
              (tier2_once wording json max_tokens arrange (tables fresh message others))
              max_drain_batches
              w).1.sessions
            ≡ w.sessions)
  unfolding tables
  drain_tier2-tables wording json max_tokens arrange w full =
      drain_tier2-ceiling (tables fresh message others) (λ w'. w'.sessions) waiting_for_facts
        tables-Fails wording json max_tokens arrange w full
