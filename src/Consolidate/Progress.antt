-- ===== src/Consolidate/Progress.antt =====
-- A drain of the session summaries against a store and a model that answer.
use dk_agent_memory.Consolidate.Backend.{
  Backend, Session, Observation, Request, Response, Failure, token_budget, other, Closing, Outcome,
}
use dk_agent_memory.Consolidate.Retry.{
  complete_with_retry, is_token_budget, attempts, judged, before_attempt, counted, final,
}
use dk_agent_memory.Consolidate.Prompt.{Wording}
use dk_agent_memory.Consolidate.Tier1.{
  tier1_batch, tier1_observations, tier1_observations_retry, Tally, Round, is_budget_error,
  summary_request, retried, shortened, summarised, settled, observed,
}
use dk_agent_memory.Base.{
  ℕ, suc, ◌≡◌, refl, ap, ◌∙◌, ◌⊎◌, inl, inr, true, false, ◌&&◌, List, [], ◌∷◌, map, ltb,
  if◌then◌else◌, Bool-cases, length, take, All, Text, text_eq, text_eq_refl, Result, trim_space, ok,
  err,
}

unfoldable pub without : Text → List Text → List Text
without id [] = []
without id (w ∷ ws) = if text_eq id w then without id ws else w ∷ without id ws

abbrev pub Distinct : List Text → Type 0
Distinct [] = Unit
Distinct (w ∷ ws) = All (λ v. text_eq w v ≡ false) ws × Distinct ws

-- A store that answers every call, and a model that answers or has spent its tokens. `waiting` names the
-- closed sessions without a summary in their order; a mark takes a session out of them.
pub record Cooperates {S : Type 0} (b : Backend S) (waiting : S → List Text) (Good : S → Type 0)
    : Type 0 where
  pub not_cancelled : (s : S) → Good s → b.is_cancelled s ≡ false
  pub claims :
      (s : S)
      → Good s
      → (xs : List Session) × (s' : S) × (b.sessions_awaiting_summary tier1_batch s ≡ (ok xs, s'))
        × (map (λ (x : Session). x.id) xs ≡ take tier1_batch (waiting s))
        × Good s'
        × (waiting s' ≡ waiting s)
  pub reads :
      (id : Text) (n : ℕ) (s : S)
      → Good s
      → (obs : List Observation) × (s' : S) × (b.session_observations id n s ≡ (ok obs, s'))
        × Good s'
        × (waiting s' ≡ waiting s)
  pub answers :
      (req : Request) (s : S)
      → Good s
      → (r : Result Failure Response) × (s' : S) × (b.complete req s ≡ (r, s'))
        × (((resp : Response) × (r ≡ ok resp)) ⊎ (r ≡ err token_budget))
        × Good s'
        × (waiting s' ≡ waiting s)
  pub marks :
      (id text : Text) (s : S)
      → Good s
      → (s' : S) × (b.mark_summarised id text s ≡ (ok tt, s'))
        × Good s'
        × (waiting s' ≡ without id (waiting s))
  pub starts :
      (s : S)
      → Good s
      → (run : Text) × (s' : S) × (b.start_run 1 [] [] s ≡ (ok run, s'))
        × Good s'
        × (waiting s' ≡ waiting s)
  pub finishes :
      (run : Text) (c : Closing) (s : S)
      → Good s
      → (s' : S) × (b.finish_run run c s ≡ (ok tt, s')) × Good s' × (waiting s' ≡ waiting s)

without-fresh :
    (id : Text) (ws : List Text) → All (λ v. text_eq id v ≡ false) ws → without id ws ≡ ws
unfolding without
without-fresh id [] h = refl
without-fresh id (w ∷ ws) (apart, h) = rw (apart, without-fresh id ws h) refl

pub without-front :
    (id : Text) (ws : List Text) → All (λ v. text_eq id v ≡ false) ws → without id (id ∷ ws) ≡ ws
unfolding without
without-front id ws h = rw (text_eq_refl id, without) (without-fresh id ws h)

module _ (wording : Wording) {S : Type 0} (b : Backend S) (waiting : S → List Text)
    (Good : S → Type 0) (law : Cooperates b waiting Good) where
  -- A completion that ends in an answer, or for want of tokens.
  abbrev Answered : S → Outcome S Response → Type 0
  Answered s o =
      (((resp : Response) × (o.0 ≡ ok resp)) ⊎ (o.0 ≡ err token_budget))
      × Good o.1
      × (waiting o.1 ≡ waiting s)

  first_try :
      (left : ℕ) (last : Failure) (req : Request) (s : S) (o : Outcome S Response)
      (result : Result Failure Response)
      → b.complete req s ≡ o
      → judged b req o ≡ inl result
      → attempts b (suc left) 1 last req s ≡ (result, o.1)
  unfolding attempts before_attempt
  first_try left last req s o result run j =
      let same : judged b req (b.complete req s) ≡ inl result = rw run j in
      rw (same, attempts) (ap (λ (end : Outcome S Response). (result, end.1)) run)

  complete_with_retry-Answered :
      (req : Request) (s : S) → Good s → Answered s (complete_with_retry b req s)
  unfolding judged final complete_with_retry
  complete_with_retry-Answered req s good =
      let (r, s', run, cases, good', same) = law.answers req s good in
      elim cases [
        | inl (resp, is_ok) ↦
            let eq =
              first_try 4 (other []) req s (r, s') (ok (counted req resp)) run (rw is_ok refl) in
            rw eq (inl (counted req resp, refl), good', same)
        | inr is_err ↦
            let calm = law.not_cancelled s' good' in
            let eq =
              first_try 4 (other []) req s (r, s') (err token_budget) run
                (rw (is_err, calm) refl) in
            rw eq (inr refl, good', same)
      ]

  abbrev pub Fine : Session → Tally → S → Round S → Type 0
  Fine sess t s round =
      (round.0 ≡ true)
      × (round.1.run_err ≡ t.run_err)
      × Good round.2
      × (waiting round.2 ≡ without sess.id (waiting s))

  settled-Fine :
      (sess : Session) (t : Tally) (s : S) (o : Outcome S Response)
      → Answered s o
      → Fine sess t s (settled wording b sess t o)
  unfolding settled summarised is_token_budget
  settled-Fine sess t s (ok resp, s1) (answer, good, same) =
      let (s', run, good', gone) = law.marks sess.id (trim_space resp.text) s1 good in
      rw run (refl, refl, good', gone ∙ ap (without sess.id) same)
  settled-Fine sess t s (err e, s1) (answer, good, same) =
      let (s', run, good', gone) = law.marks sess.id [] s1 good in
      elim answer [
        | inl (resp, impossible) ↦ cc
        | inr is_budget ↦
            let is_e : e ≡ token_budget = cc in
            rw (is_e, run, settled) (refl, refl, good', gone ∙ ap (without sess.id) same)
      ]

  shortened-Answered :
      (sess : Session) (obs : List Observation) (s : S) (o : Outcome S Response)
      → Answered s o
      → Answered s (shortened wording b sess obs o)
  unfolding shortened retried
  shortened-Answered sess obs s (r, s1) (answer, good, same) =
      elim (Bool-cases (is_budget_error r && ltb tier1_observations_retry (length obs))) [
        | inr e ↦ rw (e, shortened) (answer, good, same)
        | inl e ↦
            let (short, s2, run, good', same') =
              law.reads sess.id tier1_observations_retry s1 good in
            again short s2 (rw (e, run, shortened) refl) good' (same' ∙ same) e
      ]
    where
      again :
          (short : List Observation) (s2 : S)
          → shortened wording b sess obs (r, s1) ≡ retried wording b sess (r, s1) (ok short, s2)
          → Good s2
          → waiting s2 ≡ waiting s
          → (is_budget_error r && ltb tier1_observations_retry (length obs)) ≡ true
          → Answered s (shortened wording b sess obs (r, s1))
      again [] s2 eq good' same' e = rw eq (answer, good', same')
      again (x ∷ xs) s2 eq good' same' e =
          let (answer', good'', same'') =
            complete_with_retry-Answered (summary_request wording b sess (x ∷ xs)) s2 good' in
          rw eq (answer', good'', same'' ∙ same')

  observed-Fine :
      (sess : Session) (t : Tally) (s : S) (obs : List Observation) (s' : S)
      → Good s'
      → waiting s' ≡ waiting s
      → Fine sess t s (observed wording b sess t (ok obs, s'))
  unfolding observed
  observed-Fine sess t s [] s' good same =
      let (s2, run, good', gone) = law.marks sess.id [] s' good in
      rw run (refl, refl, good', gone ∙ ap (without sess.id) same)
  observed-Fine sess t s (o ∷ os) s' good same =
      let (answer, good', same') =
        complete_with_retry-Answered (summary_request wording b sess (o ∷ os)) s' good in
      let first = complete_with_retry b (summary_request wording b sess (o ∷ os)) s' in
      settled-Fine sess t s (shortened wording b sess (o ∷ os) first)
        (shortened-Answered sess (o ∷ os) s first (answer, good', same' ∙ same))

  pub round-Fine :
      (sess : Session) (t : Tally) (s : S)
      → Good s
      → Fine sess t s
          (observed wording b sess t (b.session_observations sess.id tier1_observations s))
  round-Fine sess t s good =
      let (obs, s', run, good', same) = law.reads sess.id tier1_observations s good in
      rw run (observed-Fine sess t s obs s' good' same)
