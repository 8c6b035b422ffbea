-- ===== src/Consolidate/Unread.antt =====
-- What the extraction of facts leaves unread while it stores what it has found.
use dk_agent_memory.Store.Model.{Identity}
use dk_agent_memory.Store.Create.{MemoryInput}
use dk_agent_memory.Consolidate.Backend.{
  Backend, Request, Response, Failure, other, Closing, Outcome,
}
use dk_agent_memory.Consolidate.Retry.{
  complete_with_retry, attempts, before_attempt, pause, judged, max_attempts, backoff, retry_after,
}
use dk_agent_memory.Consolidate.Prompt.{newline}
use dk_agent_memory.Consolidate.Progress.{without}
use dk_agent_memory.Consolidate.Tier2.{
  ExtractedFact, Work, embed_one, near_match, deduplicated, store_item, fact_input, unless_near,
  with_vector, store_facts, was_reinforced, tallied, first_vector,
}
use dk_agent_memory.Base.{
  ℕ, zero, suc, ◌+◌, ◌-◌, ◌≡◌, refl, ◌∙◌, ◌⊎◌, inl, inr, Bool, true, false, ◌&&◌, List, [], ◌∷◌,
  ◌++◌, ltb, Bool-cases, Text, is_empty, Result, trim_space, ok, err,
}

unfoldable pub without_all : List Text → List Text → List Text
unfolding without
without_all [] ws = ws
without_all (id ∷ ids) ws = without_all ids (without id ws)

-- A view of the state that only the mark of the sessions read for facts changes.
pub record Unread {S : Type 0} (b : Backend S) (unread : S → List Text) : Type 0 where
  pub on_wait : (d : ℕ) (s : S) → unread (b.wait d s) ≡ unread s
  pub on_complete : (req : Request) (s : S) → unread (b.complete req s).1 ≡ unread s
  pub on_start : (team project : Text) (s : S) → unread (b.start_run 2 team project s).1 ≡ unread s
  pub on_finish : (run : Text) (c : Closing) (s : S) → unread (b.finish_run run c s).1 ≡ unread s
  pub on_user : (team : Text) (s : S) → unread (b.any_user_in_team team s).1 ≡ unread s
  pub on_embed : (texts : List Text) (s : S) → unread (b.embed texts s).1 ≡ unread s
  pub on_similar :
      (id : Identity) (project vec : Text) (n : ℕ) (s : S)
      → unread (b.similar_by_vector id project vec n s).1 ≡ unread s
  pub on_reinforce :
      (id : Identity) (near : Text) (s : S) → unread (b.reinforce id near s).1 ≡ unread s
  pub on_create :
      (id : Identity) (item : MemoryInput) (s : S) → unread (b.create_memory id item s).1 ≡ unread s
  pub on_mark :
      (ids : List Text) (s : S)
      → ((b.mark_facts_extracted ids s).0 ≡ ok tt
          × (unread (b.mark_facts_extracted ids s).1 ≡ without_all ids (unread s)))
        ⊎ ((e : Failure) × ((b.mark_facts_extracted ids s).0 ≡ err e)
            × (unread (b.mark_facts_extracted ids s).1 ≡ unread s))

module _ {S : Type 0} (b : Backend S) (unread : S → List Text) (law : Unread b unread) where
  unread-before :
      (attempt : ℕ) (last : Failure) (s : S) → unread (before_attempt b attempt last s) ≡ unread s
  unfolding before_attempt pause
  unread-before attempt last s = elim (Bool-cases (ltb 1 attempt)) [
    | inr e ↦ rw e refl
    | inl e ↦ elim (Bool-cases (ltb (backoff (attempt - 1)) (retry_after last))) [
      | inl e' ↦ rw (e, e') (law.on_wait (retry_after last) s)
      | inr e' ↦ rw (e, e') (law.on_wait (backoff (attempt - 1)) s)
    ]
  ]

  Sum-cases :
      (r : Result Failure Response ⊎ Failure)
      → ((result : Result Failure Response) × (r ≡ inl result)) ⊎ ((e : Failure) × (r ≡ inr e))
  Sum-cases (inl result) = inl (result, refl)
  Sum-cases (inr e) = inr (e, refl)

  unread-attempts :
      (left attempt : ℕ) (last : Failure) (req : Request) (s : S)
      → unread (attempts b left attempt last req s).1 ≡ unread s
  unfolding attempts
  unread-attempts zero attempt last req s = refl
  unread-attempts (suc left) attempt last req s =
      let paused = before_attempt b attempt last s in
      let tried = b.complete req paused in
      let same = unread-before attempt last s in
      elim (Bool-cases (ltb 1 attempt && b.is_cancelled paused)) [
        | inl c ↦ rw (c, attempts) same
        | inr c ↦ elim (Sum-cases (judged b req tried)) [
          | inl (result, j) ↦ rw (c, j, attempts) (law.on_complete req paused ∙ same)
          | inr (e, j) ↦
              rw (c, j, attempts)
                (unread-attempts left (attempt + 1) e req tried.1
                  ∙ law.on_complete req paused
                  ∙ same)
        ]
      ]

  pub unread-complete_with_retry :
      (req : Request) (s : S) → unread (complete_with_retry b req s).1 ≡ unread s
  unfolding complete_with_retry
  unread-complete_with_retry req s = unread-attempts max_attempts 1 (other []) req s

  unread-embed_one : (text : Text) (s : S) → unread (embed_one b text s).1 ≡ unread s
  unfolding embed_one
  unread-embed_one text s = elim (Bool-cases b.has_embedder) [
    | inr e ↦ rw e refl
    | inl e ↦ rw e (first (b.embed (text ∷ []) s) ∙ law.on_embed (text ∷ []) s)
  ]
    where
      first : (o : Outcome S (List Text)) → unread (first_vector b o).1 ≡ unread o.1
      first (err e, s) = refl
      first (ok [], s) = refl
      first (ok (v ∷ vs), s) = refl

  unread-near_match :
      (id : Identity) (o : Outcome S (List (Text × Bool)))
      → unread (near_match b id o).1 ≡ unread o.1
  unfolding near_match
  unread-near_match id (err e, s) = refl
  unread-near_match id (ok [], s) = refl
  unread-near_match id (ok ((near, false) ∷ rest), s) = refl
  unread-near_match id (ok ((near, true) ∷ rest), s) =
      reinforced (b.reinforce id near s) ∙ law.on_reinforce id near s
    where
      reinforced : (o : Outcome S (Unit {0})) → unread (was_reinforced b o).1 ≡ unread o.1
      reinforced (err e, s) = refl
      reinforced (ok u, s) = refl

  unread-deduplicated :
      (id : Identity) (project vec : Text) (s : S)
      → unread (deduplicated b id project vec s).1 ≡ unread s
  unfolding deduplicated
  unread-deduplicated id project vec s = elim (Bool-cases (is_empty vec)) [
    | inl e ↦ rw (e, deduplicated) refl
    | inr e ↦
        rw (e, deduplicated)
          (unread-near_match id (b.similar_by_vector id project vec 3 s)
            ∙ law.on_similar id project vec 3 s)
  ]

  unread-tallied : (w : Work) (o : Outcome S Bool) → unread (tallied b w o).1 ≡ unread o.1
  unread-tallied w (err e, s) = refl
  unread-tallied w (ok created, s) = refl

  unread-unless_near :
      (id : Identity) (item : MemoryInput) (w : Work) (near : Bool × S)
      → unread (unless_near b id item w near).1 ≡ unread near.1
  unfolding unless_near
  unread-unless_near id item w (true, s) = refl
  unread-unless_near id item w (false, s) =
      unread-tallied w (b.create_memory id item s) ∙ law.on_create id item s

  unread-with_vector :
      (id : Identity) (project : Text) (item : MemoryInput) (w : Work) (o : Text × S)
      → unread (with_vector b id project item w o).1 ≡ unread o.1
  unfolding with_vector
  unread-with_vector id project item w (vec, s) =
      unread-unless_near id _ w (deduplicated b id project vec s)
      ∙ unread-deduplicated id project vec s

  unread-store_item :
      (id : Identity) (project text : Text) (item : MemoryInput) (w : Work) (s : S)
      → unread (store_item b id project text item w s).1 ≡ unread s
  unfolding store_item
  unread-store_item id project text item w s =
      unread-with_vector id project item w (embed_one b text s) ∙ unread-embed_one text s

  pub unread-store_facts :
      (id : Identity) (project : Text) (fs : List ExtractedFact) (w : Work) (s : S)
      → unread (store_facts b id project fs w s).1 ≡ unread s
  unfolding store_facts
  unread-store_facts id project [] w s = refl
  unread-store_facts id project (f ∷ fs) w s =
      let text = f.title ++ (newline ++ f.body) in
      let stored = store_item b id project text (fact_input project f) w s in
      elim (Bool-cases (is_empty (trim_space f.title))) [
        | inl e ↦ rw (e, store_facts) (unread-store_facts id project fs w s)
        | inr e ↦
            rw (e, store_facts)
              (unread-store_facts id project fs stored.0 stored.1
                ∙ unread-store_item id project text (fact_input project f) w s)
      ]

  run_err-unless_near :
      (id : Identity) (item : MemoryInput) (w : Work) (near : Bool × S)
      → (unless_near b id item w near).0.run_err ≡ w.run_err
  unfolding unless_near
  run_err-unless_near id item w (true, s) = refl
  run_err-unless_near id item w (false, s) = created (b.create_memory id item s)
    where
      created : (o : Outcome S Bool) → (tallied b w o).0.run_err ≡ w.run_err
      created (err e, s') = refl
      created (ok true, s') = refl
      created (ok false, s') = refl

  run_err-with_vector :
      (id : Identity) (project : Text) (item : MemoryInput) (w : Work) (o : Text × S)
      → (with_vector b id project item w o).0.run_err ≡ w.run_err
  unfolding with_vector
  run_err-with_vector id project item w (vec, s) =
      run_err-unless_near id _ w (deduplicated b id project vec s)

  pub run_err-store_facts :
      (id : Identity) (project : Text) (fs : List ExtractedFact) (w : Work) (s : S)
      → (store_facts b id project fs w s).0.run_err ≡ w.run_err
  unfolding store_facts store_item
  run_err-store_facts id project [] w s = refl
  run_err-store_facts id project (f ∷ fs) w s =
      let text = f.title ++ (newline ++ f.body) in
      let stored = store_item b id project text (fact_input project f) w s in
      elim (Bool-cases (is_empty (trim_space f.title))) [
        | inl e ↦ rw (e, store_facts) (run_err-store_facts id project fs w s)
        | inr e ↦
            rw (e, store_facts)
              (run_err-store_facts id project fs stored.0 stored.1
                ∙ run_err-with_vector id project (fact_input project f) w (embed_one b text s))
      ]
