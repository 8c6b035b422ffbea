-- ===== src/Consolidate/Upkeep.antt =====
-- internal/consolidate/worker.go: maintenance, and the vectors that are missing.
use dk_agent_memory.Consolidate.Backend.{Failure, Outcome}
use dk_agent_memory.Base.{
  ℕ, ◌*◌, Bool, true, false, Option, none, some, List, [], ◌∷◌, ◌++◌, map, ltb, if◌then◌else◌, Text,
  is_empty, ok, err,
}

pub record PendingMemory : Type 0 where
  pub id : Text
  pub title : Text
  pub body : Text

-- What the two jobs call.
pub record Upkeep (S : Type 0) : Type 0 where
  pub is_cancelled : S → Bool
  pub decay : ℕ → S → Outcome S (Unit {0})
  pub projects_for_graph : S → Outcome S (List (Text × Text))
  pub rebuild_graph : Text → Text → S → Outcome S (Unit {0})
  pub purge_observations : ℕ → S → Outcome S (Unit {0})
  pub pending_embeddings : ℕ → S → Outcome S (List PendingMemory)
  pub embed : List Text → S → Outcome S (List Text)
  pub set_embedding : Text → Text → S → Outcome S (Unit {0})

pub record Retention : Type 0 where
  pub decay_enabled : Bool
  pub decay_half_life_days : ℕ
  pub observation_days : ℕ

module _ (config : Retention) {S : Type 0} (u : Upkeep S) where
  abbrev error_of : Outcome S (Unit {0}) → Option Failure × S
  error_of (err e, s) = (some e, s)
  error_of (ok x, s) = (none, s)

  unfoldable pub purged : S → Option Failure × S
  purged s =
      if ltb 0 config.observation_days
      then error_of (u.purge_observations (config.observation_days * 24) s)
      else (none, s)

  -- A graph that cannot be rebuilt is logged.
  unfoldable pub rebuild_all : List (Text × Text) → S → Option Failure × S
  unfolding purged
  rebuild_all [] s = purged s
  rebuild_all ((team, project) ∷ pairs) s = elim (u.is_cancelled s) [
    | true ↦ (some Failure.cancelled, s)
    | false ↦ rebuild_all pairs (u.rebuild_graph team project s).1
  ]

  unfoldable pub rebuilt : Outcome S (List (Text × Text)) → Option Failure × S
  unfolding rebuild_all
  rebuilt (err e, s) = (some e, s)
  rebuilt (ok pairs, s) = rebuild_all pairs s

  unfoldable pub after_decay : Outcome S (Unit {0}) → Option Failure × S
  unfolding rebuilt
  after_decay (err e, s) = (some e, s)
  after_decay (ok x, s) = rebuilt (u.projects_for_graph s)

  unfoldable pub maintenance : S → Option Failure × S
  unfolding after_decay
  maintenance s =
      after_decay
        (if config.decay_enabled then u.decay config.decay_half_life_days s else (ok tt, s))

-- `backfillEmbeddings` with an embedder that is configured.
module _ {S : Type 0} (u : Upkeep S) where
  -- Vectors beyond the memories that were asked for are passed over, and so are empty ones.
  unfoldable pub set_all : List PendingMemory → List Text → S → Option Failure × S
  set_all pending [] s = (none, s)
  set_all [] (vec ∷ vecs) s = (none, s)
  set_all (m ∷ ms) (vec ∷ vecs) s =
      let stored = u.set_embedding m.id vec s in
      elim (is_empty vec) [
        | true ↦ set_all ms vecs s
        | false ↦ elim stored.0 [ err e ↦ (some e, stored.1) | ok x ↦ set_all ms vecs stored.1 ]
      ]

  -- An embedder that is down defers the work.
  unfoldable pub embedded : List PendingMemory → Outcome S (List Text) → Option Failure × S
  unfolding set_all
  embedded pending (err e, s) = (none, s)
  embedded pending (ok vecs, s) = set_all pending vecs s

  abbrev pub pending_texts : List PendingMemory → List Text
  pending_texts pending = map (λ (m : PendingMemory). m.title ++ (10 ∷ m.body)) pending

  unfoldable pub pending_read : Outcome S (List PendingMemory) → Option Failure × S
  unfolding embedded
  pending_read (err e, s) = (some e, s)
  pending_read (ok [], s) = (none, s)
  pending_read (ok (m ∷ ms), s) = embedded (m ∷ ms) (u.embed (pending_texts (m ∷ ms)) s)

  unfoldable pub backfill_embeddings : Bool → S → Option Failure × S
  unfolding pending_read
  backfill_embeddings has_embedder s =
      if has_embedder then pending_read (u.pending_embeddings 100 s) else (none, s)
