-- ===== src/Store/Write.antt =====
-- internal/store/memories.go: the statements that change rows that are there.
use dk_agent_memory.Store.Model.{
  Env, Identity, Memory, StoreError, bad_visibility, not_found, forbidden, conflict, self_supersede,
  visibility_team, valid_visibility, content_hash, is_live, visible, owned, clash, find,
}
use dk_agent_memory.Store.Read.{get_memory}
use dk_agent_memory.Store.Create.{redact}
use dk_agent_memory.Base.{
  ℕ, ◌+◌, Bool, false, not, ◌&&◌, ◌||◌, Option, none, some, List, [], ◌∷◌, if◌then◌else◌, Text,
  text_eq, Result, ◌>>=◌, ◌>>◌, refuse_if, ok, err,
}

module _ {Real : Type 0} where
  -- `UPDATE memories SET … WHERE …`
  unfoldable pub update_where :
      (Memory Real → Bool) → (Memory Real → Memory Real) → List (Memory Real) → List (Memory Real)
  update_where p f [] = []
  update_where p f (m ∷ ms) = (if p m then f m else m) ∷ update_where p f ms

  -- A result that rests on the number of rows affected.
  abbrev pub if_affected :
      {A : Type 0} → Option (Memory Real) → (Memory Real → A) → Result StoreError A
  if_affected none k = err not_found
  if_affected (some m) k = ok (k m)

  -- The row that the caller may change: `id = … AND team_id = … AND user_id = … AND deleted_at IS NULL`
  unfoldable pub own_row : Identity → Text → Memory Real → Bool
  own_row id mem_id m = text_eq m.id mem_id && (owned id m && is_live m)

  unfoldable pub delete_memory :
      ℕ → Identity → Text → List (Memory Real) → Result StoreError (List (Memory Real))
  delete_memory now id mem_id db = if_affected (find (own_row id mem_id) db) (λ _.
      update_where (own_row id mem_id) (λ m. record m { deleted_at = some now; updated_at = now })
        db)

  -- The replacement must be visible, the replaced row the caller's own.
  unfoldable pub supersede :
      ℕ → Identity → Text → Text → List (Memory Real) → Result StoreError (List (Memory Real))
  supersede now id old_id new_id db = do
    refuse_if (text_eq old_id new_id) self_supersede
    replacement ← get_memory id new_id db
    if_affected (find (own_row id old_id) db) (λ _.
        update_where (own_row id old_id)
          (λ m. record m { superseded_by = some new_id; updated_at = now }) db)

  unfoldable pub share :
      ℕ
      → Identity
      → Text
      → List (Memory Real)
      → Result StoreError (Memory Real × List (Memory Real))
  share now id mem_id db =
      let set = λ (m : Memory Real). record m { visibility = visibility_team; updated_at = now } in
      if_affected (find (own_row id mem_id) db)
        (λ m. (set m, update_where (own_row id mem_id) set db))

module _ (env : Env) where
  unfoldable pub seen_row : Identity → Text → Memory env.Real → Bool
  seen_row id mem_id m = visible id m && (text_eq m.id mem_id && is_live m)

  unfoldable pub reinforce :
      ℕ
      → Identity
      → Text
      → List (Memory env.Real)
      → Result StoreError (Memory env.Real × List (Memory env.Real))
  reinforce now id mem_id db =
      let set = λ (m : Memory env.Real). record m {
        strength = env.reinforced m.strength;
        hits = m.hits + 1;
        last_used_at = some now;
        updated_at = now;
      } in
      if_affected (find (seen_row id mem_id) db)
        (λ m. (set m, update_where (seen_row id mem_id) set db))

  abbrev pub edited : Option Text → Text → Text
  edited none old = old
  edited (some s) old = (redact env s).0

  abbrev pub kept_or : Option Text → Text → Text
  kept_or none old = old
  kept_or (some v) old = v

  -- `set` is what the UPDATE makes of a row whose text is replaced.
  unfoldable pub rewritten : ℕ → Text → Text → Text → Bool → Memory env.Real → Memory env.Real
  rewritten now title body visibility body_changed m = record m {
    title = title;
    body = body;
    visibility = visibility;
    content_hash = content_hash env title body;
    updated_at = now;
    embedding = if body_changed then none else m.embedding;
  }

  -- Another row that the unique index does not allow beside the new one.
  unfoldable pub violates : Memory env.Real → List (Memory env.Real) → Bool
  violates row [] = false
  violates row (m ∷ ms) = not (text_eq m.id row.id) && clash row m || violates row ms

  abbrev pub refused : Option Text → Bool
  refused none = false
  refused (some v) = not (valid_visibility v)

  unfoldable pub update_memory :
      ℕ
      → Identity
      → Text
      → Option Text
      → Option Text
      → Option Text
      → List (Memory env.Real)
      → Result StoreError (Memory env.Real × List (Memory env.Real))
  update_memory now id mem_id title body visibility db = do
    refuse_if (refused visibility) bad_visibility
    current ← get_memory id mem_id db
    refuse_if (not (text_eq current.user_id id.user_id)) forbidden
    let new_title = edited title current.title
    let new_body = edited body current.body
    let changed = not (text_eq new_body current.body)
    let set = rewritten now new_title new_body (kept_or visibility current.visibility) changed
    refuse_if (violates (set current) db) conflict
    if_affected (find (own_row id mem_id) db)
        (λ m. (set m, update_where (own_row id mem_id) set db))
