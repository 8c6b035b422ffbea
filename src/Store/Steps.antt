-- ===== src/Store/Steps.antt =====
-- The calls that change the table as one step relation, and the tables that they lead to.
use dk_agent_memory.Store.Model.{Env, Identity, Memory, visible, owned}
use dk_agent_memory.Store.Create.{MemoryInput, create_memory}
use dk_agent_memory.Store.Write.{
  update_where, own_row, delete_memory, supersede, share, seen_row, reinforce, update_memory,
}
use dk_agent_memory.Store.Effects.{
  deleted, replaced_by, shared, used, delete_memory_rows, supersede_rows, share_rows,
  reinforce_rows, update_memory-Edited,
}
use dk_agent_memory.Store.Integrity.{IsConsistent}
use dk_agent_memory.Store.Preserved.{
  delete_memory-IsConsistent, supersede-IsConsistent, share-IsConsistent, reinforce-IsConsistent,
  update_memory-IsConsistent, create_memory-IsConsistent, create_memory-rows,
}
use dk_agent_memory.Base.{
  ℕ, ◌≡◌, inl, inr, Bool, false, Option, List, [], arith, Member, Text, here, there, ok,
}

module _ (env : Env) where
  abbrev Row : Type 0
  Row = Memory env.Real

  -- A call of the caller `id` that succeeds, from the table before to the table after.
  pub data Step (id : Identity) (db db' : List Row) : Type 0 where
    create :
        (fresh : Text) (now : ℕ) (input : MemoryInput) (m : Row) (created : Bool)
        → create_memory env fresh now id input db ≡ ok (m, created, db')
        → Step id db db'
    update :
        (now : ℕ) (mem_id : Text) (title body visibility : Option Text) (m : Row)
        → update_memory env now id mem_id title body visibility db ≡ ok (m, db')
        → Step id db db'
    delete : (now : ℕ) (mem_id : Text) → delete_memory now id mem_id db ≡ ok db' → Step id db db'
    replace :
        (now : ℕ) (mem_id new_id : Text)
        → supersede now id mem_id new_id db ≡ ok db'
        → Step id db db'
    publish :
        (now : ℕ) (mem_id : Text) (m : Row) → share now id mem_id db ≡ ok (m, db') → Step id db db'
    apply :
        (now : ℕ) (mem_id : Text) (m : Row)
        → reinforce env now id mem_id db ≡ ok (m, db')
        → Step id db db'

  -- The tables that calls of any callers lead to, from the empty table.
  pub data Reachable : List Row → Type 0 where
    start : Reachable []
    next : {db db' : List Row} (id : Identity) → Reachable db → Step id db db' → Reachable db'

  Step-IsConsistent :
      (id : Identity) {db db' : List Row} → Step id db db' → IsConsistent db → IsConsistent db'
  Step-IsConsistent id {db} {db'} (create fresh now input m c e) h =
      create_memory-IsConsistent env fresh now id input db db' m c h e
  Step-IsConsistent id {db} {db'} (update now mem_id t b v m e) h =
      update_memory-IsConsistent env now id mem_id t b v db db' m h e
  Step-IsConsistent id {db} {db'} (delete now mem_id e) h =
      delete_memory-IsConsistent now id mem_id db db' h e
  Step-IsConsistent id {db} {db'} (replace now mem_id new_id e) h =
      supersede-IsConsistent now id mem_id db db' new_id h e
  Step-IsConsistent id {db} {db'} (publish now mem_id m e) h =
      share-IsConsistent now id mem_id db db' m h e
  Step-IsConsistent id {db} {db'} (apply now mem_id m e) h =
      reinforce-IsConsistent env now id mem_id db db' m h e

  -- In every table that calls lead to, identifiers are distinct, and no two live rows have the same
  -- team, user, project and content hash.
  pub Reachable-IsConsistent : {db : List Row} → Reachable db → IsConsistent db
  Reachable-IsConsistent start = tt
  Reachable-IsConsistent (next id r s) = Step-IsConsistent id s (Reachable-IsConsistent r)

  update_where-Member :
      (p : Row → Bool) (f : Row → Row) {m : Row} {db : List Row}
      → Member m db
      → p m ≡ false
      → Member m (update_where p f db)
  unfolding update_where
  update_where-Member p f here e = rw e here
  update_where-Member p f (there at) e = there (update_where-Member p f at e)

  own_row-visible :
      (id : Identity) (mem_id : Text) (m : Row) → visible id m ≡ false → own_row id mem_id m ≡ false
  unfolding own_row owned visible
  own_row-visible id mem_id m e = ground arith

  seen_row-visible :
      (id : Identity) (mem_id : Text) (m : Row)
      → visible id m ≡ false
      → seen_row env id mem_id m ≡ false
  unfolding seen_row
  seen_row-visible id mem_id m e = ground arith

  -- A row that the caller may not see is in the table after the caller's call as it was before.
  pub Step-invisible :
      (id : Identity) (m : Row) {db db' : List Row}
      → Step id db db'
      → visible id m ≡ false
      → Member m db
      → Member m db'
  Step-invisible id m {db} {db'} (create fresh now input n c e) v at =
      elim (create_memory-rows env fresh now id input db db' n c e) [
        | inl same ↦ rw same at
        | inr (row, same) ↦ rw same (there at)
      ]
  Step-invisible id m {db} {db'} (update now mem_id t b vis n e) v at =
      let E = update_memory-Edited env now id mem_id db db' t b vis n e in
      rw E.rows (update_where-Member (own_row id mem_id) E.set at (own_row-visible id mem_id m v))
  Step-invisible id m {db} {db'} (delete now mem_id e) v at =
      rw (delete_memory_rows now id mem_id db db' e)
        (update_where-Member (own_row id mem_id) (deleted now) at (own_row-visible id mem_id m v))
  Step-invisible id m {db} {db'} (replace now mem_id new_id e) v at =
      let kept = own_row-visible id mem_id m v in
      rw (supersede_rows now id mem_id db db' new_id e)
        (update_where-Member (own_row id mem_id) (replaced_by now new_id) at kept)
  Step-invisible id m {db} {db'} (publish now mem_id n e) v at =
      rw (share_rows now id mem_id db db' n e)
        (update_where-Member (own_row id mem_id) (shared now) at (own_row-visible id mem_id m v))
  Step-invisible id m {db} {db'} (apply now mem_id n e) v at =
      let kept = seen_row-visible id mem_id m v in
      rw (reinforce_rows env now id mem_id db db' n e)
        (update_where-Member (seen_row env id mem_id) (used env now id mem_id db db') at kept)
