-- ===== src/Store/Effects.antt =====
-- What a successful write did to the table: the rows that it changed, and how.
use dk_agent_memory.Store.Model.{
  Env, Identity, Memory, bad_visibility, forbidden, conflict, visibility_team,
}
use dk_agent_memory.Store.Read.{get_memory}
use dk_agent_memory.Store.Write.{
  update_where, own_row, delete_memory, supersede, share, seen_row, reinforce, rewritten, violates,
  edited, kept_or, refused, update_memory,
}
use dk_agent_memory.Base.{
  ℕ, ◌+◌, ◌≡◌, refl, Bool, false, not, Option, some, List, arith, Text, text_eq, refuse_if,
  >>=-eq-ok, refuse_if-eq-ok, ok,
}

module _ {Real : Type 0} where
  abbrev pub deleted : ℕ → Memory Real → Memory Real
  deleted now m = record m { deleted_at = some now; updated_at = now }

  abbrev pub replaced_by : ℕ → Text → Memory Real → Memory Real
  replaced_by now new_id m = record m { superseded_by = some new_id; updated_at = now }

  abbrev pub shared : ℕ → Memory Real → Memory Real
  shared now m = record m { visibility = visibility_team; updated_at = now }

  module _ (now : ℕ) (id : Identity) (mem_id : Text) (db db' : List (Memory Real)) where
    pub delete_memory_rows :
        delete_memory now id mem_id db ≡ ok db'
        → db' ≡ update_where (own_row id mem_id) (deleted now) db
    unfolding delete_memory
    delete_memory_rows e = ground arith

    pub supersede_rows :
        (new_id : Text)
        → supersede now id mem_id new_id db ≡ ok db'
        → db' ≡ update_where (own_row id mem_id) (replaced_by now new_id) db
    unfolding supersede
    supersede_rows new_id e = ground arith

    pub share_rows :
        (m : Memory Real)
        → share now id mem_id db ≡ ok (m, db')
        → db' ≡ update_where (own_row id mem_id) (shared now) db
    unfolding share
    share_rows m e = ground arith

module _ (env : Env) (now : ℕ) (id : Identity) (mem_id : Text)
    (db db' : List (Memory env.Real)) where
  abbrev pub used : Memory env.Real → Memory env.Real
  used m = record m {
    strength = env.reinforced m.strength;
    hits = m.hits + 1;
    last_used_at = some now;
    updated_at = now;
  }

  pub reinforce_rows :
      (m : Memory env.Real)
      → reinforce env now id mem_id db ≡ ok (m, db')
      → db' ≡ update_where (seen_row env id mem_id) used db
  unfolding reinforce
  reinforce_rows m e = ground arith

  -- An edit found the caller's row, and no other row has the new content.
  pub record Edited (title body visibility : Option Text) : Type 0 where
    pub current : Memory env.Real
    pub set : Memory env.Real → Memory env.Real
    pub new_title : Text
    pub new_body : Text
    pub new_visibility : Text
    pub changed : Bool
    pub found : get_memory id mem_id db ≡ ok current
    pub rewrites : set ≡ rewritten env now new_title new_body new_visibility changed
    pub free : violates env (set current) db ≡ false
    pub rows : db' ≡ update_where (own_row id mem_id) set db

  pub update_memory-Edited :
      (title body visibility : Option Text) (m : Memory env.Real)
      → update_memory env now id mem_id title body visibility db ≡ ok (m, db')
      → Edited title body visibility
  unfolding update_memory
  update_memory-Edited title body visibility m e =
      let (_, _, e1) = >>=-eq-ok (refuse_if (refused env visibility) bad_visibility) _ e in
      let (current, found, e2) = >>=-eq-ok (get_memory id mem_id db) _ e1 in
      let new_body = edited env body current.body in
      let changed = not (text_eq new_body current.body) in
      let new_visibility = kept_or env visibility current.visibility in
      let new_title = edited env title current.title in
      let set = rewritten env now new_title new_body new_visibility changed in
      let other = not (text_eq current.user_id id.user_id) in
      let (_, _, e3) = >>=-eq-ok (refuse_if other forbidden) _ e2 in
      let (_, free, e4) = >>=-eq-ok (refuse_if (violates env (set current) db) conflict) _ e3 in
      record {
        current = current;
        set = set;
        new_title = new_title;
        new_body = new_body;
        new_visibility = new_visibility;
        changed = changed;
        found = found;
        rewrites = refl;
        free = refuse_if-eq-ok _ _ free;
        rows = ground arith;
      }
