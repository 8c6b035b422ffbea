-- ===== src/Store/Preserved.antt =====
-- Every write keeps the constraints of the table.
use dk_agent_memory.Store.Model.{Env, Identity, Memory, visible, same_key, clash, find}
use dk_agent_memory.Store.Create.{
  MemoryInput, validate, new_row, conflicts, insert_row, existing, settle, create_memory,
}
use dk_agent_memory.Store.Read.{get_memory}
use dk_agent_memory.Store.Write.{
  update_where, own_row, delete_memory, supersede, share, seen_row, reinforce, rewritten, violates,
  update_memory,
}
use dk_agent_memory.Store.Effects.{
  deleted, replaced_by, shared, used, delete_memory_rows, supersede_rows, share_rows,
  reinforce_rows, update_memory-Edited,
}
use dk_agent_memory.Store.Integrity.{
  Apart, IsConsistent, Keeps, update_where-IsConsistent, deleted-Keeps, replaced_by-Keeps,
  shared-Keeps, edit-IsConsistent, find-Member, only_row, violates-Spared, Becomes, Spared,
}
use dk_agent_memory.Base.{
  ℕ, ◌≡◌, refl, sym, ap, ◌∙◌, ◌≢◌, ◌⊎◌, inl, inr, Bool, true, false, not, ◌&&◌, Option, none, some,
  List, [], ◌∷◌, arith, Option-cases, is_some, All, Member, Text, text_eq, text_eq_iff, >>=-eq-ok,
  ok,
}

module _ {Real : Type 0} where
  abbrev seen : Identity → Text → Memory Real → Bool
  seen id mem_id m = visible id m && (text_eq m.id mem_id && not (is_some m.deleted_at))

module _ {Real : Type 0} (now : ℕ) (id : Identity) (mem_id : Text)
    (db db' : List (Memory Real)) where
  -- A deletion that succeeds leaves a consistent table consistent.
  pub delete_memory-IsConsistent :
      IsConsistent db → delete_memory now id mem_id db ≡ ok db' → IsConsistent db'
  delete_memory-IsConsistent h e =
      rw (delete_memory_rows now id mem_id db db' e)
        (update_where-IsConsistent (own_row id mem_id) (deleted now) (deleted-Keeps now) db h)

  -- A replacement that succeeds leaves a consistent table consistent.
  pub supersede-IsConsistent :
      (new_id : Text)
      → IsConsistent db
      → supersede now id mem_id new_id db ≡ ok db'
      → IsConsistent db'
  supersede-IsConsistent new_id h e =
      let k = replaced_by-Keeps now new_id in
      rw (supersede_rows now id mem_id db db' new_id e)
        (update_where-IsConsistent (own_row id mem_id) (replaced_by now new_id) k db h)

  -- Sharing that succeeds leaves a consistent table consistent.
  pub share-IsConsistent :
      (m : Memory Real) → IsConsistent db → share now id mem_id db ≡ ok (m, db') → IsConsistent db'
  share-IsConsistent m h e =
      rw (share_rows now id mem_id db db' m e)
        (update_where-IsConsistent (own_row id mem_id) (shared now) (shared-Keeps now) db h)

  -- What `get_memory` returns is a row with the identifier that the caller may see.
  pub get_memory-Member :
      (c : Memory Real)
      → get_memory id mem_id db ≡ ok c
      → Member c db × (c.id ≡ mem_id) × (visible id c ≡ true)
  unfolding get_memory
  get_memory-Member c e = elim (Option-cases (find (seen id mem_id) db)) [
    | inl no' ↦ absurd (ground (arith, no', e))
    | inr (m, yes') ↦
        let same : m ≡ c = ground (arith, yes', e) in
        let (at, holds) = find-Member (seen id mem_id) db (yes' ∙ ap some same) in
        (at, ground (arith, text_eq_iff c.id mem_id), ground arith)
  ]

module _ (env : Env) where
  abbrev Row : Type 0
  Row = Memory env.Real

  used-Keeps :
      (now : ℕ) (id : Identity) (mem_id : Text) (db db' : List Row)
      → Keeps (used env now id mem_id db db')
  unfolding clash same_key
  used-Keeps now id mem_id db db' = record { same_id = λ m. refl; apart = λ m n h. h }

  -- A use that succeeds leaves a consistent table consistent.
  pub reinforce-IsConsistent :
      (now : ℕ) (id : Identity) (mem_id : Text) (db db' : List Row) (m : Row)
      → IsConsistent db
      → reinforce env now id mem_id db ≡ ok (m, db')
      → IsConsistent db'
  reinforce-IsConsistent now id mem_id db db' m h e =
      let k = used-Keeps now id mem_id db db' in
      rw (reinforce_rows env now id mem_id db db' m e)
        (update_where-IsConsistent (seen_row env id mem_id) (used env now id mem_id db db') k db h)

  module _ (now : ℕ) (id : Identity) (mem_id : Text) (db : List Row) (c : Row)
      (set : Row → Row) where
    becomes :
        (m : Row)
        → c.id ≡ mem_id
        → (set c).id ≡ c.id
        → (m.id ≡ c.id → m ≡ c)
        → own_row id mem_id m ≡ true
        → (m.id ≡ (set c).id) × (set m ≡ set c)
    unfolding own_row
    becomes m at kept only e =
        let same : m.id ≡ mem_id = ground (arith, text_eq_iff m.id mem_id) in
        (same ∙ sym at ∙ sym kept, ap set (only (same ∙ sym at)))

    rows :
        (ms : List Row)
        → c.id ≡ mem_id
        → (set c).id ≡ c.id
        → All (λ m. m.id ≡ c.id → m ≡ c) ms
        → All (λ m. m.id ≢ (set c).id → clash (set c) m ≡ false) ms
        → All
            (λ m.
              Becomes (own_row id mem_id) set (set c) m × Spared (own_row id mem_id) set (set c) m)
            ms
    rows [] at kept only spared = tt
    rows (m ∷ ms) at kept (o, os) (s, ss) = ((becomes m at kept o, s), rows ms at kept os ss)

    edited-IsConsistent :
        IsConsistent db
        → get_memory id mem_id db ≡ ok c
        → (set c).id ≡ c.id
        → violates env (set c) db ≡ false
        → IsConsistent (update_where (own_row id mem_id) set db)
    edited-IsConsistent h found kept free =
        let (at, same, _) = get_memory-Member now id mem_id db db c found in
        let rows_apart =
          rows db same kept (only_row c db h at) (violates-Spared env (set c) db free) in
        edit-IsConsistent (own_row id mem_id) set (set c) db rows_apart h

  -- An edit that succeeds leaves a consistent table consistent.
  pub update_memory-IsConsistent :
      (now : ℕ) (id : Identity) (mem_id : Text) (title body visibility : Option Text)
      (db db' : List Row) (m : Row)
      → IsConsistent db
      → update_memory env now id mem_id title body visibility db ≡ ok (m, db')
      → IsConsistent db'
  unfolding rewritten
  update_memory-IsConsistent now id mem_id title body visibility db db' m h e =
      let E = update_memory-Edited env now id mem_id db db' title body visibility m e in
      let kept : (E.set E.current).id ≡ E.current.id = rw E.rewrites in
      rw E.rows (edited-IsConsistent now id mem_id db E.current E.set h E.found kept E.free)

  conflicts-Apart : (row : Row) (db : List Row) → conflicts env row db ≡ false → All (Apart row) db
  unfolding conflicts
  conflicts-Apart row [] e = tt
  conflicts-Apart row (m ∷ ms) e = (
    (ground (arith, text_eq_iff row.id m.id), ground arith),
    conflicts-Apart row ms (ground arith),
  )

  unchanged :
      (id : Identity) (row : Row) (db db' : List Row) (m : Row) (created : Bool)
      → settle env id row db none ≡ ok (m, created, db')
      → db' ≡ db
  unchanged id row db db' m created e =
      let (_, _, e3) = >>=-eq-ok (existing env id row db) _ e in ground arith

  insert_row-rows :
      (row : Row) (db db' : List Row)
      → insert_row env row db ≡ ok (some db')
      → (db' ≡ row ∷ db) × All (Apart row) db
  unfolding insert_row
  insert_row-rows row db db' e = (ground arith, conflicts-Apart row db (ground arith))

  create_memory-cases :
      (fresh : Text) (now : ℕ) (id : Identity) (input : MemoryInput) (db db' : List Row) (m : Row)
      (created : Bool)
      → create_memory env fresh now id input db ≡ ok (m, created, db')
      → (db' ≡ db) ⊎ ((row : Row) × (db' ≡ row ∷ db) × All (Apart row) db)
  unfolding create_memory
  create_memory-cases fresh now id input db db' m created e =
      let (checked, _, e1) = >>=-eq-ok (validate input) _ e in
      let row = new_row env fresh now id checked in
      let (inserted, did, e2) = >>=-eq-ok (insert_row env row db) _ e1 in
      elim (Option-cases inserted) [
        | inl none' ↦
            inl (unchanged id row db db' m created (ap (settle env id row db) (sym none') ∙ e2))
        | inr (db1, some') ↦
            let same : db' ≡ db1 = ground (arith, some', e2) in
            let (rows', apart) = insert_row-rows row db db1 (did ∙ ap ok some') in
            inr (row, same ∙ rows', apart)
      ]

  pub create_memory-rows :
      (fresh : Text) (now : ℕ) (id : Identity) (input : MemoryInput) (db db' : List Row) (m : Row)
      (created : Bool)
      → create_memory env fresh now id input db ≡ ok (m, created, db')
      → (db' ≡ db) ⊎ ((row : Row) × (db' ≡ row ∷ db))
  create_memory-rows fresh now id input db db' m created e =
      elim (create_memory-cases fresh now id input db db' m created e) [
        | inl same ↦ inl same
        | inr (row, same, _) ↦ inr (row, same)
      ]

  -- A creation that succeeds leaves a consistent table consistent.
  pub create_memory-IsConsistent :
      (fresh : Text) (now : ℕ) (id : Identity) (input : MemoryInput) (db db' : List Row) (m : Row)
      (created : Bool)
      → IsConsistent db
      → create_memory env fresh now id input db ≡ ok (m, created, db')
      → IsConsistent db'
  create_memory-IsConsistent fresh now id input db db' m created h e =
      elim (create_memory-cases fresh now id input db db' m created e) [
        | inl same ↦ rw same h
        | inr (row, same, apart) ↦ rw same (apart, h)
      ]
