-- ===== src/Store/Idempotent.antt =====
-- A creation that is repeated, and the row that a creation in conflict returns.
use dk_agent_memory.Store.Model.{
  Env, Identity, Memory, bad_kind, bad_visibility, no_content, valid_kind, valid_visibility,
  valid_source, find, kind_fact, visibility_private, source_manual,
}
use dk_agent_memory.Store.Create.{
  MemoryInput, validate, new_row, conflicts, insert_row, get_memory_unscoped, existing, settle,
  create_memory, or_default, refuse_invalid, invalid,
}
use dk_agent_memory.Store.Integrity.{IsConsistent, Apart}
use dk_agent_memory.Store.Preserved.{create_memory-IsConsistent}
use dk_agent_memory.Base.{
  ℕ, ◌≡◌, refl, sym, ap, ◌∙◌, ◌≢◌, inl, inr, true, false, not, ◌&&◌, none, some, List, [], ◌∷◌,
  arith, Option-cases, Member, All-Member, Text, text_eq_iff, text_eq_refl, is_empty, refuse_if,
  >>=-eq-ok, refuse_if-eq-ok, trim_space, here, there, ok,
}

-- What `validate` leaves of an input that it accepts.
pub record Checked (input checked : MemoryInput) : Type 0 where
  pub same_id : checked.id ≡ input.id
  pub kind_ok : valid_kind checked.kind ≡ true
  pub visibility_ok : valid_visibility checked.visibility ≡ true
  pub same_source : checked.source ≡ or_default input.source source_manual

validate-Checked :
    (input checked : MemoryInput) → validate input ≡ ok checked → Checked input checked
unfolding validate
validate-Checked input checked e =
    let kind = or_default input.kind kind_fact in
    let visibility = or_default input.visibility visibility_private in
    let (_, _, e1) = >>=-eq-ok (refuse_invalid (invalid input.id)) _ e in
    let (_, k, e2) = >>=-eq-ok (refuse_if (not (valid_kind kind)) bad_kind) _ e1 in
    let (_, v, e3) =
      >>=-eq-ok (refuse_if (not (valid_visibility visibility)) bad_visibility) _ e2 in
    let empty = is_empty (trim_space input.title) && is_empty (trim_space input.body) in
    let (_, _, e4) = >>=-eq-ok (refuse_if empty no_content) _ e3 in
    let k' = refuse_if-eq-ok _ _ k in
    let v' = refuse_if-eq-ok _ _ v in
    record {
      same_id = ground (arith, e4);
      kind_ok = ground (arith, e4, k');
      visibility_ok = ground (arith, e4, v');
      same_source = ground (arith, e4);
    }

module _ (env : Env) where
  abbrev Row : Type 0
  Row = Memory env.Real

  conflicts-Member :
      (row m : Row) (db : List Row) → Member m db → row.id ≡ m.id → conflicts env row db ≡ true
  unfolding conflicts
  conflicts-Member row m (n ∷ ms) here e = rw e (ground (arith, text_eq_refl m.id))
  conflicts-Member row m (n ∷ ms) (there at) e = ground (arith, conflicts-Member row m ms at e)
  conflicts-Member row m [] at e = elim at [ ]

  find_by_id :
      (m : Row) (db : List Row)
      → IsConsistent db
      → Member m db
      → get_memory_unscoped env m.id db ≡ some m
  unfolding get_memory_unscoped find
  find_by_id m (n ∷ ms) h here = ground (arith, text_eq_refl m.id)
  find_by_id m (n ∷ ms) (h, hs) (there at) =
      let other = (All-Member (Apart n) h at).0 in
      ground (arith, text_eq_iff n.id m.id, find_by_id m ms hs at)
  find_by_id m [] h at = elim at [ ]

  insert_row-conflict :
      (row : Row) (db : List Row)
      → valid_kind row.kind ≡ true
      → valid_visibility row.visibility ≡ true
      → valid_source row.source ≡ true
      → conflicts env row db ≡ true
      → insert_row env row db ≡ ok none
  unfolding insert_row
  insert_row-conflict row db k v s c = rw (k, v, s, c)

  existing_by_id :
      (id : Identity) (row m : Row) (db : List Row)
      → IsConsistent db
      → Member m db
      → row.id ≡ m.id
      → existing env id row db ≡ ok m
  unfolding existing
  existing_by_id id row m db h at e =
      let found = ap (λ i. get_memory_unscoped env i db) e ∙ find_by_id m db h at in
      ground (arith, found)

  new_row_of_id :
      (fresh : Text) (now : ℕ) (id : Identity) (input : MemoryInput)
      → is_empty input.id ≡ false
      → (new_row env fresh now id input).id ≡ input.id
  unfolding new_row
  new_row_of_id fresh now id input e = rw e

  new_row_fields :
      (fresh : Text) (now : ℕ) (id : Identity) (input : MemoryInput)
      → ((new_row env fresh now id input).kind ≡ input.kind)
        × ((new_row env fresh now id input).visibility ≡ input.visibility)
        × ((new_row env fresh now id input).source ≡ input.source)
  unfolding new_row
  new_row_fields fresh now id input = (refl, refl, refl)

  not_inserted :
      (id : Identity) (row : Row) (db db' : List Row) (m : Row)
      → settle env id row db none ≢ ok (m, true, db')
  not_inserted id row db db' m e =
      let (_, _, e3) = >>=-eq-ok (existing env id row db) _ e in ground arith

  insert_row-rows :
      (row : Row) (db db' : List Row)
      → insert_row env row db ≡ ok (some db')
      → (db' ≡ row ∷ db) × (valid_source row.source ≡ true)
  unfolding insert_row
  insert_row-rows row db db' e = (ground arith, ground arith)

  -- If the table is consistent and has a row `m` with the input's identifier, then a creation from a
  -- valid input returns `m`, says that it was there already, and leaves the table alone. Neither the
  -- team and the user of the caller nor a deletion of `m` makes a difference.
  pub create_memory-present :
      (fresh : Text) (now : ℕ) (id : Identity) (input checked : MemoryInput) (db : List Row)
      (m : Row)
      → IsConsistent db
      → Member m db
      → m.id ≡ input.id
      → is_empty input.id ≡ false
      → validate input ≡ ok checked
      → valid_source (or_default input.source source_manual) ≡ true
      → create_memory env fresh now id input db ≡ ok (m, false, db)
  unfolding create_memory
  create_memory-present fresh now id input checked db m h at same given valid source =
      let c = validate-Checked input checked valid in
      let row = new_row env fresh now id checked in
      let (k, v, s) = new_row_fields fresh now id checked in
      let row_id : row.id ≡ m.id =
        new_row_of_id fresh now id checked (ap is_empty c.same_id ∙ given) ∙ c.same_id ∙ sym same in
      let none' =
        insert_row-conflict row db (ap valid_kind k ∙ c.kind_ok)
          (ap valid_visibility v ∙ c.visibility_ok) (ap valid_source (s ∙ c.same_source) ∙ source)
          (conflicts-Member row m db at row_id) in
      rw (valid, none', existing_by_id id row m db h at row_id)

  -- If a creation with a given identifier inserts a row `m` into a consistent table, then the same
  -- creation made again, at any time, returns `m`, says that it was there already, and leaves the
  -- table alone.
  pub create_memory-repeat :
      (fresh fresh' : Text) (now now' : ℕ) (id : Identity) (input : MemoryInput) (db db' : List Row)
      (m : Row)
      → IsConsistent db
      → is_empty input.id ≡ false
      → create_memory env fresh now id input db ≡ ok (m, true, db')
      → create_memory env fresh' now' id input db' ≡ ok (m, false, db')
  unfolding create_memory
  create_memory-repeat fresh fresh' now now' id input db db' m h given e =
      let (checked, valid, e1) = >>=-eq-ok (validate input) _ e in
      let row = new_row env fresh now id checked in
      let (inserted, did, e2) = >>=-eq-ok (insert_row env row db) _ e1 in
      let c = validate-Checked input checked valid in
      elim (Option-cases inserted) [
        | inl none' ↦
            absurd (not_inserted id row db db' m (ap (settle env id row db) (sym none') ∙ e2))
        | inr (db1, some') ↦
            let same : db1 ≡ db' = ground (arith, some', e2) in
            let row' : row ≡ m = ground (arith, some', e2) in
            let (rows', source) = insert_row-rows row db db1 (did ∙ ap ok some') in
            let at : Member row db' = rw (sym same ∙ rows') here in
            let h' = create_memory-IsConsistent env fresh now id input db db' m true h e in
            let (_, _, s) = new_row_fields fresh now id checked in
            let id' = new_row_of_id fresh now id checked (ap is_empty c.same_id ∙ given) in
            let again =
              create_memory-present fresh' now' id input checked db' row h' at (id' ∙ c.same_id)
                given valid (ap valid_source (sym c.same_source ∙ sym s) ∙ source) in
            again ∙ ap (λ (r : Row). ok (r, false, db')) row'
      ]
