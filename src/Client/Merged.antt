-- ===== src/Client/Merged.antt =====
-- A merge of changes into the local copy agrees with the changes taken one identifier at a time.
use dk_agent_memory.Client.Placed.{
  Placed, settled, touch-Placed, touch-cached, append-Placed, append-cached, text_eq-path,
  text_eq-nil, empty-path,
}
use dk_agent_memory.Store.Model.{Memory}
use dk_agent_memory.Store.Sync.{Change}
use dk_agent_memory.Client.Cache.{
  Index, put_index, index_from, unnamed, removed, replaced_or_added, apply_one, apply_changes,
  merged, cached,
}
use dk_agent_memory.Client.Slots.{NoRow, At, cached-NoRow}
use mathlib.Core.Path.{subst}
use dk_agent_memory.Base.{
  ℕ, ◌+◌, ◌≡◌, refl, ap, ◌∙◌, inl, inr, Bool, true, false, not, Option, none, some, List, [], ◌∷◌,
  ◌++◌, append_assoc, append-nil, arith, Bool-cases, length, keep, length-append, All, Text,
  text_eq, text_eq_refl, is_empty,
}

module _ {Real : Type 0} where
  -- The row of an identifier behind a change, and behind several.
  abbrev pub new_value : Bool → Memory Real → Option (Memory Real)
  new_value true m = none
  new_value false m = some m

  unfoldable pub settle_all :
      List (Change Real) → Text → Option (Memory Real) → Option (Memory Real)
  settle_all [] id old = old
  settle_all (ch ∷ chs) id old =
      settle_all chs id (settled ch.memory.id (new_value ch.deleted ch.memory) id old)

  abbrev Kept :
      Text → Option (Memory Real) → List (Memory Real) → List (Memory Real) × Index → Type 0
  Kept own value rows state =
      Placed state.0 state.1
      × ((id : Text)
          → is_empty id ≡ false
          → cached id state.0 ≡ settled own value id (cached id rows))

  removed-Kept :
      (own : Text) (o : Option ℕ) (rows : List (Memory Real)) (index : Index)
      → is_empty own ≡ false
      → Placed rows index
      → index own ≡ o
      → Kept own none rows (removed o (rows, index))
  unfolding removed
  removed-Kept own none rows index named placed absent =
      let no_row : NoRow own rows = subst (λ o. At own o rows) absent (placed.at own named) in
      (
        placed,
        λ id id_named. elim (Bool-cases (text_eq own id)) [
          | inl same ↦ rw same (
              subst (λ t. cached t rows ≡ none) (text_eq-path own id same)
                (cached-NoRow own rows no_row))
          | inr differs ↦ rw differs refl
        ],
      )
  removed-Kept own (some i) rows index named placed found = (
    touch-Placed own i unnamed none (λ m. inr (text_eq-nil own named, refl)) (λ m. inr refl)
        (λ id id_named differs m. text_eq-nil id id_named) rows index placed named found,
    touch-cached own i unnamed none (λ m. inr (text_eq-nil own named, refl)) (λ m. inr refl)
        (λ id id_named differs m. text_eq-nil id id_named) rows index placed named found,
  )

  replaced_or_added-Kept :
      (m : Memory Real) (o : Option ℕ) (rows : List (Memory Real)) (index : Index)
      → is_empty m.id ≡ false
      → Placed rows index
      → index m.id ≡ o
      → Kept m.id (some m) rows (replaced_or_added m o (rows, index))
  unfolding replaced_or_added
  replaced_or_added-Kept m none rows index named placed absent =
      let no_row : NoRow m.id rows = subst (λ o. At m.id o rows) absent (placed.at m.id named) in
      (
        append-Placed m rows index placed named no_row,
        λ id id_named. append-cached m rows index placed named no_row id,
      )
  replaced_or_added-Kept m (some i) rows index named placed found = (
    touch-Placed m.id i (λ old. m) (some m) (λ old. inl (text_eq_refl m.id, refl))
        (λ old. inl (text_eq_refl m.id)) (λ id id_named differs old. differs) rows index placed
        named found,
    touch-cached m.id i (λ old. m) (some m) (λ old. inl (text_eq_refl m.id, refl))
        (λ old. inl (text_eq_refl m.id)) (λ id id_named differs old. differs) rows index placed
        named found,
  )

  apply_one-Kept :
      (gone : Bool) (m : Memory Real) (rows : List (Memory Real)) (index : Index)
      → is_empty m.id ≡ false
      → Placed rows index
      → Kept m.id (new_value gone m) rows (apply_one gone m (rows, index))
  unfolding apply_one
  apply_one-Kept true m rows index named placed =
      removed-Kept m.id (index m.id) rows index named placed refl
  apply_one-Kept false m rows index named placed =
      replaced_or_added-Kept m (index m.id) rows index named placed refl

  -- The changes name a row each.
  abbrev pub Named : List (Change Real) → Type 0
  Named = All (λ (ch : Change Real). is_empty ch.memory.id ≡ false)

  apply_changes-settled :
      (chs : List (Change Real)) (rows : List (Memory Real)) (index : Index) (id : Text)
      → Named chs
      → Placed rows index
      → is_empty id ≡ false
      → cached id (apply_changes chs (rows, index)).0 ≡ settle_all chs id (cached id rows)
  unfolding apply_changes settle_all
  apply_changes-settled [] rows index id named placed id_named = refl
  apply_changes-settled (ch ∷ chs) rows index id (ch_named, named) placed id_named =
      let (placed', found) = apply_one-Kept ch.deleted ch.memory rows index ch_named placed in
      let state = apply_one ch.deleted ch.memory (rows, index) in
      apply_changes-settled chs state.0 state.1 id named placed' id_named
      ∙ ap (settle_all chs id) (found id id_named)

  -- Every row has an identifier, and one that no row before it has.
  abbrev pub Fresh : List (Memory Real) → List (Memory Real) → Type 0
  Fresh before [] = Unit
  Fresh before (m ∷ ms) = (is_empty m.id ≡ false) × NoRow m.id before × Fresh (before ++ m ∷ []) ms

  index_from-Placed :
      (before rows : List (Memory Real)) (index : Index)
      → Placed before index
      → Fresh before rows
      → Placed (before ++ rows) (index_from (length before) rows index)
  unfolding index_from
  index_from-Placed before [] index placed h = rw (append-nil before) placed
  index_from-Placed before (m ∷ ms) index placed (named, fresh, h) =
      let longer : length (before ++ m ∷ []) ≡ length before + 1 =
        omega (arith, length-append before (m ∷ [])) in
      let rest =
        index_from-Placed (before ++ m ∷ []) ms (put_index m.id (length before) index)
          (append-Placed m before index placed named fresh) h in
      subst
        (λ rows.
          Placed rows (index_from (length before + 1) ms (put_index m.id (length before) index)))
        (append_assoc before (m ∷ []) ms)
        (subst
          (λ n.
            Placed ((before ++ m ∷ []) ++ ms)
              (index_from n ms (put_index m.id (length before) index)))
          longer rest)

  cached-kept :
      (id : Text) (rows : List (Memory Real))
      → is_empty id ≡ false
      → cached id (keep (λ (m : Memory Real). not (is_empty m.id)) rows) ≡ cached id rows
  unfolding cached
  cached-kept id [] named = refl
  cached-kept id (m ∷ ms) named = elim (Bool-cases (is_empty m.id)) [
    | inl e ↦
        let path : m.id ≡ [] = empty-path m.id e in
        let differs : text_eq m.id id ≡ false =
          ap (λ t. text_eq t id) path ∙ text_eq-nil id named in
        rw (e, differs, cached-kept id ms named) refl
    | inr e ↦ rw (e, cached, cached-kept id ms named) refl
  ]

  -- Where the local copy holds every identifier once, what it holds of an identifier behind a merge is what the
  -- changes make of it one after the other: a deleted row is gone, and else the last row sent stands there.
  pub merged-settled :
      (chs : List (Change Real)) (rows : List (Memory Real)) (id : Text)
      → Named chs
      → Fresh [] rows
      → is_empty id ≡ false
      → cached id (merged chs rows) ≡ settle_all chs id (cached id rows)
  unfolding merged
  merged-settled chs rows id named fresh id_named =
      let start : Placed [] (λ t. none) = record {
        at = λ t t_named. tt;
        apart = λ t t' i e e'. cc;
        no_empty = refl;
      } in
      let index = index_from 0 rows (λ t. none) in
      cached-kept id (apply_changes chs (rows, index)).0 id_named
      ∙ apply_changes-settled chs rows index id named
          (index_from-Placed [] rows (λ t. none) start fresh) id_named
