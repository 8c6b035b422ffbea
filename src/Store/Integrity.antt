-- ===== src/Store/Integrity.antt =====
-- The constraints of the table: no identifier twice, and no live row twice under one dedup key.
use dk_agent_memory.Store.Model.{Env, Memory, same_key, clash, find}
use dk_agent_memory.Store.Write.{update_where, violates}
use dk_agent_memory.Store.Effects.{deleted, replaced_by, shared}
use dk_agent_memory.Base.{
  ℕ, ◌≡◌, refl, sym, ◌∙◌, ◌≢◌, inl, inr, Bool, true, false, some, List, [], ◌∷◌, arith,
  if◌then◌else◌, Bool-cases, All, Member, All-Member, All-map, Text, text_eq_iff, text_eq_comm,
  here, there,
}

module _ {Real : Type 0} where
  -- Two rows that may stand in one table.
  abbrev pub Apart : Memory Real → Memory Real → Type 0
  Apart m n = (m.id ≢ n.id) × (clash m n ≡ false)

  abbrev pub IsConsistent : List (Memory Real) → Type 0
  IsConsistent [] = Unit
  IsConsistent (m ∷ ms) = All (Apart m) ms × IsConsistent ms

  clash_comm : (m n : Memory Real) → clash m n ≡ clash n m
  unfolding clash same_key
  clash_comm m n = ground (
    arith,
    text_eq_comm m.team_id n.team_id,
    text_eq_comm m.user_id n.user_id,
    text_eq_comm m.project n.project,
    text_eq_comm m.content_hash n.content_hash,
  )

  -- A change that leaves the identifier and the dedup key alone, and brings no deleted row back.
  pub record Keeps (f : Memory Real → Memory Real) : Type 0 where
    pub same_id : (m : Memory Real) → (f m).id ≡ m.id
    pub apart : (m n : Memory Real) → clash m n ≡ false → clash (f m) n ≡ false

  when : (Memory Real → Bool) → (Memory Real → Memory Real) → Memory Real → Memory Real
  when p f m = if p m then f m else m

  module _ (p : Memory Real → Bool) (f : Memory Real → Memory Real) (k : Keeps f) where
    when-Keeps : Keeps (when p f)
    unfolding when
    when-Keeps = record {
      same_id = λ m. elim (Bool-cases (p m)) [ inl e ↦ rw e (k.same_id m) | inr e ↦ rw e ];
      apart = λ m n h. elim (Bool-cases (p m)) [ inl e ↦ rw e (k.apart m n h) | inr e ↦ rw e h ];
    }

    when-Apart : (m n : Memory Real) → Apart m n → Apart (when p f m) (when p f n)
    when-Apart m n (ids, keys) =
        let w = when-Keeps in
        let left = w.apart m n keys in
        (
          λ e. ids (sym (w.same_id m) ∙ e ∙ w.same_id n),
          clash_comm (when p f m) (when p f n)
              ∙ w.apart n (when p f m) (clash_comm n (when p f m) ∙ left),
        )

    All-when :
        (m : Memory Real) (ms : List (Memory Real))
        → All (Apart m) ms
        → All (Apart (when p f m)) (update_where p f ms)
    unfolding update_where when
    All-when m [] h = tt
    All-when m (n ∷ ms) (h, hs) = (when-Apart m n h, All-when m ms hs)

    pub update_where-IsConsistent :
        (db : List (Memory Real)) → IsConsistent db → IsConsistent (update_where p f db)
    unfolding update_where when
    update_where-IsConsistent [] h = tt
    update_where-IsConsistent (m ∷ ms) (h, hs) = (All-when m ms h, update_where-IsConsistent ms hs)

  pub deleted-Keeps : (now : ℕ) → Keeps (deleted now)
  unfolding clash
  deleted-Keeps now = record { same_id = λ m. refl; apart = λ m n h. refl }

  pub replaced_by-Keeps : (now : ℕ) (new_id : Text) → Keeps (replaced_by now new_id)
  unfolding clash same_key
  replaced_by-Keeps now new_id = record { same_id = λ m. refl; apart = λ m n h. h }

  pub shared-Keeps : (now : ℕ) → Keeps (shared now)
  unfolding clash same_key
  shared-Keeps now = record { same_id = λ m. refl; apart = λ m n h. h }

  -- The row of an edit against the others: equal where the caller's row stood, apart elsewhere.
  module _ (p : Memory Real → Bool) (set : Memory Real → Memory Real) (row : Memory Real) where
    -- A row that the edit changes has the edited row's identifier and becomes that row.
    abbrev pub Becomes : Memory Real → Type 0
    Becomes m = p m ≡ true → (m.id ≡ row.id) × (set m ≡ row)

    abbrev pub Spared : Memory Real → Type 0
    Spared m = m.id ≢ row.id → clash row m ≡ false

    edit-Apart :
        (m n : Memory Real)
        → Becomes m × Spared m
        → Becomes n × Spared n
        → Apart m n
        → Apart (when p set m) (when p set n)
    unfolding when
    edit-Apart m n (bm, sm) (bn, sn) (ids, keys) = elim (Bool-cases (p m)) [
      | inl pm ↦ elim (Bool-cases (p n)) [
        | inl pn ↦ absurd (ids ((bm pm).0 ∙ sym (bn pn).0))
        | inr qn ↦
            let other : n.id ≢ row.id = λ e. ids ((bm pm).0 ∙ sym e) in
            rw (pm, qn, (bm pm).1) ((λ e. other (sym e)), sn other)
      ]
      | inr qm ↦ elim (Bool-cases (p n)) [
        | inl pn ↦
            let other : m.id ≢ row.id = λ e. ids (e ∙ sym (bn pn).0) in
            rw (qm, pn, (bn pn).1) (other, clash_comm m row ∙ sm other)
        | inr qn ↦ rw (qm, qn) (ids, keys)
      ]
    ]

    pub edit-IsConsistent :
        (db : List (Memory Real))
        → All (λ m. Becomes m × Spared m) db
        → IsConsistent db
        → IsConsistent (update_where p set db)
    unfolding update_where when
    edit-IsConsistent [] b h = tt
    edit-IsConsistent (m ∷ ms) (bm, bs) (h, hs) = (apart ms bs h, edit-IsConsistent ms bs hs)
      where
        apart :
            (ns : List (Memory Real))
            → All (λ n. Becomes n × Spared n) ns
            → All (Apart m) ns
            → All (Apart (if p m then set m else m)) (update_where p set ns)
        apart [] b a = tt
        apart (n ∷ ns) (bn, bs') (a, as') = (edit-Apart m n bm bn a, apart ns bs' as')

  pub find-Member :
      (q : Memory Real → Bool) (db : List (Memory Real)) {c : Memory Real}
      → find q db ≡ some c
      → Member c db × (q c ≡ true)
  unfolding find
  find-Member q [] e = cc
  find-Member q (m ∷ ms) {c} e = elim (Bool-cases (q m)) [
    | inl yes' ↦ let same : m ≡ c = ground arith in rw (← same) (here, yes')
    | inr no' ↦
        let later : find q ms ≡ some c = ground arith in
        let (at, holds) = find-Member q ms later in (there at, holds)
  ]

  -- An identifier belongs to one row.
  pub only_row :
      (c : Memory Real) (db : List (Memory Real))
      → IsConsistent db
      → Member c db
      → All (λ m. m.id ≡ c.id → m ≡ c) db
  only_row c (m ∷ ms) (h, hs) here =
      ((λ e. refl), All-map (Apart c) _ (λ n a e. absurd (a.0 (sym e))) ms h)
  only_row c (m ∷ ms) (h, hs) (there at) =
      ((λ e. absurd ((All-Member (Apart m) h at).0 e)), only_row c ms hs at)
  only_row c [] h m = elim m [ ]

module _ (env : Env) where
  pub violates-Spared :
      (row : Memory env.Real) (db : List (Memory env.Real))
      → violates env row db ≡ false
      → All (λ m. m.id ≢ row.id → clash row m ≡ false) db
  unfolding violates
  violates-Spared row [] e = tt
  violates-Spared row (m ∷ ms) e =
      ((λ other. ground (arith, text_eq_iff m.id row.id)), violates-Spared row ms (ground arith))
