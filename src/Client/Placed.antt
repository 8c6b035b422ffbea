-- ===== src/Client/Placed.antt =====
-- The index of the rows of the local copy, and what a change of a row or a new row does to it.
use dk_agent_memory.Store.Model.{Memory}
use dk_agent_memory.Client.Cache.{Index, put_index, touch, cached}
use dk_agent_memory.Client.Slots.{
  NoRow, Slot, At, cached-NoRow, Slot-length, Slot-touch, cached-touch, NoRow-touch,
  Slot-touch_other, NoRow-append, Slot-append_own, Slot-append, cached-append,
}
use mathlib.Core.Path.{subst}
use dk_agent_memory.Base.{
  ℕ, ◌≡◌, refl, sym, ap, ◌∙◌, ◌≢◌, ◌⊎◌, inl, inr, true, false, Option, none, some, List, [], ◌∷◌,
  ◌++◌, arith, if◌then◌else◌, Bool-cases, length, Text, text_eq, text_eq_iff, text_eq_refl,
  is_empty, text_eq_comm,
}

pub text_eq-path : (s t : Text) → text_eq s t ≡ true → s ≡ t
text_eq-path s t e = (text_eq_iff s t).0 e

pub some_inj : {A : Type 0} {x y : A} → ◌≡◌ {A = Option A} (some x) (some y) → x ≡ y
some_inj e = cc

pub empty-path : (s : Text) → is_empty s ≡ true → s ≡ []
empty-path [] e = refl
empty-path (c ∷ s) e = cc

pub text_eq-nil : (id : Text) → is_empty id ≡ false → text_eq [] id ≡ false
unfolding text_eq
text_eq-nil [] h = cc
text_eq-nil (c ∷ s) h = refl

module _ {Real : Type 0} where
  -- The index tells where the row of every identifier stands.
  pub record Placed (rows : List (Memory Real)) (index : Index) : Type 0 where
    pub at : (id : Text) → is_empty id ≡ false → At id (index id) rows
    pub apart : (id id' : Text) (i : ℕ) → index id ≡ some i → index id' ≡ some i → id ≡ id'
    pub no_empty : index [] ≡ none

  -- What is found under an identifier, a value having been set under one of them.
  abbrev pub settled :
      Text → Option (Memory Real) → Text → Option (Memory Real) → Option (Memory Real)
  settled own value id old = if text_eq own id then value else old

  module _ (own : Text) (i : ℕ) (f : Memory Real → Memory Real) (value : Option (Memory Real))
      (new : (m : Memory Real)
        → ((text_eq (f m).id own ≡ true) × (some (f m) ≡ value))
          ⊎ ((text_eq (f m).id own ≡ false) × (none ≡ value)))
      (names : (m : Memory Real) → (text_eq (f m).id own ≡ true) ⊎ ((f m).id ≡ []))
      (others : (id : Text)
        → is_empty id ≡ false
        → text_eq own id ≡ false
        → (m : Memory Real) → text_eq (f m).id id ≡ false)
      (rows : List (Memory Real)) (index : Index) (placed : Placed rows index)
      (own_named : is_empty own ≡ false) (found : index own ≡ some i) where
    own-Slot : Slot own i rows
    own-Slot = subst (λ o. At own o rows) found (placed.at own own_named)

    other_touch :
        (id : Text) (o : Option ℕ)
        → is_empty id ≡ false
        → text_eq own id ≡ false
        → index id ≡ o
        → At id o rows
        → At id o (touch i f rows) × (cached id (touch i f rows) ≡ cached id rows)
    other_touch id none named differs is_o h =
        let gone = NoRow-touch id i f rows (others id named differs) h in
        (gone, cached-NoRow id (touch i f rows) gone ∙ sym (cached-NoRow id rows h))
    other_touch id (some j) named differs is_o h =
        let away : i ≢ j = λ same.
          let at_i : index id ≡ some i = is_o ∙ ap some (sym same) in
          let path : own ≡ id = placed.apart own id i found at_i in
          let same_text : text_eq own id ≡ true = (text_eq_iff own id).1 path in
          ground (arith, same_text, differs) in
        Slot-touch_other id i j f rows (others id named differs) away h

    touch-At : (id : Text) → is_empty id ≡ false → At id (index id) (touch i f rows)
    touch-At id named = elim (Bool-cases (text_eq own id)) [
      | inl same ↦
          subst (λ t. At t (index t) (touch i f rows)) (text_eq-path own id same)
            (subst (λ o. At own o (touch i f rows)) (sym found)
              (Slot-touch own i f rows names own-Slot))
      | inr differs ↦ (other_touch id (index id) named differs refl (placed.at id named)).0
    ]

    pub touch-Placed : Placed (touch i f rows) index
    touch-Placed = record { at = touch-At; apart = placed.apart; no_empty = placed.no_empty }

    pub touch-cached :
        (id : Text)
        → is_empty id ≡ false
        → cached id (touch i f rows) ≡ settled own value id (cached id rows)
    touch-cached id named = elim (Bool-cases (text_eq own id)) [
      | inl same ↦ rw same (
          subst (λ t. cached t (touch i f rows) ≡ value) (text_eq-path own id same)
            (cached-touch own i f rows value new own-Slot))
      | inr differs ↦
          rw differs (other_touch id (index id) named differs refl (placed.at id named)).1
    ]

  module _ (m : Memory Real) (rows : List (Memory Real)) (index : Index)
      (placed : Placed rows index) (m_named : is_empty m.id ≡ false) (fresh : NoRow m.id rows) where
    append-At :
        (id : Text)
        → is_empty id ≡ false
        → At id (put_index m.id (length rows) index id) (rows ++ m ∷ [])
    unfolding put_index
    append-At id named = elim (Bool-cases (text_eq m.id id)) [
      | inl same ↦ rw same (
          subst (λ t. Slot t (length rows) (rows ++ m ∷ [])) (text_eq-path m.id id same)
            (Slot-append_own m.id rows m fresh (text_eq_refl m.id)).0)
      | inr differs ↦ rw differs (longer (index id) differs (placed.at id named))
    ]
      where
        longer : (o : Option ℕ) → text_eq m.id id ≡ false → At id o rows → At id o (rows ++ m ∷ [])
        longer none differs h = NoRow-append id rows m h differs
        longer (some j) differs h = Slot-append id j rows m h differs

    pub append-cached :
        (id : Text) → cached id (rows ++ m ∷ []) ≡ settled m.id (some m) id (cached id rows)
    append-cached id = elim (Bool-cases (text_eq m.id id)) [
      | inl same ↦ rw same (
          subst (λ t. cached t (rows ++ m ∷ []) ≡ some m) (text_eq-path m.id id same)
            (Slot-append_own m.id rows m fresh (text_eq_refl m.id)).1)
      | inr differs ↦ rw differs (cached-append id rows m differs)
    ]

    -- No identifier stood at the position behind the last.
    no_such : (id : Text) → index id ≡ some (length rows) → ⊥
    no_such [] e = let no = placed.no_empty in cc
    no_such (c ∷ s) e =
        let slot = subst (λ o. At (c ∷ s) o rows) e (placed.at (c ∷ s) refl) in
        let short = Slot-length (c ∷ s) (length rows) rows slot in omega (arith, short)

    append-apart :
        (id id' : Text) (j : ℕ)
        → put_index m.id (length rows) index id ≡ some j
        → put_index m.id (length rows) index id' ≡ some j
        → id ≡ id'
    unfolding put_index
    append-apart id id' j e e' = elim (Bool-cases (text_eq m.id id)) [
      | inl same ↦
          let last : length rows ≡ j = some_inj (rw (same, put_index) at e) in
          elim (Bool-cases (text_eq m.id id')) [
            | inl same' ↦ sym (text_eq-path m.id id same) ∙ text_eq-path m.id id' same'
            | inr differs' ↦
                let old : index id' ≡ some j = rw (differs', put_index) at e' in
                absurd (no_such id' (old ∙ ap some (sym last)))
          ]
      | inr differs ↦
          let old : index id ≡ some j = rw (differs, put_index) at e in
          elim (Bool-cases (text_eq m.id id')) [
            | inl same' ↦
                let last : length rows ≡ j = some_inj (rw (same', put_index) at e') in
                absurd (no_such id (old ∙ ap some (sym last)))
            | inr differs' ↦
                let old' : index id' ≡ some j = rw (differs', put_index) at e' in
                placed.apart id id' j old old'
          ]
    ]

    append-no_empty : put_index m.id (length rows) index [] ≡ none
    unfolding put_index
    append-no_empty =
        let differs : text_eq m.id [] ≡ false = text_eq_comm m.id [] ∙ text_eq-nil m.id m_named in
        rw differs placed.no_empty

    pub append-Placed : Placed (rows ++ m ∷ []) (put_index m.id (length rows) index)
    append-Placed = record { at = append-At; apart = append-apart; no_empty = append-no_empty }
