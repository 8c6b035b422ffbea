-- ===== src/Client/Slots.antt =====
-- Where the rows of the local copy stand while changes are merged into it.
use dk_agent_memory.Store.Model.{Memory}
use dk_agent_memory.Client.Cache.{touch, cached}
use dk_agent_memory.Base.{
  ℕ, zero, suc, ◌<◌, ◌≡◌, refl, sym, ap, ◌∙◌, ◌≢◌, ◌⊎◌, inl, inr, true, false, Option, none, some,
  List, [], ◌∷◌, ◌++◌, arith, length, All, Text, text_eq,
}

module _ {Real : Type 0} where
  -- No row has the identifier.
  abbrev pub NoRow : Text → List (Memory Real) → Type 0
  NoRow id = All (λ (m : Memory Real). text_eq m.id id ≡ false)

  -- A position has the identifier or none, and no other has it.
  abbrev pub Slot : Text → ℕ → List (Memory Real) → Type 0
  Slot id i [] = ⊥
  Slot id zero (m ∷ ms) = ((text_eq m.id id ≡ true) ⊎ (m.id ≡ [])) × NoRow id ms
  Slot id (suc i) (m ∷ ms) = (text_eq m.id id ≡ false) × Slot id i ms

  abbrev pub At : Text → Option ℕ → List (Memory Real) → Type 0
  At id none rows = NoRow id rows
  At id (some i) rows = Slot id i rows

  pub cached-NoRow : (id : Text) (rows : List (Memory Real)) → NoRow id rows → cached id rows ≡ none
  unfolding cached
  cached-NoRow id [] h = refl
  cached-NoRow id (m ∷ ms) (apart, h) = rw (apart, cached-NoRow id ms h) refl

  pub Slot-length :
      (id : Text) (i : ℕ) (rows : List (Memory Real)) → Slot id i rows → i < length rows
  Slot-length id i [] h = absurd h
  Slot-length id zero (m ∷ ms) h = omega arith
  Slot-length id (suc i) (m ∷ ms) (apart, h) = omega (arith, Slot-length id i ms h)

  -- What a change of a slot does to its own identifier.
  pub Slot-touch :
      (id : Text) (i : ℕ) (f : Memory Real → Memory Real) (rows : List (Memory Real))
      → ((m : Memory Real) → (text_eq (f m).id id ≡ true) ⊎ ((f m).id ≡ []))
      → Slot id i rows
      → Slot id i (touch i f rows)
  unfolding touch
  Slot-touch id i f [] names h = h
  Slot-touch id zero f (m ∷ ms) names (old, h) = (names m, h)
  Slot-touch id (suc i) f (m ∷ ms) names (apart, h) = (apart, Slot-touch id i f ms names h)

  pub cached-touch :
      (id : Text) (i : ℕ) (f : Memory Real → Memory Real) (rows : List (Memory Real))
      (value : Option (Memory Real))
      → ((m : Memory Real)
          → ((text_eq (f m).id id ≡ true) × (some (f m) ≡ value))
            ⊎ ((text_eq (f m).id id ≡ false) × (none ≡ value)))
      → Slot id i rows
      → cached id (touch i f rows) ≡ value
  unfolding touch cached
  cached-touch id i f [] value new h = absurd h
  cached-touch id zero f (m ∷ ms) value new (old, h) = elim (new m) [
    | inl (same, is_value) ↦ rw same is_value
    | inr (apart, is_value) ↦ rw apart (cached-NoRow id ms h ∙ is_value)
  ]
  cached-touch id (suc i) f (m ∷ ms) value new (apart, h) =
      rw apart (cached-touch id i f ms value new h)

  -- A change of a position leaves an identifier alone that neither stands there before nor behind it.
  pub NoRow-touch :
      (id : Text) (i : ℕ) (f : Memory Real → Memory Real) (rows : List (Memory Real))
      → ((m : Memory Real) → text_eq (f m).id id ≡ false)
      → NoRow id rows
      → NoRow id (touch i f rows)
  unfolding touch
  NoRow-touch id i f [] other_id h = h
  NoRow-touch id zero f (m ∷ ms) other_id (apart, h) = (other_id m, h)
  NoRow-touch id (suc i) f (m ∷ ms) other_id (apart, h) = (apart, NoRow-touch id i f ms other_id h)

  pub Slot-touch_other :
      (id : Text) (i j : ℕ) (f : Memory Real → Memory Real) (rows : List (Memory Real))
      → ((m : Memory Real) → text_eq (f m).id id ≡ false)
      → i ≢ j
      → Slot id j rows
      → Slot id j (touch i f rows) × (cached id (touch i f rows) ≡ cached id rows)
  unfolding touch cached
  Slot-touch_other id i j f [] other_id apart h = absurd h
  Slot-touch_other id zero zero f (m ∷ ms) other_id apart h = absurd (apart refl)
  Slot-touch_other id (suc i) zero f (m ∷ ms) other_id apart (old, h) =
      let gone = NoRow-touch id i f ms other_id h in
      let same : cached id (touch i f ms) ≡ cached id ms =
        cached-NoRow id (touch i f ms) gone ∙ sym (cached-NoRow id ms h) in
      ((old, gone), rw same refl)
  Slot-touch_other id zero (suc j) f (m ∷ ms) other_id apart (other_row, h) =
      ((other_id m, h), rw (other_row, other_id m) refl)
  Slot-touch_other id (suc i) (suc j) f (m ∷ ms) other_id apart (other_row, h) =
      let (slot, same) = Slot-touch_other id i j f ms other_id (λ e. apart (ap suc e)) h in
      ((other_row, slot), rw same refl)

  -- A row that is added at the end.
  pub NoRow-append :
      (id : Text) (rows : List (Memory Real)) (m : Memory Real)
      → NoRow id rows
      → text_eq m.id id ≡ false
      → NoRow id (rows ++ m ∷ [])
  NoRow-append id [] m h apart = (apart, tt)
  NoRow-append id (r ∷ rs) m (apart', h) apart = (apart', NoRow-append id rs m h apart)

  pub Slot-append_own :
      (id : Text) (rows : List (Memory Real)) (m : Memory Real)
      → NoRow id rows
      → text_eq m.id id ≡ true
      → Slot id (length rows) (rows ++ m ∷ []) × (cached id (rows ++ m ∷ []) ≡ some m)
  unfolding cached
  Slot-append_own id [] m h same = ((inl same, tt), rw same refl)
  Slot-append_own id (r ∷ rs) m (apart, h) same =
      let (slot, found) = Slot-append_own id rs m h same in ((apart, slot), rw (apart, found) refl)

  pub Slot-append :
      (id : Text) (i : ℕ) (rows : List (Memory Real)) (m : Memory Real)
      → Slot id i rows
      → text_eq m.id id ≡ false
      → Slot id i (rows ++ m ∷ [])
  Slot-append id i [] m h apart = absurd h
  Slot-append id zero (r ∷ rs) m (old, h) apart = (old, NoRow-append id rs m h apart)
  Slot-append id (suc i) (r ∷ rs) m (apart', h) apart = (apart', Slot-append id i rs m h apart)

  pub cached-append :
      (id : Text) (rows : List (Memory Real)) (m : Memory Real)
      → text_eq m.id id ≡ false
      → cached id (rows ++ m ∷ []) ≡ cached id rows
  unfolding cached
  cached-append id [] m apart = rw apart refl
  cached-append id (r ∷ rs) m apart = rw (cached-append id rs m apart) refl
