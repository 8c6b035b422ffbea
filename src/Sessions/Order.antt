-- ===== src/Sessions/Order.antt =====
-- Sorting by a key, and dropping rows from what is sorted.
use dk_agent_memory.Sessions.Tables.{place, ordered}
use dk_agent_memory.Base.{
  ℕ, ◌≤◌, ◌≡◌, refl, sym, ap, ◌∙◌, inl, inr, Bool, true, false, List, [], ◌∷◌, arith, ltb,
  Bool-cases, keep, All,
}

module _ {A : Type 0} (key : A → ℕ) where
  abbrev NotBefore : A → List A → Type 0
  NotBefore x ys = All (λ y. key x ≤ key y) ys

  abbrev Sorted : List A → Type 0
  Sorted [] = Unit
  Sorted (x ∷ xs) = NotBefore x xs × Sorted xs

  NotBefore-trans : (x y : A) (zs : List A) → key x ≤ key y → NotBefore y zs → NotBefore x zs
  NotBefore-trans x y [] le h = tt
  NotBefore-trans x y (z ∷ zs) le (h, hs) = (omega (arith, le, h), NotBefore-trans x y zs le hs)

  NotBefore-place :
      (x y : A) (ys : List A) → key x ≤ key y → NotBefore x ys → NotBefore x (place key y ys)
  unfolding place
  NotBefore-place x y [] le h = (le, tt)
  NotBefore-place x y (z ∷ zs) le (h, hs) = elim (Bool-cases (ltb (key z) (key y))) [
    | inl e ↦ rw (e, place) (h, NotBefore-place x y zs le hs)
    | inr e ↦ rw (e, place) (le, (h, hs))
  ]

  place-Sorted : (x : A) (ys : List A) → Sorted ys → Sorted (place key x ys)
  unfolding place
  place-Sorted x [] h = (tt, tt)
  place-Sorted x (y ∷ ys) (h, hs) = elim (Bool-cases (ltb (key y) (key x))) [
    | inl e ↦
        let le : key y ≤ key x = ground (arith, e) in
        rw (e, place) (NotBefore-place y x ys le h, place-Sorted x ys hs)
    | inr e ↦
        let le : key x ≤ key y = ground (arith, e) in
        rw (e, place) ((le, NotBefore-trans x y ys le h), (h, hs))
  ]

  ordered-Sorted : (xs : List A) → Sorted (ordered key xs)
  unfolding ordered
  ordered-Sorted [] = tt
  ordered-Sorted (x ∷ xs) = place-Sorted x (ordered key xs) (ordered-Sorted xs)

  place-front : (x : A) (ys : List A) → NotBefore x ys → place key x ys ≡ x ∷ ys
  unfolding place
  place-front x [] h = refl
  place-front x (y ∷ ys) (le, h) =
      let e : ltb (key y) (key x) ≡ false = ground (arith, le) in rw (e, place) refl

  module _ (p : A → Bool) where
    NotBefore-keep : (x : A) (ys : List A) → NotBefore x ys → NotBefore x (keep p ys)
    NotBefore-keep x [] h = tt
    NotBefore-keep x (y ∷ ys) (le, h) = elim (Bool-cases (p y)) [
      | inl e ↦ rw e (le, NotBefore-keep x ys h)
      | inr e ↦ rw e (NotBefore-keep x ys h)
    ]

    keep-place-out : (x : A) (ys : List A) → p x ≡ false → keep p (place key x ys) ≡ keep p ys
    unfolding place
    keep-place-out x [] out = rw out refl
    keep-place-out x (y ∷ ys) out = elim (Bool-cases (ltb (key y) (key x))) [
      | inr e ↦ rw (e, place, out) refl
      | inl e ↦ elim (Bool-cases (p y)) [
        | inl e' ↦ rw (e, place, e', keep-place-out x ys out) refl
        | inr e' ↦ rw (e, place, e', keep-place-out x ys out) refl
      ]
    ]

    keep-place-in :
        (x : A) (ys : List A)
        → Sorted ys
        → p x ≡ true
        → keep p (place key x ys) ≡ place key x (keep p ys)
    unfolding place
    keep-place-in x [] h within = rw within refl
    keep-place-in x (y ∷ ys) (h, hs) within = elim (Bool-cases (ltb (key y) (key x))) [
      | inr e ↦
          let le : key x ≤ key y = ground (arith, e) in
          let front =
            place-front x (keep p (y ∷ ys))
              (NotBefore-keep x (y ∷ ys) (le, NotBefore-trans x y ys le h)) in
          rw (e, place, within) (sym front)
      | inl e ↦ elim (Bool-cases (p y)) [
        | inl e' ↦ rw (e, place, e', keep-place-in x ys hs within) (rw (e, place) refl)
        | inr e' ↦ rw (e, place, e', keep-place-in x ys hs within) refl
      ]
    ]

    -- Dropping rows before a sort is as dropping them behind it.
    pub keep-ordered : (xs : List A) → keep p (ordered key xs) ≡ ordered key (keep p xs)
    unfolding ordered
    keep-ordered [] = refl
    keep-ordered (x ∷ xs) = elim (Bool-cases (p x)) [
      | inl e ↦ rw e (
          keep-place-in x (ordered key xs) (ordered-Sorted xs) e
          ∙ ap (place key x) (keep-ordered xs))
      | inr e ↦ rw e (keep-place-out x (ordered key xs) e ∙ keep-ordered xs)
    ]
