-- ===== src/Base/Lists.antt =====
-- Lists measured and indexed by native numbers, under the library's names, and predicates on all
-- or some of the elements.
use Prim.Native.Nat.{ℕ, zero, suc, ◌+◌, ◌-◌, min}
use mathlib.Core.Path.{◌≡◌}
use mathlib.Core.Logic.{◌⊎◌, inl, inr}
use mathlib.Core.Bool.{Bool, true, false, ◌&&◌, ◌||◌}
use mathlib.Core.List.{List, [], ◌∷◌, ◌++◌}
use native.Mathlib.Omega.{arith}
use dk_agent_memory.Base.Tests.{if◌then◌else◌}

module _ {ℓ} {A : Type ℓ} where
  abbrev pub length : List A → ℕ
  length [] = 0
  length (x ∷ xs) = suc (length xs)

  abbrev pub get_or : List A → ℕ → A → A
  get_or [] i d = d
  get_or (x ∷ xs) zero d = x
  get_or (x ∷ xs) (suc i) d = get_or xs i d

  abbrev pub take : ℕ → List A → List A
  take zero xs = []
  take (suc n) [] = []
  take (suc n) (x ∷ xs) = x ∷ take n xs

  abbrev pub drop : ℕ → List A → List A
  drop zero xs = xs
  drop (suc n) [] = []
  drop (suc n) (x ∷ xs) = drop n xs

  -- Elements that pass a test, in order.
  abbrev pub keep : (A → Bool) → List A → List A
  keep p [] = []
  keep p (x ∷ xs) = if p x then x ∷ keep p xs else keep p xs

  abbrev pub any : (A → Bool) → List A → Bool
  any p [] = false
  any p (x ∷ xs) = p x || any p xs

  abbrev pub all : (A → Bool) → List A → Bool
  all p [] = true
  all p (x ∷ xs) = p x && all p xs

  pub length-append : (xs ys : List A) → length (xs ++ ys) ≡ length xs + length ys
  length-append [] ys = omega arith
  length-append (x ∷ xs) ys = omega (arith, length-append xs ys)

  pub length-take : (n : ℕ) (xs : List A) → length (take n xs) ≡ min n (length xs)
  length-take zero xs = omega arith
  length-take (suc n) [] = omega arith
  length-take (suc n) (x ∷ xs) = omega (arith, length-take n xs)

  pub length-drop : (n : ℕ) (xs : List A) → length (drop n xs) ≡ length xs - n
  length-drop zero xs = omega arith
  length-drop (suc n) [] = omega arith
  length-drop (suc n) (x ∷ xs) = omega (arith, length-drop n xs)

  pub drop-drop : (m n : ℕ) (xs : List A) → drop m (drop n xs) ≡ drop (n + m) xs
  drop-drop m zero xs = let z : zero + m ≡ m = omega arith in rw z
  drop-drop zero (suc n) [] = let z : suc n + zero ≡ suc (n + zero) = omega arith in rw z
  drop-drop (suc m) (suc n) [] = let z : suc n + suc m ≡ suc (n + suc m) = omega arith in rw z
  drop-drop m (suc n) (x ∷ xs) =
      let z : suc n + m ≡ suc (n + m) = omega arith in rw z (drop-drop m n xs)

module _ {ℓ κ} {A : Type ℓ} (P : A → Type κ) where
  abbrev pub All : List A → Type κ
  All [] = Unit
  All (x ∷ xs) = P x × All xs

  pub All-append : (xs ys : List A) → All xs → All ys → All (xs ++ ys)
  All-append [] ys _ hy = hy
  All-append (x ∷ xs) ys (px, hx) hy = (px, All-append xs ys hx hy)

module _ {ℓ} {A : Type ℓ} where
  -- Where an element stands in a list.
  pub data Member (a : A) : List A → Type ℓ where
    here : {xs : List A} → Member a (a ∷ xs)
    there : {x : A} {xs : List A} → Member a xs → Member a (x ∷ xs)

  pub Member-append_left : {a : A} (xs ys : List A) → Member a xs → Member a (xs ++ ys)
  Member-append_left [] ys m = elim m [ ]
  Member-append_left (x ∷ xs) ys here = here
  Member-append_left (x ∷ xs) ys (there m) = there (Member-append_left xs ys m)

  pub Member-append_right : {a : A} (xs ys : List A) → Member a ys → Member a (xs ++ ys)
  Member-append_right [] ys m = m
  Member-append_right (x ∷ xs) ys m = there (Member-append_right xs ys m)

  pub Member-split : {a : A} (xs ys : List A) → Member a (xs ++ ys) → Member a xs ⊎ Member a ys
  Member-split [] ys m = inr m
  Member-split (x ∷ xs) ys here = inl here
  Member-split (x ∷ xs) ys (there m) = elim (Member-split xs ys m) [
    | inl h ↦ inl (there h)
    | inr h ↦ inr h
  ]

module _ {ℓ κ} {A : Type ℓ} (P : A → Type κ) where
  pub All-Member : {a : A} {xs : List A} → All P xs → Member a xs → P a
  All-Member h here = h.0
  All-Member h (there m) = All-Member h.1 m

module _ {ℓ κ κ'} {A : Type ℓ} (P : A → Type κ) (Q : A → Type κ') (f : (a : A) → P a → Q a) where
  pub All-map : (xs : List A) → All P xs → All Q xs
  All-map [] h = tt
  All-map (x ∷ xs) h = (f x h.0, All-map xs h.1)
