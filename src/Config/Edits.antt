-- ===== src/Config/Edits.antt =====
-- internal/config/strict.go: edits of one text into another, and a cell of `levenshtein`'s table.
use dk_agent_memory.Config.Distance.{min3}
use mathlib.Core.Path.{subst}
use dk_agent_memory.Base.{
  ℕ, suc, ◌+◌, ◌≤◌, ◌≡◌, sym, ◌⊎◌, inl, inr, [], ◌∷◌, arith, ◌==◌, if◌then◌else◌, ==_iff,
  Bool-cases, Text,
}

-- A way to turn the first text into the one_second, and how many bytes it removes, inserts or replaces.
pub data Edits : Text → Text → ℕ → Type 0 where
  done : Edits [] [] 0
  same : {a b : Text} {k : ℕ} (x : ℕ) → Edits a b k → Edits (x ∷ a) (x ∷ b) k
  remove : {a b : Text} {k : ℕ} (x : ℕ) → Edits a b k → Edits (x ∷ a) b (suc k)
  insert : {a b : Text} {k : ℕ} (y : ℕ) → Edits a b k → Edits a (y ∷ b) (suc k)
  replace : {a b : Text} {k : ℕ} (x y : ℕ) → Edits a b k → Edits (x ∷ a) (y ∷ b) (suc k)

-- The least number of edits.
pub record IsLeast (a b : Text) (n : ℕ) : Type 0 where
  pub attained : Edits a b n
  pub least : (k : ℕ) → Edits a b k → n ≤ k

min3-cases : (a b c : ℕ) → (min3 a b c ≤ a) × (min3 a b c ≤ b) × (min3 a b c ≤ c)
unfolding min3
min3-cases a b c = (ground arith, ground arith, ground arith)

min3-one : (a b c : ℕ) → (min3 a b c ≡ a) ⊎ ((min3 a b c ≡ b) ⊎ (min3 a b c ≡ c))
unfolding min3
min3-one a b c = ground arith

abbrev pub cost : ℕ → ℕ → ℕ
cost x y = if x == y then 0 else 1

cost_self : (x : ℕ) → cost x x ≡ 0
cost_self x = ground arith

-- The cell from the cells to its left, above it and between.
pub cell_least :
    (x y l u d : ℕ) (a b : Text)
    → IsLeast (x ∷ a) b l
    → IsLeast a (y ∷ b) u
    → IsLeast a b d
    → (k : ℕ) → Edits (x ∷ a) (y ∷ b) k
    → min3 (l + 1) (u + 1) (d + cost x y) ≤ k
cell_least x _ l u d a b left up diagonal k (same _ e) =
    omega (arith, min3-cases (l + 1) (u + 1) (d + cost x x), diagonal.least k e, cost_self x)
cell_least x y l u d a b left up diagonal (suc k) (remove _ e) =
    omega (arith, min3-cases (l + 1) (u + 1) (d + cost x y), up.least k e)
cell_least x y l u d a b left up diagonal (suc k) (insert _ e) =
    omega (arith, min3-cases (l + 1) (u + 1) (d + cost x y), left.least k e)
cell_least x y l u d a b left up diagonal (suc k) (replace _ _ e) =
    let price : cost x y ≤ 1 = ground arith in
    omega (arith, min3-cases (l + 1) (u + 1) (d + cost x y), diagonal.least k e, price)

replaced_byte : (x y d : ℕ) (a b : Text) → Edits a b d → Edits (x ∷ a) (y ∷ b) (d + cost x y)
replaced_byte x y d a b e = elim (Bool-cases (x == y)) [
  | inl h ↦
      let p : d ≡ d + cost x y = ground arith in
      subst (λ n. Edits (x ∷ a) (y ∷ b) n) p
        (subst (λ z. Edits (x ∷ a) (z ∷ b) d) ((==_iff x y).0 h) (same x e))
  | inr h ↦
      let p : suc d ≡ d + cost x y = ground arith in
      subst (λ n. Edits (x ∷ a) (y ∷ b) n) p (replace x y e)
]

pub cell_attained :
    (x y l u d : ℕ) (a b : Text)
    → IsLeast (x ∷ a) b l
    → IsLeast a (y ∷ b) u
    → IsLeast a b d
    → Edits (x ∷ a) (y ∷ b) (min3 (l + 1) (u + 1) (d + cost x y))
cell_attained x y l u d a b left up diagonal = elim (min3-one (l + 1) (u + 1) (d + cost x y)) [
  | inl e ↦
      let p : suc l ≡ min3 (l + 1) (u + 1) (d + cost x y) = omega (arith, e) in
      subst (λ n. Edits (x ∷ a) (y ∷ b) n) p (insert y left.attained)
  | inr (inl e) ↦
      let p : suc u ≡ min3 (l + 1) (u + 1) (d + cost x y) = omega (arith, e) in
      subst (λ n. Edits (x ∷ a) (y ∷ b) n) p (remove x up.attained)
  | inr (inr e) ↦
      subst (λ n. Edits (x ∷ a) (y ∷ b) n) (sym e) (replaced_byte x y d a b diagonal.attained)
]
