-- ===== src/Config/Distance.antt =====
-- internal/config/strict.go: `levenshtein` and `suggest`.
--
-- A row of the table is a list. `fill_row` writes the cells of a row from the left; what the array held
-- before is overwritten before it is read.
use dk_agent_memory.Base.{
  ℕ, suc, ◌+◌, ◌/◌, Option, none, some, List, [], ◌∷◌, ◌++◌, map, ltb, ◌==◌, if◌then◌else◌, length,
  get_or, Text, text_eq, is_empty, to_lower,
}

unfoldable pub min3 : ℕ → ℕ → ℕ → ℕ
min3 a b c = let least = if ltb b a then b else a in if ltb c least then c else least

-- The row's first cells: 0, 1, 2, ...
unfoldable pub first_row : ℕ → Text → List ℕ
first_row n [] = n ∷ []
first_row n (y ∷ b) = n ∷ first_row (suc n) b

-- The cells behind `left`, for a byte `x` of the first text; `prev` begins above `left`.
unfoldable pub fill_row : ℕ → Text → List ℕ → ℕ → List ℕ
unfolding min3
fill_row x (y ∷ b) (diagonal ∷ above ∷ prev) left =
    let cell = min3 (left + 1) (above + 1) (diagonal + (if x == y then 0 else 1)) in
    cell ∷ fill_row x b (above ∷ prev) cell
fill_row x b prev left = []

unfoldable pub table_rows : ℕ → Text → Text → List ℕ → List ℕ
unfolding fill_row
table_rows i [] b prev = prev
table_rows i (x ∷ a) b prev = table_rows (suc i) a b (i ∷ fill_row x b prev i)

unfoldable pub levenshtein : Text → Text → ℕ
unfolding table_rows first_row
levenshtein a b =
    if text_eq a b
    then 0
    else if is_empty a
    then length b
    else if is_empty b
    then length a
    else get_or (table_rows 1 a b (first_row 0 b)) (length b) 0

-- The nearest key so far and its distance, `none` standing for the 1 << 30 before the first.
abbrev pub nearer : Text → Text → Option (Text × ℕ) → Option (Text × ℕ)
nearer got k none = some (k, levenshtein (map to_lower got) (map to_lower k))
nearer got k (some (best, best_dist)) =
    let d = levenshtein (map to_lower got) (map to_lower k) in
    if ltb d best_dist then some (k, d) else some (best, best_dist)

unfoldable pub nearest : Text → List Text → Option (Text × ℕ) → Option (Text × ℕ)
nearest got [] best = best
nearest got (k ∷ known) best = nearest got known (nearer got k best)

abbrev pub dotted : Text → Text → Text
dotted path key = if is_empty path then key else path ++ (b'.' ∷ key)

-- `len(best)/4 + 1`
abbrev pub within_limit : Text → Option (Text × ℕ) → Text
within_limit path none = []
within_limit path (some (best, best_dist)) =
    if ltb (length best / 4 + 1) best_dist then [] else dotted path best

unfoldable pub suggest : Text → List Text → Text → Text
unfolding nearest
suggest got known path = within_limit path (nearest got known none)
