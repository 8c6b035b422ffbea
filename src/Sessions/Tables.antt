-- ===== src/Sessions/Tables.antt =====
-- The tables `sessions`, `observations` and `consolidation_runs`, as lists of rows whose order means nothing.
use dk_agent_memory.Base.{
  ℕ, Bool, ◌||◌, Option, none, some, List, [], ◌∷◌, ltb, ◌==◌, if◌then◌else◌, Text,
}

-- internal/store/models.go
pub record SessionRow : Type 0 where
  pub id : Text
  pub team_id : Text
  pub user_id : Text
  pub project : Text
  pub agent : Text
  pub started_at : ℕ
  pub ended_at : Option ℕ
  pub summary : Option Text
  pub summarised_at : Option ℕ
  pub facts_extracted_at : Option ℕ
  pub meta : Text

pub record ObservationRow : Type 0 where
  pub id : Text
  pub session_id : Text
  pub team_id : Text
  pub user_id : Text
  pub project : Text
  pub kind : Text
  pub content : Text
  pub files : List Text
  pub redacted : Bool
  pub created_at : ℕ

pub record RunRow : Type 0 where
  pub id : Text
  pub tier : ℕ
  pub team_id : Option Text
  pub project : Option Text
  pub started_at : ℕ
  pub finished_at : Option ℕ
  pub items : ℕ
  pub produced : ℕ
  pub deduped : ℕ
  pub input_tokens : ℕ
  pub output_tokens : ℕ
  pub error : Option Text

-- `ORDER BY` of a key, rows with equal keys in the order of the table.
module _ {A : Type 0} (key : A → ℕ) where
  unfoldable pub place : A → List A → List A
  place x [] = x ∷ []
  place x (y ∷ ys) = let rest = place x ys in if ltb (key y) (key x) then y ∷ rest else x ∷ y ∷ ys

  unfoldable pub ordered : List A → List A
  unfolding place
  ordered [] = []
  ordered (x ∷ xs) = place x (ordered xs)

  -- `ORDER BY key DESC`
  unfoldable pub place_desc : A → List A → List A
  place_desc x [] = x ∷ []
  place_desc x (y ∷ ys) =
      let rest = place_desc x ys in if ltb (key x) (key y) then y ∷ rest else x ∷ y ∷ ys

  unfoldable pub ordered_desc : List A → List A
  unfolding place_desc
  ordered_desc [] = []
  ordered_desc (x ∷ xs) = place_desc x (ordered_desc xs)

-- `limit <= 0 || limit > most`
abbrev pub within : ℕ → ℕ → ℕ → ℕ
within limit most usual = if limit == 0 || ltb most limit then usual else limit

-- The time of an optional column; only rows that have it are ordered by it.
abbrev pub time_or_zero : Option ℕ → ℕ
time_or_zero none = 0
time_or_zero (some t) = t

-- `UPDATE ... WHERE`
unfoldable pub update : {A : Type 0} → (A → Bool) → (A → A) → List A → List A
update chosen change [] = []
update chosen change (x ∷ xs) = (if chosen x then change x else x) ∷ update chosen change xs

unfoldable pub find_row : {A : Type 0} → (A → Bool) → List A → Option A
find_row chosen [] = none
find_row chosen (x ∷ xs) = let rest = find_row chosen xs in if chosen x then some x else rest
