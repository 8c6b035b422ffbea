-- ===== src/Store/Model.antt =====
-- internal/store/models.go and the helpers of store.go: rows, callers, closed vocabularies, the
-- content hash; and the parameters that stand for code outside the repository.
use dk_agent_memory.Redact.{Finding}
use dk_agent_memory.Ulid.{Invalid}
use dk_agent_memory.Base.{
  ℕ, Bool, not, ◌&&◌, ◌||◌, Option, none, some, List, [], ◌∷◌, ◌++◌, map, if◌then◌else◌, is_some,
  Text, codes, text_eq, Result, to_lower, fields, join, ok, err,
}

abbrev pub kind_fact : Text
kind_fact = codes "fact"

abbrev pub kind_decision : Text
kind_decision = codes "decision"

abbrev pub kind_lesson : Text
kind_lesson = codes "lesson"

abbrev pub kind_preference : Text
kind_preference = codes "preference"

abbrev pub visibility_private : Text
visibility_private = codes "private"

abbrev pub visibility_team : Text
visibility_team = codes "team"

abbrev pub source_manual : Text
source_manual = codes "manual"

unfoldable pub valid_kind : Text → Bool
valid_kind k =
    text_eq k kind_fact
    || text_eq k kind_decision
    || text_eq k kind_lesson
    || text_eq k kind_preference

unfoldable pub valid_visibility : Text → Bool
valid_visibility v = text_eq v visibility_private || text_eq v visibility_team

-- The CHECK constraint of the column `source`.
unfoldable pub valid_source : Text → Bool
valid_source s =
    text_eq s source_manual
    || text_eq s (codes "consolidation")
    || text_eq s (codes "import")
    || text_eq s (codes "hook")

pub record Identity : Type 0 where
  pub key_id : Text
  pub user_id : Text
  pub user_name : Text
  pub team_id : Text
  pub is_admin : Bool

-- A row. `Real` is the type of the column `strength`; a time is a number of microseconds.
pub record Memory (Real : Type 0) : Type 0 where
  pub id : Text
  pub team_id : Text
  pub user_id : Text
  pub project : Text
  pub kind : Text
  pub title : Text
  pub body : Text
  pub files : List Text
  pub visibility : Text
  pub strength : Real
  pub hits : ℕ
  pub source : Text
  pub session_id : Option Text
  pub redacted : Bool
  pub redactions : List Finding
  pub superseded_by : Option Text
  pub deleted_at : Option ℕ
  pub created_at : ℕ
  pub updated_at : ℕ
  pub last_used_at : Option ℕ
  pub content_hash : Text
  pub embedding : Option Text

pub data StoreError : Type 0 where
  invalid_id : Invalid → StoreError
  bad_kind bad_visibility no_content : StoreError
  not_found forbidden conflict self_supersede : StoreError
  check_violation foreign_key_violation : StoreError
  bad_cursor : Invalid → StoreError
  malformed_cursor : StoreError

-- What the store uses and does not implement: arithmetic on the column `strength`, SHA-256 in
-- hexadecimal, the matches of the redaction rules, the configuration, and the rows of `sessions`.
pub record Env : Type 1 where
  pub Real : Type 0
  pub default_strength : Real
  pub reinforced : Real → Real
  pub sha256_hex : Text → Text
  pub find_all : ℕ → Text → List (Option (ℕ × ℕ))
  pub redaction_enabled : Bool
  pub session_exists : Text → Bool

-- `strings.Join(strings.Fields(strings.ToLower(s)), " ")`
unfoldable pub normalise : Text → Text
normalise s = join (codes " ") (fields (map to_lower s))

unfoldable pub content_hash : Env → Text → Text → Text
content_hash env title body = env.sha256_hex (normalise title ++ (0 ∷ normalise body))

module _ {Real : Type 0} where
  -- `deleted_at IS NULL`
  abbrev pub is_live : Memory Real → Bool
  is_live m = not (is_some m.deleted_at)

  -- `superseded_by IS NULL`
  abbrev pub is_current : Memory Real → Bool
  is_current m = not (is_some m.superseded_by)

  -- `visibleClause`
  unfoldable pub visible : Identity → Memory Real → Bool
  visible id m =
      text_eq m.team_id id.team_id
      && (text_eq m.user_id id.user_id || text_eq m.visibility visibility_team)

  -- `team_id = $1 AND user_id = $2`
  unfoldable pub owned : Identity → Memory Real → Bool
  owned id m = text_eq m.team_id id.team_id && text_eq m.user_id id.user_id

  -- The columns of the unique index `memories_dedup_idx`.
  unfoldable pub same_key : Memory Real → Memory Real → Bool
  same_key m n =
      text_eq m.team_id n.team_id
      && (text_eq m.user_id n.user_id
          && (text_eq m.project n.project && text_eq m.content_hash n.content_hash))

  -- Two rows that the unique index does not allow together.
  unfoldable pub clash : Memory Real → Memory Real → Bool
  clash m n = is_live m && (is_live n && same_key m n)

  -- The first row that a query finds.
  unfoldable pub find : (Memory Real → Bool) → List (Memory Real) → Option (Memory Real)
  find p [] = none
  find p (m ∷ ms) = if p m then some m else find p ms

  -- `scanMemory` on a query for one row.
  abbrev pub scan_memory : Option (Memory Real) → Result StoreError (Memory Real)
  scan_memory none = err not_found
  scan_memory (some m) = ok m
