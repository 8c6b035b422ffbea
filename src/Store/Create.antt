-- ===== src/Store/Create.antt =====
-- internal/store/memories.go: `Validate`, `firstLine` and `CreateMemory`.
use dk_agent_memory.Ulid
use dk_agent_memory.Redact
use dk_agent_memory.Redact.{Finding}
use dk_agent_memory.Store.Model.{
  Env, Identity, Memory, StoreError, invalid_id, bad_kind, bad_visibility, no_content,
  check_violation, foreign_key_violation, kind_fact, visibility_private, source_manual, valid_kind,
  valid_visibility, valid_source, content_hash, is_live, clash, find, scan_memory,
}
use dk_agent_memory.Base.{
  ℕ, ◌/◌, Bool, true, false, not, ◌&&◌, ◌||◌, Option, none, some, List, [], ◌∷◌, ◌++◌, ltb,
  if◌then◌else◌, length, take, Text, text_eq, is_empty, Result, ◌>>=◌, ◌>>◌, refuse_if, trim_space,
  index_byte, last_index_byte, ok, err,
}

pub record MemoryInput : Type 0 where
  pub id : Text
  pub kind : Text
  pub title : Text
  pub body : Text
  pub project : Text
  pub files : List Text
  pub visibility : Text
  pub source : Text
  pub session_id : Option Text
  pub embedding : Option Text

abbrev pub or_default : Text → Text → Text
or_default s fallback = if is_empty s then fallback else s

-- The ellipsis in UTF-8.
abbrev ellipsis : Text
ellipsis = 0xe2 ∷ 0x80 ∷ 0xa6 ∷ []

-- Where a long title is cut: at the last blank, if that is not too far to the left. `LastIndexByte`
-- is -1 where there is none, which lies below `max / 2` as well.
unfoldable pub cut_at : Text → ℕ → ℕ
cut_at s max = elim (last_index_byte b' ' (take max s)) [
  | none ↦ max
  | some i ↦ if ltb i (max / 2) then max else i
]

abbrev pub up_to : Option ℕ → Text → Text
up_to none s = s
up_to (some i) s = take i s

unfoldable pub first_line : Text → ℕ → Text
unfolding cut_at
first_line s max =
    let line = up_to (index_byte b'\n' (trim_space s)) (trim_space s) in
    if ltb max (length line) then trim_space (take (cut_at line max) line) ++ ellipsis else line

abbrev pub invalid : Text → Option Ulid.Invalid
invalid id = if is_empty id then none else Ulid.validate id

abbrev pub refuse_invalid : Option Ulid.Invalid → Result StoreError Unit
refuse_invalid none = ok tt
refuse_invalid (some e) = err (invalid_id e)

-- `Validate` fills in defaults, so it returns the input that it leaves.
unfoldable pub validate : MemoryInput → Result StoreError MemoryInput
validate input = do
  refuse_invalid (invalid input.id)
  let kind = or_default input.kind kind_fact
  refuse_if (not (valid_kind kind)) bad_kind
  let visibility = or_default input.visibility visibility_private
  refuse_if (not (valid_visibility visibility)) bad_visibility
  let no_title = is_empty (trim_space input.title)
  refuse_if (no_title && is_empty (trim_space input.body)) no_content
  ok (record input {
    kind = kind;
    title = if no_title then first_line input.body 120 else input.title;
    visibility = visibility;
    source = or_default input.source source_manual;
  })

module _ (env : Env) where
  -- `redact.Apply`, if the configuration asks for it.
  unfoldable pub redact : Text → Text × List Finding
  redact s = if env.redaction_enabled then Redact.apply env.find_all s else (s, [])

  -- The row of the INSERT. `fresh` is `ulid.New()`, and `now` the time of the transaction.
  unfoldable pub new_row : Text → ℕ → Identity → MemoryInput → Memory env.Real
  new_row fresh now id input =
      let (title, in_title) = redact input.title in
      let (body, in_body) = redact input.body in
      let findings = in_title ++ in_body in
      record {
        id = or_default input.id fresh;
        team_id = id.team_id;
        user_id = id.user_id;
        project = input.project;
        kind = input.kind;
        title = title;
        body = body;
        files = input.files;
        visibility = input.visibility;
        strength = env.default_strength;
        hits = 0;
        source = input.source;
        session_id = input.session_id;
        redacted = not (elim findings [ [] ↦ true | _ ↦ false ]);
        redactions = findings;
        superseded_by = none;
        deleted_at = none;
        created_at = now;
        updated_at = now;
        last_used_at = none;
        content_hash = content_hash env title body;
        embedding = input.embedding;
      }

  -- The foreign key of the column `session_id`.
  abbrev refers : Option Text → Bool
  refers none = true
  refers (some s) = env.session_exists s

  -- A row with the same primary key, or a live one with the same dedup key.
  unfoldable pub conflicts : Memory env.Real → List (Memory env.Real) → Bool
  conflicts row [] = false
  conflicts row (m ∷ ms) = (text_eq row.id m.id || clash row m) || conflicts row ms

  -- `INSERT … ON CONFLICT DO NOTHING RETURNING …`: `none` is no row returned.
  unfoldable pub insert_row :
      Memory env.Real → List (Memory env.Real) → Result StoreError (Option (List (Memory env.Real)))
  insert_row row db = do
    refuse_if
        (not (valid_kind row.kind && (valid_visibility row.visibility && valid_source row.source)))
        check_violation
    if conflicts row db
        then ok none
        else do refuse_if (not (refers row.session_id)) foreign_key_violation; ok (some (row ∷ db))

  unfoldable pub get_memory_unscoped : Text → List (Memory env.Real) → Option (Memory env.Real)
  get_memory_unscoped id db = find (λ m. text_eq m.id id) db

  unfoldable pub find_by_content_hash :
      Identity → Text → Text → List (Memory env.Real) → Option (Memory env.Real)
  find_by_content_hash id project hash db =
      find
        (λ m.
          text_eq m.team_id id.team_id
          && (text_eq m.user_id id.user_id
              && (text_eq m.project project && (text_eq m.content_hash hash && is_live m))))
        db

  -- The row that a conflict leads to: first by the identifier, then by the content.
  unfoldable pub existing :
      Identity → Memory env.Real → List (Memory env.Real) → Result StoreError (Memory env.Real)
  existing id row db = elim (get_memory_unscoped row.id db) [
    | some m ↦ ok m
    | none ↦ scan_memory (find_by_content_hash id row.project row.content_hash db)
  ]

  abbrev pub Created : Type 0
  Created = Memory env.Real × Bool × List (Memory env.Real)

  abbrev pub settle :
      Identity
      → Memory env.Real
      → List (Memory env.Real)
      → Option (List (Memory env.Real))
      → Result StoreError Created
  settle id row db (some db') = ok (row, true, db')
  settle id row db none = do m ← existing id row db; ok (m, false, db)

  -- The memory, whether it was newly created, and the table. An error leaves the table as it was.
  unfoldable pub create_memory :
      Text → ℕ → Identity → MemoryInput → List (Memory env.Real) → Result StoreError Created
  create_memory fresh now id input db = do
    checked ← validate input
    let row = new_row fresh now id checked
    inserted ← insert_row row db
    settle id row db inserted
