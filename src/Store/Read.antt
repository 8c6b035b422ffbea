-- ===== src/Store/Read.antt =====
-- internal/store/memories.go: the queries. `ORDER BY` is an insertion sort, `LIMIT` is `take`.
use dk_agent_memory.Ulid
use dk_agent_memory.Store.Model.{
  Identity, Memory, StoreError, bad_cursor, kind_lesson, visibility_team, is_live, is_current,
  visible, find, scan_memory,
}
use dk_agent_memory.Base.{
  ℕ, ◌+◌, Bool, true, false, not, ◌&&◌, ◌||◌, none, some, List, [], ◌∷◌, ltb, ◌==◌, if◌then◌else◌,
  length, take, keep, Text, text_eq, text_lt, is_empty, Result, ok, err,
}

pub record ListFilter : Type 0 where
  pub project : Text
  pub kinds : List Text
  pub include_superseded : Bool
  pub mine_only : Bool
  pub limit : ℕ
  pub cursor : Text

-- `if limit <= 0 || limit > most { limit = usual }`
abbrev pub clamp_limit : ℕ → ℕ → ℕ → ℕ
clamp_limit limit most usual = if limit == 0 || ltb most limit then usual else limit

-- `cond IS DISTINCT FROM ''` guards of the queries: an empty value does not filter.
abbrev pub unless_empty : Text → Bool → Bool
unless_empty s b = is_empty s || b

abbrev pub any_of : List Text → Text → Bool
any_of [] k = false
any_of (x ∷ xs) k = text_eq k x || any_of xs k

abbrev pub no_kinds : List Text → Bool
no_kinds [] = true
no_kinds (k ∷ ks) = false

module _ {Real : Type 0} where
  -- The later element of the order comes behind.
  unfoldable pub insert_by :
      (Memory Real → Memory Real → Bool) → Memory Real → List (Memory Real) → List (Memory Real)
  insert_by before x [] = x ∷ []
  insert_by before x (y ∷ ys) =
      let rest = insert_by before x ys in if before y x then y ∷ rest else x ∷ y ∷ ys

  unfoldable pub order_by :
      (Memory Real → Memory Real → Bool) → List (Memory Real) → List (Memory Real)
  order_by before [] = []
  order_by before (x ∷ xs) = insert_by before x (order_by before xs)

  -- `ORDER BY m.id DESC`
  abbrev pub newest_first : Memory Real → Memory Real → Bool
  newest_first m n = text_lt n.id m.id

  unfoldable pub get_memory : Identity → Text → List (Memory Real) → Result StoreError (Memory Real)
  get_memory id mem_id db =
      scan_memory (find (λ m. visible id m && (text_eq m.id mem_id && is_live m)) db)

  -- The WHERE clause that `ListMemories` builds.
  unfoldable pub listed : Identity → ListFilter → Memory Real → Bool
  listed id f m =
      visible id m
      && (is_live m
          && (unless_empty f.project (text_eq m.project f.project)
              && ((no_kinds f.kinds || any_of f.kinds m.kind)
                  && ((f.include_superseded || is_current m)
                      && ((not f.mine_only || text_eq m.user_id id.user_id)
                          && unless_empty f.cursor (text_lt m.id f.cursor))))))

  -- The identifier of the last row.
  pub last_id : List (Memory Real) → Text
  last_id [] = []
  last_id (m ∷ []) = m.id
  last_id (m ∷ n ∷ ms) = last_id (n ∷ ms)

  -- One more row than the page tells whether there are more.
  unfoldable pub page : ℕ → List (Memory Real) → List (Memory Real) × Text
  page limit rows =
      if ltb limit (length (take (limit + 1) rows))
      then (take limit rows, last_id (take limit rows))
      else (take (limit + 1) rows, [])

  unfoldable pub list_memories :
      Identity → ListFilter → List (Memory Real) → Result StoreError (List (Memory Real) × Text)
  list_memories id f db =
      let result =
        page (clamp_limit f.limit 500 50) (order_by newest_first (keep (listed id f) db)) in
      elim (if is_empty f.cursor then none else Ulid.validate f.cursor) [
        | some e ↦ err (bad_cursor e)
        | none ↦ ok result
      ]

  unfoldable pub fed : Identity → Text → Memory Real → Bool
  fed id project m =
      text_eq m.team_id id.team_id
      && (text_eq m.visibility visibility_team
          && (not (text_eq m.user_id id.user_id)
              && (is_live m && (is_current m && unless_empty project (text_eq m.project project)))))

  -- `ORDER BY m.updated_at DESC`
  unfoldable pub feed : Identity → Text → ℕ → List (Memory Real) → List (Memory Real)
  feed id project limit db =
      take (clamp_limit limit 200 20)
        (order_by (λ m n. ltb n.updated_at m.updated_at) (keep (fed id project) db))

  unfoldable pub lesson_for : Identity → Text → Memory Real → Bool
  lesson_for id project m =
      visible id m
      && (text_eq m.kind kind_lesson
          && (is_live m
              && (is_current m
                  && unless_empty project (text_eq m.project project || is_empty m.project))))

  -- `ORDER BY m.strength DESC, m.updated_at DESC`: `stronger` compares the column `strength`.
  unfoldable pub lessons :
      (stronger : Real → Real → Bool)
      → Identity
      → Text
      → ℕ
      → List (Memory Real)
      → List (Memory Real)
  lessons stronger id project limit db = take (clamp_limit limit 200 50) (
      order_by
        (λ m n.
          stronger m.strength n.strength
          || not (stronger n.strength m.strength) && ltb n.updated_at m.updated_at)
        (keep (lesson_for id project) db))
