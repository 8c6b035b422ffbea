-- ===== src/Store/Sync.antt =====
-- internal/store/memories.go: the stream of changes that clients pull, and the counts and queues that
-- the server reads.
use dk_agent_memory.Store.Model.{
  Identity, Memory, StoreError, malformed_cursor, visibility_private, visibility_team, is_live,
  visible,
}
use dk_agent_memory.Store.Read.{clamp_limit, order_by}
use dk_agent_memory.Store.Write.{update_where}
use dk_agent_memory.Base.{
  ℕ, suc, ◌+◌, ◌≡◌, refl, ap, ◌∙◌, inl, inr, Bool, false, not, ◌&&◌, ◌||◌, Option, none, some, List,
  [], ◌∷◌, ◌++◌, map, arith, ltb, ◌==◌, if◌then◌else◌, ==_iff, Bool-cases, Option-cases, is_some,
  length, take, drop, keep, Text, text_eq, text_lt, is_empty, Result, ◌>>=◌, index_byte, ok, err,
}

-- `time.Parse` and `Format` with RFC3339Nano, in UTC.
pub record Clock : Type 0 where
  pub parse : Text → Option ℕ
  pub format : ℕ → Text

abbrev pub bar : ℕ
bar = b'|'

-- The position that a cursor names: a time and an identifier.
abbrev pub position_of : Text → Option ℕ → Result StoreError (ℕ × Text)
position_of rest none = err malformed_cursor
position_of rest (some t) = ok (t, rest)

abbrev pub split_cursor : Clock → Text → Option ℕ → Result StoreError (ℕ × Text)
split_cursor clock cursor none = err malformed_cursor
split_cursor clock cursor (some i) = position_of (drop (i + 1) cursor) (clock.parse (take i cursor))

unfoldable pub since : Clock → Text → Result StoreError (ℕ × Text)
since clock cursor =
    if is_empty cursor then ok (0, []) else split_cursor clock cursor (index_byte bar cursor)

pub record Change (Real : Type 0) : Type 0 where
  pub memory : Memory Real
  pub deleted : Bool

is_empty-append : (s : Text) (c : ℕ) (rest : Text) → is_empty (s ++ (c ∷ rest)) ≡ false
is_empty-append [] c rest = refl
is_empty-append (d ∷ s) c rest = refl

index_byte-append :
    (c : ℕ) (s rest : Text)
    → index_byte c s ≡ none
    → index_byte c (s ++ (c ∷ rest)) ≡ some (length s)
unfolding index_byte
index_byte-append c [] rest h = rw ((==_iff c c).1 refl) refl
index_byte-append c (d ∷ s) rest h = elim (Bool-cases (d == c)) [
  | inl e ↦ absurd (ground (arith, e, h))
  | inr e ↦ elim (Option-cases (index_byte c s)) [
    | inl gone ↦ rw (e, index_byte-append c s rest gone) refl
    | inr (i, found) ↦ absurd (ground (arith, e, found, h))
  ]
]

take-append : (s rest : Text) → take (length s) (s ++ rest) ≡ s
take-append [] rest = refl
take-append (c ∷ s) rest = ap (λ t. c ∷ t) (take-append s rest)

drop-append : (c : ℕ) (s rest : Text) → drop (length s + 1) (s ++ (c ∷ rest)) ≡ rest
drop-append c [] rest = refl
drop-append c (d ∷ s) rest =
    let z : suc (length s) + 1 ≡ suc (length s + 1) = omega arith in rw z (drop-append c s rest)

since-cursor :
    (clock : Clock) (t : ℕ) (id : Text)
    → clock.parse (clock.format t) ≡ some t
    → index_byte bar (clock.format t) ≡ none
    → since clock (clock.format t ++ (bar ∷ id)) ≡ ok (t, id)
unfolding since
since-cursor clock t id reads bare =
    let s = clock.format t in
    rw
      (
        is_empty-append s bar id,
        index_byte-append bar s id bare,
        take-append s (bar ∷ id),
        drop-append bar s id,
        reads,
      )
      refl

module _ {Real : Type 0} where
  -- `(m.updated_at, m.id) > (…, …)`, with identifiers compared byte by byte, as a collation of the
  -- database compares those that `ulid.New` makes.
  unfoldable pub after : ℕ × Text → Memory Real → Bool
  after (t, id) m = ltb t m.updated_at || (t == m.updated_at && text_lt id m.id)

  -- `ORDER BY m.updated_at, m.id`
  abbrev pub oldest_first : Memory Real → Memory Real → Bool
  oldest_first m n = after (m.updated_at, m.id) n

  abbrev pub change : Memory Real → Change Real
  change m = record { memory = m; deleted = is_some m.deleted_at }

  -- Where the next call goes on: behind the last row.
  abbrev pub next_cursor : Clock → Text → List (Memory Real) → Text
  next_cursor clock cursor [] = cursor
  next_cursor clock cursor (m ∷ []) = clock.format m.updated_at ++ (bar ∷ m.id)
  next_cursor clock cursor (m ∷ n ∷ ms) = next_cursor clock cursor (n ∷ ms)

  unfoldable pub changes :
      Clock
      → Identity
      → Text
      → ℕ
      → List (Memory Real)
      → Result StoreError (List (Change Real) × Text)
  changes clock id cursor limit db = do
    from ← since clock cursor
    let sent = keep (λ m. visible id m && after from m) db
    let rows = take (clamp_limit limit 1000 200) (order_by oldest_first sent)
    ok (map change rows, next_cursor clock cursor rows)

  -- The totals: all, shared, private.
  unfoldable pub count_memories : Identity → List (Memory Real) → ℕ × ℕ × ℕ
  count_memories id db =
      let seen = keep (λ m. visible id m && is_live m) db in
      (
        length seen,
        length (keep (λ m. text_eq m.visibility visibility_team) seen),
        length (keep (λ m. text_eq m.visibility visibility_private) seen),
      )

  -- `none` is an empty vector.
  unfoldable pub set_embedding : Text → Option Text → List (Memory Real) → List (Memory Real)
  set_embedding mem_id none db = db
  set_embedding mem_id (some vector) db =
      update_where (λ m. text_eq m.id mem_id) (λ m. record m { embedding = some vector }) db

  unfoldable pub pending_embeddings : ℕ → List (Memory Real) → List (Memory Real)
  pending_embeddings limit db = take (clamp_limit limit 1000 100) (
      order_by (λ m n. ltb n.created_at m.created_at)
        (keep (λ m. not (is_some m.embedding) && is_live m) db))

  next_cursor-last :
      (clock : Clock) (cursor : Text) (ms : List (Memory Real)) (m : Memory Real)
      → next_cursor clock cursor (ms ++ (m ∷ [])) ≡ clock.format m.updated_at ++ (bar ∷ m.id)
  next_cursor-last clock cursor [] m = refl
  next_cursor-last clock cursor (n ∷ []) m = refl
  next_cursor-last clock cursor (n ∷ k ∷ ms) m = next_cursor-last clock cursor (k ∷ ms) m

  -- If the time of the last row sent is printed without a bar and reads back, then the next cursor
  -- names that row's time and identifier when it comes back.
  pub since-next_cursor :
      (clock : Clock) (cursor : Text) (ms : List (Memory Real)) (m : Memory Real)
      → clock.parse (clock.format m.updated_at) ≡ some m.updated_at
      → index_byte bar (clock.format m.updated_at) ≡ none
      → since clock (next_cursor clock cursor (ms ++ (m ∷ []))) ≡ ok (m.updated_at, m.id)
  since-next_cursor clock cursor ms m reads bare =
      ap (since clock) (next_cursor-last clock cursor ms m)
      ∙ since-cursor clock m.updated_at m.id reads bare
