-- ===== src/Client/Cache.antt =====
-- internal/client/mirror.go: the changes of the server merged into the local copy of the memories.
use dk_agent_memory.Store.Model.{Memory}
use dk_agent_memory.Store.Sync.{Change}
use dk_agent_memory.Base.{
  ℕ, zero, suc, ◌+◌, Bool, true, false, not, Option, none, some, List, [], ◌∷◌, ◌++◌, if◌then◌else◌,
  length, keep, Text, text_eq, is_empty,
}

-- The positions of the identifiers, the last one where an identifier stands twice.
abbrev pub Index : Type 0
Index = Text → Option ℕ

unfoldable pub put_index : Text → ℕ → Index → Index
put_index id i index other = if text_eq id other then some i else index other

module _ {Real : Type 0} where
  unfoldable pub index_from : ℕ → List (Memory Real) → Index → Index
  unfolding put_index
  index_from i [] index = index
  index_from i (m ∷ ms) index = index_from (i + 1) ms (put_index m.id i index)

  unfoldable pub touch : ℕ → (Memory Real → Memory Real) → List (Memory Real) → List (Memory Real)
  touch i f [] = []
  touch zero f (m ∷ ms) = f m ∷ ms
  touch (suc i) f (m ∷ ms) = m ∷ touch i f ms

  abbrev pub unnamed : Memory Real → Memory Real
  unnamed m = record m { id = [] }

  -- A row that is deleted loses its identifier; the others keep their positions.
  unfoldable pub removed : Option ℕ → List (Memory Real) × Index → List (Memory Real) × Index
  unfolding touch
  removed none state = state
  removed (some i) (rows, index) = (touch i unnamed rows, index)

  unfoldable pub replaced_or_added :
      Memory Real → Option ℕ → List (Memory Real) × Index → List (Memory Real) × Index
  unfolding touch put_index
  replaced_or_added m none (rows, index) = (rows ++ m ∷ [], put_index m.id (length rows) index)
  replaced_or_added m (some i) (rows, index) = (touch i (λ old. m) rows, index)

  unfoldable pub apply_one :
      Bool → Memory Real → List (Memory Real) × Index → List (Memory Real) × Index
  unfolding removed replaced_or_added
  apply_one true m (rows, index) = removed (index m.id) (rows, index)
  apply_one false m (rows, index) = replaced_or_added m (index m.id) (rows, index)

  unfoldable pub apply_changes :
      List (Change Real) → List (Memory Real) × Index → List (Memory Real) × Index
  unfolding apply_one
  apply_changes [] state = state
  apply_changes (ch ∷ chs) state = apply_changes chs (apply_one ch.deleted ch.memory state)

  -- `Apply` on the rows of the file.
  unfoldable pub merged : List (Change Real) → List (Memory Real) → List (Memory Real)
  unfolding apply_changes index_from
  merged chs rows =
      keep (λ (m : Memory Real). not (is_empty m.id))
        (apply_changes chs (rows, index_from 0 rows (λ id. none))).0

  -- The row of an identifier.
  unfoldable pub cached : Text → List (Memory Real) → Option (Memory Real)
  cached id [] = none
  cached id (m ∷ ms) = let rest = cached id ms in if text_eq m.id id then some m else rest
