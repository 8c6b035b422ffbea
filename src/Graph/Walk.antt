-- ===== src/Graph/Walk.antt =====
-- internal/store/graph.go: `bfs`.
--
-- The map `adj` is a function, with no neighbours where it has no key, and the map `seen` the list of
-- its keys. An integer below 0 acts like 0 as a depth and as a limit, so both are natural numbers.
use dk_agent_memory.Base.{
  ℕ, zero, suc, Bool, false, ◌||◌, List, [], ◌∷◌, ◌++◌, ltb, leb, ◌==◌, if◌then◌else◌, length, Text,
  text_eq, is_empty, Result, ◌>>=◌, ok, err,
}

unfoldable pub has_id : Text → List Text → Bool
has_id id [] = false
has_id id (x ∷ xs) = text_eq id x || has_id id xs

-- `seen`, `out` and `next`
pub record Walk : Type 0 where
  pub seen : List Text
  pub out : List Text
  pub next : List Text

abbrev pub visited : Text → Walk → Walk
visited nb w = record { seen = w.seen ++ nb ∷ []; out = w.out ++ nb ∷ []; next = w.next ++ nb ∷ [] }

-- The body of the innermost loop; an error is a list that is returned at once.
unfoldable pub visit : ℕ → Text → Walk → Result (List Text) Walk
visit limit nb w =
    if has_id nb w.seen
    then ok w
    else if leb limit (length (w.out ++ nb ∷ []))
    then err (w.out ++ nb ∷ [])
    else ok (visited nb w)

unfoldable pub visit_all : ℕ → List Text → Walk → Result (List Text) Walk
unfolding visit
visit_all limit [] w = ok w
visit_all limit (nb ∷ nbs) w = visit limit nb w >>= visit_all limit nbs

module _ (adj : Text → List Text) where
  unfoldable pub expand : ℕ → List Text → Walk → Result (List Text) Walk
  unfolding visit_all
  expand limit [] w = ok w
  expand limit (id ∷ frontier) w = visit_all limit (adj id) w >>= expand limit frontier

  -- The next hop, from what this one found new, unless that is nothing.
  abbrev pub forward :
      (List Text → List Text → List Text → List Text) → List Text → Walk → List Text
  forward more [] w = w.out
  forward more (id ∷ ids) w = more (id ∷ ids) w.seen w.out

  abbrev pub onward :
      (List Text → List Text → List Text → List Text) → Result (List Text) Walk → List Text
  onward more (err out) = out
  onward more (ok w) = forward more w.next w

  unfoldable pub hops : (depth limit : ℕ) → (frontier seen out : List Text) → List Text
  unfolding expand
  hops zero limit frontier seen out = out
  hops (suc depth) limit frontier seen out =
      let walked =
        onward (hops depth limit)
          (expand limit frontier (record { seen = seen; out = out; next = [] })) in
      if ltb (length out) limit then walked else out

  unfoldable pub bfs : Text → (depth limit : ℕ) → List Text
  unfolding hops
  bfs start depth limit =
      if is_empty start || limit == 0
      then []
      else hops depth limit (start ∷ []) (start ∷ []) (start ∷ [])
