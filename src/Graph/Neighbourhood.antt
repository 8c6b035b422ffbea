-- ===== src/Graph/Neighbourhood.antt =====
-- internal/store/graph.go: all the hops of `bfs`.
use dk_agent_memory.Graph.Walk.{Walk, forward, onward, expand, hops, bfs}
use dk_agent_memory.Graph.Spread.{Ends, Within, seed, IsHop, IsFull, Hopped, expand-Ends}
use dk_agent_memory.Graph.Level.{
  Within-suc, Within-le, IsLevel, IsNeighbourhood, IsNeighbourhood-level, everything,
  IsFull-IsNeighbourhood, IsLevel-next,
}
use dk_agent_memory.Base.{
  ℕ, zero, suc, ◌+◌, ◌≤◌, ◌<◌, ◌≡◌, refl, inl, inr, false, List, [], ◌∷◌, arith, ltb, ◌==◌,
  Bool-cases, length, Member, Text, is_empty, Result, here, there, ok, err,
}

module _ (adj : Text → List Text) (start : Text) where
  module _ (limit : ℕ) where
    abbrev Continues : ℕ → ℕ → ℕ → Type 0
    Continues d h depth =
        (frontier out : List Text)
        → IsLevel adj start limit h frontier out
        → IsNeighbourhood adj start limit depth (hops adj d limit frontier out out)

    forward-IsNeighbourhood :
        (d h depth : ℕ) (ids : List Text) (w : Walk)
        → h ≤ depth
        → Continues d h depth
        → w.seen ≡ w.out
        → IsLevel adj start limit h ids w.out
        → IsNeighbourhood adj start limit depth (forward adj (hops adj d limit) ids w)
    forward-IsNeighbourhood d h depth [] w le more same p = record {
      single = p.single;
      bounded = p.bounded;
      near = λ v m. Within-le adj start h depth le (p.near v m);
      full = λ k u below reach missing.
          absurd (missing (everything adj start limit h w.out p k u reach));
    }
    forward-IsNeighbourhood d h depth (id ∷ ids) w le more same p =
        rw same (more (id ∷ ids) w.out p)

    onward-IsNeighbourhood :
        (d h depth : ℕ) (frontier base : List Text) (w0 : Walk) (r : Result (List Text) Walk)
        → h < depth
        → Continues d (suc h) depth
        → IsLevel adj start limit h frontier base
        → Ends (Hopped adj start limit h base w0 frontier) (IsFull adj start limit h base) r
        → IsNeighbourhood adj start limit depth (onward adj (hops adj d limit) r)
    onward-IsNeighbourhood d h depth frontier base w0 (err out) lt more p q =
        IsFull-IsNeighbourhood adj start limit h depth base out frontier lt p q
    onward-IsNeighbourhood d h depth frontier base w0 (ok w) lt more p q =
        forward-IsNeighbourhood d (suc h) depth w.next w (omega arith) more q.0.same
          (IsLevel-next adj start limit h frontier base w w0 p q)

    IsHop-start :
        (h : ℕ) (frontier base : List Text)
        → length base < limit
        → IsLevel adj start limit h frontier base
        → IsHop adj start limit h base (record { seen = base; out = base; next = [] })
    IsHop-start h frontier base lt p = record {
      same = refl;
      single = p.single;
      short = lt;
      near = λ v m. Within-suc adj start (p.near v m);
      kept = λ v m. m;
      new = λ v m. elim m [ ];
      fresh = λ v m. inl m;
    }

    hops-IsNeighbourhood : (d h depth : ℕ) → h + d ≡ depth → Continues d h depth
    unfolding hops
    hops-IsNeighbourhood zero h depth e frontier out p =
        IsNeighbourhood-level adj start limit h depth frontier out (omega arith) (inl (omega arith))
          p
    hops-IsNeighbourhood (suc d) h depth e frontier out p =
        elim (Bool-cases (ltb (length out) limit)) [
          | inr full ↦
              let at : length out ≡ limit = ground (arith, p.bounded) in
              rw (full, hops)
                (IsNeighbourhood-level adj start limit h depth frontier out (omega arith) (inr at)
                  p)
          | inl room ↦
              let w0 : Walk = record { seen = out; out = out; next = [] } in
              rw (room, hops)
                (onward-IsNeighbourhood d h depth frontier out w0 (expand adj limit frontier w0)
                  (omega arith) (hops-IsNeighbourhood d (suc h) depth (omega arith)) p
                  (expand-Ends adj start limit h out frontier w0 (λ u m. p.near u (p.front u m))
                    (IsHop-start h frontier out (ground arith) p)))
        ]

IsLevel-first :
    (adj : Text → List Text) (start : Text) (limit : ℕ)
    → 0 < limit
    → IsLevel adj start limit 0 (start ∷ []) (start ∷ [])
IsLevel-first adj start limit h = record {
  single = (λ m. elim m [ ], tt);
  bounded = omega arith;
  near = λ v m. seed_only v m;
  complete = λ v w. only_seed v w;
  front = λ v m. m;
  closed = λ u v m n. inl m;
}
  where
    seed_only : (v : Text) → Member v (start ∷ []) → Within adj start 0 v
    seed_only _ here = seed
    seed_only v (there m) = elim m [ ]

    only_seed : (v : Text) → Within adj start 0 v → Member v (start ∷ [])
    only_seed _ seed = here

-- From a seed and with a limit above 0, the walk returns each node at most once, no more nodes than
-- the limit, and only nodes within the depth of the seed. A node within the depth that it leaves out
-- is left out because the limit is met, and is no nearer to the seed than any node returned.
pub bfs-IsNeighbourhood :
    (adj : Text → List Text) (start : Text) (depth limit : ℕ)
    → is_empty start ≡ false
    → 0 < limit
    → IsNeighbourhood adj start limit depth (bfs adj start depth limit)
unfolding bfs
bfs-IsNeighbourhood adj start depth limit named some' =
    let positive : (limit == 0) ≡ false = ground arith in
    rw (named, positive, bfs)
      (hops-IsNeighbourhood adj start limit depth 0 depth (omega arith) (start ∷ []) (start ∷ [])
        (IsLevel-first adj start limit some'))
