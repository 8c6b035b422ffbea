-- ===== src/Graph/Level.antt =====
-- internal/store/graph.go: what `bfs` has found between two hops.
use mathlib.Core.Path.{subst}
use dk_agent_memory.Graph.Walk.{Walk}
use dk_agent_memory.Graph.Spread.{NoRepeat, Grows, Within, seed, hop, IsFull, Hopped}
use dk_agent_memory.Base.{
  ℕ, zero, suc, ◌+◌, ◌-◌, ◌≤◌, ◌<◌, ◌≡◌, ◌⊎◌, inl, inr, List, [], arith, trichotomy, length, Member,
  Text,
}

module _ (adj : Text → List Text) (start : Text) where
  pub Within-suc : {n : ℕ} {v : Text} → Within adj start n v → Within adj start (suc n) v
  Within-suc seed = seed
  Within-suc (hop w m) = hop (Within-suc w) m

  Within-add : (d n : ℕ) {v : Text} → Within adj start n v → Within adj start (d + n) v
  Within-add zero n {v} w =
      let e : n ≡ zero + n = omega arith in subst (λ k. Within adj start k v) e w
  Within-add (suc d) n {v} w =
      let e : suc (d + n) ≡ suc d + n = omega arith in
      subst (λ k. Within adj start k v) e (Within-suc (Within-add d n w))

  pub Within-le : (n k : ℕ) {v : Text} → n ≤ k → Within adj start n v → Within adj start k v
  Within-le n k {v} h w =
      let e : (k - n) + n ≡ k = omega arith in
      subst (λ j. Within adj start j v) e (Within-add (k - n) n w)

  module _ (limit : ℕ) where
    -- Between two hops, `h` of them done.
    pub record IsLevel (h : ℕ) (frontier out : List Text) : Type 0 where
      pub single : NoRepeat out
      pub bounded : length out ≤ limit
      pub near : (v : Text) → Member v out → Within adj start h v
      pub complete : (v : Text) → Within adj start h v → Member v out
      pub front : Grows frontier out
      pub closed : (u v : Text) → Member u out → Member v (adj u) → Member u frontier ⊎ Member v out

    -- The nodes that lie near: no more hops away than any other node that the depth reaches.
    pub record IsNeighbourhood (depth : ℕ) (out : List Text) : Type 0 where
      pub single : NoRepeat out
      pub bounded : length out ≤ limit
      pub near : (v : Text) → Member v out → Within adj start depth v
      pub full :
          (k : ℕ) (u : Text)
          → k ≤ depth
          → Within adj start k u
          → ¬ Member u out
          → (length out ≡ limit) × ((v : Text) → Member v out → Within adj start k v)

    -- A level that is not extended, because it is full or deep enough.
    pub IsNeighbourhood-level :
        (h depth : ℕ) (frontier out : List Text)
        → h ≤ depth
        → (h ≡ depth) ⊎ (length out ≡ limit)
        → IsLevel h frontier out
        → IsNeighbourhood depth out
    IsNeighbourhood-level h depth frontier out le why p = record {
      single = p.single;
      bounded = p.bounded;
      near = λ v m. Within-le h depth le (p.near v m);
      full = λ k u below reach missing. elim (trichotomy k h) [
        | inl less ↦ absurd (missing (p.complete u (Within-le k h (omega arith) reach)))
        | inr (inl e) ↦ absurd (missing (p.complete u (Within-le k h (omega arith) reach)))
        | inr (inr more) ↦ elim why [
          | inl e ↦ absurd (omega arith)
          | inr e ↦ (e, λ v m. Within-le h k (omega arith) (p.near v m))
        ]
      ];
    }

    pub everything :
        (h : ℕ) (out : List Text)
        → IsLevel h [] out
        → (k : ℕ) (v : Text) → Within adj start k v
        → Member v out
    everything h out p k _ seed = p.complete start seed
    everything h out p (suc k) v (hop {u} w m) = elim (p.closed u v (everything h out p k u w) m) [
      | inl waits ↦ elim waits [ ]
      | inr got ↦ got
    ]

    pub IsFull-IsNeighbourhood :
        (h depth : ℕ) (base out frontier : List Text)
        → h < depth
        → IsLevel h frontier base
        → IsFull adj start limit h base out
        → IsNeighbourhood depth out
    IsFull-IsNeighbourhood h depth base out frontier lt p q = record {
      single = q.single;
      bounded = omega (arith, q.full);
      near = λ v m. Within-le (suc h) depth (omega arith) (q.near v m);
      full = λ k u below reach missing. elim (trichotomy k h) [
        | inl less ↦ absurd (missing (q.kept u (p.complete u (Within-le k h (omega arith) reach))))
        | inr (inl e) ↦
            absurd (missing (q.kept u (p.complete u (Within-le k h (omega arith) reach))))
        | inr (inr more) ↦ (q.full, λ v m. Within-le (suc h) k (omega arith) (q.near v m))
      ];
    }

    reached :
        (h : ℕ) (frontier base : List Text) (w w0 : Walk)
        → IsLevel h frontier base
        → Hopped adj start limit h base w0 frontier w
        → (v : Text) → Within adj start (suc h) v
        → Member v w.out
    reached h frontier base w w0 p (q, grown, spread) _ seed = q.kept start (p.complete start seed)
    reached h frontier base w w0 p (q, grown, spread) v (hop {u} r m) =
        elim (p.closed u v (p.complete u r) m) [
          | inl waits ↦ spread u v waits m
          | inr got ↦ q.kept v got
        ]

    pub IsLevel-next :
        (h : ℕ) (frontier base : List Text) (w w0 : Walk)
        → IsLevel h frontier base
        → Hopped adj start limit h base w0 frontier w
        → IsLevel (suc h) w.next w.out
    IsLevel-next h frontier base w w0 p s =
        let (q, grown, spread) = s in
        record {
          single = q.single;
          bounded = omega (arith, q.short);
          near = q.near;
          complete = reached h frontier base w w0 p s;
          front = q.new;
          closed = λ u v m n. elim (q.fresh u m) [
            | inr new ↦ inl new
            | inl old ↦ elim (p.closed u v old n) [
              | inl waits ↦ inr (spread u v waits n)
              | inr got ↦ inr (q.kept v got)
            ]
          ];
        }
