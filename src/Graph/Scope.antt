-- ===== src/Graph/Scope.antt =====
-- internal/store/graph.go: what `GetGraph` shows.
use dk_agent_memory.Store.Model.{Identity}
use dk_agent_memory.Graph.Walk.{bfs, has_id}
use dk_agent_memory.Graph.Spread.{Within, has_id-Member}
use dk_agent_memory.Graph.Neighbourhood.{bfs-IsNeighbourhood}
use dk_agent_memory.Graph.Query.{
  GraphNode, GraphEdge, Tables, Weights, Graph, ranked_in, ranked, node_of, edge_of, seed_id,
  adjacent, spread_from, reachable_from, ids_of, heavier_first, relatively_first, heavier_edge,
  within_ids, with_edges, whole_graph, seeded_graph, graph_limit, graph_depth, get_graph,
}
use dk_agent_memory.Base.{
  ℕ, zero, suc, ◌*◌, ◌≤◌, ◌<◌, ◌≡◌, refl, inl, inr, Bool, true, false, ◌&&◌, Option, none, some,
  List, [], ◌∷◌, arith, Bool-cases, length, take, keep, length-take, All, Member, All-Member,
  All-map, Text, text_eq, text_eq_iff, is_empty,
}

module _ {A : Type 0} (P : A → Type 0) (before : A → A → Bool) where
  All-ranked_in : (x : A) (xs : List A) → P x → All P xs → All P (ranked_in before x xs)
  unfolding ranked_in
  All-ranked_in x [] p h = (p, tt)
  All-ranked_in x (y ∷ ys) p (q, h) = elim (Bool-cases (before y x)) [
    | inl e ↦ rw e (q, All-ranked_in x ys p h)
    | inr e ↦ rw e (p, (q, h))
  ]

  All-ranked : (xs : List A) → All P xs → All P (ranked before xs)
  unfolding ranked
  All-ranked [] h = tt
  All-ranked (x ∷ xs) (p, h) = All-ranked_in x (ranked before xs) p (All-ranked xs h)

All-take : {A : Type 0} (P : A → Type 0) (n : ℕ) (xs : List A) → All P xs → All P (take n xs)
All-take P zero xs h = tt
All-take P (suc n) [] h = tt
All-take P (suc n) (x ∷ xs) (p, h) = (p, All-take P n xs h)

All-keep :
    {A : Type 0} (P : A → Type 0) (test : A → Bool) (xs : List A)
    → ((x : A) → test x ≡ true → P x)
    → All P (keep test xs)
All-keep P test [] h = tt
All-keep P test (x ∷ xs) h = elim (Bool-cases (test x)) [
  | inl e ↦ rw e (h x e, All-keep P test xs h)
  | inr e ↦ rw e (All-keep P test xs h)
]

and-true : (a b : Bool) → (a && b) ≡ true → (a ≡ true) × (b ≡ true)
and-true true true h = (refl, refl)
and-true true false h = cc
and-true false b h = cc

bfs-unnamed :
    (adj : Text → List Text) (depth limit : ℕ) (id : Text) → ¬ Member id (bfs adj [] depth limit)
unfolding bfs
bfs-unnamed adj depth limit id m = elim m [ ]

module _ {W : Type 0} (weights : Weights W) (t : Tables W) (team project : Text) where
  -- A node of the project of the team.
  abbrev pub OfProject : GraphNode W → Type 0
  OfProject n = (n.team_id ≡ team) × (n.project ≡ project)

  -- An edge of the project between two of the nodes.
  abbrev pub Joins : List Text → GraphEdge W → Type 0
  Joins ids e = (e.team_id ≡ team) × (e.project ≡ project) × Member e.src ids × Member e.dst ids

  node_of-OfProject : (n : GraphNode W) → node_of team project n ≡ true → OfProject n
  node_of-OfProject n h =
      let (a, b) = and-true (text_eq n.team_id team) (text_eq n.project project) h in
      ((text_eq_iff n.team_id team).0 a, (text_eq_iff n.project project).0 b)

  edge-Joins :
      (ids : List Text) (e : GraphEdge W)
      → (edge_of team project e && within_ids weights ids e) ≡ true
      → Joins ids e
  edge-Joins ids e h =
      let (a, b) = and-true (edge_of team project e) (within_ids weights ids e) h in
      let (c, d) = and-true (text_eq e.team_id team) (text_eq e.project project) a in
      let (f, g) = and-true (has_id e.src ids) (has_id e.dst ids) b in
      (
        (text_eq_iff e.team_id team).0 c,
        (text_eq_iff e.project project).0 d,
        has_id-Member e.src ids f,
        has_id-Member e.dst ids g,
      )

  -- A node that is near the seed's.
  abbrev pub Near : ℕ → Option Text → Text → Type 0
  Near depth none id = ⊥
  Near depth (some start) id =
      Within (adjacent (keep (edge_of team project) t.edges)) start depth id

  whole_graph-OfProject : (limit : ℕ) → All OfProject (whole_graph weights t team project limit)
  unfolding whole_graph
  whole_graph-OfProject limit =
      let rows = keep (node_of team project) t.nodes in
      All-take OfProject limit (ranked (relatively_first weights rows) rows) (
        All-ranked OfProject (relatively_first weights rows) rows
          (All-keep OfProject (node_of team project) t.nodes node_of-OfProject))

  abbrev Seeded : List Text → GraphNode W → Type 0
  Seeded reachable n = OfProject n × Member n.id reachable

  seeded_graph-Seeded :
      (reachable : List Text) (limit : ℕ)
      → All (Seeded reachable) (seeded_graph weights t team project reachable limit)
  unfolding seeded_graph
  seeded_graph-Seeded reachable limit =
      let test = λ (n : GraphNode W). node_of team project n && has_id n.id reachable in
      All-take (Seeded reachable) limit (ranked (heavier_first weights) (keep test t.nodes)) (
        All-ranked (Seeded reachable) (heavier_first weights) (keep test t.nodes) (
          All-keep (Seeded reachable) test t.nodes λ n h.
            let (a, b) = and-true (node_of team project n) (has_id n.id reachable) h in
            (node_of-OfProject n a, has_id-Member n.id reachable b)))

  spread_from-Near :
      (depth limit : ℕ) (o : Option Text) (id : Text)
      → 0 < limit
      → Member id (spread_from (keep (edge_of team project) t.edges) depth limit o)
      → Near depth o id
  spread_from-Near depth limit none id h m = elim m [ ]
  spread_from-Near depth limit (some []) id h m = absurd (bfs-unnamed _ depth limit id m)
  spread_from-Near depth limit (some (c ∷ s)) id h m =
      (bfs-IsNeighbourhood (adjacent (keep (edge_of team project) t.edges)) (c ∷ s) depth limit refl
          h).near
        id m

graph_limit-pos :
    {W : Type 0} (weights : Weights W) (limit : ℕ)
    → (0 < graph_limit weights limit) × (graph_limit weights limit ≤ 2000)
graph_limit-pos weights limit = (ground arith, ground arith)

length-take-le : {A : Type 0} (n : ℕ) (xs : List A) → length (take n xs) ≤ n
length-take-le n xs = omega (arith, length-take n xs)

module _ {W : Type 0} (weights : Weights W) (t : Tables W) (team project : Text) where
  whole_few : (cap : ℕ) → length (whole_graph weights t team project cap) ≤ cap
  unfolding whole_graph
  whole_few cap = length-take-le cap (
      ranked (relatively_first weights (keep (node_of team project) t.nodes))
        (keep (node_of team project) t.nodes))

  seeded_few :
      (reach : List Text) (cap : ℕ) → length (seeded_graph weights t team project reach cap) ≤ cap
  unfolding seeded_graph
  seeded_few reach cap = length-take-le cap (
      ranked (heavier_first weights)
        (keep (λ (n : GraphNode W). node_of team project n && has_id n.id reach) t.nodes))

  reachable_from-Near :
      (seed : Text) (depth cap : ℕ) (id : Text)
      → 0 < cap
      → Member id (reachable_from t team project seed depth cap)
      → Near weights t team project depth (seed_id seed (keep (node_of team project) t.nodes)) id
  unfolding reachable_from
  reachable_from-Near seed depth cap id h m =
      spread_from-Near weights t team project depth cap
        (seed_id seed (keep (node_of team project) t.nodes)) id h m

-- What a caller is shown of a graph.
pub record IsScoped {W : Type 0} (weights : Weights W) (t : Tables W) (id : Identity)
    (project seed : Text) (depth limit : ℕ) (g : Graph W) : Type 0 where
  pub own : All (OfProject weights t id.team_id project) g.nodes
  pub few : length g.nodes ≤ graph_limit weights limit
  pub joined : All (Joins weights t id.team_id project (ids_of g.nodes)) g.edges
  pub few_edges : length g.edges ≤ graph_limit weights limit * 4
  pub around :
      is_empty seed ≡ false
      → (n : GraphNode W) → Member n g.nodes
      → Near weights t id.team_id project
          (graph_depth weights depth)
          (seed_id seed (keep (node_of id.team_id project) t.nodes))
          n.id

module _ {W : Type 0} (weights : Weights W) (t : Tables W) (id : Identity) (project seed : Text)
    (depth limit : ℕ) where
  shown-IsScoped :
      (ns : List (GraphNode W))
      → All (OfProject weights t id.team_id project) ns
      → length ns ≤ graph_limit weights limit
      → (is_empty seed ≡ false
          → (n : GraphNode W) → Member n ns
          → Near weights t id.team_id project
              (graph_depth weights depth)
              (seed_id seed (keep (node_of id.team_id project) t.nodes))
              n.id)
      → IsScoped weights t id project seed depth limit
          (with_edges weights t id.team_id project (graph_limit weights limit) ns)
  shown-IsScoped ns own few around =
      let cap = graph_limit weights limit in
      let test =
        λ (e : GraphEdge W). edge_of id.team_id project e && within_ids weights (ids_of ns) e in
      record {
        own = own;
        few = few;
        joined =
            All-take (Joins weights t id.team_id project (ids_of ns)) (cap * 4)
              (ranked (heavier_edge weights) (keep test t.edges))
              (All-ranked (Joins weights t id.team_id project (ids_of ns)) (heavier_edge weights)
                (keep test t.edges)
                (All-keep (Joins weights t id.team_id project (ids_of ns)) test t.edges
                  (edge-Joins weights t id.team_id project (ids_of ns))));
        few_edges = length-take-le (cap * 4) (ranked (heavier_edge weights) (keep test t.edges));
        around = around;
      }

  -- A graph shows only nodes of the caller's team and of the project, at most as many as the limit,
  -- and at most four times as many edges, each of the same team and project and between two of the
  -- nodes shown. With a seed, each node is within the depth of the seed's node along edges of the
  -- project.
  pub get_graph-IsScoped :
      IsScoped weights t id project seed depth limit
        (get_graph weights t id project seed depth limit)
  unfolding get_graph
  get_graph-IsScoped =
      let team = id.team_id in
      let cap = graph_limit weights limit in
      let reach = reachable_from t team project seed (graph_depth weights depth) cap in
      elim (Bool-cases (is_empty seed)) [
        | inl whole ↦
            rw (whole, get_graph)
              (shown-IsScoped (whole_graph weights t team project cap)
                (whole_graph-OfProject weights t team project cap)
                (whole_few weights t team project cap) (λ given. absurd (cc)))
        | inr given ↦
            let rows = seeded_graph-Seeded weights t team project reach cap in
            rw (given, get_graph)
              (shown-IsScoped (seeded_graph weights t team project reach cap)
                (All-map (Seeded weights t team project reach) (OfProject weights t team project)
                  (λ n h. h.0) _ rows)
                (seeded_few weights t team project reach cap)
                (λ _ n m.
                  reachable_from-Near weights t team project seed (graph_depth weights depth) cap
                    n.id (graph_limit-pos weights limit).0
                    (All-Member (Seeded weights t team project reach) rows m).1))
      ]
