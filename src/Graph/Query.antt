-- ===== src/Graph/Query.antt =====
-- internal/store/graph.go: `GetGraph` and `reachableFrom`.
--
-- Weights are a type `W`; `heavier` compares two, and `relative` divides one by the heaviest of its
-- kind, with `none` for NULL. Failures of the database are left out.
use dk_agent_memory.Store.Model.{Identity}
use dk_agent_memory.Graph.Walk.{bfs, has_id}
use dk_agent_memory.Base.{
  ℕ, ◌*◌, Bool, true, false, not, ◌&&◌, ◌||◌, Option, none, some, List, [], ◌∷◌, ◌++◌, ltb, ◌==◌,
  if◌then◌else◌, take, keep, Text, text_eq, text_lt, is_empty,
}

pub record GraphNode (W : Type 0) : Type 0 where
  pub id : Text
  pub team_id : Text
  pub project : Text
  pub kind : Text
  pub label : Text
  pub weight : W

pub record GraphEdge (W : Type 0) : Type 0 where
  pub id : Text
  pub team_id : Text
  pub project : Text
  pub src : Text
  pub dst : Text
  pub rel : Text
  pub weight : W

-- The tables `graph_nodes` and `graph_edges`.
pub record Tables (W : Type 0) : Type 0 where
  pub nodes : List (GraphNode W)
  pub edges : List (GraphEdge W)

pub record Weights (W : Type 0) : Type 0 where
  pub heavier : W → W → Bool
  pub relative : W → W → Option W

pub record Graph (W : Type 0) : Type 0 where
  pub nodes : List (GraphNode W)
  pub edges : List (GraphEdge W)

module _ {A : Type 0} (before : A → A → Bool) where
  unfoldable pub ranked_in : A → List A → List A
  ranked_in x [] = x ∷ []
  ranked_in x (y ∷ ys) = let rest = ranked_in x ys in if before y x then y ∷ rest else x ∷ y ∷ ys

  -- `ORDER BY`
  unfoldable pub ranked : List A → List A
  unfolding ranked_in
  ranked [] = []
  ranked (x ∷ xs) = ranked_in x (ranked xs)

module _ {W : Type 0} where
  -- `WHERE team_id = $1 AND project = $2`
  abbrev pub node_of : Text → Text → GraphNode W → Bool
  node_of team project n = text_eq n.team_id team && text_eq n.project project

  abbrev pub edge_of : Text → Text → GraphEdge W → Bool
  edge_of team project e = text_eq e.team_id team && text_eq e.project project

  -- The identifier of the first node with a label.
  unfoldable pub seed_id : Text → List (GraphNode W) → Option Text
  seed_id label [] = none
  seed_id label (n ∷ ns) = if text_eq n.label label then some n.id else seed_id label ns

  -- `adj[id]`: each edge leads both ways, in the order of the rows.
  unfoldable pub adjacent : List (GraphEdge W) → Text → List Text
  adjacent [] id = []
  adjacent (e ∷ es) id =
      (if text_eq e.src id then e.dst ∷ [] else [])
      ++ ((if text_eq e.dst id then e.src ∷ [] else []) ++ adjacent es id)

  abbrev pub spread_from : List (GraphEdge W) → (depth limit : ℕ) → Option Text → List Text
  spread_from es depth limit none = []
  spread_from es depth limit (some start) = bfs (adjacent es) start depth limit

  unfoldable pub reachable_from : Tables W → Text → Text → Text → (depth limit : ℕ) → List Text
  unfolding seed_id adjacent
  reachable_from t team project seed depth limit =
      spread_from (keep (edge_of team project) t.edges) depth limit
        (seed_id seed (keep (node_of team project) t.nodes))

  -- The identifiers of the rows.
  unfoldable pub ids_of : List (GraphNode W) → List Text
  ids_of [] = []
  ids_of (n ∷ ns) = n.id ∷ ids_of ns

  module _ (weights : Weights W) where
    -- `max(weight) OVER (PARTITION BY kind)`
    unfoldable pub heaviest : Text → W → List (GraphNode W) → W
    heaviest kind top [] = top
    heaviest kind top (n ∷ ns) =
        heaviest kind
          (if text_eq n.kind kind && weights.heavier n.weight top then n.weight else top) ns

    abbrev pub relative_weight : List (GraphNode W) → GraphNode W → Option W
    relative_weight rows n = weights.relative n.weight (heaviest n.kind n.weight rows)

    -- `weight DESC, label`
    abbrev pub heavier_first : GraphNode W → GraphNode W → Bool
    heavier_first m n =
        weights.heavier m.weight n.weight
        || (not (weights.heavier n.weight m.weight) && text_lt m.label n.label)

    -- `rel DESC NULLS LAST`, then what `later` says.
    abbrev pub by_relative : Option W → Option W → Bool → Bool
    by_relative none none later = later
    by_relative none (some r) later = false
    by_relative (some q) none later = true
    by_relative (some q) (some r) later =
        weights.heavier q r || (not (weights.heavier r q) && later)

    abbrev pub relatively_first : List (GraphNode W) → GraphNode W → GraphNode W → Bool
    relatively_first rows m n =
        by_relative (relative_weight rows m) (relative_weight rows n) (heavier_first m n)

    abbrev pub heavier_edge : GraphEdge W → GraphEdge W → Bool
    heavier_edge d e = weights.heavier d.weight e.weight

    abbrev pub within_ids : List Text → GraphEdge W → Bool
    within_ids ids e = has_id e.src ids && has_id e.dst ids

    abbrev pub with_edges : Tables W → Text → Text → ℕ → List (GraphNode W) → Graph W
    with_edges t team project limit ns = record {
      nodes = ns;
      edges = take (limit * 4) (
          ranked heavier_edge (
            keep (λ (e : GraphEdge W). edge_of team project e && within_ids (ids_of ns) e)
              t.edges));
    }

    unfoldable pub whole_graph : Tables W → Text → Text → ℕ → List (GraphNode W)
    whole_graph t team project limit =
        let rows = keep (node_of team project) t.nodes in
        take limit (ranked (relatively_first rows) rows)

    unfoldable pub seeded_graph : Tables W → Text → Text → List Text → ℕ → List (GraphNode W)
    seeded_graph t team project reachable limit = take limit (
        ranked heavier_first
          (keep (λ (n : GraphNode W). node_of team project n && has_id n.id reachable) t.nodes))

    -- The limit and the depth that are used; an integer below 0 acts like 0.
    abbrev pub graph_limit : ℕ → ℕ
    graph_limit limit = if limit == 0 || ltb 2000 limit then 500 else limit

    abbrev pub graph_depth : ℕ → ℕ
    graph_depth depth = if depth == 0 then 2 else if ltb 6 depth then 6 else depth

    -- `GetGraph`: no nodes are no edges.
    unfoldable pub get_graph : Tables W → Identity → Text → Text → (depth limit : ℕ) → Graph W
    unfolding whole_graph seeded_graph reachable_from
    get_graph t id project seed depth limit = with_edges t id.team_id project (graph_limit limit) (
        if is_empty seed
        then whole_graph t id.team_id project (graph_limit limit)
        else seeded_graph t id.team_id project
            (reachable_from t id.team_id project seed (graph_depth depth) (graph_limit limit))
            (graph_limit limit))
