-- ===== src/Graph/Tests.antt =====
-- A small graph, and walks over it.
use dk_agent_memory.Store.Model.{Identity}
use dk_agent_memory.Graph.Walk.{bfs, hops, expand, visit_all, visit, has_id}
use dk_agent_memory.Graph.Level.{IsNeighbourhood}
use dk_agent_memory.Graph.Neighbourhood.{bfs-IsNeighbourhood}
use dk_agent_memory.Graph.Query.{
  GraphNode, GraphEdge, Tables, Weights, adjacent, get_graph, seeded_graph, reachable_from, seed_id,
  ids_of, ranked, ranked_in,
}
use dk_agent_memory.Graph.Scope.{IsScoped, get_graph-IsScoped}
use dk_agent_memory.Base.{
  ℕ, ◌*◌, ◌/◌, ◌≡◌, refl, false, none, some, [], ◌∷◌, ◌++◌, arith, ltb, ◌==◌, if◌then◌else◌, Text,
  codes, text_eq,
}

abbrev node : Text → Text → ℕ → GraphNode ℕ
node project id weight = record {
  id = id;
  team_id = codes "team";
  project = project;
  kind = codes "file";
  label = id;
  weight = weight;
}

abbrev edge : Text → Text → GraphEdge ℕ
edge src dst = record {
  id = src ++ dst;
  team_id = codes "team";
  project = codes "p";
  src = src;
  dst = dst;
  rel = codes "co_occurs";
  weight = 1;
}

-- a - b - c - d in one project, and a node of another.
abbrev tables : Tables ℕ
tables = record {
  nodes =
      node (codes "p") (codes "a") 4
      ∷ node (codes "p") (codes "b") 3
      ∷ node (codes "p") (codes "c") 2
      ∷ node (codes "p") (codes "d") 1
      ∷ node (codes "q") (codes "e") 9
      ∷ [];
  edges =
      edge (codes "a") (codes "b")
      ∷ edge (codes "b") (codes "c")
      ∷ edge (codes "c") (codes "d")
      ∷ [];
}

abbrev weights : Weights ℕ
weights = record {
  heavier = λ (a b : ℕ). ltb b a;
  relative = λ (a b : ℕ). if b == 0 then none else some (a * 1000 / b);
}

abbrev caller : Identity
caller = record {
  key_id = codes "k";
  user_id = codes "u";
  user_name = codes "n";
  team_id = codes "team";
  is_admin = false;
}

two_hops : bfs (adjacent tables.edges) (codes "a") 2 500 ≡ codes "a" ∷ codes "b" ∷ codes "c" ∷ []
unfolding bfs hops expand visit_all visit has_id adjacent text_eq
two_hops = refl

three_nodes : bfs (adjacent tables.edges) (codes "b") 6 3 ≡ codes "b" ∷ codes "a" ∷ codes "c" ∷ []
unfolding bfs hops expand visit_all visit has_id adjacent text_eq
three_nodes = refl

bfs-IsNeighbourhood_example :
    IsNeighbourhood
      (adjacent tables.edges)
      (codes "b")
      3
      6
      (bfs (adjacent tables.edges) (codes "b") 6 3)
bfs-IsNeighbourhood_example =
    bfs-IsNeighbourhood (adjacent tables.edges) (codes "b") 6 3 refl (omega arith)

shown :
    ids_of (get_graph weights tables caller (codes "p") (codes "d") 1 0).nodes
    ≡ codes "c" ∷ codes "d" ∷ []
unfolding get_graph seeded_graph reachable_from seed_id ids_of ranked ranked_in bfs hops expand
    visit_all visit has_id adjacent text_eq
shown = refl

get_graph-IsScoped_example :
    IsScoped weights tables caller
      (codes "p")
      (codes "d")
      1
      0
      (get_graph weights tables caller (codes "p") (codes "d") 1 0)
get_graph-IsScoped_example = get_graph-IsScoped weights tables caller (codes "p") (codes "d") 1 0
