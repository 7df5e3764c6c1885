-- ===== src/Tests/Graphs.antt =====
-- The theorems on the graph of Require relations, at small graphs.
use asyncmachine_go.Base.{
  ◌≡◌, refl, [], ◌∷◌, ◌⊎◌, contains, IsSubset, keys, lookup, put, string_eq, String,
}
use asyncmachine_go.Schema.{States}
use asyncmachine_go.Graph.{
  Graph, Sorted, topological_sort, visit_each, visit_new, visit, append_node, graph_of, new_graph,
  add_edges, add_edge,
}
use asyncmachine_go.Graph.Stacks.{Connected, IsStacked}
use asyncmachine_go.Graph.Sorting.{topological_sort_lem}
use asyncmachine_go.Graph.Acyclic.{topological_sort-acyclic}
use asyncmachine_go.Tests.Fixtures.{schema}

-- C requires B, and both require A.
abbrev chain : Graph
chain = ("C", "B" ∷ "A" ∷ []) ∷ ("B", "A" ∷ []) ∷ []

abbrev ring : Graph
ring = ("A", "B" ∷ []) ∷ ("B", "A" ∷ []) ∷ []

chain_eq : topological_sort chain ("C" ∷ "B" ∷ []) ≡ Sorted.sorted ("A" ∷ "B" ∷ "C" ∷ [])
unfolding topological_sort visit_each visit_new visit append_node contains lookup keys
chain_eq = refl

ring_eq : topological_sort ring ("A" ∷ "B" ∷ []) ≡ Sorted.cycle "A"
unfolding topological_sort visit_each visit_new visit append_node contains lookup keys
ring_eq = refl

-- The graph of the fixtures: D requires A.
graph_of_test : graph_of schema ("A" ∷ "B" ∷ "C" ∷ "D" ∷ []) new_graph ≡ ("D", "A" ∷ []) ∷ []
unfolding graph_of add_edges add_edge put lookup
graph_of_test = refl

topological_sort_lem_example :
    ((stack : States) × (topological_sort ring ("A" ∷ "B" ∷ []) ≡ Sorted.sorted stack)
      × IsStacked ring stack
      × IsSubset ("A" ∷ "B" ∷ []) stack)
    ⊎ ((state : String) × (topological_sort ring ("A" ∷ "B" ∷ []) ≡ Sorted.cycle state)
        × Connected ring state state)
topological_sort_lem_example = topological_sort_lem ring ("A" ∷ "B" ∷ [])

topological_sort-acyclic_example : ¬ Connected chain "B" "B"
unfolding contains keys
topological_sort-acyclic_example =
    topological_sort-acyclic chain ("C" ∷ "B" ∷ []) ("A" ∷ "B" ∷ "C" ∷ []) "B" (λ a h. h) chain_eq
