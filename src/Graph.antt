-- ===== src/Graph.antt =====
-- pkg/machine/relations.go: the graph of the Require relations and its topological sort, from which
-- NewSchema takes the topology of the resolver; and the relations of a state.
pub mod Stacks
pub mod Sorting
pub mod Acyclic
use asyncmachine_go.Base.{
  ℕ, zero, suc, Bool, true, false, not, ◌&&◌, ◌||◌, List, [], ◌∷◌, ◌++◌, String, Option, none, some,
  contains, if◌then◌else◌, string_eq, ◌==◌, length, lookup_or, put, keys, has_key,
}
use asyncmachine_go.Schema.{States, Slice, State, Schema, items, state_of}
use asyncmachine_go.Machine.{Machine}
use asyncmachine_go.Machine.Checks.{has}

-- graph.vertices: a map from a node to its neighbors.
abbrev pub Graph : Type 0
Graph = List (String × States)

-- newGraph
abbrev pub new_graph : Graph
new_graph = []

-- g.vertices[node]
abbrev pub vertices : Graph → String → States
vertices g node = lookup_or [] node g

-- graph.AddEdge
unfoldable pub add_edge : Graph → String → String → Graph
add_edge g src dest = put src (vertices g src ++ (dest ∷ [])) g

-- What TopologicalSort returns: the stack, or the state of the error. Visits run on fuel.
pub data Sorted : Type 0 where
  sorted : States → Sorted
  cycle : String → Sorted
  unfinished : Sorted

-- The loop over the neighbors of a node, which the first error ends.
unfoldable pub visit_each : (String → States → Sorted) → States → States → Sorted
visit_each visit [] stack = Sorted.sorted stack
visit_each visit (node ∷ nodes) stack = elim (visit node stack) [
  | sorted stack' ↦ visit_each visit nodes stack'
  | cycle state ↦ Sorted.cycle state
  | unfinished ↦ Sorted.unfinished
]

-- The node behind its neighbors.
unfoldable pub append_node : String → Sorted → Sorted
append_node node (Sorted.sorted stack) = Sorted.sorted (stack ++ (node ∷ []))
append_node node (Sorted.cycle state) = Sorted.cycle state
append_node node Sorted.unfinished = Sorted.unfinished

-- The closure `visit` of TopologicalSort. `marked` are the nodes with a tempMarked: they are marked
-- around the loop over the neighbors. A node is visited when it is on the stack.
unfoldable pub visit : ℕ → Graph → States → String → States → Sorted
visit zero g marked node stack = Sorted.unfinished
visit (suc n) g marked node stack = elim (contains marked node) [
  | true ↦ Sorted.cycle node
  | false ↦ elim (contains stack node) [
    | true ↦ Sorted.sorted stack
    | false ↦ append_node node (visit_each (visit n g (node ∷ marked)) (vertices g node) stack)
  ]
]

-- The outer loop skips the nodes that are visited.
unfoldable pub visit_new : ℕ → Graph → String → States → Sorted
visit_new n g node stack = elim (contains stack node) [
  | true ↦ Sorted.sorted stack
  | false ↦ visit n g [] node stack
]

-- graph.TopologicalSort, with the keys of the map in the order of the iteration. Marked nodes are keys.
unfoldable pub topological_sort : Graph → States → Sorted
topological_sort g order = visit_each (visit_new (suc (length (keys g))) g) order []

-- The loops of NewSchema.
unfoldable pub add_edges : Graph → String → States → Graph
add_edges g name [] = g
add_edges g name (req ∷ requires) = add_edges (add_edge g name req) name requires

unfoldable pub graph_of : Schema → States → Graph → Graph
graph_of schema [] g = g
graph_of schema (name ∷ names) g =
    graph_of schema names (add_edges g name (items (state_of schema name).require))

-- NewSchema, with the order in which the keys of a graph come: on a cycle the topology stays as it is.
unfoldable pub new_schema : (Graph → States) → States → Machine → Machine
new_schema order states m =
    let g = graph_of m.schema states new_graph in
    elim (topological_sort g (order g)) [
      | sorted topology ↦ record m { topology = topology }
      | _ ↦ m
    ]

-- Relation
pub data Relation : Type 0 where
  relation_after relation_add relation_require relation_remove : Relation

abbrev pub relation_if : Bool → Relation → List Relation → List Relation
relation_if on relation relations = if on then relation ∷ relations else relations

-- A relation that is not nil and has the state.
abbrev pub points_to : Slice → String → Bool
points_to none state = false
points_to (some states) state = contains states state

abbrev pub is_set : Slice → Bool
is_set none = false
is_set (some states) = true

-- RelationsBetween. The error of an unknown state is none.
unfoldable pub relations_between : Machine → String → String → Option (List Relation)
relations_between m from to =
    let state = state_of m.schema from in
    if not (has m (from ∷ []))
    then none
    else if not (has m (to ∷ []))
    then none
    else some (
        relation_if (points_to state.add to) Relation.relation_add (
          relation_if (points_to state.require to) Relation.relation_require (
            relation_if (points_to state.remove to) Relation.relation_remove
              (relation_if (points_to state.after to) Relation.relation_after []))))

-- RelationsOf
unfoldable pub relations_of : Machine → String → Option (List Relation)
relations_of m from =
    let state = state_of m.schema from in
    if not (has m (from ∷ []))
    then none
    else some (
        relation_if (is_set state.add) Relation.relation_add (
          relation_if (is_set state.require) Relation.relation_require (
            relation_if (is_set state.remove) Relation.relation_remove
              (relation_if (is_set state.after) Relation.relation_after []))))

-- The loop of InboundRelationsOf: a state comes once for each of its relations.
abbrev pub name_if : Slice → String → String → States → States
name_if slice to name rest = if contains (items slice) to then name ∷ rest else rest

unfoldable pub inbound_from : Schema → String → States
inbound_from [] to = []
inbound_from ((name, state) ∷ schema) to =
    let rest = inbound_from schema to in
    if name == to
    then rest
    else name_if state.add to name (
        name_if state.require to name
          (name_if state.remove to name (name_if state.after to name rest)))

-- InboundRelationsOf
unfoldable pub inbound_relations_of : Machine → String → Option States
inbound_relations_of m to = if not (has m (to ∷ [])) then none else some (inbound_from m.schema to)
