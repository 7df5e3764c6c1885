-- ===== src/Graph/Acyclic.antt =====
-- relations.go, TopologicalSort: a graph that it sorts has no cycle.
use asyncmachine_go.Base.{
  ◌≡◌, sym, refl, ap, subst, true, false, [], ◌∷◌, ◌++◌, String, contains, string_eq, arith,
  Bool-cases, inl, inr, IsSubset, IsDistinct, contains-append, contains_self, contains-tail, keys,
}
use asyncmachine_go.Schema.{States}
use asyncmachine_go.Graph.{Graph, Sorted, vertices, topological_sort}
use asyncmachine_go.Graph.Stacks.{Connected, IsBehind}
use asyncmachine_go.Graph.Sorting.{topological_sort_lem, vertices-key}

-- Edges stay within a list of nodes, and none of them is on a cycle.
record IsClear (g : Graph) (seen : States) : Type 0 where
  closed : (x : String) → contains seen x ≡ true → IsSubset (vertices g x) seen
  clear : (x : String) → contains seen x ≡ true → ¬ Connected g x x

-- Paths from a node stay within a list that edges do not leave.
Connected-within :
    (g : Graph) (seen : States)
    → ((x : String) → contains seen x ≡ true → IsSubset (vertices g x) seen)
    → {x y : String} → IsSubset (vertices g x) seen
    → Connected g x y
    → contains seen y ≡ true
Connected-within g seen closed first (Connected.edge {y = y} h) = first y h
Connected-within g seen closed first (Connected.behind {y = y} {z = z} path h) =
    closed y (Connected-within g seen closed first path) z h

-- A path starts at a key.
start_of : (g : Graph) {x y : String} → Connected g x y → contains (keys g) x ≡ true
start_of g (Connected.edge {x = x} {y = y} h) = vertices-key g x y h
start_of g (Connected.behind path h) = start_of g path

append_nil : (xs : States) → xs ++ [] ≡ xs
append_nil [] = refl
append_nil (x ∷ xs) = ap (x ∷◌) (append_nil xs)

append_assoc : (xs : States) (y : String) (ys : States) → (xs ++ (y ∷ [])) ++ ys ≡ xs ++ (y ∷ ys)
append_assoc [] y ys = refl
append_assoc (x ∷ xs) y ys = ap (x ∷◌) (append_assoc xs y ys)

next_IsClear :
    (g : Graph) (seen : States) (node : String)
    → IsClear g seen
    → IsSubset (vertices g node) seen
    → contains seen node ≡ false
    → IsClear g (seen ++ (node ∷ []))
unfolding contains
next_IsClear g seen node w first new =
    let alone : ¬ Connected g node node =
      λ path. ground (arith, Connected-within g seen w.closed first path, new) in
    record {
      closed = λ x m y h.
          let inside : contains seen y ≡ true = elim (Bool-cases (contains seen x)) [
            | inl on ↦ w.closed x on y h
            | inr off ↦
                let same : node ≡ x =
                  ground (arith, contains-append seen (node ∷ []) x, string_eq.beq_iff node x) in
                first y (subst (λ z. contains (vertices g z) y ≡ true) (sym same) h)
          ] in
          ground (arith, inside, contains-append seen (node ∷ []) y);
      clear = λ x m path. elim (Bool-cases (contains seen x)) [
        | inl on ↦ w.clear x on path
        | inr off ↦
            let same : node ≡ x =
              ground (arith, contains-append seen (node ∷ []) x, string_eq.beq_iff node x) in
            subst (λ y. ¬ Connected g y y) same alone path
      ];
    }

stack-IsClear :
    (g : Graph) (seen nodes : States)
    → IsClear g seen
    → IsBehind g seen nodes
    → IsDistinct nodes
    → ((x : String) → contains nodes x ≡ true → contains seen x ≡ false)
    → IsClear g (seen ++ nodes)
stack-IsClear g seen [] w behind d apart = subst (IsClear g) (sym (append_nil seen)) w
stack-IsClear g seen (node ∷ nodes) w behind d apart =
    subst (IsClear g) (append_assoc seen node nodes) (
      stack-IsClear g (seen ++ (node ∷ [])) nodes
        (next_IsClear g seen node w behind.0 (apart node (contains_self node nodes))) behind.1 d.1
        λ x m.
          unfold contains in
          ground (
            arith,
            contains-append seen (node ∷ []) x,
            apart x (contains-tail node x nodes m),
            d.0,
            string_eq.beq_iff node x,
          ))

-- When TopologicalSort returns a list for an order that has all the keys, no state of the graph is on
-- a cycle.
pub topological_sort-acyclic :
    (g : Graph) (order stack : States) (state : String)
    → IsSubset (keys g) order
    → topological_sort g order ≡ Sorted.sorted stack
    → ¬ Connected g state state
topological_sort-acyclic g order stack state within h path = elim (topological_sort_lem g order) [
  | inr (other, e, on) ↦ ground (arith)
  | inl (stack', e, w, all) ↦
      let w' =
        stack-IsClear g [] stack'
          record {
            closed = λ x m. absurd (unfold contains in ground (arith));
            clear = λ x m. absurd (unfold contains in ground (arith));
          }
          w.in_order w.distinct λ x m. unfold contains in refl in
      w'.clear state (all state (within state (start_of g path))) path
]
