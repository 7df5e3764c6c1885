-- ===== src/Graph/Stacks.antt =====
-- relations.go, TopologicalSort: what the visit of a node does to the stack.
use asyncmachine_go.Base.{
  ◌≡◌, refl, subst, true, false, [], ◌∷◌, ◌++◌, String, contains, string_eq, arith, Bool-cases, inl,
  inr, IsSubset, IsDistinct, contains-append, contains_self, contains-tail, contains-cons_cases,
}
use asyncmachine_go.Schema.{States}
use asyncmachine_go.Graph.{
  Graph, Sorted, vertices, visit_each, append_node, sorted, cycle, unfinished,
}

-- A path of one edge or more.
pub data Connected (g : Graph) : String → String → Type 0 where
  edge : {x y : String} → contains (vertices g x) y ≡ true → Connected g x y
  behind : {x y z : String} → Connected g x y → contains (vertices g y) z ≡ true → Connected g x z

-- Every node of a list has its neighbors among `seen` and the nodes before it.
abbrev pub IsBehind : Graph → States → States → Type 0
IsBehind g seen [] = Unit
IsBehind g seen (node ∷ nodes) =
    IsSubset (vertices g node) seen × IsBehind g (seen ++ (node ∷ [])) nodes

pub IsBehind-append :
    (g : Graph) (seen nodes : States) (node : String)
    → IsBehind g seen nodes
    → IsSubset (vertices g node) (seen ++ nodes)
    → IsBehind g seen (nodes ++ (node ∷ []))
unfolding contains
IsBehind-append g seen [] node h last =
    (λ a m. ground (arith, last a m, contains-append seen [] a), tt)
IsBehind-append g seen (x ∷ nodes) node h last = (
  h.0,
  IsBehind-append g (seen ++ (x ∷ [])) nodes node h.1 λ a m. ground (
    arith,
    last a m,
    contains-append seen (x ∷ nodes) a,
    contains-append (seen ++ (x ∷ [])) nodes a,
    contains-append seen (x ∷ []) a,
    contains-append (x ∷ []) nodes a,
  ),
)

IsDistinct-append :
    (nodes : States) (node : String)
    → IsDistinct nodes
    → contains nodes node ≡ false
    → IsDistinct (nodes ++ (node ∷ []))
unfolding contains
IsDistinct-append [] node d h = (refl, tt)
IsDistinct-append (x ∷ nodes) node d h = (
  ground (
    arith,
    d.0,
    contains-append nodes (node ∷ []) x,
    string_eq.beq_iff node x,
    string_eq.beq_iff x node,
  ),
  IsDistinct-append nodes node d.1 (ground (arith)),
)

-- A stack of distinct nodes behind their neighbors.
pub record IsStacked (g : Graph) (stack : States) : Type 0 where
  pub distinct : IsDistinct stack
  pub in_order : IsBehind g [] stack

-- What a visit of some nodes adds to a stack: the nodes, and none that is marked.
pub record IsGrown (g : Graph) (marked nodes stack stack' : States) : Type 0 where
  pub keeps : IsSubset stack stack'
  pub fresh :
      (x : String) → contains stack' x ≡ true → contains marked x ≡ true → contains stack x ≡ true
  pub all : IsSubset nodes stack'
  pub stacked : IsStacked g stack'

-- A visit ends with such a stack, or with a state on a cycle.
unfoldable pub IsResult : Graph → States → States → States → Sorted → Type 0
IsResult g marked nodes stack (Sorted.sorted stack') = IsGrown g marked nodes stack stack'
IsResult g marked nodes stack (Sorted.cycle state) = Connected g state state
IsResult g marked nodes stack Sorted.unfinished = ⊥

grown_more :
    (g : Graph) (marked : States) (x : String) (nodes stack s : States) (r : Sorted)
    → IsGrown g marked (x ∷ []) stack s
    → IsResult g marked nodes s r
    → IsResult g marked (x ∷ nodes) stack r
unfolding IsResult
grown_more g marked x nodes stack s (Sorted.sorted stack') first rest = record {
  keeps = λ a m. rest.keeps a (first.keeps a m);
  fresh = λ a new m. first.fresh a (rest.fresh a new m) m;
  all = λ a m. elim (contains-cons_cases x nodes a m) [
    | inl same ↦
        rest.keeps a
          (first.all a (subst (λ y. contains (x ∷ []) y ≡ true) same (contains_self x [])))
    | inr (other, m') ↦ rest.all a m'
  ];
  stacked = rest.stacked;
}
grown_more g marked x nodes stack s (Sorted.cycle state) first rest = rest
grown_more g marked x nodes stack s Sorted.unfinished first rest = rest

-- The loop behind the visit of its first node.
visit_rest :
    (g : Graph) (marked : States) (f : String → States → Sorted) (x : String) (nodes stack : States)
    (r : Sorted)
    → IsResult g marked (x ∷ []) stack r
    → ((s : States) → IsStacked g s → IsResult g marked nodes s (visit_each f nodes s))
    → IsResult g marked (x ∷ nodes) stack (elim r [
      | sorted s ↦ visit_each f nodes s
      | cycle state ↦ Sorted.cycle state
      | unfinished ↦ Sorted.unfinished
    ])
unfolding IsResult
visit_rest g marked f x nodes stack (Sorted.sorted s) first rest =
    grown_more g marked x nodes stack s (visit_each f nodes s) first (rest s first.stacked)
visit_rest g marked f x nodes stack (Sorted.cycle state) first rest = first
visit_rest g marked f x nodes stack Sorted.unfinished first rest = first

pub visit_each-IsResult :
    (g : Graph) (marked : States) (f : String → States → Sorted) (nodes stack : States)
    → ((x : String) (s : States)
        → contains nodes x ≡ true
        → IsStacked g s
        → IsResult g marked (x ∷ []) s (f x s))
    → IsStacked g stack
    → IsResult g marked nodes stack (visit_each f nodes stack)
unfolding visit_each IsResult
visit_each-IsResult g marked f [] stack each w = record {
  keeps = λ a m. m;
  fresh = λ x new m. new;
  all = λ a m. absurd (unfold contains in ground (arith));
  stacked = w;
}
visit_each-IsResult g marked f (x ∷ nodes) stack each w =
    visit_rest g marked f x nodes stack (f x stack) (each x stack (contains_self x nodes) w) λ s w'.
      visit_each-IsResult g marked f nodes s (λ y t m. each y t (contains-tail x y nodes m)) w'

-- A node that is visited already.
pub stacked-IsResult :
    (g : Graph) (marked : States) (node : String) (stack : States)
    → contains stack node ≡ true
    → IsStacked g stack
    → IsResult g marked (node ∷ []) stack (Sorted.sorted stack)
unfolding IsResult
stacked-IsResult g marked node stack old w = record {
  keeps = λ a m. m;
  fresh = λ x new m. new;
  all = λ a m. elim (contains-cons_cases node [] a m) [
    | inl same ↦ subst (λ y. contains stack y ≡ true) same old
    | inr (other, none_left) ↦ absurd (unfold contains in ground (arith))
  ];
  stacked = w;
}

-- A visit appends its node behind the neighbors.
pub append_node-IsResult :
    (g : Graph) (marked : States) (node : String) (stack : States) (r : Sorted)
    → contains marked node ≡ false
    → contains stack node ≡ false
    → IsResult g (node ∷ marked) (vertices g node) stack r
    → IsResult g marked (node ∷ []) stack (append_node node r)
unfolding IsResult append_node contains
append_node-IsResult g marked node stack (Sorted.sorted s) free new grown =
    let fresh : contains s node ≡ false = elim (Bool-cases (contains s node)) [
      | inr out ↦ out
      | inl on ↦ absurd (ground (arith, grown.fresh node on (contains_self node marked)))
    ] in
    record {
      keeps = λ a m. ground (arith, contains-append s (node ∷ []) a, grown.keeps a m);
      fresh = λ a m old. elim (Bool-cases (contains s a)) [
        | inl on ↦ grown.fresh a on (contains-tail node a marked old)
        | inr off ↦
            absurd (ground (arith, contains-append s (node ∷ []) a, string_eq.beq_iff node a, free))
      ];
      all = λ a m. ground (arith, contains-append s (node ∷ []) a);
      stacked = record {
        distinct = IsDistinct-append s node grown.stacked.distinct fresh;
        in_order = IsBehind-append g [] s node grown.stacked.in_order grown.all;
      };
    }
append_node-IsResult g marked node stack (Sorted.cycle state) free new grown = grown
append_node-IsResult g marked node stack Sorted.unfinished free new grown = grown
