-- ===== src/Graph/Sorting.antt =====
-- relations.go, TopologicalSort: the sort ends, with the nodes behind their neighbors or at a cycle.
use asyncmachine_go.Base.{
  ℕ, zero, suc, ◌+◌, ◌<◌, ◌≡◌, refl, subst, true, false, [], ◌∷◌, String, contains, string_eq,
  arith, Bool-cases, inl, inr, ◌⊎◌, length, keys, IsSubset, IsDistinct, contains-cons_cases,
  contains-keys,
}
use asyncmachine_go.Slices.Laws.{length_of_subset}
use asyncmachine_go.Schema.{States}
use asyncmachine_go.Graph.{Graph, Sorted, vertices, visit_each, visit, visit_new, topological_sort}
use asyncmachine_go.Graph.Stacks.{
  Connected, IsStacked, IsResult, visit_each-IsResult, append_node-IsResult, stacked-IsResult,
}

-- The marked nodes: distinct, each with an edge, and each on a path to the node that is visited.
record IsTrail (g : Graph) (marked : States) (node : String) : Type 0 where
  once : IsDistinct marked
  inner : IsSubset marked (keys g)
  leads : (x : String) → contains marked x ≡ true → Connected g x node

pub vertices-key :
    (g : Graph) (x y : String) → contains (vertices g x) y ≡ true → contains (keys g) x ≡ true
unfolding contains
vertices-key g x y h = ground (arith, contains-keys x g)

next_IsTrail :
    (g : Graph) (marked : States) (node y : String)
    → IsTrail g marked node
    → contains marked node ≡ false
    → contains (vertices g node) y ≡ true
    → IsTrail g (node ∷ marked) y
next_IsTrail g marked node y trail free h = record {
  once = (free, trail.once);
  inner = λ a m. elim (contains-cons_cases node marked a m) [
    | inl same ↦ subst (λ x. contains (keys g) x ≡ true) same (vertices-key g node y h)
    | inr (other, m') ↦ trail.inner a m'
  ];
  leads = λ a m. elim (contains-cons_cases node marked a m) [
    | inl same ↦ subst (λ x. Connected g x y) same (Connected.edge h)
    | inr (other, m') ↦ Connected.behind (trail.leads a m') h
  ];
}

visit-IsResult :
    (n : ℕ) (g : Graph) (marked : States) (node : String) (stack : States)
    → IsTrail g marked node
    → length (keys g) < n + length marked
    → IsStacked g stack
    → IsResult g marked (node ∷ []) stack (visit n g marked node stack)
unfolding visit
visit-IsResult zero g marked node stack trail enough w =
    absurd (ground (arith, length_of_subset marked (keys g) trail.once trail.inner))
visit-IsResult (suc n) g marked node stack trail enough w =
    let result = IsResult g marked (node ∷ []) stack in
    elim (Bool-cases (contains marked node)) [
      | inl on ↦
          let found : result (Sorted.cycle node) = unfold IsResult in trail.leads node on in
          subst result (ground (arith)) found
      | inr free ↦ elim (Bool-cases (contains stack node)) [
        | inl old ↦ subst result (ground (arith)) (stacked-IsResult g marked node stack old w)
        | inr new ↦
            let rest = visit_each (visit n g (node ∷ marked)) (vertices g node) stack in
            let each : IsResult g (node ∷ marked) (vertices g node) stack rest =
              visit_each-IsResult g (node ∷ marked) (visit n g (node ∷ marked)) (vertices g node)
                stack
                (λ y s m w'.
                  visit-IsResult n g (node ∷ marked) y s (next_IsTrail g marked node y trail free m)
                    (omega arith) w')
                w in
            subst result (ground (arith))
              (append_node-IsResult g marked node stack rest free new each)
      ]
    ]

visit_new-IsResult :
    (g : Graph) (node : String) (stack : States)
    → IsStacked g stack
    → IsResult g [] (node ∷ []) stack (visit_new (suc (length (keys g))) g node stack)
unfolding visit_new
visit_new-IsResult g node stack w =
    let result = IsResult g [] (node ∷ []) stack in
    elim (Bool-cases (contains stack node)) [
      | inl old ↦ subst result (ground (arith)) (stacked-IsResult g [] node stack old w)
      | inr new ↦
          let trail : IsTrail g [] node = record {
            once = tt;
            inner = λ a m. absurd (unfold contains in ground (arith));
            leads = λ x m. absurd (unfold contains in ground (arith));
          } in
          subst result (ground (arith))
            (visit-IsResult (suc (length (keys g))) g [] node stack trail (omega arith) w)
    ]

sorted_or_cycle :
    (g : Graph) (order : States) (r : Sorted)
    → IsResult g [] order [] r
    → ((stack : States) × (r ≡ Sorted.sorted stack) × IsStacked g stack × IsSubset order stack)
      ⊎ ((state : String) × (r ≡ Sorted.cycle state) × Connected g state state)
unfolding IsResult
sorted_or_cycle g order (Sorted.sorted stack) w = inl (stack, refl, w.stacked, w.all)
sorted_or_cycle g order (Sorted.cycle state) w = inr (state, refl, w)
sorted_or_cycle g order Sorted.unfinished w = absurd w

-- TopologicalSort ends, in one of two ways, in whatever order the keys come. It returns a list of
-- distinct states that has all the keys, each behind all its neighbors; or its error names a state
-- that is on a cycle of the graph.
pub topological_sort_lem :
    (g : Graph) (order : States)
    → ((stack : States) × (topological_sort g order ≡ Sorted.sorted stack)
        × IsStacked g stack
        × IsSubset order stack)
      ⊎ ((state : String) × (topological_sort g order ≡ Sorted.cycle state)
          × Connected g state state)
unfolding topological_sort
topological_sort_lem g order =
    let empty : IsStacked g [] = record { distinct = tt; in_order = tt } in
    sorted_or_cycle g order (topological_sort g order) (
      visit_each-IsResult g [] (visit_new (suc (length (keys g))) g) order []
        (λ x s m w. visit_new-IsResult g x s w) empty)
