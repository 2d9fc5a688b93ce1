-- ===== src/Tests/Dag.antt =====
-- pkg/itr/dag/resolver.go at concrete graphs, with numbers for the ids.
use dragonscale.Prelude.{ℕ, ◌≡◌, refl, List, [], ◌∷◌, some, ℕ_discrete}
use dragonscale.Itr.Dag.Resolver.{
  NodeState, Order, waves, cycle, less_one, is_zero, in_degrees, ready, ids_of, finished, add_wave,
  delete, decrement, decrement_each, dependent, dependents, emit_wave, order_from,
  topological_order,
}
use dragonscale.Itr.Dag.Degrees.{Distinct}
use dragonscale.Itr.Dag.Ordering.{Meets, topological_order-Meets}

program : Unit {0}
unfolding less_one is_zero in_degrees ready ids_of finished add_wave delete decrement decrement_each
    dependent dependents emit_wave order_from topological_order ℕ_discrete
program = tt

abbrev eq : Discrete ℕ
eq = ℕ_discrete

-- 3 needs 1 (twice) and 2, and 2 needs 1.
abbrev graph : List (NodeState ℕ)
graph =
    record { id = 3; depends_on = 1 ∷ 1 ∷ 2 ∷ [] }
    ∷ record { id = 1; depends_on = [] }
    ∷ record { id = 2; depends_on = 1 ∷ [] }
    ∷ []

graph_order : topological_order eq graph ≡ some (waves ((1 ∷ []) ∷ (2 ∷ []) ∷ (3 ∷ []) ∷ []))
unfolding program
graph_order = refl

graph-Distinct : Distinct eq graph
unfolding program
graph-Distinct = (refl, (refl, (refl, tt)))

topological_order-Meets_example :
    (o : Order ℕ) × (topological_order eq graph ≡ some o) × Meets eq graph [] o
topological_order-Meets_example = topological_order-Meets eq graph graph-Distinct

-- 4 and 5 need each other; 6 needs what is no node.
abbrev tangle : List (NodeState ℕ)
tangle =
    record { id = 1; depends_on = [] }
    ∷ record { id = 4; depends_on = 5 ∷ 1 ∷ [] }
    ∷ record { id = 5; depends_on = 4 ∷ [] }
    ∷ record { id = 6; depends_on = 9 ∷ [] }
    ∷ []

abbrev blocked : List ℕ
blocked = 4 ∷ 5 ∷ 6 ∷ []

tangle-Distinct : Distinct eq tangle
unfolding program
tangle-Distinct = (refl, (refl, (refl, (refl, tt))))

tangle_order : topological_order eq tangle ≡ some (cycle blocked)
unfolding program
tangle_order = refl
