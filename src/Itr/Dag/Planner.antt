-- ===== src/Itr/Dag/Planner.antt =====
-- `validatePlan` of pkg/itr/dag/planner.go. An error is a constructor for each message, with the ids
-- that it names.
pub mod Ranks
pub mod States
pub mod Validation
pub mod Accepted
pub mod Blame
pub mod Runs
use dragonscale.Prelude.{
  ℕ, ◌≡◌, Bool, true, false, List, [], ◌∷◌, Option, none, some, if◌then◌else◌,
}
use dragonscale.Itr.Dag.Resolver.{Order, waves, cycle, topological_order}
use dragonscale.Itr.Dag.Degrees.{mem}
use dragonscale.Itr.Dag.Plan.{PlanNode}
use dragonscale.Itr.Dag.Executor.{states_from}

-- `unordered` is an order whose loop does not end.
pub data PlanError (K : Type 0) : Type 0 where
  no_nodes empty_id unordered : PlanError K
  duplicate_id depends_on_self : K → PlanError K
  unknown_node : K → K → PlanError K
  has_cycle : List K → PlanError K

abbrev pub plan_ids : {K P : Type 0} → List (PlanNode K P) → List K
plan_ids [] = []
plan_ids (n ∷ ns) = n.id ∷ plan_ids ns

module _ {K : Type 0} (dec : Discrete K) where
  -- The loop over a node's dependencies.
  unfoldable pub validate_deps : List K → K → List K → Option (PlanError K)
  validate_deps ids id [] = none
  validate_deps ids id (d ∷ deps) =
      let rest = validate_deps ids id deps in
      if mem dec d ids
      then elim (dec d id) [ yes p ↦ some (depends_on_self id) | no p ↦ rest ]
      else some (unknown_node id d)

module _ {K P : Type 0} (dec : Discrete K) where
  -- The loop that fills `ids`; `blank` is the empty text.
  unfoldable pub validate_ids : K → List K → List (PlanNode K P) → Option (PlanError K)
  validate_ids blank seen [] = none
  validate_ids blank seen (n ∷ ns) = elim (dec n.id blank) [
    | yes p ↦ some empty_id
    | no p ↦
        let rest = validate_ids blank (n.id ∷ seen) ns in
        if mem dec n.id seen then some (duplicate_id n.id) else rest
  ]

  unfoldable pub validate_edges : List K → List (PlanNode K P) → Option (PlanError K)
  validate_edges ids [] = none
  validate_edges ids (n ∷ ns) = elim (validate_deps dec ids n.id n.depends_on) [
    | some e ↦ some e
    | none ↦ validate_edges ids ns
  ]

  unfoldable pub validate_order : List (PlanNode K P) → Option (PlanError K)
  validate_order plan = elim (topological_order dec (states_from dec [] plan)) [
    | none ↦ some unordered
    | some (waves ws) ↦ none
    | some (cycle ks) ↦ some (has_cycle ks)
  ]

  -- `validatePlan`; none is no error.
  unfoldable pub validate_plan : K → List (PlanNode K P) → Option (PlanError K)
  validate_plan blank [] = some no_nodes
  validate_plan blank (n ∷ ns) = elim (validate_ids blank [] (n ∷ ns)) [
    | some e ↦ some e
    | none ↦ elim (validate_edges (plan_ids (n ∷ ns)) (n ∷ ns)) [
      | some e ↦ some e
      | none ↦ validate_order (n ∷ ns)
    ]
  ]
