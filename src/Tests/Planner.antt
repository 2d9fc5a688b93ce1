-- ===== src/Tests/Planner.antt =====
-- pkg/itr/dag/planner.go and router.go at concrete plans, with numbers for the ids.
use dragonscale.Prelude.{false, ℕ, ◌≡◌, ◌⊎◌, ◌↔◌, refl, List, [], ◌∷◌, none, some, inr, ℕ_discrete}
use dragonscale.Prelude.Text.{codes}
use dragonscale.Itr.Dag.Resolver.{
  less_one, is_zero, in_degrees, ready, ids_of, finished, add_wave, delete, decrement,
  decrement_each, dependent, dependents, emit_wave, order_from, topological_order,
}
use dragonscale.Itr.Dag.Replan.{starts, occurs}
use dragonscale.Itr.Dag.Plan.{
  PlanNode, NodeError, Services, ExecuteResult, answered, failed, join_failed, wave_failed,
}
use dragonscale.Itr.Dag.Executor.{put_state, states_from, execute}
use dragonscale.Itr.Dag.Planner.{
  empty_id, duplicate_id, depends_on_self, unknown_node, has_cycle, validate_ids, validate_deps,
  validate_edges, validate_order, validate_plan,
}
use dragonscale.Itr.Dag.Planner.Accepted.{WellFormed, validate_plan-none_iff}
use dragonscale.Itr.Dag.Planner.Blame.{FromDep}
use dragonscale.Itr.Dag.Planner.Runs.{accepted-run}
use dragonscale.Itr.Dag.Router.{
  auto, react, dag, any_occurs, count_occurs, classify_query, route, default_router_config, cut,
  until_fence, strip_fences, from_brace, to_brace, extract_json,
}
use dragonscale.Rlm.Strategy.{Strings}

program : Unit {0}
unfolding less_one is_zero in_degrees ready ids_of finished add_wave delete decrement decrement_each
    dependent dependents emit_wave order_from topological_order ℕ_discrete starts occurs put_state
    states_from validate_ids validate_deps validate_edges validate_order validate_plan any_occurs
    count_occurs classify_query route cut until_fence strip_fences from_brace to_brace extract_json
program = tt

abbrev eq : Discrete ℕ
eq = ℕ_discrete

abbrev node : ℕ → List ℕ → PlanNode ℕ ℕ
node id deps = record { id = id; depends_on = deps; payload = id }

-- 3 needs 1 and 2, and 2 needs 1; 0 stands for the empty id.
abbrev plan : List (PlanNode ℕ ℕ)
plan = node 3 (1 ∷ 2 ∷ []) ∷ node 1 [] ∷ node 2 (1 ∷ []) ∷ []

plan_accepted : validate_plan eq 0 plan ≡ none
unfolding program
plan_accepted = refl

blank_refused : validate_plan eq 0 (node 0 [] ∷ []) ≡ some empty_id
unfolding program
blank_refused = refl

twice_refused : validate_plan eq 0 (node 1 [] ∷ node 1 [] ∷ []) ≡ some (duplicate_id 1)
unfolding program
twice_refused = refl

self_refused : validate_plan eq 0 (node 1 (1 ∷ []) ∷ []) ≡ some (depends_on_self 1)
unfolding program
self_refused = refl

unknown_refused : validate_plan eq 0 (node 1 (7 ∷ []) ∷ []) ≡ some (unknown_node 1 7)
unfolding program
unknown_refused = refl

cycle_refused :
    validate_plan eq 0 (node 1 (2 ∷ []) ∷ node 2 (1 ∷ []) ∷ []) ≡ some (has_cycle (1 ∷ 2 ∷ []))
unfolding program
cycle_refused = refl

validate_plan-none_iff_example : (validate_plan eq 0 plan ≡ none) ↔ WellFormed eq 0 plan
validate_plan-none_iff_example = validate_plan-none_iff eq 0 plan

abbrev services : Services ℕ ℕ
services = record {
  respond = λ n outputs. record { result = n.id ∷ []; is_error = false; cost_tokens = 1 };
  expander = none;
  join = λ outputs. inr ([], 0);
}

accepted-run_example :
    ((res : ExecuteResult ℕ) × (execute eq services plan ≡ answered res))
    ⊎ ((message : List ℕ) × (execute eq services plan ≡ failed (join_failed message)))
    ⊎ ((e : NodeError ℕ) × (execute eq services plan ≡ failed (wave_failed e))
        × FromDep eq services plan (states_from eq [] plan) e)
accepted-run_example = accepted-run eq services 0 plan plan_accepted

abbrev plain_strings : Strings
plain_strings = record { to_lower = λ s. s; fields = λ s. s ∷ []; trim_space = λ s. s }

both_parallel : route plain_strings auto (codes "compare a with b") default_router_config ≡ dag
unfolding program
both_parallel = refl

plain_question : route plain_strings auto (codes "find x") default_router_config ≡ react
unfolding program
plain_question = refl

fenced : extract_json (codes "Plan: ```json {\"a\":1} ``` done") ≡ codes "{\"a\":1}"
unfolding program
fenced = refl

unopened : extract_json (codes "no } here") ≡ codes "no } here"
unfolding program
unopened = refl
