-- ===== src/Tests/Executor.antt =====
-- pkg/itr/dag/executor.go at a plan of two nodes.
use dragonscale.Prelude.{
  ℕ, ◌≡◌, ◌≢◌, refl, ap, ◌∙◌, true, false, List, [], ◌∷◌, ◌++◌, some, none, ℕ_discrete,
}
use dragonscale.Prelude.Text.{join_by, codes}
use dragonscale.Itr.Dag.Resolver.{
  NodeState, less_one, is_zero, in_degrees, ready, ids_of, finished, add_wave, delete, decrement,
  decrement_each, dependent, dependents, emit_wave, order_from, topological_order,
}
use dragonscale.Itr.Dag.Degrees.{has_id}
use dragonscale.Itr.Dag.Plan.{
  PlanNode, NodeResult, Response, ExecuteResult, answered, failed, wave_failed, dependency_failed,
  node_failed, stalled, unfinished,
}
use dragonscale.Itr.Dag.Executor.{
  put_state, find_state, result_of, output_at, check_deps, settle, joined, states_from, find_node,
  run_node, run_wave, run_waves, execute, outputs_of,
}
use dragonscale.Itr.Dag.Executor.Requests.{
  Command, tool_exec, exec_payload, search_payload, other_payload, ToolRequest, reference,
  node_to_request, execute_node, join, Executor, services_of,
}
use dragonscale.Itr.Dag.Executor.Refs.{refs_declared}
use dragonscale.Itr.Dag.Executor.Runs.{Explains}
use dragonscale.Itr.Dag.Executor.Ends.{execute-ends}
use dragonscale.Itr.Dag.Executor.Unique.{Complete, EachExplained, each-explained}
use dragonscale.Itr.Dag.Executor.Plans.{DepsDone, find_output, plan-Explains, plan_unique}

unfoldable cons_discrete :
    (a b : ℕ) (ps qs : List ℕ) → Dec (a ≡ b) → Dec (ps ≡ qs) → Dec (a ∷ ps ≡ b ∷ qs)
cons_discrete a b ps qs (yes p) (yes q) = yes (ap (λ x. x ∷ ps) p ∙ ap (λ l. b ∷ l) q)
cons_discrete a b ps qs (no p) q = no (λ e. p (cc))
cons_discrete a b ps qs (yes p) (no q) = no (λ e. q (cc))

unfoldable bytes_eq : Discrete (List ℕ)
bytes_eq [] [] = yes refl
bytes_eq [] (b ∷ qs) = no (λ e. cc)
bytes_eq (a ∷ ps) [] = no (λ e. cc)
bytes_eq (a ∷ ps) (b ∷ qs) = cons_discrete a b ps qs (ℕ_discrete a b) (bytes_eq ps qs)

program : Unit {0}
unfolding less_one is_zero in_degrees ready ids_of finished add_wave delete decrement decrement_each
    dependent dependents emit_wave order_from topological_order ℕ_discrete cons_discrete bytes_eq
    put_state find_state result_of output_at check_deps settle joined states_from find_node run_node
    run_wave run_waves execute join_by reference node_to_request execute_node join find_output
program = tt

-- The bus answers with the tool's name and its arguments, and with an error for the tool "bad".
abbrev echo : ToolRequest → Response
echo r = elim r.payload [
  | exec_payload name args ↦ record {
    result = name ++ args;
    is_error = elim name [ [] ↦ true | c ∷ cs ↦ false ];
    cost_tokens = 1;
  }
  | search_payload query limit ↦ record { result = query; is_error = false; cost_tokens = 1 }
  | other_payload name contents ↦ record { result = contents; is_error = false; cost_tokens = 1 }
]

abbrev echo_executor : Executor
echo_executor = record {
  bus = echo;
  marshal = λ s. some (b'"' ∷ (s ++ (b'"' ∷ [])));
  rlm_expand = none;
  joiner = none;
}

abbrev node : List ℕ → List ℕ → List ℕ → List (List ℕ) → PlanNode (List ℕ) Command
node id name args deps = record {
  id = id;
  depends_on = deps;
  payload = record { kind = tool_exec; payload = exec_payload name args };
}

abbrev second : PlanNode (List ℕ) Command
second = node (codes "b") (codes "y") (codes "<#nodea>") (codes "a" ∷ [])

abbrev first : PlanNode (List ℕ) Command
first = node (codes "a") (codes "x") (codes "{}") []

abbrev results : List (List ℕ × NodeResult (List ℕ))
results =
    (codes "b", record { output = codes "y<x{}>"; err = none })
    ∷ (codes "a", record { output = codes "x{}"; err = none })
    ∷ []

abbrev expected : ExecuteResult (List ℕ)
expected = record {
  final_answer = codes "y<x{}>\nx{}";
  node_results = outputs_of results;
  total_tokens = 2;
}

runs : execute bytes_eq (services_of echo_executor [] []) (second ∷ first ∷ []) ≡ answered expected
unfolding program
runs = refl

-- An error of the first node fails the second, and the wave.
dependency_fails :
    execute bytes_eq
      (services_of echo_executor [] [])
      (second ∷ node (codes "a") [] (codes "no") [] ∷ [])
    ≡ failed (wave_failed (dependency_failed (codes "a") (node_failed (codes "a") (codes "no"))))
unfolding program
dependency_fails = refl

-- A reference that keeps the "node" of an id finds no node, and stays in the text.
abbrev node1 : PlanNode (List ℕ) Command
node1 = node (codes "node1") (codes "x") [] []

unresolved :
    execute bytes_eq
      (services_of echo_executor [] [])
      (node1 ∷ node (codes "b") (codes "y") (codes "#node1") (codes "node1" ∷ []) ∷ [])
    ≡ answered (record {
      final_answer = codes "y#node1\nx";
      node_results = (codes "b", codes "y#node1") ∷ (codes "node1", codes "x") ∷ [];
      total_tokens = 2;
    })
unfolding program
unresolved = refl

abbrev states : List (NodeState (List ℕ))
states =
    record { id = codes "b"; depends_on = codes "a" ∷ [] }
    ∷ record { id = codes "a"; depends_on = [] }
    ∷ []

states_eq : states_from bytes_eq [] (second ∷ first ∷ []) ≡ states
unfolding program
states_eq = refl

declared :
    refs_declared bytes_eq (states_from bytes_eq [] (second ∷ first ∷ [])) (second ∷ first ∷ [])
    ≡ true
unfolding program
declared = refl

has_b : has_id bytes_eq (codes "b") (states_from bytes_eq [] (second ∷ first ∷ [])) ≡ true
unfolding program
has_b = refl

execute-ends_example :
    (execute bytes_eq (services_of echo_executor [] []) (second ∷ first ∷ []) ≢ stalled)
    × (execute bytes_eq (services_of echo_executor [] []) (second ∷ first ∷ []) ≢ unfinished)
execute-ends_example = execute-ends bytes_eq (services_of echo_executor [] []) (second ∷ first ∷ [])

plan-Explains_example :
    (rs : List (List ℕ × NodeResult (List ℕ))) × (expected.node_results ≡ outputs_of rs)
    × (r : NodeResult (List ℕ)) × (find_output bytes_eq (codes "b") expected.node_results
        ≡ some r.output)
    × Explains bytes_eq
        (services_of echo_executor [] [])
        (second ∷ first ∷ [])
        (states_from bytes_eq [] (second ∷ first ∷ []))
        rs
        (codes "b")
        r
    × DepsDone bytes_eq (states_from bytes_eq [] (second ∷ first ∷ [])) rs (codes "b")
plan-Explains_example =
    plan-Explains bytes_eq echo_executor [] [] second (first ∷ []) expected (codes "b") declared
      runs has_b

-- The same results, in the order in which the plan names the nodes.
abbrev other : List (List ℕ × NodeResult (List ℕ))
other =
    (codes "a", record { output = codes "x{}"; err = none })
    ∷ (codes "b", record { output = codes "y<x{}>"; err = none })
    ∷ []

other_each :
    EachExplained bytes_eq
      (services_of echo_executor [] [])
      (second ∷ first ∷ [])
      (states_from bytes_eq [] (second ∷ first ∷ []))
      other
      (states_from bytes_eq [] (second ∷ first ∷ []))
unfolding program
other_each = (
  (_, refl, record { state = _; found = refl; ready = refl; ran = _; runs = refl; result = refl }),
  (
    (
      _,
      refl,
      record { state = _; found = refl; ready = refl; ran = _; runs = refl; result = refl },
    ),
    tt,
  ),
)

other-Complete :
    Complete bytes_eq
      (services_of echo_executor [] [])
      (second ∷ first ∷ [])
      (states_from bytes_eq [] (second ∷ first ∷ []))
      other
other-Complete =
    each-explained bytes_eq (services_of echo_executor [] []) (second ∷ first ∷ [])
      (states_from bytes_eq [] (second ∷ first ∷ [])) other
      (states_from bytes_eq [] (second ∷ first ∷ [])) other_each

abbrev b_result : NodeResult (List ℕ)
b_result = record { output = codes "y<x{}>"; err = none }

other_b : result_of bytes_eq (codes "b") other ≡ some b_result
unfolding program
other_b = refl

plan_unique_example : find_output bytes_eq (codes "b") expected.node_results ≡ some (codes "y<x{}>")
plan_unique_example =
    plan_unique bytes_eq echo_executor [] [] second (first ∷ []) expected other (codes "b") b_result
      declared runs other-Complete has_b other_b
