-- ===== src/Itr/Dag/Executor.antt =====
-- `Execute` of pkg/itr/dag/executor.go over the waves of the topological order. A node's request
-- through the secure bus, the expansion of a long result and the joiner are parameters; a text is its
-- bytes. The goroutines of a wave are taken in the wave's order, each as one step.
pub mod Requests
pub mod States
pub mod Dataflow
pub mod Runs
pub mod Ends
pub mod Refs
pub mod Unique
pub mod Plans
use dragonscale.Prelude.{
  ℕ, zero, suc, ◌+◌, ◌%◌, ◌^◌, ◌≡◌, ◌⊎◌, inl, inr, Bool, true, false, not, ◌&&◌, List, [], ◌∷◌,
  ◌++◌, Option, none, some, length, ite, if◌then◌else◌,
}
use dragonscale.Prelude.Int.{ℤ, pos, ltb_ℤ}
use dragonscale.Itr.Dag.Resolver.{NodeState, Order, waves, cycle, topological_order}
use dragonscale.Itr.Dag.Degrees.{has_id}
use dragonscale.Itr.Dag.Plan.{
  PlanNode, NodeError, node_failed, dependency_failed, unknown_dependency, not_in_plan,
  ExecuteError, cyclic, wave_failed, join_failed, NodeResult, Response, Services, ExecuteResult,
  Outcome, answered, failed, stalled, unfinished, DepCheck, deps_ready, deps_waiting, deps_failed,
  Ran, Progress,
}

-- `totalTokens += t`, a uint32.
abbrev pub add_tokens : ℕ → ℕ → ℕ
add_tokens a b = (a + b) % 2 ^ 32

abbrev pub outputs_of : {K : Type 0} → List (K × NodeResult K) → List (K × List ℕ)
outputs_of [] = []
outputs_of ((k, r) ∷ rs) = (k, r.output) ∷ outputs_of rs

module _ {K : Type 0} (dec : Discrete K) where
  -- `states[n.ID] = newNodeState(n.ID, n.DependsOn)`: a later node of the same id replaces one.
  unfoldable pub put_state : NodeState K → List (NodeState K) → List (NodeState K)
  put_state n [] = n ∷ []
  put_state n (m ∷ ms) = let rest = put_state n ms in ite (dec m.id n.id) (n ∷ ms) (m ∷ rest)

  unfoldable pub find_state : K → List (NodeState K) → Option (NodeState K)
  find_state k [] = none
  find_state k (n ∷ ns) = let rest = find_state k ns in ite (dec n.id k) (some n) rest

  unfoldable pub result_of : K → List (K × NodeResult K) → Option (NodeResult K)
  result_of k [] = none
  result_of k ((j, r) ∷ rs) = let rest = result_of k rs in ite (dec j k) (some r) rest

  -- What `resolveRefs` finds of an id; a node that is not done has the empty result.
  unfoldable pub output_at : List (NodeState K) → List (K × NodeResult K) → K → Option (List ℕ)
  output_at states results k =
      if has_id dec k states
      then some (elim (result_of k results) [ none ↦ [] | some r ↦ r.output ])
      else none

  -- The loop that waits for the dependencies.
  unfoldable pub check_deps : List (NodeState K) → List (K × NodeResult K) → List K → DepCheck K
  check_deps states results [] = deps_ready
  check_deps states results (d ∷ deps) =
      let rest = check_deps states results deps in
      if has_id dec d states
      then elim (result_of d results) [
        | none ↦ deps_waiting
        | some r ↦ elim r.err [ none ↦ rest | some e ↦ deps_failed (dependency_failed d e) ]
      ]
      else deps_failed (unknown_dependency d)

abbrev pub broken : {K : Type 0} → NodeError K → Ran K
broken e = record { result = record { output = []; err = some e }; tokens = 0; wave_err = some e }

module _ {K P : Type 0} where
  -- From the response on: the error, or the result, expanded if it is long.
  unfoldable pub settle : Services K P → K → Response → Ran K
  settle services k resp =
      let plain : Ran K = record {
        result = record { output = resp.result; err = none };
        tokens = resp.cost_tokens;
        wave_err = none;
      } in
      if resp.is_error
      then record {
        result = record { output = resp.result; err = some (node_failed k resp.result) };
        tokens = resp.cost_tokens;
        wave_err = none;
      }
      else elim services.expander [
        | none ↦ plain
        | some (threshold, expand) ↦
            if ltb_ℤ threshold (pos (length resp.result))
            then elim (expand resp.result) [
              | none ↦ plain
              | some (text, tokens) ↦ record {
                result = record { output = text; err = none };
                tokens = add_tokens resp.cost_tokens tokens;
                wave_err = none;
              }
            ]
            else plain
      ]

  -- Behind the last wave.
  unfoldable pub joined : Services K P → Progress K → Outcome K
  joined services p = elim (services.join (outputs_of p.results)) [
    | inl e ↦ failed (join_failed e)
    | inr (text, tokens) ↦ answered (record {
      final_answer = text;
      node_results = outputs_of p.results;
      total_tokens = add_tokens p.tokens tokens;
    })
  ]

module _ {K P : Type 0} (dec : Discrete K) where
  unfoldable pub states_from : List (NodeState K) → List (PlanNode K P) → List (NodeState K)
  states_from states [] = states
  states_from states (n ∷ ns) =
      states_from (put_state dec (record { id = n.id; depends_on = n.depends_on }) states) ns

  -- The first node of the plan of this id.
  unfoldable pub find_node : K → List (PlanNode K P) → Option (PlanNode K P)
  find_node k [] = none
  find_node k (n ∷ ns) = let rest = find_node k ns in ite (dec n.id k) (some n) rest

  -- The goroutine of a node.
  unfoldable pub run_node :
      Services K P
      → List (PlanNode K P)
      → List (NodeState K)
      → List (K × NodeResult K)
      → NodeState K
      → Option (Ran K)
  run_node services plan states results s = elim (check_deps dec states results s.depends_on) [
    | deps_waiting ↦ none
    | deps_failed e ↦ some (broken e)
    | deps_ready ↦ elim (find_node s.id plan) [
      | none ↦ some (record (broken (not_in_plan s.id)) { wave_err = none })
      | some n ↦ some (settle services s.id (services.respond n (output_at dec states results)))
    ]
  ]

  -- The nodes of a wave; `waveErr` is the first that is set.
  unfoldable pub run_wave :
      Services K P
      → List (PlanNode K P)
      → List (NodeState K)
      → List K
      → Progress K
      → Option (Progress K)
  run_wave services plan states [] p = some p
  run_wave services plan states (k ∷ ks) p = elim (find_state dec k states) [
    | none ↦ none
    | some s ↦ elim (run_node services plan states p.results s) [
      | none ↦ none
      | some ran ↦ run_wave services plan states ks (record {
        results = (k, ran.result) ∷ p.results;
        tokens = add_tokens p.tokens ran.tokens;
        wave_err = elim p.wave_err [ none ↦ ran.wave_err | some e ↦ some e ];
      })
    ]
  ]

  unfoldable pub run_waves :
      Services K P
      → List (PlanNode K P)
      → List (NodeState K)
      → List (List K)
      → Progress K
      → Outcome K
  run_waves services plan states [] p = joined services p
  run_waves services plan states (w ∷ ws) p = elim (run_wave services plan states w p) [
    | none ↦ stalled
    | some q ↦ elim q.wave_err [
      | some e ↦ failed (wave_failed e)
      | none ↦ run_waves services plan states ws q
    ]
  ]

  -- `Execute`.
  unfoldable pub execute : Services K P → List (PlanNode K P) → Outcome K
  execute services [] = answered (record { final_answer = []; node_results = []; total_tokens = 0 })
  execute services (n ∷ ns) =
      let states = states_from [] (n ∷ ns) in
      elim (topological_order dec states) [
        | none ↦ unfinished
        | some (cycle ks) ↦ failed (cyclic ks)
        | some (waves ws) ↦
            run_waves services (n ∷ ns) states ws
              (record { results = []; tokens = 0; wave_err = none })
      ]
