-- ===== src/Itr/Dag/Executor/Plans.antt =====
-- What pkg/itr/dag/executor.go answers for a plan whose `#node` references are to dependencies.
use dragonscale.Prelude.{
  ℕ, ◌≡◌, ap, ◌∙◌, true, List, [], ◌∷◌, Option, none, some, ite, arith, Memᴰ, Mem-cons, Bool-cases,
  Option-cases, inl, inr,
}
use dragonscale.Itr.Dag.Resolver.{NodeState}
use dragonscale.Itr.Dag.Degrees.{has_id}
use dragonscale.Itr.Dag.Plan.{PlanNode, NodeResult, ExecuteResult, answered, deps_ready}
use dragonscale.Itr.Dag.Executor.{
  outputs_of, result_of, states_from, execute, find_state, check_deps,
}
use dragonscale.Itr.Dag.Executor.Requests.{Command, Executor, services_of}
use dragonscale.Itr.Dag.Executor.Refs.{refs_declared, services_of-Local}
use dragonscale.Itr.Dag.Executor.States.{states_from-Distinct}
use dragonscale.Itr.Dag.Executor.Runs.{Explains}
use dragonscale.Itr.Dag.Executor.Ends.{execute-Complete, answered-Layers}
use dragonscale.Itr.Dag.Executor.Unique.{Complete, Layers-Agree}

module _ {K : Type 0} (dec : Discrete K) where
  -- `NodeResults[id]`.
  unfoldable pub find_output : K → List (K × List ℕ) → Option (List ℕ)
  find_output k [] = none
  find_output k ((j, text) ∷ rest) =
      let later = find_output k rest in ite (dec j k) (some text) later

  find_output-outputs_of :
      (k : K) (results : List (K × NodeResult K)) (r : NodeResult K)
      → result_of dec k results ≡ some r
      → find_output k (outputs_of results) ≡ some r.output
  unfolding find_output result_of
  find_output-outputs_of k [] r h = absurd (ground (arith, h))
  find_output-outputs_of k ((j, s) ∷ rest) r h = ground (arith, h, find_output-outputs_of k rest r)

module _ {K : Type 0} (dec : Discrete K) (states : List (NodeState K)) where
  -- Each dependency of the node is a node that has a result, without an error.
  pub record DepsDone (results : List (K × NodeResult K)) (k : K) : Type 0 where
    pub state : NodeState K
    pub found : find_state dec k states ≡ some state
    pub done :
        (d : K)
        → Memᴰ d state.depends_on
        → (has_id dec d states ≡ true)
          × (r : NodeResult K) × (result_of dec d results ≡ some r)
          × (r.err ≡ none)

  check_deps-done :
      (results : List (K × NodeResult K)) (deps : List K)
      → check_deps dec states results deps ≡ deps_ready
      → (d : K) → Memᴰ d deps
      → (has_id dec d states ≡ true)
        × (r : NodeResult K) × (result_of dec d results ≡ some r)
        × (r.err ≡ none)
  unfolding check_deps
  check_deps-done results [] h d m = elim m [ ]
  check_deps-done results (x ∷ deps) h d m = elim (Bool-cases (has_id dec x states)) [
    | inr e ↦ absurd (ground (arith, h, e))
    | inl e ↦ elim (Option-cases (result_of dec x results)) [
      | inl f ↦ absurd (ground (arith, h, e, f))
      | inr (r, f) ↦ elim (Option-cases r.err) [
        | inr (err, g) ↦ absurd (ground (arith, h, e, f, g))
        | inl g ↦ elim (Mem-cons m) [
          | inl p ↦ rw p (e, r, f, g)
          | inr o ↦ check_deps-done results deps (ground (arith, h, e, f, g)) d o
        ]
      ]
    ]
  ]

module _ (dec : Discrete (List ℕ)) (e : Executor) (session query : List ℕ)
    (n : PlanNode (List ℕ) Command) (ns : List (PlanNode (List ℕ) Command))
    (res : ExecuteResult (List ℕ)) where
  -- If each `#node` reference of a plan is to a dependency of its node, and the run of the plan
  -- answers, then each node's dependencies were all done without an error, and its result is what
  -- its run gives on the results that are returned.
  pub plan-Explains :
      (k : List ℕ)
      → refs_declared dec (states_from dec [] (n ∷ ns)) (n ∷ ns) ≡ true
      → execute dec (services_of e session query) (n ∷ ns) ≡ answered res
      → has_id dec k (states_from dec [] (n ∷ ns)) ≡ true
      → (results : List (List ℕ × NodeResult (List ℕ))) × (res.node_results ≡ outputs_of results)
        × (r : NodeResult (List ℕ)) × (find_output dec k res.node_results ≡ some r.output)
        × Explains dec
            (services_of e session query)
            (n ∷ ns)
            (states_from dec [] (n ∷ ns))
            results
            k
            r
        × DepsDone dec (states_from dec [] (n ∷ ns)) results k
  plan-Explains k declared h there =
      let states = states_from dec [] (n ∷ ns) in
      let services = services_of e session query in
      let local = services_of-Local dec e session query (n ∷ ns) states declared in
      let (results, same, full) = execute-Complete dec services n ns res local h in
      let (r, found, explains) = full k there in
      (
        results,
        same,
        r,
        ap (find_output dec k) same ∙ find_output-outputs_of dec k results r found,
        explains,
        record {
          state = explains.state;
          found = explains.found;
          done = check_deps-done dec states results explains.state.depends_on explains.ready;
        },
      )

  -- Under the same conditions no other results explain the plan: of each table in which every node
  -- has the result that its run on the table gives, whatever order it was filled in, the outputs
  -- are those that are returned.
  pub plan_unique :
      (other : List (List ℕ × NodeResult (List ℕ))) (k : List ℕ) (r : NodeResult (List ℕ))
      → refs_declared dec (states_from dec [] (n ∷ ns)) (n ∷ ns) ≡ true
      → execute dec (services_of e session query) (n ∷ ns) ≡ answered res
      → Complete dec (services_of e session query) (n ∷ ns) (states_from dec [] (n ∷ ns)) other
      → has_id dec k (states_from dec [] (n ∷ ns)) ≡ true
      → result_of dec k other ≡ some r
      → find_output dec k res.node_results ≡ some r.output
  plan_unique other k r declared h explains there found =
      let states = states_from dec [] (n ∷ ns) in
      let services = services_of e session query in
      let local = services_of-Local dec e session query (n ∷ ns) states declared in
      let (results, same, full) = execute-Complete dec services n ns res local h in
      let (ws, layers) = answered-Layers dec services n ns res h in
      let agree =
        Layers-Agree dec services (n ∷ ns) states local results other full explains [] ws
          (states_from-Distinct dec [] (n ∷ ns) tt) layers (λ j m. absurd (ground (arith, m))) k
          there in
      ap (find_output dec k) same ∙ find_output-outputs_of dec k results r (agree ∙ found)
