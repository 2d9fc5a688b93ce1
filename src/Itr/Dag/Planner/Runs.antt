-- ===== src/Itr/Dag/Planner/Runs.antt =====
-- A plan that `validatePlan` of pkg/itr/dag/planner.go accepts, run by pkg/itr/dag/executor.go.
use dragonscale.Prelude.{
  ℕ, ◌≡◌, ◌≢◌, ◌⊎◌, refl, sym, ap, ◌∙◌, subst, true, List, [], ◌∷◌, none, some, Memᴰ, Mem-cons,
  arith, Sum-cases, inl, inr,
}
use dragonscale.Itr.Dag.Resolver.{NodeState}
use dragonscale.Itr.Dag.Degrees.{has_id}
use dragonscale.Itr.Dag.Plan.{
  PlanNode, NodeError, Services, ExecuteResult, Outcome, answered, failed, wave_failed, join_failed,
  Progress,
}
use dragonscale.Itr.Dag.Executor.{
  find_state, find_node, result_of, states_from, joined, add_tokens, execute, outputs_of,
}
use dragonscale.Itr.Dag.Executor.Ends.{Ends, ends_cyclic, ends_failed, ends_joined, execute-Ends}
use dragonscale.Itr.Dag.Planner.{validate_plan}
use dragonscale.Itr.Dag.Planner.States.{as_states, as_states-Mem, has_id-as_states}
use dragonscale.Itr.Dag.Planner.Accepted.{
  WellFormed, validate_order-waves, validate_plan-parts, accepted-WellFormed, states_from-eq,
}
use dragonscale.Itr.Dag.Planner.Blame.{FromDep, Settled, run_waves-blames}

module _ {K : Type 0} (dec : Discrete K) where
  find_state-Mem :
      (k : K) (s : NodeState K) (ns : List (NodeState K)) → find_state dec k ns ≡ some s → Memᴰ s ns
  unfolding find_state
  find_state-Mem k s [] h = absurd (ground (arith, h))
  find_state-Mem k s (n ∷ ns) h = elim (dec n.id k) [
    | yes p ↦ let same : n ≡ s = ground (arith, h, p) in Memᴰ.head (sym same)
    | no p ↦ Memᴰ.tail (find_state-Mem k s ns (ground (arith, h, p)))
  ]

module _ {K P : Type 0} (dec : Discrete K) where
  find_node-Mem :
      (n : PlanNode K P) (ns : List (PlanNode K P)) → Memᴰ n ns → find_node dec n.id ns ≢ none
  unfolding find_node
  find_node-Mem n [] m h = elim m [ ]
  find_node-Mem n (x ∷ ns) m h = elim (Mem-cons m) [
    | inl p ↦ let same : x.id ≡ n.id = ap (λ y. y.id) (sym p) in ground (arith, h, same)
    | inr t ↦ ground (arith, h, find_node-Mem n ns t)
  ]

module _ {K P : Type 0} (dec : Discrete K) (services : Services K P) (blank : K) where
  WellFormed-Settled :
      (plan : List (PlanNode K P))
      → WellFormed dec blank plan
      → Settled dec services plan (states_from dec [] plan)
  WellFormed-Settled plan w k s h =
      let eq = states_from-eq dec plan w.distinct in
      let (n, there, same) =
        as_states-Mem dec s plan (
          find_state-Mem dec k s (as_states plan)
            (subst (λ l. find_state dec k l ≡ some s) eq h)) in
      (
        λ d c.
            subst (λ l. has_id dec d l ≡ true) (sym eq)
              (has_id-as_states dec d plan
                ∙ w.known n there d (subst (λ t. Memᴰ d t.depends_on) same c)),
        subst (λ t. find_node dec t.id plan ≢ none) (sym same) (find_node-Mem dec n plan there),
        n,
        there,
        ap (λ t. t.id) (sym same),
        ap (λ t. t.depends_on) (sym same),
      )

  failed-blames :
      (n : PlanNode K P) (ns : List (PlanNode K P)) (e : NodeError K)
      → validate_plan dec blank (n ∷ ns) ≡ none
      → execute dec services (n ∷ ns) ≡ failed (wave_failed e)
      → FromDep dec services (n ∷ ns) (states_from dec [] (n ∷ ns)) e
  unfolding execute result_of
  failed-blames n ns e h failure =
      let plan = n ∷ ns in
      let (ws, order) = validate_order-waves dec plan (validate_plan-parts dec blank n ns h).2 in
      let start : Progress K = record { results = []; tokens = 0; wave_err = none } in
      run_waves-blames dec services plan (states_from dec [] plan) ws start e
        (WellFormed-Settled plan (accepted-WellFormed dec blank plan h))
        (λ k r f m q. absurd (ground (arith, m))) (ground (arith, failure, order)) refl

  -- The run of an accepted plan, when its context does not end, answers, or fails in the joiner, or
  -- fails with the error of a dependency of a node: the error that the request of some node was
  -- answered with, wrapped once for each node on the way by which the failing node depends on it,
  -- in the name of the node before. It never fails with a cycle, an unknown dependency or a node
  -- that is not in the plan.
  pub accepted-run :
      (plan : List (PlanNode K P))
      → validate_plan dec blank plan ≡ none
      → ((res : ExecuteResult K) × (execute dec services plan ≡ answered res))
        ⊎ ((message : List ℕ) × (execute dec services plan ≡ failed (join_failed message)))
        ⊎ ((e : NodeError K) × (execute dec services plan ≡ failed (wave_failed e))
            × FromDep dec services plan (states_from dec [] plan) e)
  unfolding validate_plan joined
  accepted-run [] h = absurd (ground (arith, h))
  accepted-run (n ∷ ns) h = go (execute dec services (n ∷ ns)) refl (execute-Ends dec services n ns)
    where
      go :
          (o : Outcome K)
          → execute dec services (n ∷ ns) ≡ o
          → Ends dec services n ns o
          → ((res : ExecuteResult K) × (execute dec services (n ∷ ns) ≡ answered res))
            ⊎ ((message : List ℕ) × (execute dec services (n ∷ ns) ≡ failed (join_failed message)))
            ⊎ ((e : NodeError K) × (execute dec services (n ∷ ns) ≡ failed (wave_failed e))
                × FromDep dec services (n ∷ ns) (states_from dec [] (n ∷ ns)) e)
      go _ e (ends_cyclic ks c) =
          let (ws, order) =
            validate_order-waves dec (n ∷ ns) (validate_plan-parts dec blank n ns h).2 in
          absurd (ground (arith, c, order))
      go _ e (ends_failed f) = inr (inr (f, e, failed-blames n ns f h e))
      go _ e (ends_joined q x a) = elim (Sum-cases (services.join (outputs_of q.results))) [
        | inl (message, m) ↦ inr (inl (message, e ∙ rw (m, joined) refl))
        | inr ((text, tokens), m) ↦ inl (
          record {
            final_answer = text;
            node_results = outputs_of q.results;
            total_tokens = add_tokens q.tokens tokens;
          },
          e ∙ rw (m, joined) refl,
        )
      ]
