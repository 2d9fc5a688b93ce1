-- ===== src/Itr/Dag/Executor/Ends.antt =====
-- How `Execute` of pkg/itr/dag/executor.go ends, with the waves that `topologicalOrder` gives it.
use dragonscale.Prelude.{
  ◌≡◌, ◌≢◌, refl, true, List, [], ◌∷◌, none, some, arith, Option-cases, Sum-cases, inl, inr,
}
use dragonscale.Itr.Dag.Resolver.{Order, waves, cycle, topological_order}
use dragonscale.Itr.Dag.Degrees.{has_id}
use dragonscale.Itr.Dag.Ordering.{Layers, Meets, topological_order-Meets}
use dragonscale.Itr.Dag.Plan.{
  PlanNode, NodeResult, NodeError, Services, Outcome, answered, failed, wave_failed, cyclic,
  stalled, unfinished, Progress, ExecuteResult,
}
use dragonscale.Itr.Dag.Executor.{outputs_of, result_of, states_from, joined, execute}
use dragonscale.Itr.Dag.Executor.States.{states_from-Distinct}
use dragonscale.Itr.Dag.Executor.Dataflow.{Local}
use dragonscale.Itr.Dag.Executor.Unique.{Complete}
use dragonscale.Itr.Dag.Executor.Runs.{is_set, Explained, run_waves-ends}

module _ {K P : Type 0} (dec : Discrete K) (services : Services K P) (n : PlanNode K P)
    (ns : List (PlanNode K P)) where
  -- A cycle, the error of a wave, or the join of results that each node has.
  pub data Ends : Outcome K → Type 0 where
    ends_cyclic :
        (ks : List K)
        → topological_order dec (states_from dec [] (n ∷ ns)) ≡ some (cycle ks)
        → Ends (failed (cyclic ks))
    ends_failed : (e : NodeError K) → Ends (failed (wave_failed e))
    ends_joined :
        (q : Progress K)
        → (Local dec services (n ∷ ns) (states_from dec [] (n ∷ ns))
            → Explained dec services (n ∷ ns) (states_from dec [] (n ∷ ns)) q.results)
        → ((j : K)
            → has_id dec j (states_from dec [] (n ∷ ns)) ≡ true
            → is_set (result_of dec j q.results) ≡ true)
        → Ends (joined services q)

  order-Ends :
      (o : Order K)
      → topological_order dec (states_from dec [] (n ∷ ns)) ≡ some o
      → Meets dec (states_from dec [] (n ∷ ns)) [] o
      → Ends (execute dec services (n ∷ ns))
  unfolding execute result_of
  order-Ends (cycle ks) e m = rw (e, execute) (ends_cyclic ks e)
  order-Ends (waves ws) e m =
      let states = states_from dec [] (n ∷ ns) in
      let start : Progress K = record { results = []; tokens = 0; wave_err = none } in
      let distinct = states_from-Distinct dec [] (n ∷ ns) tt in
      elim (run_waves-ends dec services (n ∷ ns) states ws [] start distinct m (λ j. refl) refl) [
        | inl (f, ends) ↦ rw (e, ends, execute) (ends_failed f)
        | inr (q, ends, explained, all) ↦
            rw (e, ends, execute)
              (ends_joined q (λ l. explained l (λ k r h. absurd (ground (arith, h)))) all)
      ]

  pub execute-Ends : Ends (execute dec services (n ∷ ns))
  execute-Ends =
      let states = states_from dec [] (n ∷ ns) in
      let (o, e, m) =
        topological_order-Meets dec states (states_from-Distinct dec [] (n ∷ ns) tt) in
      order-Ends o e m

joined-ne :
    {K P : Type 0} (services : Services K P) (q : Progress K)
    → (joined services q ≢ stalled) × (joined services q ≢ unfinished)
unfolding joined
joined-ne services q = elim (Sum-cases (services.join (outputs_of q.results))) [
  | inl (e, h) ↦ rw (h, joined) ((λ h. absurd (ground (arith, h))), λ h. absurd (ground (arith, h)))
  | inr (r, h) ↦ rw (h, joined) ((λ h. absurd (ground (arith, h))), λ h. absurd (ground (arith, h)))
]

joined-answered :
    {K P : Type 0} (services : Services K P) (q : Progress K) (res : ExecuteResult K)
    → joined services q ≡ answered res
    → res.node_results ≡ outputs_of q.results
unfolding joined
joined-answered services q res e = ground (arith, e)

module _ {K P : Type 0} (dec : Discrete K) (services : Services K P) where
  -- The run of a plan ends: no node waits for one that does not end, each node of a wave has a
  -- state, and the order's loop ends.
  pub execute-ends :
      (plan : List (PlanNode K P))
      → (execute dec services plan ≢ stalled) × (execute dec services plan ≢ unfinished)
  unfolding execute
  execute-ends [] = ((λ h. absurd (ground (arith, h))), λ h. absurd (ground (arith, h)))
  execute-ends (n ∷ ns) = Ends-ne (execute dec services (n ∷ ns)) (execute-Ends dec services n ns)
    where
      Ends-ne : (o : Outcome K) → Ends dec services n ns o → (o ≢ stalled) × (o ≢ unfinished)
      Ends-ne _ (ends_cyclic ks c) =
          ((λ h. absurd (ground (arith, h))), λ h. absurd (ground (arith, h)))
      Ends-ne _ (ends_failed e) =
          ((λ h. absurd (ground (arith, h))), λ h. absurd (ground (arith, h)))
      Ends-ne _ (ends_joined q x a) = joined-ne services q

  -- The results of an answered plan, each explained.
  pub execute-Complete :
      (n : PlanNode K P) (ns : List (PlanNode K P)) (res : ExecuteResult K)
      → Local dec services (n ∷ ns) (states_from dec [] (n ∷ ns))
      → execute dec services (n ∷ ns) ≡ answered res
      → (results : List (K × NodeResult K)) × (res.node_results ≡ outputs_of results)
        × Complete dec services (n ∷ ns) (states_from dec [] (n ∷ ns)) results
  execute-Complete n ns res local h =
      go (execute dec services (n ∷ ns)) (execute-Ends dec services n ns) h
    where
      go :
          (o : Outcome K)
          → Ends dec services n ns o
          → o ≡ answered res
          → (results : List (K × NodeResult K)) × (res.node_results ≡ outputs_of results)
            × Complete dec services (n ∷ ns) (states_from dec [] (n ∷ ns)) results
      go _ (ends_cyclic ks c) e = absurd (ground (arith, e))
      go _ (ends_failed f) e = absurd (ground (arith, e))
      go _ (ends_joined q explained all) e = (
        q.results,
        joined-answered services q res e,
        λ k there. elim (Option-cases (result_of dec k q.results)) [
          | inl m ↦ absurd (ground (arith, m, all k there))
          | inr (r, m) ↦ (r, m, explained local k r m)
        ],
      )

  pub answered-Layers :
      (n : PlanNode K P) (ns : List (PlanNode K P)) (res : ExecuteResult K)
      → execute dec services (n ∷ ns) ≡ answered res
      → (ws : List (List K)) × Layers dec (states_from dec [] (n ∷ ns)) [] ws
  unfolding execute
  answered-Layers n ns res h =
      let (o, e, m) =
        topological_order-Meets dec (states_from dec [] (n ∷ ns))
          (states_from-Distinct dec [] (n ∷ ns) tt) in
      layers_of o e m
    where
      layers_of :
          (o : Order K)
          → topological_order dec (states_from dec [] (n ∷ ns)) ≡ some o
          → Meets dec (states_from dec [] (n ∷ ns)) [] o
          → (ws : List (List K)) × Layers dec (states_from dec [] (n ∷ ns)) [] ws
      layers_of (cycle ks) e m = absurd (ground (arith, h, e))
      layers_of (waves ws) e m = (ws, m)
