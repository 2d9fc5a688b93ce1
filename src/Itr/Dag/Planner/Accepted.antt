-- ===== src/Itr/Dag/Planner/Accepted.antt =====
-- Which plans `validatePlan` of pkg/itr/dag/planner.go accepts.
use dragonscale.Prelude.{
  ℕ, ◌<◌, ◌≡◌, ◌≢◌, ◌↔◌, refl, sym, ap, ◌∙◌, subst, true, List, [], ◌∷◌, Option, none, some, Memᴰ,
  arith,
}
use dragonscale.Itr.Dag.Resolver.{Order, waves, cycle, topological_order}
use dragonscale.Itr.Dag.Degrees.{mem, Distinct}
use dragonscale.Itr.Dag.Plan.{PlanNode}
use dragonscale.Itr.Dag.Executor.{states_from}
use dragonscale.Itr.Dag.Planner.{
  plan_ids, validate_ids, validate_edges, validate_order, validate_plan,
}
use dragonscale.Itr.Dag.Planner.Ranks.{Ranked, wave_of, waves-Ranked, Ranked-waves}
use dragonscale.Itr.Dag.Planner.States.{
  as_state, as_states, has_id-as_states, as_states-Mem, Mem-as_states, states_from_new,
}
use dragonscale.Itr.Dag.Planner.Validation.{
  validate_ids_sound, validate_ids_complete, validate_edges_sound, validate_edges_complete,
}

module _ {K P : Type 0} (dec : Discrete K) where
  -- A plan has a node, no id is empty or there twice, each dependency is a node, and the nodes can
  -- be ranked so that each has a higher rank than its dependencies.
  pub record WellFormed (blank : K) (plan : List (PlanNode K P)) : Type 0 where
    pub some_node : plan ≢ []
    pub named : (n : PlanNode K P) → Memᴰ n plan → n.id ≢ blank
    pub distinct : Distinct dec (as_states plan)
    pub known :
        (n : PlanNode K P)
        → Memᴰ n plan
        → (d : K) → Memᴰ d n.depends_on
        → mem dec d (plan_ids plan) ≡ true
    pub ranked :
        (rank : K → ℕ) × ((n : PlanNode K P)
          → Memᴰ n plan
          → (d : K) → Memᴰ d n.depends_on
          → rank d < rank n.id)

  -- With no id twice, the order is that of the nodes as they stand in the plan.
  pub states_from-eq :
      (plan : List (PlanNode K P))
      → Distinct dec (as_states plan)
      → states_from dec [] plan ≡ as_states plan
  states_from-eq plan d = states_from_new dec [] plan (λ n m. refl) d

  pub validate_order-waves :
      (plan : List (PlanNode K P))
      → validate_order dec plan ≡ none
      → (ws : List (List K)) × (topological_order dec (states_from dec [] plan) ≡ some (waves ws))
  unfolding validate_order
  validate_order-waves plan h = go (topological_order dec (states_from dec [] plan)) refl
    where
      go :
          (r : Option (Order K))
          → topological_order dec (states_from dec [] plan) ≡ r
          → (ws : List (List K)) × (topological_order dec (states_from dec [] plan)
              ≡ some (waves ws))
      go none e = absurd (ground (arith, h, e))
      go (some (cycle ks)) e = absurd (ground (arith, h, e))
      go (some (waves ws)) e = (ws, e)

  validate_order-Ranked :
      (plan : List (PlanNode K P))
      → Distinct dec (as_states plan)
      → validate_order dec plan ≡ none
      → (rank : K → ℕ) × Ranked dec (as_states plan) rank
  validate_order-Ranked plan d h =
      let (ws, e) = validate_order-waves plan h in
      (
        wave_of dec ws,
        waves-Ranked dec (as_states plan) d ws
            (subst (λ l. topological_order dec l ≡ some (waves ws)) (states_from-eq plan d) e),
      )

  Ranked-order :
      (plan : List (PlanNode K P)) (rank : K → ℕ)
      → Distinct dec (as_states plan)
      → ((n : PlanNode K P) → Memᴰ n plan → (d : K) → Memᴰ d n.depends_on → rank d < rank n.id)
      → ((n : PlanNode K P)
          → Memᴰ n plan
          → (d : K) → Memᴰ d n.depends_on
          → mem dec d (plan_ids plan) ≡ true)
      → validate_order dec plan ≡ none
  unfolding validate_order
  Ranked-order plan rank distinct low known =
      let (ws, e) =
        Ranked-waves dec (as_states plan) rank distinct
          (λ s m d c.
            let (n, there, same) = as_states-Mem dec s plan m in
            subst (λ t. rank d < rank t.id) (sym same)
              (low n there d (subst (λ t. Memᴰ d t.depends_on) same c)))
          (λ s m d c.
            let (n, there, same) = as_states-Mem dec s plan m in
            has_id-as_states dec d plan
            ∙ known n there d (subst (λ t. Memᴰ d t.depends_on) same c)) in
      rw (states_from-eq plan distinct, e, validate_order) refl

  pub validate_plan-parts :
      (blank : K) (n : PlanNode K P) (ns : List (PlanNode K P))
      → validate_plan dec blank (n ∷ ns) ≡ none
      → (validate_ids dec blank [] (n ∷ ns) ≡ none)
        × (validate_edges dec (plan_ids (n ∷ ns)) (n ∷ ns) ≡ none)
        × (validate_order dec (n ∷ ns) ≡ none)
  unfolding validate_plan
  validate_plan-parts blank n ns h = ground (arith, h)

  pub accepted-WellFormed :
      (blank : K) (plan : List (PlanNode K P))
      → validate_plan dec blank plan ≡ none
      → WellFormed blank plan
  unfolding validate_plan
  accepted-WellFormed blank [] h = absurd (ground (arith, h))
  accepted-WellFormed blank (n ∷ ns) h =
      let plan = n ∷ ns in
      let (ids, edges, order) = validate_plan-parts blank n ns h in
      let (each, d) = validate_ids_sound dec blank [] plan ids in
      let (rank, low) = validate_order-Ranked plan d order in
      record {
        some_node = λ e. absurd (ground (arith, e));
        named = λ x m. (each x m).0;
        distinct = d;
        known = validate_edges_sound dec (plan_ids plan) plan edges;
        ranked = (rank, λ x m. low (as_state x) (Mem-as_states dec x plan m));
      }

  WellFormed-accepted :
      (blank : K) (plan : List (PlanNode K P))
      → WellFormed blank plan
      → validate_plan dec blank plan ≡ none
  unfolding validate_plan
  WellFormed-accepted blank [] w = absurd (w.some_node refl)
  WellFormed-accepted blank (n ∷ ns) w =
      let plan = n ∷ ns in
      let (rank, low) = w.ranked in
      let ids = validate_ids_complete dec blank [] plan (λ x m. (w.named x m, refl)) w.distinct in
      let edges =
        validate_edges_complete dec (plan_ids plan) plan
          (λ x m d c. (w.known x m d c, λ e. absurd (omega (arith, low x m d c, ap rank e)))) in
      rw (ids, edges, validate_plan) (Ranked-order plan rank w.distinct low w.known)

  -- `validatePlan` accepts a plan exactly when it has a node, no id is empty or there twice, each
  -- dependency is a node, and the nodes can be ranked so that each has a higher rank than its
  -- dependencies.
  pub validate_plan-none_iff :
      (blank : K) (plan : List (PlanNode K P))
      → validate_plan dec blank plan ≡ none ↔ WellFormed blank plan
  validate_plan-none_iff blank plan =
      (accepted-WellFormed blank plan, WellFormed-accepted blank plan)
