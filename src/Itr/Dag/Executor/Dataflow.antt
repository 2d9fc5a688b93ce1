-- ===== src/Itr/Dag/Executor/Dataflow.antt =====
-- A node's run reads the results of its dependencies alone, so results that come later do not change
-- it.
use dragonscale.Prelude.{
  ℕ, ◌≡◌, ◌≢◌, refl, ap, subst, true, List, [], ◌∷◌, Memᴰ, Mem-cons, Option, none, some, arith,
  Option-cases, inl, inr,
}
use dragonscale.Itr.Dag.Resolver.{NodeState}
use dragonscale.Itr.Dag.Degrees.{mem, missing}
use dragonscale.Itr.Dag.Plan.{
  PlanNode, NodeResult, Services, DepCheck, deps_ready, deps_waiting, deps_failed, Ran, not_in_plan,
}
use dragonscale.Itr.Dag.Executor.{
  broken, find_state, result_of, output_at, check_deps, settle, find_node, run_node,
}

module _ {K : Type 0} (dec : Discrete K) (states : List (NodeState K)) where
  module _ (k : K) (r : NodeResult K) (results : List (K × NodeResult K))
      (fresh : result_of dec k results ≡ none) where
    check_deps-has :
        (d : K) (deps : List K)
        → check_deps dec states results deps ≡ deps_ready
        → Memᴰ d deps
        → result_of dec d results ≢ none
    unfolding check_deps
    check_deps-has d [] h m n = elim m [ ]
    check_deps-has d (e ∷ deps) h m n = elim (Mem-cons m) [
      | inl p ↦
          let none_yet : result_of dec e results ≡ none =
            subst (λ i. result_of dec i results ≡ none) p n in
          ground (arith, h, none_yet)
      | inr t ↦ check_deps-has d deps (ground (arith, h)) t n
    ]

    pub check_deps-later :
        (deps : List K)
        → check_deps dec states results deps ≡ deps_ready
        → check_deps dec states ((k, r) ∷ results) deps ≡ deps_ready
    unfolding check_deps result_of
    check_deps-later [] h = refl
    check_deps-later (d ∷ deps) h = elim (dec k d) [
      | yes p ↦
          let none_yet : result_of dec d results ≡ none =
            subst (λ i. result_of dec i results ≡ none) p fresh in
          absurd (ground (arith, h, none_yet))
      | no p ↦ ground (arith, h, p, check_deps-later deps)
    ]

    output_at-later :
        (deps : List K)
        → check_deps dec states results deps ≡ deps_ready
        → (d : K) → Memᴰ d deps
        → output_at dec states ((k, r) ∷ results) d ≡ output_at dec states results d
    unfolding check_deps result_of output_at
    output_at-later deps h d m = elim (dec k d) [
      | yes p ↦
          let none_yet : result_of dec d results ≡ none =
            subst (λ i. result_of dec i results ≡ none) p fresh in
          absurd (check_deps-has d deps h m none_yet)
      | no p ↦ ground (arith, p)
    ]

  pub check_deps-waits :
      (done : List K) (results : List (K × NodeResult K)) (deps : List K)
      → missing dec done deps ≡ 0
      → ((j : K) → mem dec j done ≡ true → result_of dec j results ≢ none)
      → check_deps dec states results deps ≢ deps_waiting
  unfolding check_deps
  check_deps-waits done results [] h c = ground arith
  check_deps-waits done results (d ∷ deps) h c =
      ground (arith, h, c d, check_deps-waits done results deps)

module _ {K P : Type 0} (dec : Discrete K) where
  -- The request of a node reads the outputs of the node's own dependencies alone.
  abbrev pub Local : Services K P → List (PlanNode K P) → List (NodeState K) → Type 0
  Local services plan states =
      (s : NodeState K) (n : PlanNode K P) (f g : K → Option (List ℕ))
      → find_state dec s.id states ≡ some s
      → find_node dec s.id plan ≡ some n
      → ((d : K) → Memᴰ d s.depends_on → f d ≡ g d)
      → services.respond n f ≡ services.respond n g

  pub run_node-some :
      (services : Services K P) (plan : List (PlanNode K P)) (states : List (NodeState K))
      (results : List (K × NodeResult K)) (s : NodeState K)
      → check_deps dec states results s.depends_on ≢ deps_waiting
      → (ran : Ran K) × (run_node dec services plan states results s ≡ some ran)
  unfolding run_node
  run_node-some services plan states results s h = go (check_deps dec states results s.depends_on) h
    where
      go :
          (c : DepCheck K)
          → c ≢ deps_waiting
          → (ran : Ran K) × ((elim c as (λ x. Option (Ran K)) [
            | deps_waiting ↦ none
            | deps_failed e ↦ some (broken e)
            | deps_ready ↦ elim (find_node dec s.id plan) as (λ x. Option (Ran K)) [
              | none ↦ some (record (broken (not_in_plan s.id)) { wave_err = none })
              | some n ↦
                  some (settle services s.id (services.respond n (output_at dec states results)))
            ]
          ])
              ≡ some ran)
      go deps_waiting w = absurd (w refl)
      go (deps_failed e) w = (broken e, refl)
      go deps_ready w = elim (Option-cases (find_node dec s.id plan)) [
        | inl e ↦ (record (broken (not_in_plan s.id)) { wave_err = none }, rw (e) refl)
        | inr (n, e) ↦
            (settle services s.id (services.respond n (output_at dec states results)), rw (e) refl)
      ]

  -- A run that sets no error of the wave had its dependencies.
  pub run_node-ready :
      (services : Services K P) (plan : List (PlanNode K P)) (states : List (NodeState K))
      (results : List (K × NodeResult K)) (s : NodeState K) (ran : Ran K)
      → run_node dec services plan states results s ≡ some ran
      → ran.wave_err ≡ none
      → check_deps dec states results s.depends_on ≡ deps_ready
  unfolding run_node
  run_node-ready services plan states results s ran h w = ground (arith, h, w)

  pub run_node-later :
      (services : Services K P) (plan : List (PlanNode K P)) (states : List (NodeState K))
      → Local services plan states
      → (k : K) (r : NodeResult K) (results : List (K × NodeResult K))
      → result_of dec k results ≡ none
      → (s : NodeState K) → find_state dec s.id states ≡ some s
      → check_deps dec states results s.depends_on ≡ deps_ready
      → run_node dec services plan states ((k, r) ∷ results) s
        ≡ run_node dec services plan states results s
  unfolding run_node
  run_node-later services plan states local k r results fresh s found h =
      elim (Option-cases (find_node dec s.id plan)) [
        | inl e ↦
            rw (h, check_deps-later dec states k r results fresh s.depends_on h, e, run_node) refl
        | inr (n, e) ↦
            let same =
              local s n _ _ found e (output_at-later dec states k r results fresh s.depends_on h) in
            rw (h, check_deps-later dec states k r results fresh s.depends_on h, e, run_node)
              (ap (λ resp. some (settle services s.id resp)) same)
      ]
