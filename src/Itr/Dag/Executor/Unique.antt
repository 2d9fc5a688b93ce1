-- ===== src/Itr/Dag/Executor/Unique.antt =====
-- One table of results explains the nodes of a plan at most.
use dragonscale.Prelude.{
  ◌≡◌, refl, sym, ap, ◌∙◌, subst, true, List, [], ◌∷◌, some, arith, Option-cases, inl, inr,
}
use dragonscale.Itr.Dag.Resolver.{NodeState}
use dragonscale.Itr.Dag.Degrees.{mem, missing, missing-mem, has_id, Distinct}
use dragonscale.Itr.Dag.Waves.{layer, done_after, Free, Runnable, missing-Runnable, layer-Runnable}
use dragonscale.Itr.Dag.Ordering.{Layers, all_done, wave_then}
use dragonscale.Itr.Dag.Plan.{PlanNode, NodeResult, Services, deps_ready}
use dragonscale.Itr.Dag.Executor.{
  find_state, find_node, result_of, output_at, check_deps, run_node, settle,
}
use dragonscale.Itr.Dag.Executor.States.{AllIn, layer-AllIn, find_state-Free}
use dragonscale.Itr.Dag.Executor.Dataflow.{Local}
use dragonscale.Itr.Dag.Executor.Runs.{Explains, find_state-id, remaining_nil}

module _ {K P : Type 0} (dec : Discrete K) (services : Services K P) (plan : List (PlanNode K P))
    (states : List (NodeState K)) where
  -- Each node has a result in the table, and its run on the table gives it.
  abbrev pub Complete : List (K × NodeResult K) → Type 0
  Complete results =
      (k : K)
      → has_id dec k states ≡ true
      → (r : NodeResult K) × (result_of dec k results ≡ some r)
        × Explains dec services plan states results k r

  module _ (local : Local dec services plan states) (ps qs : List (K × NodeResult K))
      (full_a : Complete ps) (full_b : Complete qs) where
    abbrev pub Agree : List K → Type 0
    Agree done = (j : K) → mem dec j done ≡ true → result_of dec j ps ≡ result_of dec j qs

    run_node-Agree :
        (done : List K) (s : NodeState K)
        → Agree done
        → find_state dec s.id states ≡ some s
        → missing dec done s.depends_on ≡ 0
        → check_deps dec states ps s.depends_on ≡ deps_ready
        → check_deps dec states qs s.depends_on ≡ deps_ready
        → run_node dec services plan states ps s ≡ run_node dec services plan states qs s
    unfolding run_node output_at
    run_node-Agree done s agree found free ra rb = elim (Option-cases (find_node dec s.id plan)) [
      | inl e ↦ rw (ra, rb, e, run_node) refl
      | inr (n, e) ↦
          let same =
            local s n _ _ found e
              (λ d m. ground (arith, agree d (missing-mem dec d done s.depends_on free m))) in
          rw (ra, rb, e, run_node) (ap (λ resp. some (settle services s.id resp)) same)
    ]

    result_of-Agree :
        (k : K) (done : List K)
        → Agree done
        → has_id dec k states ≡ true
        → Free dec k done states
        → result_of dec k ps ≡ result_of dec k qs
    result_of-Agree k done agree there free =
        let (s, found, none_left) = find_state-Free dec k done states there free in
        let (ra, ga, ea) = full_a k there in
        let (rb, gb, eb) = full_b k there in
        let sa : ea.state ≡ s = ground (arith, ea.found, found) in
        let sb : eb.state ≡ s = ground (arith, eb.found, found) in
        let own =
          subst (λ i. find_state dec i states ≡ some s)
            (sym (find_state-id dec services plan states k states s found)) found in
        let same =
          run_node-Agree done s agree own none_left
            (subst (λ x. check_deps dec states ps x.depends_on ≡ deps_ready) sa ea.ready)
            (subst (λ x. check_deps dec states qs x.depends_on ≡ deps_ready) sb eb.ready) in
        let runs_a = subst (λ x. run_node dec services plan states ps x ≡ some ea.ran) sa ea.runs in
        let runs_b = subst (λ x. run_node dec services plan states qs x ≡ some eb.ran) sb eb.runs in
        let rans : ea.ran ≡ eb.ran = ground (arith, same, runs_a, runs_b) in
        ga ∙ ap some (sym ea.result ∙ ap (λ x. x.result) rans ∙ eb.result) ∙ sym gb

    wave-Agree :
        (ks done : List K)
        → AllIn dec ks states
        → Runnable dec ks done states
        → Agree done
        → Agree (done_after dec ks done)
    wave-Agree [] done a r agree = agree
    wave-Agree (k ∷ ks) done a r agree =
        wave-Agree ks (k ∷ done) a.1 (missing-Runnable dec k ks done states r.0 r.3) (λ j m.
          elim (dec k j) [
            | yes p ↦
                subst (λ i. result_of dec i ps ≡ result_of dec i qs) p
                  (result_of-Agree k done agree a.0 r.2)
            | no p ↦ agree j (ground (arith, m, p))
          ])

    pub Layers-Agree :
        (done : List K) (ws : List (List K))
        → Distinct dec states
        → Layers dec states done ws
        → Agree done
        → (k : K) → has_id dec k states ≡ true
        → result_of dec k ps ≡ result_of dec k qs
    Layers-Agree done [] d (all_done e) agree k there =
        agree k (remaining_nil dec services plan states done k states e there)
    Layers-Agree done _ d (wave_then {ws = ws} ne rest) agree k there =
        Layers-Agree (done_after dec (layer dec done states) done) ws d rest
          (wave-Agree (layer dec done states) done (layer-AllIn dec done states)
            (layer-Runnable dec done states d) agree)
          k there

  -- The same, a node at a time.
  abbrev pub EachExplained : List (K × NodeResult K) → List (NodeState K) → Type 0
  EachExplained results [] = Unit
  EachExplained results (n ∷ ns) =
      ((r : NodeResult K) × (result_of dec n.id results ≡ some r)
        × Explains dec services plan states results n.id r)
      × EachExplained results ns

  pub each-explained :
      (results : List (K × NodeResult K)) (ns : List (NodeState K))
      → EachExplained results ns
      → (k : K) → has_id dec k ns ≡ true
      → (r : NodeResult K) × (result_of dec k results ≡ some r)
        × Explains dec services plan states results k r
  each-explained results [] each k h = absurd (ground (arith, h))
  each-explained results (n ∷ ns) each k h = elim (dec n.id k) [
    | yes p ↦
        subst
          (λ i.
            (r : NodeResult K) × (result_of dec i results ≡ some r)
            × Explains dec services plan states results i r)
          p each.0
    | no p ↦ each-explained results ns each.1 k (ground (arith, h, p))
  ]
