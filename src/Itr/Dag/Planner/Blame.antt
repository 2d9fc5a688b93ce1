-- ===== src/Itr/Dag/Planner/Blame.antt =====
-- The run of a plan that `validatePlan` accepts, in pkg/itr/dag/executor.go.
use dragonscale.Prelude.{
  ◌≡◌, ◌≢◌, refl, sym, ap, ◌∙◌, subst, true, List, [], ◌∷◌, Option, none, some, Memᴰ, arith,
  Option-cases, Sum-cases, inl, inr,
}
use dragonscale.Itr.Dag.Resolver.{NodeState}
use dragonscale.Itr.Dag.Degrees.{has_id}
use dragonscale.Itr.Dag.Plan.{
  PlanNode, NodeResult, NodeError, node_failed, dependency_failed, Services, failed, wave_failed,
  Ran, Progress, Response, DepCheck, deps_ready, deps_waiting, deps_failed,
}
use dragonscale.Itr.Dag.Executor.{
  broken, output_at, find_state, find_node, result_of, check_deps, settle, run_node, run_wave,
  joined, run_waves, outputs_of,
}
use dragonscale.Itr.Dag.Executor.Runs.{after, find_state-id}

module _ {K P : Type 0} where
  settle-blames :
      (services : Services K P) (k : K) (resp : Response) (e : NodeError K)
      → (settle services k resp).result.err ≡ some e
      → (resp.is_error ≡ true) × (e ≡ node_failed k resp.result)
  unfolding settle
  settle-blames services k resp e h = (ground (arith, h), ground (arith, h))

  settle-wave_err :
      (services : Services K P) (k : K) (resp : Response) → (settle services k resp).wave_err ≡ none
  unfolding settle
  settle-wave_err services k resp = ground arith

module _ {K P : Type 0} (dec : Discrete K) where
  find_node-found :
      (k : K) (ns : List (PlanNode K P)) (n : PlanNode K P)
      → find_node dec k ns ≡ some n
      → Memᴰ n ns × (n.id ≡ k)
  unfolding find_node
  find_node-found k [] n h = absurd (ground (arith, h))
  find_node-found k (x ∷ ns) n h = elim (dec x.id k) [
    | yes p ↦
        let same : x ≡ n = ground (arith, h, p) in
        (Memᴰ.head (sym same), ap (λ y. y.id) (sym same) ∙ p)
    | no p ↦ let (m, e) = find_node-found k ns n (ground (arith, h, p)) in (Memᴰ.tail m, e)
  ]

module _ {K P : Type 0} (dec : Discrete K) (services : Services K P) (plan : List (PlanNode K P))
    (states : List (NodeState K)) where
  -- A node fails with an error: what its own request was answered, on some results; or the error of
  -- a node that it depends on, with that node's name.
  pub data Blamed : K → NodeError K → Type 0 where
    own :
        (n : PlanNode K P) (results : List (K × NodeResult K))
        → Memᴰ n plan
        → (services.respond n (output_at dec states results)).is_error ≡ true
        → Blamed n.id (node_failed n.id (services.respond n (output_at dec states results)).result)
    through :
        {e : NodeError K} {d : K}
        → (n : PlanNode K P) → Memᴰ n plan
        → Memᴰ d n.depends_on
        → Blamed d e
        → Blamed n.id (dependency_failed d e)

  abbrev pub AllBlame : List (K × NodeResult K) → Type 0
  AllBlame results =
      (k : K) (r : NodeResult K) (e : NodeError K)
      → result_of dec k results ≡ some r
      → r.err ≡ some e
      → Blamed k e

  -- An error of a wave is that of a dependency.
  abbrev pub FromDep : NodeError K → Type 0
  FromDep e = (k d : K) × (f : NodeError K) × (e ≡ dependency_failed d f) × Blamed k e

  abbrev pub WaveBlames : Option (NodeError K) → Type 0
  WaveBlames o = (e : NodeError K) → o ≡ some e → FromDep e

  check_deps-blames :
      (results : List (K × NodeResult K)) (deps : List K) (e : NodeError K)
      → AllBlame results
      → ((d : K) → Memᴰ d deps → has_id dec d states ≡ true)
      → check_deps dec states results deps ≡ deps_failed e
      → (d : K) × (f : NodeError K) × Memᴰ d deps × (e ≡ dependency_failed d f) × Blamed d f
  unfolding check_deps
  check_deps-blames results [] e all known h = absurd (ground (arith, h))
  check_deps-blames results (d ∷ deps) e all known h =
      elim (Option-cases (result_of dec d results)) [
        | inl m ↦ absurd (ground (arith, h, m, known d (Memᴰ.head refl)))
        | inr (r, m) ↦ elim (Option-cases r.err) [
          | inl clean ↦
              let (x, f, there, eq, b) =
                check_deps-blames results deps e all (λ x t. known x (Memᴰ.tail t))
                  (ground (arith, h, m, clean, known d (Memᴰ.head refl))) in
              (x, f, Memᴰ.tail there, eq, b)
          | inr (f, err) ↦ (
            d,
            f,
            Memᴰ.head refl,
            ground (arith, h, m, err, known d (Memᴰ.head refl)),
            all d r f m err,
          )
        ]
      ]

  -- Every state is that of a node of the plan and knows its dependencies.
  abbrev pub Settled : Type 0
  Settled =
      (k : K) (s : NodeState K)
      → find_state dec k states ≡ some s
      → ((d : K) → Memᴰ d s.depends_on → has_id dec d states ≡ true)
        × (find_node dec s.id plan ≢ none)
        × (n : PlanNode K P) × Memᴰ n plan
        × (n.id ≡ s.id)
        × (n.depends_on ≡ s.depends_on)

  -- What one node leaves.
  abbrev pub RanBlames : K → Ran K → Type 0
  RanBlames k ran =
      ((e : NodeError K) → ran.result.err ≡ some e → Blamed k e) × WaveBlames ran.wave_err

  broken-Blames :
      (n : PlanNode K P) (d : K) (f : NodeError K)
      → Memᴰ n plan
      → Memᴰ d n.depends_on
      → Blamed d f
      → RanBlames n.id (broken (dependency_failed d f))
  broken-Blames n d f there dep b =
      let all = through n there dep b in
      (
        λ e q.
            let same : dependency_failed d f ≡ e = ground (arith, q) in
            subst (λ x. Blamed n.id x) same all,
        λ e q.
            let same : dependency_failed d f ≡ e = ground (arith, q) in
            (n.id, d, f, sym same, subst (λ x. Blamed n.id x) same all),
      )

  own-Blames :
      (n : PlanNode K P) (results : List (K × NodeResult K)) (k : K)
      → Memᴰ n plan
      → n.id ≡ k
      → RanBlames k (settle services k (services.respond n (output_at dec states results)))
  own-Blames n results k there id =
      let resp = services.respond n (output_at dec states results) in
      (
        λ e q.
            let (bad, same) = settle-blames services k resp e q in
            subst (λ x. Blamed k x) (sym same)
              (subst (λ i. Blamed i (node_failed i resp.result)) id (own n results there bad)),
        λ e q. absurd (ground (arith, q, settle-wave_err services k resp)),
      )

  run_node-Blames :
      (results : List (K × NodeResult K)) (k : K) (s : NodeState K) (ran : Ran K)
      → AllBlame results
      → Settled
      → find_state dec k states ≡ some s
      → run_node dec services plan states results s ≡ some ran
      → RanBlames s.id ran
  unfolding run_node
  run_node-Blames results k s ran all settled found h =
      go (check_deps dec states results s.depends_on) refl
    where
      go : (c : DepCheck K) → check_deps dec states results s.depends_on ≡ c → RanBlames s.id ran
      go deps_waiting e = absurd (ground (arith, h, e))
      go (deps_failed f) e =
          let (known, here, n, there, id, deps) = settled k s found in
          let same : broken f ≡ ran = ground (arith, h, e) in
          let (d, g, dep, eq, b) = check_deps-blames results s.depends_on f all known e in
          subst (λ x. RanBlames s.id x) same
            (subst (λ x. RanBlames s.id (broken x)) (sym eq)
              (subst (λ i. RanBlames i (broken (dependency_failed d g))) id
                (broken-Blames n d g there (subst (λ l. Memᴰ d l) (sym deps) dep) b)))
      go deps_ready e = elim (Option-cases (find_node dec s.id plan)) [
        | inl m ↦ absurd ((settled k s found).1 m)
        | inr (n, m) ↦
            let resp = services.respond n (output_at dec states results) in
            let same : settle services s.id resp ≡ ran = ground (arith, h, e, m) in
            let (there, id) = find_node-found dec s.id plan n m in
            subst (λ x. RanBlames s.id x) same (own-Blames n results s.id there id)
      ]

  first-Blames :
      (a b : Option (NodeError K))
      → WaveBlames a
      → WaveBlames b
      → WaveBlames (elim a as (λ x. Option (NodeError K)) [ none ↦ b | some e ↦ some e ])
  first-Blames none b p q = q
  first-Blames (some e) b p q = p

  cons-Blames :
      (k : K) (r : NodeResult K) (results : List (K × NodeResult K))
      → ((e : NodeError K) → r.err ≡ some e → Blamed k e)
      → AllBlame results
      → AllBlame ((k, r) ∷ results)
  unfolding result_of
  cons-Blames k r results new all j s e h q = elim (dec k j) [
    | yes p ↦
        let same : r ≡ s = ground (arith, h, p) in
        subst (λ i. Blamed i e) p (new e (ap (λ x. x.err) same ∙ q))
    | no p ↦ all j s e (ground (arith, h, p)) q
  ]

  run_wave-Blames :
      (ks : List K) (p q : Progress K)
      → Settled
      → AllBlame p.results
      → WaveBlames p.wave_err
      → run_wave dec services plan states ks p ≡ some q
      → AllBlame q.results × WaveBlames q.wave_err
  unfolding run_wave
  run_wave-Blames [] p q known all blame h =
      let same : p ≡ q = ground (arith, h) in
      subst (λ x. AllBlame x.results × WaveBlames x.wave_err) same (all, blame)
  run_wave-Blames (k ∷ ks) p q known all blame h = elim (Option-cases (find_state dec k states)) [
    | inl e ↦ absurd (ground (arith, h, e))
    | inr (s, e) ↦ elim (Option-cases (run_node dec services plan states p.results s)) [
      | inl m ↦ absurd (ground (arith, h, e, m))
      | inr (ran, m) ↦
          let (err, wave) = run_node-Blames p.results k s ran all known e m in
          let id = find_state-id dec services plan states k states s e in
          run_wave-Blames ks (after dec services plan states k p ran) q known
            (cons-Blames k ran.result p.results (λ x y. subst (λ i. Blamed i x) id (err x y)) all)
            (first-Blames p.wave_err ran.wave_err blame wave) (ground (arith, h, e, m))
    ]
  ]

  pub run_waves-blames :
      (ws : List (List K)) (p : Progress K) (e : NodeError K)
      → Settled
      → AllBlame p.results
      → run_waves dec services plan states ws p ≡ failed (wave_failed e)
      → p.wave_err ≡ none
      → FromDep e
  unfolding run_waves joined
  run_waves-blames [] p e known all h clean =
      elim (Sum-cases (services.join (outputs_of p.results))) [
        | inl (x, m) ↦ absurd (ground (arith, h, m))
        | inr (x, m) ↦ absurd (ground (arith, h, m))
      ]
  run_waves-blames (w ∷ ws) p e known all h clean =
      elim (Option-cases (run_wave dec services plan states w p)) [
        | inl m ↦ absurd (ground (arith, h, m))
        | inr (q, m) ↦
            let (later, blame) =
              run_wave-Blames w p q known all (λ f x. absurd (ground (arith, x, clean))) m in
            elim (Option-cases q.wave_err) [
              | inl none_set ↦
                  run_waves-blames ws q e known later (ground (arith, h, m, none_set)) none_set
              | inr (f, set) ↦
                  let same : f ≡ e = ground (arith, h, m, set) in subst FromDep same (blame f set)
            ]
      ]
