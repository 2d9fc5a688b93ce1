-- ===== src/Itr/Dag/Executor/Runs.antt =====
-- The waves run to their end, and what an answered plan has recorded of each node.
use dragonscale.Prelude.{
  ◌≡◌, refl, sym, ◌∙◌, subst, Bool, true, false, List, [], ◌∷◌, Option, none, some, arith,
  Option-cases, inl, inr, ◌⊎◌,
}
use dragonscale.Itr.Dag.Resolver.{NodeState}
use dragonscale.Itr.Dag.Degrees.{mem, has_id, Distinct}
use dragonscale.Itr.Dag.Waves.{
  layer, remaining, done_after, Runnable, missing-Runnable, layer-Runnable,
}
use dragonscale.Itr.Dag.Ordering.{Layers, all_done, wave_then}
use dragonscale.Itr.Dag.Plan.{
  PlanNode, NodeResult, NodeError, Services, failed, wave_failed, deps_ready, Ran, Progress,
}
use dragonscale.Itr.Dag.Executor.{
  add_tokens, find_state, result_of, check_deps, run_node, run_wave, joined, run_waves,
}
use dragonscale.Itr.Dag.Executor.States.{AllIn, layer-AllIn, find_state-Free}
use dragonscale.Itr.Dag.Executor.Dataflow.{
  check_deps-later, check_deps-waits, Local, run_node-some, run_node-ready, run_node-later,
}

abbrev pub is_set : {A : Type 0} → Option A → Bool
is_set none = false
is_set (some a) = true

none_both :
    {A : Type 0} (a b : Option A)
    → (elim a as (λ x. Option A) [ none ↦ b | some e ↦ some e ]) ≡ none
    → (a ≡ none) × (b ≡ none)
none_both none b h = (refl, h)
none_both (some e) b h = absurd (ground (arith, h))

module _ {K P : Type 0} (dec : Discrete K) (services : Services K P) (plan : List (PlanNode K P))
    (states : List (NodeState K)) where
  -- The results are those of the nodes that are done.
  abbrev Matches : List K → List (K × NodeResult K) → Type 0
  Matches done results = (j : K) → is_set (result_of dec j results) ≡ mem dec j done

  -- The node's result is what its run gives, on these results.
  pub record Explains (results : List (K × NodeResult K)) (k : K) (r : NodeResult K) : Type 0 where
    pub state : NodeState K
    pub found : find_state dec k states ≡ some state
    pub ready : check_deps dec states results state.depends_on ≡ deps_ready
    pub ran : Ran K
    pub runs : run_node dec services plan states results state ≡ some ran
    pub result : ran.result ≡ r

  abbrev pub Explained : List (K × NodeResult K) → Type 0
  Explained results =
      (k : K) (r : NodeResult K) → result_of dec k results ≡ some r → Explains results k r

  pub find_state-id :
      (k : K) (ns : List (NodeState K)) (s : NodeState K) → find_state dec k ns ≡ some s → s.id ≡ k
  unfolding find_state
  find_state-id k [] s h = absurd (ground (arith, h))
  find_state-id k (n ∷ ns) s h = elim (dec n.id k) [
    | yes p ↦ ground (arith, h, p)
    | no p ↦ find_state-id k ns s (ground (arith, h, p))
  ]

  Matches-cons :
      (k : K) (r : NodeResult K) (done : List K) (results : List (K × NodeResult K))
      → Matches done results
      → Matches (k ∷ done) ((k, r) ∷ results)
  unfolding result_of
  Matches-cons k r done results m j = ground (arith, m j)

  Explains-later :
      Local dec services plan states
      → (k : K) (new : NodeResult K) (results : List (K × NodeResult K))
      → result_of dec k results ≡ none
      → (j : K) (r : NodeResult K) → Explains results j r
      → Explains ((k, new) ∷ results) j r
  Explains-later local k new results fresh j r e =
      let own : e.state.id ≡ j = find_state-id j states e.state e.found in
      record {
        state = e.state;
        found = e.found;
        ready = check_deps-later dec states k new results fresh e.state.depends_on e.ready;
        ran = e.ran;
        runs =
            run_node-later dec services plan states local k new results fresh e.state
              (subst (λ i. find_state dec i states ≡ some e.state) (sym own) e.found) e.ready
            ∙ e.runs;
        result = e.result;
      }

  Sound : Progress K → Type 0
  Sound p = p.wave_err ≡ none → Explained p.results

  -- The progress after one node.
  abbrev pub after : K → Progress K → Ran K → Progress K
  after k p ran = record {
    results = (k, ran.result) ∷ p.results;
    tokens = add_tokens p.tokens ran.tokens;
    wave_err = elim p.wave_err [ none ↦ ran.wave_err | some e ↦ some e ];
  }

  after-Sound :
      Local dec services plan states
      → (k : K) (p : Progress K) (s : NodeState K) (ran : Ran K) → find_state dec k states ≡ some s
      → run_node dec services plan states p.results s ≡ some ran
      → result_of dec k p.results ≡ none
      → Sound p
      → Sound (after k p ran)
  unfolding Sound result_of
  after-Sound local k p s ran found runs fresh sound clean j r h =
      let (p_clean, ran_clean) = none_both p.wave_err ran.wave_err clean in
      let ready = run_node-ready dec services plan states p.results s ran runs ran_clean in
      elim (dec k j) [
        | yes e ↦ record {
          state = s;
          found = subst (λ i. find_state dec i states ≡ some s) e found;
          ready = check_deps-later dec states k ran.result p.results fresh s.depends_on ready;
          ran = ran;
          runs =
              run_node-later dec services plan states local k ran.result p.results fresh s
                (subst (λ i. find_state dec i states ≡ some s)
                  (sym (find_state-id k states s found)) found)
                ready
              ∙ runs;
          result = ground (arith, h, e);
        }
        | no e ↦
            Explains-later local k ran.result p.results fresh j r
              (sound p_clean j r (ground (arith, h, e)))
      ]

  run_wave-done :
      (ks done : List K) (p : Progress K)
      → AllIn dec ks states
      → Runnable dec ks done states
      → Matches done p.results
      → (q : Progress K) × (run_wave dec services plan states ks p ≡ some q)
        × Matches (done_after dec ks done) q.results
        × (Local dec services plan states → Sound p → Sound q)
  unfolding run_wave
  run_wave-done [] done p a r m = (p, refl, m, λ l s. s)
  run_wave-done (k ∷ ks) done p a r m =
      let (s, found, free) = find_state-Free dec k done states a.0 r.2 in
      let waits =
        check_deps-waits dec states done p.results s.depends_on free
          (λ j h e. ground (arith, m j, h, e)) in
      let (ran, runs) = run_node-some dec services plan states p.results s waits in
      let (q, ends, matches, sound) =
        run_wave-done ks (k ∷ done) (after k p ran) a.1
          (missing-Runnable dec k ks done states r.0 r.3)
          (Matches-cons k ran.result done p.results m) in
      let fresh : result_of dec k p.results ≡ none = ground (arith, m k, r.1) in
      (
        q,
        rw (found, runs, run_wave) ends,
        matches,
        λ local old. sound local (after-Sound local k p s ran found runs fresh old),
      )

  pub remaining_nil :
      (done : List K) (j : K) (ns : List (NodeState K))
      → remaining dec done ns ≡ []
      → has_id dec j ns ≡ true
      → mem dec j done ≡ true
  remaining_nil done j [] e h = absurd (ground (arith, h))
  remaining_nil done j (n ∷ ns) e h = elim (dec n.id j) [
    | yes p ↦ subst (λ i. mem dec i done ≡ true) p (ground (arith, e))
    | no p ↦ remaining_nil done j ns (ground (arith, e)) (ground (arith, h, p))
  ]

  -- The order's waves all run, and without an error of the wave the join ends the run.
  pub run_waves-ends :
      (ws : List (List K)) (done : List K) (p : Progress K)
      → Distinct dec states
      → Layers dec states done ws
      → Matches done p.results
      → p.wave_err ≡ none
      → ((e : NodeError K) × (run_waves dec services plan states ws p ≡ failed (wave_failed e)))
        ⊎ ((q : Progress K) × (run_waves dec services plan states ws p ≡ joined services q)
            × (Local dec services plan states → Explained p.results → Explained q.results)
            × ((j : K) → has_id dec j states ≡ true → is_set (result_of dec j q.results) ≡ true))
  unfolding run_waves Sound
  run_waves-ends [] done p d (all_done e) m clean =
      inr (p, refl, (λ l x. x), λ j h. m j ∙ remaining_nil done j states e h)
  run_waves-ends _ done p d (wave_then {ws = ws} ne rest) m clean =
      let w = layer dec done states in
      let (q, ends, matches, sound) =
        run_wave-done w done p (layer-AllIn dec done states) (layer-Runnable dec done states d) m in
      elim (Option-cases q.wave_err) [
        | inl e ↦
            rw (ends, e, run_waves)
              (elim (run_waves-ends _ (done_after dec w done) q d rest matches e) [
                | inl f ↦ inl f
                | inr (last, eq, explained, all) ↦
                    inr (last, eq, (λ l old. explained l (sound l (λ c. old) e)), all)
              ])
        | inr (err, e) ↦ inl (err, rw (ends, e, run_waves) refl)
      ]
