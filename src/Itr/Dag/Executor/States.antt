-- ===== src/Itr/Dag/Executor/States.antt =====
-- The states of a plan's nodes, and the nodes of a wave among them.
use dragonscale.Prelude.{
  ◌≡◌, refl, subst, true, false, not, ◌&&◌, ◌||◌, List, [], ◌∷◌, some, ite, if_pos, if_neg, ◌==◌,
  arith, Bool-cases, inl, inr,
}
use dragonscale.Itr.Dag.Resolver.{NodeState}
use dragonscale.Itr.Dag.Degrees.{mem, missing, has_id, Distinct}
use dragonscale.Itr.Dag.Waves.{layer, Free}
use dragonscale.Itr.Dag.Plan.{PlanNode}
use dragonscale.Itr.Dag.Executor.{put_state, states_from, find_state}

module _ {K : Type 0} (dec : Discrete K) where
  has_id-put_state :
      (k : K) (n : NodeState K) (ms : List (NodeState K))
      → has_id dec k (put_state dec n ms) ≡ (has_id dec k ms || ite (dec n.id k) true false)
  unfolding put_state
  has_id-put_state k n [] = ground arith
  has_id-put_state k n (m ∷ ms) = ground (arith, has_id-put_state k n ms)

  put_state-Distinct :
      (n : NodeState K) (ms : List (NodeState K))
      → Distinct dec ms
      → Distinct dec (put_state dec n ms)
  unfolding put_state
  put_state-Distinct n [] d = (refl, tt)
  put_state-Distinct n (m ∷ ms) d = elim (dec m.id n.id) [
    | yes p ↦ rw (if_pos _ p, put_state) (subst (λ i. has_id dec i ms ≡ false) p d.0, d.1)
    | no p ↦
        rw (if_neg _ p, put_state)
          (ground (arith, p, d.0, has_id-put_state m.id n ms), put_state-Distinct n ms d.1)
  ]

  -- The ids of a wave all have a state.
  abbrev pub AllIn : List K → List (NodeState K) → Type 0
  AllIn [] ns = Unit
  AllIn (k ∷ ks) ns = (has_id dec k ns ≡ true) × AllIn ks ns

  AllIn-cons :
      (ks : List K) (n : NodeState K) (ns : List (NodeState K)) → AllIn ks ns → AllIn ks (n ∷ ns)
  AllIn-cons [] n ns a = tt
  AllIn-cons (k ∷ ks) n ns a = (ground (arith, a.0), AllIn-cons ks n ns a.1)

  pub layer-AllIn : (done : List K) (ns : List (NodeState K)) → AllIn (layer dec done ns) ns
  layer-AllIn done [] = tt
  layer-AllIn done (n ∷ ns) =
      let rest = AllIn-cons (layer dec done ns) n ns (layer-AllIn done ns) in
      elim (Bool-cases (not (mem dec n.id done) && (missing dec done n.depends_on == 0))) [
        | inl h ↦ rw (h) (ground arith, rest)
        | inr h ↦ rw (h) rest
      ]

  -- A state that is found under a free id has no dependency that is not done.
  pub find_state-Free :
      (k : K) (done : List K) (ns : List (NodeState K))
      → has_id dec k ns ≡ true
      → Free dec k done ns
      → (s : NodeState K) × (find_state dec k ns ≡ some s) × (missing dec done s.depends_on ≡ 0)
  unfolding find_state
  find_state-Free k done [] h f = absurd (ground (arith, h))
  find_state-Free k done (n ∷ ns) h f = elim (dec n.id k) [
    | yes p ↦ (n, ground (arith, p), f.0 p)
    | no p ↦
        let (s, e, m) = find_state-Free k done ns (ground (arith, h, p)) f.1 in
        (s, rw (if_neg _ p, find_state) e, m)
  ]

  pub find_state-has_id :
      (k : K) (s : NodeState K) (ns : List (NodeState K))
      → find_state dec k ns ≡ some s
      → has_id dec k ns ≡ true
  unfolding find_state
  find_state-has_id k s [] h = absurd (ground (arith, h))
  find_state-has_id k s (n ∷ ns) h = ground (arith, h, find_state-has_id k s ns)

module _ {K P : Type 0} (dec : Discrete K) where
  pub states_from-Distinct :
      (states : List (NodeState K)) (ns : List (PlanNode K P))
      → Distinct dec states
      → Distinct dec (states_from dec states ns)
  unfolding states_from
  states_from-Distinct states [] d = d
  states_from-Distinct states (n ∷ ns) d =
      let s : NodeState K = record { id = n.id; depends_on = n.depends_on } in
      states_from-Distinct (put_state dec s states) ns (put_state-Distinct dec s states d)
